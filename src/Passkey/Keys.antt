-- ===== src/Passkey/Keys.antt =====
-- What a signed-in user does with Passkeys in src/passkey.rs: their recovery email, and the passkeys
-- of their account.
use saros.Base.{
  ℕ, Bool, not, if◌then◌else◌, leb, Option, none, some, List, [], ◌∷◌, ◌++◌, length, any, map, keep,
  Text, text_eq, Outcome, ok, err,
}
use saros.Account.{Credential, StoredUser, Json}
use saros.Db.Table.{DbError, Table}
use saros.Db.Users.{UserRow, EmailOutcome, updated_email, taken_email, get, upsert_user}
use saros.Db.Users
use saros.Passkey.{
  max_pending, CredentialInfo, PasskeyError, email_taken, unknown_flow, no_such_user,
  no_such_credential, last_credential, too_many_pending, rng, db, Webauthn, register, authenticate,
  add_credential, Pending, Passkeys,
}
use saros.Passkey.Checks.{clean_label, checked_email}
use saros.Passkey.Ceremonies.{
  credential_id, info_of, sweep_pending, insert_pending, take_pending, Answer,
}

module _ {Key : Type 0} (W : Webauthn Key) (json : Json Key) (hex : List ℕ → Text)
    (T : Table UserRow) where
  abbrev pub email_of : Option (StoredUser Key) → Option Text
  email_of none = none
  email_of (some user) = user.email

  -- Passkeys::email
  unfoldable pub email : Text → Passkeys W T → Outcome PasskeyError (Option Text)
  email who s = elim (get json T who s.users) [
    | err e ↦ err (db e)
    | ok found ↦ ok (email_of found)
  ]

  unfoldable pub email_answer : Outcome DbError EmailOutcome → Outcome PasskeyError (Unit {0})
  email_answer (err e) = err (db e)
  email_answer (ok updated_email) = ok tt
  email_answer (ok taken_email) = err email_taken
  email_answer (ok EmailOutcome.no_such_user) = err no_such_user

  -- Passkeys::set_email
  unfoldable pub set_email : Text → Option Text → Passkeys W T → Answer W T (Unit {0})
  set_email who typed s = elim (checked_email typed) [
    | err e ↦ (err e, s)
    | ok email ↦
        let result = Users.set_email json T who email s.users in
        (email_answer result.0, record s { users = result.1 })
  ]

  abbrev pub infos : Option (StoredUser Key) → List CredentialInfo
  infos none = []
  infos (some user) = map (info_of W hex) user.credentials

  -- Passkeys::credentials
  unfoldable pub credentials : Text → Passkeys W T → Outcome PasskeyError (List CredentialInfo)
  credentials who s = elim (get json T who s.users) [
    | err e ↦ err (db e)
    | ok found ↦ ok (infos found)
  ]

  abbrev pub ids_of : StoredUser Key → List (List ℕ)
  ids_of user = map (λ (c : Credential Key). W.cred_id c.passkey) user.credentials

  -- The end of begin_add, with the account at hand.
  unfoldable pub begin_user :
      ℕ → ℕ → Option Text → StoredUser Key → Passkeys W T → Answer W T (Text × Text)
  begin_user now seed random user s =
      elim (W.start_registration seed user.uuid user.username (some (ids_of user))) [
        | err e ↦ (err e, s)
        | ok (challenge, state) ↦ elim random [
          | none ↦ (err rng, s)
          | some flow ↦
              let s' = insert_pending W T now flow (add_credential user.username state) s in
              elim (W.to_string (W.with_resident_key challenge)) [
                | err e ↦ (err e, s')
                | ok text ↦ (ok (flow, text), s')
              ]
        ]
      ]

  -- Passkeys::begin_add
  unfoldable pub begin_add : ℕ → ℕ → Option Text → Text → Passkeys W T → Answer W T (Text × Text)
  begin_add now seed random who s =
      let swept = sweep_pending W T now s in
      if leb max_pending (length swept.pending)
      then (err too_many_pending, swept)
      else elim (get json T who swept.users) [
        | err e ↦ (err (db e), swept)
        | ok none ↦ (err no_such_user, swept)
        | ok (some user) ↦ begin_user now seed random user swept
      ]

  abbrev pub labelled : ℕ → Text → Key → Credential Key
  labelled secs label key = record { passkey = key; label = clean_label label; added_at = secs }

  abbrev pub has_id : Text → Credential Key → Bool
  has_id id c = text_eq (credential_id W hex c) id

  abbrev pub with_credentials : List (Credential Key) → StoredUser Key → StoredUser Key
  with_credentials cs user = record user { credentials = cs }

  -- The write of an account, and the answer where it does not fail.
  unfoldable pub stored : {A : Type 0} → A → StoredUser Key → Passkeys W T → Answer W T A
  stored answer user s =
      let result = upsert_user json T user s.users in
      (elim result.0 [ err e ↦ err (db e) | ok tt ↦ ok answer ], record s { users = result.1 })

  unfoldable pub add_to : Credential Key → StoredUser Key → Passkeys W T → Answer W T CredentialInfo
  add_to c user s =
      if any (has_id (credential_id W hex c)) user.credentials
      then (ok (info_of W hex c), s)
      else stored (info_of W hex c) (with_credentials (user.credentials ++ c ∷ []) user) s

  unfoldable pub add_verified :
      Text → Outcome PasskeyError (Credential Key) → Passkeys W T → Answer W T CredentialInfo
  add_verified name (err e) s = (err e, s)
  add_verified name (ok c) s = elim (get json T name s.users) [
    | err e ↦ (err (db e), s)
    | ok none ↦ (err no_such_user, s)
    | ok (some user) ↦ add_to c user s
  ]

  -- The credential that an answer proves.
  abbrev pub verified : ℕ → Text → Text → W.Registration → Outcome PasskeyError (Credential Key)
  verified secs answer label state = elim (W.finish_registration answer state) [
    | err e ↦ err e
    | ok key ↦ ok (labelled secs label key)
  ]

  unfoldable pub add_taken :
      ℕ → Text → Text → Text → Option (Pending W) → Passkeys W T → Answer W T CredentialInfo
  add_taken secs answer label caller none s = (err unknown_flow, s)
  add_taken secs answer label caller (some p) s = elim p.ceremony [
    | register uuid name state ↦ (err unknown_flow, s)
    | authenticate state ↦ (err unknown_flow, s)
    | add_credential name state ↦
        if not (text_eq name caller)
        then (err unknown_flow, s)
        else add_verified name (verified secs answer label state) s
  ]

  -- Passkeys::finish_add
  unfoldable pub finish_add :
      ℕ → Text → Text → Text → Text → Passkeys W T → Answer W T CredentialInfo
  finish_add secs flow answer label caller s =
      let taken = take_pending W T flow s in add_taken secs answer label caller taken.0 taken.1

  unfoldable pub remove_from : Text → StoredUser Key → Passkeys W T → Answer W T (Unit {0})
  remove_from id user s =
      if not (any (has_id id) user.credentials)
      then (err no_such_credential, s)
      else if leb (length user.credentials) 1
      then (err last_credential, s)
      else stored tt (with_credentials (keep (λ c. not (has_id id c)) user.credentials) user) s

  -- Passkeys::remove
  unfoldable pub remove : Text → Text → Passkeys W T → Answer W T (Unit {0})
  remove who id s = elim (get json T who s.users) [
    | err e ↦ (err (db e), s)
    | ok none ↦ (err no_such_user, s)
    | ok (some user) ↦ remove_from id user s
  ]
