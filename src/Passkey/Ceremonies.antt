-- ===== src/Passkey/Ceremonies.antt =====
-- The operations of Passkeys in src/passkey.rs.
use saros.Base.{
  ℕ, ◌-◌, true, false, not, if◌then◌else◌, leb, ltb, Option, none, some, List, [], ◌∷◌, length, map,
  Text, text, text_eq, dec_text, trim, Outcome, ok, err,
}
use saros.Base.Map
use saros.Base.Map.{Map, retain}
use saros.Account.{Credential, StoredUser, Json}
use saros.Db.Table.{DbError, Table}
use saros.Db.Users.{UserRow, CreateOutcome, exists, by_uuid, create_if_absent}
use saros.Passkey.{
  pending_ttl, max_pending, CredentialInfo, PasskeyError, invalid_username, username_taken,
  email_taken, unknown_flow, no_such_user, too_many_pending, rng, db, PasskeyMode, registers,
  authenticates, Webauthn, Ceremony, register, authenticate, add_credential, Pending, Passkeys,
}
use saros.Passkey.Checks.{valid_username, checked_email}

module _ {Key : Type 0} (W : Webauthn Key) (hex : List ℕ → Text) where
  -- Credential::id
  abbrev pub credential_id : Credential Key → Text
  credential_id c = hex (W.cred_id c.passkey)

  abbrev pub info_of : Credential Key → CredentialInfo
  info_of c = record { id = credential_id c; label = c.label; added_at = c.added_at }

module _ {Key : Type 0} (W : Webauthn Key) (T : Table UserRow) where
  -- Passkeys::sweep_pending
  unfoldable pub sweep_pending : ℕ → Passkeys W T → Passkeys W T
  sweep_pending now s = record s {
    pending = retain (λ p. ltb (now - p.created) pending_ttl) s.pending;
  }

  -- Passkeys::insert_pending
  unfoldable pub insert_pending : ℕ → Text → Ceremony W → Passkeys W T → Passkeys W T
  insert_pending now flow ceremony s = record s {
    pending = Map.insert dec_text flow (record { created = now; ceremony = ceremony }) s.pending;
  }

  -- The flow that is finished, taken off the map.
  unfoldable pub take_pending : Text → Passkeys W T → Option (Pending W) × Passkeys W T
  take_pending flow s =
      (Map.get dec_text flow s.pending, record s { pending = Map.remove dec_text flow s.pending })

  abbrev pub Answer : Type 0 → Type 0
  Answer A = Outcome PasskeyError A × Passkeys W T

  -- The answer of begin, once the flow is pending.
  abbrev pub begun :
      Text
      → PasskeyMode
      → Outcome PasskeyError Text
      → Passkeys W T
      → Answer (Text × Text × PasskeyMode)
  begun flow mode printed s = elim printed [
    | err e ↦ (err e, s)
    | ok text ↦ (ok (flow, text, mode), s)
  ]

  unfoldable pub begin_authenticate :
      ℕ → ℕ → Text → Passkeys W T → Answer (Text × Text × PasskeyMode)
  begin_authenticate now seed flow s = elim (W.start_authentication seed) [
    | err e ↦ (err e, s)
    | ok (challenge, state) ↦
        begun flow authenticates (W.to_string challenge)
          (insert_pending now flow (authenticate state) s)
  ]

  unfoldable pub begin_register :
      ℕ → ℕ → Text → Text → Text → Passkeys W T → Answer (Text × Text × PasskeyMode)
  begin_register now seed uuid flow name s =
      if not (valid_username name)
      then (err invalid_username, s)
      else elim (exists T name s.users) [
        | err e ↦ (err (db e), s)
        | ok true ↦ (err username_taken, s)
        | ok false ↦ elim (W.start_registration seed uuid name none) [
          | err e ↦ (err e, s)
          | ok (challenge, state) ↦
              begun flow registers (W.to_string (W.with_resident_key challenge))
                (insert_pending now flow (register uuid name state) s)
        ]
      ]

  -- Passkeys::begin
  unfoldable pub begin :
      ℕ → ℕ → Text → Option Text → Text → Passkeys W T → Answer (Text × Text × PasskeyMode)
  begin now seed uuid random typed s =
      let swept = sweep_pending now s in
      if leb max_pending (length swept.pending)
      then (err too_many_pending, swept)
      else elim random [
        | none ↦ (err rng, swept)
        | some flow ↦
            if text_eq (trim typed) []
            then begin_authenticate now seed flow swept
            else begin_register now seed uuid flow (trim typed) swept
      ]

module _ {Key : Type 0} (W : Webauthn Key) (json : Json Key) (hex : List ℕ → Text)
    (T : Table UserRow) where
  abbrev pub first_credential : Key → ℕ → Credential Key
  first_credential key secs = record { passkey = key; label = text "passkey"; added_at = secs }

  unfoldable pub created_answer :
      Text → Outcome DbError CreateOutcome → Outcome PasskeyError (Text × PasskeyMode)
  created_answer name (err e) = err (db e)
  created_answer name (ok CreateOutcome.created) = ok (name, registers)
  created_answer name (ok CreateOutcome.username_taken) = err username_taken
  created_answer name (ok CreateOutcome.email_taken) = err email_taken

  unfoldable pub create_account :
      ℕ → Text → Text → Option Text → Key → Passkeys W T → Answer W T (Text × PasskeyMode)
  create_account secs uuid name email key s =
      let result =
        create_if_absent json T (λ t. t) (λ t. t)
          (record {
            uuid = uuid;
            username = name;
            credentials = first_credential key secs ∷ [];
            email = email;
          })
          s.users in
      (created_answer name result.0, record s { users = result.1 })

  unfoldable pub finish_register :
      ℕ
      → Text
      → Option Text
      → Text
      → Text
      → W.Registration
      → Passkeys W T
      → Answer W T (Text × PasskeyMode)
  finish_register secs answer typed uuid name state s = elim (W.finish_registration answer state) [
    | err e ↦ (err e, s)
    | ok key ↦ elim (checked_email typed) [
      | err e ↦ (err e, s)
      | ok email ↦ create_account secs uuid name email key s
    ]
  ]

  abbrev pub keys_of : StoredUser Key → List Key
  keys_of user = map (λ (c : Credential Key). c.passkey) user.credentials

  unfoldable pub finish_authenticate :
      Text → W.Authentication → T.State → Outcome PasskeyError (Text × PasskeyMode)
  finish_authenticate answer state users = elim (W.identify answer) [
    | err e ↦ err e
    | ok uuid ↦ elim (by_uuid json T uuid users) [
      | err e ↦ err (db e)
      | ok none ↦ err no_such_user
      | ok (some user) ↦ elim (W.finish_authentication answer state (keys_of user)) [
        | err e ↦ err e
        | ok tt ↦ ok (user.username, authenticates)
      ]
    ]
  ]

  unfoldable pub finish_taken :
      ℕ → Text → Option Text → Option (Pending W) → Passkeys W T → Answer W T (Text × PasskeyMode)
  finish_taken secs answer typed none s = (err unknown_flow, s)
  finish_taken secs answer typed (some p) s = elim p.ceremony [
    | register uuid name state ↦ finish_register secs answer typed uuid name state s
    | authenticate state ↦ (finish_authenticate answer state s.users, s)
    | add_credential name state ↦ (err unknown_flow, s)
  ]

  -- Passkeys::finish
  unfoldable pub finish :
      ℕ → Text → Text → Option Text → Passkeys W T → Answer W T (Text × PasskeyMode)
  finish secs flow answer typed s =
      let taken = take_pending W T flow s in finish_taken secs answer typed taken.0 taken.1
