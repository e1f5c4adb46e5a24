-- ===== src/Passkey/Adding.antt =====
-- Adding a passkey to an account of src/passkey.rs.
use saros.Base.{
  ℕ, ◌≡◌, ◌≤◌, ◌++◌, false, refl, sym, ap, subst, ◌∙◌, inl, inr, if◌then◌else◌, not, Option, some,
  List, [], ◌∷◌, any, keep, tally, Text, text_eq, text_eq_iff, dec_text, Outcome, ok, Option-cases,
  Bool-cases, Outcome-cases,
}
use saros.Base.Map
use saros.Account.{Credential, StoredUser, Json, IsJson}
use saros.Db.Table.{DbError, Table, IsRelational}
use saros.Db.Users.{UserRow, is_user, get, upsert_user}
use saros.Db.Users.Stored.{get-upsert_user, others-upsert_user}
use saros.Passkey.{
  CredentialInfo, PasskeyError, Webauthn, Ceremony, register, authenticate, add_credential, Pending,
  Passkeys,
}
use saros.Passkey.Ceremonies.{credential_id, info_of, take_pending}
use saros.Passkey.Keys.{
  labelled, has_id, with_credentials, stored, add_to, verified, add_verified, add_taken, finish_add,
}

module _ {Key : Type 0} (W : Webauthn Key) (json : Json Key) (hex : List ℕ → Text)
    (T : Table UserRow) where
  some_ok :
      {a b : CredentialInfo} → Path (Outcome PasskeyError CredentialInfo) (ok a) (ok b) → a ≡ b
  some_ok g = cc

  -- The account of a user to whom a passkey is added, which it may have already.
  abbrev pub with_added : Credential Key → StoredUser Key → StoredUser Key
  with_added c user =
      if any (has_id W json hex T (credential_id W hex c)) user.credentials
      then user
      else with_credentials W json hex T (user.credentials ++ c ∷ []) user

  -- What an added passkey rests on, and the account that is read when it has been added.
  abbrev pub Added :
      ℕ
      → Text
      → Text
      → Text
      → StoredUser Key
      → Option (StoredUser Key)
      → Pending W
      → CredentialInfo
      → Type 0
  Added secs answer label caller user found p info =
      (st : W.Registration) × (key : Key) × (p.ceremony ≡ add_credential caller st)
      × (W.finish_registration answer st ≡ ok key)
      × (info ≡ info_of W hex (labelled W json hex T secs label key))
      × (found ≡ some (with_added (labelled W json hex T secs label key) user))

  stored_answer :
      (made info : CredentialInfo) (user : StoredUser Key) (s s' : Passkeys W T)
      → stored W json hex T made user s ≡ (ok info, s')
      → (info ≡ made) × (upsert_user json T user s.users ≡ (ok tt, s'.users))
  unfolding stored
  stored_answer made info user s s' d = elim (Outcome-cases (upsert_user json T user s.users).0) [
    | inr (x, e) ↦ cc (ap (λ a. a.0) (rw (e, stored) at d))
    | inl (done, e) ↦
        let d' = rw (e, stored) at d in
        (sym (some_ok (ap (λ a. a.0) d')), λ i. (e i, ((d' i).1).users))
  ]

  -- The writes of an added passkey leave the rows of all other accounts, and give the account back.
  module _ (law : IsJson json) (tables : IsRelational T) (caller : Text) (user : StoredUser Key)
      (named : user.username ≡ caller) where
    Written : Credential Key → Passkeys W T → Passkeys W T → Type 0
    Written c s s' =
        ((found : Option (StoredUser Key))
          → get json T caller s'.users ≡ ok found
          → found ≡ some (with_added c user))
        × (keep (λ r. not (is_user caller r)) (T.rows s'.users)
            ≡ keep (λ r. not (is_user caller r)) (T.rows s.users))

    upsert-Written :
        (c : Credential Key) (s s' : Passkeys W T)
        → tally (is_user caller) (T.rows s.users) ≤ 1
        → any (has_id W json hex T (credential_id W hex c)) user.credentials ≡ false
        → upsert_user json T
            (with_credentials W json hex T (user.credentials ++ c ∷ []) user)
            s.users
          ≡ (ok tt, s'.users)
        → Written c s s'
    unfolding Written
    upsert-Written c s s' key absent written = (
      λ found g.
          get-upsert_user json law T tables
            (with_credentials W json hex T (user.credentials ++ c ∷ []) user) found s.users s'.users
            (subst (λ n. tally (is_user n) (T.rows s.users) ≤ 1) (sym named) key) written
            (subst (λ n. get json T n s'.users ≡ ok found) (sym named) g)
          ∙ ap some (rw absent refl),
      subst
          (λ n.
            keep (λ r. not (is_user n r)) (T.rows s'.users)
            ≡ keep (λ r. not (is_user n r)) (T.rows s.users))
          named
          (others-upsert_user json law T tables
            (with_credentials W json hex T (user.credentials ++ c ∷ []) user) s.users s'.users
            written),
    )

    add_to-Written :
        (c : Credential Key) (s s' : Passkeys W T) (info : CredentialInfo)
        → tally (is_user caller) (T.rows s.users) ≤ 1
        → get json T caller s.users ≡ ok (some user)
        → add_to W json hex T c user s ≡ (ok info, s')
        → (info ≡ info_of W hex c) × Written c s s'
    unfolding add_to Written
    add_to-Written c s s' info key there d =
        elim (Bool-cases (any (has_id W json hex T (credential_id W hex c)) user.credentials)) [
          | inl e ↦
              let d' = rw (e, add_to) at d in
              let left : s.users ≡ s'.users = ap (λ a. (a.1).users) d' in
              (
                sym (some_ok (ap (λ a. a.0) d')),
                (
                  λ found g.
                      some_user (sym (ap (get json T caller) (sym left) ∙ there) ∙ g)
                      ∙ ap some (rw e refl),
                  ap (λ t. keep (λ r. not (is_user caller r)) (T.rows t)) (sym left),
                ),
              )
          | inr e ↦
              let (made, written) =
                stored_answer (info_of W hex c) info _ s s' (rw (e, add_to) at d) in
              (made, upsert-Written c s s' key e written)
        ]
      where
        some_user :
            {a : StoredUser Key} {b : Option (StoredUser Key)}
            → Path (Outcome DbError (Option (StoredUser Key))) (ok (some a)) (ok b)
            → b ≡ some a
        some_user g = cc

    add_verified-Written :
        (secs : ℕ) (answer label : Text) (st : W.Registration) (s s' : Passkeys W T)
        (info : CredentialInfo)
        → tally (is_user caller) (T.rows s.users) ≤ 1
        → get json T caller s.users ≡ ok (some user)
        → add_verified W json hex T caller (verified W json hex T secs answer label st) s
          ≡ (ok info, s')
        → (key : Key) × (W.finish_registration answer st ≡ ok key)
          × (info ≡ info_of W hex (labelled W json hex T secs label key))
          × Written (labelled W json hex T secs label key) s s'
    unfolding add_verified
    add_verified-Written secs answer label st s s' info one there d =
        elim (Outcome-cases (W.finish_registration answer st)) [
          | inr (x, e) ↦ cc (ap (λ a. a.0) (rw (e, add_verified) at d))
          | inl (key, e) ↦
              let (made, written) =
                add_to-Written (labelled W json hex T secs label key) s s' info one there
                  (rw (e, there, add_verified) at d) in
              (key, e, made, written)
        ]

    added :
        (secs : ℕ) (answer label : Text) (created : ℕ) (c : Ceremony W) (s s' : Passkeys W T)
        (found : Option (StoredUser Key)) (info : CredentialInfo)
        → tally (is_user caller) (T.rows s.users) ≤ 1
        → get json T caller s.users ≡ ok (some user)
        → add_taken W json hex T secs answer label caller
            (some (record { created = created; ceremony = c }))
            s
          ≡ (ok info, s')
        → get json T caller s'.users ≡ ok found
        → Added secs answer label caller user found
            (record { created = created; ceremony = c })
            info
          × (keep (λ r. not (is_user caller r)) (T.rows s'.users)
              ≡ keep (λ r. not (is_user caller r)) (T.rows s.users))
    unfolding add_taken Written
    added secs answer label created (register uuid name st) s s' found info one there d g =
        cc (ap (λ a. a.0) d)
    added secs answer label created (authenticate st) s s' found info one there d g =
        cc (ap (λ a. a.0) d)
    added secs answer label created (add_credential name st) s s' found info one there d g =
        elim (Bool-cases (text_eq name caller)) [
          | inr e ↦ cc (ap (λ a. a.0) (rw (e, add_taken) at d))
          | inl e ↦
              let same = text_eq_iff name caller e in
              let (key, proved, made, (read, others)) =
                add_verified-Written secs answer label st s s' info one there (
                  subst
                    (λ n.
                      add_verified W json hex T n (verified W json hex T secs answer label st) s
                      ≡ (ok info, s'))
                    same (rw (e, add_taken) at d)) in
              ((st, key, ap (λ n. add_credential n st) same, proved, made, read found g), others)
        ]

  -- A passkey is added only by answering a pending flow that the caller began to add one, as the
  -- library verified, and only to the caller's account: where it succeeds, the account that is then
  -- read under the caller's name is the one before with the new passkey at its end, or as it was if
  -- it had a passkey of that id, and the rows of all other users are as they were. The account's name
  -- is the caller's, and at most one row has it.
  pub finish_add_lem :
      (law : IsJson json) (tables : IsRelational T) (secs : ℕ) (flow answer label caller : Text)
      (user : StoredUser Key) (found : Option (StoredUser Key)) (info : CredentialInfo)
      (s s' : Passkeys W T)
      → user.username ≡ caller
      → tally (is_user caller) (T.rows s.users) ≤ 1
      → get json T caller s.users ≡ ok (some user)
      → finish_add W json hex T secs flow answer label caller s ≡ (ok info, s')
      → get json T caller s'.users ≡ ok found
      → (p : Pending W) × (Map.get dec_text flow s.pending ≡ some p)
        × Added secs answer label caller user found p info
        × (keep (λ r. not (is_user caller r)) (T.rows s'.users)
            ≡ keep (λ r. not (is_user caller r)) (T.rows s.users))
  unfolding finish_add take_pending add_taken
  finish_add_lem law tables secs flow answer label caller user found info s s' named one there d g =
      elim (Option-cases (Map.get dec_text flow s.pending)) [
        | inl e ↦ cc (ap (λ a. a.0) (rw (e, finish_add) at d))
        | inr (p, e) ↦
            let (proof, others) =
              added law tables caller user named secs answer label p.created p.ceremony
                (take_pending W T flow s).1 s' found info one there (rw (e, finish_add) at d) g in
            (p, e, proof, others)
      ]
