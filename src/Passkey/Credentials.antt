-- ===== src/Passkey/Credentials.antt =====
-- What src/passkey.rs lets in, and what it leaves an account.
use saros.Base.{
  ℕ, ◌≡◌, refl, sym, ap, subst, ◌∙◌, inl, inr, Option, some, List, [], ◌∷◌, Text, dec_text, Outcome,
  ok, err, Option-cases, Outcome-cases,
}
use saros.Base.Map
use saros.Account.{StoredUser, Json}
use saros.Db.Table.{DbError, Table}
use saros.Db.Users.{UserRow, CreateOutcome, by_uuid, create_if_absent}
use saros.Passkey.{
  PasskeyError, PasskeyMode, registers, authenticates, Webauthn, Ceremony, register, authenticate,
  add_credential, Pending, Passkeys,
}
use saros.Passkey.Checks.{checked_email}
use saros.Passkey.Ceremonies.{
  first_credential, keys_of, take_pending, created_answer, create_account, finish_register,
  finish_authenticate, finish_taken, finish,
}

module _ {Key : Type 0} (W : Webauthn Key) (json : Json Key) (hex : List ℕ → Text)
    (T : Table UserRow) where
  -- What a sign-in rests on. One that registers has answered the registration of a pending flow, as
  -- the library verified, and created the account with the key that it proves. One that
  -- authenticates has answered the challenge of a pending flow with a key of the account that it
  -- is answered with, as the library verified.
  abbrev pub Proven :
      Passkeys W T → ℕ → Text → Option Text → Pending W → Text → PasskeyMode → Type 0
  Proven s secs answer typed p name registers =
      (uuid : Text) × (st : W.Registration) × (key : Key) × (email : Option Text) × (p.ceremony
        ≡ register uuid name st)
      × (W.finish_registration answer st ≡ ok key)
      × (checked_email typed ≡ ok email)
      × ((create_if_absent json T (λ t. t) (λ t. t)
            (record {
              uuid = uuid;
              username = name;
              credentials = first_credential W json hex T key secs ∷ [];
              email = email;
            })
            s.users).0
          ≡ ok CreateOutcome.created)
  Proven s secs answer typed p name authenticates =
      (st : W.Authentication) × (uuid : Text) × (user : StoredUser Key) × (p.ceremony
        ≡ authenticate st)
      × (W.identify answer ≡ ok uuid)
      × (by_uuid json T uuid s.users ≡ ok (some user))
      × (user.username ≡ name)
      × (W.finish_authentication answer st (keys_of W json hex T user) ≡ ok tt)

  some_ok :
      {a b : Text × PasskeyMode}
      → Path (Outcome PasskeyError (Text × PasskeyMode)) (ok a) (ok b)
      → a ≡ b
  some_ok g = cc

  created-eq :
      (name : Text) (o : Outcome DbError CreateOutcome) (who : Text) (mode : PasskeyMode)
      → created_answer W json hex T name o ≡ ok (who, mode)
      → (o ≡ ok CreateOutcome.created) × (name ≡ who) × (mode ≡ registers)
  unfolding created_answer
  created-eq name (err e) who mode h = cc
  created-eq name (ok CreateOutcome.username_taken) who mode h = cc
  created-eq name (ok CreateOutcome.email_taken) who mode h = cc
  created-eq name (ok CreateOutcome.created) who mode h =
      (refl, ap (λ a. a.0) (some_ok h), sym (ap (λ a. a.1) (some_ok h)))

  Proven-authenticate :
      (s : Passkeys W T) (secs : ℕ) (answer : Text) (typed : Option Text) (created : ℕ)
      (st : W.Authentication) (name : Text) (mode : PasskeyMode)
      → finish_authenticate W json hex T answer st s.users ≡ ok (name, mode)
      → Proven s secs answer typed
          (record { created = created; ceremony = authenticate st })
          name
          mode
  unfolding finish_authenticate
  Proven-authenticate s secs answer typed created st name mode d =
      elim (Outcome-cases (W.identify answer)) [
        | inr (x, e) ↦ cc (rw (e, finish_authenticate) at d)
        | inl (uuid, e) ↦ elim (Outcome-cases (by_uuid json T uuid s.users)) [
          | inr (x, f) ↦ cc (rw (e, f, finish_authenticate) at d)
          | inl (found, f) ↦ elim (Option-cases found) [
            | inl g ↦ cc (rw (e, f, g, finish_authenticate) at d)
            | inr (user, g) ↦
                elim (Outcome-cases
                  (W.finish_authentication answer st (keys_of W json hex T user))) [
                    | inr (x, h) ↦ cc (rw (e, f, g, h, finish_authenticate) at d)
                    | inl (done, h) ↦
                        let same = some_ok (rw (e, f, g, h, finish_authenticate) at d) in
                        subst
                          (Proven s secs answer typed
                            (record { created = created; ceremony = authenticate st }) name)
                          (ap (λ a. a.1) same)
                          (st, uuid, user, refl, e, f ∙ ap ok g, ap (λ a. a.0) same, h)
                  ]
          ]
        ]
      ]

  Proven-register :
      (s : Passkeys W T) (secs : ℕ) (answer : Text) (typed : Option Text) (created : ℕ)
      (uuid who : Text) (st : W.Registration) (name : Text) (mode : PasskeyMode)
      → (finish_register W json hex T secs answer typed uuid who st s).0 ≡ ok (name, mode)
      → Proven s secs answer typed
          (record { created = created; ceremony = register uuid who st })
          name
          mode
  unfolding finish_register create_account
  Proven-register s secs answer typed created uuid who st name mode d =
      elim (Outcome-cases (W.finish_registration answer st)) [
        | inr (x, e) ↦ cc (rw (e, finish_register) at d)
        | inl (key, e) ↦ elim (Outcome-cases (checked_email typed)) [
          | inr (x, f) ↦ cc (rw (e, f, finish_register) at d)
          | inl (email, f) ↦
              let (made, same, is_register) =
                created-eq who _ name mode (rw (e, f, finish_register) at d) in
              subst
                (Proven s secs answer typed
                  (record { created = created; ceremony = register uuid who st }) name)
                (sym is_register)
                (subst
                  (λ n.
                    Proven s secs answer typed
                      (record { created = created; ceremony = register uuid who st }) n registers)
                  same (uuid, st, key, email, refl, e, f, made))
        ]
      ]

  Proven-taken :
      (s : Passkeys W T) (secs : ℕ) (answer : Text) (typed : Option Text) (created : ℕ)
      (c : Ceremony W) (name : Text) (mode : PasskeyMode)
      → (finish_taken W json hex T secs answer typed
          (some (record { created = created; ceremony = c }))
          s).0
        ≡ ok (name, mode)
      → Proven s secs answer typed (record { created = created; ceremony = c }) name mode
  unfolding finish_taken
  Proven-taken s secs answer typed created (register uuid who st) name mode d =
      Proven-register s secs answer typed created uuid who st name mode d
  Proven-taken s secs answer typed created (authenticate st) name mode d =
      Proven-authenticate s secs answer typed created st name mode d
  Proven-taken s secs answer typed created (add_credential who st) name mode d = cc

  -- A sign-in that succeeds has answered a pending flow: the flow's own registration, as the library
  -- verified, with the account then created under the flow's name; or its challenge, with a key of
  -- the account that the library identified, which is the one signed in.
  pub finish_lem :
      (secs : ℕ) (flow answer : Text) (typed : Option Text) (name : Text) (mode : PasskeyMode)
      (s : Passkeys W T)
      → (finish W json hex T secs flow answer typed s).0 ≡ ok (name, mode)
      → (p : Pending W) × (Map.get dec_text flow s.pending ≡ some p)
        × Proven s secs answer typed p name mode
  unfolding finish take_pending finish_taken
  finish_lem secs flow answer typed name mode s d =
      elim (Option-cases (Map.get dec_text flow s.pending)) [
        | inl e ↦ cc (rw (e, finish) at d)
        | inr (p, e) ↦ (
          p,
          e,
          Proven-taken (take_pending W T flow s).1 secs answer typed p.created p.ceremony name mode
              (rw (e, finish) at d),
        )
      ]
