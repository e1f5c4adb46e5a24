-- ===== src/Passkey/Finishing.antt =====
-- A pending ceremony of src/passkey.rs is taken off the map by the call that finishes it.
use saros.Base.{
  ℕ, ◌≡◌, refl, inl, inr, leb, Option, none, some, List, length, any, Text, text_eq, dec_text,
  Outcome, ok, err, Option-cases, Bool-cases, Outcome-cases,
}
use saros.Base.Map
use saros.Base.Map.{Map, retain, length-insert-le, length-remove-le, get-remove_self}
use saros.Account.{Credential, StoredUser, Json}
use saros.Db.Table.{Table}
use saros.Db.Users.{UserRow, get}
use saros.Passkey.{
  PasskeyError, Webauthn, Ceremony, register, authenticate, add_credential, Pending, Passkeys,
}
use saros.Passkey.Checks.{checked_email}
use saros.Passkey.Ceremonies.{
  credential_id, take_pending, create_account, finish_register, finish_taken, finish,
}
use saros.Passkey.Keys.{
  set_email, has_id, stored, add_to, verified, add_verified, add_taken, finish_add, remove_from,
  remove,
}

module _ {Key : Type 0} (W : Webauthn Key) (json : Json Key) (hex : List ℕ → Text)
    (T : Table UserRow) where
  pending-finish_register :
      (secs : ℕ) (answer : Text) (typed : Option Text) (uuid name : Text) (st : W.Registration)
      (s : Passkeys W T)
      → (finish_register W json hex T secs answer typed uuid name st s).1.pending ≡ s.pending
  unfolding finish_register create_account
  pending-finish_register secs answer typed uuid name st s =
      elim (Outcome-cases (W.finish_registration answer st)) [
        | inr (x, e) ↦ rw (e, finish_register) refl
        | inl (key, e) ↦ elim (Outcome-cases (checked_email typed)) [
          | inr (x, f) ↦ rw (e, f, finish_register) refl
          | inl (email, f) ↦ rw (e, f, finish_register) refl
        ]
      ]

  pending-finish_taken :
      (secs : ℕ) (answer : Text) (typed : Option Text) (p : Option (Pending W)) (s : Passkeys W T)
      → (finish_taken W json hex T secs answer typed p s).1.pending ≡ s.pending
  unfolding finish_taken
  pending-finish_taken secs answer typed none s = refl
  pending-finish_taken secs answer typed (some p) s = by_ceremony p.created p.ceremony
    where
      by_ceremony :
          (created : ℕ) (c : Ceremony W)
          → (finish_taken W json hex T secs answer typed
              (some (record { created = created; ceremony = c }))
              s).1.pending
            ≡ s.pending
      by_ceremony created (register uuid name st) =
          pending-finish_register secs answer typed uuid name st s
      by_ceremony created (authenticate st) = refl
      by_ceremony created (add_credential name st) = refl

  pub pending-finish :
      (secs : ℕ) (flow answer : Text) (typed : Option Text) (s : Passkeys W T)
      → (finish W json hex T secs flow answer typed s).1.pending
        ≡ Map.remove dec_text flow s.pending
  unfolding finish take_pending
  pending-finish secs flow answer typed s = pending-finish_taken secs answer typed _ _

  pending-add_to :
      (c : Credential Key) (user : StoredUser Key) (s : Passkeys W T)
      → (add_to W json hex T c user s).1.pending ≡ s.pending
  unfolding add_to stored
  pending-add_to c user s =
      elim (Bool-cases (any (has_id W json hex T (credential_id W hex c)) user.credentials)) [
        | inl e ↦ rw (e, add_to) refl
        | inr e ↦ rw (e, add_to) refl
      ]

  pending-add_verified :
      (name : Text) (c : Outcome PasskeyError (Credential Key)) (s : Passkeys W T)
      → (add_verified W json hex T name c s).1.pending ≡ s.pending
  unfolding add_verified
  pending-add_verified name (err x) s = refl
  pending-add_verified name (ok c) s = elim (Outcome-cases (get json T name s.users)) [
    | inr (x, e) ↦ rw (e, add_verified) refl
    | inl (found, e) ↦ elim (Option-cases found) [
      | inl f ↦ rw (e, f, add_verified) refl
      | inr (user, f) ↦ rw (e, f, add_verified) (pending-add_to c user s)
    ]
  ]

  pending-add_taken :
      (secs : ℕ) (answer label caller : Text) (p : Option (Pending W)) (s : Passkeys W T)
      → (add_taken W json hex T secs answer label caller p s).1.pending ≡ s.pending
  unfolding add_taken
  pending-add_taken secs answer label caller none s = refl
  pending-add_taken secs answer label caller (some p) s = by_ceremony p.created p.ceremony
    where
      by_ceremony :
          (created : ℕ) (c : Ceremony W)
          → (add_taken W json hex T secs answer label caller
              (some (record { created = created; ceremony = c }))
              s).1.pending
            ≡ s.pending
      by_ceremony created (register uuid name st) = refl
      by_ceremony created (authenticate st) = refl
      by_ceremony created (add_credential name st) = elim (Bool-cases (text_eq name caller)) [
        | inr e ↦ rw e refl
        | inl e ↦ rw e (pending-add_verified name (verified W json hex T secs answer label st) s)
      ]

  pub pending-finish_add :
      (secs : ℕ) (flow answer label caller : Text) (s : Passkeys W T)
      → (finish_add W json hex T secs flow answer label caller s).1.pending
        ≡ Map.remove dec_text flow s.pending
  unfolding finish_add take_pending
  pending-finish_add secs flow answer label caller s =
      pending-add_taken secs answer label caller _ _

  pub pending-remove :
      (who id : Text) (s : Passkeys W T) → (remove W json hex T who id s).1.pending ≡ s.pending
  unfolding remove remove_from stored
  pending-remove who id s = elim (Outcome-cases (get json T who s.users)) [
    | inr (x, e) ↦ rw (e, remove) refl
    | inl (found, e) ↦ elim (Option-cases found) [
      | inl f ↦ rw (e, f, remove) refl
      | inr (user, f) ↦ elim (Bool-cases (any (has_id W json hex T id) user.credentials)) [
        | inr g ↦ rw (e, f, g, remove) refl
        | inl g ↦ elim (Bool-cases (leb (length user.credentials) 1)) [
          | inl h ↦ rw (e, f, g, h, remove) refl
          | inr h ↦ rw (e, f, g, h, remove) refl
        ]
      ]
    ]
  ]

  pub pending-set_email :
      (who : Text) (typed : Option Text) (s : Passkeys W T)
      → (set_email W json hex T who typed s).1.pending ≡ s.pending
  unfolding set_email
  pending-set_email who typed s = elim (Outcome-cases (checked_email typed)) [
    | inr (x, e) ↦ rw (e, set_email) refl
    | inl (email, e) ↦ rw (e, set_email) refl
  ]
