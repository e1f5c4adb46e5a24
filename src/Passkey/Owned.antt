-- ===== src/Passkey/Owned.antt =====
-- Removing a passkey from an account of src/passkey.rs.
use saros.Base.{
  ℕ, ◌+◌, ◌≡◌, ◌≤◌, sym, ap, subst, inl, inr, Bool, true, not, leb, ltb, Option, some, List, [],
  ◌∷◌, length, any, keep, tally, Text, ok, arith, Bool-cases, Outcome-cases,
}
use saros.Account.{StoredUser, Json, IsJson}
use saros.Db.Table.{Table, IsRelational}
use saros.Db.Users.{UserRow, is_user, get, upsert_user}
use saros.Db.Users.Stored.{get-upsert_user}
use saros.Passkey.{Webauthn, Passkeys}
use saros.Passkey.Keys.{has_id, with_credentials, stored, remove_from, remove}

tally-not :
    {A : Type 0} (p : A → Bool) (xs : List A)
    → length xs ≡ tally p xs + length (keep (λ x. not (p x)) xs)
tally-not p [] = omega arith
tally-not p (x ∷ xs) = ground (arith, tally-not p xs)

module _ {Key : Type 0} (W : Webauthn Key) (json : Json Key) (hex : List ℕ → Text)
    (T : Table UserRow) where
  stored-ok :
      (user : StoredUser Key) (s s' : Passkeys W T)
      → stored W json hex T tt user s ≡ (ok tt, s')
      → upsert_user json T user s.users ≡ (ok tt, s'.users)
  unfolding stored
  stored-ok user s s' d = elim (Outcome-cases (upsert_user json T user s.users).0) [
    | inr (x, e) ↦ cc (ap (λ a. a.0) (rw (e, stored) at d))
    | inl (done, e) ↦ λ i. (e i, ((d i).1).users)
  ]

  remove-steps :
      (who id : Text) (user : StoredUser Key) (s s' : Passkeys W T)
      → get json T who s.users ≡ ok (some user)
      → remove W json hex T who id s ≡ (ok tt, s')
      → (ltb 1 (length user.credentials) ≡ true)
        × (upsert_user json T
              (with_credentials W json hex T
                (keep (λ c. not (has_id W json hex T id c)) user.credentials)
                user)
              s.users
            ≡ (ok tt, s'.users))
  unfolding remove remove_from
  remove-steps who id user s s' e d =
      elim (Bool-cases (any (has_id W json hex T id) user.credentials)) [
        | inr g ↦ cc (rw (e, g, remove, remove_from) at d)
        | inl g ↦ elim (Bool-cases (leb (length user.credentials) 1)) [
          | inl h ↦ cc (rw (e, g, h, remove, remove_from) at d)
          | inr h ↦ (ground (arith, h), stored-ok _ s s' (rw (e, g, h, remove, remove_from) at d))
        ]
      ]

  -- Removing a passkey takes the one with its id from the user's account, and never the last: where
  -- it succeeds, the account that is then read has all others, and at least one. The account's name is
  -- the one that it was asked by, at most one row of the table has that name, and at most one passkey
  -- of the account has the id.
  pub remove_lem :
      (law : IsJson json) (tables : IsRelational T) (who id : Text) (user : StoredUser Key)
      (found : Option (StoredUser Key)) (s s' : Passkeys W T)
      → user.username ≡ who
      → tally (is_user who) (T.rows s.users) ≤ 1
      → tally (has_id W json hex T id) user.credentials ≤ 1
      → get json T who s.users ≡ ok (some user)
      → remove W json hex T who id s ≡ (ok tt, s')
      → get json T who s'.users ≡ ok found
      → (found
          ≡ some (
              with_credentials W json hex T
                (keep (λ c. not (has_id W json hex T id c)) user.credentials)
                user))
        × (1 ≤ length (keep (λ c. not (has_id W json hex T id c)) user.credentials))
  remove_lem law tables who id user found s s' named key one e d g =
      let (several, written) = remove-steps who id user s s' e d in
      (
        get-upsert_user json law T tables
            (with_credentials W json hex T
              (keep (λ c. not (has_id W json hex T id c)) user.credentials) user)
            found s.users s'.users
            (subst (λ n. tally (is_user n) (T.rows s.users) ≤ 1) (sym named) key) written
            (subst (λ n. get json T n s'.users ≡ ok found) (sym named) g),
        ground (arith, several, one, tally-not (has_id W json hex T id) user.credentials),
      )
