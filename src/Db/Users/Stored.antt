-- ===== src/Db/Users/Stored.antt =====
-- Reading back an account that src/db/users.rs has written.
use saros.Base.{
  ℕ, ◌≡◌, ◌≤◌, refl, sym, ap, ◌∙◌, inl, inr, true, not, Option, some, List, [], ◌∷◌, keep, tally,
  text_eq_refl, text_eq_iff, Outcome, ok, Option-cases, Outcome-cases,
}
use saros.Account.{StoredUser, Json, IsJson}
use saros.Db.Table.{DbError, Table, IsRelational}
use saros.Db.Table.Upsert.{upsert, upserted, rows-upsert, keep-upserted, keep-upserted_apart}
use saros.Db.Sessions.{first}
use saros.Db.Users.{
  UserRow, is_user, encode_user, user_row, rewritten, decoded, email_key, upsert_user, get,
}
use saros.Db.Users.Codec.{decode_user-encode_user}

module _ {Key : Type 0} (json : Json Key) (law : IsJson json) (T : Table UserRow)
    (tables : IsRelational T) where
  upsert_user-steps :
      (user : StoredUser Key) (s s' : T.State)
      → upsert_user json T user s ≡ (ok tt, s')
      → (bytes : List ℕ) × (encode_user json user ≡ ok bytes)
        × (T.rows s'
            ≡ upserted
                (is_user user.username)
                (rewritten user bytes)
                (user_row user bytes)
                (T.rows s))
  unfolding upsert_user
  upsert_user-steps user s s' d = elim (Outcome-cases (encode_user json user)) [
    | inr (x, e) ↦ cc (rw (e, upsert_user) at d)
    | inl (bytes, e) ↦ elim (Option-cases (T.select (is_user user.username) s)) [
      | inl f ↦ cc (rw (e, f, upsert_user) at d)
      | inr (rs, f) ↦
          elim (Option-cases
            (upsert T (is_user user.username) (rewritten user bytes) (user_row user bytes) rs s)) [
              | inl g ↦ cc (rw (e, f, g, upsert_user) at d)
              | inr (t, g) ↦ (
                bytes,
                e,
                ap (λ a. T.rows a.1) (sym (rw (e, f, g, upsert_user) at d))
                    ∙ rows-upsert T tables (is_user user.username) (rewritten user bytes)
                        (user_row user bytes) s t rs
                        (tables.select_rows (is_user user.username) s rs f) g,
              )
            ]
    ]
  ]

  same_row :
      (user : StoredUser Key) (bytes : List ℕ) (r : UserRow)
      → is_user user.username r ≡ true
      → rewritten user bytes r ≡ user_row user bytes
  same_row user bytes r h =
      ap {B = UserRow}
        (λ who. record { username = who; uuid = user.uuid; email = email_key user; bytes = bytes })
        (text_eq_iff r.username user.username h)

  -- A write of an account leaves the rows of all others as they were.
  pub others-upsert_user :
      (user : StoredUser Key) (s s' : T.State)
      → upsert_user json T user s ≡ (ok tt, s')
      → keep (λ r. not (is_user user.username r)) (T.rows s')
        ≡ keep (λ r. not (is_user user.username r)) (T.rows s)
  others-upsert_user user s s' d =
      let (bytes, encoded, rows) = upsert_user-steps user s s' d in
      ap (keep (λ r. not (is_user user.username r))) rows
      ∙ keep-upserted_apart (is_user user.username) (λ r. not (is_user user.username r))
          (rewritten user bytes) (user_row user bytes) (T.rows s) (λ r h. rw h refl) (λ r. refl)
          (rw (text_eq_refl user.username) refl)

  -- Where usernames are a key of the table, the account that has been written is the account that
  -- is read.
  pub get-upsert_user :
      (user : StoredUser Key) (found : Option (StoredUser Key)) (s s' : T.State)
      → tally (is_user user.username) (T.rows s) ≤ 1
      → upsert_user json T user s ≡ (ok tt, s')
      → get json T user.username s' ≡ ok found
      → found ≡ some user
  unfolding get
  get-upsert_user user found s s' key d g =
      elim (Option-cases (T.select (is_user user.username) s')) [
        | inl e ↦ cc (rw (e, get) at g)
        | inr (rs, e) ↦
            let (bytes, encoded, rows) = upsert_user-steps user s s' d in
            let there : rs ≡ user_row user bytes ∷ [] =
              tables.select_rows (is_user user.username) s' rs e
              ∙ ap (keep (is_user user.username)) rows
              ∙ keep-upserted (is_user user.username) (rewritten user bytes) (user_row user bytes)
                  (T.rows s) key (text_eq_refl user.username) (same_row user bytes) in
            let read : decoded json (first rs) ≡ ok (some user) =
              ap (λ xs. decoded json (first xs)) there
              ∙ rw (decode_user-encode_user json law user bytes encoded, decoded) refl in
            some_ok (sym (rw (e, get) at g) ∙ read)
      ]
    where
      some_ok :
          {a b : Option (StoredUser Key)}
          → Path (Outcome DbError (Option (StoredUser Key))) (ok a) (ok b)
          → a ≡ b
      some_ok h = cc
