-- ===== src/Db/Users/Emails.antt =====
-- Users::set_email of src/db/users.rs.
use saros.Base.{
  ℕ, ◌≡◌, refl, sym, ap, subst, ◌∙◌, ◌⊎◌, inl, inr, Bool, true, false, not, ◌&&◌, Option, none,
  some, List, length, length-keep, tally, Text, text_eq_iff, Outcome, ok, arith, Option-cases,
  Outcome-cases, Bool-cases,
}
use saros.Account.{Json}
use saros.Db.Table.{DbError, Table, IsRelational, updated}
use saros.Db.Table.Upsert.{tally-updated-split, tally-updated_less}
use saros.Db.Sessions.{first}
use saros.Db.Users.{
  UserRow, is_user, has_email, is_key, encode_user, decode_user, with_email, normalized,
  email_written, is_others, key_taken, write_email, set_email,
}
use saros.Db.Users.Unique.{AreAccounts}

-- How many rows of other accounts have an email key.
abbrev others_claims : Text → Option Text → List UserRow → ℕ
others_claims who none rows = 0
others_claims who (some key) rows = tally (λ r. has_email key r && not (is_user who r)) rows

others_claims-eq :
    (who k : Text) (key : Option Text) (rows : List UserRow)
    → others_claims who key rows ≡ 0
    → is_key k key ≡ true
    → tally (λ r. has_email k r && not (is_user who r)) rows ≡ 0
others_claims-eq who k none rows h e = cc
others_claims-eq who k (some key) rows h e =
    subst (λ n. tally (λ r. has_email n r && not (is_user who r)) rows ≡ 0) (text_eq_iff key k e) h

-- A key that no other account has may be written to an account.
updated-AreAccounts :
    (who : Text) (key : Option Text) (bytes : List ℕ) (rows : List UserRow)
    → others_claims who key rows ≡ 0
    → AreAccounts rows
    → AreAccounts (updated (is_user who) (email_written key bytes) rows)
updated-AreAccounts who key bytes rows free kept k = (
  omega (
    arith,
    tally-updated_less (is_user k) (is_user who) (email_written key bytes) rows (λ r h. h),
    (kept k).0,
  ),
  elim (Bool-cases (is_key k key)) [
    | inl e ↦ omega (
      arith,
      tally-updated-split (has_email k) (is_user who) (email_written key bytes) rows,
      others_claims-eq who k key rows free e,
      (kept who).0,
    )
    | inr e ↦ omega (
      arith,
      tally-updated_less (has_email k) (is_user who) (email_written key bytes) rows
          (λ r h. ground (arith, e, h)),
      (kept k).1,
    )
  ],
)

module _ {Key : Type 0} (json : Json Key) (T : Table UserRow) (law : IsRelational T) where
  key_free :
      (who : Text) (key : Option Text) (s : T.State)
      → key_taken T who key s ≡ ok false
      → others_claims who key (T.rows s) ≡ 0
  unfolding key_taken
  key_free who none s h = refl
  key_free who (some key) s h = elim (Option-cases (T.select (is_others key who) s)) [
    | inl e ↦ cc (rw (e, key_taken) at h)
    | inr (rs, e) ↦ ground (
      arith,
      some_ok (rw (e, key_taken) at h),
      length-keep (is_others key who) (T.rows s),
      ap length (law.select_rows (is_others key who) s rs e),
    )
  ]
    where
      some_ok : {a b : Bool} → Path (Outcome DbError Bool) (ok a) (ok b) → a ≡ b
      some_ok g = cc

  -- What writing an email leaves: the rows as they were, or the row of the user with the email's key
  -- and the account that it held, with the email changed.
  pub write_email-cases :
      (who : Text) (email : Option Text) (row : UserRow) (s : T.State)
      → ((write_email json T who email row s).1 ≡ s)
        ⊎ ((bytes : List ℕ) × (T.rows (write_email json T who email row s).1
              ≡ updated (is_user who) (email_written (normalized email) bytes) (T.rows s)))
  unfolding write_email
  write_email-cases who email row s = elim (Outcome-cases (decode_user json row.bytes)) [
    | inr (x, e) ↦ inl (rw (e, write_email) refl)
    | inl (user, e) ↦ elim (Outcome-cases (encode_user json (with_email email user))) [
      | inr (x, f) ↦ inl (rw (e, f, write_email) refl)
      | inl (bytes, f) ↦
          elim (Option-cases (T.update (is_user who) (email_written (normalized email) bytes) s)) [
            | inl g ↦ inl (rw (e, f, g, write_email) refl)
            | inr (t, g) ↦ inr (
              bytes,
              rw (e, f, g, write_email)
                  (law.update_rows (is_user who) (email_written (normalized email) bytes) s t g),
            )
          ]
    ]
  ]

  -- Setting or clearing a recovery email keeps every username and every email key of one account,
  -- whatever comes of it.
  pub set_email-AreAccounts :
      (who : Text) (email : Option Text) (s : T.State)
      → AreAccounts (T.rows s)
      → AreAccounts (T.rows (set_email json T who email s).1)
  unfolding set_email
  set_email-AreAccounts who email s kept = elim (Option-cases (T.select (is_user who) s)) [
    | inl e ↦ rw (e, set_email) kept
    | inr (rs, e) ↦ elim (Option-cases (first rs)) [
      | inl f ↦ rw (e, f, set_email) kept
      | inr (row, f) ↦ elim (Outcome-cases (key_taken T who (normalized email) s)) [
        | inr (x, g) ↦ rw (e, f, g, set_email) kept
        | inl (is_taken, g) ↦ elim (Bool-cases is_taken) [
          | inl h ↦ rw (e, f, g, h, set_email) kept
          | inr h ↦
              rw (e, f, g, h, set_email)
                (written who email row s (key_free who (normalized email) s (g ∙ ap ok h)) kept)
        ]
      ]
    ]
  ]
    where
      written :
          (who : Text) (email : Option Text) (row : UserRow) (s : T.State)
          → others_claims who (normalized email) (T.rows s) ≡ 0
          → AreAccounts (T.rows s)
          → AreAccounts (T.rows (write_email json T who email row s).1)
      written who email row s free kept = elim (write_email-cases who email row s) [
        | inl same ↦ subst (λ t. AreAccounts (T.rows t)) (sym same) kept
        | inr (bytes, rows) ↦
            subst AreAccounts (sym rows)
              (updated-AreAccounts who (normalized email) bytes (T.rows s) free kept)
      ]
