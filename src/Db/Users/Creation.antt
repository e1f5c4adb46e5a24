-- ===== src/Db/Users/Creation.antt =====
-- What create_if_absent of src/db/users.rs answers, in terms of the rows that there are.
use saros.Base.{
  ◌≡◌, ◌≢◌, refl, ap, ◌∙◌, inl, inr, if◌then◌else◌, Bool, ltb, Option, none, some, List, length,
  length-keep, tally, Text, Outcome, ok, err, Option-cases, Bool-cases, ℕ,
}
use saros.Account.{StoredUser, Json}
use saros.Db.Table.{DbError, sql, Table, IsRelational}
use saros.Db.Users.{
  UserRow, CreateOutcome, created, username_taken, email_taken, is_user, has_email, encode_user,
  user_row, email_key, taken_key, taken, reclassified, create_if_absent,
}
use saros.Db.Users.Unique.{claims}

-- Which of an account's two keys rows have: the username first.
abbrev pub claimed_key : Text → Option Text → List UserRow → Option CreateOutcome
claimed_key who email rows =
    if ltb 0 (tally (is_user who) rows)
    then some username_taken
    else if ltb 0 (claims email rows)
    then some email_taken
    else none

module _ {Key : Type 0} (json : Json Key) (T : Table UserRow) (law : IsRelational T) where
  taken_key-claims :
      (email : Option Text) (s : T.State)
      → ((p : UserRow → Bool) → T.select p s ≢ none)
      → taken_key T email s
        ≡ ok (if ltb 0 (claims email (T.rows s)) then some email_taken else none)
  unfolding taken_key
  taken_key-claims none s reads = refl
  taken_key-claims (some key) s reads = elim (Option-cases (T.select (has_email key) s)) [
    | inl e ↦ absurd (reads (has_email key) e)
    | inr (rs, e) ↦
        rw (e, taken_key)
          (ap (λ n. ok (if ltb 0 n then some email_taken else none))
            (ap length (law.select_rows (has_email key) s rs e)
              ∙ length-keep (has_email key) (T.rows s)))
  ]

  taken-claimed_key :
      (who : Text) (email : Option Text) (s : T.State)
      → ((p : UserRow → Bool) → T.select p s ≢ none)
      → taken T who email s ≡ ok (claimed_key who email (T.rows s))
  unfolding taken
  taken-claimed_key who email s reads = elim (Option-cases (T.select (is_user who) s)) [
    | inl e ↦ absurd (reads (is_user who) e)
    | inr (rs, e) ↦
        let counted =
          ap length (law.select_rows (is_user who) s rs e) ∙ length-keep (is_user who) (T.rows s) in
        elim (Bool-cases (ltb 0 (tally (is_user who) (T.rows s)))) [
          | inl there ↦ rw (e, counted, there, taken) refl
          | inr free ↦ rw (e, counted, free, taken) (taken_key-claims email s reads)
        ]
  ]

  -- What a creation is to answer, and what it is to leave, in terms of the rows that there are.
  unfoldable pub expected_create :
      (T.State → T.State)
      → (T.State → T.State)
      → StoredUser Key
      → List ℕ
      → T.State
      → Outcome DbError CreateOutcome × T.State
  expected_create before after user bytes s =
      elim (claimed_key user.username (email_key user) (T.rows s)) [
        | some outcome ↦ (ok outcome, s)
        | none ↦ elim (T.create (user_row user bytes) (before s)) [
          | some t ↦ (ok created, t)
          | none ↦
              let u = after (before s) in
              (
                elim (claimed_key user.username (email_key user) (T.rows u)) [
                  | some outcome ↦ ok outcome
                  | none ↦ err sql
                ],
                u,
              )
        ]
      ]

  -- A creation whose account can be encoded and whose reads do not fail, whatever other tasks do to
  -- the table between its checks and its insert and after an insert that failed: it refuses, and
  -- writes nothing, where a row has the username, or else where a row has the email key; it inserts
  -- otherwise, and where the insert fails it says which of the two keys the rows have by then, or
  -- passes on the failure if they have neither.
  pub create_if_absent-expected_create :
      (before after : T.State → T.State) (user : StoredUser Key) (bytes : List ℕ) (s : T.State)
      → encode_user json user ≡ ok bytes
      → ((p : UserRow → Bool) → T.select p s ≢ none)
      → ((p : UserRow → Bool) → T.select p (after (before s)) ≢ none)
      → create_if_absent json T before after user s ≡ expected_create before after user bytes s
  unfolding create_if_absent expected_create reclassified
  create_if_absent-expected_create before after user bytes s encoded reads later =
      let now = taken-claimed_key user.username (email_key user) s reads in
      let then_taken = taken-claimed_key user.username (email_key user) (after (before s)) later in
      elim (Option-cases (claimed_key user.username (email_key user) (T.rows s))) [
        | inr (outcome, e) ↦ rw (encoded, now, e, create_if_absent, expected_create) refl
        | inl e ↦ elim (Option-cases (T.create (user_row user bytes) (before s))) [
          | inr (t, f) ↦ rw (encoded, now, e, f, create_if_absent, expected_create) refl
          | inl f ↦
              elim (Option-cases
                (claimed_key user.username (email_key user) (T.rows (after (before s))))) [
                  | inr (outcome, g) ↦
                      rw
                        (
                          encoded, now, e, f, then_taken, g, create_if_absent, expected_create,
                          reclassified,
                        )
                        refl
                  | inl g ↦
                      rw
                        (
                          encoded, now, e, f, then_taken, g, create_if_absent, expected_create,
                          reclassified,
                        )
                        refl
                ]
        ]
      ]
