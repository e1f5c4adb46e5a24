-- ===== src/Db/Users/Unique.antt =====
-- Usernames and recovery emails of src/db/users.rs are each of one account.
use saros.Base.{
  ℕ, ◌≡◌, ◌≤◌, sym, ap, subst, ◌∙◌, ◌⊎◌, inl, inr, true, ltb, Option, none, some, List, [], ◌∷◌,
  ◌++◌, length, length-keep, tally, tally-append, Text, text_eq_iff, Outcome, ok, err, arith,
  Option-cases, Outcome-cases, Bool-cases,
}
use saros.Account.{StoredUser, Json}
use saros.Db.Table.{DbError, Table, IsRelational}
use saros.Db.Users.{
  UserRow, CreateOutcome, created, username_taken, email_taken, is_user, has_email, is_key,
  encode_user, user_row, email_key, taken_key, taken, reclassified, create_if_absent,
}

-- How many rows have an email key, which none of them need have.
abbrev pub claims : Option Text → List UserRow → ℕ
claims none rows = 0
claims (some key) rows = tally (has_email key) rows

-- No username and no email key is of two rows.
abbrev pub AreAccounts : List UserRow → Type 0
AreAccounts rows = (k : Text) → (tally (is_user k) rows ≤ 1) × (tally (has_email k) rows ≤ 1)

-- The constraints of the table: an INSERT that does not fail is of a username and an email key that
-- no row has.
pub record IsConstrained (T : Table UserRow) : Type 0 where
  pub create_free :
      (r : UserRow) (s t : T.State)
      → T.create r s ≡ some t
      → (tally (is_user r.username) (T.rows s) ≡ 0) × (claims r.email (T.rows s) ≡ 0)

claimed :
    (k : Text) (key : Option Text) (rows : List UserRow)
    → claims key rows ≡ 0
    → is_key k key ≡ true
    → tally (has_email k) rows ≡ 0
claimed k none rows h e = cc
claimed k (some key) rows h e = rw (← text_eq_iff key k e) h

append-AreAccounts :
    (rows : List UserRow) (r : UserRow)
    → tally (is_user r.username) rows ≡ 0
    → claims r.email rows ≡ 0
    → AreAccounts rows
    → AreAccounts (rows ++ r ∷ [])
append-AreAccounts rows r free unclaimed kept k = (
  elim (Bool-cases (is_user k r)) [
    | inl e ↦
        let none_yet : tally (is_user k) rows ≡ 0 =
          subst (λ n. tally (is_user n) rows ≡ 0) (text_eq_iff r.username k e) free in
        rw (tally-append (is_user k) rows (r ∷ []), e) (omega (arith, none_yet))
    | inr e ↦ rw (tally-append (is_user k) rows (r ∷ []), e) (omega (arith, (kept k).0))
  ],
  elim (Bool-cases (has_email k r)) [
    | inl e ↦
        rw (tally-append (has_email k) rows (r ∷ []), e)
          (omega (arith, claimed k r.email rows unclaimed e))
    | inr e ↦ rw (tally-append (has_email k) rows (r ∷ []), e) (omega (arith, (kept k).1))
  ],
)

module _ {Key : Type 0} (json : Json Key) (T : Table UserRow) (law : IsRelational T) where
  taken_key-eq :
      (key : Option Text) (s : T.State) (o : CreateOutcome)
      → taken_key T key s ≡ ok (some o)
      → (o ≡ email_taken) × (1 ≤ claims key (T.rows s))
  unfolding taken_key
  taken_key-eq none s o h = cc
  taken_key-eq (some key) s o h = elim (Option-cases (T.select (has_email key) s)) [
    | inl e ↦ cc (rw (e, taken_key) at h)
    | inr (rs, e) ↦ elim (Bool-cases (ltb 0 (length rs))) [
      | inl there ↦ (
        cc (rw (e, there, taken_key) at h),
        ground (
          arith,
          there,
          length-keep (has_email key) (T.rows s),
          ap length (law.select_rows (has_email key) s rs e),
        ),
      )
      | inr free ↦ cc (rw (e, free, taken_key) at h)
    ]
  ]

  -- What a creation that has been settled says of the table: that the row has been added to rows
  -- of which none had its username or email key, or that there is one that has.
  abbrev pub Settled : StoredUser Key → List UserRow → List UserRow → CreateOutcome → Type 0
  Settled user rows rows' created =
      (bytes : List ℕ) × (encode_user json user ≡ ok bytes)
      × (rows' ≡ rows ++ user_row user bytes ∷ [])
      × (tally (is_user user.username) rows ≡ 0)
      × (claims (email_key user) rows ≡ 0)
  Settled user rows rows' username_taken = 1 ≤ tally (is_user user.username) rows'
  Settled user rows rows' email_taken = 1 ≤ claims (email_key user) rows'

  taken-eq :
      (user : StoredUser Key) (rows : List UserRow) (s : T.State) (o : CreateOutcome)
      → taken T user.username (email_key user) s ≡ ok (some o)
      → Settled user rows (T.rows s) o
  unfolding taken
  taken-eq user rows s o h = elim (Option-cases (T.select (is_user user.username) s)) [
    | inl e ↦ cc (rw (e, taken) at h)
    | inr (rs, e) ↦ elim (Bool-cases (ltb 0 (length rs))) [
      | inl there ↦
          subst (Settled user rows (T.rows s)) (some_outcome (rw (e, there, taken) at h)) (
            ground (
              arith,
              there,
              length-keep (is_user user.username) (T.rows s),
              ap length (law.select_rows (is_user user.username) s rs e),
            ))
      | inr free ↦
          let (is_email, some_claim) =
            taken_key-eq (email_key user) s o (rw (e, free, taken) at h) in
          subst (Settled user rows (T.rows s)) (sym is_email) some_claim
    ]
  ]
    where
      some_outcome :
          {a b : CreateOutcome}
          → Path (Outcome DbError (Option CreateOutcome)) (ok (some a)) (ok (some b))
          → a ≡ b
      some_outcome g = cc

module _ {Key : Type 0} (json : Json Key) (T : Table UserRow) (law : IsRelational T)
    (constraints : IsConstrained T) (before after : T.State → T.State) where
  reclassified-eq :
      (r : Outcome DbError (Option CreateOutcome)) (o : CreateOutcome)
      → reclassified T r ≡ ok o
      → r ≡ ok (some o)
  unfolding reclassified
  reclassified-eq (err e) o h = cc
  reclassified-eq (ok none) o h = cc
  reclassified-eq (ok (some a)) o h = cc

  some_ok : {A : Type 0} {a b : A} → Path (Outcome DbError A) (ok a) (ok b) → a ≡ b
  some_ok g = cc

  -- Where the answer of a creation comes from: a check, or the insert.
  created-cases :
      (user : StoredUser Key) (o : CreateOutcome) (s s' : T.State)
      → create_if_absent json T before after user s ≡ (ok o, s')
      → (taken T user.username (email_key user) s' ≡ ok (some o))
        ⊎ ((bytes : List ℕ) × (o ≡ created)
            × (encode_user json user ≡ ok bytes)
            × (T.create (user_row user bytes) (before s) ≡ some s'))
  unfolding create_if_absent
  created-cases user o s s' d = elim (Outcome-cases (encode_user json user)) [
    | inr (x, e) ↦ cc (rw (e, create_if_absent) at d)
    | inl (bytes, e) ↦ elim (Outcome-cases (taken T user.username (email_key user) s)) [
      | inr (x, f) ↦ cc (rw (e, f, create_if_absent) at d)
      | inl (found, f) ↦ elim (Option-cases found) [
        | inr (outcome, g) ↦
            let d' = rw (e, f, g, create_if_absent) at d in
            inl (
              ap (taken T user.username (email_key user)) (sym (ap (λ a. a.1) d'))
              ∙ f
              ∙ ap ok (g ∙ ap some (some_ok (ap (λ a. a.0) d'))))
        | inl g ↦ elim (Option-cases (T.create (user_row user bytes) (before s))) [
          | inl h ↦
              let d' = rw (e, f, g, h, create_if_absent) at d in
              inl (
                ap (taken T user.username (email_key user)) (sym (ap (λ a. a.1) d'))
                ∙ reclassified-eq (taken T user.username (email_key user) (after (before s))) o
                    (ap (λ a. a.0) d'))
          | inr (t, h) ↦
              let d' = rw (e, f, g, h, create_if_absent) at d in
              inr (bytes, sym (some_ok (ap (λ a. a.0) d')), e, h ∙ ap (λ a. some a.1) d')
        ]
      ]
    ]
  ]

  -- A creation that does not fail, whatever other tasks do to the table between its checks and its
  -- insert, has added the account's row to rows none of which had its username or email key, or
  -- says which of the two a row of the table has that it leaves.
  pub create_if_absent_lem :
      (user : StoredUser Key) (o : CreateOutcome) (s s' : T.State)
      → create_if_absent json T before after user s ≡ (ok o, s')
      → Settled json T law user (T.rows (before s)) (T.rows s') o
  create_if_absent_lem user o s s' d = elim (created-cases user o s s' d) [
    | inl f ↦ taken-eq json T law user (T.rows (before s)) s' o f
    | inr (bytes, made, e, h) ↦
        subst (Settled json T law user (T.rows (before s)) (T.rows s')) (sym made) (
          let (free, unclaimed) = constraints.create_free (user_row user bytes) (before s) s' h in
          (bytes, e, law.create_rows (user_row user bytes) (before s) s' h, free, unclaimed))
  ]

  -- A creation keeps every username and every email key of one account, if the other tasks do,
  -- whatever its outcome.
  pub create_if_absent-AreAccounts :
      (user : StoredUser Key) (s : T.State)
      → ((t : T.State) → AreAccounts (T.rows t) → AreAccounts (T.rows (before t)))
      → ((t : T.State) → AreAccounts (T.rows t) → AreAccounts (T.rows (after t)))
      → AreAccounts (T.rows s)
      → AreAccounts (T.rows (create_if_absent json T before after user s).1)
  unfolding create_if_absent
  create_if_absent-AreAccounts user s keep_before keep_after unique =
      elim (Outcome-cases (encode_user json user)) [
        | inr (x, e) ↦ rw (e, create_if_absent) unique
        | inl (bytes, e) ↦ elim (Outcome-cases (taken T user.username (email_key user) s)) [
          | inr (x, f) ↦ rw (e, f, create_if_absent) unique
          | inl (found, f) ↦ elim (Option-cases found) [
            | inr (outcome, g) ↦ rw (e, f, g, create_if_absent) unique
            | inl g ↦ elim (Option-cases (T.create (user_row user bytes) (before s))) [
              | inl h ↦
                  rw (e, f, g, h, create_if_absent) (keep_after (before s) (keep_before s unique))
              | inr (t, h) ↦
                  rw (e, f, g, h, create_if_absent)
                    (rows_of (user_row user bytes) (before s) t
                      (constraints.create_free (user_row user bytes) (before s) t h)
                      (law.create_rows (user_row user bytes) (before s) t h) (keep_before s unique))
            ]
          ]
        ]
      ]
    where
      rows_of :
          (r : UserRow) (u t : T.State)
          → (tally (is_user r.username) (T.rows u) ≡ 0) × (claims r.email (T.rows u) ≡ 0)
          → T.rows t ≡ T.rows u ++ r ∷ []
          → AreAccounts (T.rows u)
          → AreAccounts (T.rows t)
      rows_of r u t (free, unclaimed) rows kept =
          subst AreAccounts (sym rows) (append-AreAccounts (T.rows u) r free unclaimed kept)
