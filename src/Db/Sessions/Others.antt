-- ===== src/Db/Sessions/Others.antt =====
-- Sessions::delete_others of src/db/sessions.rs: signing out everywhere else.
use saros.Base.{
  ℕ, ◌≡◌, refl, sym, ap, subst, ◌∙◌, inl, inr, Bool, true, false, not, ◌&&◌, ◌||◌, List, [], ◌∷◌,
  all, all-keep, keep, Text, text_eq, text_eq_iff, text_eq_refl, Outcome, ok, err, arith,
  Option-cases, Bool-cases,
}
use saros.Db.Table.{DbError, Table, IsRelational, Repo, deleted, keep-deleted_comm}
use saros.Db.Sessions.{
  SessionRow, by_digest, by_username, session_id, delete_each, counted, delete_others,
}

-- Whether a row goes by the digest of one of some rows.
abbrev covered : List SessionRow → SessionRow → Bool
covered [] r = false
covered (row ∷ rows) r = by_digest row.digest r || covered rows r

all-deleted :
    (p q : SessionRow → Bool) (xs : List SessionRow)
    → all (λ r. p r || q r) xs ≡ true
    → all q (deleted p xs) ≡ true
all-deleted p q [] h = refl
all-deleted p q (x ∷ xs) h = ground (arith, all-deleted p q xs, h)

all-apart :
    (p q bad : SessionRow → Bool) (xs : List SessionRow)
    → all (λ r. p r || q r) xs ≡ true
    → all bad xs ≡ true
    → ((r : SessionRow) → p r ≡ true → bad r ≡ false)
    → all q xs ≡ true
all-apart p q bad [] h b apart = refl
all-apart p q bad (x ∷ xs) h b apart = ground (arith, all-apart p q bad xs, apart x, h, b)

all-wider :
    (p q : SessionRow → Bool) (xs : List SessionRow)
    → all q xs ≡ true
    → all (λ r. p r || q r) xs ≡ true
all-wider p q [] h = refl
all-wider p q (x ∷ xs) h = ground (arith, all-wider p q xs, h)

none_left : (xs : List SessionRow) → all (covered []) xs ≡ true → xs ≡ []
none_left [] h = refl
none_left (x ∷ xs) h = cc

covered_start :
    (u bad : SessionRow → Bool) (xs : List SessionRow)
    → ((r : SessionRow) → bad r ≡ true → u r ≡ true)
    → all (covered (keep u xs)) (keep bad xs) ≡ true
covered_start u bad [] sub = refl
covered_start u bad (x ∷ xs) sub = elim (Bool-cases (bad x)) [
  | inl b ↦
      let there : keep u (x ∷ xs) ≡ x ∷ keep u xs = rw (sub x b) refl in
      let wider =
        all-wider (by_digest x.digest) (covered (keep u xs)) (keep bad xs)
          (covered_start u bad xs sub) in
      subst (λ rows. all (covered rows) (keep bad (x ∷ xs)) ≡ true) (sym there)
        (rw (b, text_eq_refl x.digest) wider)
  | inr b ↦ elim (Bool-cases (u x)) [
    | inl y ↦
        let there : keep u (x ∷ xs) ≡ x ∷ keep u xs = rw y refl in
        subst (λ rows. all (covered rows) (keep bad (x ∷ xs)) ≡ true) (sym there)
          (rw b (
            all-wider (by_digest x.digest) (covered (keep u xs)) (keep bad xs)
              (covered_start u bad xs sub)))
    | inr n ↦
        let absent : keep u (x ∷ xs) ≡ keep u xs = rw n refl in
        subst (λ rows. all (covered rows) (keep bad (x ∷ xs)) ≡ true) (sym absent)
          (rw b (covered_start u bad xs sub))
  ]
]

module _ (T : Table SessionRow) (law : IsRelational T) (hex : List ℕ → Text)
    (who keep_id : Text) where
  abbrev is_kept : SessionRow → Bool
  is_kept r = text_eq (session_id hex r.digest) keep_id

  -- A session of the user that is not the one to keep.
  abbrev pub is_other : SessionRow → Bool
  is_other r = by_username who r && not (is_kept r)

  kept_apart :
      (row r : SessionRow) → is_kept row ≡ true → by_digest row.digest r ≡ true → is_other r ≡ false
  kept_apart row r k h =
      let same : r.digest ≡ row.digest = text_eq_iff r.digest row.digest h in
      let kept_too : is_kept r ≡ true =
        subst (λ d. text_eq (session_id hex d) keep_id ≡ true) (sym same) k in
      rw kept_too (ground arith)

  delete_each-rows :
      (rs : List SessionRow) (n m : ℕ) (t t' : T.State)
      → all (covered rs) (keep is_other (T.rows t)) ≡ true
      → delete_each T hex keep_id rs n t ≡ (ok m, t')
      → keep is_other (T.rows t') ≡ []
  unfolding delete_each
  delete_each-rows [] n m t t' c d =
      ap (λ a. keep is_other (T.rows (a.1))) (sym d) ∙ none_left (keep is_other (T.rows t)) c
  delete_each-rows (row ∷ rest) n m t t' c d = elim (Bool-cases (is_kept row)) [
    | inl k ↦
        delete_each-rows rest n m t t'
          (all-apart (by_digest row.digest) (covered rest) is_other (keep is_other (T.rows t)) c
            (all-keep is_other (T.rows t)) (λ r. kept_apart row r k))
          (rw (k, delete_each) at d)
    | inr k ↦ elim (Option-cases (T.delete (by_digest row.digest) t)) [
      | inl e ↦ cc (rw (k, e, delete_each) at d)
      | inr (u, e) ↦
          let rows : keep is_other (T.rows u)
              ≡ deleted (by_digest row.digest) (keep is_other (T.rows t)) =
            ap (keep is_other) (law.delete_rows _ t u e)
            ∙ keep-deleted_comm (by_digest row.digest) is_other (T.rows t) in
          delete_each-rows rest _ m u t'
            (rw rows
              (all-deleted (by_digest row.digest) (covered rest) (keep is_other (T.rows t)) c))
            (rw (k, e, delete_each) at d)
    ]
  ]

  and_first : (a b : Bool) → (a && b) ≡ true → a ≡ true
  and_first a b h = ground (arith, h)

  counted-ok :
      (r : Outcome DbError ℕ × T.State) (n : ℕ) (s s' : Repo T)
      → counted T r s ≡ (ok n, s')
      → (m : ℕ) × (r ≡ (ok m, s'.table))
  unfolding counted
  counted-ok (err e, t) n s s' h = cc
  counted-ok (ok m, t) n s s' h = (m, λ i. (ok m, ((h i).1).table))

  -- After a user has signed out everywhere else, the table has no session of theirs but those with
  -- the id that was to be kept.
  pub delete_others_lem :
      (n : ℕ) (s s' : Repo T)
      → delete_others T hex who keep_id s ≡ (ok n, s')
      → keep is_other (T.rows s'.table) ≡ []
  unfolding delete_others
  delete_others_lem n s s' d = elim (Option-cases (T.select (by_username who) s.table)) [
    | inl e ↦ cc (rw (e, delete_others) at d)
    | inr (rs, e) ↦
        let (m, done) =
          counted-ok (delete_each T hex keep_id rs 0 s.table) n s s' (rw (e, delete_others) at d) in
        delete_each-rows rs 0 m s.table s'.table
          (subst (λ rows. all (covered rows) (keep is_other (T.rows s.table)) ≡ true)
            (sym (law.select_rows (by_username who) s.table rs e))
            (covered_start (by_username who) is_other (T.rows s.table)
              (λ r. and_first (by_username who r) (not (is_kept r)))))
          done
  ]
