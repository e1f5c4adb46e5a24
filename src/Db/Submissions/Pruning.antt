-- ===== src/Db/Submissions/Pruning.antt =====
-- Submissions::record of src/db/submissions.rs: what it prunes of a submitter's ledger.
use saros.Base.{
  ℕ, ◌-◌, ◌≡◌, ◌≤◌, refl, sym, ap, subst, ◌∙◌, ◌⊎◌, inl, inr, Bool, true, false, not, ◌&&◌,
  if◌then◌else◌, leb, ltb, Option, none, some, List, [], ◌∷◌, length, keep, all, tally, tally-keep,
  tally_same, tally_mono, all_of_tally, all_implied, all-keep, ◌<◌, tally_none, tally-le-length,
  length-keep, Text, text_eq_refl, ok, arith, Option-cases, Bool-cases,
}
use saros.Db.Table.{Table, IsRelational, Repo, deleted, keep-deleted_apart, keep-deleted_comm}
use saros.Db.Table.Upsert.{
  upsert, upserted, rows-upsert, keep-upserted_apart, keep-upserted, tally-upserted-le,
}
use saros.Db.Ordered.{asc, precedes, IsFirst, Ordered}
use saros.Db.Ordered.Laws.{IsOrdered, length-rest, oldest-last, key-oldest, sorted-last}
use saros.Db.Submissions.Laws.{rows-delete_rows}
use saros.Db.Submissions.Covered.{
  covered, all-covered, is_at_self, covered_of, covered-tally, rewritten,
}
use saros.Db.Submissions.{
  SubmissionRow, is_at, is_of, row_submitted_at, submitted, resubmitted, delete_rows, oldest_rows,
  recorded, record_submission, max_per_user,
}

module _ (T : Table SubmissionRow) (O : Ordered T) (law : IsRelational T)
    (order : IsOrdered T O) where
  -- What is pruned of a submitter's rows: nothing, where they are within the cap, or as many of the
  -- oldest as are too many.
  abbrev Pruned : Text → T.State → List SubmissionRow → Type 0
  Pruned who t rs =
      ((rs ≡ []) × (tally (is_of who) (T.rows t) ≤ max_per_user))
      ⊎ ((ltb max_per_user (length (keep (is_of who) (T.rows t))) ≡ true)
          × IsFirst (precedes asc row_submitted_at)
              (length (keep (is_of who) (T.rows t)) - max_per_user) (keep (is_of who) (T.rows t))
              rs)

  oldest_rows-cases :
      (who : Text) (t : T.State) (rs : List SubmissionRow)
      → oldest_rows T O who t ≡ some rs
      → Pruned who t rs
  unfolding oldest_rows
  oldest_rows-cases who t rs d = elim (Option-cases (T.select (is_of who) t)) [
    | inl e ↦ cc (rw (e, oldest_rows) at d)
    | inr (xs, e) ↦
        let found = law.select_rows (is_of who) t xs e in
        elim (Bool-cases (ltb max_per_user (length xs))) [
          | inr within ↦ inl (
            sym (some_path (rw (e, within, oldest_rows) at d)),
            ground (arith, within, length-keep (is_of who) (T.rows t), ap length found),
          )
          | inl over ↦ inr (
            rw found at over,
            subst
                (λ ys.
                  IsFirst (precedes asc row_submitted_at) (length ys - max_per_user)
                    (keep (is_of who) (T.rows t)) rs)
                found
                (order.first_of (is_of who) asc row_submitted_at (length xs - max_per_user) t rs
                  (rw (e, over, oldest_rows) at d)),
          )
        ]
  ]
    where
      some_path : {a b : List SubmissionRow} → some a ≡ some b → a ≡ b
      some_path g = cc

  tally-Pruned :
      (who : Text) (t : T.State) (rs : List SubmissionRow)
      → Pruned who t rs
      → tally (is_of who) (deleted (covered rs) (T.rows t)) ≤ max_per_user
  tally-Pruned who t rs pruned = elim pruned [
    | inl (nothing, within) ↦ omega (
      arith,
      within,
      tally-keep (λ r. not (covered rs r)) (is_of who) (T.rows t),
      tally_mono (λ r. not (covered rs r) && is_of who r) (is_of who) (T.rows t)
          (λ r h. ground (arith, h)),
    )
    | inr (over, f) ↦ omega (
      arith,
      tally-keep (λ r. not (covered rs r)) (is_of who) (T.rows t),
      tally-keep (is_of who) (λ r. not (covered rs r)) (T.rows t),
      tally_same (λ r. not (covered rs r) && is_of who r) (λ r. is_of who r && not (covered rs r))
          (T.rows t) (λ r. ground arith),
      f.split (λ r. not (covered rs r)),
      tally_none (λ r. not (covered rs r)) (covered rs) rs (λ r h. rw h refl) (all-covered rs),
      tally-le-length (λ r. not (covered rs r)) f.rest,
      length-rest row_submitted_at max_per_user (keep (is_of who) (T.rows t)) rs f over,
    )
  ]

  -- Only rows of the submitter are pruned.
  kept-Pruned :
      (who : Text) (t : T.State) (rs : List SubmissionRow) (q : SubmissionRow → Bool)
      → ((r : SubmissionRow) → is_of who r ≡ true → q r ≡ false)
      → Pruned who t rs
      → keep q (deleted (covered rs) (T.rows t)) ≡ keep q (T.rows t)
  kept-Pruned who t rs q apart pruned =
      keep-deleted_apart (covered rs) q (T.rows t)
        (λ r h. apart r (covered_of who rs r (all_of_submitter pruned) h))
    where
      all_of_submitter : Pruned who t rs → all (is_of who) rs ≡ true
      all_of_submitter (inl (nothing, within)) = ap (all (is_of who)) nothing
      all_of_submitter (inr (over, f)) = all_of_tally (is_of who) rs (
          omega (
            arith,
            f.split (λ r. not (is_of who r)),
            tally_none (λ r. not (is_of who r)) (is_of who) (keep (is_of who) (T.rows t))
                (λ r h. rw h refl) (all-keep (is_of who) (T.rows t)),
          ))

  -- Nor is the row just submitted, where no more than the cap are as new.
  fresh-Pruned :
      (who device version : Text) (now : ℕ) (t : T.State) (rs : List SubmissionRow)
      → Pruned who t rs
      → keep (is_at who device version) (T.rows t) ≡ submitted who device version now ∷ []
      → tally (λ r. is_of who r && leb now r.submitted_at) (T.rows t) ≤ max_per_user
      → covered rs (submitted who device version now) ≡ false
  fresh-Pruned who device version now t rs pruned one few = elim pruned [
    | inl (nothing, within) ↦ ap (λ ys. covered ys (submitted who device version now)) nothing
    | inr (over, f) ↦
        let (l, e) =
          oldest-last row_submitted_at max_per_user (keep (is_of who) (T.rows t)) rs f over in
        let small =
          key-oldest row_submitted_at max_per_user (keep (is_of who) (T.rows t)) rs f over now l e
            (omega (arith, few, tally-keep (is_of who) (λ r. leb now r.submitted_at) (T.rows t))) in
        let older : all (λ r. ltb r.submitted_at now) rs ≡ true =
          all_implied (λ r. leb r.submitted_at l.submitted_at) (λ r. ltb r.submitted_at now) rs
            (λ r h. ground (arith, small, h)) (sorted-last row_submitted_at rs l f.sorted e) in
        elim (Bool-cases (covered rs (submitted who device version now))) [
          | inr free ↦ free
          | inl there ↦
              let old : SubmissionRow → Bool =
                λ r. is_at who device version r && ltb r.submitted_at now in
              absurd (
                omega (
                  arith,
                  covered-tally rs (submitted who device version now) now older there,
                  f.split old,
                  tally-keep (is_of who) old (T.rows t),
                  tally_mono (λ r. is_of who r && old r) old (T.rows t) (λ r h. ground (arith, h)),
                  tally-keep (is_at who device version) (λ r. ltb r.submitted_at now) (T.rows t),
                  ap (tally (λ r. ltb r.submitted_at now)) one,
                  not_before now,
                ))
        ]
  ]
    where
      not_before : (n : ℕ) → Path ℕ (if ltb n n then 1 else 0) 0
      not_before n = ground arith

  recorded-ok :
      (r : Option (Unit {0}) × T.State) (s s' : Repo T)
      → recorded T r s ≡ (ok tt, s')
      → r ≡ (some tt, s'.table)
  unfolding recorded
  recorded-ok (none, t) s s' h = cc
  recorded-ok (some tt, t) s s' h = λ i. (some tt, ((h i).1).table)

  -- What record has done: it has written the row, and then pruned.
  steps :
      (who device version : Text) (now : ℕ) (s s' : Repo T)
      → record_submission T O who device version now s ≡ (ok tt, s')
      → (t : T.State) × (rs : List SubmissionRow) × (T.rows t
          ≡ upserted
              (is_at who device version)
              (resubmitted now)
              (submitted who device version now)
              (T.rows s.table))
        × Pruned who t rs
        × (T.rows s'.table ≡ deleted (covered rs) (T.rows t))
  unfolding record_submission
  steps who device version now s s' d =
      elim (Option-cases (T.select (is_at who device version) s.table)) [
        | inl e ↦ cc (rw (e, record_submission) at d)
        | inr (found, e) ↦
            elim (Option-cases (
              upsert T (is_at who device version) (resubmitted now)
                (submitted who device version now) found s.table)) [
                  | inl f ↦ cc (rw (e, f, record_submission) at d)
                  | inr (t, f) ↦ elim (Option-cases (oldest_rows T O who t)) [
                    | inl g ↦ cc (rw (e, f, g, record_submission) at d)
                    | inr (rs, g) ↦ (
                      t,
                      rs,
                      rows-upsert T law (is_at who device version) (resubmitted now)
                          (submitted who device version now) s.table t found
                          (law.select_rows (is_at who device version) s.table found e) f,
                      oldest_rows-cases who t rs g,
                      rows-delete_rows T law rs t s'.table (
                          recorded-ok (delete_rows T rs t) s s'
                            (rw (e, f, g, record_submission) at d)),
                    )
                  ]
                ]
      ]

  -- Where at most one row of the table has the submission's coordinates and fewer than 200 rows of
  -- the user are as new as it is, a submission that has been recorded leaves its user with at most 200
  -- rows, the rows of all others as they were, and at its coordinates one row, its own: pending, and
  -- not reviewed.
  pub record_submission_lem :
      (who device version : Text) (now : ℕ) (s s' : Repo T)
      → tally (is_at who device version) (T.rows s.table) ≤ 1
      → tally (λ r. is_of who r && leb now r.submitted_at) (T.rows s.table) < max_per_user
      → record_submission T O who device version now s ≡ (ok tt, s')
      → (tally (is_of who) (T.rows s'.table) ≤ max_per_user)
        × (keep (λ r. not (is_of who r)) (T.rows s'.table)
            ≡ keep (λ r. not (is_of who r)) (T.rows s.table))
        × (keep (is_at who device version) (T.rows s'.table)
            ≡ submitted who device version now ∷ [])
  record_submission_lem who device version now s s' key few d =
      let (t, rs, written, pruned, left) = steps who device version now s s' d in
      let one : keep (is_at who device version) (T.rows t) ≡ submitted who device version now ∷ [] =
        ap (keep (is_at who device version)) written
        ∙ keep-upserted (is_at who device version) (resubmitted now)
            (submitted who device version now) (T.rows s.table) key
            (is_at_self (submitted who device version now)) (rewritten who device version now) in
      (
        subst (λ rows. tally (is_of who) rows ≤ max_per_user) (sym left)
            (tally-Pruned who t rs pruned),
        ap (keep (λ r. not (is_of who r))) left
            ∙ kept-Pruned who t rs (λ r. not (is_of who r)) (λ r h. rw h refl) pruned
            ∙ ap (keep (λ r. not (is_of who r))) written
            ∙ keep-upserted_apart (is_at who device version) (λ r. not (is_of who r))
                (resubmitted now) (submitted who device version now) (T.rows s.table)
                (λ r h. ground (arith, h)) (λ r. refl) (rw (text_eq_refl who) refl),
        ap (keep (is_at who device version)) left
            ∙ keep-deleted_comm (covered rs) (is_at who device version) (T.rows t)
            ∙ ap (deleted (covered rs)) one
            ∙ rw
                (fresh-Pruned who device version now t rs pruned one (
                  omega (
                    arith,
                    few,
                    ap (tally (λ r. is_of who r && leb now r.submitted_at)) written,
                    tally-upserted-le (λ r. is_of who r && leb now r.submitted_at)
                        (is_at who device version) (resubmitted now)
                        (submitted who device version now) (T.rows s.table) key,
                  )))
                refl,
      )
