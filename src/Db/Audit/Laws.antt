-- ===== src/Db/Audit/Laws.antt =====
-- What appending makes of the audit trail of src/db/audit.rs.
use saros.Base.{
  ℕ, ◌-◌, ◌≡◌, ◌≤◌, refl, ap, ◌∙◌, subst, inl, inr, Bool, true, not, ◌&&◌, leb, ltb, some, List, [],
  ◌∷◌, ◌++◌, all, keep, keep-append_pass, length, Text, ok, arith, tally-true, Option-cases,
}
use saros.Db.Table.{Table, IsRelational, Repo, deleted}
use saros.Db.Ordered.{Ordered, Keyed, trim}
use saros.Db.Ordered.Laws.{IsOrdered, IsKeyed, trim-cases, tally-trim, inserted-kept}
use saros.Db.Audit.{AuditRow, entry, row_seq, every, is_stale, max_rows, retention_secs, append}

all-deleted :
    (q p : AuditRow → Bool) (xs : List AuditRow) → all q xs ≡ true → all q (deleted p xs) ≡ true
all-deleted q p [] h = refl
all-deleted q p (x ∷ xs) h = ground (arith, all-deleted q p xs, h)

all_fresh :
    (now : ℕ) (xs : List AuditRow)
    → all (λ r. not (is_stale now r)) (deleted (is_stale now) xs) ≡ true
all_fresh now [] = refl
all_fresh now (x ∷ xs) = ground (arith, all_fresh now xs)

is_new : (now : ℕ) → not (ltb now (now - retention_secs)) ≡ true
is_new now = ground arith

module _ (T : Table AuditRow) (O : Ordered T) (K : Keyed T) (law : IsRelational T)
    (order : IsOrdered T O) (fresh : IsKeyed T K row_seq) where
  append-steps :
      (actor : Text) (action : ℕ) (target : Text) (now : ℕ) (s s' : Repo T)
      → append T O K actor action target now s ≡ (ok tt, s')
      → (t u : T.State) × (K.insert (entry actor action target now) s.table ≡ some t)
        × (T.delete (is_stale now) t ≡ some u)
        × (trim T O every row_seq max_rows u ≡ some s'.table)
  unfolding append
  append-steps actor action target now s s' d =
      elim (Option-cases (K.insert (entry actor action target now) s.table)) [
        | inl e ↦ cc (rw (e, append) at d)
        | inr (t, e) ↦ elim (Option-cases (T.delete (is_stale now) t)) [
          | inl n ↦ cc (rw (e, n, append) at d)
          | inr (u, n) ↦ elim (Option-cases (trim T O every row_seq max_rows u)) [
            | inl m ↦ cc (rw (e, n, m, append) at d)
            | inr (v, m) ↦ (t, u, e, n, m ∙ ap (λ a. some (a.1).table) (rw (e, n, m, append) at d))
          ]
        ]
      ]

  kept_fresh :
      (now : ℕ) (u v : T.State)
      → trim T O every row_seq max_rows u ≡ some v
      → all (λ r. not (is_stale now r)) (T.rows u) ≡ true
      → all (λ r. not (is_stale now r)) (T.rows v) ≡ true
  kept_fresh now u v m h = elim (trim-cases T O law order every row_seq max_rows u v m) [
    | inl (same, _) ↦ ap (all (λ r. not (is_stale now r))) same ∙ h
    | inr (l, rows, _, _) ↦
        ap (all (λ r. not (is_stale now r))) rows
        ∙ all-deleted (λ r. not (is_stale now r)) (λ r. every r && leb r.seq l.seq) (T.rows u) h
  ]

  -- An entry that has been appended leaves no more than 50,000 rows, none older than 90 days, of
  -- which it is the one with the largest seq.
  pub append_lem :
      (actor : Text) (action : ℕ) (target : Text) (now : ℕ) (s s' : Repo T)
      → append T O K actor action target now s ≡ (ok tt, s')
      → (length (T.rows s'.table) ≤ max_rows)
        × (all (λ r. not (is_stale now r)) (T.rows s'.table) ≡ true)
        × ((seq : ℕ) × (keep (λ r. leb seq r.seq) (T.rows s'.table)
              ≡ entry actor action target now seq ∷ [])
            × (all (λ r. ltb r.seq seq) (T.rows s.table) ≡ true))
  append_lem actor action target now s s' d =
      let (t, u, e, n, m) = append-steps actor action target now s s' d in
      let (seq, rows, low, _) = fresh.inserted (entry actor action target now) s.table t e in
      let left : T.rows u
          ≡ deleted (is_stale now) (T.rows s.table) ++ entry actor action target now seq ∷ [] =
        law.delete_rows (is_stale now) t u n
        ∙ ap (deleted (is_stale now)) rows
        ∙ keep-append_pass (λ r. not (is_stale now r)) (T.rows s.table)
            (entry actor action target now seq) (is_new now) in
      (
        subst (λ k. k ≤ max_rows) (tally-true (T.rows s'.table))
            (tally-trim T O law order every row_seq max_rows u s'.table m),
        kept_fresh now u s'.table m (
            ap (all (λ r. not (is_stale now r))) (law.delete_rows (is_stale now) t u n)
            ∙ all_fresh now (T.rows t)),
        (
          seq,
          inserted-kept T O law order every row_seq max_rows
              (deleted (is_stale now) (T.rows s.table)) (entry actor action target now seq) u
              s'.table (omega arith) left
              (all-deleted (λ r. ltb r.seq seq) (is_stale now) (T.rows s.table) low) refl m,
          low,
        ),
      )
