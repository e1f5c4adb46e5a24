-- ===== src/Db/Submissions/Laws.antt =====
-- What the statements of src/db/submissions.rs make of the ledger.
use saros.Base.{
  ℕ, ◌≡◌, sym, ap, ◌∙◌, inl, inr, ltb, some, List, [], ◌∷◌, length, Text, ok, Option-cases,
  Bool-cases,
}
use saros.Db.Table.{Table, IsRelational, Repo, updated, deleted, length_none}
use saros.Db.Table.Upsert.{updated_none}
use saros.Db.Submissions.{SubmissionRow, is_at, reviewed, delete_rows, mark}
use saros.Db.Submissions.Covered.{covered, deleted_both, deleted_nothing}

module _ (T : Table SubmissionRow) (law : IsRelational T) where
  pub rows-delete_rows :
      (rs : List SubmissionRow) (t u : T.State)
      → delete_rows T rs t ≡ (some tt, u)
      → T.rows u ≡ deleted (covered rs) (T.rows t)
  unfolding delete_rows
  rows-delete_rows [] t u d = ap (λ a. T.rows a.1) (sym d) ∙ deleted_nothing (T.rows t)
  rows-delete_rows (r ∷ rs) t u d =
      elim (Option-cases (T.delete (is_at r.username r.device r.version) t)) [
        | inl e ↦ cc (rw (e, delete_rows) at d)
        | inr (v, e) ↦
            rows-delete_rows rs v u (rw (e, delete_rows) at d)
            ∙ ap (deleted (covered rs))
                (law.delete_rows (is_at r.username r.device r.version) t v e)
            ∙ deleted_both (is_at r.username r.device r.version) (covered rs) (T.rows t)
      ]

  -- A review changes the status and the time of review of the row at its coordinates, and nothing
  -- else: where there is no such row, nothing.
  pub mark_lem :
      (who device version : Text) (status now : ℕ) (s s' : Repo T)
      → mark T who device version status now s ≡ (ok tt, s')
      → T.rows s'.table ≡ updated (is_at who device version) (reviewed status now) (T.rows s.table)
  unfolding mark
  mark_lem who device version status now s s' d =
      elim (Option-cases (T.select (is_at who device version) s.table)) [
        | inl e ↦ cc (rw (e, mark) at d)
        | inr (found, e) ↦
            let rows = law.select_rows (is_at who device version) s.table found e in
            elim (Bool-cases (ltb 0 (length found))) [
              | inr absent ↦
                  ap (λ a. T.rows (a.1).table) (sym (rw (e, absent, mark) at d))
                  ∙ sym (
                      updated_none (is_at who device version) (reviewed status now) (T.rows s.table)
                        (sym rows ∙ length_none found absent))
              | inl there ↦
                  elim (Option-cases
                    (T.update (is_at who device version) (reviewed status now) s.table)) [
                      | inl f ↦ cc (rw (e, there, f, mark) at d)
                      | inr (t, f) ↦
                          ap (λ a. T.rows (a.1).table) (sym (rw (e, there, f, mark) at d))
                          ∙ law.update_rows _ _ s.table t f
                    ]
            ]
      ]
