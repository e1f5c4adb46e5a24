-- ===== src/Db/Stats/Totals.antt =====
-- The lifetime totals of src/db/stats.rs, across a restart.
use saros.Base.{
  ◌≡◌, ◌≤◌, refl, sym, ap, ◌∙◌, inl, inr, true, keep, tally, Outcome, ok, arith, Option-cases,
}
use saros.Db.Table.{DbError, Table, IsRelational}
use saros.Db.Table.Upsert.{upsert, upserted, rows-upsert, keep-upserted}
use saros.Db.Sessions.{first}
use saros.Db.Stats.{
  MetricTotals, TotalsRow, write_totals, totals_row, is_totals, totals_of, load_totals, save_totals,
}

overwritten :
    (totals : MetricTotals) (r : TotalsRow)
    → is_totals r ≡ true
    → write_totals totals r ≡ totals_row totals
overwritten totals r h =
    let at_0 : r.id ≡ 0 = ground (arith, h) in
    ap {B = TotalsRow} (λ n. record (totals_row totals) { id = n }) at_0

module _ (T : Table TotalsRow) (law : IsRelational T) where
  rows-save_totals :
      (totals : MetricTotals) (s s' : T.State)
      → save_totals T totals s ≡ (ok tt, s')
      → T.rows s' ≡ upserted is_totals (write_totals totals) (totals_row totals) (T.rows s)
  unfolding save_totals
  rows-save_totals totals s s' d = elim (Option-cases (T.select is_totals s)) [
    | inl e ↦ cc (rw (e, save_totals) at d)
    | inr (rs, e) ↦
        elim (Option-cases (upsert T is_totals (write_totals totals) (totals_row totals) rs s)) [
          | inl f ↦ cc (rw (e, f, save_totals) at d)
          | inr (t, f) ↦
              ap (λ a. T.rows a.1) (sym (rw (e, f, save_totals) at d))
              ∙ rows-upsert T law is_totals (write_totals totals) (totals_row totals) s t rs
                  (law.select_rows is_totals s rs e) f
        ]
  ]

  -- What has been saved is what is loaded, where the id is a key of the table.
  pub load_totals-save_totals :
      (totals loaded : MetricTotals) (s s' : T.State)
      → tally is_totals (T.rows s) ≤ 1
      → save_totals T totals s ≡ (ok tt, s')
      → load_totals T s' ≡ ok loaded
      → loaded ≡ totals
  unfolding load_totals
  load_totals-save_totals totals loaded s s' key saved d =
      elim (Option-cases (T.select is_totals s')) [
        | inl e ↦ cc (rw (e, load_totals) at d)
        | inr (rs, e) ↦
            sym (some_ok (rw (e, load_totals) at d))
            ∙ ap (λ rows. totals_of (first rows))
                (law.select_rows is_totals s' rs e
                  ∙ ap (keep is_totals) (rows-save_totals totals s s' saved)
                  ∙ keep-upserted is_totals (write_totals totals) (totals_row totals) (T.rows s) key
                      refl (overwritten totals))
      ]
    where
      some_ok : {a b : MetricTotals} → Path (Outcome DbError MetricTotals) (ok a) (ok b) → a ≡ b
      some_ok g = cc
