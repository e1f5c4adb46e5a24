-- ===== src/Db/Stats/Series.antt =====
-- The hourly series of src/db/stats.rs.
use saros.Base.{
  ◌≡◌, ◌≤◌, refl, sym, ap, ◌∙◌, inl, inr, true, leb, subst, all, keep_eq, length-keep, tally-true,
  map, some, List, [], ◌∷◌, length, keep, tally, Outcome, ok, arith, Option-cases,
}
use saros.Db.Table.{DbError, Table, IsRelational}
use saros.Db.Table.Upsert.{upserted, rows-upsert, keep-upserted, all-upserted}
use saros.Db.Ordered.{asc, precedes, is_sorted, IsFirst, Ordered, trim}
use saros.Db.Ordered.Laws.{IsOrdered, tally-trim, keep-trim_newest}
use saros.Db.Stats.{
  MetricsSampleRecord, SeriesRow, sample_of, write_sample, sample_row, bucket_of, row_bucket,
  every_sample, by_bucket, upsert_sample, record_sample, series_retention, history,
}

overwritten :
    (rec : MetricsSampleRecord) (r : SeriesRow)
    → by_bucket (bucket_of rec) r ≡ true
    → write_sample rec r ≡ sample_row rec
overwritten rec r h =
    let there : r.bucket ≡ bucket_of rec = ground (arith, h) in
    ap {B = SeriesRow} (λ n. record (sample_row rec) { bucket = n }) there

keep_every : (rows : List SeriesRow) → keep every_sample rows ≡ rows
keep_every [] = refl
keep_every (r ∷ rows) = ap (λ rest. r ∷ rest) (keep_every rows)

all_there :
    (rows rs : List SeriesRow)
    → IsFirst
        (precedes asc row_bucket)
        (length (keep every_sample rows))
        (keep every_sample rows)
        rs
    → length rs ≡ length rows
all_there rows rs f =
    let parts = f.split every_sample in
    let whole = ap length (keep_every rows) in
    elim f.full [
      | inl e ↦ e ∙ whole
      | inr e ↦ omega (
        arith,
        parts,
        whole,
        ap length e,
        tally-true rs,
        tally-true f.rest,
        tally-true (keep every_sample rows),
      )
    ]

module _ (T : Table SeriesRow) (O : Ordered T) (law : IsRelational T) (order : IsOrdered T O) where
  record_sample-steps :
      (rec : MetricsSampleRecord) (s s' : T.State)
      → record_sample T O rec s ≡ (ok tt, s')
      → (t : T.State) × (T.rows t
          ≡ upserted (by_bucket (bucket_of rec)) (write_sample rec) (sample_row rec) (T.rows s))
        × (trim T O every_sample row_bucket series_retention t ≡ some s')
  unfolding record_sample
  record_sample-steps rec s s' d = elim (Option-cases (T.select (by_bucket (bucket_of rec)) s)) [
    | inl e ↦ cc (rw (e, record_sample) at d)
    | inr (rs, e) ↦ elim (Option-cases (upsert_sample T O rec rs s)) [
      | inl f ↦ cc (rw (e, f, record_sample) at d)
      | inr (t, f) ↦ elim (Option-cases (trim T O every_sample row_bucket series_retention t)) [
        | inl g ↦ cc (rw (e, f, g, record_sample) at d)
        | inr (u, g) ↦ (
          t,
          rows-upsert T law (by_bucket (bucket_of rec)) (write_sample rec) (sample_row rec) s t rs
              (law.select_rows (by_bucket (bucket_of rec)) s rs e) f,
          g ∙ ap (λ a. some a.1) (rw (e, f, g, record_sample) at d),
        )
      ]
    ]
  ]

  -- A sample that has been recorded leaves no more than 720 rows. Where the buckets are a key of the table
  -- and none is later than the sample's, the row of its bucket is the latest, and has the sample.
  pub record_sample_lem :
      (rec : MetricsSampleRecord) (s s' : T.State)
      → tally (by_bucket (bucket_of rec)) (T.rows s) ≤ 1
      → all (λ r. leb r.bucket (bucket_of rec)) (T.rows s) ≡ true
      → record_sample T O rec s ≡ (ok tt, s')
      → (length (T.rows s') ≤ series_retention)
        × (keep (λ r. leb (bucket_of rec) r.bucket) (T.rows s') ≡ sample_row rec ∷ [])
  record_sample_lem rec s s' key latest d =
      let (t, rows, g) = record_sample-steps rec s s' d in
      let bucket = bucket_of rec in
      let one : keep (λ r. leb bucket r.bucket) (T.rows t) ≡ sample_row rec ∷ [] =
        keep_eq (λ r. leb r.bucket bucket) (λ r. leb bucket r.bucket) (by_bucket bucket) (T.rows t)
          (λ r h. ground (arith, h))
          (ap (all (λ r. leb r.bucket bucket)) rows
            ∙ all-upserted (λ r. leb r.bucket bucket) (by_bucket bucket) (write_sample rec)
                (sample_row rec) (T.rows s) (λ r. refl) (ground arith) latest)
        ∙ ap (keep (by_bucket bucket)) rows
        ∙ keep-upserted (by_bucket bucket) (write_sample rec) (sample_row rec) (T.rows s) key
            (ground arith) (overwritten rec) in
      (
        subst (λ n. n ≤ series_retention) (tally-true (T.rows s'))
            (tally-trim T O law order every_sample row_bucket series_retention t s' g),
        keep-trim_newest T O law order every_sample row_bucket series_retention bucket t s' g
              (omega (arith, length-keep (λ r. leb bucket r.bucket) (T.rows t), ap length one))
            ∙ one,
      )

  -- What history answers are the samples of all rows, and the buckets they are from never fall.
  pub history_lem :
      (s : T.State) (samples : List MetricsSampleRecord)
      → history T O s ≡ ok samples
      → (rs : List SeriesRow) × (samples ≡ map sample_of rs)
        × (is_sorted (precedes asc row_bucket) rs ≡ true)
        × (length rs ≡ length (T.rows s))
  unfolding history
  history_lem s samples d = elim (Option-cases (O.all_rows every_sample asc row_bucket s)) [
    | inl e ↦ cc (rw (e, history) at d)
    | inr (rs, e) ↦
        let f = order.all_of every_sample asc row_bucket s rs e in
        (rs, sym (some_ok (rw (e, history) at d)), f.sorted, all_there (T.rows s) rs f)
  ]
    where
      some_ok :
          {a b : List MetricsSampleRecord}
          → Path (Outcome DbError (List MetricsSampleRecord)) (ok a) (ok b)
          → a ≡ b
      some_ok g = cc
