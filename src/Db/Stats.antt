-- ===== src/Db/Stats.antt =====
-- src/db/stats.rs: download counters, lifetime totals, and the hourly series. Times are in seconds
-- from 1970 on.
pub mod Downloads
pub mod Totals
pub mod Series
use saros.Base.{
  ℕ, ◌≡◌, ◌+◌, ◌*◌, ◌/◌, ◌-◌, ◌^◌, Bool, true, false, if◌then◌else◌, ◌==◌, leb, ltb, Option, none,
  some, List, [], ◌∷◌, length, map, Text, text_eq, Outcome, ok, err,
}
use saros.Db.Table.{DbError, sql, Table}
use saros.Db.Ordered.{asc, Ordered, trim}
use saros.Db.Sessions.{first}

abbrev pub series_retention : ℕ
series_retention = 720

pub record DownloadRow : Type 0 where
  pub sha : Text
  pub count : ℕ

pub record MetricTotals : Type 0 where
  pub downloads : ℕ
  pub uploads : ℕ
  pub submissions : ℕ
  pub reviews : ℕ
  pub sign_ins : ℕ

pub record TotalsRow : Type 0 where
  pub id : ℕ
  pub downloads : ℕ
  pub uploads : ℕ
  pub submissions : ℕ
  pub reviews : ℕ
  pub sign_ins : ℕ

pub record MetricsSampleRecord : Type 0 where
  pub at : ℕ
  pub users : ℕ
  pub devices : ℕ
  pub firmware : ℕ
  pub downloads : ℕ
  pub uploads : ℕ
  pub submissions : ℕ
  pub sign_ins : ℕ

pub record SeriesRow : Type 0 where
  pub bucket : ℕ
  pub at : ℕ
  pub users : ℕ
  pub devices : ℕ
  pub firmware : ℕ
  pub downloads : ℕ
  pub uploads : ℕ
  pub submissions : ℕ
  pub sign_ins : ℕ

-- A transaction: the statements between run on what it begins with, and nothing of them stays
-- unless it commits.
pub record Transactions {Row : Type 0} (T : Table Row) : Type 0 where
  pub transaction : T.State → Option T.State
  pub commit : T.State → Option T.State

-- Neither end of a transaction changes a row.
pub record IsTransactional {Row : Type 0} (T : Table Row) (X : Transactions T) : Type 0 where
  pub transaction_rows : (s t : T.State) → X.transaction s ≡ some t → T.rows t ≡ T.rows s
  pub commit_rows : (s t : T.State) → X.commit s ≡ some t → T.rows t ≡ T.rows s

-- u64::saturating_add with 1
abbrev pub saturating_suc : ℕ → ℕ
saturating_suc n = if ltb n (2 ^ 64 - 1) then n + 1 else n

abbrev pub by_sha : Text → DownloadRow → Bool
by_sha sha r = text_eq r.sha sha

abbrev pub count_of : Option DownloadRow → ℕ
count_of none = 0
count_of (some r) = r.count

module _ (T : Table DownloadRow) where
  unfoldable pub bump_row : Text → Option DownloadRow → T.State → Option T.State
  bump_row sha none t = T.create (record { sha = sha; count = 1 }) t
  bump_row sha (some row) t =
      T.update (by_sha sha) (λ r. record r { count = saturating_suc row.count }) t

  -- Stats::bump_download
  unfoldable pub bump_download :
      Transactions T → Text → T.State → Outcome DbError (Unit {0}) × T.State
  bump_download X sha s = elim (X.transaction s) [
    | none ↦ (err sql, s)
    | some t ↦ elim (T.select (by_sha sha) t) [
      | none ↦ (err sql, s)
      | some rs ↦ elim (bump_row sha (first rs) t) [
        | none ↦ (err sql, s)
        | some u ↦ elim (X.commit u) [ none ↦ (err sql, s) | some v ↦ (ok tt, v) ]
      ]
    ]
  ]

  -- Stats::download_count
  unfoldable pub download_count : Text → T.State → Outcome DbError ℕ
  download_count sha s = elim (T.select (by_sha sha) s) [
    | none ↦ err sql
    | some rs ↦ ok (count_of (first rs))
  ]

abbrev pub zero_totals : MetricTotals
zero_totals = record { downloads = 0; uploads = 0; submissions = 0; reviews = 0; sign_ins = 0 }

abbrev pub is_totals : TotalsRow → Bool
is_totals r = r.id == 0

abbrev pub totals_of : Option TotalsRow → MetricTotals
totals_of none = zero_totals
totals_of (some r) = record {
  downloads = r.downloads;
  uploads = r.uploads;
  submissions = r.submissions;
  reviews = r.reviews;
  sign_ins = r.sign_ins;
}

-- The update of save_totals, column by column.
abbrev pub write_totals : MetricTotals → TotalsRow → TotalsRow
write_totals totals r = record r {
  downloads = totals.downloads;
  uploads = totals.uploads;
  submissions = totals.submissions;
  reviews = totals.reviews;
  sign_ins = totals.sign_ins;
}

-- The row that save_totals creates.
abbrev pub totals_row : MetricTotals → TotalsRow
totals_row totals = record {
  id = 0;
  downloads = totals.downloads;
  uploads = totals.uploads;
  submissions = totals.submissions;
  reviews = totals.reviews;
  sign_ins = totals.sign_ins;
}

module _ (T : Table TotalsRow) where
  -- Stats::load_totals
  unfoldable pub load_totals : T.State → Outcome DbError MetricTotals
  load_totals s = elim (T.select is_totals s) [
    | none ↦ err sql
    | some rs ↦ ok (totals_of (first rs))
  ]

  -- Stats::save_totals
  unfoldable pub save_totals : MetricTotals → T.State → Outcome DbError (Unit {0}) × T.State
  save_totals totals s = elim (T.select is_totals s) [
    | none ↦ (err sql, s)
    | some rs ↦
        elim (if ltb 0 (length rs)
          then T.update is_totals (write_totals totals) s
          else T.create (totals_row totals) s) [ none ↦ (err sql, s) | some t ↦ (ok tt, t) ]
  ]

abbrev pub bucket_of : MetricsSampleRecord → ℕ
bucket_of rec = rec.at / 3600 * 3600

abbrev pub row_bucket : SeriesRow → ℕ
row_bucket r = r.bucket

abbrev pub every_sample : SeriesRow → Bool
every_sample r = true

abbrev pub by_bucket : ℕ → SeriesRow → Bool
by_bucket bucket r = r.bucket == bucket

-- From<SeriesRow>
abbrev pub sample_of : SeriesRow → MetricsSampleRecord
sample_of r = record {
  at = r.at;
  users = r.users;
  devices = r.devices;
  firmware = r.firmware;
  downloads = r.downloads;
  uploads = r.uploads;
  submissions = r.submissions;
  sign_ins = r.sign_ins;
}

-- The update of record_sample, column by column.
abbrev pub write_sample : MetricsSampleRecord → SeriesRow → SeriesRow
write_sample rec r = record r {
  at = rec.at;
  users = rec.users;
  devices = rec.devices;
  firmware = rec.firmware;
  downloads = rec.downloads;
  uploads = rec.uploads;
  submissions = rec.submissions;
  sign_ins = rec.sign_ins;
}

-- The row that record_sample creates.
abbrev pub sample_row : MetricsSampleRecord → SeriesRow
sample_row rec = record {
  bucket = bucket_of rec;
  at = rec.at;
  users = rec.users;
  devices = rec.devices;
  firmware = rec.firmware;
  downloads = rec.downloads;
  uploads = rec.uploads;
  submissions = rec.submissions;
  sign_ins = rec.sign_ins;
}

module _ (T : Table SeriesRow) (O : Ordered T) where
  abbrev pub upsert_sample : MetricsSampleRecord → List SeriesRow → T.State → Option T.State
  upsert_sample rec rs t =
      if ltb 0 (length rs)
      then T.update (by_bucket (bucket_of rec)) (write_sample rec) t
      else T.create (sample_row rec) t

  -- Stats::record_sample
  unfoldable pub record_sample :
      MetricsSampleRecord → T.State → Outcome DbError (Unit {0}) × T.State
  record_sample rec s = elim (T.select (by_bucket (bucket_of rec)) s) [
    | none ↦ (err sql, s)
    | some rs ↦ elim (upsert_sample rec rs s) [
      | none ↦ (err sql, s)
      | some t ↦ elim (trim T O every_sample row_bucket series_retention t) [
        | none ↦ (err sql, t)
        | some u ↦ (ok tt, u)
      ]
    ]
  ]

  -- Stats::history
  unfoldable pub history : T.State → Outcome DbError (List MetricsSampleRecord)
  history s = elim (O.all_rows every_sample asc row_bucket s) [
    | none ↦ err sql
    | some rs ↦ ok (map sample_of rs)
  ]
