-- ===== src/Db/Submissions.antt =====
-- src/db/submissions.rs: each submitter's ledger. Times are in seconds.
pub mod Covered
pub mod Laws
pub mod Pruning
use saros.Base.{
  ℕ, ◌-◌, ◌%◌, ◌^◌, Bool, true, false, ◌&&◌, if◌then◌else◌, ltb, Option, none, some, List, [], ◌∷◌,
  length, map, Text, text_eq, Outcome, ok, err,
}
use saros.Db.Table.{DbError, sql, Table, Repo, bump}
use saros.Db.Table.Upsert.{upsert}
use saros.Db.Ordered.{asc, Ordered}

abbrev pub max_per_user : ℕ
max_per_user = 200

abbrev pub pending : ℕ
pending = 1

pub record SubmissionRow : Type 0 where
  pub username : Text
  pub device : Text
  pub version : Text
  pub status : ℕ
  pub submitted_at : ℕ
  pub reviewed_at : ℕ

pub record SubmissionRecord : Type 0 where
  pub device : Text
  pub version : Text
  pub status : ℕ
  pub submitted_at : ℕ
  pub reviewed_at : ℕ

-- From<SubmissionRow>
unfoldable pub submission_record : SubmissionRow → SubmissionRecord
submission_record r = record {
  device = r.device;
  version = r.version;
  status = r.status % 2 ^ 8;
  submitted_at = r.submitted_at;
  reviewed_at = r.reviewed_at;
}

-- filter_by_username_and_device_and_version
abbrev pub is_at : Text → Text → Text → SubmissionRow → Bool
is_at who device version r =
    text_eq r.username who && text_eq r.device device && text_eq r.version version

abbrev pub is_of : Text → SubmissionRow → Bool
is_of who r = text_eq r.username who

abbrev pub row_submitted_at : SubmissionRow → ℕ
row_submitted_at r = r.submitted_at

abbrev pub submitted : Text → Text → Text → ℕ → SubmissionRow
submitted who device version now = record {
  username = who;
  device = device;
  version = version;
  status = pending;
  submitted_at = now;
  reviewed_at = 0;
}

abbrev pub resubmitted : ℕ → SubmissionRow → SubmissionRow
resubmitted now r = record r { status = pending; submitted_at = now; reviewed_at = 0 }

abbrev pub reviewed : ℕ → ℕ → SubmissionRow → SubmissionRow
reviewed status now r = record r { status = status; reviewed_at = now }

module _ (T : Table SubmissionRow) where
  -- The loop of record: what it has deleted stays deleted where a later statement fails.
  unfoldable pub delete_rows : List SubmissionRow → T.State → Option (Unit {0}) × T.State
  delete_rows [] t = (some tt, t)
  delete_rows (row ∷ rest) t = elim (T.delete (is_at row.username row.device row.version) t) [
    | none ↦ (none, t)
    | some u ↦ delete_rows rest u
  ]

  unfoldable pub oldest_rows : Ordered T → Text → T.State → Option (List SubmissionRow)
  oldest_rows O who t = elim (T.select (is_of who) t) [
    | none ↦ none
    | some rs ↦
        if ltb max_per_user (length rs)
        then O.first_rows (is_of who) asc row_submitted_at (length rs - max_per_user) t
        else some []
  ]

  unfoldable pub recorded :
      Option (Unit {0}) × T.State → Repo T → Outcome DbError (Unit {0}) × Repo T
  recorded (none, t) s = (err sql, record s { table = t })
  recorded (some done, t) s = (ok tt, bump (record s { table = t }))

  -- Submissions::record
  unfoldable pub record_submission :
      Ordered T → Text → Text → Text → ℕ → Repo T → Outcome DbError (Unit {0}) × Repo T
  record_submission O who device version now s =
      elim (T.select (is_at who device version) s.table) [
        | none ↦ (err sql, s)
        | some found ↦
            elim (upsert T (is_at who device version) (resubmitted now)
              (submitted who device version now) found s.table) [
                | none ↦ (err sql, s)
                | some t ↦ elim (oldest_rows O who t) [
                  | none ↦ (err sql, record s { table = t })
                  | some oldest ↦ recorded (delete_rows oldest t) s
                ]
              ]
      ]

  -- Submissions::mark
  unfoldable pub mark : Text → Text → Text → ℕ → ℕ → Repo T → Outcome DbError (Unit {0}) × Repo T
  mark who device version status now s = elim (T.select (is_at who device version) s.table) [
    | none ↦ (err sql, s)
    | some found ↦
        if ltb 0 (length found)
        then elim (T.update (is_at who device version) (reviewed status now) s.table) [
          | none ↦ (err sql, s)
          | some t ↦ (ok tt, bump (record s { table = t }))
        ]
        else (ok tt, s)
  ]

  -- Submissions::list
  unfoldable pub list : Text → Repo T → Outcome DbError (List SubmissionRecord)
  list who s = elim (T.select (is_of who) s.table) [
    | none ↦ err sql
    | some rs ↦ ok (map submission_record rs)
  ]
