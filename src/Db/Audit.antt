-- ===== src/Db/Audit.antt =====
-- src/db/audit.rs: the audit trail, pruned as it grows. Times are in seconds.
pub mod Laws
pub mod Pages
use saros.Base.{
  ℕ, ◌*◌, ◌-◌, ◌%◌, ◌^◌, Bool, true, false, ◌&&◌, if◌then◌else◌, ◌==◌, leb, ltb, Option, none, some,
  List, [], ◌∷◌, length, map, last, Text, text_eq, Outcome, ok, err,
}
use saros.Db.Table.{DbError, sql, Table, Repo, bump}
use saros.Db.Ordered.{desc, Ordered, Keyed, clamp_limit, trim}

abbrev pub since_cap : ℕ
since_cap = 500

abbrev pub retention_secs : ℕ
retention_secs = 90 * 24 * 3600

abbrev pub max_rows : ℕ
max_rows = 50000

pub record AuditRow : Type 0 where
  pub seq : ℕ
  pub at : ℕ
  pub actor : Text
  pub action : ℕ
  pub target : Text

pub record AuditRecord : Type 0 where
  pub at : ℕ
  pub actor : Text
  pub action : ℕ
  pub target : Text

-- From<AuditRow>
unfoldable pub audit_record : AuditRow → AuditRecord
audit_record r = record { at = r.at; actor = r.actor; action = r.action % 2 ^ 8; target = r.target }

abbrev pub entry : Text → ℕ → Text → ℕ → ℕ → AuditRow
entry actor action target now seq = record {
  seq = seq;
  at = now;
  actor = actor;
  action = action;
  target = target;
}

abbrev pub row_seq : AuditRow → ℕ
row_seq r = r.seq

abbrev pub every : AuditRow → Bool
every r = true

-- `at < now - RETENTION_SECS`; where that is below 0, no row is.
abbrev pub is_stale : ℕ → AuditRow → Bool
is_stale now r = ltb r.at (now - retention_secs)

-- A cursor is cast from u64 to i64, and is negative from 2 ^ 63 on.
abbrev pub is_after : ℕ → AuditRow → Bool
is_after after r = if leb (2 ^ 63) after then true else ltb after r.seq

abbrev pub is_before : ℕ → AuditRow → Bool
is_before before r =
    if before == 0 then true else if leb (2 ^ 63) before then false else ltb r.seq before

abbrev pub is_by : Option Text → AuditRow → Bool
is_by none r = true
is_by (some actor) r = text_eq r.actor actor

abbrev pub numbered : AuditRow → ℕ × AuditRecord
numbered r = (r.seq, audit_record r)

abbrev pub first_seq : List AuditRow → ℕ
first_seq [] = 0
first_seq (r ∷ rs) = r.seq

abbrev pub seq_of : Option (ℕ × AuditRecord) → ℕ
seq_of none = 0
seq_of (some (seq, rec)) = seq

-- The cursor of a page that was asked for with a limit.
unfoldable pub next_cursor : ℕ → List (ℕ × AuditRecord) → ℕ
next_cursor limit out = if ltb (length out) limit then 0 else seq_of (last out)

module _ (T : Table AuditRow) (O : Ordered T) where
  -- Audit::append: a statement that fails leaves what those before it have done.
  unfoldable pub append :
      Keyed T → Text → ℕ → Text → ℕ → Repo T → Outcome DbError (Unit {0}) × Repo T
  append K actor action target now s = elim (K.insert (entry actor action target now) s.table) [
    | none ↦ (err sql, s)
    | some t ↦ elim (T.delete (is_stale now) t) [
      | none ↦ (err sql, record s { table = t })
      | some u ↦ elim (trim T O every row_seq max_rows u) [
        | none ↦ (err sql, record s { table = u })
        | some v ↦ (ok tt, bump (record s { table = v }))
      ]
    ]
  ]

  -- Audit::list
  unfoldable pub list : ℕ → Repo T → Outcome DbError (List AuditRecord)
  list limit s = elim (O.first_rows every desc row_seq (clamp_limit limit) s.table) [
    | none ↦ err sql
    | some rs ↦ ok (map audit_record rs)
  ]

  -- Audit::snapshot
  unfoldable pub snapshot : ℕ → Repo T → Outcome DbError (List AuditRecord × ℕ)
  snapshot limit s = elim (O.first_rows every desc row_seq (clamp_limit limit) s.table) [
    | none ↦ err sql
    | some rs ↦ ok (map audit_record rs, first_seq rs)
  ]

  -- Audit::since
  unfoldable pub since : ℕ → Repo T → Outcome DbError (List (ℕ × AuditRecord))
  since after s = elim (O.first_rows (is_after after) desc row_seq since_cap s.table) [
    | none ↦ err sql
    | some rs ↦ ok (map numbered rs)
  ]

  -- Audit::page
  unfoldable pub page : ℕ → ℕ → Option Text → Repo T → Outcome DbError (List (ℕ × AuditRecord) × ℕ)
  page before limit actor s =
      elim (O.first_rows (λ r. is_before before r && is_by actor r) desc row_seq (clamp_limit limit)
        s.table) [
          | none ↦ err sql
          | some rs ↦ let out = map numbered rs in ok (out, next_cursor limit out)
        ]
