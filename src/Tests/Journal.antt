-- ===== src/Tests/Journal.antt =====
-- Tables kept in memory that are appended to: notifications, the audit trail, the ledger, the
-- counters and the series.
use saros.Base.{
  ◌≡◌, ◌≤◌, ◌<◌, ◌+◌, ◌⊎◌, refl, ℕ, Bool, true, false, not, ◌&&◌, leb, ltb, Option, none, some,
  List, [], ◌∷◌, all, keep, length, tally, if◌then◌else◌, Text, text, text_eq, ok, err, inl, inr,
  arith, ◌==◌,
}
use saros.Db.Table.{sql, Repo, in_memory}
use saros.Db.Ordered.{desc, Ordered, Keyed}
use saros.Db.Ordered.Memory.{
  sorting, counting, sorting-IsOrdered, counting-IsKeyed, in_memory-IsRelational,
}
use saros.Db.Inbox.{NotificationRow}
use saros.Db.Inbox.Feed.{by_user, row_id, notification, max_per_user, push, push_lem}
use saros.Db.Audit.{
  AuditRow, AuditRecord, audit_record, row_seq, entry, is_stale, max_rows, append, page,
}
use saros.Db.Audit.Laws.{append_lem}
use saros.Db.Audit.Pages.{matching, page_lem}
use saros.Db.Stats.{
  DownloadRow, TotalsRow, totals_row, SeriesRow, sample_row, MetricTotals, MetricsSampleRecord,
  Transactions, saturating_suc, bump_download, save_totals, load_totals, record_sample, zero_totals,
}
use saros.Db.Stats.Downloads.{count_in, counts-bump_download}
use saros.Metrics.{
  Metrics, Counter, of_downloads, of_uploads, of_submissions, of_reviews, of_sign_ins, seed,
  totals-restart,
}
use saros.Metrics
use saros.Db.Submissions.{SubmissionRow, is_of, is_at, submitted, record_submission}
use saros.Db.Submissions
use saros.Db.Submissions.Pruning.{record_submission_lem}

abbrev inbox : Repo (in_memory NotificationRow)
inbox = record {
  table =
      notification (text "bob") 1 (text "t") [] [] 90 1
      ∷ notification (text "ann") 1 (text "t") [] [] 95 2
      ∷ [];
  generation = 2;
}

abbrev pushed : Repo (in_memory NotificationRow)
pushed =
    (push (in_memory NotificationRow) (sorting NotificationRow) (counting NotificationRow row_id)
      (text "ann") 2 (text "hi") [] [] 100 inbox).1

push_lem_example :
    (tally (by_user (text "ann")) pushed.table ≤ max_per_user)
    × (keep (λ r. not (by_user (text "ann") r)) pushed.table
        ≡ keep (λ r. not (by_user (text "ann") r)) inbox.table)
    × ((id : ℕ) × (keep (λ r. by_user (text "ann") r && leb id r.id) pushed.table
          ≡ notification (text "ann") 2 (text "hi") [] [] 100 id ∷ [])
        × (all (λ r. ltb r.id id) inbox.table ≡ true))
unfolding push saros.Db.Ordered.trim saros.Base.dec_text
push_lem_example =
    push_lem (in_memory NotificationRow) (sorting NotificationRow) (counting NotificationRow row_id)
      (in_memory-IsRelational NotificationRow) (sorting-IsOrdered NotificationRow)
      (counting-IsKeyed NotificationRow row_id) (text "ann") 2 (text "hi") [] [] 100 inbox pushed
      refl

abbrev trail : Repo (in_memory AuditRow)
trail = record {
  table =
      entry (text "ann") 1 (text "x/1") 10 1
      ∷ entry (text "bob") 2 (text "x/2") 9000000 2
      ∷ entry (text "ann") 2 (text "x/3") 9000000 3
      ∷ [];
  generation = 3;
}

abbrev appended : Repo (in_memory AuditRow)
appended =
    (append (in_memory AuditRow) (sorting AuditRow) (counting AuditRow row_seq) (text "ann") 3
      (text "x/4") 9000001 trail).1

append_lem_example :
    (length appended.table ≤ max_rows)
    × (all (λ r. not (is_stale 9000001 r)) appended.table ≡ true)
    × ((seq : ℕ) × (keep (λ r. leb seq r.seq) appended.table
          ≡ entry (text "ann") 3 (text "x/4") 9000001 seq ∷ [])
        × (all (λ r. ltb r.seq seq) trail.table ≡ true))
unfolding append saros.Db.Ordered.trim
append_lem_example =
    append_lem (in_memory AuditRow) (sorting AuditRow) (counting AuditRow row_seq)
      (in_memory-IsRelational AuditRow) (sorting-IsOrdered AuditRow)
      (counting-IsKeyed AuditRow row_seq) (text "ann") 3 (text "x/4") 9000001 trail appended refl

abbrev ann_page : List (ℕ × AuditRecord)
ann_page = (3, audit_record (entry (text "ann") 2 (text "x/3") 9000000 3)) ∷ []

trail_unique : (k : ℕ) → tally (λ r. r.seq == k) trail.table ≤ 1
trail_unique k = ground arith

page_lem_example :
    (length ann_page ≤ 1)
    × (tally (λ r. leb 2 r.seq) (keep (matching 0 (some (text "ann"))) trail.table)
        ≡ tally (λ a. leb 2 a.0) ann_page
          + tally
              (λ r. ltb r.seq 3 && leb 2 r.seq)
              (keep (matching 0 (some (text "ann"))) trail.table))
    × (all (λ a. leb 3 a.0) ann_page ≡ true)
unfolding page saros.Base.dec_text saros.Db.Audit.next_cursor
page_lem_example =
    page_lem (in_memory AuditRow) (sorting AuditRow) (in_memory-IsRelational AuditRow)
      (sorting-IsOrdered AuditRow) 0 1 (some (text "ann")) (λ n. leb 2 n) trail ann_page 3
      trail_unique (omega arith) (omega arith) refl

abbrev plain : Transactions (in_memory DownloadRow)
plain = record { transaction = some; commit = some }

abbrev downloads : List DownloadRow
downloads = record { sha = text "aa"; count = 7 } ∷ []

counts-bump_download_example :
    (((bump_download (in_memory DownloadRow) plain (text "aa") downloads).0 ≡ err sql)
      × ((bump_download (in_memory DownloadRow) plain (text "aa") downloads).1 ≡ downloads))
    ⊎ (((bump_download (in_memory DownloadRow) plain (text "aa") downloads).0 ≡ ok tt)
        × (count_in
              (text "aa")
              (bump_download (in_memory DownloadRow) plain (text "aa") downloads).1
            ≡ (if text_eq (text "aa") (text "aa")
                then saturating_suc (count_in (text "aa") downloads)
                else count_in (text "aa") downloads)))
counts-bump_download_example =
    counts-bump_download (in_memory DownloadRow) (in_memory-IsRelational DownloadRow) plain
      (record { transaction_rows = λ s t h. cc; commit_rows = λ s t h. cc }) (text "aa") (text "aa")
      downloads

abbrev totals : MetricTotals
totals = record { downloads = 5; uploads = 4; submissions = 3; reviews = 2; sign_ins = 1 }

abbrev metrics : Metrics
metrics = record {
  start = 0;
  counters = λ c. elim c [
    | of_downloads ↦ 5
    | of_uploads ↦ 4
    | of_submissions ↦ 3
    | of_reviews ↦ 2
    | of_sign_ins ↦ 1
  ];
  mirror_configured = false;
}

totals-restart_example : Metrics.totals (seed totals (Metrics.new 9 true)) ≡ Metrics.totals metrics
unfolding save_totals load_totals Metrics.totals
totals-restart_example =
    totals-restart (in_memory TotalsRow) (in_memory-IsRelational TotalsRow) metrics 9 true totals
      (totals_row zero_totals ∷ []) (totals_row totals ∷ []) (omega arith) refl refl

abbrev sample : ℕ → MetricsSampleRecord
sample at = record {
  at = at;
  users = 2;
  devices = 1;
  firmware = 3;
  downloads = 9;
  uploads = 4;
  submissions = 3;
  sign_ins = 6;
}

abbrev series : List SeriesRow
series = sample_row (sample 100) ∷ sample_row (sample 7300) ∷ []

abbrev sampled : List SeriesRow
sampled = (record_sample (in_memory SeriesRow) (sorting SeriesRow) (sample 8000) series).1

abbrev ledger : Repo (in_memory SubmissionRow)
ledger = record {
  table =
      submitted (text "ann") (text "x") (text "1") 50
      ∷ submitted (text "bob") (text "x") (text "2") 60
      ∷ [];
  generation = 0;
}

abbrev resubmission : Repo (in_memory SubmissionRow)
resubmission =
    (record_submission (in_memory SubmissionRow) (sorting SubmissionRow) (text "ann") (text "x")
      (text "1") 70 ledger).1

record_submission_lem_example :
    (tally (is_of (text "ann")) resubmission.table ≤ Submissions.max_per_user)
    × (keep (λ r. not (is_of (text "ann") r)) resubmission.table
        ≡ keep (λ r. not (is_of (text "ann") r)) ledger.table)
    × (keep (is_at (text "ann") (text "x") (text "1")) resubmission.table
        ≡ submitted (text "ann") (text "x") (text "1") 70 ∷ [])
unfolding record_submission saros.Base.dec_text Submissions.oldest_rows Submissions.recorded
    Submissions.delete_rows
record_submission_lem_example =
    record_submission_lem (in_memory SubmissionRow) (sorting SubmissionRow)
      (in_memory-IsRelational SubmissionRow) (sorting-IsOrdered SubmissionRow) (text "ann")
      (text "x") (text "1") 70 ledger resubmission (omega arith) (omega arith) refl
