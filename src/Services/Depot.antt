-- ===== src/Services/Depot.antt =====
-- What the handlers of src/services/firmware.rs and src/services/blob.rs act on, beside the World.
use saros.Base.{ℕ, Option, Text, Outcome, ok, err}
use saros.Store.State.{Env, Store}
use saros.Mirror.{ObjectStore, Mirror}
use saros.Auth.{Caller, require_signed_in, require_admin}
use saros.Db.Table.{Table, Repo}
use saros.Db.Ordered.{Ordered}
use saros.Db.Inbox.{FollowRow}
use saros.Db.Submissions.{SubmissionRow}
use saros.Db.Stats.{DownloadRow, SeriesRow, Transactions}
use saros.Services.Wire.{ConnectError, of_refusal}
use saros.Services.World.{Backend, World, caller_of}

-- The wire's SubmissionStatus
pub data SubmissionStatus : Type 0 where
  pending approved rejected : SubmissionStatus

pub record Depot : Type 1 where
  pub backend : Backend
  pub env : Env
  pub objects : ObjectStore
  pub max_blob_bytes : ℕ
  pub submissions : Table SubmissionRow
  pub submissions_order : Ordered submissions
  pub follows : Table FollowRow
  pub counts : Table DownloadRow
  pub counts_ends : Transactions counts
  pub series : Table SeriesRow
  pub series_order : Ordered series
  pub status_number : SubmissionStatus → ℕ

module _ (D : Depot) where
  pub record Stock : Type 0 where
    pub world : World D.backend
    pub store : Store D.env.Manifest
    pub mirror : Option (Mirror D.objects)
    pub submissions : Repo D.submissions
    pub follows : D.follows.State
    pub counts : D.counts.State
    pub series : D.series.State

  abbrev pub Reply : Type 0 → Type 0
  Reply A = Outcome ConnectError A × Stock

  -- A handler behind require_signed_in.
  abbrev pub signed_in_reply :
      {A : Type 0} → ℕ → Option Text → (Caller → Stock → Reply A) → Stock → Reply A
  signed_in_reply now credential body s =
      elim (require_signed_in (caller_of D.backend now credential s.world)) [
        | err e ↦ (err (of_refusal e), s)
        | ok done ↦ body (caller_of D.backend now credential s.world) s
      ]

  -- A handler behind require_admin.
  abbrev pub admin_only :
      {A : Type 0} → ℕ → Option Text → (Caller → Stock → Reply A) → Stock → Reply A
  admin_only now credential body s =
      elim (require_admin (caller_of D.backend now credential s.world)) [
        | err e ↦ (err (of_refusal e), s)
        | ok done ↦ body (caller_of D.backend now credential s.world) s
      ]
