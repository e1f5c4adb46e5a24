-- ===== src/Events.antt =====
-- src/events.rs: what an action leaves in the counters and in the audit trail. A failure to append
-- is logged, and no more. The numbers of the wire's enumerations are arguments.
use saros.Base.{ℕ, ◌%◌, ◌^◌, Bool, if◌then◌else◌, Text, text, ◌++◌}
use saros.Db.Table.{Table, Repo}
use saros.Db.Ordered.{Ordered, Keyed}
use saros.Db.Audit.{AuditRow, append}
use saros.Metrics.{Metrics, inc, of_downloads, of_uploads, of_submissions, of_reviews, of_sign_ins}

-- The wire's AuditAction
pub data AuditAction : Type 0 where
  unspecified firmware_submitted firmware_approved firmware_rejected : AuditAction
  account_registered signed_in token_created session_revoked : AuditAction
  credential_added credential_removed email_changed : AuditAction

pub record Events (T : Table AuditRow) : Type 0 where
  pub audit : Repo T
  pub metrics : Metrics

module _ (T : Table AuditRow) (O : Ordered T) (K : Keyed T) (number : AuditAction → ℕ) where
  -- Events::upload
  abbrev pub upload : Events T → Events T
  upload e = record e { metrics = inc of_uploads e.metrics }

  -- Events::download
  abbrev pub download : Events T → Events T
  download e = record e { metrics = inc of_downloads e.metrics }

  -- Events::audit
  unfoldable pub audit : Text → AuditAction → Text → ℕ → Events T → Events T
  audit actor action target now e = record e {
    audit = (append T O K actor (number action % 2 ^ 8) target now e.audit).1;
  }

  -- Events::sign_in
  unfoldable pub sign_in : Text → AuditAction → Text → ℕ → Events T → Events T
  sign_in actor action target now e =
      audit actor action target now (record e { metrics = inc of_sign_ins e.metrics })

  -- Events::submitted
  unfoldable pub submitted : Text → Text → Text → ℕ → Events T → Events T
  submitted actor device version now e =
      audit actor firmware_submitted (device ++ text "/" ++ version) now
        (record e { metrics = inc of_submissions e.metrics })

  -- Events::reviewed
  unfoldable pub reviewed : Text → Text → Bool → ℕ → Events T → Events T
  reviewed actor target approved now e =
      audit actor (if approved then firmware_approved else firmware_rejected) target now
        (record e { metrics = inc of_reviews e.metrics })

  -- Events::account
  unfoldable pub account : AuditAction → Text → Text → ℕ → Events T → Events T
  account action actor target now e = audit actor action target now e
