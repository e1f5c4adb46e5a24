-- ===== src/Services/World.antt =====
-- What the handlers of src/services/auth.rs act on, and what they stand on that is not in this
-- repository or is set when the server starts.
use saros.Base.{ℕ, ◌%◌, ◌^◌, Bool, Option, List, Text, Outcome, ok, err}
use saros.Account.{Json}
use saros.Auth.{Auth, Caller, caller, require_signed_in}
use saros.Db.Table.{Table, Repo}
use saros.Db.Ordered.{Ordered, Keyed}
use saros.Db.Sessions.{SessionRow}
use saros.Db.Users.{UserRow}
use saros.Db.Inbox.{NotificationRow}
use saros.Db.Inbox.Feed.{push}
use saros.Db.Audit.{AuditRow}
use saros.Passkey.{Webauthn, Passkeys}
use saros.Login.{Logins}
use saros.Events.{Events, AuditAction}
use saros.Services.Wire.{ConnectError, of_refusal}

-- The wire's NotificationKind
pub data NotificationKind : Type 0 where
  submission_approved submission_rejected new_firmware new_sign_in : NotificationKind

pub record Backend : Type 1 where
  pub Key : Type 0
  pub webauthn : Webauthn Key
  pub json : Json Key
  pub hex : List ℕ → Text
  pub digest_of : Text → List ℕ
  pub sessions : Table SessionRow
  pub users : Table UserRow
  pub inbox : Table NotificationRow
  pub inbox_order : Ordered inbox
  pub inbox_keys : Keyed inbox
  pub trail : Table AuditRow
  pub trail_order : Ordered trail
  pub trail_keys : Keyed trail
  pub action_number : AuditAction → ℕ
  pub kind_number : NotificationKind → ℕ
  pub auth : Auth
  pub cookie_domain : Option Text
  pub cookie_secure : Bool

module _ (B : Backend) where
  pub record World : Type 0 where
    pub sessions : Repo B.sessions
    pub passkeys : Passkeys B.webauthn B.users
    pub logins : Logins
    pub inbox : Repo B.inbox
    pub events : Events B.trail

  abbrev pub Answer : Type 0 → Type 0
  Answer A = Outcome ConnectError A × World

  -- caller_of, with the credential that request_token reads
  abbrev pub caller_of : ℕ → Option Text → World → Caller
  caller_of now credential w = caller B.sessions B.digest_of B.auth now credential w.sessions

  -- notify: a failure to push is logged, and no more.
  unfoldable pub notify : Text → NotificationKind → Text → Text → Text → ℕ → World → World
  notify who kind title detail link now w = record w {
    inbox =
        (push B.inbox B.inbox_order B.inbox_keys who (B.kind_number kind % 2 ^ 8) title detail link
          now w.inbox).1;
  }

  -- A handler behind require_signed_in.
  abbrev pub signed_in_only :
      {A : Type 0} → ℕ → Option Text → (Caller → World → Answer A) → World → Answer A
  signed_in_only now credential body w = elim (require_signed_in (caller_of now credential w)) [
    | err e ↦ (err (of_refusal e), w)
    | ok done ↦ body (caller_of now credential w) w
  ]
