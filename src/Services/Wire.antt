-- ===== src/Services/Wire.antt =====
-- What src/services/mod.rs and its children translate to the wire: errors to their codes, and stored
-- numbers to enumerations, whose numbering is an argument.
use saros.Base.{ℕ, Bool, true, false, ◌==◌, ◌&&◌, if◌then◌else◌, Option, none, some, Text, text_eq}
use saros.Store.Names.{
  StoreError, invalid_argument, not_found, already_exists, unknown_device, missing_blob, quota, io,
  db, decode,
}
use saros.Auth.{Refusal}
use saros.Db.Table.{DbError}
use saros.Db.Audit.{AuditRecord}
use saros.Passkey.{PasskeyError}
use saros.Events.{
  AuditAction, unspecified, firmware_submitted, firmware_approved, firmware_rejected,
  account_registered, signed_in, token_created, session_revoked, credential_added,
  credential_removed, email_changed,
}

-- ConnectError, by its code
pub data ConnectError : Type 0 where
  unauthenticated permission_denied invalid not_there exists_already failed_precondition :
      ConnectError
  resource_exhausted internal : ConnectError

abbrev pub of_refusal : Refusal → ConnectError
of_refusal Refusal.unauthenticated = unauthenticated
of_refusal Refusal.permission_denied = permission_denied

-- From<StoreError>
unfoldable pub of_store : StoreError → ConnectError
of_store (invalid_argument r) = invalid
of_store (not_found k) = not_there
of_store (already_exists k) = exists_already
of_store (unknown_device d) = failed_precondition
of_store (missing_blob s f) = failed_precondition
of_store quota = resource_exhausted
of_store io = internal
of_store db = internal
of_store decode = internal

-- From<DbError>
abbrev pub of_db : DbError → ConnectError
of_db e = internal

-- From<PasskeyError>
unfoldable pub of_passkey : PasskeyError → ConnectError
of_passkey PasskeyError.invalid_username = invalid
of_passkey PasskeyError.invalid_email = invalid
of_passkey PasskeyError.username_taken = exists_already
of_passkey PasskeyError.email_taken = exists_already
of_passkey PasskeyError.unknown_flow = failed_precondition
of_passkey PasskeyError.no_such_user = failed_precondition
of_passkey PasskeyError.last_credential = failed_precondition
of_passkey PasskeyError.no_such_credential = not_there
of_passkey PasskeyError.too_many_pending = resource_exhausted
of_passkey PasskeyError.webauthn = invalid
of_passkey PasskeyError.json = invalid
of_passkey (PasskeyError.db e) = internal
of_passkey PasskeyError.rng = internal

pub data AuditCategory : Type 0 where
  routine security moderation : AuditCategory

-- wire_category
unfoldable pub wire_category : AuditAction → AuditCategory
wire_category account_registered = security
wire_category signed_in = security
wire_category token_created = security
wire_category session_revoked = security
wire_category credential_added = security
wire_category credential_removed = security
wire_category email_changed = security
wire_category firmware_submitted = moderation
wire_category firmware_approved = moderation
wire_category firmware_rejected = moderation
wire_category unspecified = routine

abbrev pub is_same_category : AuditCategory → AuditCategory → Bool
is_same_category routine routine = true
is_same_category security security = true
is_same_category moderation moderation = true
is_same_category _ _ = false

pub record AuditEntry : Type 0 where
  pub at : ℕ
  pub actor : Text
  pub action : AuditAction
  pub target : Text
  pub category : AuditCategory

-- audit_matches
unfoldable pub audit_matches : Option Text → Option AuditCategory → AuditEntry → Bool
audit_matches actor category e =
    (elim actor [ none ↦ true | some a ↦ text_eq e.actor a ])
    && (elim category [ none ↦ true | some c ↦ is_same_category e.category c ])

module _ (number : AuditAction → ℕ) where
  -- wire_action
  unfoldable pub wire_action : ℕ → AuditAction
  wire_action x =
      if x == number firmware_submitted
      then firmware_submitted
      else if x == number firmware_approved
      then firmware_approved
      else if x == number firmware_rejected
      then firmware_rejected
      else if x == number account_registered
      then account_registered
      else if x == number signed_in
      then signed_in
      else if x == number token_created
      then token_created
      else if x == number session_revoked
      then session_revoked
      else if x == number credential_added
      then credential_added
      else if x == number credential_removed
      then credential_removed
      else if x == number email_changed
      then email_changed
      else unspecified

  -- audit_entry
  abbrev pub audit_entry : AuditRecord → AuditEntry
  audit_entry r = record {
    at = r.at;
    actor = r.actor;
    action = wire_action r.action;
    target = r.target;
    category = wire_category (wire_action r.action);
  }
