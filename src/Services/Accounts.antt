-- ===== src/Services/Accounts.antt =====
-- src/services/auth.rs: the handlers of a user's own passkeys, email and notifications.
use saros.Base.{ℕ, Bool, if◌then◌else◌, Option, none, some, List, [], Text, Outcome, ok, err}
use saros.Auth.{username, signed_in, admin}
use saros.Db.Inbox.{mark_read, mark_all_read}
use saros.Login.{Describe, Begun, BeginError, too_many_pending, rng}
use saros.Login
use saros.Passkey.{CredentialInfo, PasskeyError, PasskeyMode}
use saros.Passkey.Ceremonies
use saros.Passkey.Keys
use saros.Events.{credential_added, credential_removed, email_changed}
use saros.Services.Wire.{ConnectError, resource_exhausted, internal, of_passkey, of_db}
use saros.Services.World.{Backend, World, Answer, caller_of, signed_in_only}
use saros.Services.Signing.{accounted}

pub record WhoAmIResponse : Type 0 where
  pub username : Text
  pub admin : Bool
  pub email : Text

abbrev pub or_empty : Outcome PasskeyError (Option Text) → Text
or_empty (err e) = []
or_empty (ok none) = []
or_empty (ok (some email)) = email

abbrev pub begin_error : BeginError → ConnectError
begin_error too_many_pending = resource_exhausted
begin_error rng = internal

module _ (B : Backend) where
  -- who_am_i
  unfoldable pub who_am_i : ℕ → Option Text → World B → WhoAmIResponse
  who_am_i now credential w =
      let c = caller_of B now credential w in
      record {
        username = username c;
        admin = admin c;
        email =
            if signed_in c
            then or_empty (Keys.email B.webauthn B.json B.hex B.users (username c) w.passkeys)
            else [];
      }

  -- The answer of a call of the passkeys, and what they are left as.
  abbrev pub of_passkeys :
      {A : Type 0} → Ceremonies.Answer B.webauthn B.users A → World B → Answer B A
  of_passkeys (err e, p) w = (err (of_passkey e), record w { passkeys = p })
  of_passkeys (ok a, p) w = (ok a, record w { passkeys = p })

  -- begin_passkey
  unfoldable pub begin_passkey :
      ℕ → ℕ → Text → Option Text → Text → World B → Answer B (Text × Text × PasskeyMode)
  begin_passkey nanos seed uuid random name w =
      of_passkeys (Ceremonies.begin B.webauthn B.users nanos seed uuid random name w.passkeys) w

  -- begin_login
  unfoldable pub begin_login :
      Text → ℕ → Option Text → Option (List ℕ) → Text → World B → Answer B Begun
  begin_login base nanos device raw label w =
      let begun = Login.begin base nanos device raw label w.logins in
      let w' = record w { logins = begun.1 } in
      elim begun.0 [ err e ↦ (err (begin_error e), w') | ok b ↦ (ok b, w') ]

  unfoldable pub describe_for : ℕ → Text → World B → Answer B (Option Describe)
  describe_for nanos code w = (ok (Login.describe nanos code w.logins), w)

  -- describe_login
  unfoldable pub describe_login : ℕ → ℕ → Option Text → Text → World B → Answer B (Option Describe)
  describe_login now nanos credential code w =
      signed_in_only B now credential (λ c v. describe_for nanos code v) w

  unfoldable pub list_for : Text → World B → Answer B (List CredentialInfo)
  list_for who w = elim (Keys.credentials B.webauthn B.json B.hex B.users who w.passkeys) [
    | err e ↦ (err (of_passkey e), w)
    | ok infos ↦ (ok infos, w)
  ]

  -- list_credentials
  unfoldable pub list_credentials : ℕ → Option Text → World B → Answer B (List CredentialInfo)
  list_credentials now credential w =
      signed_in_only B now credential (λ c v. list_for (username c) v) w

  unfoldable pub begin_add_for : ℕ → ℕ → Option Text → Text → World B → Answer B (Text × Text)
  begin_add_for nanos seed random who w =
      of_passkeys (Keys.begin_add B.webauthn B.json B.hex B.users nanos seed random who w.passkeys)
        w

  -- begin_add_credential
  unfoldable pub begin_add_credential :
      ℕ → ℕ → ℕ → Option Text → Option Text → World B → Answer B (Text × Text)
  begin_add_credential now nanos seed random credential w =
      signed_in_only B now credential (λ c v. begin_add_for nanos seed random (username c) v) w

  unfoldable pub add_for : ℕ → Text → Text → Text → Text → World B → Answer B CredentialInfo
  add_for now flow answer label who w =
      let added =
        Keys.finish_add B.webauthn B.json B.hex B.users now flow answer label who w.passkeys in
      let w' = record w { passkeys = added.1 } in
      elim added.0 [
        | err e ↦ (err (of_passkey e), w')
        | ok info ↦ (ok info, accounted B credential_added who info.id now w')
      ]

  -- finish_add_credential
  unfoldable pub finish_add_credential :
      ℕ → Option Text → Text → Text → Text → World B → Answer B CredentialInfo
  finish_add_credential now credential flow answer label w =
      signed_in_only B now credential (λ c v. add_for now flow answer label (username c) v) w

  unfoldable pub remove_for : ℕ → Text → Text → World B → Answer B (Unit {0})
  remove_for now id who w =
      let removed = Keys.remove B.webauthn B.json B.hex B.users who id w.passkeys in
      let w' = record w { passkeys = removed.1 } in
      elim removed.0 [
        | err e ↦ (err (of_passkey e), w')
        | ok done ↦ (ok tt, accounted B credential_removed who id now w')
      ]

  -- remove_credential
  unfoldable pub remove_credential : ℕ → Option Text → Text → World B → Answer B (Unit {0})
  remove_credential now credential id w =
      signed_in_only B now credential (λ c v. remove_for now id (username c) v) w

  unfoldable pub email_for : ℕ → Text → Text → World B → Answer B (Unit {0})
  email_for now typed who w =
      let changed = Keys.set_email B.webauthn B.json B.hex B.users who (some typed) w.passkeys in
      let w' = record w { passkeys = changed.1 } in
      elim changed.0 [
        | err e ↦ (err (of_passkey e), w')
        | ok done ↦ (ok tt, accounted B email_changed who who now w')
      ]

  -- set_email
  unfoldable pub set_email : ℕ → Option Text → Text → World B → Answer B (Unit {0})
  set_email now credential typed w =
      signed_in_only B now credential (λ c v. email_for now typed (username c) v) w

  unfoldable pub mark_for : ℕ → Text → World B → Answer B (Unit {0})
  mark_for id who w =
      let marked = mark_read B.inbox who id w.inbox in
      let w' = record w { inbox = marked.1 } in
      elim marked.0 [ err e ↦ (err (of_db e), w') | ok flipped ↦ (ok tt, w') ]

  -- mark_notification_read
  unfoldable pub mark_notification_read : ℕ → Option Text → ℕ → World B → Answer B (Unit {0})
  mark_notification_read now credential id w =
      signed_in_only B now credential (λ c v. mark_for id (username c) v) w

  unfoldable pub mark_all_for : Text → World B → Answer B (Unit {0})
  mark_all_for who w =
      let marked = mark_all_read B.inbox who w.inbox in
      let w' = record w { inbox = marked.1 } in
      elim marked.0 [ err e ↦ (err (of_db e), w') | ok count ↦ (ok tt, w') ]

  -- mark_all_notifications_read
  unfoldable pub mark_all_notifications_read : ℕ → Option Text → World B → Answer B (Unit {0})
  mark_all_notifications_read now credential w =
      signed_in_only B now credential (λ c v. mark_all_for (username c) v) w
