-- ===== src/Services/Signing.antt =====
-- src/services/auth.rs: the handlers that hand out, and take back, tokens.
use saros.Base.{
  ℕ, Bool, true, false, ◌==◌, leb, if◌then◌else◌, Option, none, some, [], ◌++◌, keep, length, take,
  Text, text, text_eq, trim, ok, err,
}
use saros.Auth.{Caller, username, mint_session, mint_api_token, revoke, current_session_id}
use saros.Auth.Cookie.{set_session_cookie, clear_session_cookie}
use saros.Db.Sessions.{SessionRecord, kind_api}
use saros.Db.Sessions
use saros.Login.{Describe, Approve, approves, not_pending, mint_failed}
use saros.Login
use saros.Passkey.{PasskeyMode, registers, authenticates}
use saros.Passkey.Ceremonies.{finish}
use saros.Events.{
  AuditAction, account_registered, signed_in, token_created, session_revoked, sign_in, account,
}
use saros.Services.Wire.{ConnectError, failed_precondition, resource_exhausted, of_passkey, of_db}
use saros.Services.World.{Backend, World, Answer, notify, new_sign_in, signed_in_only}

abbrev pub max_api_tokens_per_user : ℕ
max_api_tokens_per_user = 20

pub record FinishPasskeyResponse : Type 0 where
  pub session_token : Text
  pub username : Text
  pub set_cookie : Text

pub data LoginStatus : Type 0 where
  approved_login denied_login : LoginStatus

abbrev pub action_of : PasskeyMode → AuditAction
action_of registers = account_registered
action_of authenticates = signed_in

-- The label of a device's token.
abbrev pub described_label : Option Describe → Text
described_label none = text "cli token"
described_label (some d) = if text_eq d.label [] then text "cli token" else d.label

-- The label of create_api_token.
abbrev pub token_label : Text → Text
token_label typed = if text_eq (trim typed) [] then text "api token" else take 128 (trim typed)

abbrev pub is_api : SessionRecord → Bool
is_api r = r.kind == kind_api

module _ (B : Backend) where
  abbrev pub audited : Text → AuditAction → Text → ℕ → World B → World B
  audited who action target now w = record w {
    events =
        sign_in B.trail B.trail_order B.trail_keys B.action_number who action target now w.events;
  }

  abbrev pub accounted : AuditAction → Text → Text → ℕ → World B → World B
  accounted action who target now w = record w {
    events =
        account B.trail B.trail_order B.trail_keys B.action_number action who target now w.events;
  }

  -- AUTHENTICATE only.
  abbrev pub told : PasskeyMode → Text → ℕ → World B → World B
  told registers who now w = w
  told authenticates who now w =
      notify B who new_sign_in (text "New sign-in") (text "A device just signed in to your account")
        (text "/account") now w

  unfoldable pub hand_out :
      Option Text → ℕ → Text → PasskeyMode → World B → Answer B FinishPasskeyResponse
  hand_out rng now who mode w =
      let minted = mint_session B.sessions B.digest_of rng who now w.sessions in
      let w' = record w { sessions = minted.1 } in
      elim minted.0 [
        | err e ↦ (err (of_db e), w')
        | ok token ↦ (
          ok (record {
            session_token = token;
            username = who;
            set_cookie = set_session_cookie token B.cookie_domain B.cookie_secure;
          }),
          told mode who now (audited who (action_of mode) who now w'),
        )
      ]

  -- finish_passkey
  unfoldable pub finish_passkey :
      Option Text → ℕ → Text → Text → Option Text → World B → Answer B FinishPasskeyResponse
  finish_passkey rng now flow answer email w =
      let finished = finish B.webauthn B.json B.hex B.users now flow answer email w.passkeys in
      let w' = record w { passkeys = finished.1 } in
      elim finished.0 [ err e ↦ (err (of_passkey e), w') | ok r ↦ hand_out rng now r.0 r.1 w' ]

  -- The match on what approve answers: its closure hands over the token that has been minted.
  unfoldable pub approve_login : ℕ → ℕ → Text → Text → Text → Text → World B → Answer B LoginStatus
  approve_login now nanos code who label token w =
      let result =
        Login.approve {E = ConnectError} nanos code who (λ v. (ok token, v)) w.logins tt in
      let w' = record w { logins = result.1 } in
      elim result.0 [
        | approves ↦ (ok approved_login, audited who token_created label now w')
        | mint_failed e ↦ (err e, w')
        | not_pending ↦ (
          err failed_precondition,
          record w' {
            sessions =
                (revoke B.sessions B.digest_of (some (text "Bearer " ++ token)) w'.sessions).1;
          },
        )
      ]

  unfoldable pub decide_approve :
      Option Text → ℕ → ℕ → Text → Caller → World B → Answer B LoginStatus
  decide_approve rng now nanos code c w =
      let label = described_label (Login.describe nanos code w.logins) in
      let minted = mint_api_token B.sessions B.digest_of rng (username c) label now w.sessions in
      let w' = record w { sessions = minted.1 } in
      elim minted.0 [
        | err e ↦ (err (of_db e), w')
        | ok token ↦ approve_login now nanos code (username c) label token w'
      ]

  unfoldable pub decide_deny : ℕ → Text → World B → Answer B LoginStatus
  decide_deny nanos code w =
      let result = Login.deny nanos code w.logins in
      if result.0
      then (ok denied_login, record w { logins = result.1 })
      else (err failed_precondition, record w { logins = result.1 })

  unfoldable pub decide_for :
      Option Text → ℕ → ℕ → Text → Bool → Caller → World B → Answer B LoginStatus
  decide_for rng now nanos code true c w = decide_approve rng now nanos code c w
  decide_for rng now nanos code false c w = decide_deny nanos code w

  -- decide_login
  unfoldable pub decide_login :
      Option Text → ℕ → ℕ → Option Text → Text → Bool → World B → Answer B LoginStatus
  decide_login rng now nanos credential code approve w =
      signed_in_only B now credential (decide_for rng now nanos code approve) w

  unfoldable pub mint_named : Option Text → ℕ → Text → Text → World B → Answer B Text
  mint_named rng now who label w =
      let minted = mint_api_token B.sessions B.digest_of rng who label now w.sessions in
      let w' = record w { sessions = minted.1 } in
      elim minted.0 [
        | err e ↦ (err (of_db e), w')
        | ok token ↦ (ok token, accounted token_created who label now w')
      ]

  unfoldable pub create_for : Option Text → ℕ → Text → Text → World B → Answer B Text
  create_for rng now name who w = elim (Sessions.list B.sessions B.hex now who w.sessions) [
    | err e ↦ (err (of_db e), w)
    | ok listed ↦
        if leb max_api_tokens_per_user (length (keep (λ e. is_api e.1) listed))
        then (err resource_exhausted, w)
        else mint_named rng now who (token_label name) w
  ]

  -- create_api_token
  unfoldable pub create_api_token : Option Text → ℕ → Option Text → Text → World B → Answer B Text
  create_api_token rng now credential name w =
      signed_in_only B now credential (λ c v. create_for rng now name (username c) v) w

  unfoldable pub revoke_for : ℕ → Text → Text → World B → Answer B (Unit {0})
  revoke_for now id who w =
      let deleted = Sessions.delete_by_id B.sessions B.hex who id w.sessions in
      let w' = record w { sessions = deleted.1 } in
      elim deleted.0 [
        | err e ↦ (err (of_db e), w')
        | ok found ↦ (ok tt, accounted session_revoked who id now w')
      ]

  -- revoke_session
  unfoldable pub revoke_session : ℕ → Option Text → Text → World B → Answer B (Unit {0})
  revoke_session now credential id w =
      signed_in_only B now credential (λ c v. revoke_for now id (username c) v) w

  -- The id of the session that is spared: empty where there is none.
  abbrev pub or_empty_id : Option Text → Text
  or_empty_id none = []
  or_empty_id (some id) = id

  unfoldable pub revoke_others_for : ℕ → Option Text → Text → World B → Answer B ℕ
  revoke_others_for now credential who w =
      let spared = or_empty_id (current_session_id B.sessions B.digest_of B.hex credential) in
      let deleted = Sessions.delete_others B.sessions B.hex who spared w.sessions in
      let w' = record w { sessions = deleted.1 } in
      elim deleted.0 [
        | err e ↦ (err (of_db e), w')
        | ok revoked ↦ (ok revoked, accounted session_revoked who (text "other sessions") now w')
      ]

  -- revoke_other_sessions
  unfoldable pub revoke_other_sessions : ℕ → Option Text → World B → Answer B ℕ
  revoke_other_sessions now credential w =
      signed_in_only B now credential (λ c v. revoke_others_for now credential (username c) v) w

  -- logout: it answers with the header that clears the cookie, whatever comes of the revocation.
  unfoldable pub logout : Option Text → World B → Text × World B
  logout credential w = (
    clear_session_cookie B.cookie_domain B.cookie_secure,
    record w { sessions = (revoke B.sessions B.digest_of credential w.sessions).1 },
  )
