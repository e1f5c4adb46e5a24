-- ===== src/Auth.antt =====
-- src/auth.rs, the token authority, and the guards and the credential of src/services/mod.rs that
-- stand in front of every handler. Times are in seconds, on the ℕ part of an `i64`. SHA-256, the
-- hexadecimal print and the random generator's answer are arguments.
pub mod Cookie
pub mod Gate
use saros.Base.{
  ℕ, ◌+◌, ◌-◌, ◌*◌, ◌^◌, Bool, true, false, not, if◌then◌else◌, leb, ltb, Option, none, some, List,
  [], ◌∷◌, ◌++◌, any, Text, text, text_eq, strip_prefix, eq_ignore_case, Outcome, ok, err, ◌>>◌,
}
use saros.Db.Table.{DbError, internal, Table, Repo}
use saros.Db.Sessions.{SessionRow, session_id, kind_web, kind_api}
use saros.Db.Sessions

abbrev pub session_ttl : ℕ
session_ttl = 30 * 24 * 3600

abbrev pub api_token_ttl : ℕ
api_token_ttl = 365 * 24 * 3600

pub data Caller : Type 0 where
  anonymous : Caller
  user : Text → Bool → Caller
  service : Caller

-- Caller::signed_in
abbrev pub signed_in : Caller → Bool
signed_in anonymous = false
signed_in (user u a) = true
signed_in service = true

-- Caller::admin
abbrev pub admin : Caller → Bool
admin anonymous = false
admin (user u a) = a
admin service = true

-- Caller::username
abbrev pub username : Caller → Text
username anonymous = []
username (user u a) = u
username service = text "service"

pub record Auth : Type 0 where
  pub service_token_digest : Option (List ℕ)
  pub admin_users : List Text

-- i64::saturating_add, of numbers that are not negative
abbrev pub saturating_add : ℕ → ℕ → ℕ
saturating_add a b = if ltb (a + b) (2 ^ 63) then a + b else 2 ^ 63 - 1

-- The token of an `Authorization` value.
abbrev pub bearer : Option Text → Option Text
bearer none = none
bearer (some v) = strip_prefix (text "Bearer ") v

abbrev pub is_service : Auth → List ℕ → Bool
is_service auth digest = elim auth.service_token_digest [ none ↦ false | some d ↦ text_eq d digest ]

abbrev pub is_admin : Auth → Text → Bool
is_admin auth who = any (λ a. eq_ignore_case a who) auth.admin_users

-- A row just minted.
abbrev pub minted : List ℕ → Text → ℕ → ℕ → Text → ℕ → SessionRow
minted digest who ttl kind label now = record {
  digest = digest;
  username = who;
  kind = kind;
  created_at = now;
  expires_at = saturating_add now ttl;
  label = label;
  last_seen = now;
  ip = [];
  device = [];
}

-- What a lookup of a session says of the caller: a failure says nobody.
unfoldable pub caller_of_lookup : Auth → Outcome DbError (Option Text) → Caller
caller_of_lookup auth (ok (some who)) = user who (is_admin auth who)
caller_of_lookup auth (ok none) = anonymous
caller_of_lookup auth (err e) = anonymous

-- ConnectError, by its code
pub data Refusal : Type 0 where
  unauthenticated permission_denied : Refusal

-- require_signed_in
unfoldable pub require_signed_in : Caller → Outcome Refusal (Unit {0})
require_signed_in c = if signed_in c then ok tt else err unauthenticated

-- require_admin
unfoldable pub require_admin : Caller → Outcome Refusal (Unit {0})
require_admin c = elim (require_signed_in c) [
  | ok _ ↦ if admin c then ok tt else err permission_denied
  | err e ↦ err e
]

module _ (T : Table SessionRow) (digest_of : Text → List ℕ) where
  -- Auth::new
  unfoldable pub new : Option Text → List Text → Auth
  new none admins = record { service_token_digest = none; admin_users = admins }
  new (some t) admins = record { service_token_digest = some (digest_of t); admin_users = admins }

  -- Auth::mint, with what `random_hex` answers
  unfoldable pub mint :
      Option Text → Text → ℕ → ℕ → Text → ℕ → Repo T → Outcome DbError Text × Repo T
  mint none who ttl kind label now s = (err internal, s)
  mint (some token) who ttl kind label now s =
      let r = Sessions.put T (minted (digest_of token) who ttl kind label now) s in
      (r.0 >> ok token, r.1)

  -- Auth::mint_session
  unfoldable pub mint_session : Option Text → Text → ℕ → Repo T → Outcome DbError Text × Repo T
  mint_session rng who now s = mint rng who session_ttl kind_web (text "web session") now s

  -- Auth::mint_api_token
  unfoldable pub mint_api_token :
      Option Text → Text → Text → ℕ → Repo T → Outcome DbError Text × Repo T
  mint_api_token rng who label now s = mint rng who api_token_ttl kind_api label now s

  -- Auth::current_session_id
  unfoldable pub current_session_id : (List ℕ → Text) → Option Text → Option Text
  current_session_id hex authorization = elim (bearer authorization) [
    | none ↦ none
    | some token ↦ some (session_id hex (digest_of token))
  ]

  -- Auth::touch: a failure is logged, and no more.
  unfoldable pub touch : Option Text → Text → Text → ℕ → Repo T → Repo T
  touch authorization ip device now s = elim (bearer authorization) [
    | none ↦ s
    | some token ↦ (Sessions.touch T (digest_of token) ip device now s).1
  ]

  unfoldable pub or_false : Outcome DbError Bool → Bool
  or_false (ok b) = b
  or_false (err e) = false

  -- Auth::revoke
  unfoldable pub revoke : Option Text → Repo T → Bool × Repo T
  revoke authorization s = elim (bearer authorization) [
    | none ↦ (false, s)
    | some token ↦ let r = Sessions.delete T (digest_of token) s in (or_false (r.0), r.1)
  ]

  -- Auth::caller
  unfoldable pub caller : Auth → ℕ → Option Text → Repo T → Caller
  caller auth now authorization s = elim (bearer authorization) [
    | none ↦ anonymous
    | some token ↦
        if is_service auth (digest_of token)
        then service
        else caller_of_lookup auth (Sessions.username T now (digest_of token) s)
  ]
