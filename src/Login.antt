-- ===== src/Login.antt =====
-- src/login.rs: sign-in by device code. A request is opened by a tool, decided in a browser, and
-- read once by the tool. Time is in nanoseconds; what the random generator answers is an argument,
-- none where it fails.
pub mod Codes
pub mod Laws
pub mod Invariant
pub mod Overlap
pub mod Delivery
use saros.Base.{
  ℕ, suc, zero, ◌+◌, ◌-◌, ◌*◌, ◌%◌, ◌^◌, Bool, true, false, not, ◌&&◌, if◌then◌else◌, leb, ltb,
  Option, none, some, List, [], ◌∷◌, ◌++◌, take, length, Text, text, text_eq, dec_text, trim,
  Outcome, ok, err,
}
use saros.Base.Map
use saros.Base.Map.{Map, retain}
use saros.Mirror.{trim_end_slashes}
use Codes.{user_code, normalize}

abbrev pub expires_in_secs : ℕ
expires_in_secs = 600

abbrev pub expires_in : ℕ
expires_in = expires_in_secs * 1_000_000_000

abbrev pub poll_interval_secs : ℕ
poll_interval_secs = 3

abbrev pub max_pending : ℕ
max_pending = 4096

abbrev pub max_label : ℕ
max_label = 128

pub data BeginError : Type 0 where
  too_many_pending rng : BeginError

pub data State : Type 0 where
  pending : State
  approved : Text → Text → State
  denied : State

pub record Pending : Type 0 where
  pub user_code : Text
  pub label : Text
  pub created : ℕ
  pub state : State

-- Pending::expired
abbrev pub expired : ℕ → Pending → Bool
expired now p = ltb expires_in (now - p.created)

pub data Poll : Type 0 where
  still_pending : Poll
  delivered : Text → Text → Poll
  refused gone : Poll

pub data Status : Type 0 where
  is_pending is_approved is_denied is_expired : Status

pub record Describe : Type 0 where
  pub label : Text
  pub status : Status

pub data Approve (E : Type 0) : Type 0 where
  approves : Approve E
  not_pending : Approve E
  mint_failed : E → Approve E

pub record Logins : Type 0 where
  pub by_device : Map Text Pending
  pub by_user : Map Text Text
  pub decision_gen : ℕ

pub record Begun : Type 0 where
  pub device_code : Text
  pub user_code : Text
  pub verification_uri : Text
  pub interval_secs : ℕ
  pub expires_in : ℕ

-- Logins::new
abbrev pub new : Logins
new = record { by_device = []; by_user = []; decision_gen = 0 }

abbrev pub bump : Logins → Logins
bump s = record s { decision_gen = (s.decision_gen + 1) % 2 ^ 64 }

-- The removals in `by_user` that the closure of sweep_expired makes.
unfoldable pub sweep_users : ℕ → Map Text Pending → Map Text Text → Map Text Text
sweep_users now [] users = users
sweep_users now ((d, p) ∷ rest) users =
    sweep_users now rest (if expired now p then Map.remove dec_text p.user_code users else users)

-- Logins::sweep_expired
unfoldable pub sweep_expired : ℕ → Logins → Logins
sweep_expired now s = record s {
  by_device = retain (λ p. not (expired now p)) s.by_device;
  by_user = sweep_users now s.by_device s.by_user;
}

abbrev pub label_of : Text → Text
label_of label = if text_eq label [] then text "a device" else take max_label label

-- The entry that begin makes.
unfoldable pub open_request : Text → ℕ → Text → Text → Text → Logins → Begun × Logins
open_request base now device_code code label s =
    let key = normalize code in
    (
      record {
        device_code = device_code;
        user_code = code;
        verification_uri = trim_end_slashes base ++ text "/authorize?code=" ++ code;
        interval_secs = poll_interval_secs;
        expires_in = expires_in_secs;
      },
      record s {
        by_user = Map.insert dec_text key device_code s.by_user;
        by_device =
            Map.insert dec_text device_code
              (record {
                user_code = key;
                label = label_of (trim label);
                created = now;
                state = pending;
              })
              s.by_device;
      },
    )

-- The test of begin, before it opens a request.
abbrev pub is_full : Logins → Bool
is_full s = leb max_pending (length s.by_device)

-- Logins::begin: `device` is 32 random bytes in hex, `raw` the 8 random bytes of the user code.
unfoldable pub begin :
    Text → ℕ → Option Text → Option (List ℕ) → Text → Logins → Outcome BeginError Begun × Logins
begin base now device raw label s =
    let swept = sweep_expired now s in
    if is_full swept then (err too_many_pending, swept) else elim device [
      | none ↦ (err rng, swept)
      | some d ↦ elim raw [
        | none ↦ (err rng, swept)
        | some bytes ↦
            (let (begun, s') = open_request base now d (user_code bytes) label swept in
              (ok begun, s'))
      ]
    ]

-- The removal of a consumed or expired record.
abbrev pub forget : Text → Pending → Logins → Logins
forget device_code p s = record s {
  by_device = Map.remove dec_text device_code s.by_device;
  by_user = Map.remove dec_text p.user_code s.by_user;
}

unfoldable pub poll_state : Text → Pending → State → Logins → Poll × Logins
poll_state device_code p pending s = (still_pending, s)
poll_state device_code p denied s = (refused, s)
poll_state device_code p (approved token username) s =
    (delivered token username, forget device_code p s)

-- Logins::poll
unfoldable pub poll : ℕ → Text → Logins → Poll × Logins
poll now device_code s = elim (Map.get dec_text device_code s.by_device) [
  | none ↦ (gone, s)
  | some p ↦
      if expired now p then (gone, forget device_code p s) else poll_state device_code p p.state s
]

unfoldable pub status_of : ℕ → Pending → State → Status
status_of now p pending = is_pending
status_of now p (approved t u) = is_approved
status_of now p denied = is_denied

-- Logins::describe
unfoldable pub describe : ℕ → Text → Logins → Option Describe
describe now code s = elim (Map.get dec_text (normalize code) s.by_user) [
  | none ↦ none
  | some device_code ↦ elim (Map.get dec_text device_code s.by_device) [
    | none ↦ none
    | some p ↦ some (record {
      label = p.label;
      status = if expired now p then is_expired else status_of now p p.state;
    })
  ]
]

-- The request that a user code names, where it may still be decided.
abbrev pub is_pending_state : State → Bool
is_pending_state pending = true
is_pending_state (approved t u) = false
is_pending_state denied = false

unfoldable pub decidable : ℕ → Text → Logins → Option (Text × Pending)
decidable now code s = elim (Map.get dec_text (normalize code) s.by_user) [
  | none ↦ none
  | some d ↦ elim (Map.get dec_text d s.by_device) [
    | none ↦ none
    | some p ↦ if not (expired now p) && is_pending_state p.state then some (d, p) else none
  ]
]

abbrev pub decide : Text → Pending → State → Logins → Logins
decide d p next s = record s {
  by_device = Map.insert dec_text d (record p { state = next }) s.by_device;
}

-- Logins::approve: `mint` acts on the world `W` of its closure.
module _ {E W : Type 0} where
  unfoldable pub approve_minted :
      Text → Pending → Text → Outcome E Text × W → Logins → Approve E × Logins × W
  approve_minted d p username (err e, w) s = (mint_failed e, s, w)
  approve_minted d p username (ok token, w) s =
      (approves, bump (decide d p (approved token username) s), w)

  unfoldable pub approve :
      ℕ → Text → Text → (W → Outcome E Text × W) → Logins → W → Approve E × Logins × W
  approve now code username mint s w = elim (decidable now code s) [
    | none ↦ (not_pending, s, w)
    | some (d, p) ↦ approve_minted d p username (mint w) s
  ]

-- Logins::deny, with set_state
unfoldable pub deny : ℕ → Text → Logins → Bool × Logins
deny now code s = elim (decidable now code s) [
  | none ↦ (false, s)
  | some (d, p) ↦ (true, bump (decide d p denied s))
]
