-- ===== src/RateLimit.antt =====
-- src/ratelimit.rs: two tiers of per-client budgets in front of every request. The `governor`
-- limiter is an interface; times are in nanoseconds, and an address is an ℕ.
pub mod Laws
use saros.Base.{
  ℕ, ◌*◌, ◌/◌, Bool, true, false, if◌then◌else◌, ltb, Option, none, some, List, [], ◌∷◌, Text, text,
  any, ends_with, split, trim, Outcome, ok, err,
}

-- DefaultKeyedRateLimiter: `check_key` answers how long to wait where the budget is spent, and none
-- where it charges.
pub record Limiter : Type 1 where
  pub State : Type 0
  pub keyed : ℕ → State
  pub check_key : ℕ → ℕ → State → Option ℕ × State
  pub retain_recent : ℕ → State → State

abbrev pub strict_suffixes : List Text
strict_suffixes =
    text "AuthService/BeginPasskey"
    ∷ text "AuthService/BeginLogin"
    ∷ text "AuthService/FinishPasskey"
    ∷ []

-- 0.0.0.0
abbrev pub unresolved_key : ℕ
unresolved_key = 0

unfoldable pub is_strict : Text → Bool
is_strict path = any (λ suffix. ends_with suffix path) strict_suffixes

abbrev first_hop : List Text → Text
first_hop [] = []
first_hop (h ∷ hs) = h

-- client_ip: the parse of an address is std's. The header is none where it is missing or no text.
unfoldable pub client_ip : (Text → Option ℕ) → Option Text → Option ℕ → Option ℕ
client_ip parse none peer = peer
client_ip parse (some forwarded) peer = elim (parse (trim (first_hop (split b',' forwarded)))) [
  | some ip ↦ some ip
  | none ↦ peer
]

-- What the client gets: the handler's response, or a 429 with its Retry-After.
pub data Reply : Type 0 where
  served : Reply
  too_many_requests : ℕ → Reply

-- too_many: whole seconds, at least one
unfoldable pub too_many : ℕ → Reply
too_many retry_after =
    let seconds = retry_after / 1_000_000_000 in
    too_many_requests (if ltb seconds 1 then 1 else seconds)

-- The labels "auth" and "global"
pub data Tier : Type 0 where
  auth_tier global_tier : Tier

module _ (L : Limiter) where
  pub record RateLimit : Type 0 where
    pub strict : Option L.State
    pub global : Option L.State

  -- bucket
  unfoldable pub bucket : ℕ → Option L.State
  bucket per_min = if ltb 0 per_min then some (L.keyed per_min) else none

  -- RateLimit::new
  unfoldable pub new : ℕ → ℕ → RateLimit
  new global_per_min auth_per_min = record {
    strict = bucket auth_per_min;
    global = bucket global_per_min;
  }

  abbrev labelled : Tier → Option L.State → Option (Tier × L.State)
  labelled tier none = none
  labelled tier (some b) = some (tier, b)

  -- RateLimit::bucket_for: the tier's label and its limiter, which the label refers to.
  unfoldable pub bucket_for : Text → RateLimit → Option (Tier × L.State)
  bucket_for path r =
      if is_strict path then labelled auth_tier r.strict else labelled global_tier r.global

  -- The limiter that a label refers to, as a charge leaves it.
  abbrev pub charged : Tier → L.State → RateLimit → RateLimit
  charged auth_tier b r = record r { strict = some b }
  charged global_tier b r = record r { global = some b }

  -- RateLimit::check: none where the request may pass
  unfoldable pub check : ℕ → ℕ → Text → RateLimit → Option ℕ × RateLimit
  check now ip path r = elim (bucket_for path r) [
    | none ↦ (none, r)
    | some (tier, b) ↦ let (denied, b') = L.check_key now ip b in (denied, charged tier b' r)
  ]

  retained : ℕ → Option L.State → Option L.State
  retained now none = none
  retained now (some b) = some (L.retain_recent now b)

  -- RateLimit::prune
  unfoldable pub prune : ℕ → RateLimit → RateLimit
  unfolding retained
  prune now r = record { strict = retained now r.strict; global = retained now r.global }

  unfoldable pub or_unresolved : Option ℕ → ℕ
  or_unresolved none = unresolved_key
  or_unresolved (some ip) = ip

  unfoldable pub reply_of : Option ℕ → Reply
  reply_of none = served
  reply_of (some retry_after) = too_many retry_after

  -- enforce
  unfoldable pub enforce :
      (Text → Option ℕ) → ℕ → Option Text → Option ℕ → Text → RateLimit → Reply × RateLimit
  enforce parse now forwarded peer path r =
      let answer = check now (or_unresolved (client_ip parse forwarded peer)) path r in
      (reply_of (answer.0), answer.1)
