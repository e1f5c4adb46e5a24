-- ===== src/RateLimit/Laws.antt =====
-- What src/ratelimit.rs charges, and what it answers, for any limiter.
use saros.Base.{
  ℕ, ◌≤◌, ◌≡◌, refl, inl, inr, ◌⊎◌, true, false, Option, none, some, Text, arith, Option-cases,
  Bool-cases,
}
use saros.RateLimit.{
  Limiter, RateLimit, Reply, is_strict, client_ip, served, too_many_requests, too_many, bucket_for,
  check, reply_of, enforce, or_unresolved,
}

module _ (L : Limiter) where
  too_many_least : (w n : ℕ) → too_many w ≡ too_many_requests n → 1 ≤ n
  unfolding too_many
  too_many_least w n h = ground (arith, h)

  -- A reply that turns a request away tells to wait for at least a second.
  pub enforce-Retry_after :
      (parse : Text → Option ℕ) (now : ℕ) (forwarded : Option Text) (peer : Option ℕ) (path : Text)
      (r : RateLimit L) (seconds : ℕ)
      → (enforce L parse now forwarded peer path r).0 ≡ too_many_requests seconds
      → 1 ≤ seconds
  unfolding enforce reply_of
  enforce-Retry_after parse now forwarded peer path r seconds h =
      elim (Option-cases
        ((check L now (or_unresolved L (client_ip parse forwarded peer)) path r).0)) [
          | inl n ↦ cc (rw (n, enforce, reply_of) at h)
          | inr (w, e) ↦ too_many_least w seconds (rw (e, enforce, reply_of) at h)
        ]

  -- What a budget answers for an address, and what is left of it: one that is off lets all pass.
  unfoldable pub spent : ℕ → ℕ → Option L.State → Reply × Option L.State
  spent now ip none = (served, none)
  spent now ip (some b) = let (denied, b') = L.check_key now ip b in (reply_of L denied, some b')

  -- A request for one of the three starts of a ceremony is answered by the strict budget for the
  -- client's address and charged to it alone, and any other request is by the global one; a
  -- budget that is off lets every request pass.
  pub enforce-tiers :
      (parse : Text → Option ℕ) (now : ℕ) (forwarded : Option Text) (peer : Option ℕ) (path : Text)
      (r : RateLimit L)
      → ((is_strict path ≡ true)
          × (enforce L parse now forwarded peer path r ≡ (
              let out = spent now (or_unresolved L (client_ip parse forwarded peer)) r.strict in
              (out.0, record r { strict = out.1 }))))
        ⊎ ((is_strict path ≡ false)
            × (enforce L parse now forwarded peer path r ≡ (
                let out = spent now (or_unresolved L (client_ip parse forwarded peer)) r.global in
                (out.0, record r { global = out.1 }))))
  unfolding enforce check bucket_for spent reply_of
  enforce-tiers parse now forwarded peer path r = elim (Bool-cases (is_strict path)) [
    | inl s ↦ elim (Option-cases r.strict) [
      | inl n ↦ inl (s, rw (s, n, enforce, check, bucket_for, spent, reply_of) (off_strict n))
      | inr (b, e) ↦ inl (s, rw (s, e, enforce, check, bucket_for, spent) refl)
    ]
    | inr g ↦ elim (Option-cases r.global) [
      | inl n ↦ inr (g, rw (g, n, enforce, check, bucket_for, spent, reply_of) (off_global n))
      | inr (b, e) ↦ inr (g, rw (g, e, enforce, check, bucket_for, spent) refl)
    ]
  ]
    where
      off_strict :
          r.strict ≡ none
          → Path (Reply × RateLimit L) (served, r) (served, record r { strict = none })
      off_strict n = λ i. (served, record r { strict = n i })

      off_global :
          r.global ≡ none
          → Path (Reply × RateLimit L) (served, r) (served, record r { global = none })
      off_global n = λ i. (served, record r { global = n i })
