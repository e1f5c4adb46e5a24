-- ===== src/Login/Laws.antt =====
-- Single calls of src/login.rs: what approve leaves alone, and a request from begin to poll.
use saros.Base.{
  ℕ, ◌-◌, ◌≤◌, ◌≡◌, ◌≢◌, refl, sym, subst, inl, inr, ◌⊎◌, true, false, none, some, List, Text,
  dec_text, Outcome, ok, arith, Option-cases, Outcome-cases, ◌+◌, trim, length,
}
use saros.Base.Map
use saros.Base.Map.{get-insert_self, get-remove_self}
use saros.Login.Codes.{user_code, normalize}
use saros.Login.{
  Logins, Pending, Begun, approves, delivered, gone, expires_in, expired, begin, max_pending,
  open_request, sweep_expired, decidable, approve, approve_minted, poll, forget, pending, approved,
  decide, bump, is_pending_state, label_of, poll_state,
}

-- An approval that does not come about leaves every request as it was, and mints only if the code
-- names a request that may still be decided.
pub approve_untouched :
    {E W : Type 0} (now : ℕ) (code username : Text) (mint : W → Outcome E Text × W) (s : Logins)
    (w : W)
    → (approve now code username mint s w).0 ≢ approves
    → ((approve now code username mint s w).1 ≡ s)
      × (((approve now code username mint s w).2 ≡ w)
          ⊎ ((found : Text × Pending) × (decidable now code s ≡ some found)))
unfolding approve approve_minted
approve_untouched now code username mint s w h = elim (Option-cases (decidable now code s)) [
  | inl n ↦ rw (n, approve) (refl, inl refl)
  | inr ((d, p), e) ↦ elim (Outcome-cases (mint w).0) [
    | inl (token, m) ↦ absurd (h (rw (e, m, approve, approve_minted)))
    | inr (why, m) ↦ rw (e, m, approve, approve_minted) (refl, inr ((d, p), refl))
  ]
]

pub decidable-found :
    (now : ℕ) (code : Text) (s : Logins) (d : Text) (p : Pending)
    → Map.get dec_text (normalize code) s.by_user ≡ some d
    → Map.get dec_text d s.by_device ≡ some p
    → expired now p ≡ false
    → is_pending_state p.state ≡ true
    → decidable now code s ≡ some (d, p)
unfolding decidable
decidable-found now code s d p u g e q = rw (u, g, e, q, decidable)

module _ (base : Text) (device : Text) (raw : List ℕ) (label : Text) (began : ℕ) where
  abbrev opened : Logins → Logins
  opened s = (open_request base began device (user_code raw) label (sweep_expired began s)).1

  pub begin-opened :
      (s s' : Logins) (b : Begun)
      → begin base began (some device) (some raw) label s ≡ (ok b, s')
      → (s' ≡ opened s) × (length (sweep_expired began s).by_device + 1 ≤ max_pending)
  unfolding begin
  begin-opened s s' b h = (ground arith, ground arith)

  abbrev request : Pending
  request = record {
    user_code = normalize (user_code raw);
    label = label_of (trim label);
    created = began;
    state = pending;
  }

  decidable-opened :
      (s : Logins) (now : ℕ) (code : Text)
      → normalize code ≡ normalize (user_code raw)
      → now - began ≤ expires_in
      → decidable now code (opened s) ≡ some (device, request)
  unfolding open_request
  decidable-opened s now code c fresh =
      decidable-found now code (opened s) device request (rw (c, get-insert_self dec_text))
        (get-insert_self dec_text device request _) (ground arith) refl

  poll-decided :
      (s : Logins) (now : ℕ) (p : Pending) (token username : Text)
      → Map.get dec_text device s.by_device ≡ some p
      → expired now p ≡ false
      → p.state ≡ approved token username
      → poll now device s ≡ (delivered token username, forget device p s)
  unfolding poll poll_state
  poll-decided s now p token username h e a = rw (h, e, a, poll, poll_state)

  poll-missing :
      (s : Logins) (now : ℕ)
      → Map.get dec_text device s.by_device ≡ none
      → poll now device s ≡ (gone, s)
  unfolding poll
  poll-missing s now h = rw (h, poll)

  -- An approved request is read once.
  poll-once :
      (s : Logins) (now later : ℕ) (p : Pending) (token username : Text)
      → Map.get dec_text device s.by_device ≡ some p
      → expired now p ≡ false
      → p.state ≡ approved token username
      → ((poll now device s).0 ≡ delivered token username)
        × (poll later device (poll now device s).1 ≡ (gone, (poll now device s).1))
  poll-once s now later p token username h e a =
      rw (poll-decided s now p token username h e a)
        (refl, poll-missing (forget device p s) later (get-remove_self dec_text device s.by_device))

  -- A request that was opened, approved and polled within ten minutes of its begin, by a code that
  -- normalises to the code that was shown, delivers the minted token and the approver's name, once:
  -- from then on the device code is gone.
  pub poll-approve-begin :
      {E W : Type 0} (s s' : Logins) (b : Begun) (code username token : Text)
      (mint : W → Outcome E Text × W) (w w' : W) (decided polled later : ℕ)
      → begin base began (some device) (some raw) label s ≡ (ok b, s')
      → normalize code ≡ normalize (user_code raw)
      → decided - began ≤ expires_in
      → polled - began ≤ expires_in
      → mint w ≡ (ok token, w')
      → let r = approve decided code username mint s' w in
        let q = poll polled device r.1 in
        (r.0 ≡ approves)
        × (r.2 ≡ w')
        × (q.0 ≡ delivered token username)
        × (poll later device q.1 ≡ (gone, q.1))
  unfolding approve approve_minted
  poll-approve-begin s s' b code username token mint w w' decided polled later h c d p m =
      let found =
        subst (λ t. decidable decided code t ≡ some (device, request))
          (sym (begin-opened s s' b h).0) (decidable-opened s decided code c d) in
      let q =
        poll-once (bump (decide device request (approved token username) s')) polled later
          (record request { state = approved token username }) token username
          (get-insert_self dec_text device _ _) (ground arith) refl in
      rw (found, m, approve, approve_minted) (refl, refl, q.0, q.1)
