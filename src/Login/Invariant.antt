-- ===== src/Login/Invariant.antt =====
-- What every history of calls of src/login.rs keeps.
use saros.Base.{
  ℕ, ◌+◌, ◌≤◌, ◌≡◌, subst, inl, inr, Bool, true, false, Option, some, List, [], ◌∷◌, Text, dec_text,
  Outcome, ok, err, arith, Option-cases, Bool-cases, if_some, ap, ◌∙◌, leb, length, not,
}
use saros.Base.Map
use saros.Base.Map.{
  Map, Distinct, Distinct-insert, Distinct-remove, Distinct-retain, get-retain, get-insert,
  get-remove, length-insert-le, length-remove-le, retain,
}
use saros.Login.Codes.{user_code, normalize}
use saros.Login.{
  Logins, Pending, expired, begin, max_pending, open_request, sweep_expired, decidable, approve,
  approve_minted, poll, poll_state, deny, forget, State, pending, approved, denied, decide, bump,
  is_pending_state, new,
}

pub data Call : Type 0 where
  beginning : Text → ℕ → Option Text → Option (List ℕ) → Text → Call
  polling : ℕ → Text → Call
  approving : ℕ → Text → Text → Outcome Text Text → Call
  denying : ℕ → Text → Call

-- The closure of approve, as far as a history shows it: it answers, and keeps no state.
abbrev pub answer : Outcome Text Text → Unit {0} → Outcome Text Text × Unit {0}
answer o w = (o, w)

unfoldable pub step : Logins → Call → Logins
step s (beginning base now device raw label) = (begin base now device raw label s).1
step s (polling now device) = (poll now device s).1
step s (approving now code username o) = (approve now code username (answer o) s tt).1
step s (denying now code) = (deny now code s).1

unfoldable pub run : Logins → List Call → Logins
run s [] = s
run s (c ∷ cs) = run (step s c) cs

abbrev pub at : Text → Logins → Option Pending
at d s = Map.get dec_text d s.by_device

pub record IsValid (s : Logins) : Type 0 where
  pub distinct : Distinct dec_text s.by_device
  pub bounded : length s.by_device ≤ max_pending

pub length-retain-le : (t : Pending → Bool) (m : Map Text Pending) → length (retain t m) ≤ length m
length-retain-le t [] = omega arith
length-retain-le t (e ∷ m) = ground (arith, length-retain-le t m)

pub length-replace :
    (d : Text) (p q : Pending) (m : Map Text Pending)
    → Map.get dec_text d m ≡ some p
    → length (Map.insert dec_text d q m) ≡ length m
unfolding Map.get Map.insert
length-replace d p q [] h = cc
length-replace d p q (e ∷ m) h = ground (arith, length-replace d p q m)

ltb_room : (n : ℕ) → leb max_pending n ≡ false → n + 1 ≤ max_pending
ltb_room n h = ground arith

pub sweep-IsValid : (now : ℕ) (s : Logins) → IsValid s → IsValid (sweep_expired now s)
unfolding sweep_expired
sweep-IsValid now s v = record {
  distinct = Distinct-retain dec_text (λ p. not (expired now p)) s.by_device v.distinct;
  bounded = omega (arith, v.bounded, length-retain-le (λ p. not (expired now p)) s.by_device);
}

module _ (base : Text) (now : ℕ) (label : Text) (s : Logins) where
  -- Every branch of begin: the swept store, or the swept store with one request more.
  pub begin_cases {ℓ} :
      (P : Logins → Type ℓ) (device : Option Text) (raw : Option (List ℕ))
      → P (sweep_expired now s)
      → ((d code : Text)
          → device ≡ some d
          → leb max_pending (length (sweep_expired now s).by_device) ≡ false
          → P (open_request base now d code label (sweep_expired now s)).1)
      → P (begin base now device raw label s).1
  unfolding begin
  begin_cases P device raw swept opened =
      elim (Bool-cases (leb max_pending (length (sweep_expired now s).by_device))) [
        | inl full ↦ rw (full, begin) swept
        | inr room ↦ elim (Option-cases device) [
          | inl e ↦ rw (room, e, begin) swept
          | inr (d, e) ↦ elim (Option-cases raw) [
            | inl r ↦ rw (room, e, r, begin) swept
            | inr (bytes, r) ↦ rw (room, e, r, begin) (opened d (user_code bytes) e room)
          ]
        ]
      ]

  begin-IsValid :
      (device : Option Text) (raw : Option (List ℕ))
      → IsValid s
      → IsValid (begin base now device raw label s).1
  unfolding open_request
  begin-IsValid device raw v =
      let w = sweep-IsValid now s v in
      begin_cases IsValid device raw w λ d code e room. record {
        distinct = Distinct-insert dec_text d _ _ w.distinct;
        bounded =
            omega (
              arith,
              ltb_room _ room,
              length-insert-le dec_text d _ (sweep_expired now s).by_device,
            );
      }

pub decidable-found :
    (now : ℕ) (code : Text) (s : Logins) (d : Text) (p : Pending)
    → decidable now code s ≡ some (d, p)
    → (at d s ≡ some p)
      × (is_pending_state p.state ≡ true)
      × (expired now p ≡ false)
      × (Map.get dec_text (normalize code) s.by_user ≡ some d)
unfolding decidable
decidable-found now code s d p h =
    elim (Option-cases (Map.get dec_text (normalize code) s.by_user)) [
      | inl n ↦ cc (rw (n, decidable) at h)
      | inr (d', u) ↦ elim (Option-cases (at d' s)) [
        | inl n ↦ cc (rw (u, n, decidable) at h)
        | inr (p', g) ↦
            let (t, e) = if_some _ _ _ (rw (u, g, decidable) at h) in
            let ed : d' ≡ d = λ i. (e i).0 in
            let ep : p' ≡ p = λ i. (e i).1 in
            subst
              (λ c.
                (at c s ≡ some p)
                × (is_pending_state p.state ≡ true)
                × (expired now p ≡ false)
                × (Map.get dec_text (normalize code) s.by_user ≡ some c))
              ed
              (
                g ∙ ap some ep,
                subst (λ q. is_pending_state q.state ≡ true) ep (ground arith),
                subst (λ q. expired now q ≡ false) ep (ground arith),
                u,
              )
      ]
    ]

module _ (s : Logins) where
  -- Every branch of poll: the store as it was, or without the request.
  pub poll_cases {ℓ} :
      (P : Logins → Type ℓ) (now : ℕ) (device : Text)
      → P s
      → ((p : Pending) → P (forget device p s))
      → P (poll now device s).1
  unfolding poll
  poll_cases P now device same dropped = elim (Option-cases (at device s)) [
    | inl n ↦ rw (n, poll) same
    | inr (p, g) ↦ elim (Bool-cases (expired now p)) [
      | inl e ↦ rw (g, e, poll) (dropped p)
      | inr live ↦ rw (g, live, poll) (decided p p.state)
    ]
  ]
    where
      decided : (p : Pending) (st : State) → P (poll_state device p st s).1
      decided p pending = unfold poll_state in same
      decided p denied = unfold poll_state in same
      decided p (approved t u) = unfold poll_state in dropped p

  poll-IsValid : (now : ℕ) (device : Text) → IsValid s → IsValid (poll now device s).1
  poll-IsValid now device v = poll_cases IsValid now device v λ p. record {
    distinct = Distinct-remove dec_text device s.by_device v.distinct;
    bounded = omega (arith, v.bounded, length-remove-le dec_text device s.by_device);
  }

  decide-IsValid :
      (d : Text) (p : Pending) (next : State)
      → Map.get dec_text d s.by_device ≡ some p
      → IsValid s
      → IsValid (bump (decide d p next s))
  decide-IsValid d p next g v = record {
    distinct = Distinct-insert dec_text d _ s.by_device v.distinct;
    bounded = rw (length-replace d p _ s.by_device g) v.bounded;
  }

  approve-IsValid :
      (now : ℕ) (code username : Text) (o : Outcome Text Text)
      → IsValid s
      → IsValid (approve now code username (answer o) s tt).1
  unfolding approve approve_minted
  approve-IsValid now code username (ok token) v = elim (Option-cases (decidable now code s)) [
    | inl n ↦ rw (n, approve) v
    | inr ((d, p), e) ↦
        rw (e, approve, approve_minted)
          (decide-IsValid d p _ (decidable-found now code s d p e).0 v)
  ]
  approve-IsValid now code username (err why) v = elim (Option-cases (decidable now code s)) [
    | inl n ↦ rw (n, approve) v
    | inr ((d, p), e) ↦ rw (e, approve, approve_minted) v
  ]

  deny-IsValid : (now : ℕ) (code : Text) → IsValid s → IsValid (deny now code s).1
  unfolding deny
  deny-IsValid now code v = elim (Option-cases (decidable now code s)) [
    | inl n ↦ rw (n, deny) v
    | inr ((d, p), e) ↦ rw (e, deny) (decide-IsValid d p _ (decidable-found now code s d p e).0 v)
  ]

pub step-IsValid : (s : Logins) (c : Call) → IsValid s → IsValid (step s c)
unfolding step
step-IsValid s (beginning base now device raw label) v = begin-IsValid base now label s device raw v
step-IsValid s (polling now device) v = poll-IsValid s now device v
step-IsValid s (approving now code username o) v = approve-IsValid s now code username o v
step-IsValid s (denying now code) v = deny-IsValid s now code v

pub run-IsValid : (s : Logins) (calls : List Call) → IsValid s → IsValid (run s calls)
unfolding run
run-IsValid s [] v = v
run-IsValid s (c ∷ cs) v = run-IsValid (step s c) cs (step-IsValid s c v)

pub new-IsValid : IsValid new
new-IsValid = record { distinct = tt; bounded = omega arith }

-- The memory that the unauthenticated begin can pin is bounded: after any history of calls there
-- are at most 4096 requests, each under a device code of its own.
pub run-new-IsValid : (calls : List Call) → IsValid (run new calls)
run-new-IsValid calls = run-IsValid new calls new-IsValid
