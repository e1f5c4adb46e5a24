-- ===== src/Login/Delivery.antt =====
-- Where a token that src/login.rs delivers comes from.
use saros.Base.{
  ℕ, ◌≡◌, sym, ap, ◌∙◌, inl, inr, ◌⊎◌, Bool, Option, none, some, List, [], ◌∷◌, Text, dec_text,
  Outcome, ok, err, arith, Option-cases, Bool-cases,
}
use saros.Base.Map
use saros.Base.Map.{Map, get-retain, get-insert_cases, get-remove-some, passing}
use saros.Login.{
  Logins, Pending, delivered, gone, expired, begin, open_request, sweep_expired, decidable, approve,
  approve_minted, poll, poll_state, deny, State, pending, approved, denied, decide, bump, new,
}
use saros.Login.Invariant.{
  Call, beginning, polling, approving, denying, step, run, answer, at, IsValid, step-IsValid,
  new-IsValid, begin_cases, poll_cases,
}

-- The call that approves a request, for a user and with a token.
abbrev pub IsApproval : Text → Text → Call → Type 0
IsApproval token username (beginning base now device raw label) = ⊥
IsApproval token username (polling now device) = ⊥
IsApproval token username (approving now code who o) = (who ≡ username) × (o ≡ ok token)
IsApproval token username (denying now code) = ⊥

abbrev pub ApprovedIn : Text → Text → List Call → Type 0
ApprovedIn token username [] = ⊥
ApprovedIn token username (c ∷ cs) = IsApproval token username c ⊎ ApprovedIn token username cs

passing-some :
    (t : Pending → Bool) (o : Option Pending) (p : Pending) → passing t o ≡ some p → o ≡ some p
passing-some t none p h = h
passing-some t (some q) p h = ground arith

module _ (token username : Text) where
  -- The request under a device code is approved with the token for the user.
  abbrev Holds : Text → Logins → Type 0
  Holds d s = (p : Pending) × (at d s ≡ some p) × (p.state ≡ approved token username)

  sweep-Holds :
      (d : Text) (now : ℕ) (s : Logins) → IsValid s → Holds d (sweep_expired now s) → Holds d s
  unfolding sweep_expired
  sweep-Holds d now s v (p, g, a) =
      (p, passing-some _ (at d s) p (sym (get-retain dec_text _ d s.by_device v.distinct) ∙ g), a)

  open-Holds :
      (d : Text) (base : Text) (now : ℕ) (device code label : Text) (s : Logins)
      → Holds d (open_request base now device code label s).1
      → Holds d s
  unfolding open_request
  open-Holds d base now device code label s (p, g, a) =
      elim (get-insert_cases dec_text device d _ p s.by_device g) [
        | inr old ↦ (p, old, a)
        | inl (e, new_request) ↦
            absurd (pending_apart (ap (λ (q : Pending). q.state) new_request ∙ a))
      ]
    where
      pending_apart : pending ≡ approved token username → ⊥
      pending_apart e = cc

  begin-Holds :
      (d base : Text) (now : ℕ) (device : Option Text) (raw : Option (List ℕ)) (label : Text)
      (s : Logins)
      → IsValid s
      → Holds d (begin base now device raw label s).1
      → Holds d s
  begin-Holds d base now device raw label s v =
      begin_cases base now label s (λ t. Holds d t → Holds d s) device raw (sweep-Holds d now s v)
        λ e code _ _ h.
          sweep-Holds d now s v (open-Holds d base now e code label (sweep_expired now s) h)

  poll-Holds :
      (d : Text) (now : ℕ) (device : Text) (s : Logins) → Holds d (poll now device s).1 → Holds d s
  poll-Holds d now device s =
      poll_cases s (λ t. Holds d t → Holds d s) now device (λ h. h)
        λ q (p, g, a). (p, get-remove-some dec_text device d p s.by_device g, a)

  -- Deciding a request makes it hold the state that it is given, and leaves the others.
  decide-Holds :
      (d e : Text) (q : Pending) (next : State) (s : Logins)
      → Holds d (bump (decide e q next s))
      → (next ≡ approved token username) ⊎ Holds d s
  decide-Holds d e q next s (p, g, a) = elim (get-insert_cases dec_text e d _ p s.by_device g) [
    | inr old ↦ inr (p, old, a)
    | inl (_, made) ↦ inl (ap (λ (r : Pending). r.state) made ∙ a)
  ]

  approve-Holds :
      (d : Text) (now : ℕ) (code who : Text) (o : Outcome Text Text) (s : Logins)
      → Holds d (approve now code who (answer o) s tt).1
      → ((who ≡ username) × (o ≡ ok token)) ⊎ Holds d s
  unfolding approve approve_minted
  approve-Holds d now code who (err why) s h = elim (Option-cases (decidable now code s)) [
    | inl n ↦ inr (rw (n, approve) at h)
    | inr ((e, q), f) ↦ inr (rw (f, approve, approve_minted) at h)
  ]
  approve-Holds d now code who (ok t) s h = elim (Option-cases (decidable now code s)) [
    | inl n ↦ inr (rw (n, approve) at h)
    | inr ((e, q), f) ↦
        elim (decide-Holds d e q (approved t who) s (rw (f, approve, approve_minted) at h)) [
          | inr old ↦ inr old
          | inl made ↦ inl (cc, cc)
        ]
  ]

  deny-Holds :
      (d : Text) (now : ℕ) (code : Text) (s : Logins) → Holds d (deny now code s).1 → Holds d s
  unfolding deny
  deny-Holds d now code s h = elim (Option-cases (decidable now code s)) [
    | inl n ↦ rw (n, deny) at h
    | inr ((e, q), f) ↦ elim (decide-Holds d e q denied s (rw (f, deny) at h)) [
      | inr old ↦ old
      | inl made ↦ absurd (apart made)
    ]
  ]
    where
      apart : denied ≡ approved token username → ⊥
      apart e = cc

  step-Holds :
      (d : Text) (s : Logins) (c : Call)
      → IsValid s
      → Holds d (step s c)
      → IsApproval token username c ⊎ Holds d s
  unfolding step
  step-Holds d s (beginning base now device raw label) v h =
      inr (begin-Holds d base now device raw label s v h)
  step-Holds d s (polling now device) v h = inr (poll-Holds d now device s h)
  step-Holds d s (approving now code who o) v h = approve-Holds d now code who o s h
  step-Holds d s (denying now code) v h = inr (deny-Holds d now code s h)

  run-Holds :
      (d : Text) (s : Logins) (cs : List Call)
      → IsValid s
      → Holds d (run s cs)
      → ApprovedIn token username cs ⊎ Holds d s
  unfolding run
  run-Holds d s [] v h = inr h
  run-Holds d s (c ∷ cs) v h = elim (run-Holds d (step s c) cs (step-IsValid s c v) h) [
    | inl later ↦ inl (inr later)
    | inr now ↦ elim (step-Holds d s c v now) [
      | inl this ↦ inl (inl this)
      | inr before ↦ inr before
    ]
  ]

  poll_state-delivered :
      (d : Text) (p : Pending) (st : State) (s : Logins)
      → (poll_state d p st s).0 ≡ delivered token username
      → st ≡ approved token username
  unfolding poll_state
  poll_state-delivered d p pending s h = cc
  poll_state-delivered d p denied s h = cc
  poll_state-delivered d p (approved t u) s h = cc

  poll-delivered :
      (d : Text) (now : ℕ) (s : Logins) → (poll now d s).0 ≡ delivered token username → Holds d s
  unfolding poll
  poll-delivered d now s h = elim (Option-cases (at d s)) [
    | inl n ↦ absurd (gone_apart (rw (n, poll) at h))
    | inr (p, g) ↦ elim (Bool-cases (expired now p)) [
      | inl e ↦ absurd (gone_apart (rw (g, e, poll) at h))
      | inr live ↦ (p, g, poll_state-delivered d p p.state s (rw (g, live, poll) at h))
    ]
  ]
    where
      gone_apart : gone ≡ delivered token username → ⊥
      gone_apart e = cc

  -- A poll delivers a token, for a user, only if an earlier call approved with that token and for
  -- that user, whatever the history of calls was and whatever the code generator answered.
  pub delivered-ApprovedIn :
      (calls : List Call) (now : ℕ) (device : Text)
      → (poll now device (run new calls)).0 ≡ delivered token username
      → ApprovedIn token username calls
  unfolding Map.get
  delivered-ApprovedIn calls now device h =
      elim (run-Holds device new calls new-IsValid (poll-delivered device now (run new calls) h)) [
        | inl found ↦ found
        | inr (p, g, a) ↦ absurd (nothing p g)
      ]
    where
      nothing : (p : Pending) → at device new ≡ some p → ⊥
      nothing p e = cc
