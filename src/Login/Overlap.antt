-- ===== src/Login/Overlap.antt =====
-- Calls of src/login.rs that overlap: Logins::begin tests how many requests there are under one lock,
-- and inserts the new one under another, so that calls of other tasks may come between.
use saros.Base.{
  ℕ, ◌+◌, ◌-◌, ◌≤◌, ◌<◌, ◌≡◌, inl, inr, false, leb, not, length, if◌then◌else◌, List, [], ◌∷◌, Text,
  dec_text, Outcome, ok, err, arith, Option-cases, Bool-cases,
}
use saros.Base.Map.{length-insert-le, length-remove-le}
use saros.Login.{
  Logins, is_full, max_pending, open_request, sweep_expired, expired, decidable, approve,
  approve_minted, poll, deny, new,
}
use saros.Login.Invariant.{answer, length-retain-le, length-replace, decidable-found, poll_cases}

-- What the tasks do to the requests: the two halves of begin, of which the second may not come, and
-- the other calls, each under its lock.
pub data Event : Type 0 where
  testing : ℕ → Event
  opening : Text → ℕ → Text → Text → Text → Event
  giving_up : Event
  polling : ℕ → Text → Event
  approving : ℕ → Text → Text → Outcome Text Text → Event
  denying : ℕ → Text → Event

-- The requests, and how many calls of begin have passed their test and not yet ended.
pub record Busy : Type 0 where
  pub logins : Logins
  pub waiting : ℕ

abbrev pub idle : Busy
idle = record { logins = new; waiting = 0 }

-- The first half of begin.
unfoldable pub begin_test : ℕ → Busy → Busy
begin_test now b =
    let swept = sweep_expired now b.logins in
    if is_full swept
    then record { logins = swept; waiting = b.waiting }
    else record { logins = swept; waiting = b.waiting + 1 }

-- One event, where no more than `tasks` calls of begin are in flight.
unfoldable pub happen : ℕ → Busy → Event → Busy
happen tasks b (testing now) = if leb tasks b.waiting then b else begin_test now b
happen tasks b (opening base now device code label) = if leb b.waiting 0 then b else record {
  logins = (open_request base now device code label b.logins).1;
  waiting = b.waiting - 1;
}
happen tasks b giving_up = record b { waiting = b.waiting - 1 }
happen tasks b (polling now device) = record b { logins = (poll now device b.logins).1 }
happen tasks b (approving now code username o) = record b {
  logins = (approve now code username (answer o) b.logins tt).1;
}
happen tasks b (denying now code) = record b { logins = (deny now code b.logins).1 }

unfoldable pub run_overlapping : ℕ → Busy → List Event → Busy
unfolding happen
run_overlapping tasks b [] = b
run_overlapping tasks b (e ∷ es) = run_overlapping tasks (happen tasks b e) es

abbrev held : Logins → ℕ
held s = length s.by_device

held-sweep_expired : (now : ℕ) (s : Logins) → held (sweep_expired now s) ≤ held s
unfolding sweep_expired
held-sweep_expired now s = length-retain-le (λ p. not (expired now p)) s.by_device

held-poll : (now : ℕ) (device : Text) (s : Logins) → held (poll now device s).1 ≤ held s
held-poll now device s =
    poll_cases s (λ t. held t ≤ held s) now device (omega arith)
      (λ p. length-remove-le dec_text device s.by_device)

held-approve :
    (now : ℕ) (code username : Text) (o : Outcome Text Text) (s : Logins)
    → held (approve now code username (answer o) s tt).1 ≤ held s
unfolding approve approve_minted
held-approve now code username (ok token) s = elim (Option-cases (decidable now code s)) [
  | inl n ↦ rw (n, approve) (omega arith)
  | inr ((d, p), e) ↦
      rw
        (
          e,
          approve,
          approve_minted,
          length-replace d p _ s.by_device (decidable-found now code s d p e).0,
        )
        (omega arith)
]
held-approve now code username (err why) s = elim (Option-cases (decidable now code s)) [
  | inl n ↦ rw (n, approve) (omega arith)
  | inr ((d, p), e) ↦ rw (e, approve, approve_minted) (omega arith)
]

held-deny : (now : ℕ) (code : Text) (s : Logins) → held (deny now code s).1 ≤ held s
unfolding deny
held-deny now code s = elim (Option-cases (decidable now code s)) [
  | inl n ↦ rw (n, deny) (omega arith)
  | inr ((d, p), e) ↦
      rw (e, deny, length-replace d p _ s.by_device (decidable-found now code s d p e).0)
        (omega arith)
]

held-open_request :
    (base : Text) (now : ℕ) (device code label : Text) (s : Logins)
    → held (open_request base now device code label s).1 ≤ held s + 1
unfolding open_request
held-open_request base now device code label s = length-insert-le dec_text device _ s.by_device

one_less :
    (held held' waiting bound : ℕ)
    → leb waiting 0 ≡ false
    → held' ≤ held + 1
    → held + waiting < bound
    → held' + (waiting - 1) < bound
one_less held held' waiting bound e h g = ground (arith, e)

-- Room is kept for every call of begin that is in flight.
record HasRoom (tasks : ℕ) (b : Busy) : Type 0 where
  room : held b.logins + b.waiting < max_pending + tasks
  few : b.waiting ≤ tasks

begin_test-HasRoom :
    (tasks now : ℕ) (b : Busy)
    → HasRoom tasks b
    → leb tasks b.waiting ≡ false
    → HasRoom tasks (begin_test now b)
unfolding begin_test
begin_test-HasRoom tasks now b v free = elim (Bool-cases (is_full (sweep_expired now b.logins))) [
  | inl e ↦
      rw (e, begin_test)
        (record { room = omega (arith, v.room, held-sweep_expired now b.logins); few = v.few })
  | inr e ↦
      rw (e, begin_test) (record { room = ground (arith, e, free); few = ground (arith, free) })
]

happen-HasRoom :
    (tasks : ℕ) (b : Busy) (e : Event) → HasRoom tasks b → HasRoom tasks (happen tasks b e)
unfolding happen
happen-HasRoom tasks b (testing now) v = elim (Bool-cases (leb tasks b.waiting)) [
  | inl e ↦ rw (e, happen) v
  | inr e ↦ rw (e, happen) (begin_test-HasRoom tasks now b v e)
]
happen-HasRoom tasks b (opening base now device code label) v =
    elim (Bool-cases (leb b.waiting 0)) [
      | inl e ↦ rw (e, happen) v
      | inr e ↦
          rw (e, happen)
            (record {
              room =
                  one_less (held b.logins) _ b.waiting (max_pending + tasks) e
                    (held-open_request base now device code label b.logins) v.room;
              few = omega (arith, v.few);
            })
    ]
happen-HasRoom tasks b giving_up v = record {
  room = omega (arith, v.room);
  few = omega (arith, v.few);
}
happen-HasRoom tasks b (polling now device) v = record {
  room = omega (arith, v.room, held-poll now device b.logins);
  few = v.few;
}
happen-HasRoom tasks b (approving now code username o) v = record {
  room = omega (arith, v.room, held-approve now code username o b.logins);
  few = v.few;
}
happen-HasRoom tasks b (denying now code) v = record {
  room = omega (arith, v.room, held-deny now code b.logins);
  few = v.few;
}

run-HasRoom :
    (tasks : ℕ) (b : Busy) (es : List Event)
    → HasRoom tasks b
    → HasRoom tasks (run_overlapping tasks b es)
unfolding run_overlapping
run-HasRoom tasks b [] v = v
run-HasRoom tasks b (e ∷ es) v =
    run-HasRoom tasks (happen tasks b e) es (happen-HasRoom tasks b e v)

-- The memory that the unauthenticated begin can pin is bounded, however the calls of several tasks
-- overlap: the requests held are always fewer than 4096 plus the number of calls of begin that may be
-- in flight at a time, and so at most 4096 where the calls of begin come one by one.
pub run_overlapping-bounded :
    (tasks : ℕ) (es : List Event)
    → length (run_overlapping tasks idle es).logins.by_device < max_pending + tasks
run_overlapping-bounded tasks es =
    omega
      (arith, (run-HasRoom tasks idle es (record { room = omega arith; few = omega arith })).room)
