-- ===== src/Tests/SignIn.antt =====
-- A sign-in by device code: opened, approved by a typed code, and read once.
use saros.Base.{
  ◌≡◌, refl, ℕ, ◌+◌, some, List, [], ◌∷◌, ◌⊎◌, Text, text, Outcome, ok, arith, dec_text, ◌≢◌, ◌<◌,
  length,
}
use saros.Base.Map
use saros.Login.{
  Logins, Pending, Begun, new, begin, approve, not_pending, approves, poll, delivered, gone,
  Approve, decidable, max_pending,
}
use saros.Login.Codes.{user_code, normalize}
use saros.Login.Laws.{approve_untouched, poll-approve-begin}
use saros.Login.Invariant.{Call, beginning, approving, run, answer}
use saros.Login.Overlap.{
  Event, testing, opening, polling, idle, run_overlapping, run_overlapping-bounded,
}
use saros.Login.Delivery.{ApprovedIn, delivered-ApprovedIn}

abbrev random : List ℕ
random = 0 ∷ 1 ∷ 2 ∷ 3 ∷ 31 ∷ 32 ∷ 255 ∷ 7 ∷ []

abbrev calls : List Call
calls =
    beginning (text "https://saros.dev") 0 (some (text "d1")) (some random) (text "cli")
    ∷ approving 5 (text "abcd9a9h") (text "ann") (ok (text "tok"))
    ∷ []

delivered-ApprovedIn_example : ApprovedIn (text "tok") (text "ann") calls
unfolding poll Map.get run saros.Login.Invariant.step approve decidable begin
    saros.Login.sweep_expired saros.Login.open_request Map.insert saros.Login.sweep_users dec_text
    normalize user_code saros.Login.approve_minted saros.Login.poll_state
delivered-ApprovedIn_example =
    delivered-ApprovedIn (text "tok") (text "ann") calls 9 (text "d1") refl

-- Two calls of begin whose tests both come before their inserts.
abbrev overlapping : List Event
overlapping =
    testing 0
    ∷ testing 1
    ∷ opening (text "https://saros.dev") 1 (text "d1") (text "ABCD-EFGH") (text "cli")
    ∷ opening (text "https://saros.dev") 2 (text "d2") (text "JKLM-NPQR") (text "cli")
    ∷ polling 3 (text "d1")
    ∷ []

run_overlapping-bounded_example :
    length (run_overlapping 2 idle overlapping).logins.by_device < max_pending + 2
run_overlapping-bounded_example = run_overlapping-bounded 2 overlapping

overlapping_opens : length (run_overlapping 2 idle overlapping).logins.by_device ≡ 2
unfolding run_overlapping saros.Login.Overlap.happen saros.Login.Overlap.begin_test poll Map.get
    saros.Login.sweep_expired saros.Login.open_request Map.insert dec_text saros.Login.poll_state
overlapping_opens = refl

abbrev mint : ℕ → Outcome Text Text × ℕ
mint n = (ok (text "tok"), n + 1)

unknown_code : (approve 5 (text "XXXX") (text "ann") mint new 0).0 ≢ approves
unfolding approve decidable Map.get
unknown_code e = cc

approve_untouched_example :
    ((approve 5 (text "XXXX") (text "ann") mint new 0).1 ≡ new)
    × (((approve 5 (text "XXXX") (text "ann") mint new 0).2 ≡ 0)
        ⊎ ((found : Text × Pending) × (decidable 5 (text "XXXX") new ≡ some found)))
approve_untouched_example = approve_untouched 5 (text "XXXX") (text "ann") mint new 0 unknown_code

poll-approve-begin_example :
    let s' =
      (begin (text "https://saros.dev") 0 (some (text "d1")) (some random) (text "cli") new).1 in
    let r = approve 5 (text "abcd9a9h") (text "ann") mint s' 0 in
    let q = poll 9 (text "d1") r.1 in
    (r.0 ≡ approves)
    × (r.2 ≡ 1)
    × (q.0 ≡ delivered (text "tok") (text "ann"))
    × (poll 20 (text "d1") q.1 ≡ (gone, q.1))
unfolding begin saros.Login.sweep_expired user_code normalize
poll-approve-begin_example =
    poll-approve-begin (text "https://saros.dev") (text "d1") random (text "cli") 0 new
      ((begin (text "https://saros.dev") 0 (some (text "d1")) (some random) (text "cli") new).1) _
      (text "abcd9a9h") (text "ann") (text "tok") mint 0 1 5 9 20 refl refl (omega arith)
      (omega arith) refl
