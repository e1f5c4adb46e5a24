-- ===== src/Passkey/Flows.antt =====
-- The pending ceremonies of src/passkey.rs: how many there are, and that each is finished once.
use saros.Base.{
  ℕ, ◌≡◌, ◌≤◌, refl, ap, ◌∙◌, Option, none, List, [], ◌∷◌, length, Text, dec_text, err, arith,
}
use saros.Base.Map
use saros.Base.Map.{Map, retain, length-insert-le, length-remove-le, get-remove_self}
use saros.Account.{Json}
use saros.Db.Table.{Table}
use saros.Db.Users.{UserRow}
use saros.Passkey.{max_pending, unknown_flow, Webauthn, Passkeys}
use saros.Passkey.Ceremonies.{take_pending, begin, finish_taken, finish}
use saros.Passkey.Keys.{set_email, begin_add, add_taken, finish_add, remove}
use saros.Passkey.Beginning.{bounded-begin, bounded-begin_add}
use saros.Passkey.Finishing.{pending-finish, pending-set_email, pending-finish_add, pending-remove}

pub data Call : Type 0 where
  beginning : ℕ → ℕ → Text → Option Text → Text → Call
  finishing : ℕ → Text → Text → Option Text → Call
  setting_email : Text → Option Text → Call
  beginning_add : ℕ → ℕ → Option Text → Text → Call
  finishing_add : ℕ → Text → Text → Text → Text → Call
  removing : Text → Text → Call

module _ {Key : Type 0} (W : Webauthn Key) (json : Json Key) (hex : List ℕ → Text)
    (T : Table UserRow) where
  unfoldable pub step : Passkeys W T → Call → Passkeys W T
  step s (beginning now seed uuid random typed) = (begin W T now seed uuid random typed s).1
  step s (finishing secs flow answer typed) = (finish W json hex T secs flow answer typed s).1
  step s (setting_email who typed) = (set_email W json hex T who typed s).1
  step s (beginning_add now seed random who) = (begin_add W json hex T now seed random who s).1
  step s (finishing_add secs flow answer label caller) =
      (finish_add W json hex T secs flow answer label caller s).1
  step s (removing who id) = (remove W json hex T who id s).1

  unfoldable pub run : Passkeys W T → List Call → Passkeys W T
  run s [] = s
  run s (c ∷ cs) = run (step s c) cs

  step-bounded :
      (s : Passkeys W T) (c : Call)
      → length s.pending ≤ max_pending
      → length (step s c).pending ≤ max_pending
  unfolding step
  step-bounded s (beginning now seed uuid random typed) bound =
      bounded-begin W json hex T now seed uuid random typed s bound
  step-bounded s (finishing secs flow answer typed) bound = omega (
    arith,
    bound,
    ap length (pending-finish W json hex T secs flow answer typed s),
    length-remove-le dec_text flow s.pending,
  )
  step-bounded s (setting_email who typed) bound =
      omega (arith, bound, ap length (pending-set_email W json hex T who typed s))
  step-bounded s (beginning_add now seed random who) bound =
      bounded-begin_add W json hex T now seed random who s bound
  step-bounded s (finishing_add secs flow answer label caller) bound = omega (
    arith,
    bound,
    ap length (pending-finish_add W json hex T secs flow answer label caller s),
    length-remove-le dec_text flow s.pending,
  )
  step-bounded s (removing who id) bound =
      omega (arith, bound, ap length (pending-remove W json hex T who id s))

  -- No history of calls brings more than 4,096 ceremonies to be pending.
  pub run-bounded :
      (s : Passkeys W T) (cs : List Call)
      → length s.pending ≤ max_pending
      → length (run s cs).pending ≤ max_pending
  unfolding run
  run-bounded s [] bound = bound
  run-bounded s (c ∷ cs) bound = run-bounded (step s c) cs (step-bounded s c bound)

  finish_gone :
      (secs : ℕ) (flow answer : Text) (typed : Option Text) (s : Passkeys W T)
      → Map.get dec_text flow s.pending ≡ none
      → ((finish W json hex T secs flow answer typed s).0 ≡ err unknown_flow)
        × ((finish W json hex T secs flow answer typed s).1.users ≡ s.users)
  unfolding finish take_pending finish_taken
  finish_gone secs flow answer typed s gone = (rw (gone, finish) refl, rw (gone, finish) refl)

  finish_add_gone :
      (secs : ℕ) (flow answer label caller : Text) (s : Passkeys W T)
      → Map.get dec_text flow s.pending ≡ none
      → ((finish_add W json hex T secs flow answer label caller s).0 ≡ err unknown_flow)
        × ((finish_add W json hex T secs flow answer label caller s).1.users ≡ s.users)
  unfolding finish_add take_pending add_taken
  finish_add_gone secs flow answer label caller s gone =
      (rw (gone, finish_add) refl, rw (gone, finish_add) refl)

  -- A flow that neither of the two calls knows: they say so, and write no account.
  abbrev pub IsSpent : ℕ → Text → Text → Text → Text → Option Text → Passkeys W T → Type 0
  IsSpent secs flow answer label caller typed s =
      ((finish W json hex T secs flow answer typed s).0 ≡ err unknown_flow)
      × ((finish W json hex T secs flow answer typed s).1.users ≡ s.users)
      × ((finish_add W json hex T secs flow answer label caller s).0 ≡ err unknown_flow)
      × ((finish_add W json hex T secs flow answer label caller s).1.users ≡ s.users)

  spent :
      (secs : ℕ) (flow answer label caller : Text) (typed : Option Text) (s : Passkeys W T)
      → Map.get dec_text flow s.pending ≡ none
      → IsSpent secs flow answer label caller typed s
  spent secs flow answer label caller typed s gone =
      let once = finish_gone secs flow answer typed s gone in
      let added = finish_add_gone secs flow answer label caller s gone in
      (once.0, once.1, added.0, added.1)

  -- A ceremony is finished once: after either call that finishes a flow, whatever came of it, the
  -- flow is unknown to both, which then write no account.
  pub finish_once :
      (secs later : ℕ) (flow answer label caller again name who : Text) (typed email : Option Text)
      (s : Passkeys W T)
      → IsSpent later flow again name who email (finish W json hex T secs flow answer typed s).1
        × IsSpent later flow again name who email
            (finish_add W json hex T secs flow answer label caller s).1
  finish_once secs later flow answer label caller again name who typed email s = (
    spent later flow again name who email (finish W json hex T secs flow answer typed s).1 (
        ap (Map.get dec_text flow) (pending-finish W json hex T secs flow answer typed s)
        ∙ get-remove_self dec_text flow s.pending),
    spent later flow again name who email
        (finish_add W json hex T secs flow answer label caller s).1
        (ap (Map.get dec_text flow)
            (pending-finish_add W json hex T secs flow answer label caller s)
          ∙ get-remove_self dec_text flow s.pending),
  )
