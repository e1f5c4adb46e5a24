-- ===== src/Passkey/Beginning.antt =====
-- How many ceremonies are pending in src/passkey.rs after one has begun.
use saros.Base.{
  ℕ, ◌+◌, ◌≡◌, ◌≤◌, inl, inr, false, leb, Option, none, some, List, [], length, length-keep-le,
  Text, text_eq, dec_text, trim, arith, Option-cases, Bool-cases, Outcome-cases,
}
use saros.Base.Map.{length-insert-le}
use saros.Account.{StoredUser, Json}
use saros.Db.Table.{Table}
use saros.Db.Users.{UserRow, exists, get}
use saros.Passkey.{
  max_pending, Webauthn, Ceremony, register, authenticate, add_credential, Passkeys,
}
use saros.Passkey.Checks.{valid_username}
use saros.Passkey.Ceremonies.{
  sweep_pending, insert_pending, begin_authenticate, begin_register, begin,
}
use saros.Passkey.Keys.{begin_user, ids_of, begin_add}

module _ {Key : Type 0} (W : Webauthn Key) (json : Json Key) (hex : List ℕ → Text)
    (T : Table UserRow) where
  length-sweep_pending :
      (now : ℕ) (s : Passkeys W T) → length (sweep_pending W T now s).pending ≤ length s.pending
  unfolding sweep_pending
  length-sweep_pending now s = length-keep-le _ s.pending

  length-insert_pending :
      (now : ℕ) (flow : Text) (c : Ceremony W) (s : Passkeys W T)
      → length (insert_pending W T now flow c s).pending ≤ length s.pending + 1
  unfolding insert_pending
  length-insert_pending now flow c s = length-insert-le dec_text flow _ s.pending

  length-begin_authenticate :
      (now seed : ℕ) (flow : Text) (s : Passkeys W T)
      → length (begin_authenticate W T now seed flow s).1.pending ≤ length s.pending + 1
  unfolding begin_authenticate
  length-begin_authenticate now seed flow s = elim (Outcome-cases (W.start_authentication seed)) [
    | inr (x, e) ↦ rw (e, begin_authenticate) (omega arith)
    | inl (r, e) ↦ elim (Outcome-cases (W.to_string r.0)) [
      | inr (x, f) ↦
          rw (e, f, begin_authenticate) (length-insert_pending now flow (authenticate r.1) s)
      | inl (x, f) ↦
          rw (e, f, begin_authenticate) (length-insert_pending now flow (authenticate r.1) s)
    ]
  ]

  length-begin_register :
      (now seed : ℕ) (uuid flow name : Text) (s : Passkeys W T)
      → length (begin_register W T now seed uuid flow name s).1.pending ≤ length s.pending + 1
  unfolding begin_register
  length-begin_register now seed uuid flow name s = elim (Bool-cases (valid_username name)) [
    | inr e ↦ rw (e, begin_register) (omega arith)
    | inl e ↦ elim (Outcome-cases (exists T name s.users)) [
      | inr (x, f) ↦ rw (e, f, begin_register) (omega arith)
      | inl (there, f) ↦ elim (Bool-cases there) [
        | inl g ↦ rw (e, f, g, begin_register) (omega arith)
        | inr g ↦ elim (Outcome-cases (W.start_registration seed uuid name none)) [
          | inr (x, h) ↦ rw (e, f, g, h, begin_register) (omega arith)
          | inl (r, h) ↦ elim (Outcome-cases (W.to_string (W.with_resident_key r.0))) [
            | inr (x, k) ↦
                rw (e, f, g, h, k, begin_register)
                  (length-insert_pending now flow (register uuid name r.1) s)
            | inl (x, k) ↦
                rw (e, f, g, h, k, begin_register)
                  (length-insert_pending now flow (register uuid name r.1) s)
          ]
        ]
      ]
    ]
  ]

  room : (n : ℕ) → leb max_pending n ≡ false → n + 1 ≤ max_pending
  room n h = ground arith

  pub bounded-begin :
      (now seed : ℕ) (uuid : Text) (random : Option Text) (typed : Text) (s : Passkeys W T)
      → length s.pending ≤ max_pending
      → length (begin W T now seed uuid random typed s).1.pending ≤ max_pending
  unfolding begin
  bounded-begin now seed uuid random typed s bound =
      let swept = sweep_pending W T now s in
      let fewer = length-sweep_pending now s in
      elim (Bool-cases (leb max_pending (length swept.pending))) [
        | inl full ↦ rw (full, begin) (omega (arith, fewer, bound))
        | inr free ↦ elim (Option-cases random) [
          | inl e ↦ rw (free, e, begin) (omega (arith, fewer, bound))
          | inr (flow, e) ↦ elim (Bool-cases (text_eq (trim typed) [])) [
            | inl f ↦
                rw (free, e, f, begin)
                  (omega (
                    arith,
                    length-begin_authenticate now seed flow swept,
                    room (length swept.pending) free,
                  ))
            | inr f ↦
                rw (free, e, f, begin)
                  (omega (
                    arith,
                    length-begin_register now seed uuid flow (trim typed) swept,
                    room (length swept.pending) free,
                  ))
          ]
        ]
      ]

  length-begin_user :
      (now seed : ℕ) (random : Option Text) (user : StoredUser Key) (s : Passkeys W T)
      → length (begin_user W json hex T now seed random user s).1.pending ≤ length s.pending + 1
  unfolding begin_user
  length-begin_user now seed random user s =
      elim (Outcome-cases
        (W.start_registration seed user.uuid user.username (some (ids_of W json hex T user)))) [
          | inr (x, e) ↦ rw (e, begin_user) (omega arith)
          | inl (r, e) ↦ elim (Option-cases random) [
            | inl f ↦ rw (e, f, begin_user) (omega arith)
            | inr (flow, f) ↦ elim (Outcome-cases (W.to_string (W.with_resident_key r.0))) [
              | inr (x, g) ↦
                  rw (e, f, g, begin_user)
                    (length-insert_pending now flow (add_credential user.username r.1) s)
              | inl (x, g) ↦
                  rw (e, f, g, begin_user)
                    (length-insert_pending now flow (add_credential user.username r.1) s)
            ]
          ]
        ]

  pub bounded-begin_add :
      (now seed : ℕ) (random : Option Text) (who : Text) (s : Passkeys W T)
      → length s.pending ≤ max_pending
      → length (begin_add W json hex T now seed random who s).1.pending ≤ max_pending
  unfolding begin_add
  bounded-begin_add now seed random who s bound =
      let swept = sweep_pending W T now s in
      let fewer = length-sweep_pending now s in
      elim (Bool-cases (leb max_pending (length swept.pending))) [
        | inl full ↦ rw (full, begin_add) (omega (arith, fewer, bound))
        | inr free ↦ elim (Outcome-cases (get json T who swept.users)) [
          | inr (x, e) ↦ rw (free, e, begin_add) (omega (arith, fewer, bound))
          | inl (found, e) ↦ elim (Option-cases found) [
            | inl f ↦ rw (free, e, f, begin_add) (omega (arith, fewer, bound))
            | inr (user, f) ↦
                rw (free, e, f, begin_add)
                  (omega (
                    arith,
                    length-begin_user now seed random user swept,
                    room (length swept.pending) free,
                  ))
          ]
        ]
      ]
