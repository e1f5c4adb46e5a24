-- ===== src/Store/Registry/Quota.antt =====
-- The quota of src/store/catalog.rs: 32 versions that wait for review for each submitter.
use saros.Base.{
  ◌≡◌, inl, inr, ◌⊎◌, ◌+◌, ◌≤◌, length, Bool, true, false, some, Text, text_eq, text_eq_iff, arith,
  Bool-cases, Option-cases,
}
use saros.Base.Map
use saros.Base.Map.{
  Map, values, tally-remove-le, tally-insert-le, tally-insert_other, tally-insert_replace,
}
use saros.Store.Names.{Key, dec_key}
use saros.Store.State.{Firmware, Staged}
use saros.Store.Catalog.{over_quota, owns, owned_by, max_staged_per_user}
use saros.Store.Registry.Changes.{Shelves, Change, same, published, held, approved, dropped}

abbrev pub IsWithinQuota : Map Key Staged → Type 0
IsWithinQuota staged = (who : Text) → length (owned_by who (values staged)) ≤ max_staged_per_user

abbrev is_owner : Text → Staged → Bool
is_owner who e = text_eq e.submitted_by who

-- The test of stage: its submitter has room, or replaces an entry of their own.
over_quota_cases :
    (staged : Map Key Staged) (key : Key) (who : Text)
    → over_quota staged key who ≡ false
    → (length (owned_by who (values staged)) + 1 ≤ max_staged_per_user)
      ⊎ ((e : Staged) × (Map.get dec_key key staged ≡ some e) × (is_owner who e ≡ true))
unfolding over_quota owns
over_quota_cases staged key who h = elim (Option-cases (Map.get dec_key key staged)) [
  | inl n ↦ inl (ground arith)
  | inr (e, p) ↦ elim (Bool-cases (is_owner who e)) [
    | inl own ↦ inr (e, p, own)
    | inr other ↦ inl (ground arith)
  ]
]

-- A new entry of somebody who is not over the quota keeps everybody within it.
hold-IsWithinQuota :
    (staged : Map Key Staged) (key : Key) (fw : Firmware) (submitter who : Text)
    → over_quota staged key submitter ≡ false
    → IsWithinQuota staged
    → length (
        owned_by who (
          values
            (Map.insert dec_key key (record { firmware = fw; submitted_by = submitter }) staged)))
      ≤ max_staged_per_user
hold-IsWithinQuota staged key fw submitter who h q =
    let entry : Staged = record { firmware = fw; submitted_by = submitter } in
    elim (Bool-cases (is_owner who entry)) [
      | inr other ↦
          omega (arith, q who, tally-insert_other dec_key (is_owner who) key entry staged other)
      | inl own ↦
          let same_name : submitter ≡ who = text_eq_iff submitter who own in
          elim (over_quota_cases staged key who (rw same_name at h)) [
            | inl room ↦ omega (arith, tally-insert-le dec_key (is_owner who) key entry staged)
            | inr (e, there, mine) ↦ omega (
              arith,
              q who,
              tally-insert_replace dec_key (is_owner who) key entry e staged there mine,
            )
          ]
    ]

pub Change-IsWithinQuota :
    (v w : Shelves) → Change v w → IsWithinQuota v.staged → IsWithinQuota w.staged
Change-IsWithinQuota v w (same e) q who = rw e (q who)
Change-IsWithinQuota v w (published key fw n l g) q who =
    rw g (omega (arith, q who, tally-remove-le dec_key (is_owner who) key v.staged))
Change-IsWithinQuota v w (held key fw submitter n room l g) q who =
    rw g (hold-IsWithinQuota v.staged key fw submitter who room q)
Change-IsWithinQuota v w (approved key e n h l g) q who =
    rw g (omega (arith, q who, tally-remove-le dec_key (is_owner who) key v.staged))
Change-IsWithinQuota v w (dropped key l g) q who =
    rw g (omega (arith, q who, tally-remove-le dec_key (is_owner who) key v.staged))
