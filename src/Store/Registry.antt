-- ===== src/Store/Registry.antt =====
-- What the catalogue promises: a registry of live versions and of versions that wait for review,
-- seen as two partial functions of the key. Disk, paths and order are forgotten.
pub mod Changes
pub mod Refines
pub mod Quota
pub mod History
use saros.Base.{◌⊎◌, inl, inr, ◌≡◌, refl, sym, ◌∙◌, Option, none, some, ite, arith, Bool}
use saros.Base.Map
use saros.Store.Names.{Key, dec_key}
use saros.Store.Registry.Changes.{Shelves, Change, same, published, held, approved, dropped}
use saros.Store.State.{Firmware, Staged, Store}

pub record View : Type 0 where
  pub live : Key → Option Firmware
  pub staged : Key → Option Staged

abbrev pub view : {M : Type 0} → Store M → View
view s = record {
  live = λ k. Map.get dec_key k s.index.live;
  staged = λ k. Map.get dec_key k s.index.staged;
}

abbrev pub Same : {A : Type 0} → (Key → Option A) → (Key → Option A) → Type 0
Same f g = (k : Key) → g k ≡ f k

abbrev pub Put : {A : Type 0} → Key → A → (Key → Option A) → (Key → Option A) → Type 0
Put key a f g = (k : Key) → g k ≡ ite (dec_key key k) (some a) (f k)

abbrev pub Drop : {A : Type 0} → Key → (Key → Option A) → (Key → Option A) → Type 0
Drop key f g = (k : Key) → g k ≡ ite (dec_key key k) none (f k)

-- The moves of the registry. Nothing replaces or removes a live version.
pub data Move (v w : View) : Type 0 where
  idle : Same v.live w.live → Same v.staged w.staged → Move v w
  publishes :
      (key : Key) (fw : Firmware)
      → v.live key ≡ none
      → Put key fw v.live w.live
      → Drop key v.staged w.staged
      → Move v w
  submits :
      (key : Key) (e : Staged)
      → v.live key ≡ none
      → Same v.live w.live
      → Put key e v.staged w.staged
      → Move v w
  approves :
      (key : Key) (e : Staged)
      → v.live key ≡ none
      → v.staged key ≡ some e
      → Put key e.firmware v.live w.live
      → Drop key v.staged w.staged
      → Move v w
  withdraws : (key : Key) → Same v.live w.live → Drop key v.staged w.staged → Move v w

-- No version is both live and waiting.
abbrev pub IsDisjoint : View → Type 0
IsDisjoint v = (k : Key) → (v.live k ≡ none) ⊎ (v.staged k ≡ none)

pub Move-live :
    {v w : View} → Move v w → (k : Key) (fw : Firmware) → v.live k ≡ some fw → w.live k ≡ some fw
Move-live (idle l g) k fw h = l k ∙ h
Move-live (publishes key x n l g) k fw h = ground (arith, l k)
Move-live (submits key e n l g) k fw h = l k ∙ h
Move-live (approves key e n s l g) k fw h = ground (arith, l k)
Move-live (withdraws key l g) k fw h = l k ∙ h

pub Move-IsDisjoint : {v w : View} → Move v w → IsDisjoint v → IsDisjoint w
Move-IsDisjoint (idle l g) d k = ground (arith, l k, g k, d k)
Move-IsDisjoint (publishes key x n l g) d k = ground (arith, l k, g k, d k)
Move-IsDisjoint (submits key e n l g) d k = ground (arith, l k, g k, d k)
Move-IsDisjoint (approves key e n s l g) d k = ground (arith, l k, g k, d k)
Move-IsDisjoint (withdraws key l g) d k = ground (arith, l k, g k, d k)

pub Change-Move :
    (v w : Shelves)
    → Change v w
    → Move
        (record { live = λ k. Map.get dec_key k v.live; staged = λ k. Map.get dec_key k v.staged })
        (record { live = λ k. Map.get dec_key k w.live; staged = λ k. Map.get dec_key k w.staged })
Change-Move v w (same e) =
    idle (λ k i. Map.get dec_key k (e i).live) (λ k i. Map.get dec_key k (e i).staged)
Change-Move v w (published key fw n l g) =
    publishes key fw n (λ k. rw l (Map.get-insert dec_key key k fw v.live))
      (λ k. rw g (Map.get-remove dec_key key k v.staged))
Change-Move v w (held key fw who n room l g) =
    let e : Staged = record { firmware = fw; submitted_by = who } in
    submits key e n (λ k. rw l) (λ k. rw g (Map.get-insert dec_key key k e v.staged))
Change-Move v w (approved key e n h l g) =
    approves key e n h (λ k. rw l (Map.get-insert dec_key key k e.firmware v.live))
      (λ k. rw g (Map.get-remove dec_key key k v.staged))
Change-Move v w (dropped key l g) =
    withdraws key (λ k. rw l) (λ k. rw g (Map.get-remove dec_key key k v.staged))
