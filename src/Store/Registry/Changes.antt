-- ===== src/Store/Registry/Changes.antt =====
-- What the operations of src/store/catalog.rs do to the two maps of the index.
use saros.Base.{◌≡◌, false, none, some, Text}
use saros.Base.Map
use saros.Base.Map.{Map}
use saros.Store.Names.{Key, dec_key}
use saros.Store.State.{Firmware, Staged, Store}
use saros.Store.Catalog.{over_quota}

pub record Shelves : Type 0 where
  pub live : Map Key Firmware
  pub staged : Map Key Staged

abbrev pub shelves : {M : Type 0} → Store M → Shelves
shelves s = record { live = s.index.live; staged = s.index.staged }

pub data Change (v w : Shelves) : Type 0 where
  same : w ≡ v → Change v w
  published :
      (key : Key) (fw : Firmware)
      → Map.get dec_key key v.live ≡ none
      → w.live ≡ Map.insert dec_key key fw v.live
      → w.staged ≡ Map.remove dec_key key v.staged
      → Change v w
  held :
      (key : Key) (fw : Firmware) (who : Text)
      → Map.get dec_key key v.live ≡ none
      → over_quota v.staged key who ≡ false
      → w.live ≡ v.live
      → w.staged ≡ Map.insert dec_key key (record { firmware = fw; submitted_by = who }) v.staged
      → Change v w
  approved :
      (key : Key) (e : Staged)
      → Map.get dec_key key v.live ≡ none
      → Map.get dec_key key v.staged ≡ some e
      → w.live ≡ Map.insert dec_key key e.firmware v.live
      → w.staged ≡ Map.remove dec_key key v.staged
      → Change v w
  dropped : (key : Key) → w.live ≡ v.live → w.staged ≡ Map.remove dec_key key v.staged → Change v w
