-- ===== src/Services/Review.antt =====
-- Which handlers of src/services/firmware.rs and src/services/blob.rs make firmware live.
use saros.Base.{ℕ, ◌≡◌, Bool, false, Option, Text}
use saros.Store.Names.{Key}
use saros.Base.Map
use saros.Base.Map.{Map}
use saros.Store.State.{Bytes, Firmware, Store, Faults}
use saros.Store.Download
use saros.Services.Depot.{Depot, Stock, Reply}
use saros.Services.Firmware.{publish_firmware, review_staged_firmware}
use saros.Services.BlobCalls.{upload, download}

module _ (D : Depot) where
  abbrev live_of : Stock D → Map Key Firmware
  live_of s = s.store.index.live

  KeepsLive : {A : Type 0} → (Stock D → Reply D A) → Type 0
  KeepsLive f = (s : Stock D) → live_of (f s).1 ≡ live_of s

-- A call of a handler that may change the store.
pub data Deed : Type 0 where
  publishing : Option Firmware → Deed
  reviewing : Text → Text → Bool → Deed
  uploading : ℕ → Bytes → Deed
  downloading : Text → Deed

-- Whether a deed is an approving review of a version.
abbrev pub approves : Deed → Bool
approves (reviewing device version approve) = approve
approves _ = false

module _ (D : Depot) (now : ℕ) (credential : Option Text) where
  unfoldable pub act : Faults → Deed → Stock D → Stock D
  act fails (publishing fw) s = (publish_firmware D fails now credential fw s).1
  act fails (reviewing device version approve) s =
      (review_staged_firmware D fails now credential device version approve s).1
  act fails (uploading instant content) s = (upload D fails instant now credential content s).1
  act fails (downloading typed) s = (download D fails now credential typed s).1
