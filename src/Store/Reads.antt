-- ===== src/Store/Reads.antt =====
-- The read side of src/store/catalog.rs: list, devices, stats and the staged entries.
use saros.Base.{
  ℕ, ◌+◌, ◌%◌, ◌^◌, Bool, true, Option, none, some, List, [], ◌∷◌, Text, dec_text, is_some, keep,
  length, Outcome, ok, err, map,
}
use saros.Base.Map
use saros.Base.Map.{Map, values, keys}
use saros.Store.Names.{StoreError, db, key_of, dec_key}
use saros.Store.State.{Env, Firmware, FirmwareBlob, Staged, Store}
use saros.Store.Index.{in_key_order, is_text}
use saros.Store.Validate.{or_zero}

-- `total += count` on a u64
abbrev pub add_u64 : ℕ → ℕ → ℕ
add_u64 a b = (a + b) % 2 ^ 64

-- The downloads of a manifest: `count` answers 0 where the database fails.
unfoldable pub total_downloads : (Text → ℕ) → List FirmwareBlob → ℕ → ℕ
total_downloads count [] total = total
total_downloads count (b ∷ bs) total =
    total_downloads count bs (elim b.sha256 [ none ↦ total | some sha ↦ add_u64 total (count sha) ])

abbrev enrich : (Text → ℕ) → Firmware → Firmware
enrich count fw = record fw { downloads = some (total_downloads count fw.blobs 0) }

abbrev pub is_wanted : Option Text → Firmware → Bool
is_wanted none fw = true
is_wanted (some want) fw = is_text fw.device_id want

-- The loop over the live set in devices: a u32 count for each device id.
unfoldable pub count_devices : List Firmware → Map Text ℕ → Map Text ℕ
count_devices [] counts = counts
count_devices (fw ∷ rest) counts = count_devices rest (elim fw.device_id [
  | none ↦ counts
  | some dev ↦ Map.insert dec_text dev ((or_zero (Map.get dec_text dev counts) + 1) % 2 ^ 32) counts
])

-- The set of the device ids of the live set, in stats.
unfoldable pub device_set : List Firmware → Map Text (Unit {0}) → Map Text (Unit {0})
device_set [] ids = ids
device_set (fw ∷ rest) ids =
    device_set rest (elim fw.device_id [ none ↦ ids | some dev ↦ Map.insert dec_text dev tt ids ])

abbrev known : (Text → Option ℕ) → Map Text ℕ → Map Text ℕ
known slots = keep (λ e. is_some (slots e.0))

-- The sizes of the blobs that manifests name, one entry for each digest.
unfoldable pub collect_blobs : List FirmwareBlob → Map Text ℕ → Map Text ℕ
collect_blobs [] sizes = sizes
collect_blobs (b ∷ bs) sizes = collect_blobs bs (elim b.sha256 [
  | none ↦ sizes
  | some sha ↦ Map.insert dec_text sha (or_zero b.size_bytes) sizes
])

unfoldable pub collect : List Firmware → Map Text ℕ → Map Text ℕ
unfolding collect_blobs
collect [] sizes = sizes
collect (fw ∷ rest) sizes = collect rest (collect_blobs fw.blobs sizes)

unfoldable pub sum_u64 : List ℕ → ℕ → ℕ
sum_u64 [] total = total
sum_u64 (n ∷ ns) total = sum_u64 ns (add_u64 total n)

pub record Stats : Type 0 where
  pub users : ℕ
  pub devices : ℕ
  pub firmware : ℕ
  pub staged : ℕ
  pub blobs : ℕ
  pub blob_bytes : ℕ

module _ (env : Env) where
  open env use {Manifest, slots}

  -- Store::list
  unfoldable pub list : (Text → ℕ) → Store Manifest → Option Text → List Firmware
  unfolding total_downloads
  list count s device =
      map (enrich count) (keep (is_wanted device) (values (in_key_order s.index.live)))

  -- Store::devices: the id and the count of each device of the catalogue that has firmware
  unfoldable pub devices : Store Manifest → Map Text ℕ
  unfolding count_devices
  devices s = known slots (count_devices (values s.index.live) [])

  -- Store::staged
  unfoldable pub staged : Store Manifest → List Staged
  staged s = values (in_key_order s.index.staged)

  submitter_of : Option Staged → Option Text
  submitter_of none = none
  submitter_of (some e) = some e.submitted_by

  -- Store::staged_submitter
  unfoldable pub staged_submitter : Store Manifest → Text → Text → Option Text
  unfolding submitter_of key_of
  staged_submitter s device version = elim (key_of device version) [
    | err _ ↦ none
    | ok key ↦ submitter_of (Map.get dec_key key s.index.staged)
  ]

  -- Store::stats; `users` is none where the database fails
  unfoldable pub stats : Option ℕ → Store Manifest → Outcome StoreError Stats
  unfolding device_set collect sum_u64
  stats users s = elim users [
    | none ↦ err db
    | some n ↦
        (let sizes =
            collect (map (λ e. e.firmware) (values s.index.staged))
              (collect (values s.index.live) []) in
          ok (record {
            users = n;
            devices = length (device_set (values s.index.live) []);
            firmware = length s.index.live;
            staged = length s.index.staged;
            blobs = length sizes;
            blob_bytes = sum_u64 (values sizes) 0;
          }))
  ]
