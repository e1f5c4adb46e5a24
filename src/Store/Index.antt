-- ===== src/Store/Index.antt =====
-- src/store/index.rs: the scan that builds the index from disk, and the map from digests to paths.
use saros.Base.{
  ◌%◌, ◌^◌, Bool, true, false, ltb, ◌==◌, not, ◌&&◌, ◌||◌, if◌then◌else◌, Option, none, some, List,
  [], ◌∷◌, Text, text, text_eq, dec_text, starts_with, trim, all, Outcome, ok, err, is_some, ◌+◌,
}
use saros.Base.Map
use saros.Base.Map.{Map, keys}
use saros.Store.Names.{
  Key, Sha256Hex, StoreError, io, decode, key_of, dec_key, parse_sha, check_basename,
}
use saros.Store.State.{
  Env, Firmware, FirmwareBlob, Tree, firmware_tree, staging_tree, BlobPath, incoming_file,
  version_file, VersionDir, PoolFile, Disk, Staged, Index, Store, Faults, read_tree, read_incoming,
}

abbrev pub or_empty : Option Text → Text
or_empty none = []
or_empty (some s) = s

-- `o.as_deref() == Some(s)`
abbrev pub is_text : Option Text → Text → Bool
is_text none s = false
is_text (some t) s = text_eq t s

-- The path of a blob of a manifest, or none where its digest or its file name is not safe.
abbrev index_blob : Tree → Key → FirmwareBlob → Map Sha256Hex BlobPath → Map Sha256Hex BlobPath
index_blob tree key b map = elim (parse_sha (or_empty b.sha256)) [
  | err _ ↦ map
  | ok sha ↦ elim b.filename [
    | none ↦ map
    | some file ↦ elim (check_basename file) [
      | err _ ↦ map
      | ok _ ↦ Map.insert dec_text sha (version_file tree key file) map
    ]
  ]
]

unfoldable pub index_blobs :
    Tree → Key → List FirmwareBlob → Map Sha256Hex BlobPath → Map Sha256Hex BlobPath
index_blobs tree key [] map = map
index_blobs tree key (b ∷ bs) map = index_blobs tree key bs (index_blob tree key b map)

unfoldable pub index_incoming : Map Text PoolFile → Map Sha256Hex BlobPath → Map Sha256Hex BlobPath
index_incoming [] map = map
index_incoming ((name, f) ∷ rest) map = index_incoming rest (elim (parse_sha name) [
  | err _ ↦ map
  | ok sha ↦ Map.insert dec_text sha (incoming_file name) map
])

-- The order of two texts, and of two keys: by the device, and then by the version.
abbrev is_before : Text → Text → Bool
is_before [] [] = false
is_before [] (d ∷ t) = true
is_before (c ∷ s) [] = false
is_before (c ∷ s) (d ∷ t) = let rest = is_before s t in ltb c d || (c == d && rest)

abbrev key_before : Key → Key → Bool
key_before a b =
    is_before a.device b.device || (text_eq a.device b.device && is_before a.version b.version)

place : {V : Type 0} → Key → V → Map Key V → Map Key V
place key v [] = (key, v) ∷ []
place key v ((k, w) ∷ rest) =
    let later = place key v rest in
    if key_before k key then (k, w) ∷ later else (key, v) ∷ (k, w) ∷ rest

-- The entries of a BTreeMap, as an iteration meets them.
unfoldable pub in_key_order : {V : Type 0} → Map Key V → Map Key V
unfolding place
in_key_order [] = []
in_key_order ((key, v) ∷ rest) = place key v (in_key_order rest)

unfoldable pub index_live : Map Key Firmware → Map Sha256Hex BlobPath → Map Sha256Hex BlobPath
index_live [] map = map
index_live ((key, fw) ∷ rest) map = index_live rest (index_blobs firmware_tree key fw.blobs map)

unfoldable pub index_staged : Map Key Staged → Map Sha256Hex BlobPath → Map Sha256Hex BlobPath
index_staged [] map = map
index_staged ((key, s) ∷ rest) map =
    index_staged rest (index_blobs staging_tree key s.firmware.blobs map)

module _ (env : Env) where
  open env use {Manifest, slots}

  -- rebuild_blob_paths: the pool first, so that version dirs win.
  unfoldable pub rebuild_blob_paths : Faults → Disk Manifest → Index → Index
  rebuild_blob_paths fails disk index =
      let pool : Map Sha256Hex BlobPath =
        (if fails read_incoming then [] else index_incoming disk.incoming []) in
      record index {
        blob_paths =
            index_staged (in_key_order index.staged) (index_live (in_key_order index.live) pool);
      }

  abbrev is_indexed : Key → VersionDir Manifest → Option Key
  is_indexed name dir =
      if starts_with (text ".tmp-") name.version || not (is_some dir.manifest)
      then none
      else elim (key_of name.device name.version) [
        | err _ ↦ none
        | ok key ↦ if is_some (slots key.device) then some key else none
      ]

  version_dirs_in : Map Key (VersionDir Manifest) → List (Key × VersionDir Manifest)
  version_dirs_in [] = []
  version_dirs_in ((name, dir) ∷ rest) =
      let found = version_dirs_in rest in
      elim (is_indexed name dir) [ none ↦ found | some key ↦ (key, dir) ∷ found ]

  unfoldable pub version_dirs : Faults → Tree → Disk Manifest → List (Key × VersionDir Manifest)
  unfolding version_dirs_in
  version_dirs fails tree disk = if fails (read_tree tree) then [] else elim tree [
    | firmware_tree ↦ version_dirs_in disk.firmware
    | staging_tree ↦ version_dirs_in disk.staging
  ]

  -- read_manifest: the manifest must name its own dir.
  unfoldable pub read_manifest : Key → VersionDir Manifest → Outcome StoreError Firmware
  read_manifest key dir = elim dir.manifest [
    | none ↦ err io
    | some m ↦ elim (env.decode m) [
      | none ↦ err decode
      | some fw ↦
          if is_text fw.device_id key.device && is_text fw.version key.version
          then ok fw
          else err decode
    ]
  ]

  unfoldable pub scan_live : List (Key × VersionDir Manifest) → Map Key Firmware → Map Key Firmware
  scan_live [] live = live
  scan_live ((key, dir) ∷ rest) live =
      scan_live rest
        (elim (read_manifest key dir) [ err _ ↦ live | ok fw ↦ Map.insert dec_key key fw live ])

  unfoldable pub scan_staged : List (Key × VersionDir Manifest) → Map Key Staged → Map Key Staged
  scan_staged [] staged = staged
  scan_staged ((key, dir) ∷ rest) staged = scan_staged rest (elim (read_manifest key dir) [
    | err _ ↦ staged
    | ok fw ↦
        Map.insert dec_key key
          (record { firmware = fw; submitted_by = trim (or_empty dir.submitter) }) staged
  ])

  unfoldable pub scan : Faults → Disk Manifest → Index
  unfolding scan_live scan_staged version_dirs rebuild_blob_paths
  scan fails disk = rebuild_blob_paths fails disk (record {
    live = scan_live (version_dirs fails firmware_tree disk) [];
    staged = scan_staged (version_dirs fails staging_tree disk) [];
    blob_paths = [];
  })

  -- `a.keys().eq(b.keys())` of two ordered maps
  abbrev pub same_keys : {V : Type 0} → Map Key V → Map Key V → Bool
  same_keys a b =
      all (λ k. Map.contains_key dec_key k b) (keys a)
      && all (λ k. Map.contains_key dec_key k a) (keys b)

  -- `g.wrapping_add(1)` on a u64
  abbrev pub bump : Store Manifest → Store Manifest
  bump s = record s { generation = (s.generation + 1) % 2 ^ 64 }

  -- Store::reload
  unfoldable pub reload : Faults → Store Manifest → Store Manifest × Bool
  unfolding scan
  reload fails s =
      let fresh = scan fails s.disk in
      let changed =
        not (same_keys s.index.live fresh.live) || not (same_keys s.index.staged fresh.staged) in
      let swapped : Store Manifest = record s { index = fresh } in
      (if changed then bump swapped else swapped, changed)
