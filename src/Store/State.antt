-- ===== src/Store/State.antt =====
-- The state of the store: the tree on disk, the index of src/store/index.rs, and what the store
-- calls that this repository does not implement.
use saros.Base.{ℕ, Bool, false, if◌then◌else◌, Option, List, Text, Outcome, ok, err}
use saros.Base.Map.{Map}
use saros.Store.Names.{Key, Sha256Hex, StoreError, io}

abbrev pub Bytes : Type 0
Bytes = List ℕ

-- The fields of the wire messages `FirmwareBlob` and `Firmware` that the store reads or writes.
pub record FirmwareBlob : Type 0 where
  pub slot : Option ℕ
  pub sha256 : Option Text
  pub filename : Option Text
  pub size_bytes : Option ℕ

pub record Firmware : Type 0 where
  pub device_id : Option Text
  pub version : Option Text
  pub blobs : List FirmwareBlob
  pub downloads : Option ℕ

-- What stands under src's dependencies: serde_json's coding of a manifest, the SHA-256 digest in
-- hex, and the device catalogue (the number of firmware slots of a known device).
pub record Env : Type 1 where
  pub Manifest : Type 0
  pub encode : Firmware → Option Manifest
  pub decode : Manifest → Option Firmware
  pub digest_of : Bytes → Sha256Hex
  pub slots : Text → Option ℕ

pub data Tree : Type 0 where
  firmware_tree staging_tree : Tree

-- A file under `incoming/`, or one in a version dir.
pub data BlobPath : Type 0 where
  incoming_file : Text → BlobPath
  version_file : Tree → Key → Text → BlobPath

pub record VersionDir (Manifest : Type 0) : Type 0 where
  pub manifest : Option Manifest
  pub submitter : Option Text
  pub files : Map Text Bytes

-- `modified` is none where the file system has no modification time.
pub record PoolFile : Type 0 where
  pub content : Bytes
  pub modified : Option ℕ

-- The version dirs go by the names of their two directories.
pub record Disk (Manifest : Type 0) : Type 0 where
  pub firmware : Map Key (VersionDir Manifest)
  pub staging : Map Key (VersionDir Manifest)
  pub incoming : Map Text PoolFile

pub record Staged : Type 0 where
  pub firmware : Firmware
  pub submitted_by : Text

pub record Index : Type 0 where
  pub live : Map Key Firmware
  pub staged : Map Key Staged
  pub blob_paths : Map Sha256Hex BlobPath

-- `generation` is the counter behind `notify`.
pub record Store (Manifest : Type 0) : Type 0 where
  pub disk : Disk Manifest
  pub index : Index
  pub generation : ℕ

-- The calls of the file system that can fail, and which of them do.
pub data Site : Type 0 where
  create_parent create_tmp write_manifest write_submitter sync_tmp remove_old rename : Site
  remove_submitter remove_dir : Site
  sync_parent read_incoming write_blob read_blob blob_metadata : Site
  read_tree : Tree → Site
  copy_blob remove_pool pool_metadata : Text → Site

abbrev pub Faults : Type 0
Faults = Site → Bool

abbrev pub attempt : Faults → Site → Outcome StoreError (Unit {0})
attempt fails site = if fails site then err io else ok tt

abbrev pub no_faults : Faults
no_faults site = false
