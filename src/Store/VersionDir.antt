-- ===== src/Store/VersionDir.antt =====
-- src/store/catalog.rs: the write of a version dir as one unit.
use saros.Base.{
  Bool, not, ◌&&◌, ◌||◌, if◌then◌else◌, Option, none, some, [], ◌∷◌, Text, text, text_eq, dec_text,
  has_char, is_some, Outcome, ok, err, ◌>>=◌, ◌>>◌,
}
use saros.Base.Map
use saros.Base.Map.{Map, values}
use saros.Store.Names.{Key, Sha256Hex, StoreError, io, decode, missing_blob, dec_key}
use saros.Store.State.{
  Env, Bytes, Firmware, Tree, BlobPath, VersionDir, Disk, Faults, attempt, create_parent,
  create_tmp, copy_blob, write_manifest, write_submitter, sync_tmp, remove_old, rename, sync_parent,
}
use saros.Store.Disk.{dirs, with_dirs, read_path}
use saros.Store.Validate.{ParsedBlobs}

-- The names that std::fs can create a file under: a dot names the dir itself, and no path holds a
-- NUL.
abbrev pub is_creatable : Text → Bool
is_creatable file = not (text_eq file (text ".")) && not (has_char 0 file)

module _ {M : Type 0} where
  copy_from : Faults → Disk M → Option BlobPath → Sha256Hex → Text → Outcome StoreError Bytes
  copy_from fails disk none sha file = err (missing_blob sha file)
  copy_from fails disk (some path) sha file = elim (read_path disk path) [
    | none ↦ err io
    | some content ↦
        if fails (copy_blob file) || not (is_creatable file) then err io else ok content
  ]

  -- The loop of write_version_dir: the files of the new dir.
  unfoldable pub copy_blobs :
      Faults
      → Disk M
      → Map Sha256Hex BlobPath
      → ParsedBlobs
      → Map Text Bytes
      → Outcome StoreError (Map Text Bytes)
  unfolding copy_from
  copy_blobs fails disk paths [] files = ok files
  copy_blobs fails disk paths ((sha, file) ∷ rest) files = do
    content ← copy_from fails disk (Map.get dec_text sha paths) sha file
    copy_blobs fails disk paths rest (Map.insert dec_text file content files)

  -- The end of write_version_dir: from the removal of an old dir on. The rename is the commit.
  unfoldable pub commit_dir :
      Faults → Tree → Key → VersionDir M → Disk M → Outcome StoreError (Unit {0}) × Disk M
  commit_dir fails tree key dir disk =
      if Map.contains_key dec_key key (dirs tree disk) && fails remove_old
      then (err io, disk)
      else (let cleared = Map.remove dec_key key (dirs tree disk) in
          if fails rename then (err io, with_dirs tree cleared disk) else (
            attempt fails sync_parent,
            with_dirs tree (Map.insert dec_key key dir cleared) disk,
          ))

module _ (env : Env) where
  open env use {Manifest, slots}

  encoded : Firmware → Outcome StoreError Manifest
  encoded fw = elim (env.encode fw) [ none ↦ err decode | some m ↦ ok m ]

  -- The build dir of write_version_dir, which an early return removes.
  unfoldable pub build_dir :
      Faults
      → Disk Manifest
      → Map Sha256Hex BlobPath
      → Firmware
      → ParsedBlobs
      → Option Text
      → Outcome StoreError (VersionDir Manifest)
  unfolding encoded copy_blobs
  build_dir fails disk paths fw blobs submitter = do
    attempt fails create_parent
    attempt fails create_tmp
    files ← copy_blobs fails disk paths blobs []
    json ← encoded fw
    attempt fails write_manifest
    (if is_some submitter then attempt fails write_submitter else ok tt)
    attempt fails sync_tmp
    ok (record { manifest = some json; submitter = submitter; files = files })

  -- Store::write_version_dir
  unfoldable pub write_version_dir :
      Faults
      → Disk Manifest
      → Map Sha256Hex BlobPath
      → Tree
      → Key
      → Firmware
      → ParsedBlobs
      → Option Text
      → Outcome StoreError (Unit {0}) × Disk Manifest
  unfolding build_dir commit_dir
  write_version_dir fails disk paths tree key fw blobs submitter =
      elim (build_dir fails disk paths fw blobs submitter) [
        | err e ↦ (err e, disk)
        | ok dir ↦ commit_dir fails tree key dir disk
      ]
