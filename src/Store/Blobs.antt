-- ===== src/Store/Blobs.antt =====
-- src/store/blobs.rs: the pool of uploads, and the reads of a blob.
pub mod Laws
use saros.Base.{
  ℕ, not, ◌&&◌, ◌||◌, if◌then◌else◌, ltb, Option, none, some, [], ◌∷◌, Text, text_eq, dec_text,
  length, Outcome, ok, err,
}
use saros.Base.Map
use saros.Base.Map.{Map, values}
use saros.Store.Names.{
  Sha256Hex, StoreError, io, invalid_argument, content_required, content_too_large,
}
use saros.Store.State.{
  Env, Bytes, incoming_file, Store, Faults, write_blob, read_blob, blob_metadata,
}
use saros.Store.Disk.{read_path}

pub data DownloadOutcome : Type 0 where
  bytes : Bytes → DownloadOutcome
  link : Text → DownloadOutcome

module _ (env : Env) where
  open env use {Manifest, digest_of}

  -- The store with an upload, in the pool and in the index.
  unfoldable pub pooled : ℕ → Sha256Hex → Bytes → Store Manifest → Store Manifest
  pooled now sha content s = record s {
    disk = record s.disk {
      incoming =
          (if Map.contains_key dec_text sha s.disk.incoming
            then s.disk.incoming
            else Map.insert dec_text sha (record { content = content; modified = some now })
                s.disk.incoming);
    };
    index = record s.index {
      blob_paths =
          (if Map.contains_key dec_text sha s.index.blob_paths
            then s.index.blob_paths
            else Map.insert dec_text sha (incoming_file sha) s.index.blob_paths);
    };
  }

  -- Store::put_blob, at the time `now` of the file system
  unfoldable pub put_blob :
      ℕ → Faults → ℕ → Bytes → Store Manifest → Outcome StoreError Sha256Hex × Store Manifest
  put_blob max_blob_bytes fails now [] s = (err (invalid_argument content_required), s)
  put_blob max_blob_bytes fails now (b ∷ bs) s =
      if ltb max_blob_bytes (length (b ∷ bs))
      then (err (invalid_argument content_too_large), s)
      else (let sha = digest_of (b ∷ bs) in
          if not (Map.contains_key dec_text sha s.disk.incoming) && fails write_blob
          then (err io, s)
          else (ok sha, pooled now sha (b ∷ bs) s))

  -- The closure of get_blob: the bytes at a path, checked against the digest.
  unfoldable pub verified : Faults → Sha256Hex → Option Bytes → Outcome StoreError (Option Bytes)
  verified fails sha none = err io
  verified fails sha (some content) =
      if fails read_blob || not (text_eq (digest_of content) sha) then err io else ok (some content)

  -- Store::get_blob
  unfoldable pub get_blob : Faults → Store Manifest → Sha256Hex → Outcome StoreError (Option Bytes)
  get_blob fails s sha = elim (Map.get dec_text sha s.index.blob_paths) [
    | none ↦ ok none
    | some path ↦ verified fails sha (read_path s.disk path)
  ]

  -- Store::stat_blob
  unfoldable pub stat_blob : Faults → Store Manifest → Sha256Hex → Outcome StoreError (Option ℕ)
  stat_blob fails s sha = elim (Map.get dec_text sha s.index.blob_paths) [
    | none ↦ ok none
    | some path ↦
        if fails blob_metadata
        then err io
        else elim (read_path s.disk path) [ none ↦ err io | some c ↦ ok (some (length c)) ]
  ]

  unfoldable pub as_bytes :
      Outcome StoreError (Option Bytes) → Outcome StoreError (Option DownloadOutcome)
  as_bytes (err e) = err e
  as_bytes (ok none) = ok none
  as_bytes (ok (some content)) = ok (some (bytes content))

  -- Store::local_bytes
  unfoldable pub local_bytes :
      Faults → Store Manifest → Sha256Hex → Outcome StoreError (Option DownloadOutcome)
  local_bytes fails s sha = as_bytes (get_blob fails s sha)
