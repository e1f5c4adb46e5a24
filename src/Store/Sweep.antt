-- ===== src/Store/Sweep.antt =====
-- src/store/blobs.rs: the two sweeps of the pool of uploads.
pub mod Laws
use saros.Base.{
  ℕ, ◌+◌, Bool, true, false, not, ◌&&◌, if◌then◌else◌, leb, ltb, Option, none, some, List, [], ◌∷◌,
  ◌++◌, Text, text, text_eq, dec_text, contains, any, Outcome, ok, err,
}
use saros.Base.Map
use saros.Base.Map.{Map, values}
use saros.Store.Names.{Sha256Hex, StoreError, io, parse_sha}
use saros.Store.State.{
  Env, Firmware, FirmwareBlob, BlobPath, incoming_file, version_file, PoolFile, Staged, Index,
  Store, Faults, read_incoming, remove_pool, pool_metadata,
}
use saros.Store.Index.{rebuild_blob_paths}

-- `!p.starts_with(&incoming)`
abbrev pub is_owned_path : Option BlobPath → Bool
is_owned_path none = false
is_owned_path (some (incoming_file name)) = false
is_owned_path (some (version_file tree key file)) = true

-- The pool after the loop of sweep_incoming.
unfoldable pub sweep_pool : Faults → Map Sha256Hex BlobPath → Map Text PoolFile → Map Text PoolFile
sweep_pool fails paths [] = []
sweep_pool fails paths ((name, f) ∷ rest) =
    let swept = sweep_pool fails paths rest in
    elim (parse_sha name) [
      | err _ ↦ (name, f) ∷ swept
      | ok sha ↦
          if is_owned_path (Map.get dec_text sha paths) && not (fails (remove_pool name))
          then swept
          else (name, f) ∷ swept
    ]

abbrev pub blob_shas : List FirmwareBlob → List Text
blob_shas [] = []
blob_shas (b ∷ bs) = elim b.sha256 [ none ↦ blob_shas bs | some sha ↦ sha ∷ blob_shas bs ]

abbrev pub shas_of : List Firmware → List Text
shas_of [] = []
shas_of (fw ∷ rest) = blob_shas fw.blobs ++ shas_of rest

abbrev pub staged_manifests : List Staged → List Firmware
staged_manifests [] = []
staged_manifests (s ∷ rest) = s.firmware ∷ staged_manifests rest

-- The digests that a live or staged manifest names.
unfoldable pub referenced : Index → List Text
referenced index = shas_of (values index.live) ++ shas_of (staged_manifests (values index.staged))

-- What one round of gc_incoming_before removes.
unfoldable pub is_reclaimed : Faults → List Text → ℕ → Text → PoolFile → Bool
is_reclaimed fails refs cutoff name f =
    not (contains (text ".tmp-") name)
    && not (any (text_eq name) refs)
    && not (fails (pool_metadata name))
    && elim f.modified [ none ↦ false | some mtime ↦ not (leb cutoff mtime) ]
    && not (fails (remove_pool name))

unfoldable pub gc_pool : Faults → List Text → ℕ → Map Text PoolFile → Map Text PoolFile × ℕ
gc_pool fails refs cutoff [] = ([], 0)
gc_pool fails refs cutoff ((name, f) ∷ rest) =
    let (kept, deleted) = gc_pool fails refs cutoff rest in
    if is_reclaimed fails refs cutoff name f
    then (kept, deleted + 1)
    else ((name, f) ∷ kept, deleted)

module _ (env : Env) where
  open env use {Manifest}

  -- Store::sweep_incoming
  unfoldable pub sweep_incoming : Faults → Store Manifest → Store Manifest
  sweep_incoming fails s =
      if fails read_incoming
      then s
      else (let disk = record s.disk {
        incoming = sweep_pool fails s.index.blob_paths s.disk.incoming;
      } in
          record s { disk = disk; index = rebuild_blob_paths env fails disk s.index })

  -- Store::gc_incoming_before
  unfoldable pub gc_incoming_before :
      Faults → ℕ → Store Manifest → Outcome StoreError ℕ × Store Manifest
  gc_incoming_before fails cutoff s =
      if fails read_incoming
      then (err io, s)
      else (let (kept, deleted) = gc_pool fails (referenced s.index) cutoff s.disk.incoming in
          let disk = record s.disk { incoming = kept } in
          (
            ok deleted,
            record s {
              disk = disk;
              index =
                  (if ltb 0 deleted then rebuild_blob_paths env fails disk s.index else s.index);
            },
          ))
