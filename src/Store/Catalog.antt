-- ===== src/Store/Catalog.antt =====
-- src/store/catalog.rs: publish, stage and review.
use saros.Base.{
  ℕ, Bool, true, false, not, ◌&&◌, ◌||◌, if◌then◌else◌, leb, Option, none, some, List, [], ◌∷◌,
  Text, text_eq, is_some, keep, length, Outcome, ok, err,
}
use saros.Base.Map
use saros.Base.Map.{Map, values}
use saros.Store.Names.{
  Key, Sha256Hex, StoreError, io, not_found, already_exists, quota, key_of, dec_key,
}
use saros.Store.State.{
  Env, Bytes, Firmware, firmware_tree, staging_tree, VersionDir, Disk, Staged, Store, Faults,
  create_parent, rename, sync_parent, remove_submitter, remove_dir,
}
use saros.Store.Index.{rebuild_blob_paths, bump}
use saros.Store.Blobs.{get_blob}
use saros.Store.Sweep.{sweep_incoming}
use saros.Mirror.{ObjectStore, Mirror, put_if_absent}
use saros.Store.Validate.{ParsedBlobs, validate}
use saros.Store.VersionDir.{write_version_dir}

abbrev pub max_staged_per_user : ℕ
max_staged_per_user = 32

abbrev pub owned_by : Text → List Staged → List Staged
owned_by who = keep (λ e. text_eq e.submitted_by who)

unfoldable pub owns : Text → Option Staged → Bool
owns who none = false
owns who (some e) = text_eq e.submitted_by who

-- The quota test of stage.
unfoldable pub over_quota : Map Key Staged → Key → Text → Bool
unfolding owns
over_quota staged key who =
    not (owns who (Map.get dec_key key staged))
    && leb max_staged_per_user (length (owned_by who (values staged)))

module _ (env : Env) where
  open env use {Manifest, slots}

  abbrev pub Done : Type 0
  Done = Outcome StoreError Firmware × Store Manifest

  -- The index updates of publish, stage, approve and reject.
  unfoldable pub go_live : Faults → Key → Firmware → Disk Manifest → Store Manifest → Store Manifest
  unfolding rebuild_blob_paths
  go_live fails key fw disk s = record s {
    disk = disk;
    index = rebuild_blob_paths env fails disk (record s.index {
      live = Map.insert dec_key key fw s.index.live;
      staged = Map.remove dec_key key s.index.staged;
    });
  }

  unfoldable pub hold : Faults → Key → Staged → Disk Manifest → Store Manifest → Store Manifest
  unfolding rebuild_blob_paths
  hold fails key entry disk s = record s {
    disk = disk;
    index =
        rebuild_blob_paths env fails disk
          (record s.index { staged = Map.insert dec_key key entry s.index.staged });
  }

  unfoldable pub drop_staged : Faults → Key → Disk Manifest → Store Manifest → Store Manifest
  unfolding rebuild_blob_paths
  drop_staged fails key disk s = record s {
    disk = disk;
    index =
        rebuild_blob_paths env fails disk
          (record s.index { staged = Map.remove dec_key key s.index.staged });
  }

  unfoldable pub publish_parsed : Faults → Store Manifest → Firmware → Key × ParsedBlobs → Done
  publish_parsed fails s fw (key, blobs) =
      let (written, disk) =
        write_version_dir env fails s.disk s.index.blob_paths firmware_tree key fw blobs none in
      elim written [
        | err e ↦ (err e, record s { disk = disk })
        | ok _ ↦ (ok fw, bump env (sweep_incoming env fails (go_live fails key fw disk s)))
      ]

  -- Store::publish, but for the eager mirror
  unfoldable pub publish : Faults → Store Manifest → Firmware → Done
  publish fails s fw = elim (validate env s fw true) [
    | err e ↦ (err e, s)
    | ok parsed ↦ publish_parsed fails s fw parsed
  ]

  unfoldable pub stage_parsed : Faults → Store Manifest → Firmware → Text → Key × ParsedBlobs → Done
  stage_parsed fails s fw who (key, blobs) =
      if over_quota s.index.staged key who
      then (err quota, s)
      else (let (written, disk) =
            write_version_dir env fails s.disk s.index.blob_paths staging_tree key fw blobs
              (some who) in
          elim written [
            | err e ↦ (err e, record s { disk = disk })
            | ok _ ↦ (
              ok fw,
              bump env (
                  sweep_incoming env fails
                    (hold fails key (record { firmware = fw; submitted_by = who }) disk s)),
            )
          ])

  -- Store::stage
  unfoldable pub stage : Faults → Store Manifest → Firmware → Text → Done
  stage fails s fw who = elim (validate env s fw true) [
    | err e ↦ (err e, s)
    | ok parsed ↦ stage_parsed fails s fw who parsed
  ]

  abbrev pub Settled : Type 0
  Settled = Outcome StoreError (Unit {0}) × Store Manifest

  unfoldable pub reject_key : Faults → Store Manifest → Key → Settled
  reject_key fails s key =
      if not (Map.contains_key dec_key key s.index.staged)
      then (err (not_found key), s)
      else if Map.contains_key dec_key key s.disk.staging && fails remove_dir
      then (err io, s)
      else (
        ok tt,
        bump env (
            drop_staged fails key
              (record s.disk { staging = Map.remove dec_key key s.disk.staging }) s),
      )

  -- Store::reject
  unfoldable pub reject : Faults → Store Manifest → Text → Text → Settled
  reject fails s device version = elim (key_of device version) [
    | err e ↦ (err e, s)
    | ok key ↦ reject_key fails s key
  ]

  abbrev is_empty_dir : VersionDir Manifest → Bool
  is_empty_dir dir =
      not (is_some dir.manifest) && not (is_some dir.submitter) && leb (length dir.files) 0

  -- rename(2) of a dir onto another wants the target empty.
  unfoldable pub blocked : Option (VersionDir Manifest) → Bool
  blocked none = false
  blocked (some dir) = not (is_empty_dir dir)

  -- Approval moves the dir, and then drops its `submitted-by`.
  unfoldable pub moved : Faults → Key → VersionDir Manifest → Disk Manifest → Disk Manifest
  moved fails key dir disk =
      let kept = record dir {
        submitter = if fails remove_submitter then dir.submitter else none;
      } in
      record disk {
        staging = Map.remove dec_key key disk.staging;
        firmware = Map.insert dec_key key kept disk.firmware;
      }

  unfoldable pub approve_dir :
      Faults → Store Manifest → Key → Firmware → Option (VersionDir Manifest) → Done
  approve_dir fails s key fw none = (err io, s)
  approve_dir fails s key fw (some dir) =
      if fails create_parent || blocked (Map.get dec_key key s.disk.firmware) || fails rename
      then (err io, s)
      else if fails sync_parent
      then (
        err io,
        record s {
          disk = record s.disk {
            staging = Map.remove dec_key key s.disk.staging;
            firmware = Map.insert dec_key key dir s.disk.firmware;
          };
        },
      )
      else (ok fw, bump env (go_live fails key fw (moved fails key dir s.disk) s))

  unfoldable pub approve_key : Faults → Store Manifest → Key → Done
  approve_key fails s key =
      if Map.contains_key dec_key key s.index.live
      then (err (already_exists key), (reject_key fails s key).1)
      else elim (Map.get dec_key key s.index.staged) [
        | none ↦ (err (not_found key), s)
        | some e ↦ approve_dir fails s key e.firmware (Map.get dec_key key s.disk.staging)
      ]

  -- Store::approve
  unfoldable pub approve : Faults → Store Manifest → Text → Text → Done
  approve fails s device version = elim (key_of device version) [
    | err e ↦ (err e, s)
    | ok key ↦ approve_key fails s key
  ]

  -- The eager mirror at the end of publish: a failure is left to the lazy one.
  module _ (os : ObjectStore) where
    mirror_blob :
        Store Manifest → Sha256Hex → Outcome StoreError (Option Bytes) → Mirror os → Mirror os
    unfolding put_if_absent
    mirror_blob s sha (err e) m = m
    mirror_blob s sha (ok none) m = m
    mirror_blob s sha (ok (some content)) m = (put_if_absent os m sha content).1

    unfoldable pub mirror_blobs : Faults → Store Manifest → ParsedBlobs → Mirror os → Mirror os
    unfolding mirror_blob get_blob
    mirror_blobs fails s [] m = m
    mirror_blobs fails s ((sha, file) ∷ rest) m =
        mirror_blobs fails s rest (mirror_blob s sha (get_blob env fails s sha) m)
