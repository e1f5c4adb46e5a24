-- ===== src/Store/Download.antt =====
-- src/store/blobs.rs, Store::download: the way out of the store, through the mirror where there is
-- one.
pub mod Laws
use saros.Base.{if◌then◌else◌, Option, none, some, Outcome, ok, err}
use saros.Store.Names.{Sha256Hex, StoreError}
use saros.Store.State.{Env, Store, Faults}
use saros.Store.Blobs.{DownloadOutcome, bytes, link, get_blob, stat_blob, local_bytes}
use saros.Mirror.{ObjectStore, Mirror, has, put_if_absent, url}

module _ (env : Env) where
  open env use {Manifest, digest_of}

  module _ (os : ObjectStore) where
    abbrev Served : Type 0
    Served = Outcome StoreError (Option DownloadOutcome) × Mirror os

    -- The last part of Store::download: the link, or the local bytes where there is none.
    unfoldable pub serve_link : Faults → Store Manifest → Sha256Hex → Mirror os → Served
    serve_link fails s sha m =
        let (answer, m') = url os m sha in
        elim answer [ some u ↦ (ok (some (link u)), m') | none ↦ (local_bytes env fails s sha, m') ]

    -- The branch of Store::download for a blob that the mirror lacks.
    unfoldable pub mirror_missing : Faults → Store Manifest → Sha256Hex → Mirror os → Served
    mirror_missing fails s sha m = elim (get_blob env fails s sha) [
      | err e ↦ (err e, m)
      | ok found ↦ elim found [
        | none ↦ (ok none, m)
        | some content ↦
            (let (done, m') = put_if_absent os m sha content in
              if done then serve_link fails s sha m' else (ok (some (bytes content)), m'))
      ]
    ]

    unfoldable pub through_mirror : Faults → Store Manifest → Sha256Hex → Mirror os → Served
    through_mirror fails s sha m =
        let (present, m') = has os m sha in
        elim present [
          | none ↦ (local_bytes env fails s sha, m')
          | some b ↦ if b then serve_link fails s sha m' else mirror_missing fails s sha m'
        ]

    abbrev Replied : Type 0
    Replied = Outcome StoreError (Option DownloadOutcome) × Option (Mirror os)

    unfoldable pub kept : Served → Replied
    kept r = (r.0, some r.1)

    -- Store::download
    unfoldable pub download : Faults → Store Manifest → Option (Mirror os) → Sha256Hex → Replied
    download fails s mirror sha = elim (stat_blob env fails s sha) [
      | err e ↦ (err e, mirror)
      | ok size ↦ elim size [
        | none ↦ (ok none, mirror)
        | some _ ↦ elim mirror [
          | none ↦ (local_bytes env fails s sha, none)
          | some m ↦ kept (through_mirror fails s sha m)
        ]
      ]
    ]
