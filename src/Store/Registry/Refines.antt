-- ===== src/Store/Registry/Refines.antt =====
-- Every operation of src/store/catalog.rs is a change of the two maps, whatever fails on disk.
use saros.Base.{
  ◌≡◌, refl, sym, subst, inl, inr, ◌⊎◌, true, false, Option, none, some, Text, Outcome-cases,
  Option-cases, Bool-cases, ◌&&◌, ◌||◌,
}
use saros.Base.Map
use saros.Base.Map.{Map}
use saros.Store.Names.{Key, dec_key, key_of}
use saros.Store.State.{
  Env, Firmware, Staged, Store, Disk, Faults, VersionDir, firmware_tree, staging_tree, remove_dir,
  create_parent, rename, sync_parent,
}
use saros.Store.Index.{bump, rebuild_blob_paths}
use saros.Store.Sweep.{sweep_incoming}
use saros.Store.Validate.{ParsedBlobs, validate, validate-Accepted}
use saros.Store.VersionDir.{write_version_dir}
use saros.Store.Catalog.{
  go_live, hold, drop_staged, publish_parsed, publish, stage_parsed, over_quota, stage, reject_key,
  reject, approve_dir, approve_key, approve, blocked,
}
use saros.Store.Registry.Changes.{shelves, Change, same, published, held, approved, dropped}

not_live : {A : Type 0} {o : Option A} → (true ≡ false) ⊎ (o ≡ none) → o ≡ none
not_live (inl e) = cc
not_live (inr e) = e

module _ (env : Env) (fails : Faults) where
  open env use {Manifest}

  pub shelves-bump-sweep :
      (s : Store Manifest) → shelves (bump env (sweep_incoming env fails s)) ≡ shelves s
  unfolding sweep_incoming rebuild_blob_paths
  shelves-bump-sweep s = elim (Bool-cases (fails saros.Store.State.Site.read_incoming)) [
    | inl e ↦ rw e
    | inr e ↦ rw e
  ]

  module _ (s : Store Manifest) where
    -- A change that ends in the sweep and the bump.
    swept :
        (t : Store Manifest)
        → Change (shelves s) (shelves t)
        → Change (shelves s) (shelves (bump env (sweep_incoming env fails t)))
    swept t m = subst (Change (shelves s)) (sym (shelves-bump-sweep t)) m

    publish_parsed-Change :
        (fw : Firmware) (key : Key) (blobs : ParsedBlobs)
        → Map.get dec_key key s.index.live ≡ none
        → Change (shelves s) (shelves (publish_parsed env fails s fw (key, blobs)).1)
    unfolding publish_parsed go_live hold rebuild_blob_paths
    publish_parsed-Change fw key blobs n =
        let r =
          write_version_dir env fails s.disk s.index.blob_paths firmware_tree key fw blobs none in
        elim (Outcome-cases r.0) [
          | inl (u, h) ↦ rw (h, publish_parsed) (swept _ (published key fw n refl refl))
          | inr (e, h) ↦ rw (h, publish_parsed) (same refl)
        ]

    -- Store::publish, whatever fails, is such a change.
    pub publish-Change : (fw : Firmware) → Change (shelves s) (shelves (publish env fails s fw).1)
    unfolding publish
    publish-Change fw = elim (Outcome-cases (validate env s fw true)) [
      | inl ((key, blobs), h) ↦
          rw (h, publish)
            (publish_parsed-Change fw key blobs
              (not_live (validate-Accepted env s fw true key blobs h).fresh))
      | inr (e, h) ↦ rw (h, publish) (same refl)
    ]

    stage_parsed-Change :
        (fw : Firmware) (who : Text) (key : Key) (blobs : ParsedBlobs)
        → Map.get dec_key key s.index.live ≡ none
        → Change (shelves s) (shelves (stage_parsed env fails s fw who (key, blobs)).1)
    unfolding stage_parsed go_live hold rebuild_blob_paths
    stage_parsed-Change fw who key blobs n =
        let r =
          write_version_dir env fails s.disk s.index.blob_paths staging_tree key fw blobs
            (some who) in
        elim (Bool-cases (over_quota s.index.staged key who)) [
          | inl full ↦ rw (full, stage_parsed) (same refl)
          | inr room ↦ elim (Outcome-cases r.0) [
            | inl (u, h) ↦ rw (room, h, stage_parsed) (swept _ (held key fw who n room refl refl))
            | inr (e, h) ↦ rw (room, h, stage_parsed) (same refl)
          ]
        ]

    pub stage-Change :
        (fw : Firmware) (who : Text) → Change (shelves s) (shelves (stage env fails s fw who).1)
    unfolding stage
    stage-Change fw who = elim (Outcome-cases (validate env s fw true)) [
      | inl ((key, blobs), h) ↦
          rw (h, stage)
            (stage_parsed-Change fw who key blobs
              (not_live (validate-Accepted env s fw true key blobs h).fresh))
      | inr (e, h) ↦ rw (h, stage) (same refl)
    ]

    reject_key-Change : (key : Key) → Change (shelves s) (shelves (reject_key env fails s key).1)
    unfolding reject_key drop_staged rebuild_blob_paths
    reject_key-Change key = elim (Bool-cases (Map.contains_key dec_key key s.index.staged)) [
      | inr n ↦ rw (n, reject_key) (same refl)
      | inl h ↦
          elim (Bool-cases (Map.contains_key dec_key key s.disk.staging && fails remove_dir)) [
            | inl f ↦ rw (h, f, reject_key) (same refl)
            | inr g ↦ rw (h, g, reject_key) (dropped key refl refl)
          ]
    ]

    pub reject-Change :
        (device version : Text) → Change (shelves s) (shelves (reject env fails s device version).1)
    unfolding reject
    reject-Change device version = elim (Outcome-cases (key_of device version)) [
      | inl (key, h) ↦ rw (h, reject) (reject_key-Change key)
      | inr (e, h) ↦ rw (h, reject) (same refl)
    ]

    approve_dir-Change :
        (key : Key) (e : Staged) (dir : Option (VersionDir Manifest))
        → Map.get dec_key key s.index.live ≡ none
        → Map.get dec_key key s.index.staged ≡ some e
        → Change (shelves s) (shelves (approve_dir env fails s key e.firmware dir).1)
    unfolding approve_dir go_live rebuild_blob_paths
    approve_dir-Change key e none n h = same refl
    approve_dir-Change key e (some dir) n h =
        elim (Bool-cases (
          fails create_parent
          || blocked env (Map.get dec_key key s.disk.firmware)
          || fails rename)) [
            | inl f ↦ rw (f, approve_dir) (same refl)
            | inr g ↦ elim (Bool-cases (fails sync_parent)) [
              | inl f ↦ rw (g, f, approve_dir) (same refl)
              | inr ok_sync ↦ rw (g, ok_sync, approve_dir) (approved key e n h refl refl)
            ]
          ]

    approve_key-Change : (key : Key) → Change (shelves s) (shelves (approve_key env fails s key).1)
    unfolding approve_key
    approve_key-Change key = elim (Option-cases (Map.get dec_key key s.index.live)) [
      | inr (fw, h) ↦ rw (h, approve_key) (reject_key-Change key)
      | inl n ↦ elim (Option-cases (Map.get dec_key key s.index.staged)) [
        | inl m ↦ rw (n, m, approve_key) (same refl)
        | inr (e, h) ↦ rw (n, h, approve_key) (approve_dir-Change key e _ n h)
      ]
    ]

    pub approve-Change :
        (device version : Text)
        → Change (shelves s) (shelves (approve env fails s device version).1)
    unfolding approve
    approve-Change device version = elim (Outcome-cases (key_of device version)) [
      | inl (key, h) ↦ rw (h, approve) (approve_key-Change key)
      | inr (e, h) ↦ rw (h, approve) (same refl)
    ]
