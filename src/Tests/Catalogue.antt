-- ===== src/Tests/Catalogue.antt =====
-- The catalogue on one device: a submission that is approved, published again and rejected.
use saros.Base.{
  ◌≡◌, refl, ◌≤◌, inl, inr, ◌⊎◌, ◌≢◌, ◌++◌, ℕ, length, Option, none, some, List, [], ◌∷◌, Text,
  text, ok, arith, all, has_char, false,
}
use saros.Base.Map
use saros.Base.Map.{values}
use saros.Base.Paths.{components}
use saros.Store.Names.{dec_key, key_of, check_basename, parse_device, parse_version}
use saros.Store.Names.Safety.{components-blob_path, blob_path}
use saros.Store.State.{Firmware, Store, Faults, no_faults}
use saros.Store.Catalog.{owned_by, publish, stage, approve}
use saros.Store.Validate.{validate}
use saros.Store.Registry.{view, IsDisjoint, Move}
use saros.Store.Registry.Quota.{IsWithinQuota}
use saros.Store.Registry.History.{
  Call, publishing, staging, approving, rejecting, step, run, step-Move, live-run, run-IsDisjoint,
  run-IsWithinQuota,
}
use saros.Tests.Samples.{env, lamp, lamp_key, uploaded}

abbrev calls : List (Faults × Call)
calls =
    (no_faults, staging (lamp (text "1.0")) (text "ann"))
    ∷ (no_faults, approving (text "lamp") (text "1.0"))
    ∷ (no_faults, publishing (lamp (text "1.0")))
    ∷ (no_faults, rejecting (text "lamp") (text "1.0"))
    ∷ []

abbrev published : Store Firmware
published = (publish env no_faults uploaded (lamp (text "1.0"))).1

stage_example :
    (stage env no_faults uploaded (lamp (text "1.0")) (text "ann")).0 ≡ ok (lamp (text "1.0"))
unfolding stage Map.get validate saros.Store.Validate.parse_key parse_device saros.Base.dec_text
    saros.Base.strip_prefix parse_version saros.Store.Validate.validate_blobs
    saros.Store.Catalog.stage_parsed saros.Store.Catalog.over_quota
    saros.Store.VersionDir.write_version_dir saros.Store.Disk.read_path
stage_example = refl

live-run_example :
    Map.get dec_key (lamp_key (text "1.0")) (run env published calls).index.live
    ≡ some (lamp (text "1.0"))
unfolding Map.get publish validate saros.Store.Validate.parse_key parse_device saros.Base.dec_text
    saros.Base.strip_prefix parse_version saros.Store.Validate.validate_blobs
    saros.Store.Catalog.publish_parsed saros.Store.VersionDir.write_version_dir
    saros.Store.Disk.read_path saros.Store.Sweep.sweep_incoming saros.Store.Index.rebuild_blob_paths
    saros.Store.Catalog.go_live Map.insert dec_key
live-run_example = live-run env published calls (lamp_key (text "1.0")) (lamp (text "1.0")) refl

step-Move_example :
    Move
      (view uploaded)
      (view (step env uploaded (no_faults, staging (lamp (text "1.0")) (text "ann"))))
step-Move_example = step-Move env uploaded (no_faults, staging (lamp (text "1.0")) (text "ann"))

uploaded-IsDisjoint : IsDisjoint (view uploaded)
unfolding Map.get
uploaded-IsDisjoint k = inl refl

run-IsDisjoint_example : IsDisjoint (view (run env uploaded calls))
run-IsDisjoint_example = run-IsDisjoint env uploaded calls uploaded-IsDisjoint

uploaded-IsWithinQuota : IsWithinQuota uploaded.index.staged
uploaded-IsWithinQuota who = omega arith

run-IsWithinQuota_example : IsWithinQuota (run env uploaded calls).index.staged
run-IsWithinQuota_example = run-IsWithinQuota env uploaded calls uploaded-IsWithinQuota

components-blob_path_example :
    (components
        (blob_path (text "/srv/saros") (text "firmware") (lamp_key (text "1.0")) (text "app.bin"))
      ≡ components (text "/srv/saros")
        ++ text "firmware" ∷ text "lamp" ∷ text "1.0" ∷ text "app.bin" ∷ [])
    × (text "lamp" ≢ text "..")
    × (text "1.0" ≢ text "..")
    × (text "app.bin" ≢ text "..")
unfolding key_of parse_device saros.Base.dec_text saros.Base.strip_prefix parse_version
    check_basename
components-blob_path_example =
    components-blob_path (text "/srv/saros") (text "firmware") (text "lamp") (text "1.0")
      (text "app.bin") (lamp_key (text "1.0")) (text "app.bin") refl refl refl
