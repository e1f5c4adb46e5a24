-- ===== src/Store/Registry/History.antt =====
-- Histories of publish, stage, approve and reject on one store, one call after the other, each with
-- the faults that it meets. Store::reload is not among them: it takes the index from the disk.
use saros.Base.{◌≡◌, some, List, [], ◌∷◌, Text}
use saros.Base.Map
use saros.Base.Map.{values}
use saros.Store.Names.{Key, dec_key}
use saros.Store.State.{Env, Firmware, Store, Faults}
use saros.Store.Catalog.{publish, stage, approve, reject}
use saros.Store.Registry.{view, Move, Move-live, Move-IsDisjoint, IsDisjoint, Change-Move}
use saros.Store.Registry.Changes.{shelves, Change}
use saros.Store.Registry.Refines.{publish-Change, stage-Change, approve-Change, reject-Change}
use saros.Store.Registry.Quota.{IsWithinQuota, Change-IsWithinQuota}

pub data Call : Type 0 where
  publishing : Firmware → Call
  staging : Firmware → Text → Call
  approving rejecting : Text → Text → Call

module _ (env : Env) where
  open env use {Manifest}

  unfoldable pub step : Store Manifest → Faults × Call → Store Manifest
  step s (fails, publishing fw) = (publish env fails s fw).1
  step s (fails, staging fw who) = (stage env fails s fw who).1
  step s (fails, approving device version) = (approve env fails s device version).1
  step s (fails, rejecting device version) = (reject env fails s device version).1

  unfoldable pub run : Store Manifest → List (Faults × Call) → Store Manifest
  unfolding step
  run s [] = s
  run s (c ∷ cs) = run (step s c) cs

  step-Change : (s : Store Manifest) (c : Faults × Call) → Change (shelves s) (shelves (step s c))
  unfolding step
  step-Change s (fails, publishing fw) = publish-Change env fails s fw
  step-Change s (fails, staging fw who) = stage-Change env fails s fw who
  step-Change s (fails, approving device version) = approve-Change env fails s device version
  step-Change s (fails, rejecting device version) = reject-Change env fails s device version

  -- Each call of the catalogue, whatever fails on disk, is one move of the abstract registry: it
  -- leaves the registry as it is, or publishes a version that was not live, or holds a manifest for
  -- a version that is not live, or makes live the manifest held for a version that was not live, or
  -- drops the manifest held for a version.
  pub step-Move : (s : Store Manifest) (c : Faults × Call) → Move (view s) (view (step s c))
  step-Move s c = Change-Move (shelves s) (shelves (step s c)) (step-Change s c)

  -- Once live, a version keeps its manifest through every later history of publish, stage, approve
  -- and reject, whatever fails on disk.
  pub live-run :
      (s : Store Manifest) (calls : List (Faults × Call)) (key : Key) (fw : Firmware)
      → Map.get dec_key key s.index.live ≡ some fw
      → Map.get dec_key key (run s calls).index.live ≡ some fw
  unfolding run
  live-run s [] key fw h = h
  live-run s (c ∷ cs) key fw h = live-run (step s c) cs key fw (Move-live (step-Move s c) key fw h)

  -- From an index in which no version is both live and staged, no history of publish, stage, approve
  -- and reject leads to one in which some version is both, whatever fails on disk, where the calls do
  -- not overlap and the index is not reloaded from disk between them.
  pub run-IsDisjoint :
      (s : Store Manifest) (calls : List (Faults × Call))
      → IsDisjoint (view s)
      → IsDisjoint (view (run s calls))
  unfolding run
  run-IsDisjoint s [] d = d
  run-IsDisjoint s (c ∷ cs) d = run-IsDisjoint (step s c) cs (Move-IsDisjoint (step-Move s c) d)

  -- From an index in which nobody has more than 32 versions staged, no history of publish, stage,
  -- approve and reject leads to one in which somebody has, whatever fails on disk, where the calls do
  -- not overlap and the index is not reloaded from disk between them.
  pub run-IsWithinQuota :
      (s : Store Manifest) (calls : List (Faults × Call))
      → IsWithinQuota s.index.staged
      → IsWithinQuota (run s calls).index.staged
  unfolding run
  run-IsWithinQuota s [] q = q
  run-IsWithinQuota s (c ∷ cs) q =
      run-IsWithinQuota (step s c) cs
        (Change-IsWithinQuota (shelves s) (shelves (step s c)) (step-Change s c) q)
