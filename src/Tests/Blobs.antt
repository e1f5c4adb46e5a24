-- ===== src/Tests/Blobs.antt =====
-- One upload in the pool: read, served through a mirror, and swept.
use saros.Base.{
  ◌≡◌, refl, ◌≤◌, ◌+◌, ℕ, Option, none, some, true, List, [], ◌∷◌, ◌⊎◌, inl, inr, Text, text,
  text_eq, any, contains, length, Outcome, ok, err, arith, dec_text,
}
use saros.Base.Map
use saros.Mirror.{Mirror}
use saros.Store.State.{no_faults}
use saros.Store.Blobs.{put_blob, get_blob, stat_blob}
use saros.Store.Blobs.Laws.{get_blob_sound, get_blob-put_blob}
use saros.Store.Download.{download}
use saros.Store.Download.Laws.{Serves, download-Serves, download-IsClean}
use saros.Store.Sweep.{gc_incoming_before, referenced}
use saros.Store.Sweep.Laws.{gc_incoming_before_spares}
use saros.Tests.Samples.{
  env, digest, image, image_sha, uploaded, empty_store, pool_file, bucket_store, mirror,
}

get_blob_sound_example : digest image ≡ image_sha
unfolding get_blob Map.get dec_text saros.Store.Blobs.verified saros.Store.Disk.read_path
get_blob_sound_example = get_blob_sound env no_faults uploaded image_sha image refl

get_blob-put_blob_example :
    ((put_blob env 10 no_faults 50 image empty_store).0 ≡ ok image_sha)
    × (get_blob env no_faults (put_blob env 10 no_faults 50 image empty_store).1 image_sha
        ≡ ok (some image))
unfolding Map.get
get_blob-put_blob_example =
    get_blob-put_blob env no_faults no_faults 10 50 7 (8 ∷ 9 ∷ []) empty_store refl refl refl refl
      refl

download-Serves_example :
    Serves env bucket_store image
      ((download env bucket_store no_faults uploaded (some mirror) image_sha).0)
unfolding stat_blob Map.get dec_text saros.Store.Disk.read_path get_blob saros.Store.Blobs.verified
download-Serves_example =
    download-Serves env bucket_store no_faults uploaded (some mirror) image_sha 3 image refl refl

-- Every key of the bucket is one under `blobs/`.
abbrev Keyed : List Text → Type 0
Keyed [] = Unit {0}
Keyed (k ∷ ks) = ((sha : Text) × (k ≡ saros.Mirror.object_key sha)) × Keyed ks

download-IsClean_example :
    (m' : Mirror bucket_store) × ((download env bucket_store no_faults uploaded
        (some mirror)
        image_sha).1
      ≡ some m')
    × Keyed m'.bucket
download-IsClean_example =
    download-IsClean env bucket_store Keyed (λ b key k. k) (λ b key k. k)
      (λ b content k. ((digest content, refl), k)) no_faults uploaded mirror image_sha tt

gc_incoming_before_spares_example :
    Map.get dec_text image_sha (gc_incoming_before env no_faults 40 uploaded).1.disk.incoming
    ≡ some (pool_file (some 50))
unfolding gc_incoming_before saros.Store.Sweep.gc_pool saros.Store.Sweep.is_reclaimed contains
    saros.Base.strip_prefix referenced Map.get dec_text
gc_incoming_before_spares_example =
    gc_incoming_before_spares env no_faults 40 0 uploaded
      (gc_incoming_before env no_faults 40 uploaded).1 refl image_sha (pool_file (some 50)) refl
      (inr (inr (50, refl, omega arith)))
