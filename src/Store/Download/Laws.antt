-- ===== src/Store/Download/Laws.antt =====
-- Store::download of src/store/blobs.rs, for any object store: the mirror can neither withhold a
-- blob nor be fed bytes that are not its own.
use saros.Base.{
  ◌≡◌, refl, ap, subst, ◌∙◌, inl, inr, ◌⊎◌, ℕ, Option, none, some, Text, Outcome, ok, Option-cases,
  Bool-cases, Outcome-cases,
}
use saros.Store.Names.{Sha256Hex, StoreError}
use saros.Store.State.{Env, Bytes, Store, Faults}
use saros.Store.Blobs.{DownloadOutcome, bytes, link, get_blob, stat_blob, local_bytes, as_bytes}
use saros.Store.Blobs.Laws.{get_blob_sound}
use saros.Store.Download.{serve_link, mirror_missing, through_mirror, kept, download}
use saros.Mirror.{ObjectStore, Mirror, object_key, has, put_if_absent, url}

module _ (env : Env) (os : ObjectStore) where
  open env use {Manifest, digest_of}
  open os use {Bucket}

  -- An answer that serves a blob: its bytes, or a link.
  abbrev pub Serves : Bytes → Outcome StoreError (Option DownloadOutcome) → Type 0
  Serves content answer =
      (answer ≡ ok (some (bytes content))) ⊎ ((u : Text) × (answer ≡ ok (some (link u))))

  serve_link-Serves :
      (fails : Faults) (s : Store Manifest) (sha : Sha256Hex) (content : Bytes) (m : Mirror os)
      → get_blob env fails s sha ≡ ok (some content)
      → Serves content ((serve_link env os fails s sha m).0)
  unfolding serve_link local_bytes as_bytes
  serve_link-Serves fails s sha content m g = elim (Option-cases ((url os m sha).0)) [
    | inl n ↦ inl (rw (n, serve_link, local_bytes, g, as_bytes) refl)
    | inr (u, e) ↦ inr (u, rw (e, serve_link) refl)
  ]

  through_mirror-Serves :
      (fails : Faults) (s : Store Manifest) (sha : Sha256Hex) (content : Bytes) (m : Mirror os)
      → get_blob env fails s sha ≡ ok (some content)
      → Serves content ((through_mirror env os fails s sha m).0)
  unfolding through_mirror mirror_missing local_bytes as_bytes
  through_mirror-Serves fails s sha content m g = elim (Option-cases ((has os m sha).0)) [
    | inl n ↦ inl (rw (n, through_mirror, local_bytes, g, as_bytes) refl)
    | inr (b, e) ↦ elim (Bool-cases b) [
      | inl there ↦ rw (e, there, through_mirror) (serve_link-Serves fails s sha content _ g)
      | inr missing ↦ elim (Bool-cases ((put_if_absent os (has os m sha).1 sha content).0)) [
        | inl done ↦
            rw (e, missing, through_mirror, mirror_missing, g, done)
              (serve_link-Serves fails s sha content _ g)
        | inr failed ↦ inl (rw (e, missing, through_mirror, mirror_missing, g, failed) refl)
      ]
    ]
  ]

  -- A blob of the index that can be read here is served, as its bytes or as a link, whatever the
  -- mirror does and whether or not there is one. The index has bare uploads too, so this holds of a
  -- blob that no manifest points at, where the comments of Store::download say that only blobs of
  -- live and staged manifests are served.
  pub download-Serves :
      (fails : Faults) (s : Store Manifest) (mirror : Option (Mirror os)) (sha : Sha256Hex)
      (size : ℕ) (content : Bytes)
      → stat_blob env fails s sha ≡ ok (some size)
      → get_blob env fails s sha ≡ ok (some content)
      → Serves content ((download env os fails s mirror sha).0)
  unfolding download local_bytes as_bytes kept
  download-Serves fails s none sha size content t g =
      inl (rw (t, download, local_bytes, g, as_bytes) refl)
  download-Serves fails s (some m) sha size content t g =
      rw (t, download, kept) (through_mirror-Serves fails s sha content m g)

  module _ (IsClean : Bucket → Type 0)
      (keeps_head : (b : Bucket) (key : Text) → IsClean b → IsClean ((os.head b key).1))
      (keeps_url : (b : Bucket) (key : Text) → IsClean b → IsClean ((os.signed_url b key).1))
      (keeps_put : (b : Bucket) (content : Bytes)
        → IsClean b
        → IsClean ((os.put b (object_key (digest_of content)) content).1)) where
    has-IsClean :
        (m : Mirror os) (sha : Sha256Hex) → IsClean m.bucket → IsClean ((has os m sha).1.bucket)
    unfolding has
    has-IsClean m sha clean = keeps_head m.bucket (object_key sha) clean

    url-IsClean :
        (m : Mirror os) (sha : Sha256Hex) → IsClean m.bucket → IsClean ((url os m sha).1.bucket)
    unfolding url
    url-IsClean m sha clean = elim (Option-cases m.public_base) [
      | inl n ↦ rw (n, url) (keeps_url m.bucket (object_key sha) clean)
      | inr (base, e) ↦ rw (e, url) clean
    ]

    put_if_absent-IsClean :
        (m : Mirror os) (sha : Sha256Hex) (content : Bytes)
        → digest_of content ≡ sha
        → IsClean m.bucket
        → IsClean ((put_if_absent os m sha content).1.bucket)
    unfolding put_if_absent
    put_if_absent-IsClean m sha content right clean =
        let there = has-IsClean m sha clean in
        elim (Option-cases ((has os m sha).0)) [
          | inl n ↦ rw (n, put_if_absent) there
          | inr (b, e) ↦ elim (Bool-cases b) [
            | inl t ↦ rw (e, t, put_if_absent) there
            | inr f ↦
                rw (e, f, put_if_absent)
                  (subst (λ k. IsClean ((os.put (has os m sha).1.bucket (object_key k) content).1))
                    right (keeps_put (has os m sha).1.bucket content there))
          ]
        ]

    serve_link-IsClean :
        (fails : Faults) (s : Store Manifest) (sha : Sha256Hex) (m : Mirror os)
        → IsClean m.bucket
        → IsClean ((serve_link env os fails s sha m).1.bucket)
    unfolding serve_link
    serve_link-IsClean fails s sha m clean =
        let after = url-IsClean m sha clean in
        elim (Option-cases ((url os m sha).0)) [
          | inl n ↦ rw (n, serve_link) after
          | inr (u, e) ↦ rw (e, serve_link) after
        ]

    mirror_missing-IsClean :
        (fails : Faults) (s : Store Manifest) (sha : Sha256Hex) (m : Mirror os)
        → IsClean m.bucket
        → IsClean ((mirror_missing env os fails s sha m).1.bucket)
    unfolding mirror_missing
    mirror_missing-IsClean fails s sha m clean = elim (Outcome-cases (get_blob env fails s sha)) [
      | inr (x, g) ↦ rw (g, mirror_missing) clean
      | inl (found, g) ↦ elim (Option-cases found) [
        | inl n ↦ rw (g, n, mirror_missing) clean
        | inr (content, e) ↦
            let after =
              put_if_absent-IsClean m sha content
                (get_blob_sound env fails s sha content (g ∙ ap ok e)) clean in
            elim (Bool-cases ((put_if_absent os m sha content).0)) [
              | inl done ↦ rw (g, e, done, mirror_missing) (serve_link-IsClean fails s sha _ after)
              | inr failed ↦ rw (g, e, failed, mirror_missing) after
            ]
      ]
    ]

    through_mirror-IsClean :
        (fails : Faults) (s : Store Manifest) (sha : Sha256Hex) (m : Mirror os)
        → IsClean m.bucket
        → IsClean ((through_mirror env os fails s sha m).1.bucket)
    unfolding through_mirror
    through_mirror-IsClean fails s sha m clean =
        let after = has-IsClean m sha clean in
        elim (Option-cases ((has os m sha).0)) [
          | inl n ↦ rw (n, through_mirror) after
          | inr (b, e) ↦ elim (Bool-cases b) [
            | inl t ↦ rw (e, t, through_mirror) (serve_link-IsClean fails s sha _ after)
            | inr f ↦ rw (e, f, through_mirror) (mirror_missing-IsClean fails s sha _ after)
          ]
        ]

    -- Whatever holds of a bucket that lookups, signatures and uploads of bytes under the key of
    -- their own digest keep, a download keeps: it uploads nothing else, whatever the store's files
    -- hold and whichever calls fail.
    pub download-IsClean :
        (fails : Faults) (s : Store Manifest) (m : Mirror os) (sha : Sha256Hex)
        → IsClean m.bucket
        → (m' : Mirror os) × ((download env os fails s (some m) sha).1 ≡ some m')
          × IsClean m'.bucket
    unfolding download kept
    download-IsClean fails s m sha clean = elim (Outcome-cases (stat_blob env fails s sha)) [
      | inr (e, t) ↦ (m, rw (t, download) refl, clean)
      | inl (size, t) ↦ elim (Option-cases size) [
        | inl n ↦ (m, rw (t, n, download) refl, clean)
        | inr (k, n) ↦ (
          (through_mirror env os fails s sha m).1,
          rw (t, n, download) refl,
          through_mirror-IsClean fails s sha m clean,
        )
      ]
    ]
