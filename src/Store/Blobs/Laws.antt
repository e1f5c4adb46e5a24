-- ===== src/Store/Blobs/Laws.antt =====
-- What src/store/blobs.rs hands out and takes in: bytes under their own digest.
use saros.Base.{
  ℕ, ◌≡◌, refl, sym, ap, ◌∙◌, inl, inr, false, ltb, Option, none, some, ◌∷◌, text_eq, text_eq_iff,
  text_eq_refl, dec_text, length, Outcome, ok, Option-cases, Bool-cases,
}
use saros.Base.Map
use saros.Store.Names.{Sha256Hex, StoreError}
use saros.Store.State.{Env, Bytes, incoming_file, Store, Faults, read_blob, write_blob}
use saros.Store.Disk.{read_path}
use saros.Store.Blobs.{verified, get_blob, put_blob, pooled}

module _ (env : Env) where
  open env use {Manifest, digest_of}

  verified_sound :
      (fails : Faults) (sha : Sha256Hex) (found : Option Bytes) (content : Bytes)
      → verified env fails sha found ≡ ok (some content)
      → digest_of content ≡ sha
  unfolding verified
  verified_sound fails sha none content h = cc
  verified_sound fails sha (some c) content h = elim (Bool-cases (fails read_blob)) [
    | inl f ↦ cc (rw (f, verified) at h)
    | inr f ↦ elim (Bool-cases (text_eq (digest_of c) sha)) [
      | inr differs ↦ cc (rw (f, differs, verified) at h)
      | inl same ↦
          let h' : Path (Outcome StoreError (Option Bytes)) (ok (some c)) (ok (some content)) =
            rw (f, same, verified) at h in
          let e : c ≡ content = cc in ap digest_of (sym e) ∙ text_eq_iff (digest_of c) sha same
    ]
  ]

  -- Bytes that a read of a digest answers have that digest, whatever the files hold and whichever
  -- calls fail.
  pub get_blob_sound :
      (fails : Faults) (s : Store Manifest) (sha : Sha256Hex) (content : Bytes)
      → get_blob env fails s sha ≡ ok (some content)
      → digest_of content ≡ sha
  unfolding get_blob
  get_blob_sound fails s sha content h =
      elim (Option-cases (Map.get dec_text sha s.index.blob_paths)) [
        | inl n ↦ cc (rw (n, get_blob) at h)
        | inr (path, e) ↦
            verified_sound fails sha (read_path s.disk path) content (rw (e, get_blob) at h)
      ]

  pooled_lem :
      (fails : Faults) (now : ℕ) (sha : Sha256Hex) (content : Bytes) (s : Store Manifest)
      → fails read_blob ≡ false
      → Map.get dec_text sha s.disk.incoming ≡ none
      → Map.get dec_text sha s.index.blob_paths ≡ none
      → digest_of content ≡ sha
      → get_blob env fails (pooled env now sha content s) sha ≡ ok (some content)
  unfolding pooled get_blob verified read_path
  pooled_lem fails now sha content s readable new_file new_path right =
      rw
        (
          new_path,
          get_blob,
          Map.get-insert_self dec_text sha (incoming_file sha) s.index.blob_paths,
          new_file,
          read_path,
          Map.get-insert_self dec_text sha (record { content = content; modified = some now })
              s.disk.incoming,
          verified,
          readable,
          right,
          text_eq_refl sha,
        )
        refl

  -- An upload of at least one byte and at most the cap, of whose digest neither the pool nor the
  -- index has a file yet, answers its digest where the write of the file does not fail, whatever else
  -- does; and the digest then reads as exactly these bytes where the read of the file does not fail.
  pub get_blob-put_blob :
      (fails later : Faults) (max_blob_bytes now : ℕ) (b : ℕ) (bs : Bytes) (s : Store Manifest)
      → fails write_blob ≡ false
      → later read_blob ≡ false
      → ltb max_blob_bytes (length (b ∷ bs)) ≡ false
      → Map.get dec_text (digest_of (b ∷ bs)) s.disk.incoming ≡ none
      → Map.get dec_text (digest_of (b ∷ bs)) s.index.blob_paths ≡ none
      → ((put_blob env max_blob_bytes fails now (b ∷ bs) s).0 ≡ ok (digest_of (b ∷ bs)))
        × (get_blob env later
              (put_blob env max_blob_bytes fails now (b ∷ bs) s).1
              (digest_of (b ∷ bs))
            ≡ ok (some (b ∷ bs)))
  unfolding put_blob
  get_blob-put_blob fails later max_blob_bytes now b bs s writable readable fits new_file new_path =
      rw (fits, new_file, writable, put_blob)
        (refl, pooled_lem later now (digest_of (b ∷ bs)) (b ∷ bs) s readable new_file new_path refl)
