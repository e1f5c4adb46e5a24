-- ===== src/Store/Validate.antt =====
-- src/store/catalog.rs: what a manifest must satisfy to be published or staged.
use saros.Base.{
  true, false, inl, inr, ◌⊎◌, ◌≡◌, ◌≤◌, ◌<◌, subst, Bool-cases, Option-cases, refl, ap, ◌∙◌, arith,
  >>=-eq-ok, ◌>>◌, is_some, ℕ, Bool, ◌&&◌, if◌then◌else◌, leb, ltb, Option, none, some, List, [],
  ◌∷◌, Text, dec_text, length, Outcome, ok, err, ◌>>=◌,
}
use saros.Base.Map
use saros.Base.Map.{Map, values}
use saros.Store.Names.{
  Key, Sha256Hex, StoreError, invalid_argument, coordinates_required, blob_required, too_many_blobs,
  slot_outside, already_exists, unknown_device, missing_blob, non_empty, key_of, dec_key, parse_sha,
  check_basename, parse_device, parse_version,
}
use saros.Store.State.{Env, Firmware, FirmwareBlob, BlobPath, Store}
use saros.Store.Index.{or_empty}

abbrev pub ParsedBlobs : Type 0
ParsedBlobs = List (Sha256Hex × Text)

abbrev pub or_zero : Option ℕ → ℕ
or_zero none = 0
or_zero (some n) = n

-- Key::parse
unfoldable pub parse_key : Firmware → Outcome StoreError Key
unfolding key_of
parse_key fw = elim (non_empty fw.device_id) [
  | none ↦ err (invalid_argument coordinates_required)
  | some device ↦ elim (non_empty fw.version) [
    | none ↦ err (invalid_argument coordinates_required)
    | some version ↦ key_of device version
  ]
]

-- The loop of validate, on one blob.
unfoldable pub validate_blob :
    ℕ → Map Sha256Hex BlobPath → FirmwareBlob → Outcome StoreError (Sha256Hex × Text)
unfolding parse_sha check_basename
validate_blob slots paths blob =
    if leb slots (or_zero blob.slot) then err (invalid_argument slot_outside) else (do
      sha ← parse_sha (or_empty blob.sha256)
      file ← check_basename (or_empty blob.filename)
      if Map.contains_key dec_text sha paths then ok (sha, file) else err (missing_blob sha file))

unfoldable pub validate_blobs :
    ℕ → Map Sha256Hex BlobPath → List FirmwareBlob → Outcome StoreError ParsedBlobs
unfolding validate_blob
validate_blobs slots paths [] = ok []
validate_blobs slots paths (b ∷ bs) = do
  parsed ← validate_blob slots paths b
  rest ← validate_blobs slots paths bs
  ok (parsed ∷ rest)

-- What one blob must satisfy, and what is parsed of it: its slot is below the device's count, its
-- digest and its file name are well formed, and the store has a file of that digest.
pub record IsFitting (slots : ℕ) (paths : Map Sha256Hex BlobPath) (blob : FirmwareBlob)
    (parsed : Sha256Hex × Text) : Type 0 where
  pub slot_below : or_zero blob.slot < slots
  pub digest_parsed : parse_sha (or_empty blob.sha256) ≡ ok parsed.0
  pub file_plain : check_basename (or_empty blob.filename) ≡ ok parsed.1
  pub held : Map.contains_key dec_text parsed.0 paths ≡ true

abbrev pub AreFitting : ℕ → Map Sha256Hex BlobPath → List FirmwareBlob → ParsedBlobs → Type 0
AreFitting slots paths [] [] = Unit {0}
AreFitting slots paths (b ∷ bs) (p ∷ ps) = IsFitting slots paths b p × AreFitting slots paths bs ps
AreFitting slots paths _ _ = ⊥

held_or :
    (sha file : Text) (paths : Map Sha256Hex BlobPath) (parsed : Sha256Hex × Text)
    → Path
        (Outcome StoreError (Sha256Hex × Text))
        (if Map.contains_key dec_text sha paths
          then ok (sha, file)
          else err (missing_blob sha file))
        (ok parsed)
    → (Map.contains_key dec_text sha paths ≡ true) × (sha ≡ parsed.0) × (file ≡ parsed.1)
held_or sha file paths parsed h = elim (Bool-cases (Map.contains_key dec_text sha paths)) [
  | inr n ↦ cc (rw n at h)
  | inl e ↦ (e, ap (λ a. a.0) (pair_ok (rw e at h)), ap (λ a. a.1) (pair_ok (rw e at h)))
]
  where
    pair_ok :
        {a b : Sha256Hex × Text}
        → Path (Outcome StoreError (Sha256Hex × Text)) (ok a) (ok b)
        → a ≡ b
    pair_ok g = cc

validate_blob-IsFitting :
    (slots : ℕ) (paths : Map Sha256Hex BlobPath) (blob : FirmwareBlob) (parsed : Sha256Hex × Text)
    → validate_blob slots paths blob ≡ ok parsed
    → IsFitting slots paths blob parsed
unfolding validate_blob
validate_blob-IsFitting slots paths blob parsed h =
    elim (Bool-cases (leb slots (or_zero blob.slot))) [
      | inl e ↦ cc (rw (e, validate_blob) at h)
      | inr e ↦
          let (sha, hs, h1) =
            >>=-eq-ok (parse_sha (or_empty blob.sha256)) _ (rw (e, validate_blob) at h) in
          let (file, hf, h2) = >>=-eq-ok (check_basename (or_empty blob.filename)) _ h1 in
          let (there, es, ef) = held_or sha file paths parsed h2 in
          record {
            slot_below = ground (arith, e);
            digest_parsed = hs ∙ ap ok es;
            file_plain = hf ∙ ap ok ef;
            held = subst (λ d. Map.contains_key dec_text d paths ≡ true) es there;
          }
    ]

validate_blobs-AreFitting :
    (slots : ℕ) (paths : Map Sha256Hex BlobPath) (blobs : List FirmwareBlob) (parsed : ParsedBlobs)
    → validate_blobs slots paths blobs ≡ ok parsed
    → AreFitting slots paths blobs parsed
unfolding validate_blobs
validate_blobs-AreFitting slots paths [] parsed h = subst (AreFitting slots paths []) (list_ok h) tt
  where
    list_ok : {a b : ParsedBlobs} → Path (Outcome StoreError ParsedBlobs) (ok a) (ok b) → a ≡ b
    list_ok g = cc
validate_blobs-AreFitting slots paths (b ∷ bs) parsed h =
    let (p, hp, h1) = >>=-eq-ok (validate_blob slots paths b) _ h in
    let (ps, hps, h2) = >>=-eq-ok (validate_blobs slots paths bs) _ h1 in
    subst (AreFitting slots paths (b ∷ bs)) (list_ok h2)
      (validate_blob-IsFitting slots paths b p hp, validate_blobs-AreFitting slots paths bs ps hps)
  where
    list_ok : {a b : ParsedBlobs} → Path (Outcome StoreError ParsedBlobs) (ok a) (ok b) → a ≡ b
    list_ok g = cc

-- The coordinates of a manifest, both there and well formed, and the key of them.
pub record IsNamed (fw : Firmware) (key : Key) : Type 0 where
  pub device : Text
  pub version : Text
  pub device_there : non_empty fw.device_id ≡ some device
  pub version_there : non_empty fw.version ≡ some version
  pub device_parsed : parse_device device ≡ ok key.device
  pub version_parsed : parse_version version ≡ ok key.version

parse_key-IsNamed : (fw : Firmware) (key : Key) → parse_key fw ≡ ok key → IsNamed fw key
unfolding parse_key key_of
parse_key-IsNamed fw key h = elim (Option-cases (non_empty fw.device_id)) [
  | inl e ↦ cc (rw (e, parse_key) at h)
  | inr (device, e) ↦ elim (Option-cases (non_empty fw.version)) [
    | inl f ↦ cc (rw (e, f, parse_key) at h)
    | inr (version, f) ↦
        let (d, hd, h1) = >>=-eq-ok (parse_device device) _ (rw (e, f, parse_key, key_of) at h) in
        let (v, hv, h2) = >>=-eq-ok (parse_version version) _ h1 in
        let same = key_ok h2 in
        record {
          device = device;
          version = version;
          device_there = e;
          version_there = f;
          device_parsed = hd ∙ ap (λ k. ok k.device) same;
          version_parsed = hv ∙ ap (λ k. ok k.version) same;
        }
  ]
]
  where
    key_ok : {a b : Key} → Path (Outcome StoreError Key) (ok a) (ok b) → a ≡ b
    key_ok g = cc

-- `inex_devices::by_id(…).ok_or_else(…)`
known_slots : Text → Option ℕ → Outcome StoreError ℕ
known_slots device none = err (unknown_device device)
known_slots device (some n) = ok n

check_count : ℕ → List FirmwareBlob → Outcome StoreError (Unit {0})
check_count n blobs =
    if leb (length blobs) 0
    then err (invalid_argument blob_required)
    else if ltb n (length blobs)
    then err (invalid_argument too_many_blobs)
    else ok tt

check_live : Bool → Key → Option Firmware → Outcome StoreError (Unit {0})
check_live reject_if_live key live =
    if reject_if_live && is_some live then err (already_exists key) else ok tt

live_or :
    (r : Bool) (key : Key) (live : Option Firmware) {u : Unit {0}}
    → check_live r key live ≡ ok u
    → (r ≡ false) ⊎ (live ≡ none)
unfolding check_live
live_or false key live h = inl refl
live_or true key none h = inr refl
live_or true key (some fw) h = cc

module _ (env : Env) where
  open env use {Manifest, slots}

  -- Store::validate
  unfoldable pub validate :
      Store Manifest → Firmware → Bool → Outcome StoreError (Key × ParsedBlobs)
  unfolding known_slots check_count check_live
  validate s fw reject_if_live = do
    key ← parse_key fw
    n ← known_slots key.device (slots key.device)
    check_count n fw.blobs
    blobs ← validate_blobs n s.index.blob_paths fw.blobs
    check_live reject_if_live key (Map.get dec_key key s.index.live)
    ok (key, blobs)

  -- What validate has found of a manifest that it accepts.
  pub record Accepted (s : Store Manifest) (fw : Firmware) (reject_if_live : Bool) (key : Key)
      (blobs : ParsedBlobs) : Type 0 where
    pub named : IsNamed fw key
    pub slot_count : ℕ
    pub known : slots key.device ≡ some slot_count
    pub some_blob : 1 ≤ length fw.blobs
    pub fits : length fw.blobs ≤ slot_count
    pub checked : AreFitting slot_count s.index.blob_paths fw.blobs blobs
    pub fresh : (reject_if_live ≡ false) ⊎ (Map.get dec_key key s.index.live ≡ none)

  pub validate-Accepted :
      (s : Store Manifest) (fw : Firmware) (r : Bool) (key : Key) (blobs : ParsedBlobs)
      → validate s fw r ≡ ok (key, blobs)
      → Accepted s fw r key blobs
  unfolding validate
  validate-Accepted s fw r key blobs h =
      let (k, hk, h1) = >>=-eq-ok (parse_key fw) _ h in
      let (n, hn, h2) = >>=-eq-ok (known_slots k.device (slots k.device)) _ h1 in
      let (u, hc, h3) = >>=-eq-ok (check_count n fw.blobs) _ h2 in
      let (bs, hb, h4) = >>=-eq-ok (validate_blobs n s.index.blob_paths fw.blobs) _ h3 in
      let (w, hl, h5) = >>=-eq-ok (check_live r k (Map.get dec_key k s.index.live)) _ h4 in
      let ek : k ≡ key = ground arith in
      let eb : bs ≡ blobs = ground arith in
      record {
        named = parse_key-IsNamed fw key (hk ∙ ap ok ek);
        slot_count = n;
        known = rw (← ek) (ground arith);
        some_blob = ground arith;
        fits = ground arith;
        checked = validate_blobs-AreFitting n s.index.blob_paths fw.blobs blobs (hb ∙ ap ok eb);
        fresh = rw (← ek) (live_or r k (Map.get dec_key k s.index.live) (hl));
      }
