-- ===== src/Store/Names.antt =====
-- src/store/mod.rs: the errors of the store and the parsers that stand at its boundary. A newtype
-- around a string is the string; only its parser returns one.
pub mod Safety
use saros.Base.{
  ℕ, ◌≡◌, Bool, true, false, not, ◌&&◌, ◌||◌, Option, none, some, List, [], ◌∷◌, ◌==◌, leb,
  if◌then◌else◌, all, Text, text, text_eq, dec_text, len, starts_with, contains, has_char, split,
  is_digit, is_alphanumeric, is_hexdigit, is_upper, Outcome, ok, err, ◌>>=◌,
}

abbrev pub Sha256Hex : Type 0
Sha256Hex = Text

abbrev pub DeviceId : Type 0
DeviceId = Text

abbrev pub Version : Type 0
Version = Text

pub record Key : Type 0 where
  pub device : DeviceId
  pub version : Version

-- The checks that answer `InvalidArgument`, in place of its message.
pub data Reason : Type 0 where
  bad_sha bad_device bad_version bad_filename : Reason
  coordinates_required blob_required too_many_blobs slot_outside : Reason
  content_required content_too_large : Reason

pub data StoreError : Type 0 where
  invalid_argument : Reason → StoreError
  not_found : Key → StoreError
  already_exists : Key → StoreError
  unknown_device : Text → StoreError
  missing_blob : Sha256Hex → Text → StoreError
  quota : StoreError
  io : StoreError
  db : StoreError
  decode : StoreError

abbrev is_sha_char : ℕ → Bool
is_sha_char c = is_hexdigit c && not (is_upper c)

-- <Sha256Hex as FromStr>::from_str
unfoldable pub parse_sha : Text → Outcome StoreError Sha256Hex
unfolding len
parse_sha s =
    if not (len s == 64) || not (all is_sha_char s) then err (invalid_argument bad_sha) else ok s

abbrev is_id_char : ℕ → Bool
is_id_char c = is_alphanumeric c || c == b'.' || c == b'_' || c == b'-'

-- <DeviceId as FromStr>::from_str
unfoldable pub parse_device : Text → Outcome StoreError DeviceId
unfolding len
parse_device s =
    if not (text_eq s []) && leb (len s) 100 && not (starts_with (text ".") s) && all is_id_char s
    then ok s
    else err (invalid_argument bad_device)

abbrev is_segment : Text → Bool
is_segment seg = not (text_eq seg []) && all is_digit seg

-- <Version as FromStr>::from_str
unfoldable pub parse_version : Text → Outcome StoreError Version
unfolding len split
parse_version v =
    if not (text_eq v []) && leb (len v) 100 && all is_segment (split b'.' v)
    then ok v
    else err (invalid_argument bad_version)

-- Key::of
unfoldable pub key_of : Text → Text → Outcome StoreError Key
key_of device version = do
  d ← parse_device device
  v ← parse_version version
  ok (record { device = d; version = v })

-- `s.clone().filter(|s| !s.is_empty())`
abbrev pub non_empty : Option Text → Option Text
non_empty none = none
non_empty (some []) = none
non_empty (some (c ∷ s)) = some (c ∷ s)

-- check_basename
unfoldable pub check_basename : Text → Outcome StoreError Text
unfolding len contains
check_basename file =
    if not (text_eq file [])
      && leb (len file) 200
      && not (text_eq file (text "manifest.json"))
      && not (text_eq file (text "submitted-by"))
      && not (has_char b'/' file)
      && not (has_char 0x5c file)
      && not (contains (text "..") file)
    then ok file
    else err (invalid_argument bad_filename)

dec_fields : (k l : Key) → Dec (k.device ≡ l.device) → Dec (k.version ≡ l.version) → Dec (k ≡ l)
dec_fields k l (yes p) (yes q) = yes (λ i. record { device = p i; version = q i })
dec_fields k l (no p) q = no (λ e. p (λ i. (e i).device))
dec_fields k l (yes p) (no q) = no (λ e. q (λ i. (e i).version))

unfoldable pub dec_key : Discrete Key
unfolding dec_fields dec_text
dec_key k l = dec_fields k l (dec_text k.device l.device) (dec_text k.version l.version)
