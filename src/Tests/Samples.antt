-- ===== src/Tests/Samples.antt =====
-- The concrete catalogue, digest, object store and inputs of the runs.
use saros.Base.{
  ℕ, zero, suc, ◌+◌, ◌%◌, Bool, true, false, if◌then◌else◌, Option, none, some, List, [], ◌∷◌, Text,
  text, text_eq, length,
}
use saros.Store.Names.{Key}
use saros.Store.State.{Env, Bytes, Firmware, FirmwareBlob, Store, PoolFile, incoming_file}
use saros.Mirror.{ObjectStore, Mirror}

abbrev repeat : ℕ → ℕ → Text
repeat zero c = []
repeat (suc n) c = c ∷ repeat n c

-- The digest of a byte string: 64 hexadecimal digits that tell its length up to ten.
abbrev pub digest : Bytes → Text
digest bs = (b'0' + length bs % 10) ∷ repeat 63 b'0'

-- One device is known, with two slots.
abbrev pub env : Env
env = record {
  Manifest = Firmware;
  encode = λ fw. some fw;
  decode = λ m. some m;
  digest_of = digest;
  slots = λ device. if text_eq device (text "lamp") then some 2 else none;
}

abbrev pub image : Bytes
image = 7 ∷ 8 ∷ 9 ∷ []

abbrev pub image_sha : Text
image_sha = digest image

abbrev pub image_blob : FirmwareBlob
image_blob = record {
  slot = some 0;
  sha256 = some image_sha;
  filename = some (text "app.bin");
  size_bytes = some 3;
}

abbrev pub lamp : Text → Firmware
lamp version = record {
  device_id = some (text "lamp");
  version = some version;
  blobs = image_blob ∷ [];
  downloads = none;
}

abbrev pub lamp_key : Text → Key
lamp_key version = record { device = text "lamp"; version = version }

abbrev pub pool_file : Option ℕ → PoolFile
pool_file modified = record { content = image; modified = modified }

-- A store with nothing but one upload.
abbrev pub uploaded : Store Firmware
uploaded = record {
  disk = record { firmware = []; staging = []; incoming = (image_sha, pool_file (some 50)) ∷ [] };
  index = record { live = []; staged = []; blob_paths = (image_sha, incoming_file image_sha) ∷ [] };
  generation = 0;
}

-- One version that is live, and its file on disk.
abbrev pub empty_store : Store Firmware
empty_store = record {
  disk = record { firmware = []; staging = []; incoming = [] };
  index = record { live = []; staged = []; blob_paths = [] };
  generation = 0;
}

-- An object store that holds what it was given, and signs every key.
abbrev pub bucket_store : ObjectStore
bucket_store = record {
  Bucket = List Text;
  head = λ b key. (some (is_in key b), b);
  put = λ b key content. (true, key ∷ b);
  signed_url = λ b key. (some key, b);
}
  where
    is_in : Text → List Text → Bool
    is_in key [] = false
    is_in key (k ∷ ks) = if text_eq key k then true else is_in key ks

abbrev pub mirror : Mirror bucket_store
mirror = record { bucket = []; public_base = none }
