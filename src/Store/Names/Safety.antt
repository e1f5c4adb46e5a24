-- ===== src/Store/Names/Safety.antt =====
-- What the parsers let through can only name a file of its own directory.
use saros.Base.{
  ℕ, ◌≡◌, refl, ap, Bool, true, false, ◌≢◌, ◌++◌, List, [], ◌∷◌, ◌==◌, ◌≤◌, all, Text, text,
  text_eq_refl, strip_prefix, len, starts_with, contains, has_char, split, is_digit, ok, >>=-eq-ok,
  arith,
}
use mathlib.Core.List.{append_assoc}
use saros.Base.Paths.{join, components, components-join, all-split}
use saros.Store.Names.{
  Key, is_sha_char, is_id_char, is_segment, parse_sha, parse_device, parse_version, key_of,
  check_basename,
}

-- A character that no test accepts is not in a text that passes the test.
has_char-all :
    (p : ℕ → Bool) (c : ℕ) (s : Text) → p c ≡ false → all p s ≡ true → has_char c s ≡ false
has_char-all p c [] h a = refl
has_char-all p c (x ∷ s) h a = ground (arith, has_char-all p c s h, ap p)

-- A digest is 64 bytes long, and none of them is a slash, a backslash or a dot.
parse_sha-IsPlain :
    (s t : Text)
    → parse_sha s ≡ ok t
    → (t ≡ s)
      × (len t ≡ 64)
      × (has_char b'/' t ≡ false)
      × (has_char 0x5c t ≡ false)
      × (has_char b'.' t ≡ false)
unfolding parse_sha
parse_sha-IsPlain s t h = (
  ground arith,
  ground arith,
  ground (arith, has_char-all is_sha_char b'/' s),
  ground (arith, has_char-all is_sha_char 0x5c s),
  ground (arith, has_char-all is_sha_char b'.' s),
)

-- A name that may be one component of a path: not empty, with no separator, and hidden by no dot.
abbrev pub IsComponent : Text → Type 0
IsComponent s =
    (1 ≤ len s)
    × (len s ≤ 100)
    × (has_char b'/' s ≡ false)
    × (has_char 0x5c s ≡ false)
    × (starts_with (text ".") s ≡ false)

parse_device-IsComponent : (s t : Text) → parse_device s ≡ ok t → (t ≡ s) × IsComponent s
unfolding parse_device strip_prefix
parse_device-IsComponent [] t h = ground (arith, text_eq_refl [])
parse_device-IsComponent (c ∷ s) t h = (
  ground arith,
  (
    ground arith,
    ground arith,
    ground (arith, has_char-all is_id_char b'/' (c ∷ s)),
    ground (arith, has_char-all is_id_char 0x5c (c ∷ s)),
    ground arith,
  ),
)

digits_of_segments : (ws : List Text) → all is_segment ws ≡ true → all (all is_digit) ws ≡ true
digits_of_segments [] h = refl
digits_of_segments (w ∷ ws) h = ground (arith, digits_of_segments ws)

parse_version-segments :
    (s t : Text) → parse_version s ≡ ok t → (t ≡ s) × (all is_segment (split b'.' s) ≡ true)
unfolding parse_version
parse_version-segments s t h = (ground arith, ground arith)

has_char-version :
    (c : ℕ) (s : Text)
    → all is_segment (split b'.' s) ≡ true
    → is_digit c ≡ false
    → (c == b'.') ≡ false
    → has_char c s ≡ false
has_char-version c s h = all-split is_digit b'.' s c (digits_of_segments (split b'.' s) h)

first_segment : (s : Text) → all is_segment (split b'.' s) ≡ true → starts_with (text ".") s ≡ false
unfolding split strip_prefix
first_segment [] h = refl
first_segment (c ∷ s) h = ground (arith, text_eq_refl [])

parse_version-IsComponent : (s t : Text) → parse_version s ≡ ok t → (t ≡ s) × IsComponent s
unfolding parse_version
parse_version-IsComponent [] t h = ground (arith, text_eq_refl [])
parse_version-IsComponent (c ∷ s) t h =
    let (e, segments) = parse_version-segments (c ∷ s) t h in
    (
      e,
      (
        ground arith,
        ground arith,
        has_char-version b'/' (c ∷ s) segments refl refl,
        has_char-version 0x5c (c ∷ s) segments refl refl,
        first_segment (c ∷ s) segments,
      ),
    )

key_of-IsComponent :
    (d v : Text) (k : Key)
    → key_of d v ≡ ok k
    → (k ≡ record { device = d; version = v }) × IsComponent d × IsComponent v
unfolding key_of
key_of-IsComponent d v k h =
    let (d', hd, rest) = >>=-eq-ok (parse_device d) _ h in
    let (v', hv, built) = >>=-eq-ok (parse_version v) _ rest in
    let (ed, cd) = parse_device-IsComponent d d' hd in
    let (ev, cv) = parse_version-IsComponent v v' hv in (cc, cd, cv)

IsComponent-ne : (s : Text) → IsComponent s → s ≢ text ".."
unfolding strip_prefix
IsComponent-ne s c e = cc (ap (starts_with (text ".")) e)

check_basename-IsPlain :
    (s t : Text)
    → check_basename s ≡ ok t
    → (t ≡ s) × (has_char b'/' s ≡ false) × (contains (text "..") s ≡ false)
unfolding check_basename
check_basename-IsPlain s t h = (ground arith, ground arith, ground arith)

contains-ne : (s : Text) → contains (text "..") s ≡ false → s ≢ text ".."
unfolding contains strip_prefix
contains-ne s h e = cc (ap (contains (text "..")) e)

-- <root>/<kind>/<device>/<version>/<file>
abbrev pub blob_path : Text → Text → Key → Text → Text
blob_path root kind k file = join (join (join (join root kind) k.device) k.version) file

components-below :
    (root kind device version name : Text)
    → has_char b'/' kind ≡ false
    → has_char b'/' device ≡ false
    → has_char b'/' version ≡ false
    → has_char b'/' name ≡ false
    → components (join (join (join (join root kind) device) version) name)
      ≡ components root ++ kind ∷ device ∷ version ∷ name ∷ []
components-below root kind device version name hk hd hv hn =
    rw
      (
        components-join (join (join (join root kind) device) version) name hn,
        components-join (join (join root kind) device) version hv,
        components-join (join root kind) device hd,
        components-join root kind hk,
      )
      (simp append_assoc)

-- A path built from a parsed key and a checked file name lies where it is meant to lie: below the
-- root it has the four components that were joined, and neither the device nor the version nor
-- the file steps up to a parent directory.
pub components-blob_path :
    (root kind device version name : Text) (k : Key) (file : Text)
    → has_char b'/' kind ≡ false
    → key_of device version ≡ ok k
    → check_basename name ≡ ok file
    → (components (blob_path root kind k file)
        ≡ components root ++ kind ∷ device ∷ version ∷ name ∷ [])
      × (device ≢ text "..")
      × (version ≢ text "..")
      × (name ≢ text "..")
components-blob_path root kind device version name k file hk h f =
    let (ek, cd, cv) = key_of-IsComponent device version k h in
    let (ef, slash, dots) = check_basename-IsPlain name file f in
    (
      rw (ek, ef) (components-below root kind device version name hk cd.2 cv.2 slash),
      IsComponent-ne device cd,
      IsComponent-ne version cv,
      contains-ne name dots,
    )
