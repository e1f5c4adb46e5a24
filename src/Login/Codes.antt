-- ===== src/Login/Codes.antt =====
-- The codes of src/login.rs that a person types.
use saros.Base.{
  ℕ, suc, ◌+◌, ◌%◌, ◌≡◌, refl, Bool, true, ◌&&◌, if◌then◌else◌, ◌==◌, List, [], ◌∷◌, map, keep, all,
  length, Text, text, is_alphanumeric, to_upper, to_lower, arith, ==_iff, ◌<◌, Bool-cases, inl, inr,
  ◌∙◌,
}

abbrev pub alphabet : Text
alphabet = text "ABCDEFGHJKLMNPQRSTUVWXYZ23456789"

abbrev char_at : Text → ℕ → ℕ
char_at [] i = 0
char_at (c ∷ cs) ℕ.zero = c
char_at (c ∷ cs) (suc i) = char_at cs i

code_from : ℕ → List ℕ → Text
code_from i [] = []
code_from i (b ∷ bs) =
    let rest = char_at alphabet (b % length alphabet) ∷ code_from (i + 1) bs in
    if i == 4 then b'-' ∷ rest else rest

-- user_code, of the random bytes
unfoldable pub user_code : List ℕ → Text
unfolding code_from
user_code raw = code_from 0 raw

-- normalize
unfoldable pub normalize : Text → Text
normalize code = map to_upper (keep is_alphanumeric code)

sample : user_code (0 ∷ 1 ∷ 2 ∷ 3 ∷ 31 ∷ 32 ∷ 255 ∷ 7 ∷ []) ≡ text "ABCD-9A9H"
unfolding user_code
sample = refl

-- What all characters of a text have, the one at an index has.
all-char_at :
    (p : ℕ → Bool) (s : Text) (i : ℕ) → all p s ≡ true → i < length s → p (char_at s i) ≡ true
all-char_at p [] i h lt = absurd (omega arith)
all-char_at p (c ∷ s) ℕ.zero h lt = ground (arith, h)
all-char_at p (c ∷ s) (suc i) h lt = ground (arith, h, all-char_at p s i)

-- The letter that a random byte picks.
abbrev pub letter : ℕ → ℕ
letter b = char_at alphabet (b % 32)

abbrev is_letter : ℕ → Bool
is_letter c = is_alphanumeric c && to_upper c == c

letter_fixed : (b : ℕ) → (is_alphanumeric (letter b) ≡ true) × (to_upper (letter b) ≡ letter b)
letter_fixed b =
    let h = all-char_at is_letter alphabet (b % 32) refl (omega arith) in
    (and_left _ _ h, (==_iff _ _).0 (and_right _ _ h))
  where
    and_left : (a c : Bool) → (a && c) ≡ true → a ≡ true
    and_left a c h = ground arith

    and_right : (a c : Bool) → (a && c) ≡ true → c ≡ true
    and_right a c h = ground arith

normalize-cons_letter :
    (c : ℕ) (s : Text)
    → is_alphanumeric c ≡ true
    → to_upper c ≡ c
    → normalize (c ∷ s) ≡ c ∷ normalize s
unfolding normalize
normalize-cons_letter c s h u = ground arith

normalize-dash : (s : Text) → normalize (b'-' ∷ s) ≡ normalize s
unfolding normalize
normalize-dash s = refl

normalize-code_from : (i : ℕ) (raw : List ℕ) → normalize (code_from i raw) ≡ map letter raw
unfolding code_from
normalize-code_from i [] = unfold normalize in refl
normalize-code_from i (b ∷ bs) =
    let (a, u) = letter_fixed b in
    let rest : normalize (letter b ∷ code_from (i + 1) bs) ≡ map letter (b ∷ bs) = rw (
      normalize-cons_letter (letter b) (code_from (i + 1) bs) a u,
      normalize-code_from (i + 1) bs,
    ) in
    elim (Bool-cases (i == 4)) [ inl e ↦ rw e (normalize-dash _ ∙ rest) | inr e ↦ rw e rest ]

-- The code that is kept for a request is one letter of the alphabet for each random byte: the dash
-- that is shown to a person is no part of it.
pub normalize-user_code : (raw : List ℕ) → normalize (user_code raw) ≡ map letter raw
unfolding user_code
normalize-user_code raw = normalize-code_from 0 raw

-- A code typed in lower case, or already normalised, normalises to the same.
pub normalize_insensitive :
    (code : Text)
    → (normalize (map to_lower code) ≡ normalize code)
      × (normalize (normalize code) ≡ normalize code)
unfolding normalize
normalize_insensitive [] = (refl, refl)
normalize_insensitive (c ∷ s) =
    let ih = normalize_insensitive s in (ground (arith, ih.0), ground (arith, ih.1))
