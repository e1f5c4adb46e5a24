-- ===== src/Base/Paths.antt =====
-- Paths as texts: joining a name to a directory, and the components that a path has.
use Prim.Native.Nat.{ℕ}
use mathlib.Core.Path.{◌≡◌, refl, ap, ◌∙◌}
use mathlib.Core.Logic.{inl, inr}
use mathlib.Core.Bool.{Bool, true, false}
use mathlib.Core.List.{List, [], ◌∷◌, ◌++◌}
use native.Mathlib.Omega.{arith}
use saros.Base.Tests.{◌==◌, Bool-cases, ==_iff}
use saros.Base.Lists.{all}
use saros.Base.Strings.{Text, split, add_to_first, has_char}

-- Path::join of a relative name
abbrev pub join : Text → Text → Text
join dir name = dir ++ b'/' ∷ name

abbrev pub components : Text → List Text
components = split b'/'

split-cons : (sep : ℕ) (s : Text) → (w : Text) × (ws : List Text) × (split sep s ≡ w ∷ ws)
unfolding split
split-cons sep [] = ([], [], refl)
split-cons sep (c ∷ s) = elim (Bool-cases (c == sep)) [
  | inl e ↦ ([], split sep s, rw e)
  | inr e ↦ let (w, ws, p) = split-cons sep s in (c ∷ w, ws, rw (e, p))
]

pub split-append_sep :
    (sep : ℕ) (s t : Text) → split sep (s ++ sep ∷ t) ≡ split sep s ++ split sep t
unfolding split add_to_first
split-append_sep sep [] t = ground (arith, ==_iff sep sep)
split-append_sep sep (c ∷ s) t = elim (Bool-cases (c == sep)) [
  | inl e ↦ rw (e, split-append_sep sep s t)
  | inr e ↦ let (w, ws, p) = split-cons sep s in rw (e, split-append_sep sep s t, p)
]

pub split_absent : (sep : ℕ) (s : Text) → has_char sep s ≡ false → split sep s ≡ s ∷ []
unfolding split
split_absent sep [] h = refl
split_absent sep (c ∷ s) h = ground (arith, split_absent sep s)

-- A name without a slash is the last component of the joined path.
pub components-join :
    (dir name : Text)
    → has_char b'/' name ≡ false
    → components (join dir name) ≡ components dir ++ name ∷ []
components-join dir name h =
    split-append_sep b'/' dir name ∙ ap (λ ws. components dir ++ ws) (split_absent b'/' name h)

-- What every piece has, every character of the text has, but the separator.
pub all-split :
    (p : ℕ → Bool) (sep : ℕ) (s : Text) (c : ℕ)
    → all (all p) (split sep s) ≡ true
    → p c ≡ false
    → (c == sep) ≡ false
    → has_char c s ≡ false
unfolding split add_to_first
all-split p sep [] c h n d = refl
all-split p sep (x ∷ s) c h n d = elim (Bool-cases (x == sep)) [
  | inl e ↦
      let h' : all (all p) ([] ∷ split sep s) ≡ true = rw (e, split) at h in
      ground (arith, all-split p sep s c h' n d)
  | inr e ↦
      let (w, ws, q) = split-cons sep s in
      let h' : all (all p) ((x ∷ w) ∷ ws) ≡ true = rw (e, split, q) at h in
      ground (arith, all-split p sep s c (rw q (ground arith)) n d, ap p)
]
