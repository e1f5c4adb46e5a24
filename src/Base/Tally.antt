-- ===== src/Base/Tally.antt =====
-- How many elements of a list pass a test, through filters and sums.
use Prim.Native.Nat.{◌+◌, ◌≤◌}
use mathlib.Core.Path.{◌≡◌, refl}
use mathlib.Core.Logic.{inl, inr}
use mathlib.Core.Bool.{Bool, true, false, not, ◌&&◌}
use mathlib.Core.List.{List, [], ◌∷◌, ◌++◌}
use mathlib.Core.Option.{some}
use native.Mathlib.Omega.{arith}
use saros.Base.Tests.{Bool-cases}
use saros.Base.Lists.{length, all, keep, last, tally}

module _ {ℓ} {A : Type ℓ} where
  pub length-keep : (p : A → Bool) (xs : List A) → length (keep p xs) ≡ tally p xs
  length-keep p [] = refl
  length-keep p (x ∷ xs) = ground (arith, length-keep p xs)

  pub tally-keep : (p q : A → Bool) (xs : List A) → tally q (keep p xs) ≡ tally (λ x. p x && q x) xs
  tally-keep p q [] = refl
  tally-keep p q (x ∷ xs) = ground (arith, tally-keep p q xs)

  pub tally-append : (p : A → Bool) (xs ys : List A) → tally p (xs ++ ys) ≡ tally p xs + tally p ys
  tally-append p [] ys = omega arith
  tally-append p (x ∷ xs) ys = omega (arith, tally-append p xs ys)

  pub tally-true : (xs : List A) → tally (λ x. true) xs ≡ length xs
  tally-true [] = refl
  tally-true (x ∷ xs) = omega (arith, tally-true xs)

  pub tally-le-length : (p : A → Bool) (xs : List A) → tally p xs ≤ length xs
  tally-le-length p [] = omega arith
  tally-le-length p (x ∷ xs) = ground (arith, tally-le-length p xs)

  pub tally_same : (p q : A → Bool) (xs : List A) → ((x : A) → p x ≡ q x) → tally p xs ≡ tally q xs
  tally_same p q [] h = refl
  tally_same p q (x ∷ xs) h = ground (arith, h x, tally_same p q xs h)

  pub tally_mono :
      (p q : A → Bool) (xs : List A) → ((x : A) → p x ≡ true → q x ≡ true) → tally p xs ≤ tally q xs
  tally_mono p q [] h = omega arith
  tally_mono p q (x ∷ xs) h = ground (arith, h x, tally_mono p q xs h)

  pub tally-all :
      (p q : A → Bool) (xs : List A)
      → ((x : A) → q x ≡ true → p x ≡ true)
      → all q xs ≡ true
      → tally p xs ≡ length xs
  tally-all p q [] h a = refl
  tally-all p q (x ∷ xs) h a = ground (arith, h x, a, tally-all p q xs h)

  pub tally_none :
      (p q : A → Bool) (xs : List A)
      → ((x : A) → q x ≡ true → p x ≡ false)
      → all q xs ≡ true
      → tally p xs ≡ 0
  tally_none p q [] h a = refl
  tally_none p q (x ∷ xs) h a = ground (arith, h x, a, tally_none p q xs h)

  pub keep-all : (p : A → Bool) (xs : List A) → all p xs ≡ true → keep p xs ≡ xs
  keep-all p [] h = refl
  keep-all p (x ∷ xs) h = ground (arith, h, keep-all p xs)

  pub all_of_tally : (p : A → Bool) (xs : List A) → tally (λ x. not (p x)) xs ≡ 0 → all p xs ≡ true
  all_of_tally p [] h = refl
  all_of_tally p (x ∷ xs) h = elim (Bool-cases (p x)) [
    | inl e ↦ ground (arith, e, all_of_tally p xs (omega (arith, rw e at h)))
    | inr e ↦ absurd (omega (arith, rw e at h))
  ]

  pub all_implied :
      (p q : A → Bool) (xs : List A)
      → ((x : A) → p x ≡ true → q x ≡ true)
      → all p xs ≡ true
      → all q xs ≡ true
  all_implied p q [] h a = refl
  all_implied p q (x ∷ xs) h a = ground (arith, h x, a, all_implied p q xs h)

  pub all-last :
      (p : A → Bool) (xs : List A) (x : A) → all p xs ≡ true → last xs ≡ some x → p x ≡ true
  all-last p [] x a h = cc
  all-last p (y ∷ []) x a h = ground (arith, a, h)
  all-last p (y ∷ z ∷ xs) x a h = all-last p (z ∷ xs) x (ground (arith, a)) h

  pub last-some : (x : A) (xs : List A) → (y : A) × (last (x ∷ xs) ≡ some y)
  last-some x [] = (x, refl)
  last-some x (y ∷ xs) = last-some y xs

  pub some-last : (xs : List A) → 1 ≤ length xs → (y : A) × (last xs ≡ some y)
  some-last [] h = absurd (omega (arith, h))
  some-last (x ∷ xs) h = last-some x xs

  pub tally-last :
      (p : A → Bool) (xs : List A) (x : A) → last xs ≡ some x → p x ≡ true → 1 ≤ tally p xs
  tally-last p [] x h e = cc
  tally-last p (y ∷ []) x h e = ground (arith, e, h)
  tally-last p (y ∷ z ∷ xs) x h e = ground (arith, tally-last p (z ∷ xs) x h e)

  pub keep-append_skip :
      (p : A → Bool) (xs : List A) (r : A) → p r ≡ false → keep p (xs ++ r ∷ []) ≡ keep p xs
  keep-append_skip p [] r h = rw h refl
  keep-append_skip p (x ∷ xs) r h = ground (arith, keep-append_skip p xs r h)

  pub keep-append_pass :
      (p : A → Bool) (xs : List A) (r : A)
      → p r ≡ true
      → keep p (xs ++ r ∷ []) ≡ keep p xs ++ r ∷ []
  keep-append_pass p [] r h = rw h refl
  keep-append_pass p (x ∷ xs) r h = ground (arith, keep-append_pass p xs r h)

  -- Two tests that agree where a third passes everything.
  pub keep_eq :
      (g p q : A → Bool) (xs : List A)
      → ((x : A) → g x ≡ true → p x ≡ q x)
      → all g xs ≡ true
      → keep p xs ≡ keep q xs
  keep_eq g p q [] h a = refl
  keep_eq g p q (x ∷ xs) h a = ground (arith, h x, a, keep_eq g p q xs h)
