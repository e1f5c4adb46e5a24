-- ===== src/Base/Map.antt =====
-- BTreeMap and HashMap as association lists over a decided equality of keys. An insertion keeps the
-- place of a key that is there and puts a new key last.
use mathlib.Core.Path.{◌≡◌, refl}
use mathlib.Core.Logic.{ite, ◌⊎◌}
use mathlib.Core.Bool.{Bool, true, false}
use mathlib.Core.List.{List, [], ◌∷◌, map}
use mathlib.Core.Option.{Option, none, some}
use Prim.Native.Nat.{ℕ, ◌≤◌, ◌+◌}
use native.Mathlib.Omega.{arith}
use saros.Base.Tests.{if◌then◌else◌, is_some}
use saros.Base.Lists.{length, keep}

abbrev pub Map : Type 0 → Type 0 → Type 0
Map K V = List (K × V)

abbrev pub keys : {K V : Type 0} → Map K V → List K
keys = map (λ e. e.0)

abbrev pub values : {K V : Type 0} → Map K V → List V
values = map (λ e. e.1)

module _ {K V : Type 0} (dec : Discrete K) where
  unfoldable pub get : K → Map K V → Option V
  get k [] = none
  get k ((j, v) ∷ m) = ite (dec j k) (some v) (get k m)

  unfoldable pub insert : K → V → Map K V → Map K V
  insert k v [] = (k, v) ∷ []
  insert k v ((j, w) ∷ m) = ite (dec j k) ((j, v) ∷ m) ((j, w) ∷ insert k v m)

  unfoldable pub remove : K → Map K V → Map K V
  remove k [] = []
  remove k ((j, v) ∷ m) = let rest = remove k m in ite (dec j k) rest ((j, v) ∷ rest)

  abbrev pub contains_key : K → Map K V → Bool
  contains_key k m = is_some (get k m)

  pub get-insert :
      (k j : K) (v : V) (m : Map K V) → get j (insert k v m) ≡ ite (dec k j) (some v) (get j m)
  unfolding get insert
  get-insert k j v [] = ground arith
  get-insert k j v ((i, w) ∷ m) = ground (arith, get-insert k j v m)

  pub get-remove : (k j : K) (m : Map K V) → get j (remove k m) ≡ ite (dec k j) none (get j m)
  unfolding get remove
  get-remove k j [] = ground arith
  get-remove k j ((i, w) ∷ m) = ground (arith, get-remove k j m)

  pub get-insert_cases :
      (k j : K) (v w : V) (m : Map K V)
      → get j (insert k v m) ≡ some w
      → ((k ≡ j) × (v ≡ w)) ⊎ (get j m ≡ some w)
  get-insert_cases k j v w m h = ground (arith, get-insert k j v m)

  pub get-remove-some :
      (k j : K) (w : V) (m : Map K V) → get j (remove k m) ≡ some w → get j m ≡ some w
  get-remove-some k j w m h = ground (arith, get-remove k j m)

  pub get-insert_self : (k : K) (v : V) (m : Map K V) → get k (insert k v m) ≡ some v
  get-insert_self k v m = ground (arith, get-insert k k v m)

  pub get-remove_self : (k : K) (m : Map K V) → get k (remove k m) ≡ none
  get-remove_self k m = ground (arith, get-remove k k m)

  pub length-remove-le : (k : K) (m : Map K V) → length (remove k m) ≤ length m
  unfolding remove
  length-remove-le k [] = omega arith
  length-remove-le k ((j, v) ∷ m) = ground (arith, length-remove-le k m)

  pub length-insert-le : (k : K) (v : V) (m : Map K V) → length (insert k v m) ≤ length m + 1
  unfolding insert
  length-insert-le k v [] = omega arith
  length-insert-le k v ((j, w) ∷ m) = ground (arith, length-insert-le k v m)

-- HashMap::retain by a test of the value
abbrev pub retain : {K V : Type 0} → (V → Bool) → Map K V → Map K V
retain p = keep (λ e. p e.1)

-- An option that passes a test.
abbrev pub passing : {V : Type 0} → (V → Bool) → Option V → Option V
passing p none = none
passing p (some v) = if p v then some v else none

-- Each key stands once, as in a map it does. Insertions, removals and `retain` keep it so.
module _ {K V : Type 0} (dec : Discrete K) where
  abbrev pub Distinct : Map K V → Type 0
  Distinct [] = Unit {0}
  Distinct ((k, v) ∷ m) = (get dec k m ≡ none) × Distinct m

  pub Distinct-insert : (k : K) (v : V) (m : Map K V) → Distinct m → Distinct (insert dec k v m)
  unfolding insert get
  Distinct-insert k v [] d = (refl, tt)
  Distinct-insert k v ((j, w) ∷ m) d =
      ground (arith, Distinct-insert k v m d.1, get-insert dec k j v m)

  pub Distinct-remove : (k : K) (m : Map K V) → Distinct m → Distinct (remove dec k m)
  unfolding remove
  Distinct-remove k [] d = tt
  Distinct-remove k ((j, w) ∷ m) d = ground (arith, Distinct-remove k m d.1, get-remove dec k j m)

  pub get-retain :
      (p : V → Bool) (k : K) (m : Map K V)
      → Distinct m
      → get dec k (retain p m) ≡ passing p (get dec k m)
  unfolding get
  get-retain p k [] d = refl
  get-retain p k ((j, w) ∷ m) d = ground (arith, get-retain p k m d.1)

  pub Distinct-retain : (p : V → Bool) (m : Map K V) → Distinct m → Distinct (retain p m)
  Distinct-retain p [] d = tt
  Distinct-retain p ((j, w) ∷ m) d = ground (arith, Distinct-retain p m d.1, get-retain p j m d.1)

-- How many values pass a test, under the operations.
module _ {K V : Type 0} (dec : Discrete K) (p : V → Bool) where
  abbrev pub tally : Map K V → ℕ
  tally m = length (keep p (values m))

  pub tally-remove-le : (k : K) (m : Map K V) → tally (remove dec k m) ≤ tally m
  unfolding remove
  tally-remove-le k [] = omega arith
  tally-remove-le k ((j, v) ∷ m) = ground (arith, tally-remove-le k m)

  pub tally-insert-le : (k : K) (v : V) (m : Map K V) → tally (insert dec k v m) ≤ tally m + 1
  unfolding insert
  tally-insert-le k v [] = ground arith
  tally-insert-le k v ((j, w) ∷ m) = ground (arith, tally-insert-le k v m)

  pub tally-insert_other :
      (k : K) (v : V) (m : Map K V) → p v ≡ false → tally (insert dec k v m) ≤ tally m
  unfolding insert
  tally-insert_other k v [] h = ground arith
  tally-insert_other k v ((j, w) ∷ m) h = ground (arith, tally-insert_other k v m)

  pub tally-insert_replace :
      (k : K) (v w : V) (m : Map K V)
      → get dec k m ≡ some w
      → p w ≡ true
      → tally (insert dec k v m) ≤ tally m
  unfolding insert get
  tally-insert_replace k v w [] h q = cc
  tally-insert_replace k v w ((j, x) ∷ m) h q = ground (arith, tally-insert_replace k v w m)

pub ruleset map_laws = (get-insert, get-remove)
