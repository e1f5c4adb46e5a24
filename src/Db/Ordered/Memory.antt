-- ===== src/Db/Ordered/Memory.antt =====
-- A table kept in memory whose ordered statement sorts, and that picks the next key.
use saros.Base.{
  ℕ, suc, zero, ◌+◌, ◌≤◌, ◌≡◌, refl, sym, subst, ◌∙◌, ◌⊎◌, inl, inr, Bool, true, false, ◌&&◌,
  if◌then◌else◌, ltb, some, List, [], ◌∷◌, ◌++◌, length, take, all, tally, keep, arith, all_implied,
  length-take-le, Bool-cases,
}
use saros.Db.Table.{IsRelational, in_memory}
use saros.Db.Ordered.{Order, asc, desc, precedes, is_sorted, IsFirst, Ordered, Keyed}
use saros.Db.Ordered.Laws.{IsOrdered, IsKeyed}

module _ {Row : Type 0} (o : Order) (key : Row → ℕ) where
  abbrev insert_row : Row → List Row → List Row
  insert_row r [] = r ∷ []
  insert_row r (x ∷ xs) =
      let rest = insert_row r xs in if precedes o key r x then r ∷ x ∷ xs else x ∷ rest

  abbrev sort_rows : List Row → List Row
  sort_rows [] = []
  sort_rows (x ∷ xs) = insert_row x (sort_rows xs)

  tally-insert_row :
      (q : Row → Bool) (r : Row) (xs : List Row) → tally q (insert_row r xs) ≡ tally q (r ∷ xs)
  tally-insert_row q r [] = refl
  tally-insert_row q r (x ∷ xs) = ground (arith, tally-insert_row q r xs)

  tally-sort_rows : (q : Row → Bool) (xs : List Row) → tally q (sort_rows xs) ≡ tally q xs
  tally-sort_rows q [] = refl
  tally-sort_rows q (x ∷ xs) =
      omega (arith, tally-insert_row q x (sort_rows xs), tally-sort_rows q xs)

  all-insert_row :
      (q : Row → Bool) (r : Row) (xs : List Row)
      → q r ≡ true
      → all q xs ≡ true
      → all q (insert_row r xs) ≡ true
  all-insert_row q r [] h a = ground (arith, h)
  all-insert_row q r (x ∷ xs) h a = ground (arith, h, a, all-insert_row q r xs)

precedes_trans :
    {Row : Type 0} (o : Order) (key : Row → ℕ) (a b c : Row)
    → precedes o key a b ≡ true
    → precedes o key b c ≡ true
    → precedes o key a c ≡ true
precedes_trans asc key a b c h g = ground (arith, h, g)
precedes_trans desc key a b c h g = ground (arith, h, g)

precedes_total :
    {Row : Type 0} (o : Order) (key : Row → ℕ) (a b : Row)
    → precedes o key a b ≡ false
    → precedes o key b a ≡ true
precedes_total asc key a b h = ground (arith, h)
precedes_total desc key a b h = ground (arith, h)

module _ {Row : Type 0} (o : Order) (key : Row → ℕ) where
  is_sorted-insert_row :
      (r : Row) (xs : List Row)
      → is_sorted (precedes o key) xs ≡ true
      → is_sorted (precedes o key) (insert_row o key r xs) ≡ true
  is_sorted-insert_row r [] h = refl
  is_sorted-insert_row r (x ∷ xs) h = elim (Bool-cases (precedes o key r x)) [
    | inl e ↦ rw e (
        ground (
          arith,
          h,
          e,
          all_implied (precedes o key x) (precedes o key r) xs
              (λ y g. precedes_trans o key r x y e g),
        ))
    | inr e ↦ rw e (
        ground (
          arith,
          h,
          is_sorted-insert_row r xs,
          all-insert_row o key (precedes o key x) r xs (precedes_total o key r x e),
        ))
  ]

  is_sorted-sort_rows : (xs : List Row) → is_sorted (precedes o key) (sort_rows o key xs) ≡ true
  is_sorted-sort_rows [] = refl
  is_sorted-sort_rows (x ∷ xs) =
      is_sorted-insert_row x (sort_rows o key xs) (is_sorted-sort_rows xs)

  abbrev drop : ℕ → List Row → List Row
  drop zero xs = xs
  drop (suc n) [] = []
  drop (suc n) (x ∷ xs) = drop n xs

  tally-take :
      (q : Row → Bool) (n : ℕ) (xs : List Row)
      → tally q xs ≡ tally q (take n xs) + tally q (drop n xs)
  tally-take q zero xs = omega arith
  tally-take q (suc n) [] = refl
  tally-take q (suc n) (x ∷ xs) = omega (arith, tally-take q n xs)

  all-take : (q : Row → Bool) (n : ℕ) (xs : List Row) → all q xs ≡ true → all q (take n xs) ≡ true
  all-take q zero xs h = refl
  all-take q (suc n) [] h = refl
  all-take q (suc n) (x ∷ xs) h = ground (arith, h, all-take q n xs)

  all-drop : (q : Row → Bool) (n : ℕ) (xs : List Row) → all q xs ≡ true → all q (drop n xs) ≡ true
  all-drop q zero xs h = h
  all-drop q (suc n) [] h = refl
  all-drop q (suc n) (x ∷ xs) h = all-drop q n xs (ground (arith, h))

  is_sorted-take :
      (n : ℕ) (xs : List Row)
      → is_sorted (precedes o key) xs ≡ true
      → is_sorted (precedes o key) (take n xs) ≡ true
  is_sorted-take zero xs h = refl
  is_sorted-take (suc n) [] h = refl
  is_sorted-take (suc n) (x ∷ xs) h =
      ground (arith, h, is_sorted-take n xs, all-take (precedes o key x) n xs)

  all_both :
      (p q : Row → Bool) (xs : List Row)
      → all p xs ≡ true
      → all q xs ≡ true
      → all (λ x. p x && q x) xs ≡ true
  all_both p q [] h g = refl
  all_both p q (x ∷ xs) h g = ground (arith, h, g, all_both p q xs)

  all-true : (xs : List Row) → all (λ x. true) xs ≡ true
  all-true [] = refl
  all-true (x ∷ xs) = all-true xs

  take_earlier :
      (n : ℕ) (xs : List Row)
      → is_sorted (precedes o key) xs ≡ true
      → all (λ s. all (λ r. precedes o key r s) (take n xs)) (drop n xs) ≡ true
  take_earlier zero xs h = all-true xs
  take_earlier (suc n) [] h = refl
  take_earlier (suc n) (x ∷ xs) h =
      all_both (precedes o key x) (λ s. all (λ r. precedes o key r s) (take n xs)) (drop n xs)
        (all-drop (precedes o key x) n xs (ground (arith, h)))
        (take_earlier n xs (ground (arith, h)))

  length-take_full : (n : ℕ) (xs : List Row) → (length (take n xs) ≡ n) ⊎ (drop n xs ≡ [])
  length-take_full zero xs = inl refl
  length-take_full (suc n) [] = inr refl
  length-take_full (suc n) (x ∷ xs) = elim (length-take_full n xs) [
    | inl e ↦ inl (omega (arith, e))
    | inr e ↦ inr e
  ]

  pub IsFirst-sort_rows :
      (n : ℕ) (xs : List Row) → IsFirst (precedes o key) n xs (take n (sort_rows o key xs))
  IsFirst-sort_rows n xs = record {
    rest = drop n (sort_rows o key xs);
    split = λ q. sym (tally-sort_rows o key q xs) ∙ tally-take q n (sort_rows o key xs);
    sorted = is_sorted-take n (sort_rows o key xs) (is_sorted-sort_rows xs);
    earlier = take_earlier n (sort_rows o key xs) (is_sorted-sort_rows xs);
    bounded = length-take-le n (sort_rows o key xs);
    full = length-take_full n (sort_rows o key xs);
  }

abbrev pub sorting : (Row : Type 0) → Ordered (in_memory Row)
sorting Row = record {
  all_rows = λ p o key s. some (take (length (keep p s)) (sort_rows o key (keep p s)));
  first_rows = λ p o key n s. some (take n (sort_rows o key (keep p s)));
}

-- One more than the largest key.
abbrev pub next_key : {Row : Type 0} → (Row → ℕ) → List Row → ℕ
next_key key [] = 1
next_key key (x ∷ xs) = let k = next_key key xs in if ltb (key x) k then k else key x + 1

abbrev pub counting : (Row : Type 0) → (Row → ℕ) → Keyed (in_memory Row)
counting Row key = record { insert = λ mk s. some (s ++ mk (next_key key s) ∷ []) }

keys_below_mono :
    {Row : Type 0} (key : Row → ℕ) (k m : ℕ) (xs : List Row)
    → k ≤ m
    → all (λ r. ltb (key r) k) xs ≡ true
    → all (λ r. ltb (key r) m) xs ≡ true
keys_below_mono key k m xs h =
    all_implied (λ r. ltb (key r) k) (λ r. ltb (key r) m) xs (λ r g. ground (arith, h, g))

next_key_fresh :
    {Row : Type 0} (key : Row → ℕ) (xs : List Row)
    → (all (λ r. ltb (key r) (next_key key xs)) xs ≡ true) × (1 ≤ next_key key xs)
next_key_fresh key [] = (refl, omega arith)
next_key_fresh {Row} key (x ∷ xs) = elim (Bool-cases (ltb (key x) (next_key key xs))) [
  | inl e ↦
      let same : next_key key (x ∷ xs) ≡ next_key key xs = rw e refl in
      subst (λ k. (all (λ r. ltb (key r) k) (x ∷ xs) ≡ true) × (1 ≤ k)) (sym same)
        (ground (arith, e, (next_key_fresh key xs).0), (next_key_fresh key xs).1)
  | inr e ↦
      let same : next_key key (x ∷ xs) ≡ key x + 1 = rw e refl in
      subst (λ k. (all (λ r. ltb (key r) k) (x ∷ xs) ≡ true) × (1 ≤ k)) (sym same)
        (
          ground (
            arith,
            keys_below_mono key (next_key key xs) (key x + 1) xs (ground (arith, e))
                (next_key_fresh key xs).0,
          ),
          omega arith,
        )
]

module _ (Row : Type 0) where
  pub sorting-IsOrdered : IsOrdered (in_memory Row) (sorting Row)
  sorting-IsOrdered = record {
    all_of = λ p o key t rs h.
        subst (IsFirst (precedes o key) (length (keep p t)) (keep p t)) (some_path h)
          (IsFirst-sort_rows o key (length (keep p t)) (keep p t));
    first_of = λ p o key n t rs h.
        subst (IsFirst (precedes o key) n (keep p t)) (some_path h)
          (IsFirst-sort_rows o key n (keep p t));
  }
    where
      some_path : {A : Type 0} {a b : A} → some a ≡ some b → a ≡ b
      some_path g = cc

  pub counting-IsKeyed : (key : Row → ℕ) → IsKeyed (in_memory Row) (counting Row key) key
  counting-IsKeyed key = record {
    inserted = λ mk t t' h.
        (next_key key t, sym (some_path h), (next_key_fresh key t).0, (next_key_fresh key t).1);
  }
    where
      some_path : {A : Type 0} {a b : A} → some a ≡ some b → a ≡ b
      some_path g = cc

pub in_memory-IsRelational : (Row : Type 0) → IsRelational (in_memory Row)
in_memory-IsRelational Row = record {
  select_rows = λ p s rs e. cc;
  create_rows = λ r s t e. cc;
  update_rows = λ p f s t e. cc;
  delete_rows = λ p s t e. cc;
}
