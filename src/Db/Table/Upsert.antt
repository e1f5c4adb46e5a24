-- ===== src/Db/Table/Upsert.antt =====
-- What an UPDATE, or an INSERT where no row was found, leaves to be read: the repositories of src/db
-- that look a key up before they write it.
use saros.Base.{
  ◌≤◌, map, ◌&&◌, keep-append_skip, keep-append_pass, length-keep, ◌≡◌, refl, ap, ◌∙◌, inl, inr,
  Bool, true, false, not, if◌then◌else◌, ltb, Option, some, List, [], ◌∷◌, ◌++◌, length, keep, all,
  all-append, ◌+◌, tally-append, tally, arith, Bool-cases,
}
use saros.Db.Table.{Table, IsRelational, updated, length_none}

module _ {Row : Type 0} where
  -- An UPDATE leaves the rows of another test alone.
  pub keep-updated_apart :
      (p q : Row → Bool) (f : Row → Row) (xs : List Row)
      → ((r : Row) → p r ≡ true → q r ≡ false)
      → ((r : Row) → q (f r) ≡ q r)
      → keep q (updated p f xs) ≡ keep q xs
  keep-updated_apart p q f [] apart same = refl
  keep-updated_apart p q f (x ∷ xs) apart same =
      ground (arith, keep-updated_apart p q f xs apart same, apart x, same x)

  pub updated_none :
      (p : Row → Bool) (f : Row → Row) (xs : List Row) → keep p xs ≡ [] → updated p f xs ≡ xs
  updated_none p f [] h = refl
  updated_none p f (x ∷ xs) h = elim (Bool-cases (p x)) [
    | inl e ↦ ground (arith, rw e at h)
    | inr e ↦ ground (arith, e, updated_none p f xs (rw e at h))
  ]

  -- The rows of a test that an UPDATE by the same test has changed.
  pub keep-updated_self :
      (p : Row → Bool) (f : Row → Row) (xs : List Row)
      → ((r : Row) → p (f r) ≡ p r)
      → keep p (updated p f xs) ≡ map f (keep p xs)
  keep-updated_self p f [] same = refl
  keep-updated_self p f (x ∷ xs) same = ground (arith, keep-updated_self p f xs same, same x)

  -- The rows after one or the other.
  abbrev pub upserted : (Row → Bool) → (Row → Row) → Row → List Row → List Row
  upserted p f new xs = if ltb 0 (length (keep p xs)) then updated p f xs else xs ++ new ∷ []

  abbrev pub upsert :
      (T : Table Row) → (Row → Bool) → (Row → Row) → Row → List Row → T.State → Option T.State
  upsert T p f new found t = if ltb 0 (length found) then T.update p f t else T.create new t

  pub rows-upsert :
      (T : Table Row) (law : IsRelational T) (p : Row → Bool) (f : Row → Row) (new : Row)
      (s t : T.State) (found : List Row)
      → found ≡ keep p (T.rows s)
      → upsert T p f new found s ≡ some t
      → T.rows t ≡ upserted p f new (T.rows s)
  rows-upsert T law p f new s t found e d = elim (Bool-cases (ltb 0 (length found))) [
    | inl there ↦ law.update_rows p f s t (rw there at d) ∙ rw (← e, there) refl
    | inr absent ↦ law.create_rows new s t (rw absent at d) ∙ rw (← e, absent) refl
  ]

  -- Rows that neither the changed ones nor the new one are among are left alone.
  pub keep-upserted_apart :
      (p q : Row → Bool) (f : Row → Row) (new : Row) (xs : List Row)
      → ((r : Row) → p r ≡ true → q r ≡ false)
      → ((r : Row) → q (f r) ≡ q r)
      → q new ≡ false
      → keep q (upserted p f new xs) ≡ keep q xs
  keep-upserted_apart p q f new xs apart same fresh =
      elim (Bool-cases (ltb 0 (length (keep p xs)))) [
        | inl there ↦ rw there (keep-updated_apart p q f xs apart same)
        | inr absent ↦ rw absent (keep-append_skip q xs new fresh)
      ]

  keep-updated_zero :
      (p : Row → Bool) (f : Row → Row) (xs : List Row)
      → tally p xs ≡ 0
      → keep p (updated p f xs) ≡ []
  keep-updated_zero p f [] h = refl
  keep-updated_zero p f (x ∷ xs) h = elim (Bool-cases (p x)) [
    | inl e ↦ absurd (omega (arith, rw e at h))
    | inr e ↦ ground (arith, e, keep-updated_zero p f xs (omega (arith, rw e at h)))
  ]

  keep-updated_one :
      (p : Row → Bool) (f : Row → Row) (new : Row) (xs : List Row)
      → tally p xs ≡ 1
      → p new ≡ true
      → ((r : Row) → p r ≡ true → f r ≡ new)
      → keep p (updated p f xs) ≡ new ∷ []
  keep-updated_one p f new [] h pass written = absurd (omega (arith, h))
  keep-updated_one p f new (x ∷ xs) h pass written = elim (Bool-cases (p x)) [
    | inl e ↦
        rw (e, written x e, pass)
          (ap (λ rest. new ∷ rest) (keep-updated_zero p f xs (omega (arith, rw e at h))))
    | inr e ↦ ground (arith, e, keep-updated_one p f new xs (omega (arith, rw e at h)) pass written)
  ]

  -- Where one row at most passes the test, and what is written is the new row, that row is the one
  -- that passes it afterwards.
  pub keep-upserted :
      (p : Row → Bool) (f : Row → Row) (new : Row) (xs : List Row)
      → tally p xs ≤ 1
      → p new ≡ true
      → ((r : Row) → p r ≡ true → f r ≡ new)
      → keep p (upserted p f new xs) ≡ new ∷ []
  keep-upserted p f new xs one pass written = elim (Bool-cases (ltb 0 (length (keep p xs)))) [
    | inl there ↦
        rw there
          (keep-updated_one p f new xs (ground (arith, there, one, length-keep p xs)) pass written)
    | inr absent ↦ rw absent (
        keep-append_pass p xs new pass
        ∙ ap (λ rest. rest ++ new ∷ []) (length_none (keep p xs) absent))
  ]

  all-updated :
      (q p : Row → Bool) (f : Row → Row) (xs : List Row)
      → ((r : Row) → q (f r) ≡ q r)
      → all q xs ≡ true
      → all q (updated p f xs) ≡ true
  all-updated q p f [] same h = refl
  all-updated q p f (x ∷ xs) same h = ground (arith, h, same x, all-updated q p f xs same)

  pub all-upserted :
      (q p : Row → Bool) (f : Row → Row) (new : Row) (xs : List Row)
      → ((r : Row) → q (f r) ≡ q r)
      → q new ≡ true
      → all q xs ≡ true
      → all q (upserted p f new xs) ≡ true
  all-upserted q p f new xs same fresh h = elim (Bool-cases (ltb 0 (length (keep p xs)))) [
    | inl there ↦ rw there (all-updated q p f xs same h)
    | inr absent ↦ rw absent (ground (arith, all-append q xs (new ∷ []), h, fresh))
  ]

  tally-updated-le :
      (q p : Row → Bool) (f : Row → Row) (xs : List Row)
      → tally q (updated p f xs) ≤ tally q xs + tally p xs
  tally-updated-le q p f [] = omega arith
  tally-updated-le q p f (x ∷ xs) = ground (arith, tally-updated-le q p f xs)

  pub tally-upserted-le :
      (q p : Row → Bool) (f : Row → Row) (new : Row) (xs : List Row)
      → tally p xs ≤ 1
      → tally q (upserted p f new xs) ≤ tally q xs + 1
  tally-upserted-le q p f new xs one = elim (Bool-cases (ltb 0 (length (keep p xs)))) [
    | inl there ↦ rw there (omega (arith, tally-updated-le q p f xs, one))
    | inr absent ↦ rw absent (ground (arith, tally-append q xs (new ∷ [])))
  ]

  -- How many pass a test after an UPDATE: at most those it picks, and the others that did.
  pub tally-updated-split :
      (q p : Row → Bool) (f : Row → Row) (xs : List Row)
      → tally q (updated p f xs) ≤ tally p xs + tally (λ r. q r && not (p r)) xs
  tally-updated-split q p f [] = omega arith
  tally-updated-split q p f (x ∷ xs) = ground (arith, tally-updated-split q p f xs)

  pub tally-updated_less :
      (q p : Row → Bool) (f : Row → Row) (xs : List Row)
      → ((r : Row) → q (f r) ≡ true → q r ≡ true)
      → tally q (updated p f xs) ≤ tally q xs
  tally-updated_less q p f [] less = omega arith
  tally-updated_less q p f (x ∷ xs) less = ground (arith, tally-updated_less q p f xs less, less x)
