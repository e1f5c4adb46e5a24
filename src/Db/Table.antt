-- ===== src/Db/Table.antt =====
-- A table of the SQLite database that src/db drives through Toasty, which is no part of this
-- repository: the statements that src/db makes, each of which may fail, and what they are
-- documented to do. Every repository of src/db is a client of this interface.
pub mod Upsert
use saros.Base.{
  ℕ, ◌≡◌, refl, ◌+◌, ◌%◌, ◌^◌, Bool, true, false, not, if◌then◌else◌, Option, some, List, [], ◌∷◌,
  ◌++◌, map, keep, length, arith, ltb, Bool-cases, inl, inr,
}

pub data DbError : Type 0 where
  sql json io internal : DbError
  unknown_version : ℕ → DbError

-- `rows` is the content of a state, which only laws speak of. The other fields answer none, and
-- leave the state as it was, where the statement fails.
pub record Table (Row : Type 0) : Type 1 where
  pub State : Type 0
  pub rows : State → List Row
  pub select : (Row → Bool) → State → Option (List Row)
  pub create : Row → State → Option State
  pub update : (Row → Bool) → (Row → Row) → State → Option State
  pub delete : (Row → Bool) → State → Option State

-- UPDATE on a list of rows.
abbrev pub updated : {Row : Type 0} → (Row → Bool) → (Row → Row) → List Row → List Row
updated p f = map (λ r. if p r then f r else r)

-- DELETE on a list of rows.
abbrev pub deleted : {Row : Type 0} → (Row → Bool) → List Row → List Row
deleted p = keep (λ r. not (p r))

-- What a statement does that does not fail.
pub record IsRelational {Row : Type 0} (T : Table Row) : Type 0 where
  pub select_rows :
      (p : Row → Bool) (s : T.State) (rs : List Row)
      → T.select p s ≡ some rs
      → rs ≡ keep p (T.rows s)
  pub create_rows :
      (r : Row) (s t : T.State) → T.create r s ≡ some t → T.rows t ≡ T.rows s ++ r ∷ []
  pub update_rows :
      (p : Row → Bool) (f : Row → Row) (s t : T.State)
      → T.update p f s ≡ some t
      → T.rows t ≡ updated p f (T.rows s)
  pub delete_rows :
      (p : Row → Bool) (s t : T.State) → T.delete p s ≡ some t → T.rows t ≡ deleted p (T.rows s)

-- A repository: its table, and the generation counter of its watch topic.
pub record Repo {Row : Type 0} (T : Table Row) : Type 0 where
  pub table : T.State
  pub generation : ℕ

-- Notifier::bump
abbrev pub bump : {Row : Type 0} {T : Table Row} → Repo T → Repo T
bump r = record r { generation = (r.generation + 1) % 2 ^ 64 }

module _ {Row : Type 0} where
  pub keep-deleted : (p : Row → Bool) (xs : List Row) → keep p (deleted p xs) ≡ []
  keep-deleted p [] = refl
  keep-deleted p (x ∷ xs) = ground (arith, keep-deleted p xs)

  pub deleted-none : (p : Row → Bool) (xs : List Row) → keep p xs ≡ [] → deleted p xs ≡ xs
  deleted-none p [] h = refl
  deleted-none p (x ∷ xs) h = elim (Bool-cases (p x)) [
    | inl e ↦ ground (arith, rw e at h)
    | inr e ↦ ground (arith, e, deleted-none p xs (rw e at h))
  ]

  pub length_none : (xs : List Row) → ltb 0 (length xs) ≡ false → xs ≡ []
  length_none [] h = refl
  length_none (x ∷ xs) h = ground (arith, h)

  -- A DELETE leaves what another test picks, where no row passes both.
  pub keep-deleted_apart :
      (p q : Row → Bool) (xs : List Row)
      → ((r : Row) → p r ≡ true → q r ≡ false)
      → keep q (deleted p xs) ≡ keep q xs
  keep-deleted_apart p q [] h = refl
  keep-deleted_apart p q (x ∷ xs) h = ground (arith, keep-deleted_apart p q xs h, h x)

  pub keep-deleted_comm :
      (p q : Row → Bool) (xs : List Row) → keep q (deleted p xs) ≡ deleted p (keep q xs)
  keep-deleted_comm p q [] = refl
  keep-deleted_comm p q (x ∷ xs) = ground (arith, keep-deleted_comm p q xs)

  -- An UPDATE that keeps what a test reads.
  pub keep-updated :
      (p q : Row → Bool) (f : Row → Row) (xs : List Row)
      → ((r : Row) → q (f r) ≡ q r)
      → keep q (updated p f xs) ≡ updated p f (keep q xs)
  keep-updated p q f [] h = refl
  keep-updated p q f (x ∷ xs) h = ground (arith, keep-updated p q f xs h, h x)

  pub length-updated :
      (p : Row → Bool) (f : Row → Row) (xs : List Row) → length (updated p f xs) ≡ length xs
  length-updated p f [] = refl
  length-updated p f (x ∷ xs) = ground (arith, length-updated p f xs)

-- A table kept in memory, on which no statement fails.
abbrev pub in_memory : (Row : Type 0) → Table Row
in_memory Row = record {
  State = List Row;
  rows = λ s. s;
  select = λ p s. some (keep p s);
  create = λ r s. some (s ++ r ∷ []);
  update = λ p f s. some (updated p f s);
  delete = λ p s. some (deleted p s);
}
