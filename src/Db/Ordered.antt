-- ===== src/Db/Ordered.antt =====
-- `ORDER BY key ... LIMIT n` on a table of src/db, and the trim of the oldest rows beyond a cap, as
-- src/db/notifications.rs, src/db/audit.rs and src/db/stats.rs write it.
pub mod Laws
pub mod Memory
use saros.Base.{
  ℕ, suc, ◌+◌, ◌-◌, ◌^◌, ◌≤◌, ◌≡◌, ◌⊎◌, Bool, true, false, ◌&&◌, if◌then◌else◌, leb, ltb, Option,
  none, some, List, [], ◌∷◌, length, all, last, tally,
}
use saros.Db.Table.{Table}

pub data Order : Type 0 where
  asc desc : Order

module _ {Row : Type 0} where
  abbrev pub precedes : Order → (Row → ℕ) → Row → Row → Bool
  precedes asc key a b = leb (key a) (key b)
  precedes desc key a b = leb (key b) (key a)

  abbrev pub is_sorted : (Row → Row → Bool) → List Row → Bool
  is_sorted before [] = true
  is_sorted before (r ∷ rs) = all (before r) rs && is_sorted before rs

  -- The first `n` rows of some rows, in an order that does not decide between equal keys: the rows
  -- are split into these and a rest, as each test counts them.
  pub record IsFirst (before : Row → Row → Bool) (n : ℕ) (xs rs : List Row) : Type 0 where
    pub rest : List Row
    pub split : (q : Row → Bool) → tally q xs ≡ tally q rs + tally q rest
    pub sorted : is_sorted before rs ≡ true
    pub earlier : all (λ s. all (λ r. before r s) rs) rest ≡ true
    pub bounded : length rs ≤ n
    pub full : (length rs ≡ n) ⊎ (rest ≡ [])

-- The statements, without a limit and with one: none where they fail.
pub record Ordered {Row : Type 0} (T : Table Row) : Type 0 where
  pub all_rows : (Row → Bool) → Order → (Row → ℕ) → T.State → Option (List Row)
  pub first_rows : (Row → Bool) → Order → (Row → ℕ) → ℕ → T.State → Option (List Row)

-- INSERT of a row whose key the database picks.
pub record Keyed {Row : Type 0} (T : Table Row) : Type 0 where
  pub insert : (ℕ → Row) → T.State → Option T.State

-- clamp_limit of src/db/mod.rs
abbrev pub clamp_limit : ℕ → ℕ
clamp_limit limit = if leb limit (2 ^ 63 - 1) then limit else 2 ^ 63 - 1

module _ {Row : Type 0} (T : Table Row) (O : Ordered T) where
  -- The end of an append: where more than `cap` rows pass a test, as many of them as are too many
  -- are read, the ones with the smallest keys, and all up to the last of these are deleted.
  unfoldable pub delete_upto : (Row → Bool) → (Row → ℕ) → Option Row → T.State → Option T.State
  delete_upto p key none t = some t
  delete_upto p key (some row) t = T.delete (λ r. p r && leb (key r) (key row)) t

  unfoldable pub trim : (Row → Bool) → (Row → ℕ) → ℕ → T.State → Option T.State
  trim p key cap t = elim (T.select p t) [
    | none ↦ none
    | some rs ↦
        if ltb cap (length rs)
        then elim (O.first_rows p asc key (length rs - cap) t) [
          | none ↦ none
          | some oldest ↦ delete_upto p key (last oldest) t
        ]
        else some t
  ]
