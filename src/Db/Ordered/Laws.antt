-- ===== src/Db/Ordered/Laws.antt =====
-- What the trim at the end of an append makes of a table, where the ordered statement answers the
-- first rows it was asked for.
use saros.Base.{
  ℕ, ◌+◌, ◌-◌, ◌≤◌, ◌<◌, ◌≡◌, refl, sym, ap, ◌∙◌, ◌⊎◌, inl, inr, Bool, true, false, not, ◌&&◌, leb,
  ltb, some, List, [], ◌∷◌, ◌++◌, length, all, last, tally, keep, arith, Option-cases, Bool-cases,
  tally-true, tally-keep, tally-le-length, tally_none, tally-all, tally-last, all-last, all_implied,
  length-keep, some-last, subst, tally_same, keep-append,
}
use saros.Db.Table.{Table, IsRelational, deleted, keep-deleted_apart}
use saros.Db.Ordered.{Order, asc, precedes, is_sorted, IsFirst, Ordered, Keyed, delete_upto, trim}

-- What an ordered statement does that does not fail.
pub record IsOrdered {Row : Type 0} (T : Table Row) (O : Ordered T) : Type 0 where
  pub all_of :
      (p : Row → Bool) (o : Order) (key : Row → ℕ) (t : T.State) (rs : List Row)
      → O.all_rows p o key t ≡ some rs
      → IsFirst (precedes o key) (length (keep p (T.rows t))) (keep p (T.rows t)) rs
  pub first_of :
      (p : Row → Bool) (o : Order) (key : Row → ℕ) (n : ℕ) (t : T.State) (rs : List Row)
      → O.first_rows p o key n t ≡ some rs
      → IsFirst (precedes o key) n (keep p (T.rows t)) rs

-- A key that the database picks is not 0, and above all that are there.
pub record IsKeyed {Row : Type 0} (T : Table Row) (K : Keyed T) (key : Row → ℕ) : Type 0 where
  pub inserted :
      (mk : ℕ → Row) (t t' : T.State)
      → K.insert mk t ≡ some t'
      → (k : ℕ) × (T.rows t' ≡ T.rows t ++ mk k ∷ [])
        × (all (λ r. ltb (key r) k) (T.rows t) ≡ true)
        × (1 ≤ k)

module _ {Row : Type 0} (key : Row → ℕ) where
  pub sorted-last :
      (rs : List Row) (l : Row)
      → is_sorted (precedes asc key) rs ≡ true
      → last rs ≡ some l
      → all (λ r. leb (key r) (key l)) rs ≡ true
  sorted-last [] l h e = refl
  sorted-last (r ∷ []) l h e = ground (arith, ap key (some_path e))
    where
      some_path : {a b : Row} → some a ≡ some b → a ≡ b
      some_path g = cc
  sorted-last (r ∷ q ∷ rs) l h e =
      ground (arith, h, sorted-last (q ∷ rs) l, e, all-last (precedes asc key r) (q ∷ rs) l)

  -- The first rows of an order, as many as there are too many.
  module _ (cap : ℕ) (xs rs : List Row) (f : IsFirst (precedes asc key) (length xs - cap) xs rs)
      (over : ltb cap (length xs) ≡ true) where
    pub length-split : length xs ≡ length rs + length f.rest
    length-split =
        sym (tally-true xs) ∙ f.split (λ r. true) ∙ omega (arith, tally-true rs, tally-true f.rest)

    pub length-rest : length f.rest ≡ cap
    length-rest = elim f.full [
      | inl e ↦ ground (arith, e, length-split, over)
      | inr e ↦ ground (arith, ap length e, length-split, over, f.bounded)
    ]

    pub oldest-last : (l : Row) × (last rs ≡ some l)
    oldest-last = some-last rs (ground (arith, length-split, length-rest, over))

    -- The deletion up to the last of these leaves as many as the cap.
    pub tally-newer : (l : Row) → last rs ≡ some l → tally (λ r. not (leb (key r) (key l))) xs ≤ cap
    tally-newer l e = omega (
      arith,
      f.split (λ r. not (leb (key r) (key l))),
      tally_none (λ r. not (leb (key r) (key l))) (λ r. leb (key r) (key l)) rs (λ r h. rw h refl)
          (sorted-last rs l f.sorted e),
      tally-le-length (λ r. not (leb (key r) (key l))) f.rest,
      length-rest,
    )

    -- Where no more rows than the cap have a key of `k` or more, the last of these has a smaller one.
    pub key-oldest :
        (k : ℕ) (l : Row) → last rs ≡ some l → tally (λ r. leb k (key r)) xs ≤ cap → key l < k
    key-oldest k l e few = elim (Bool-cases (leb k (key l))) [
      | inr small ↦ ground (arith, small)
      | inl large ↦
          let newer : all (λ s. leb k (key s)) f.rest ≡ true =
            all_implied (λ s. all (λ r. leb (key r) (key s)) rs) (λ s. leb k (key s)) f.rest
              (λ s a. ground (arith, large, all-last (λ r. leb (key r) (key s)) rs l a e))
              f.earlier in
          absurd (
            omega (
              arith,
              few,
              f.split (λ r. leb k (key r)),
              length-rest,
              tally-all (λ r. leb k (key r)) (λ r. leb k (key r)) f.rest (λ r h. h) newer,
              tally-last (λ r. leb k (key r)) rs l e large,
            ))
    ]

module _ {Row : Type 0} (T : Table Row) (O : Ordered T) (law : IsRelational T)
    (order : IsOrdered T O) (p : Row → Bool) (key : Row → ℕ) (cap : ℕ) where
  -- What a trim leaves: everything, where that is within the cap, or all but the rows of the test
  -- up to a key, the largest of the first ones too many.
  abbrev pub Trimmed : T.State → T.State → Type 0
  Trimmed t t' =
      ((T.rows t' ≡ T.rows t) × (tally p (T.rows t) ≤ cap))
      ⊎ ((l : Row) × (T.rows t' ≡ deleted (λ r. p r && leb (key r) (key l)) (T.rows t))
          × (tally (λ r. not (leb (key r) (key l))) (keep p (T.rows t)) ≤ cap)
          × ((k : ℕ) → tally (λ r. leb k (key r)) (keep p (T.rows t)) ≤ cap → key l < k))

  some_path : {a b : T.State} → some a ≡ some b → a ≡ b
  some_path g = cc

  trim_first :
      (t t' : T.State) (rs : List Row)
      → IsFirst (precedes asc key) (length (keep p (T.rows t)) - cap) (keep p (T.rows t)) rs
      → ltb cap (length (keep p (T.rows t))) ≡ true
      → delete_upto T O p key (last rs) t ≡ some t'
      → Trimmed t t'
  unfolding delete_upto
  trim_first t t' rs f over d =
      let (l, e) = oldest-last key cap (keep p (T.rows t)) rs f over in
      inr (
        l,
        law.delete_rows (λ r. p r && leb (key r) (key l)) t t' (rw (e, delete_upto) at d),
        tally-newer key cap (keep p (T.rows t)) rs f over l e,
        λ k few. key-oldest key cap (keep p (T.rows t)) rs f over k l e few,
      )

  pub trim-cases : (t t' : T.State) → trim T O p key cap t ≡ some t' → Trimmed t t'
  unfolding trim
  trim-cases t t' d = elim (Option-cases (T.select p t)) [
    | inl e ↦ cc (rw (e, trim) at d)
    | inr (xs, e) ↦
        let found = law.select_rows p t xs e in
        elim (Bool-cases (ltb cap (length xs))) [
          | inr within ↦ inl (
            ap T.rows (some_path (sym (rw (e, within, trim) at d))),
            ground (arith, within, length-keep p (T.rows t), ap length found),
          )
          | inl over ↦ elim (Option-cases (O.first_rows p asc key (length xs - cap) t)) [
            | inl n ↦ cc (rw (e, over, n, trim) at d)
            | inr (rs, o) ↦
                trim_first t t' rs
                  (subst (λ ys. IsFirst (precedes asc key) (length ys - cap) (keep p (T.rows t)) rs)
                    found (order.first_of p asc key (length xs - cap) t rs o))
                  (rw found at over) (rw (e, over, o, trim) at d)
          ]
        ]
  ]

  -- After a trim that succeeds, no more than the cap pass the test.
  pub tally-trim : (t t' : T.State) → trim T O p key cap t ≡ some t' → tally p (T.rows t') ≤ cap
  tally-trim t t' d = elim (trim-cases t t' d) [
    | inl (same, within) ↦ omega (arith, ap (tally p) same, within)
    | inr (l, rows, few, _) ↦ omega (
      arith,
      ap (tally p) rows,
      tally-keep (λ r. not (p r && leb (key r) (key l))) p (T.rows t),
      tally-keep p (λ r. not (leb (key r) (key l))) (T.rows t),
      tally_same (λ r. not (p r && leb (key r) (key l)) && p r)
          (λ r. p r && not (leb (key r) (key l))) (T.rows t) (λ r. ground arith),
      few,
    )
  ]

  -- Rows that do not pass the test are left alone.
  pub keep-trim :
      (q : Row → Bool) (t t' : T.State)
      → ((r : Row) → p r ≡ true → q r ≡ false)
      → trim T O p key cap t ≡ some t'
      → keep q (T.rows t') ≡ keep q (T.rows t)
  keep-trim q t t' apart d = elim (trim-cases t t' d) [
    | inl (same, within) ↦ ap (keep q) same
    | inr (l, rows, few, _) ↦
        ap (keep q) rows
        ∙ keep-deleted_apart (λ r. p r && leb (key r) (key l)) q (T.rows t)
            (λ r h. ground (arith, h, apart r))
  ]

  -- Of the rows that pass it, the newest stay: all with a key of `k` or more, where they are within
  -- the cap.
  pub keep-trim_newest :
      (k : ℕ) (t t' : T.State)
      → trim T O p key cap t ≡ some t'
      → tally (λ r. p r && leb k (key r)) (T.rows t) ≤ cap
      → keep (λ r. p r && leb k (key r)) (T.rows t') ≡ keep (λ r. p r && leb k (key r)) (T.rows t)
  keep-trim_newest k t t' d few = elim (trim-cases t t' d) [
    | inl (same, within) ↦ ap (keep (λ r. p r && leb k (key r))) same
    | inr (l, rows, _, newest) ↦
        let small = newest k (omega (arith, few, tally-keep p (λ r. leb k (key r)) (T.rows t))) in
        ap (keep (λ r. p r && leb k (key r))) rows
        ∙ keep-deleted_apart (λ r. p r && leb (key r) (key l)) (λ r. p r && leb k (key r))
            (T.rows t) (λ r h. ground (arith, h, small))
  ]

module _ {Row : Type 0} (key : Row → ℕ) where
  keep_below :
      (p : Row → Bool) (k : ℕ) (xs : List Row)
      → all (λ r. ltb (key r) k) xs ≡ true
      → keep (λ r. p r && leb k (key r)) xs ≡ []
  keep_below p k [] h = refl
  keep_below p k (x ∷ xs) h = ground (arith, h, keep_below p k xs)

  -- A row with a key above all others is the newest.
  pub keep-newest :
      (p : Row → Bool) (k : ℕ) (xs : List Row) (r : Row)
      → all (λ q. ltb (key q) k) xs ≡ true
      → p r ≡ true
      → key r ≡ k
      → keep (λ q. p q && leb k (key q)) (xs ++ r ∷ []) ≡ r ∷ []
  keep-newest p k xs r low h e =
      keep-append (λ q. p q && leb k (key q)) xs (r ∷ [])
      ∙ rw (keep_below p k xs low, h, e) (ground arith)

module _ {Row : Type 0} (T : Table Row) (O : Ordered T) (law : IsRelational T)
    (order : IsOrdered T O) (p : Row → Bool) (key : Row → ℕ) (cap : ℕ) where
  -- A row that has just been inserted is left by the trim, and no other has a key as large.
  pub inserted-kept :
      (xs : List Row) (r : Row) (u t' : T.State)
      → 1 ≤ cap
      → T.rows u ≡ xs ++ r ∷ []
      → all (λ q. ltb (key q) (key r)) xs ≡ true
      → p r ≡ true
      → trim T O p key cap u ≡ some t'
      → keep (λ q. p q && leb (key r) (key q)) (T.rows t') ≡ r ∷ []
  inserted-kept xs r u t' room rows low pass d =
      let one =
        ap (keep (λ q. p q && leb (key r) (key q))) rows
        ∙ keep-newest key p (key r) xs r low pass refl in
      keep-trim_newest T O law order p key cap (key r) u t' d (
        omega
          (arith, room, length-keep (λ q. p q && leb (key r) (key q)) (T.rows u), ap length one))
      ∙ one
