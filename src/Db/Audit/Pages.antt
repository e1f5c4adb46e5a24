-- ===== src/Db/Audit/Pages.antt =====
-- Reading the audit trail of src/db/audit.rs page by page.
use saros.Base.{
  ℕ, ◌+◌, ◌^◌, ◌≡◌, ◌≤◌, ◌<◌, refl, sym, ap, inl, inr, Bool, true, ◌&&◌, ◌==◌, leb, ltb, Option,
  some, List, [], ◌∷◌, all, keep, last, tally, length, map, Text, Outcome, ok, arith, tally-keep,
  tally_none, all-last, all_implied, tally-last, some-last, tally_mono, Option-cases, Bool-cases,
}
use saros.Db.Table.{DbError, Table, IsRelational, Repo}
use saros.Db.Ordered.{desc, precedes, is_sorted, IsFirst, Ordered, clamp_limit}
use saros.Db.Ordered.Laws.{IsOrdered}
use saros.Db.Audit.{
  AuditRow, AuditRecord, row_seq, is_before, is_by, numbered, seq_of, next_cursor, page,
}

-- The page's last row has the smallest seq.
sorted-last :
    (rs : List AuditRow) (l : AuditRow)
    → is_sorted (precedes desc row_seq) rs ≡ true
    → last rs ≡ some l
    → all (λ r. leb l.seq r.seq) rs ≡ true
sorted-last [] l h e = refl
sorted-last (r ∷ []) l h e = ground (arith, ap row_seq (some_path e))
  where
    some_path : {a b : AuditRow} → some a ≡ some b → a ≡ b
    some_path g = cc
sorted-last (r ∷ q ∷ rs) l h e =
    ground (arith, h, sorted-last (q ∷ rs) l, e, all-last (precedes desc row_seq r) (q ∷ rs) l)

last-numbered :
    (rs : List AuditRow) (l : AuditRow) → last rs ≡ some l → seq_of (last (map numbered rs)) ≡ l.seq
last-numbered [] l h = cc
last-numbered (r ∷ []) l h = ground (arith, ap row_seq (some_path h))
  where
    some_path : {a b : AuditRow} → some a ≡ some b → a ≡ b
    some_path g = cc
last-numbered (r ∷ q ∷ rs) l h = last-numbered (q ∷ rs) l h

below_of :
    (k : ℕ) (xs : List AuditRow)
    → all (λ r. leb r.seq k) xs ≡ true
    → tally (λ r. r.seq == k) xs ≡ 0
    → all (λ r. ltb r.seq k) xs ≡ true
below_of k [] h n = refl
below_of k (x ∷ xs) h n = ground (arith, h, n, below_of k xs)

tally_passing :
    (p q : AuditRow → Bool) (xs : List AuditRow)
    → all p xs ≡ true
    → tally (λ r. p r && q r) xs ≡ tally q xs
tally_passing p q [] h = refl
tally_passing p q (x ∷ xs) h = ground (arith, h, tally_passing p q xs)

-- No two rows have the same seq.
abbrev pub AreUnique : List AuditRow → Type 0
AreUnique rows = (k : ℕ) → tally (λ r. r.seq == k) rows ≤ 1

module _ (n : ℕ) (xs rs : List AuditRow) (f : IsFirst (precedes desc row_seq) n xs rs)
    (l : AuditRow) (e : last rs ≡ some l) (unique : AreUnique xs) where
  -- The rows after the page are those below its last.
  rest_below : all (λ r. ltb r.seq l.seq) f.rest ≡ true
  rest_below =
      below_of l.seq f.rest
        (all_implied (λ s. all (λ r. leb s.seq r.seq) rs) (λ s. leb s.seq l.seq) f.rest
          (λ s a. all-last (λ r. leb s.seq r.seq) rs l a e) f.earlier)
        (omega (
          arith,
          unique l.seq,
          f.split (λ r. r.seq == l.seq),
          tally-last (λ r. r.seq == l.seq) rs l e (ground arith),
        ))

  tally-page :
      (q : AuditRow → Bool) → tally q xs ≡ tally q rs + tally (λ r. ltb r.seq l.seq && q r) xs
  tally-page q = omega (
    arith,
    f.split q,
    f.split (λ r. ltb r.seq l.seq && q r),
    tally_passing (λ r. ltb r.seq l.seq) q f.rest rest_below,
    tally_none (λ r. ltb r.seq l.seq && q r) (λ r. leb l.seq r.seq) rs (λ r h. ground (arith, h))
        (sorted-last rs l f.sorted e),
  )

tally-numbered :
    (q : ℕ → Bool) (rs : List AuditRow)
    → tally (λ (a : ℕ × AuditRecord). q a.0) (map numbered rs) ≡ tally (λ r. q r.seq) rs
tally-numbered q [] = refl
tally-numbered q (r ∷ rs) = ground (arith, tally-numbered q rs)

length-numbered : (rs : List AuditRow) → length (map numbered rs) ≡ length rs
length-numbered [] = refl
length-numbered (r ∷ rs) = omega (arith, length-numbered rs)

abbrev pub matching : ℕ → Option Text → AuditRow → Bool
matching before actor r = is_before before r && is_by actor r

module _ (T : Table AuditRow) (O : Ordered T) (law : IsRelational T) (order : IsOrdered T O) where
  page-IsFirst :
      (before limit : ℕ) (actor : Option Text) (s : Repo T) (out : List (ℕ × AuditRecord))
      (next : ℕ)
      → page T O before limit actor s ≡ ok (out, next)
      → (rs : List AuditRow) × IsFirst
          (precedes desc row_seq)
          (clamp_limit limit)
          (keep (matching before actor) (T.rows s.table))
          rs
        × (out ≡ map numbered rs)
        × (next ≡ next_cursor limit (map numbered rs))
  unfolding page
  page-IsFirst before limit actor s out next d =
      elim (Option-cases
        (O.first_rows (matching before actor) desc row_seq (clamp_limit limit) s.table)) [
          | inl n ↦ cc (rw (n, page) at d)
          | inr (rs, e) ↦
              let d' = some_ok (rw (e, page) at d) in
              (
                rs,
                order.first_of (matching before actor) desc row_seq (clamp_limit limit) s.table rs
                    e,
                sym (ap (λ a. a.0) d'),
                sym (ap (λ a. a.1) d'),
              )
        ]
    where
      some_ok : {A : Type 0} {a b : A} → Path (Outcome DbError A) (ok a) (ok b) → a ≡ b
      some_ok g = cc

  short_page :
      (limit : ℕ) (q : ℕ → Bool) (xs rs : List AuditRow)
      → limit < 2 ^ 63
      → ltb (length rs) limit ≡ true
      → IsFirst (precedes desc row_seq) (clamp_limit limit) xs rs
      → tally (λ r. q r.seq) xs ≡ tally (λ r. q r.seq) rs
  short_page limit q xs rs fits short f = elim f.full [
    | inl e ↦ absurd (ground (arith, e, short, fits))
    | inr e ↦ omega (arith, f.split (λ r. q r.seq), ap (tally (λ r. q r.seq)) e)
  ]

  none_below_0 : (q : ℕ → Bool) (xs : List AuditRow) → tally (λ r. ltb r.seq 0 && q r.seq) xs ≡ 0
  none_below_0 q [] = refl
  none_below_0 q (x ∷ xs) = ground (arith, none_below_0 q xs)

  all_above_0 : (out : List (ℕ × AuditRecord)) → all (λ a. leb 0 a.0) out ≡ true
  all_above_0 [] = refl
  all_above_0 (a ∷ out) = ground (arith, all_above_0 out)

  all-numbered :
      (k : ℕ) (rs : List AuditRow)
      → all (λ r. leb k r.seq) rs ≡ true
      → all (λ (a : ℕ × AuditRecord). leb k a.0) (map numbered rs) ≡ true
  all-numbered k [] h = refl
  all-numbered k (r ∷ rs) h = ground (arith, h, all-numbered k rs)

  -- What a page and its cursor are to the rows that were asked for.
  abbrev Splits : ℕ → (ℕ → Bool) → List AuditRow → List (ℕ × AuditRecord) → ℕ → Type 0
  Splits limit q xs out next =
      (length out ≤ limit)
      × (tally (λ r. q r.seq) xs
          ≡ tally (λ a. q a.0) out + tally (λ r. ltb r.seq next && q r.seq) xs)
      × (all (λ a. leb next a.0) out ≡ true)

  first-Splits :
      (limit : ℕ) (q : ℕ → Bool) (xs rs : List AuditRow)
      → 1 ≤ limit
      → limit < 2 ^ 63
      → AreUnique xs
      → IsFirst (precedes desc row_seq) (clamp_limit limit) xs rs
      → Splits limit q xs (map numbered rs) (next_cursor limit (map numbered rs))
  unfolding next_cursor
  first-Splits limit q xs rs some_limit fits unique f = elim (Bool-cases (ltb (length rs) limit)) [
    | inl short ↦
        rw (next_cursor, length-numbered rs, short)
          (
            ground (arith, short),
            omega (
              arith,
              short_page limit q xs rs fits short f,
              none_below_0 q xs,
              tally-numbered q rs,
            ),
            all_above_0 (map numbered rs),
          )
    | inr long ↦
        let (l, e) = some-last rs (ground (arith, long, some_limit)) in
        rw (next_cursor, length-numbered rs, long, last-numbered rs l e)
          (
            ground (arith, f.bounded, fits),
            omega (
              arith,
              tally-page (clamp_limit limit) xs rs f l e unique (λ r. q r.seq),
              tally-numbered q rs,
            ),
            all-numbered l.seq rs (sorted-last rs l f.sorted e),
          )
  ]

  -- Where seqs are unique, a page and what is left of the entries below its cursor are together all
  -- entries that were asked for: for each test of a seq they have as many that pass it, and the
  -- page has none below the cursor. Where the cursor is 0, nothing is left.
  pub page_lem :
      (before limit : ℕ) (actor : Option Text) (q : ℕ → Bool) (s : Repo T)
      (out : List (ℕ × AuditRecord)) (next : ℕ)
      → ((k : ℕ) → tally (λ r. r.seq == k) (T.rows s.table) ≤ 1)
      → 1 ≤ limit
      → limit < 2 ^ 63
      → page T O before limit actor s ≡ ok (out, next)
      → (length out ≤ limit)
        × (tally (λ r. q r.seq) (keep (matching before actor) (T.rows s.table))
            ≡ tally (λ a. q a.0) out
              + tally
                  (λ r. ltb r.seq next && q r.seq)
                  (keep (matching before actor) (T.rows s.table)))
        × (all (λ a. leb next a.0) out ≡ true)
  page_lem before limit actor q s out next unique some_limit fits d =
      let (rs, f, o, n) = page-IsFirst before limit actor s out next d in
      rw (o, n)
        (first-Splits limit q (keep (matching before actor) (T.rows s.table)) rs some_limit fits
          (λ k. omega (
            arith,
            unique k,
            tally-keep (matching before actor) (λ r. r.seq == k) (T.rows s.table),
            tally_mono (λ r. matching before actor r && r.seq == k) (λ r. r.seq == k)
                (T.rows s.table) (λ r h. ground (arith, h)),
          ))
          f)
