-- ===== src/Db/Submissions/Covered.antt =====
-- Rows of the ledger of src/db/submissions.rs that have the coordinates of others.
use saros.Base.{
  ℕ, ◌≡◌, ◌≤◌, refl, ap, inl, inr, Bool, true, false, ◌&&◌, ◌||◌, ltb, List, [], ◌∷◌, all, tally,
  text_eq_iff, Text, text_eq_refl, arith, Bool-cases,
}
use saros.Db.Table.{deleted}
use saros.Db.Submissions.{SubmissionRow, is_at, is_of, submitted, resubmitted}

-- Whether a row has the coordinates of one of some rows.
abbrev pub covered : List SubmissionRow → SubmissionRow → Bool
covered [] r = false
covered (row ∷ rows) r = is_at row.username row.device row.version r || covered rows r

pub is_at_self : (r : SubmissionRow) → is_at r.username r.device r.version r ≡ true
is_at_self r = rw (text_eq_refl r.username, text_eq_refl r.device, text_eq_refl r.version) refl

covered_wider :
    (row : SubmissionRow) (rows xs : List SubmissionRow)
    → all (covered rows) xs ≡ true
    → all (covered (row ∷ rows)) xs ≡ true
covered_wider row rows [] h = refl
covered_wider row rows (x ∷ xs) h = ground (arith, h, covered_wider row rows xs)

pub all-covered : (rows : List SubmissionRow) → all (covered rows) rows ≡ true
all-covered [] = refl
all-covered (r ∷ rows) = rw (is_at_self r) (covered_wider r rows rows (all-covered rows))

pub deleted_both :
    (p q : SubmissionRow → Bool) (xs : List SubmissionRow)
    → deleted q (deleted p xs) ≡ deleted (λ r. p r || q r) xs
deleted_both p q [] = refl
deleted_both p q (x ∷ xs) = ground (arith, deleted_both p q xs)

pub deleted_nothing : (xs : List SubmissionRow) → xs ≡ deleted (λ r. false) xs
deleted_nothing [] = refl
deleted_nothing (x ∷ xs) = ap (λ rest. x ∷ rest) (deleted_nothing xs)

-- What one of some rows covers is of their user.
pub covered_of :
    (who : Text) (rs : List SubmissionRow) (r : SubmissionRow)
    → all (is_of who) rs ≡ true
    → covered rs r ≡ true
    → is_of who r ≡ true
covered_of who [] r h c = cc
covered_of who (x ∷ rs) r h c = elim (Bool-cases (is_at x.username x.device x.version r)) [
  | inr e ↦ covered_of who rs r (ground (arith, h)) (rw e at c)
  | inl e ↦
      let same : r.username ≡ x.username = text_eq_iff r.username x.username (ground (arith, e)) in
      rw same (ground (arith, h))
]

is_at_sym :
    (x r : SubmissionRow)
    → is_at x.username x.device x.version r ≡ true
    → is_at r.username r.device r.version x ≡ true
is_at_sym x r h =
    rw
      (
        text_eq_iff r.username x.username (ground (arith, h)),
        text_eq_iff r.device x.device (ground (arith, h)),
        text_eq_iff r.version x.version (ground (arith, h)),
      )
      (is_at_self x)

pub covered-tally :
    (rs : List SubmissionRow) (r : SubmissionRow) (now : ℕ)
    → all (λ x. ltb x.submitted_at now) rs ≡ true
    → covered rs r ≡ true
    → 1 ≤ tally (λ x. is_at r.username r.device r.version x && ltb x.submitted_at now) rs
covered-tally [] r now h c = cc
covered-tally (x ∷ rs) r now h c = elim (Bool-cases (is_at x.username x.device x.version r)) [
  | inl e ↦ ground (arith, h, is_at_sym x r e)
  | inr e ↦ ground (arith, covered-tally rs r now (ground (arith, h)) (rw e at c))
]

pub rewritten :
    (who device version : Text) (now : ℕ) (r : SubmissionRow)
    → is_at who device version r ≡ true
    → resubmitted now r ≡ submitted who device version now
rewritten who device version now r h =
    let w = text_eq_iff r.username who (ground (arith, h)) in
    let d = text_eq_iff r.device device (ground (arith, h)) in
    let v = text_eq_iff r.version version (ground (arith, h)) in
    λ i. submitted (w i) (d i) (v i) now
