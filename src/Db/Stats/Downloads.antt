-- ===== src/Db/Stats/Downloads.antt =====
-- The download counters of src/db/stats.rs.
use saros.Base.{
  ℕ, ◌≡◌, refl, sym, ap, ◌∙◌, ◌⊎◌, inl, inr, if◌then◌else◌, Option, none, some, List, [], ◌∷◌, keep,
  keep-append_pass, keep-append_skip, Text, text_eq, text_eq_iff, text_eq_refl, text_eq_apart,
  Outcome, ok, err, Option-cases, Bool-cases,
}
use saros.Db.Table.{DbError, sql, Table, IsRelational, updated}
use saros.Db.Table.Upsert.{keep-updated_apart}
use saros.Db.Sessions.{first}
use saros.Db.Stats.{
  DownloadRow, Transactions, IsTransactional, saturating_suc, by_sha, count_of, bump_row,
  bump_download, download_count,
}

-- The count of a hash, among some rows.
abbrev pub count_in : Text → List DownloadRow → ℕ
count_in sha rows = count_of (first (keep (by_sha sha) rows))

abbrev counted : ℕ → DownloadRow → DownloadRow
counted n r = record r { count = n }

count_in_self :
    (sha : Text) (n : ℕ) (rows : List DownloadRow) (row : DownloadRow)
    → first (keep (by_sha sha) rows) ≡ some row
    → count_in sha (updated (by_sha sha) (counted n) rows) ≡ n
count_in_self sha n [] row h = cc
count_in_self sha n (r ∷ rows) row h = elim (Bool-cases (by_sha sha r)) [
  | inl e ↦ rw (e, e) refl
  | inr e ↦ rw (e, e) (count_in_self sha n rows row (rw e at h))
]

first-none : (rows : List DownloadRow) → first rows ≡ none → rows ≡ []
first-none [] h = refl
first-none (r ∷ rows) h = cc

module _ (T : Table DownloadRow) (law : IsRelational T) where
  counts-bump_row :
      (sha k : Text) (s t : T.State) (row : Option DownloadRow)
      → first (keep (by_sha sha) (T.rows s)) ≡ row
      → bump_row T sha row s ≡ some t
      → count_in k (T.rows t) ≡ (
          if text_eq sha k then saturating_suc (count_in sha (T.rows s)) else count_in k (T.rows s))
  unfolding bump_row
  counts-bump_row sha k s t none f d = elim (Bool-cases (text_eq sha k)) [
    | inl e ↦
        rw (e, ← text_eq_iff sha k e, f)
          (ap (count_in sha) (law.create_rows _ s t d)
            ∙ ap (λ rows. count_of (first rows))
                (keep-append_pass (by_sha sha) (T.rows s) _ (text_eq_refl sha))
            ∙ rw (first-none (keep (by_sha sha) (T.rows s)) f) refl)
    | inr e ↦ rw e (
        ap (count_in k) (law.create_rows _ s t d)
        ∙ ap (λ rows. count_of (first rows)) (keep-append_skip (by_sha k) (T.rows s) _ e))
  ]
  counts-bump_row sha k s t (some row) f d = elim (Bool-cases (text_eq sha k)) [
    | inl e ↦
        rw (e, ← text_eq_iff sha k e, f)
          (ap (count_in sha) (law.update_rows _ _ s t d)
            ∙ count_in_self sha (saturating_suc row.count) (T.rows s) row f)
    | inr e ↦ rw e (
        ap (count_in k) (law.update_rows _ _ s t d)
        ∙ ap (λ rows. count_of (first rows))
            (keep-updated_apart (by_sha sha) (by_sha k) (counted (saturating_suc row.count))
              (T.rows s) (λ r h. text_eq_apart r.sha sha k e h) (λ r. refl)))
  ]

  -- A download that is counted adds one to the count of its hash, up to 2 ^ 64 - 1, and changes no
  -- other count; one that is not, because a statement failed, leaves the table as it was.
  pub counts-bump_download :
      (X : Transactions T) (ends : IsTransactional T X) (sha k : Text) (s : T.State)
      → (((bump_download T X sha s).0 ≡ err sql) × ((bump_download T X sha s).1 ≡ s))
        ⊎ (((bump_download T X sha s).0 ≡ ok tt)
            × (count_in k (T.rows (bump_download T X sha s).1) ≡ (
                if text_eq sha k
                then saturating_suc (count_in sha (T.rows s))
                else count_in k (T.rows s))))
  unfolding bump_download
  counts-bump_download X ends sha k s = elim (Option-cases (X.transaction s)) [
    | inl e ↦ inl (rw (e, bump_download) refl, rw (e, bump_download) refl)
    | inr (t, e) ↦ elim (Option-cases (T.select (by_sha sha) t)) [
      | inl f ↦ inl (rw (e, f, bump_download) refl, rw (e, f, bump_download) refl)
      | inr (rs, f) ↦ elim (Option-cases (bump_row T sha (first rs) t)) [
        | inl g ↦ inl (rw (e, f, g, bump_download) refl, rw (e, f, g, bump_download) refl)
        | inr (u, g) ↦ elim (Option-cases (X.commit u)) [
          | inl h ↦ inl (rw (e, f, g, h, bump_download) refl, rw (e, f, g, h, bump_download) refl)
          | inr (v, h) ↦ inr (
            rw (e, f, g, h, bump_download) refl,
            rw (e, f, g, h, bump_download, ends.commit_rows u v h, ← ends.transaction_rows s t e)
                (counts-bump_row sha k t u (first rs)
                  (ap first (sym (law.select_rows (by_sha sha) t rs f))) g),
          )
        ]
      ]
    ]
  ]

  -- What download_count answers.
  pub download_count_lem :
      (sha : Text) (s : T.State) (n : ℕ)
      → download_count T sha s ≡ ok n
      → n ≡ count_in sha (T.rows s)
  unfolding download_count
  download_count_lem sha s n d = elim (Option-cases (T.select (by_sha sha) s)) [
    | inl e ↦ cc (rw (e, download_count) at d)
    | inr (rs, e) ↦
        sym (some_ok (rw (e, download_count) at d))
        ∙ ap (λ rows. count_of (first rows)) (law.select_rows (by_sha sha) s rs e)
  ]
    where
      some_ok : {a b : ℕ} → Path (Outcome DbError ℕ) (ok a) (ok b) → a ≡ b
      some_ok g = cc
