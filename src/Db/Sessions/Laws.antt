-- ===== src/Db/Sessions/Laws.antt =====
-- What the statements of src/db/sessions.rs make of the sessions, for any table that keeps its
-- documented behaviour: whose token is good, and what a revocation takes away.
use saros.Base.{
  ℕ, ◌≡◌, ◌≢◌, refl, sym, ap, ◌∙◌, inl, inr, Bool, ltb, Option, none, some, List, [], ◌∷◌, ◌++◌,
  length, keep, Text, ok, arith, Option-cases, Bool-cases,
}
use saros.Db.Table.{
  Table, IsRelational, Repo, updated, deleted, keep-deleted, keep-updated, deleted-none,
  length_none,
}
use saros.Db.Sessions.{
  SessionRow, by_digest, first, live_username, put, username, delete, seen, is_recent, touch,
}

-- Whose session a digest is, among some rows.
abbrev pub holder : ℕ → List ℕ → List SessionRow → Option Text
holder now digest rows = live_username now (first (keep (by_digest digest) rows))

pub first-append : (xs : List SessionRow) (r : SessionRow) → xs ≡ [] → first (xs ++ r ∷ []) ≡ some r
first-append xs r e = rw e

pub live_username-updated :
    (p : SessionRow → Bool) (at now : ℕ) (ip device : Text) (rows : List SessionRow)
    → live_username at (first (updated p (seen now ip device) rows)) ≡ live_username at (first rows)
unfolding live_username
live_username-updated p at now ip device [] = refl
live_username-updated p at now ip device (r ∷ rows) = ground arith

module _ (T : Table SessionRow) (law : IsRelational T) where
  -- A lookup that answers, answers the user of the first row of the digest, if there is one and it
  -- has not expired.
  pub username-holder :
      (now : ℕ) (digest : List ℕ) (s : Repo T) (u : Option Text)
      → username T now digest s ≡ ok u
      → u ≡ holder now digest (T.rows s.table)
  unfolding username
  username-holder now digest s u h = elim (Option-cases (T.select (by_digest digest) s.table)) [
    | inl n ↦ cc (rw (n, username) at h)
    | inr (rs, e) ↦ ground (arith, rw (e, username) at h, law.select_rows _ s.table rs e)
  ]

  -- What a deletion leaves of the rows: those of other digests.
  pub rows-delete :
      (digest : List ℕ) (s s' : Repo T) (present : Bool)
      → delete T digest s ≡ (ok present, s')
      → T.rows s'.table ≡ deleted (by_digest digest) (T.rows s.table)
  unfolding delete
  rows-delete digest s s' present d = elim (Option-cases (T.select (by_digest digest) s.table)) [
    | inl n ↦ cc (rw (n, delete) at d)
    | inr (rs, e) ↦ elim (Bool-cases (ltb 0 (length rs))) [
      | inl some_row ↦ elim (Option-cases (T.delete (by_digest digest) s.table)) [
        | inl n ↦ cc (rw (e, some_row, n, delete) at d)
        | inr (t, e') ↦
            ap (λ a. T.rows (a.1).table) (sym (rw (e, some_row, e', delete) at d))
            ∙ law.delete_rows (by_digest digest) s.table t e'
      ]
      | inr no_row ↦
          ap (λ a. T.rows (a.1).table) (sym (rw (e, no_row, delete) at d))
          ∙ sym (
              deleted-none (by_digest digest) (T.rows s.table)
                (sym (law.select_rows _ s.table rs e) ∙ length_none rs no_row))
    ]
  ]

  pub lookup-delete :
      (now : ℕ) (digest : List ℕ) (s s' : Repo T) (present : Bool) (u : Option Text)
      → delete T digest s ≡ (ok present, s')
      → username T now digest s' ≡ ok u
      → u ≡ none
  unfolding live_username
  lookup-delete now digest s s' present u d h =
      username-holder now digest s' u h
      ∙ ap (λ rows. live_username now (first rows))
          (ap (keep (by_digest digest)) (rows-delete digest s s' present d)
            ∙ keep-deleted (by_digest digest) (T.rows s.table))

  -- After a deletion that succeeded, whether or not it found a row, no lookup of the digest answers
  -- a user, at any time.
  pub username-delete :
      (now : ℕ) (digest : List ℕ) (s s' : Repo T) (present : Bool) (who : Text)
      → delete T digest s ≡ (ok present, s')
      → username T now digest s' ≢ ok (some who)
  username-delete now digest s s' present who d h =
      cc (lookup-delete now digest s s' present (some who) d h)

  pub rows-put :
      (r : SessionRow) (s s' : Repo T)
      → put T r s ≡ (ok tt, s')
      → T.rows s'.table ≡ T.rows s.table ++ r ∷ []
  unfolding put
  rows-put r s s' d = elim (Option-cases (T.create r s.table)) [
    | inl n ↦ cc (rw (n, put) at d)
    | inr (t, e) ↦
        ap (λ a. T.rows (a.1).table) (sym (rw (e, put) at d)) ∙ law.create_rows r s.table t e
  ]

  -- Recording that a session was seen, whether or not a statement fails, leaves every digest the
  -- session of whom it was, at any time.
  pub holder-touch :
      (now at : ℕ) (digest seen_digest : List ℕ) (ip device : Text) (s : Repo T)
      → holder at digest (T.rows ((touch T seen_digest ip device now s).1).table)
        ≡ holder at digest (T.rows s.table)
  unfolding touch
  holder-touch now at digest seen_digest ip device s =
      elim (Option-cases (T.select (by_digest seen_digest) s.table)) [
        | inl n ↦ rw (n, touch)
        | inr (rs, e) ↦ elim (Bool-cases (is_recent now (first rs))) [
          | inl recent ↦ rw (e, recent, touch)
          | inr stale ↦
              elim (Option-cases (T.update (by_digest seen_digest) (seen now ip device) s.table)) [
                | inl n ↦ rw (e, stale, n, touch)
                | inr (t, e') ↦
                    rw (e, stale, e', touch)
                      (ap (λ rows. live_username at (first (keep (by_digest digest) rows)))
                          (law.update_rows _ _ s.table t e')
                        ∙ ap (λ rows. live_username at (first rows))
                            (keep-updated (by_digest seen_digest) (by_digest digest)
                              (seen now ip device) (T.rows s.table) (λ r. refl))
                        ∙ live_username-updated (by_digest seen_digest) at now ip device
                            (keep (by_digest digest) (T.rows s.table)))
              ]
        ]
      ]
