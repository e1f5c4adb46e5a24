-- ===== src/Db/Inbox/Laws.antt =====
-- What marking everything read, and following, make of the rows of src/db/notifications.rs.
use saros.Base.{
  ℕ, ◌≡◌, refl, sym, ap, ◌∙◌, inl, inr, Bool, true, false, not, if◌then◌else◌, ltb, List, [], ◌∷◌,
  length, keep, keep-append, Text, text_eq, text_eq_refl, ok, arith, Option-cases, Bool-cases,
}
use saros.Db.Table.{Table, IsRelational, Repo, updated, keep-deleted, length_none}
use saros.Db.Inbox.{
  NotificationRow, FollowRow, is_unread_of, as_read, mark_all_read, is_edge, set_follow,
}

read_all :
    (who : Text) (rows : List NotificationRow)
    → keep (is_unread_of who) (updated (is_unread_of who) as_read rows) ≡ []
read_all who [] = refl
read_all who (r ∷ rows) = ground (arith, read_all who rows)

others_kept :
    (who : Text) (rows : List NotificationRow)
    → keep (λ r. not (text_eq r.username who)) (updated (is_unread_of who) as_read rows)
      ≡ keep (λ r. not (text_eq r.username who)) rows
others_kept who [] = refl
others_kept who (r ∷ rows) = ground (arith, others_kept who rows)

module _ (T : Table NotificationRow) (law : IsRelational T) where
  -- After everything of a user has been marked read, no row of theirs is unread, and the rows of
  -- all others are as they were.
  pub mark_all_read_lem :
      (who : Text) (n : ℕ) (s s' : Repo T)
      → mark_all_read T who s ≡ (ok n, s')
      → (keep (is_unread_of who) (T.rows s'.table) ≡ [])
        × (keep (λ r. not (text_eq r.username who)) (T.rows s'.table)
            ≡ keep (λ r. not (text_eq r.username who)) (T.rows s.table))
  unfolding mark_all_read
  mark_all_read_lem who n s s' d = elim (Option-cases (T.select (is_unread_of who) s.table)) [
    | inl e ↦ cc (rw (e, mark_all_read) at d)
    | inr (rs, e) ↦ elim (Option-cases (T.update (is_unread_of who) as_read s.table)) [
      | inl u ↦ cc (rw (e, u, mark_all_read) at d)
      | inr (t, u) ↦
          (let rows =
              ap (λ a. T.rows (a.1).table) (sym (rw (e, u, mark_all_read) at d))
              ∙ law.update_rows _ _ s.table t u in
            (
              ap (keep (is_unread_of who)) rows ∙ read_all who (T.rows s.table),
              ap (keep (λ r. not (text_eq r.username who))) rows ∙ others_kept who (T.rows s.table),
            ))
    ]
  ]

edge_self :
    (who device : Text) → is_edge who device (record { device_id = device; username = who }) ≡ true
edge_self who device = rw (text_eq_refl device, text_eq_refl who) refl

module _ (F : Table FollowRow) (law : IsRelational F) where
  -- Whether somebody follows a device: the number of rows that say so.
  abbrev pub edges : Text → Text → F.State → ℕ
  edges who device t = length (keep (is_edge who device) (F.rows t))

  -- Following a device twice leaves the follow once, and unfollowing leaves none of it.
  pub edges-set_follow :
      (who device : Text) (follow : Bool) (t t' : F.State)
      → set_follow F who device follow t ≡ (ok tt, t')
      → edges who device t'
        ≡ (if follow then (if ltb 0 (edges who device t) then edges who device t else 1) else 0)
  unfolding set_follow
  edges-set_follow who device true t t' d = elim (Option-cases (F.select (is_edge who device) t)) [
    | inl e ↦ cc (rw (e, set_follow) at d)
    | inr (rs, e) ↦
        (let found = law.select_rows (is_edge who device) t rs e in
          elim (Bool-cases (ltb 0 (length rs))) [
            | inl there ↦
                rw (← found, there, ← ap (λ a. a.1) (rw (e, there, set_follow) at d))
                  (ap length (sym found))
            | inr fresh ↦
                elim (Option-cases (F.create (record { device_id = device; username = who }) t)) [
                  | inl c ↦ cc (rw (e, fresh, c, set_follow) at d)
                  | inr (u, c) ↦
                      (let none_yet : keep (is_edge who device) (F.rows t) ≡ [] =
                          sym found ∙ length_none rs fresh in
                        let one : keep (is_edge who device) (F.rows t')
                            ≡ record { device_id = device; username = who } ∷ [] =
                          ap (λ a. keep (is_edge who device) (F.rows (a.1)))
                            (sym (rw (e, fresh, c, set_follow) at d))
                          ∙ ap (keep (is_edge who device)) (law.create_rows _ t u c)
                          ∙ keep-append (is_edge who device) (F.rows t) _
                          ∙ rw (none_yet, edge_self who device) refl in
                        rw (one, none_yet) refl)
                ]
          ])
  ]
  edges-set_follow who device false t t' d = elim (Option-cases (F.delete (is_edge who device) t)) [
    | inl e ↦ cc (rw (e, set_follow) at d)
    | inr (u, e) ↦ ap length (
        ap (λ a. keep (is_edge who device) (F.rows (a.1))) (sym (rw (e, set_follow) at d))
        ∙ ap (keep (is_edge who device)) (law.delete_rows _ t u e)
        ∙ keep-deleted (is_edge who device) (F.rows t))
  ]
