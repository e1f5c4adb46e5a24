-- ===== src/Db/Inbox/Feed.antt =====
-- src/db/notifications.rs: the ordered statements, which append to an inbox and read it.
use saros.Base.{
  ℕ, ◌≡◌, ◌≤◌, refl, ap, ◌∙◌, inl, inr, ◌%◌, ◌^◌, Bool, true, false, not, ◌&&◌, leb, ltb, none,
  some, List, [], ◌∷◌, map, all, keep, keep-append_skip, tally, Text, text_eq, text_eq_refl,
  Outcome, ok, err, arith, Option-cases,
}
use saros.Db.Table.{DbError, sql, Table, IsRelational, Repo, bump}
use saros.Db.Ordered.{desc, Ordered, Keyed, clamp_limit, trim}
use saros.Db.Ordered.Laws.{IsOrdered, IsKeyed, tally-trim, keep-trim, inserted-kept}
use saros.Db.Inbox.{NotificationRow}

pub record NotificationRecord : Type 0 where
  pub at : ℕ
  pub kind : ℕ
  pub read : Bool
  pub title : Text
  pub detail : Text
  pub link : Text

-- From<NotificationRow>
unfoldable pub notification_record : NotificationRow → NotificationRecord
notification_record r = record {
  at = r.at;
  kind = r.kind % 2 ^ 8;
  read = r.read;
  title = r.title;
  detail = r.detail;
  link = r.link;
}

abbrev pub max_per_user : ℕ
max_per_user = 200

abbrev pub by_user : Text → NotificationRow → Bool
by_user who r = text_eq r.username who

abbrev pub row_id : NotificationRow → ℕ
row_id r = r.id

abbrev pub notification : Text → ℕ → Text → Text → Text → ℕ → ℕ → NotificationRow
notification who kind title detail link now id = record {
  id = id;
  username = who;
  at = now;
  kind = kind;
  read = false;
  title = title;
  detail = detail;
  link = link;
}

module _ (T : Table NotificationRow) (O : Ordered T) where
  -- Notifications::push
  unfoldable pub push :
      Keyed T → Text → ℕ → Text → Text → Text → ℕ → Repo T → Outcome DbError (Unit {0}) × Repo T
  push K who kind title detail link now s =
      elim (K.insert (notification who kind title detail link now) s.table) [
        | none ↦ (err sql, s)
        | some u ↦ elim (trim T O (by_user who) row_id max_per_user u) [
          | none ↦ (err sql, record s { table = u })
          | some t ↦ (ok tt, bump (record s { table = t }))
        ]
      ]

  -- Notifications::list
  unfoldable pub list : Text → ℕ → Repo T → Outcome DbError (List (ℕ × NotificationRecord))
  list who limit s = elim (O.first_rows (by_user who) desc row_id (clamp_limit limit) s.table) [
    | none ↦ err sql
    | some rs ↦ ok (map (λ (r : NotificationRow). (r.id, notification_record r)) rs)
  ]

module _ (T : Table NotificationRow) (O : Ordered T) (K : Keyed T) (law : IsRelational T)
    (order : IsOrdered T O) (fresh : IsKeyed T K row_id) where
  push-steps :
      (who : Text) (kind : ℕ) (title detail link : Text) (now : ℕ) (s s' : Repo T)
      → push T O K who kind title detail link now s ≡ (ok tt, s')
      → (u : T.State) × (K.insert (notification who kind title detail link now) s.table ≡ some u)
        × (trim T O (by_user who) row_id max_per_user u ≡ some s'.table)
  unfolding push
  push-steps who kind title detail link now s s' d =
      elim (Option-cases (K.insert (notification who kind title detail link now) s.table)) [
        | inl e ↦ cc (rw (e, push) at d)
        | inr (u, e) ↦ elim (Option-cases (trim T O (by_user who) row_id max_per_user u)) [
          | inl n ↦ cc (rw (e, n, push) at d)
          | inr (t, n) ↦ (u, e, n ∙ ap (λ a. some (a.1).table) (rw (e, n, push) at d))
        ]
      ]

  -- A notification that has been pushed leaves its user with at most 200, of which it is the one
  -- with the largest id, unread; the inboxes of all others are as they were.
  pub push_lem :
      (who : Text) (kind : ℕ) (title detail link : Text) (now : ℕ) (s s' : Repo T)
      → push T O K who kind title detail link now s ≡ (ok tt, s')
      → (tally (by_user who) (T.rows s'.table) ≤ max_per_user)
        × (keep (λ r. not (by_user who r)) (T.rows s'.table)
            ≡ keep (λ r. not (by_user who r)) (T.rows s.table))
        × ((id : ℕ) × (keep (λ r. by_user who r && leb id r.id) (T.rows s'.table)
              ≡ notification who kind title detail link now id ∷ [])
            × (all (λ r. ltb r.id id) (T.rows s.table) ≡ true))
  push_lem who kind title detail link now s s' d =
      let (u, e, n) = push-steps who kind title detail link now s s' d in
      let (id, rows, low, _) =
        fresh.inserted (notification who kind title detail link now) s.table u e in
      (
        tally-trim T O law order (by_user who) row_id max_per_user u s'.table n,
        keep-trim T O law order (by_user who) row_id max_per_user (λ r. not (by_user who r)) u
              s'.table (λ r h. rw h refl) n
            ∙ ap (keep (λ r. not (by_user who r))) rows
            ∙ keep-append_skip (λ r. not (by_user who r)) (T.rows s.table)
                (notification who kind title detail link now id) (rw (text_eq_refl who) refl),
        (
          id,
          inserted-kept T O law order (by_user who) row_id max_per_user (T.rows s.table)
              (notification who kind title detail link now id) u s'.table (omega arith) rows low
              (text_eq_refl who) n,
          low,
        ),
      )
