-- ===== src/Db/Inbox.antt =====
-- src/db/notifications.rs: what marks notifications read, and the follows of devices. The ordered
-- statements (push's trim and list) are left out.
pub mod Feed
pub mod Laws
use saros.Base.{
  ℕ, ◌+◌, ◌%◌, ◌^◌, Bool, true, false, not, ◌&&◌, ◌==◌, if◌then◌else◌, ltb, Option, none, some,
  List, [], ◌∷◌, length, map, Text, text_eq, Outcome, ok, err,
}
use saros.Db.Table.{DbError, sql, Table, Repo, bump}

pub record NotificationRow : Type 0 where
  pub id : ℕ
  pub username : Text
  pub at : ℕ
  pub kind : ℕ
  pub read : Bool
  pub title : Text
  pub detail : Text
  pub link : Text

pub record FollowRow : Type 0 where
  pub device_id : Text
  pub username : Text

abbrev pub by_id : ℕ → NotificationRow → Bool
by_id id r = r.id == id

abbrev pub is_unread_of : Text → NotificationRow → Bool
is_unread_of who r = text_eq r.username who && not r.read

abbrev pub as_read : NotificationRow → NotificationRow
as_read r = record r { read = true }

-- The guard of mark_read, on the first row of the id.
unfoldable pub is_flippable : Text → List NotificationRow → Bool
is_flippable who [] = false
is_flippable who (r ∷ rs) = is_unread_of who r

module _ (T : Table NotificationRow) where
  -- Notifications::mark_read
  unfoldable pub mark_read : Text → ℕ → Repo T → Outcome DbError Bool × Repo T
  mark_read who id s = elim (T.select (by_id id) s.table) [
    | none ↦ (err sql, s)
    | some rs ↦
        if is_flippable who rs
        then elim (T.update (by_id id) as_read s.table) [
          | none ↦ (err sql, s)
          | some t ↦ (ok true, bump (record s { table = t }))
        ]
        else (ok false, bump s)
  ]

  -- Notifications::mark_all_read
  unfoldable pub mark_all_read : Text → Repo T → Outcome DbError ℕ × Repo T
  mark_all_read who s = elim (T.select (is_unread_of who) s.table) [
    | none ↦ (err sql, s)
    | some rs ↦ elim (T.update (is_unread_of who) as_read s.table) [
      | none ↦ (err sql, s)
      | some t ↦ (ok (length rs % 2 ^ 32), bump (record s { table = t }))
    ]
  ]

abbrev pub is_edge : Text → Text → FollowRow → Bool
is_edge who device r = text_eq r.device_id device && text_eq r.username who

-- The follows have no topic: their repository never bumps.
module _ (F : Table FollowRow) where
  -- Notifications::set_follow
  unfoldable pub set_follow : Text → Text → Bool → F.State → Outcome DbError (Unit {0}) × F.State
  set_follow who device true t = elim (F.select (is_edge who device) t) [
    | none ↦ (err sql, t)
    | some rs ↦
        if ltb 0 (length rs)
        then (ok tt, t)
        else elim (F.create (record { device_id = device; username = who }) t) [
          | none ↦ (err sql, t)
          | some t' ↦ (ok tt, t')
        ]
  ]
  set_follow who device false t = elim (F.delete (is_edge who device) t) [
    | none ↦ (err sql, t)
    | some t' ↦ (ok tt, t')
  ]

  -- Notifications::followers
  unfoldable pub followers : Text → F.State → Outcome DbError (List Text)
  followers device t = elim (F.select (λ r. text_eq r.device_id device) t) [
    | none ↦ err sql
    | some rs ↦ ok (map (λ (r : FollowRow). r.username) rs)
  ]

  -- Notifications::follows_of
  unfoldable pub follows_of : Text → F.State → Outcome DbError (List Text)
  follows_of who t = elim (F.select (λ r. text_eq r.username who) t) [
    | none ↦ err sql
    | some rs ↦ ok (map (λ (r : FollowRow). r.device_id) rs)
  ]
