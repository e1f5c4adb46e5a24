-- ===== src/Db/Sessions.antt =====
-- src/db/sessions.rs: bearer sessions by the digest of their token. Times are in seconds.
pub mod Laws
pub mod Others
use saros.Base.{
  ℕ, suc, zero, ◌+◌, ◌-◌, Bool, true, false, not, ◌&&◌, if◌then◌else◌, ltb, leb, Option, none, some,
  List, [], ◌∷◌, ◌++◌, take, find, length, map, keep, is_some, Text, text_eq, Outcome, ok, err, ◌%◌,
  ◌^◌,
}
use saros.Db.Table.{DbError, sql, Table, Repo, bump}

abbrev pub touch_throttle_secs : ℕ
touch_throttle_secs = 3600

abbrev pub kind_web : ℕ
kind_web = 1

abbrev pub kind_api : ℕ
kind_api = 2

pub record SessionRow : Type 0 where
  pub digest : List ℕ
  pub username : Text
  pub kind : ℕ
  pub created_at : ℕ
  pub expires_at : ℕ
  pub label : Text
  pub last_seen : ℕ
  pub ip : Text
  pub device : Text

pub record SessionRecord : Type 0 where
  pub username : Text
  pub kind : ℕ
  pub created_at : ℕ
  pub expires_at : ℕ
  pub label : Text
  pub last_seen : ℕ
  pub ip : Text
  pub device : Text

-- From<SessionRow>: the kind is cast to eight bits.
abbrev pub session_record : SessionRow → SessionRecord
session_record r = record {
  username = r.username;
  kind = r.kind % 2 ^ 8;
  created_at = r.created_at;
  expires_at = r.expires_at;
  label = r.label;
  last_seen = r.last_seen;
  ip = r.ip;
  device = r.device;
}

abbrev pub by_digest : List ℕ → SessionRow → Bool
by_digest digest r = text_eq r.digest digest

abbrev pub by_username : Text → SessionRow → Bool
by_username username r = text_eq r.username username

abbrev pub is_live : ℕ → SessionRow → Bool
is_live now r = ltb now r.expires_at

abbrev pub first : {A : Type 0} → List A → Option A
first [] = none
first (r ∷ rs) = some r

-- session_id, over `hex::encode`
abbrev pub session_id : (List ℕ → Text) → List ℕ → Text
session_id hex digest = hex (take 8 digest)

unfoldable pub live_username : ℕ → Option SessionRow → Option Text
live_username now none = none
live_username now (some r) = if is_live now r then some r.username else none

unfoldable pub is_recent : ℕ → Option SessionRow → Bool
is_recent now none = true
is_recent now (some r) = ltb (now - r.last_seen) touch_throttle_secs

abbrev pub seen : ℕ → Text → Text → SessionRow → SessionRow
seen now ip device r = record r { last_seen = now; ip = ip; device = device }

abbrev pub is_dead : ℕ → SessionRow → Bool
is_dead now r = leb r.expires_at now

module _ (T : Table SessionRow) where
  abbrev pub Answer : Type 0 → Type 0
  Answer A = Outcome DbError A × Repo T

  -- Sessions::put
  unfoldable pub put : SessionRow → Repo T → Answer (Unit {0})
  put rec s = elim (T.create rec s.table) [
    | none ↦ (err sql, s)
    | some t ↦ (ok tt, bump (record s { table = t }))
  ]

  -- Sessions::username
  unfoldable pub username : ℕ → List ℕ → Repo T → Outcome DbError (Option Text)
  username now digest s = elim (T.select (by_digest digest) s.table) [
    | none ↦ err sql
    | some rs ↦ ok (live_username now (first rs))
  ]

  -- Sessions::list
  unfoldable pub list :
      (List ℕ → Text) → ℕ → Text → Repo T → Outcome DbError (List (Text × SessionRecord))
  list hex now who s = elim (T.select (λ r. by_username who r && is_live now r) s.table) [
    | none ↦ err sql
    | some rs ↦ ok (map (λ r. (session_id hex r.digest, session_record r)) rs)
  ]

  -- Sessions::delete
  unfoldable pub delete : List ℕ → Repo T → Answer Bool
  delete digest s = elim (T.select (by_digest digest) s.table) [
    | none ↦ (err sql, s)
    | some rs ↦
        if ltb 0 (length rs)
        then elim (T.delete (by_digest digest) s.table) [
          | none ↦ (err sql, s)
          | some t ↦ (ok true, bump (record s { table = t }))
        ]
        else (ok false, bump s)
  ]

  -- Sessions::delete_by_id
  unfoldable pub delete_by_id : (List ℕ → Text) → Text → Text → Repo T → Answer Bool
  delete_by_id hex who id s = elim (T.select (by_username who) s.table) [
    | none ↦ (err sql, s)
    | some rs ↦ elim (find (λ r. text_eq (session_id hex r.digest) id) rs) [
      | none ↦ (ok false, bump s)
      | some row ↦ elim (T.delete (by_digest row.digest) s.table) [
        | none ↦ (err sql, s)
        | some t ↦ (ok true, bump (record s { table = t }))
      ]
    ]
  ]

  -- The loop of delete_others: what it has deleted stays deleted where a later statement fails.
  unfoldable pub delete_each :
      (List ℕ → Text) → Text → List SessionRow → ℕ → T.State → Outcome DbError ℕ × T.State
  delete_each hex keep_id [] n t = (ok n, t)
  delete_each hex keep_id (row ∷ rest) n t = elim (text_eq (session_id hex row.digest) keep_id) [
    | true ↦ delete_each hex keep_id rest n t
    | false ↦ elim (T.delete (by_digest row.digest) t) [
      | none ↦ (err sql, t)
      | some t' ↦ delete_each hex keep_id rest ((n + 1) % 2 ^ 32) t'
    ]
  ]

  unfoldable pub counted : Outcome DbError ℕ × T.State → Repo T → Answer ℕ
  counted (err e, t) s = (err e, record s { table = t })
  counted (ok n, t) s = (ok n, bump (record s { table = t }))

  -- Sessions::delete_others
  unfoldable pub delete_others : (List ℕ → Text) → Text → Text → Repo T → Answer ℕ
  delete_others hex who keep_id s = elim (T.select (by_username who) s.table) [
    | none ↦ (err sql, s)
    | some rs ↦ counted (delete_each hex keep_id rs 0 s.table) s
  ]

  -- Sessions::touch
  unfoldable pub touch : List ℕ → Text → Text → ℕ → Repo T → Answer (Unit {0})
  touch digest ip device now s = elim (T.select (by_digest digest) s.table) [
    | none ↦ (err sql, s)
    | some rs ↦
        if is_recent now (first rs)
        then (ok tt, s)
        else elim (T.update (by_digest digest) (seen now ip device) s.table) [
          | none ↦ (err sql, s)
          | some t ↦ (ok tt, bump (record s { table = t }))
        ]
  ]

  -- Sessions::sweep_expired
  unfoldable pub sweep_expired : ℕ → Repo T → Answer ℕ
  sweep_expired now s = elim (T.select (is_dead now) s.table) [
    | none ↦ (err sql, s)
    | some rs ↦
        if ltb 0 (length rs)
        then elim (T.delete (is_dead now) s.table) [
          | none ↦ (err sql, s)
          | some t ↦ (ok (length rs), bump (record s { table = t }))
        ]
        else (ok 0, s)
  ]
