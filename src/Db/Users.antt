-- ===== src/Db/Users.antt =====
-- src/db/users.rs, the accounts, and the codec of src/db/mod.rs for the record that a row holds.
pub mod Codec
pub mod Unique
pub mod Creation
pub mod Emails
pub mod Stored
use saros.Base.{
  ℕ, Bool, true, false, not, ◌&&◌, ◌||◌, if◌then◌else◌, ltb, ◌==◌, Option, none, some, List, [],
  ◌∷◌, length, map, Text, text_eq, trim, to_lower, Outcome, ok, err,
}
use saros.Account.{StoredUser, Json}
use saros.Db.Table.{DbError, sql, unknown_version, Table}
use saros.Db.Table.Upsert.{upsert}
use saros.Db.Sessions.{first}

-- normalize_email
unfoldable pub normalize_email : Text → Text
normalize_email email = map to_lower (trim email)

abbrev pub normalized : Option Text → Option Text
normalized none = none
normalized (some email) = some (normalize_email email)

pub record UserRow : Type 0 where
  pub username : Text
  pub uuid : Text
  pub email : Option Text
  pub bytes : List ℕ

pub data CreateOutcome : Type 0 where
  created username_taken email_taken : CreateOutcome

pub data EmailOutcome : Type 0 where
  updated_email taken_email no_such_user : EmailOutcome

abbrev pub is_user : Text → UserRow → Bool
is_user who r = text_eq r.username who

abbrev pub has_uuid : Text → UserRow → Bool
has_uuid uuid r = text_eq r.uuid uuid

abbrev pub is_key : Text → Option Text → Bool
is_key email none = false
is_key email (some key) = text_eq key email

abbrev pub has_email : Text → UserRow → Bool
has_email email r = is_key email r.email

abbrev pub user_v1 : ℕ
user_v1 = 1

module _ {Key : Type 0} where
  -- email_key
  abbrev pub email_key : StoredUser Key → Option Text
  email_key user = normalized user.email

  abbrev pub user_row : StoredUser Key → List ℕ → UserRow
  user_row user bytes = record {
    username = user.username;
    uuid = user.uuid;
    email = email_key user;
    bytes = bytes;
  }

  abbrev pub rewritten : StoredUser Key → List ℕ → UserRow → UserRow
  rewritten user bytes r = record r { uuid = user.uuid; email = email_key user; bytes = bytes }

  abbrev pub with_email : Option Text → StoredUser Key → StoredUser Key
  with_email email user = record user { email = email }

abbrev pub email_written : Option Text → List ℕ → UserRow → UserRow
email_written key bytes r = record r { email = key; bytes = bytes }

abbrev pub is_others : Text → Text → UserRow → Bool
is_others key who r = has_email key r && not (is_user who r)

module _ (T : Table UserRow) where
  -- taken
  unfoldable pub taken_key : Option Text → T.State → Outcome DbError (Option CreateOutcome)
  taken_key none s = ok none
  taken_key (some email) s = elim (T.select (has_email email) s) [
    | none ↦ err sql
    | some rs ↦ ok (if ltb 0 (length rs) then some email_taken else none)
  ]

  unfoldable pub taken : Text → Option Text → T.State → Outcome DbError (Option CreateOutcome)
  taken who email s = elim (T.select (is_user who) s) [
    | none ↦ err sql
    | some rs ↦
        let of_email = taken_key email s in
        if ltb 0 (length rs) then ok (some username_taken) else of_email
  ]

  -- The outcome of an insert that failed.
  unfoldable pub reclassified :
      Outcome DbError (Option CreateOutcome) → Outcome DbError CreateOutcome
  reclassified (err e) = err e
  reclassified (ok none) = err sql
  reclassified (ok (some outcome)) = ok outcome

  -- Whether another account has a key.
  unfoldable pub key_taken : Text → Option Text → T.State → Outcome DbError Bool
  key_taken who none s = ok false
  key_taken who (some key) s = elim (T.select (is_others key who) s) [
    | none ↦ err sql
    | some rs ↦ ok (ltb 0 (length rs))
  ]

  -- Users::exists
  unfoldable pub exists : Text → T.State → Outcome DbError Bool
  exists who s = elim (T.select (is_user who) s) [
    | none ↦ err sql
    | some rs ↦ ok (ltb 0 (length rs))
  ]

  -- Users::count
  unfoldable pub count : T.State → Outcome DbError ℕ
  count s = elim (T.select (λ r. true) s) [ none ↦ err sql | some rs ↦ ok (length rs) ]

module _ {Key : Type 0} (json : Json Key) where
  abbrev pub versioned : Outcome DbError (List ℕ) → Outcome DbError (List ℕ)
  versioned (ok bytes) = ok (user_v1 ∷ bytes)
  versioned (err e) = err e

  -- encode_user
  unfoldable pub encode_user : StoredUser Key → Outcome DbError (List ℕ)
  encode_user user = versioned (json.to_writer user)

  -- decode_user
  unfoldable pub decode_user : List ℕ → Outcome DbError (StoredUser Key)
  decode_user [] = err (unknown_version 0)
  decode_user (v ∷ rest) = if v == user_v1 then json.from_slice rest else err (unknown_version v)

  abbrev pub decoded : Option UserRow → Outcome DbError (Option (StoredUser Key))
  decoded none = ok none
  decoded (some r) = elim (decode_user r.bytes) [ err e ↦ err e | ok user ↦ ok (some user) ]

  module _ (T : Table UserRow) where
    -- Users::upsert
    unfoldable pub upsert_user : StoredUser Key → T.State → Outcome DbError (Unit {0}) × T.State
    upsert_user user s = elim (encode_user user) [
      | err e ↦ (err e, s)
      | ok bytes ↦ elim (T.select (is_user user.username) s) [
        | none ↦ (err sql, s)
        | some rs ↦
            elim (upsert T (is_user user.username) (rewritten user bytes) (user_row user bytes) rs
              s) [ none ↦ (err sql, s) | some t ↦ (ok tt, t) ]
      ]
    ]

    -- Users::create_if_absent. Between the checks and the insert, and between an insert that failed
    -- and the checks after it, other tasks may have changed the table.
    unfoldable pub create_if_absent :
        (T.State → T.State)
        → (T.State → T.State)
        → StoredUser Key
        → T.State
        → Outcome DbError CreateOutcome × T.State
    create_if_absent before after user s = elim (encode_user user) [
      | err e ↦ (err e, s)
      | ok bytes ↦ elim (taken T user.username (email_key user) s) [
        | err e ↦ (err e, s)
        | ok (some outcome) ↦ (ok outcome, s)
        | ok none ↦ elim (T.create (user_row user bytes) (before s)) [
          | some t ↦ (ok created, t)
          | none ↦ (
            reclassified T (taken T user.username (email_key user) (after (before s))),
            after (before s),
          )
        ]
      ]
    ]

    unfoldable pub write_email :
        Text → Option Text → UserRow → T.State → Outcome DbError EmailOutcome × T.State
    write_email who email row s = elim (decode_user row.bytes) [
      | err e ↦ (err e, s)
      | ok user ↦ elim (encode_user (with_email email user)) [
        | err e ↦ (err e, s)
        | ok bytes ↦ elim (T.update (is_user who) (email_written (normalized email) bytes) s) [
          | none ↦ (err sql, s)
          | some t ↦ (ok updated_email, t)
        ]
      ]
    ]

    -- Users::set_email
    unfoldable pub set_email : Text → Option Text → T.State → Outcome DbError EmailOutcome × T.State
    set_email who email s = elim (T.select (is_user who) s) [
      | none ↦ (err sql, s)
      | some rs ↦ elim (first rs) [
        | none ↦ (ok no_such_user, s)
        | some row ↦ elim (key_taken T who (normalized email) s) [
          | err e ↦ (err e, s)
          | ok true ↦ (ok taken_email, s)
          | ok false ↦ write_email who email row s
        ]
      ]
    ]

    -- Users::get
    unfoldable pub get : Text → T.State → Outcome DbError (Option (StoredUser Key))
    get who s = elim (T.select (is_user who) s) [ none ↦ err sql | some rs ↦ decoded (first rs) ]

    -- Users::by_uuid
    unfoldable pub by_uuid : Text → T.State → Outcome DbError (Option (StoredUser Key))
    by_uuid uuid s = elim (T.select (has_uuid uuid) s) [
      | none ↦ err sql
      | some rs ↦ decoded (first rs)
    ]
