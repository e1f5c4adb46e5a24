-- ===== src/Account.antt =====
-- The account record that src/passkey.rs keeps and src/db/users.rs stores. A passkey is what the
-- webauthn library makes of a registration: a parameter, as is the JSON of a record. A uuid stands
-- for its printed form.
use saros.Base.{◌≡◌, ℕ, List, Option, Text, Outcome, ok}
use saros.Db.Table.{DbError}

pub record Credential (Key : Type 0) : Type 0 where
  pub passkey : Key
  pub label : Text
  pub added_at : ℕ

pub record StoredUser (Key : Type 0) : Type 0 where
  pub uuid : Text
  pub username : Text
  pub credentials : List (Credential Key)
  pub email : Option Text

-- serde_json, on the record: what it writes, and what it reads.
pub record Json (Key : Type 0) : Type 0 where
  pub to_writer : StoredUser Key → Outcome DbError (List ℕ)
  pub from_slice : List ℕ → Outcome DbError (StoredUser Key)

-- What it has written it reads.
pub record IsJson {Key : Type 0} (json : Json Key) : Type 0 where
  pub from_slice-to_writer :
      (user : StoredUser Key) (bytes : List ℕ)
      → json.to_writer user ≡ ok bytes
      → json.from_slice bytes ≡ ok user
