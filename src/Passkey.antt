-- ===== src/Passkey.antt =====
-- src/passkey.rs: sign-in with passkeys. A ceremony begins and is finished once; accounts are in
-- the users table. What webauthn-rs does is a parameter, as are the random flow id and uuid, none
-- where the generator fails. Time is in nanoseconds, `secs` in seconds.
pub mod Checks
pub mod Ceremonies
pub mod Keys
pub mod Beginning
pub mod Flows
pub mod Finishing
pub mod Credentials
pub mod Owned
pub mod Adding
use saros.Base.{
  ℕ, ◌*◌, ◌-◌, Bool, true, false, not, ◌&&◌, if◌then◌else◌, leb, ltb, Option, none, some, List, [],
  ◌∷◌, length, keep, Text, text_eq, Outcome, ok, err,
}
use saros.Base.Map.{Map}
use saros.Account.{Credential, StoredUser}
use saros.Db.Table.{DbError, Table}
use saros.Db.Users.{UserRow}

abbrev pub pending_ttl : ℕ
pending_ttl = 300 * 1_000_000_000

abbrev pub max_pending : ℕ
max_pending = 4096

pub record CredentialInfo : Type 0 where
  pub id : Text
  pub label : Text
  pub added_at : ℕ

pub data PasskeyError : Type 0 where
  invalid_username invalid_email username_taken email_taken unknown_flow no_such_user : PasskeyError
  no_such_credential last_credential too_many_pending webauthn json rng : PasskeyError
  db : DbError → PasskeyError

pub data PasskeyMode : Type 0 where
  registers authenticates : PasskeyMode

-- What webauthn-rs does: it starts ceremonies, from what its random generator gives it, and
-- finishes them with the JSON of a browser's answer.
pub record Webauthn (Key : Type 0) : Type 1 where
  pub Registration : Type 0
  pub Authentication : Type 0
  pub Challenge : Type 0
  pub cred_id : Key → List ℕ
  pub start_registration :
      ℕ → Text → Text → Option (List (List ℕ)) → Outcome PasskeyError (Challenge × Registration)
  pub start_authentication : ℕ → Outcome PasskeyError (Challenge × Authentication)
  pub with_resident_key : Challenge → Challenge
  pub to_string : Challenge → Outcome PasskeyError Text
  pub finish_registration : Text → Registration → Outcome PasskeyError Key
  pub identify : Text → Outcome PasskeyError Text
  pub finish_authentication : Text → Authentication → List Key → Outcome PasskeyError (Unit {0})

module _ {Key : Type 0} (W : Webauthn Key) where
  pub data Ceremony : Type 0 where
    register : Text → Text → W.Registration → Ceremony
    authenticate : W.Authentication → Ceremony
    add_credential : Text → W.Registration → Ceremony

  pub record Pending : Type 0 where
    pub created : ℕ
    pub ceremony : Ceremony

  pub record Passkeys (T : Table UserRow) : Type 0 where
    pub pending : Map Text Pending
    pub users : T.State
