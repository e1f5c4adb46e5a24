-- ===== src/Db/Users/Codec.antt =====
-- The codec of src/db/mod.rs: a version byte, and the JSON of an account.
use saros.Base.{◌≡◌, sym, ap, ◌∙◌, inl, inr, ℕ, List, Outcome, ok, Outcome-cases}
use saros.Account.{StoredUser, Json, IsJson}
use saros.Db.Table.{DbError}
use saros.Db.Users.{encode_user, decode_user}

module _ {Key : Type 0} (json : Json Key) (law : IsJson json) where
  -- An account that has been encoded is decoded as it was.
  pub decode_user-encode_user :
      (user : StoredUser Key) (bytes : List ℕ)
      → encode_user json user ≡ ok bytes
      → decode_user json bytes ≡ ok user
  unfolding encode_user decode_user
  decode_user-encode_user user bytes e = elim (Outcome-cases (json.to_writer user)) [
    | inr (x, w) ↦ cc (rw (w, encode_user) at e)
    | inl (rest, w) ↦
        ap (decode_user json) (sym (some_ok (rw (w, encode_user) at e)))
        ∙ law.from_slice-to_writer user rest w
  ]
    where
      some_ok : {a b : List ℕ} → Path (Outcome DbError (List ℕ)) (ok a) (ok b) → a ≡ b
      some_ok g = cc
