-- ===== src/Tests/Accounts.antt =====
-- Accounts in a table kept in memory that has its constraints, and passkeys that every answer proves.
use saros.Base.{
  ◌≡◌, ◌≤◌, refl, ℕ, Bool, true, false, not, ltb, ◌==◌, ◌&&◌, Option, none, some, List, [], ◌∷◌,
  ◌++◌, keep, length, tally, if◌then◌else◌, Text, text, text_eq, dec_text, text_eq_iff, Outcome, ok,
  err, arith, Bool-cases, inl, inr, ap,
}
use saros.Base.Map
use saros.Account.{Credential, StoredUser}
use saros.Db.Table.{Table, IsRelational, updated, deleted}
use saros.Db.Users.{
  UserRow, CreateOutcome, is_user, has_email, user_row, encode_user, create_if_absent, set_email,
  upsert_user, get,
}
use saros.Db.Users
use saros.Db.Users.Unique.{claims, AreAccounts, IsConstrained}
use saros.Db.Users.Creation.{expected_create, create_if_absent-expected_create}
use saros.Db.Users.Emails.{set_email-AreAccounts}
use saros.Db.Users.Stored.{get-upsert_user}
use saros.Passkey.{
  PasskeyError, PasskeyMode, registers, CredentialInfo, Webauthn, register, add_credential, Pending,
  Passkeys, max_pending,
}
use saros.Passkey.Ceremonies.{finish, info_of}
use saros.Passkey.Keys.{finish_add, remove, has_id, with_credentials, labelled}
use saros.Passkey.Flows.{run, run-bounded, beginning, IsSpent, finish_once}
use saros.Passkey.Credentials.{Proven, finish_lem}
use saros.Passkey.Owned.{remove_lem}
use saros.Passkey.Adding.{Added, finish_add_lem}
use saros.Tests.Json.{codec, codec-IsJson}

abbrev is_free : UserRow → List UserRow → Bool
is_free r rows = tally (is_user r.username) rows == 0 && claims r.email rows == 0

abbrev pub accounts : Table UserRow
accounts = record {
  State = List UserRow;
  rows = λ s. s;
  select = λ p s. some (keep p s);
  create = λ r s. if is_free r s then some (s ++ r ∷ []) else none;
  update = λ p f s. some (updated p f s);
  delete = λ p s. some (deleted p s);
}

accounts-IsRelational : IsRelational accounts
accounts-IsRelational = record {
  select_rows = λ p s rs e. cc;
  create_rows = λ r s t e. elim (Bool-cases (is_free r s)) [
    | inl f ↦ cc (rw f at e)
    | inr f ↦ cc (rw f at e)
  ];
  update_rows = λ p f s t e. cc;
  delete_rows = λ p s t e. cc;
}

accounts-IsConstrained : IsConstrained accounts
accounts-IsConstrained = record {
  create_free = λ r s t e. elim (Bool-cases (is_free r s)) [
    | inl f ↦ (ground (arith, f), ground (arith, f))
    | inr f ↦ cc (rw f at e)
  ];
}

abbrev key_at : Text → Credential Text
key_at k = record { passkey = k; label = text "passkey"; added_at = 100 }

abbrev ann : StoredUser Text
ann = record {
  uuid = text "u1";
  username = text "ann";
  credentials = key_at (text "k1") ∷ key_at (text "k2") ∷ [];
  email = some (text "Ann@x.io");
}

abbrev ann_bytes : List ℕ
ann_bytes = elim (encode_user codec ann) [ ok bytes ↦ bytes | err e ↦ [] ]

abbrev same : List UserRow → List UserRow
same s = s

abbrev with_ann : List UserRow
with_ann = (upsert_user codec accounts ann []).1

-- The username is taken, and nothing is written.
create_if_absent-expected_create_example :
    create_if_absent codec accounts same same ann with_ann
    ≡ (ok CreateOutcome.username_taken, with_ann)
unfolding upsert_user encode_user dec_text expected_create
create_if_absent-expected_create_example =
    create_if_absent-expected_create codec accounts accounts-IsRelational same same ann ann_bytes
      with_ann refl (λ p h. cc) (λ p h. cc)

with_ann-AreAccounts : AreAccounts with_ann
unfolding upsert_user
with_ann-AreAccounts k = (ground arith, ground arith)

set_email-AreAccounts_example :
    AreAccounts (set_email codec accounts (text "ann") (some (text "b@c.de")) with_ann).1
set_email-AreAccounts_example =
    set_email-AreAccounts codec accounts accounts-IsRelational (text "ann") (some (text "b@c.de"))
      with_ann with_ann-AreAccounts

get-upsert_user_example : some ann ≡ some ann
unfolding upsert_user get encode_user dec_text Users.decode_user
get-upsert_user_example =
    get-upsert_user codec codec-IsJson accounts accounts-IsRelational ann (some ann) [] with_ann
      (omega arith) refl refl

abbrev pub webauthn : Webauthn Text
webauthn = record {
  Registration = Text;
  Authentication = Text;
  Challenge = Text;
  cred_id = λ k. k;
  start_registration = λ seed uuid name exclude. ok (uuid, name);
  start_authentication = λ seed. ok (text "c", text "st");
  with_resident_key = λ c. c;
  to_string = λ c. ok c;
  finish_registration = λ answer st. ok answer;
  identify = λ answer. ok answer;
  finish_authentication = λ answer st keys. ok tt;
}

abbrev pub print : List ℕ → Text
print t = t

abbrev signing_up : Passkeys webauthn accounts
signing_up = record {
  pending =
      (text "f", record { created = 5; ceremony = register (text "u1") (text "bob") (text "st") })
      ∷ [];
  users = with_ann;
}

run-bounded_example :
    length
      (run webauthn codec print accounts signing_up
        (beginning 7 1 (text "u2") (some (text "g")) (text "eve") ∷ [])).pending
    ≤ max_pending
run-bounded_example =
    run-bounded webauthn codec print accounts signing_up
      (beginning 7 1 (text "u2") (some (text "g")) (text "eve") ∷ []) (omega arith)

finish_once_example :
    IsSpent webauthn codec print accounts 101
      (text "f")
      (text "k3")
      (text "l")
      (text "bob")
      none
      (finish webauthn codec print accounts 100 (text "f") (text "k3") none signing_up).1
    × IsSpent webauthn codec print accounts 101
        (text "f")
        (text "k3")
        (text "l")
        (text "bob")
        none
        (finish_add webauthn codec print accounts 100
          (text "f")
          (text "k3")
          (text "l")
          (text "bob")
          signing_up).1
finish_once_example =
    finish_once webauthn codec print accounts 100 101 (text "f") (text "k3") (text "l") (text "bob")
      (text "k3") (text "l") (text "bob") none none signing_up

finish_lem_example :
    (p : Pending webauthn) × (Map.get dec_text (text "f") signing_up.pending ≡ some p)
    × Proven webauthn codec print accounts signing_up 100 (text "k3") none p (text "bob") registers
unfolding finish saros.Passkey.Ceremonies.finish_taken saros.Passkey.Ceremonies.take_pending Map.get
    dec_text saros.Passkey.Ceremonies.finish_register saros.Passkey.Checks.checked_email
    saros.Passkey.Ceremonies.create_account saros.Passkey.Ceremonies.created_answer create_if_absent
    encode_user Users.taken upsert_user Users.taken_key
finish_lem_example =
    finish_lem webauthn codec print accounts 100 (text "f") (text "k3") none (text "bob") registers
      signing_up refl

abbrev adding : Passkeys webauthn accounts
adding = record {
  pending =
      (text "f", record { created = 5; ceremony = add_credential (text "ann") (text "st") }) ∷ [];
  users = with_ann;
}

abbrev info : CredentialInfo
info = record { id = text "k3"; label = text "laptop"; added_at = 100 }

abbrev ann_with : StoredUser Text
ann_with =
    with_credentials webauthn codec print accounts
      (ann.credentials
        ++ record { passkey = text "k3"; label = text "laptop"; added_at = 100 } ∷ [])
      ann

abbrev added : Passkeys webauthn accounts
added =
    (finish_add webauthn codec print accounts 100 (text "f") (text "k3") (text "laptop")
      (text "ann") adding).1

finish_add_lem_example :
    (p : Pending webauthn) × (Map.get dec_text (text "f") adding.pending ≡ some p)
    × Added webauthn codec print accounts 100
        (text "k3")
        (text "laptop")
        (text "ann")
        ann
        (some ann_with)
        p
        info
    × (keep (λ r. not (is_user (text "ann") r)) added.users
        ≡ keep (λ r. not (is_user (text "ann") r)) adding.users)
unfolding finish_add saros.Passkey.Keys.add_taken saros.Passkey.Ceremonies.take_pending Map.get
    dec_text saros.Passkey.Keys.add_verified get upsert_user encode_user Users.decode_user
    saros.Passkey.Keys.add_to saros.Passkey.Keys.stored saros.Passkey.Checks.clean_label
    saros.Base.trim
finish_add_lem_example =
    finish_add_lem webauthn codec print accounts codec-IsJson accounts-IsRelational 100 (text "f")
      (text "k3") (text "laptop") (text "ann") ann (some ann_with) info adding added refl
      (omega arith) refl refl refl

abbrev removed : Passkeys webauthn accounts
removed = (remove webauthn codec print accounts (text "ann") (text "k1") adding).1

abbrev ann_left : StoredUser Text
ann_left = with_credentials webauthn codec print accounts (key_at (text "k2") ∷ []) ann

remove_lem_example : (Path (Option (StoredUser Text)) (some ann_left) (some ann_left)) × (1 ≤ 1)
unfolding remove upsert_user encode_user dec_text get Users.decode_user
    saros.Passkey.Keys.remove_from saros.Passkey.Keys.stored
remove_lem_example =
    remove_lem webauthn codec print accounts codec-IsJson accounts-IsRelational (text "ann")
      (text "k1") ann (some ann_left) adding removed refl (omega arith) (omega arith) refl refl refl
