-- ===== src/Tests/Access.antt =====
-- Sessions in a table kept in memory: minted, presented, seen and revoked.
use saros.Base.{
  ◌≡◌, ◌≢◌, refl, ◌≤◌, ◌<◌, ◌++◌, ℕ, true, Option, none, some, List, [], ◌∷◌, ◌⊎◌, inl, inr, Text,
  text, Outcome, ok, err, arith, keep,
}
use saros.Db.Table.{Table, Repo, IsRelational, in_memory}
use saros.Db.Sessions.{SessionRow}
use saros.Db.Sessions
use saros.Db.Sessions.Others.{is_other, delete_others_lem}
use saros.Db.Sessions.Laws.{holder}
use saros.Auth.{
  Auth, Caller, anonymous, user, service, minted, mint, revoke, caller, touch, bearer, is_service,
  is_admin, require_admin, saturating_add,
}
use saros.Auth.Gate.{require_admin-caller, caller-revoke, caller-mint}
use saros.Auth.Cookie.{
  request_token, cookie_session_token, set_session_cookie, session_cookie, request_token-cookie,
  cookie_after, cookie_before, cookie_session_token-set_session_cookie,
}

abbrev T : Table SessionRow
T = in_memory SessionRow

T-IsRelational : IsRelational T
T-IsRelational = record {
  select_rows = λ p s rs e. cc;
  create_rows = λ r s t e. cc;
  update_rows = λ p f s t e. cc;
  delete_rows = λ p s t e. cc;
}

-- A digest that tells tokens apart.
abbrev digest_of : Text → List ℕ
digest_of t = t

abbrev auth : Auth
auth = record { service_token_digest = some (text "svc"); admin_users = text "Ann" ∷ [] }

abbrev row : SessionRow
row = minted (text "tok") (text "ann") 100 1 (text "web session") 1000

abbrev nobody : Repo T
nobody = record { table = []; generation = 0 }

abbrev one_session : Repo T
one_session = record { table = row ∷ []; generation = 1 }

abbrev credential : Option Text
credential = some (text "Bearer tok")

require_admin-caller_example :
    (token : Text) × (bearer credential ≡ some token)
    × ((is_service auth (digest_of token) ≡ true)
        ⊎ ((who : Text) × (holder 1050 (digest_of token) (row ∷ []) ≡ some who)
            × (is_admin auth who ≡ true)))
unfolding require_admin saros.Auth.require_signed_in caller saros.Base.strip_prefix
    saros.Base.dec_text saros.Auth.caller_of_lookup Sessions.username Sessions.live_username
require_admin-caller_example =
    require_admin-caller T T-IsRelational digest_of auth 1050 credential one_session refl

caller-revoke_example :
    caller T digest_of auth 1050 credential (revoke T digest_of credential one_session).1
    ≡ anonymous
unfolding saros.Base.dec_text revoke saros.Base.strip_prefix saros.Auth.or_false Sessions.delete
caller-revoke_example =
    caller-revoke T T-IsRelational digest_of auth 1050 (text "tok") one_session
      (revoke T digest_of credential one_session).1 refl refl

caller-mint_example :
    (text "tok" ≡ text "tok")
    × (caller T digest_of auth 1050 credential
          (mint T digest_of
            (some (text "tok"))
            (text "ann")
            100
            1
            (text "web session")
            1000
            nobody).1
        ≡ user (text "ann") (is_admin auth (text "ann")))
unfolding mint Sessions.put saros.Base.dec_text Sessions.username Sessions.live_username
caller-mint_example =
    caller-mint T T-IsRelational digest_of auth 1000 1050 100 1 (text "ann") (text "web session")
      (text "tok") (text "tok") nobody
      (mint T digest_of (some (text "tok")) (text "ann") 100 1 (text "web session") 1000 nobody).1
      refl refl refl (omega arith) (some (text "ann")) refl

request_token-cookie_example :
    request_token none (
      some (
        cookie_after
          (some (text "theme=dark"))
          (cookie_before none (session_cookie ++ text "=" ++ text "0123abcd"))))
    ≡ some (text "Bearer " ++ text "0123abcd")
unfolding cookie_session_token saros.Auth.Cookie.find_token saros.Base.split saros.Base.strip_prefix
    saros.Base.trim
request_token-cookie_example =
    request_token-cookie (some (text "theme=dark")) none (text "0123abcd") refl refl

abbrev two_sessions : Repo T
two_sessions = record {
  table = row ∷ minted (text "tok2") (text "ann") 100 1 [] 1000 ∷ [];
  generation = 2;
}

delete_others_lem_example :
    keep
      (is_other T T-IsRelational (λ d. d) (text "ann") (text "tok"))
      (Sessions.delete_others T (λ d. d) (text "ann") (text "tok") two_sessions).1.table
    ≡ []
unfolding Sessions.delete_others Sessions.delete_each Sessions.counted saros.Base.dec_text
delete_others_lem_example =
    delete_others_lem T T-IsRelational (λ d. d) (text "ann") (text "tok") 1 two_sessions
      (Sessions.delete_others T (λ d. d) (text "ann") (text "tok") two_sessions).1 refl

abbrev after_tok2 : Repo T
after_tok2 = (Sessions.delete_by_id T (λ d. d) (text "ann") (text "tok2") two_sessions).1
