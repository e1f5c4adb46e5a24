-- ===== src/Services/Tokens.antt =====
-- The tokens that the handlers of src/services/auth.rs leave in the sessions.
use saros.Base.{
  ℕ, ◌+◌, ◌≡◌, ◌≢◌, ◌≤◌, refl, sym, ap, ◌∙◌, inl, inr, Bool, ◌&&◌, leb, Option, none, some, List,
  [], ◌∷◌, ◌++◌, length, map, keep, tally, tally-keep, tally_same, tally-append, Text, Outcome, ok,
  err, arith, Option-cases, Outcome-cases, Bool-cases,
}
use saros.Db.Table.{DbError, Table, IsRelational, Repo}
use saros.Db.Sessions.{
  SessionRecord, session_record, SessionRow, by_digest, by_username, is_live, session_id, kind_api,
}
use saros.Db.Sessions
use saros.Db.Sessions.Laws.{rows-put}
use saros.Auth.{username, minted, mint, mint_api_token, api_token_ttl, require_signed_in, Refusal}
use saros.Services.Wire.{ConnectError, of_refusal}
use saros.Services.World.{Backend, World, caller_of}
use saros.Services.Signing.{
  max_api_tokens_per_user, is_api, token_label, mint_named, create_for, create_api_token,
}

pub pair_of : {A B : Type 0} {a : A} {p : A × B} {b : B} → p.0 ≡ a → p.1 ≡ b → p ≡ (a, b)
pair_of h g = λ i. (h i, g i)

module _ (T : Table SessionRow) (law : IsRelational T) (digest_of : Text → List ℕ) where
  -- A token that has been minted is one row more.
  pub rows-mint_api_token :
      (rng : Option Text) (who label token : Text) (now : ℕ) (s s' : Repo T)
      → mint_api_token T digest_of rng who label now s ≡ (ok token, s')
      → (r : SessionRow) × (T.rows s'.table ≡ T.rows s.table ++ r ∷ [])
        × (rng ≡ some token)
        × (r.digest ≡ digest_of token)
  unfolding mint_api_token mint
  rows-mint_api_token none who label token now s s' d = cc
  rows-mint_api_token (some t) who label token now s s' d =
      let r = minted (digest_of t) who api_token_ttl kind_api label now in
      elim (Outcome-cases (Sessions.put T r s).0) [
        | inr (x, e) ↦ cc (rw (e, mint) at d)
        | inl (done, e) ↦
            let d' = rw (e, mint) at d in
            let same : t ≡ token = some_ok (ap (λ a. a.0) d') in
            (
              r,
              rows-put T law r s s' (pair_of e (ap (λ a. a.1) d')),
              ap some same,
              ap digest_of same,
            )
      ]
    where
      some_ok : {a b : Text} → Path (Outcome DbError Text) (ok a) (ok b) → a ≡ b
      some_ok g = cc

-- Whether the record of a row is of an API token.
abbrev is_api_row : SessionRow → Bool
is_api_row r = is_api (session_record r)

length-numbered :
    (hex : List ℕ → Text) (rows : List SessionRow)
    → length (
        keep
          (λ (e : Text × SessionRecord). is_api e.1)
          (map (λ r. (session_id hex r.digest, session_record r)) rows))
      ≡ tally is_api_row rows
length-numbered hex [] = refl
length-numbered hex (r ∷ rows) = ground (arith, length-numbered hex rows)

tally_more :
    (p : SessionRow → Bool) (xs : List SessionRow) (r : SessionRow)
    → tally p (xs ++ r ∷ []) ≤ tally p xs + 1
tally_more p xs r = ground (arith, tally-append p xs (r ∷ []))

module _ (B : Backend) (law : IsRelational B.sessions) where
  -- A live API token of a user.
  abbrev pub is_token_of : Text → ℕ → SessionRow → Bool
  is_token_of who now r = by_username who r && is_live now r && is_api_row r

  listed :
      (now : ℕ) (who : Text) (s : Repo B.sessions) (out : List (Text × SessionRecord))
      → Sessions.list B.sessions B.hex now who s ≡ ok out
      → length (keep (λ e. is_api e.1) out) ≡ tally (is_token_of who now) (B.sessions.rows s.table)
  unfolding Sessions.list
  listed now who s out h =
      elim (Option-cases (B.sessions.select (λ r. by_username who r && is_live now r) s.table)) [
        | inl e ↦ cc (rw (e, Sessions.list) at h)
        | inr (rs, e) ↦
            let rows = B.sessions.rows s.table in
            let found = law.select_rows (λ r. by_username who r && is_live now r) s.table rs e in
            ap (λ a. length (keep (λ x. is_api x.1) a)) (sym (some_ok (rw (e, Sessions.list) at h)))
            ∙ length-numbered B.hex rs
            ∙ ap (tally is_api_row) found
            ∙ tally-keep (λ r. by_username who r && is_live now r) is_api_row rows
            ∙ tally_same (λ r. (by_username who r && is_live now r) && is_api_row r)
                (is_token_of who now) rows (λ r. ground arith)
      ]
    where
      some_ok :
          {a b : List (Text × SessionRecord)}
          → Path (Outcome DbError (List (Text × SessionRecord))) (ok a) (ok b)
          → a ≡ b
      some_ok g = cc

  minted_more :
      (rng : Option Text) (now : ℕ) (who label token : Text) (w w' : World B)
      → mint_named B rng now who label w ≡ (ok token, w')
      → (r : SessionRow) × (B.sessions.rows w'.sessions.table
          ≡ B.sessions.rows w.sessions.table ++ r ∷ [])
  unfolding mint_named
  minted_more rng now who label token w w' d =
      elim (Outcome-cases (mint_api_token B.sessions B.digest_of rng who label now w.sessions).0) [
        | inr (x, e) ↦ cc (rw (e, mint_named) at d)
        | inl (t, e) ↦
            let d' = rw (e, mint_named) at d in
            let (r, rows, _, _) =
              rows-mint_api_token B.sessions law B.digest_of rng who label t now w.sessions
                w'.sessions (pair_of e (ap (λ a. (a.1).sessions) d')) in
            (r, rows)
      ]

  -- A token that create_api_token has created leaves its user with at most 20 live API tokens.
  pub tally-create_for :
      (rng : Option Text) (now : ℕ) (name who token : Text) (w w' : World B)
      → create_for B rng now name who w ≡ (ok token, w')
      → tally (is_token_of who now) (B.sessions.rows w'.sessions.table) ≤ max_api_tokens_per_user
  unfolding create_for
  tally-create_for rng now name who token w w' d =
      elim (Outcome-cases (Sessions.list B.sessions B.hex now who w.sessions)) [
        | inr (x, e) ↦ cc (rw (e, create_for) at d)
        | inl (out, e) ↦
            elim (Bool-cases (leb max_api_tokens_per_user (length (keep (λ a. is_api a.1) out)))) [
              | inl full ↦ cc (rw (e, full, create_for) at d)
              | inr room ↦
                  let (r, rows) =
                    minted_more rng now who (token_label name) token w w'
                      (rw (e, room, create_for) at d) in
                  ground (
                    arith,
                    room,
                    listed now who w.sessions out e,
                    ap (tally (is_token_of who now)) rows,
                    tally_more (is_token_of who now) (B.sessions.rows w.sessions.table) r,
                  )
            ]
      ]

  -- What a handler behind require_signed_in has done that succeeds, or that does not fail at it.
  pub guarded-eq :
      {A : Type 0} (o : Outcome Refusal (Unit {0})) (done : Outcome ConnectError A × World B)
      (w w' : World B) (a : Outcome ConnectError A)
      → (elim o [ err e ↦ (err (of_refusal e), w) | ok x ↦ done ]) ≡ (a, w')
      → ((e : Refusal) → a ≢ err (of_refusal e))
      → done ≡ (a, w')
  guarded-eq (ok x) done w w' a h other = h
  guarded-eq (err e) done w w' a h other = absurd (other e (sym (ap (λ r. r.0) h)))

  -- A token that create_api_token has created leaves the caller with at most 20 live API tokens.
  pub tally-create_api_token :
      (rng : Option Text) (now : ℕ) (credential : Option Text) (name token : Text) (w w' : World B)
      → create_api_token B rng now credential name w ≡ (ok token, w')
      → tally
          (is_token_of (username (caller_of B now credential w)) now)
          (B.sessions.rows w'.sessions.table)
        ≤ max_api_tokens_per_user
  unfolding create_api_token
  tally-create_api_token rng now credential name token w w' d =
      tally-create_for rng now name (username (caller_of B now credential w)) token w w' (
        guarded-eq (require_signed_in (caller_of B now credential w)) _ w w' (ok token) d
          (λ e h. cc))
