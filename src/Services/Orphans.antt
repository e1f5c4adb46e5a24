-- ===== src/Services/Orphans.antt =====
-- decide_login of src/services/auth.rs, where the sign-in that is approved is not pending.
use saros.Base.{
  ℕ, ◌≡◌, refl, sym, ap, ◌∙◌, inl, inr, ◌⊎◌, subst, Bool, true, false, not, ltb, Option, some, List,
  [], ◌∷◌, ◌++◌, length, keep, keep-append_skip, Text, text, text_eq_refl, strip_prefix-append,
  Outcome, err, Option-cases, Outcome-cases, Bool-cases,
}
use saros.Db.Table.{sql, Table, IsRelational, Repo, deleted, deleted-none, length_none}
use saros.Db.Sessions.{SessionRow, by_digest, by_username, is_live, session_id, kind_api}
use saros.Db.Sessions
use saros.Auth.{or_false, Caller, username, mint_api_token, revoke, require_signed_in, Refusal}
use saros.Login.{Describe, Approve, approves, not_pending, mint_failed, decidable, approve_minted}
use saros.Login
use saros.Services.Wire.{ConnectError, failed_precondition, of_refusal}
use saros.Services.Tokens.{pair_of, rows-mint_api_token, guarded-eq}
use saros.Services.World.{Backend, World, caller_of}
use saros.Services.Signing.{
  described_label, approve_login, decide_approve, decide_deny, LoginStatus, decide_for,
  decide_login,
}

-- What is left of the row of a token that has been minted when the token has been revoked: nothing,
-- or the row, where the revocation says that it failed.
abbrev Revoked : List SessionRow → SessionRow → List SessionRow → Bool → Type 0
Revoked rows r left answered = (left ≡ rows) ⊎ ((answered ≡ false) × (left ≡ rows ++ r ∷ []))

module _ (T : Table SessionRow) (law : IsRelational T) (digest_of : Text → List ℕ) where
  rows-delete_all :
      (digest : List ℕ) (s : Repo T)
      → (T.rows ((Sessions.delete T digest s).1).table
          ≡ deleted (by_digest digest) (T.rows s.table))
        ⊎ (Sessions.delete T digest s ≡ (err sql, s))
  unfolding Sessions.delete
  rows-delete_all digest s = elim (Option-cases (T.select (by_digest digest) s.table)) [
    | inl e ↦ inr (rw (e, Sessions.delete) refl)
    | inr (rs, e) ↦ elim (Bool-cases (ltb 0 (length rs))) [
      | inl there ↦ elim (Option-cases (T.delete (by_digest digest) s.table)) [
        | inl f ↦ inr (rw (e, there, f, Sessions.delete) refl)
        | inr (t, f) ↦
            inl (rw (e, there, f, Sessions.delete) (law.delete_rows (by_digest digest) s.table t f))
      ]
      | inr absent ↦ inl (
          rw (e, absent, Sessions.delete)
            (sym (
              deleted-none (by_digest digest) (T.rows s.table)
                (sym (law.select_rows (by_digest digest) s.table rs e) ∙ length_none rs absent))))
    ]
  ]

  -- The revocation of a token just minted takes its row away again, or fails.
  rows-revoke_minted :
      (token : Text) (rows : List SessionRow) (r : SessionRow) (s : Repo T)
      → T.rows s.table ≡ rows ++ r ∷ []
      → keep (by_digest (digest_of token)) rows ≡ []
      → r.digest ≡ digest_of token
      → Revoked rows r
          (T.rows ((revoke T digest_of (some (text "Bearer " ++ token)) s).1).table)
          ((revoke T digest_of (some (text "Bearer " ++ token)) s).0)
  unfolding revoke or_false
  rows-revoke_minted token rows r s added fresh its = elim (rows-delete_all (digest_of token) s) [
    | inl gone ↦ inl (
        rw (strip_prefix-append (text "Bearer ") token, revoke)
          (gone
            ∙ ap (deleted (by_digest (digest_of token))) added
            ∙ keep-append_skip (λ x. not (by_digest (digest_of token) x)) rows r
                (rw (its, text_eq_refl (digest_of token)) refl)
            ∙ deleted-none (by_digest (digest_of token)) rows fresh))
    | inr failed ↦ inr (
      rw (strip_prefix-append (text "Bearer ") token, revoke)
          (ap (λ a. or_false T digest_of a.0) failed),
      rw (strip_prefix-append (text "Bearer ") token, revoke) (ap (λ a. T.rows (a.1).table) failed)
          ∙ added,
    )
  ]

module _ (B : Backend) where
  -- What a decision leaves of the sessions: what there was, or a session more, of the token that has
  -- been minted, whose revocation has failed.
  abbrev pub Orphaned : Text → World B → World B → Type 0
  Orphaned token w w' =
      (B.sessions.rows w'.sessions.table ≡ B.sessions.rows w.sessions.table)
      ⊎ ((s : Repo B.sessions) × ((revoke B.sessions B.digest_of (some (text "Bearer " ++ token))
              s).0
            ≡ false)
          × ((r : SessionRow) × (r.digest ≡ B.digest_of token)
              × (B.sessions.rows s.table ≡ B.sessions.rows w.sessions.table ++ r ∷ [])
              × (B.sessions.rows w'.sessions.table ≡ B.sessions.rows w.sessions.table ++ r ∷ [])))

module _ (B : Backend) (law : IsRelational B.sessions) where
  -- Either the sign-in is approved, or it was not pending and the token is revoked.
  approve_login-Orphaned :
      (now nanos : ℕ) (code who label token : Text) (r : SessionRow) (w u w' : World B)
      → B.sessions.rows u.sessions.table ≡ B.sessions.rows w.sessions.table ++ r ∷ []
      → keep (by_digest (B.digest_of token)) (B.sessions.rows w.sessions.table) ≡ []
      → r.digest ≡ B.digest_of token
      → approve_login B now nanos code who label token u ≡ (err failed_precondition, w')
      → Orphaned B token w w'
  unfolding approve_login Login.approve approve_minted
  approve_login-Orphaned now nanos code who label token r w u w' added fresh its d =
      elim (Option-cases (decidable nanos code u.logins)) [
        | inr ((device, p), e) ↦ cc (rw (e, approve_login, Login.approve) at d)
        | inl e ↦
            let there =
              ap (λ a. B.sessions.rows ((a.1).sessions).table)
                (rw (e, approve_login, Login.approve) at d) in
            elim (rows-revoke_minted B.sessions law B.digest_of token
              (B.sessions.rows w.sessions.table) r u.sessions added fresh its) [
                | inl gone ↦ inl (sym there ∙ gone)
                | inr (failed, left) ↦ inr (u.sessions, failed, (r, its, added, sym there ∙ left))
              ]
      ]

  rows-decide_deny :
      (nanos : ℕ) (code : Text) (w w' : World B) (a : Outcome ConnectError LoginStatus)
      → decide_deny B nanos code w ≡ (a, w')
      → B.sessions.rows w'.sessions.table ≡ B.sessions.rows w.sessions.table
  unfolding decide_deny
  rows-decide_deny nanos code w w' a d = elim (Bool-cases (Login.deny nanos code w.logins).0) [
    | inl e ↦ ap (λ r. B.sessions.rows ((r.1).sessions).table) (sym (rw (e, decide_deny) at d))
    | inr e ↦ ap (λ r. B.sessions.rows ((r.1).sessions).table) (sym (rw (e, decide_deny) at d))
  ]

  decide_approve-Orphaned :
      (token : Text) (now nanos : ℕ) (code : Text) (c : Caller) (w w' : World B)
      → keep (by_digest (B.digest_of token)) (B.sessions.rows w.sessions.table) ≡ []
      → decide_approve B (some token) now nanos code c w ≡ (err failed_precondition, w')
      → Orphaned B token w w'
  unfolding decide_approve
  decide_approve-Orphaned token now nanos code c w w' fresh d =
      let label = described_label (Login.describe nanos code w.logins) in
      let result =
        mint_api_token B.sessions B.digest_of (some token) (username c) label now w.sessions in
      elim (Outcome-cases result.0) [
        | inr (x, e) ↦ cc (rw (e, decide_approve) at d)
        | inl (t, e) ↦
            let (r, rows, same, its) =
              rows-mint_api_token B.sessions law B.digest_of (some token) (username c) label t now
                w.sessions result.1 (pair_of e refl) in
            let same_token = some_path same in
            subst (λ k. Orphaned B k w w') (sym same_token)
              (approve_login-Orphaned now nanos code (username c) label t r w
                (record w { sessions = result.1 }) w' rows
                (ap (λ k. keep (by_digest (B.digest_of k)) (B.sessions.rows w.sessions.table))
                    (sym same_token)
                  ∙ fresh)
                its (rw (e, decide_approve) at d))
      ]
    where
      some_path : {a b : Text} → some a ≡ some b → a ≡ b
      some_path g = cc

  -- A decision on a sign-in that is not pending leaves the sessions as they were, or, where the
  -- revocation of the token that an approval mints first fails, with the one row of that token more.
  -- The token's digest is one that no session has.
  pub rows-decide_login :
      (token : Text) (now nanos : ℕ) (credential : Option Text) (code : Text) (approve : Bool)
      (w w' : World B)
      → keep (by_digest (B.digest_of token)) (B.sessions.rows w.sessions.table) ≡ []
      → decide_login B (some token) now nanos credential code approve w
        ≡ (err failed_precondition, w')
      → Orphaned B token w w'
  unfolding decide_login decide_for
  rows-decide_login token now nanos credential code approve w w' fresh d = decided approve (
      guarded-eq B law (require_signed_in (caller_of B now credential w)) _ w w'
        (err failed_precondition) d not_refused)
    where
      not_refused :
          (e : Refusal)
          → Path (Outcome ConnectError LoginStatus) (err failed_precondition) (err (of_refusal e))
          → ⊥
      not_refused Refusal.unauthenticated h = cc
      not_refused Refusal.permission_denied h = cc

      decided :
          (approve : Bool)
          → decide_for B (some token) now nanos code approve (caller_of B now credential w) w
            ≡ (err failed_precondition, w')
          → Orphaned B token w w'
      decided true h =
          decide_approve-Orphaned token now nanos code (caller_of B now credential w) w w' fresh h
      decided false h = inl (rows-decide_deny nanos code w w' (err failed_precondition) h)
