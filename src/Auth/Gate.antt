-- ===== src/Auth/Gate.antt =====
-- Whom src/auth.rs lets in, for any table of sessions that keeps its documented behaviour: what a
-- minted token is worth, what a revocation takes away, and what a failing store grants.
use saros.Base.{
  ℕ, ◌<◌, ◌≡◌, refl, sym, ap, subst, ◌∙◌, inl, inr, ◌⊎◌, true, false, ltb, Option, some, List, [],
  ◌∷◌, ◌++◌, keep, Text, text, Outcome, ok, arith, Option-cases, Bool-cases, Outcome-cases,
  keep-append, strip_prefix, text_eq_refl,
}
use saros.Db.Table.{DbError, Table, IsRelational, Repo}
use saros.Db.Sessions.{SessionRow, by_digest, is_live, first, live_username}
use saros.Db.Sessions
use saros.Db.Sessions.Laws.{holder, username-holder, lookup-delete, rows-put, holder-touch}
use saros.Auth.{
  anonymous, user, service, Auth, bearer, is_service, is_admin, saturating_add, minted,
  caller_of_lookup, require_signed_in, require_admin, mint, touch, or_false, revoke, caller,
}

pair_eq : {A B : Type 0} {p : A × B} {a : A} {b : B} → p.0 ≡ a → p.1 ≡ b → p ≡ (a, b)
pair_eq h k = ground (arith, h, k)

ltb-holds : (a b : ℕ) → a < b → ltb a b ≡ true
ltb-holds a b h = ground (arith, h)

token_ok : (t t' : Text) → Path (Outcome DbError Text) (ok t) (ok t') → t' ≡ t
token_ok t t' h = cc

module _ (T : Table SessionRow) (law : IsRelational T) (digest_of : Text → List ℕ) where
  -- A caller is the service only by the service token, and a user only by a session that is alive
  -- in the table.
  pub caller_sound :
      (auth : Auth) (now : ℕ) (authorization : Option Text) (s : Repo T)
      → (caller T digest_of auth now authorization s ≡ anonymous)
        ⊎ ((token : Text) × (bearer authorization ≡ some token)
            × (((is_service auth (digest_of token) ≡ true)
                  × (caller T digest_of auth now authorization s ≡ service))
                ⊎ ((who : Text) × (holder now (digest_of token) (T.rows s.table) ≡ some who)
                    × (caller T digest_of auth now authorization s
                        ≡ user who (is_admin auth who)))))
  unfolding caller caller_of_lookup
  caller_sound auth now authorization s = elim (Option-cases (bearer authorization)) [
    | inl n ↦ inl (rw (n, caller) refl)
    | inr (token, e) ↦ elim (Bool-cases (is_service auth (digest_of token))) [
      | inl sv ↦ inr (token, e, inl (sv, rw (e, sv, caller) refl))
      | inr sv ↦ elim (Outcome-cases (Sessions.username T now (digest_of token) s)) [
        | inr (x, h) ↦ inl (rw (e, sv, h, caller) refl)
        | inl (u, h) ↦ elim (Option-cases u) [
          | inl n ↦ inl (rw (e, sv, h, n, caller) refl)
          | inr (who, w) ↦ inr (
            token,
            e,
            inr (
              who,
              sym (username-holder T law now (digest_of token) s u h) ∙ w,
              rw (e, sv, h, w, caller) refl,
            ),
          )
        ]
      ]
    ]
  ]

  -- Whoever passes the admin guard presented the service token, or a session that is alive in the
  -- table for a name that is configured as an admin's.
  pub require_admin-caller :
      (auth : Auth) (now : ℕ) (authorization : Option Text) (s : Repo T)
      → require_admin (caller T digest_of auth now authorization s) ≡ ok tt
      → (token : Text) × (bearer authorization ≡ some token)
        × ((is_service auth (digest_of token) ≡ true)
            ⊎ ((who : Text) × (holder now (digest_of token) (T.rows s.table) ≡ some who)
                × (is_admin auth who ≡ true)))
  unfolding require_admin require_signed_in
  require_admin-caller auth now authorization s h = elim (caller_sound auth now authorization s) [
    | inl a ↦ cc (rw (a, require_admin, require_signed_in) at h)
    | inr (token, e, inl (sv, c)) ↦ (token, e, inl sv)
    | inr (token, e, inr (who, w, c)) ↦ (
      token,
      e,
      inr (
        who,
        w,
        elim (Bool-cases (is_admin auth who)) [
          | inl yes_admin ↦ yes_admin
          | inr no_admin ↦
              let h' : require_admin (user who (is_admin auth who)) ≡ ok tt =
                subst (λ k. require_admin k ≡ ok tt) c h in
              cc (rw (no_admin, require_admin, require_signed_in) at h')
        ],
      ),
    )
  ]

  -- After a revocation that succeeded, the credential is nobody's, at any time and whether or not
  -- the lookup fails, unless it is the service token.
  pub caller-revoke :
      (auth : Auth) (now : ℕ) (token : Text) (s s' : Repo T)
      → is_service auth (digest_of token) ≡ false
      → revoke T digest_of (some (text "Bearer " ++ token)) s ≡ (true, s')
      → caller T digest_of auth now (some (text "Bearer " ++ token)) s' ≡ anonymous
  unfolding caller revoke caller_of_lookup or_false strip_prefix
  caller-revoke auth now token s s' sv r =
      elim (Outcome-cases ((Sessions.delete T (digest_of token) s).0)) [
        | inr (x, d) ↦ cc (rw (d, revoke, or_false) at r)
        | inl (b, d) ↦ elim (Outcome-cases (Sessions.username T now (digest_of token) s')) [
          | inr (x, h) ↦ rw (sv, h, caller) refl
          | inl (u, h) ↦
              rw (sv, h, caller)
                (ap (λ o. caller_of_lookup auth (ok o))
                  (lookup-delete T law now (digest_of token) s s' b u (pair_eq d (ap (λ x. x.1) r))
                    h))
        ]
      ]

  holder-minted :
      (digest : List ℕ) (r : SessionRow) (later : ℕ) (s s' : Repo T)
      → Sessions.put T r s ≡ (ok tt, s')
      → keep (by_digest digest) (T.rows s.table) ≡ []
      → by_digest digest r ≡ true
      → is_live later r ≡ true
      → holder later digest (T.rows s'.table) ≡ some r.username
  unfolding live_username
  holder-minted digest r later s s' d fresh it live =
      ap (holder later digest) (rows-put T law r s s' d)
      ∙ ap (λ rows. live_username later (first rows))
          (keep-append (by_digest digest) (T.rows s.table) (r ∷ []))
      ∙ rw (fresh, it, live) refl

  holder-touch_as :
      (later now : ℕ) (digest : List ℕ) (seen_as : Option Text) (ip device : Text) (s : Repo T)
      → holder later digest (T.rows ((touch T digest_of seen_as ip device now s).table))
        ≡ holder later digest (T.rows s.table)
  unfolding touch
  holder-touch_as later now digest seen_as ip device s = elim (Option-cases (bearer seen_as)) [
    | inl n ↦ rw (n, touch) refl
    | inr (token, e) ↦
        rw (e, touch) (holder-touch T law now later digest (digest_of token) ip device s)
  ]

  -- A token just minted under a digest that no row has is its user's until it expires, as far as
  -- the lookup answers.
  pub caller-mint :
      (auth : Auth) (now later ttl kind : ℕ) (who label token token' : Text) (s s' : Repo T)
      → mint T digest_of (some token) who ttl kind label now s ≡ (ok token', s')
      → keep (by_digest (digest_of token)) (T.rows s.table) ≡ []
      → is_service auth (digest_of token) ≡ false
      → later < saturating_add now ttl
      → (u : Option Text) → Sessions.username T later (digest_of token) s' ≡ ok u
      → (token' ≡ token)
        × (caller T digest_of auth later (some (text "Bearer " ++ token)) s'
            ≡ user who (is_admin auth who))
  unfolding caller mint caller_of_lookup strip_prefix live_username
  caller-mint auth now later ttl kind who label token token' s s' m fresh sv live u h =
      elim (Outcome-cases
        ((Sessions.put T (minted (digest_of token) who ttl kind label now) s).0)) [
          | inr (x, d) ↦ cc (rw (d, mint) at m)
          | inl (a, d) ↦
              let m' = rw (d, mint) at m in
              let found =
                holder-minted (digest_of token) (minted (digest_of token) who ttl kind label now)
                  later s s' (pair_eq d (ap (λ x. x.1) m')) fresh (text_eq_refl (digest_of token))
                  (ltb-holds later (saturating_add now ttl) live) in
              (
                token_ok token token' (ap (λ x. x.0) m'),
                rw (sv, h, caller)
                    (ap (λ o. caller_of_lookup auth (ok o))
                      (username-holder T law later (digest_of token) s' u h ∙ found)),
              )
        ]

  -- Recording that a session was seen changes no caller, as far as the lookups answer.
  pub caller-touch :
      (auth : Auth) (now later : ℕ) (seen_as : Option Text) (token ip device : Text) (s : Repo T)
      → (u u' : Option Text) → Sessions.username T later (digest_of token) s ≡ ok u
      → Sessions.username T later (digest_of token) (touch T digest_of seen_as ip device now s)
        ≡ ok u'
      → caller T digest_of auth later
          (some (text "Bearer " ++ token))
          (touch T digest_of seen_as ip device now s)
        ≡ caller T digest_of auth later (some (text "Bearer " ++ token)) s
  unfolding caller strip_prefix
  caller-touch auth now later seen_as token ip device s u u' h h' =
      let same_holder : holder later (digest_of token)
            (T.rows ((touch T digest_of seen_as ip device now s).table))
          ≡ holder later (digest_of token) (T.rows s.table) =
        holder-touch_as later now (digest_of token) seen_as ip device s in
      let same_user : u' ≡ u =
        username-holder T law later (digest_of token) _ u' h'
        ∙ same_holder
        ∙ sym (username-holder T law later (digest_of token) s u h) in
      rw (h, h', same_user, caller) refl
