-- ===== src/Auth/Cookie.antt =====
-- The session cookie of src/auth.rs, and the credential that src/services/mod.rs reads of a request.
use saros.Base.{
  ℕ, Bool, true, false, if◌then◌else◌, Option, none, some, List, [], ◌∷◌, ◌++◌, Text, text, split,
  add_to_first, trim, strip_prefix, strip_prefix-append, ◌≡◌, refl, ap, ◌∙◌, all, has_char, not,
  ◌&&◌, ◌==◌, is_whitespace, trim_start, arith, inl, inr, all-append, any-apart, all-reverse,
  Option-cases,
}
use mathlib.Core.List.{reverse, reverse-reverse}
use saros.Base.Paths.{split-append_sep, split_absent}

abbrev pub session_cookie : Text
session_cookie = text "saros_session"

unfoldable pub domain_part : Option Text → Text
domain_part none = []
domain_part (some []) = []
domain_part (some (c ∷ d)) = text "; Domain=" ++ c ∷ d

abbrev pub secure_part : Bool → Text
secure_part secure = if secure then text "; Secure" else []

-- set_session_cookie, with SESSION_TTL in decimal
unfoldable pub set_session_cookie : Text → Option Text → Bool → Text
set_session_cookie token domain secure =
    session_cookie
    ++ text "="
    ++ token
    ++ (text "; Path=/; HttpOnly; SameSite=Lax; Max-Age=2592000"
        ++ secure_part secure
        ++ domain_part domain)

-- clear_session_cookie
unfoldable pub clear_session_cookie : Option Text → Bool → Text
clear_session_cookie domain secure =
    session_cookie
    ++ text "=; Path=/; HttpOnly; SameSite=Lax; Max-Age=0"
    ++ secure_part secure
    ++ domain_part domain

unfoldable pub find_token : List Text → Option Text
find_token [] = none
find_token (c ∷ cs) = elim (strip_prefix (session_cookie ++ text "=") (trim c)) [
  | some t ↦ some t
  | none ↦ find_token cs
]

-- cookie_session_token
unfoldable pub cookie_session_token : Text → Option Text
cookie_session_token header = find_token (split b';' header)

-- request_token, with the two headers
unfoldable pub request_token : Option Text → Option Text → Option Text
request_token (some auth) cookie = some auth
request_token none none = none
request_token none (some cookie) = elim (cookie_session_token cookie) [
  | none ↦ none
  | some token ↦ some (text "Bearer " ++ token)
]

-- What a token is made of: neither white space nor a semicolon.
abbrev pub is_token_char : ℕ → Bool
is_token_char c = not (is_whitespace c) && not (c == b';')

trim_start-plain : (s : Text) → all is_token_char s ≡ true → trim_start s ≡ s
unfolding trim_start
trim_start-plain [] h = refl
trim_start-plain (c ∷ s) h = ground (arith, h)

trim-plain : (s : Text) → all is_token_char s ≡ true → trim s ≡ s
unfolding trim
trim-plain s h =
    ap (λ t. reverse (trim_start (reverse t))) (trim_start-plain s h)
    ∙ ap reverse (trim_start-plain (reverse s) (all-reverse is_token_char s h))
    ∙ reverse-reverse s

find_token-append :
    (ws vs : List Text) → find_token ws ≡ none → find_token (ws ++ vs) ≡ find_token vs
unfolding find_token
find_token-append [] vs h = refl
find_token-append (w ∷ ws) vs h =
    elim (Option-cases (strip_prefix (session_cookie ++ text "=") (trim w))) [
      | inl n ↦ rw (n, find_token) (find_token-append ws vs (rw (n, find_token) at h))
      | inr (t, e) ↦ cc (rw (e, find_token) at h)
    ]

abbrev cookie_pair : Text → Text
cookie_pair token = session_cookie ++ text "=" ++ token

pair-plain :
    (token : Text) → all is_token_char token ≡ true → all is_token_char (cookie_pair token) ≡ true
pair-plain token h = all-append is_token_char (session_cookie ++ text "=") token ∙ h

pair_lem :
    (token : Text)
    → all is_token_char token ≡ true
    → strip_prefix (session_cookie ++ text "=") (trim (cookie_pair token)) ≡ some token
pair_lem token h =
    ap (strip_prefix (session_cookie ++ text "="))
      (trim-plain (cookie_pair token) (pair-plain token h))
    ∙ strip_prefix-append (session_cookie ++ text "=") token

second_fails : (a b : Bool) → (a && not b) ≡ true → b ≡ false
second_fails a b h = ground (arith, h)

no_semicolon : (s : Text) → all is_token_char s ≡ true → has_char b';' s ≡ false
no_semicolon s h =
    any-apart is_token_char (λ c. c == b';') s
      (λ c. second_fails (not (is_whitespace c)) (c == b';')) h

split-pair :
    (token after : Text)
    → all is_token_char token ≡ true
    → split b';' (cookie_pair token ++ b';' ∷ after) ≡ cookie_pair token ∷ split b';' after
split-pair token after h =
    split-append_sep b';' (cookie_pair token) after
    ∙ ap (λ ws. ws ++ split b';' after)
        (split_absent b';' (cookie_pair token)
          (no_semicolon (cookie_pair token) (pair-plain token h)))

trim-space : (s : Text) → trim (b' ' ∷ s) ≡ trim s
unfolding trim trim_start
trim-space s = refl

-- A cookie with what comes before it in the header, if anything does, and with what comes after it.
abbrev pub cookie_after : Option Text → Text → Text
cookie_after none cookie = cookie
cookie_after (some before) cookie = before ++ (text "; " ++ cookie)

abbrev pub cookie_before : Option Text → Text → Text
cookie_before none cookie = cookie
cookie_before (some after) cookie = cookie ++ b';' ∷ after

abbrev IsNameless : Option Text → Type 0
IsNameless none = Unit {0}
IsNameless (some header) = cookie_session_token header ≡ none

abbrev parts_of : Option Text → List Text
parts_of none = []
parts_of (some after) = split b';' after

split-cookie_before :
    (token : Text) (after : Option Text)
    → all is_token_char token ≡ true
    → split b';' (cookie_before after (cookie_pair token)) ≡ cookie_pair token ∷ parts_of after
split-cookie_before token none h =
    split_absent b';' (cookie_pair token) (no_semicolon (cookie_pair token) (pair-plain token h))
split-cookie_before token (some after) h = split-pair token after h

split-space :
    (token : Text) (after : Option Text)
    → all is_token_char token ≡ true
    → split b';' (b' ' ∷ cookie_before after (cookie_pair token))
      ≡ (b' ' ∷ cookie_pair token) ∷ parts_of after
unfolding split add_to_first
split-space token after h = ap (add_to_first b' ') (split-cookie_before token after h)

found_after :
    (before after : Option Text) (token : Text)
    → IsNameless before
    → all is_token_char token ≡ true
    → cookie_session_token (cookie_after before (cookie_before after (cookie_pair token)))
      ≡ some token
unfolding cookie_session_token find_token
found_after none after token none_before h =
    ap find_token (split-cookie_before token after h) ∙ rw (pair_lem token h, find_token) refl
found_after (some before) after token none_before h =
    ap find_token (split-append_sep b';' before (b' ' ∷ cookie_before after (cookie_pair token)))
    ∙ find_token-append (split b';' before) _ none_before
    ∙ ap find_token (split-space token after h)
    ∙ rw (trim-space (cookie_pair token), pair_lem token h, find_token) refl

-- The session cookie is read as the bearer credential that a tool would send, be it the only cookie
-- of the header, the first, the last or one between others, if no cookie before it has the session's
-- name and no character of the token is white space or a semicolon, and the request has no
-- Authorization header.
pub request_token-cookie :
    (before after : Option Text) (token : Text)
    → IsNameless before
    → all is_token_char token ≡ true
    → request_token none
        (some (cookie_after before (cookie_before after (session_cookie ++ text "=" ++ token))))
      ≡ some (text "Bearer " ++ token)
unfolding request_token cookie_session_token
request_token-cookie before after token none_before plain =
    rw (found_after before after token none_before plain, request_token) refl

-- The cookie that a sign-in sets gives the token back.
pub cookie_session_token-set_session_cookie :
    (token : Text) (domain : Option Text) (secure : Bool)
    → all is_token_char token ≡ true
    → cookie_session_token (set_session_cookie token domain secure) ≡ some token
unfolding cookie_session_token set_session_cookie find_token
cookie_session_token-set_session_cookie token domain secure plain =
    ap find_token (
      split-pair token
        (text " Path=/; HttpOnly; SameSite=Lax; Max-Age=2592000"
          ++ secure_part secure
          ++ domain_part domain)
        plain)
    ∙ rw (pair_lem token plain, find_token) refl
