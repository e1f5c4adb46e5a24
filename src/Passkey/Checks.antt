-- ===== src/Passkey/Checks.antt =====
-- The checks of src/passkey.rs on what a user types.
use saros.Base.{
  ℕ, Bool, false, not, ◌&&◌, ◌||◌, ◌==◌, if◌then◌else◌, leb, ltb, Option, none, some, [], ◌∷◌, all,
  any, take, Text, text, text_eq, trim, len, has_char, starts_with, ends_with, is_whitespace,
  is_lower, is_digit, Outcome, ok, err,
}
use saros.Passkey.{PasskeyError, invalid_email}

abbrev pub is_name_char : ℕ → Bool
is_name_char b = is_lower b || is_digit b || b == b'.' || b == b'_' || b == b'-'

-- valid_username
unfoldable pub valid_username : Text → Bool
valid_username s = not (text_eq s []) && leb (len s) 32 && all is_name_char s

-- str::splitn by a character, into two: what is before the first one, and what is after it.
unfoldable pub split_two : ℕ → Text → Text × Text
split_two sep [] = ([], [])
split_two sep (c ∷ s) =
    let rest = split_two sep s in if c == sep then ([], s) else (c ∷ rest.0, rest.1)

-- The two halves of an email address.
abbrev pub is_address : Text → Text → Bool
is_address local domain =
    not (text_eq local [])
    && leb 3 (len domain)
    && has_char b'.' domain
    && not (starts_with (text ".") domain)
    && not (ends_with (text ".") domain)

-- valid_email
unfoldable pub valid_email : Text → Bool
valid_email typed =
    let s = trim typed in
    let parts = split_two b'@' s in
    if text_eq s [] || ltb 254 (len s) || any is_whitespace s
    then false
    else is_address parts.0 parts.1

-- clean_label
unfoldable pub clean_label : Text → Text
clean_label label = if text_eq (trim label) [] then text "passkey" else take 64 (trim label)

abbrev pub checked : Text → Outcome PasskeyError (Option Text)
checked typed =
    if text_eq typed []
    then ok none
    else if valid_email typed
    then ok (some typed)
    else err invalid_email

-- The recovery email of finish and of set_email: none where it is blank.
unfoldable pub checked_email : Option Text → Outcome PasskeyError (Option Text)
checked_email none = ok none
checked_email (some typed) = checked (trim typed)
