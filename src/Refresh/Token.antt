-- ===== src/Refresh/Token.antt =====
-- The opaque token `<session id>~<secret>` of refresh-token.util.ts.
pub mod Laws
use plant_ops.Prelude.{
  ℕ, zero, suc, ◌+◌, ◌≤◌, Text, codes, Bool, true, false, ◌&&◌, ◌||◌, ◌≡◌, refl, sym, ap, ◌∙◌, inl,
  inr, arith, List, [], ◌∷◌, ◌++◌, Option, none, some, leb, ltb, ◌=?◌, if◌then◌else◌, all, length,
  Bool-cases, length-append, not, ◌==◌, eq_iff,
}

abbrev pub separator : ℕ
separator = b'~'

abbrev pub refresh_token_max_length : ℕ
refresh_token_max_length = 128

abbrev pub is_digit : ℕ → Bool
is_digit c = leb b'0' c && leb c b'9'

-- `[0-9a-f]` under the flag `i`
unfoldable pub is_hex : ℕ → Bool
is_hex c = is_digit c || (leb b'a' c && leb c b'f') || (leb b'A' c && leb c b'F')

-- `[A-Za-z0-9_-]`
unfoldable pub is_base64url : ℕ → Bool
is_base64url c =
    is_digit c || (leb b'a' c && leb c b'z') || (leb b'A' c && leb c b'Z') || c =? b'_' || c =? b'-'

-- Exactly `n` hexadecimal digits, then what the continuation accepts.
unfoldable pub hex_run : ℕ → (Text → Bool) → Text → Bool
unfolding is_hex
hex_run zero k s = k s
hex_run (suc n) k [] = false
hex_run (suc n) k (c ∷ s) = is_hex c && hex_run n k s

abbrev pub hyphen_then : (Text → Bool) → Text → Bool
hyphen_then k [] = false
hyphen_then k (c ∷ s) = c =? b'-' && k s

abbrev pub at_end : Text → Bool
at_end [] = true
at_end (c ∷ s) = false

-- `UUID_PATTERN`
unfoldable pub is_uuid : Text → Bool
unfolding hex_run
is_uuid = hex_run 8 (
    hyphen_then (
      hex_run 4
        (hyphen_then (hex_run 4 (hyphen_then (hex_run 4 (hyphen_then (hex_run 12 at_end))))))))

-- `SECRET_PATTERN`
unfoldable pub is_secret : Text → Bool
unfolding is_base64url
is_secret s = all is_base64url s && leb 16 (length s)

unfoldable pub format_refresh_token : Text → Text → Text
format_refresh_token session_id secret = session_id ++ separator ∷ secret

-- The parts round the first separator: `indexOf` and the two `slice`s.
unfoldable pub split_at_separator : Text → Option (Text × Text)
split_at_separator [] = none
split_at_separator (c ∷ s) =
    let rest = split_at_separator s in
    if c =? separator
    then some ([], s)
    else elim rest [ none ↦ none | some (before, after) ↦ some (c ∷ before, after) ]

abbrev pub checked : Option (Text × Text) → Option (Text × Text)
checked none = none
checked (some (session_id, secret)) =
    if not (is_uuid session_id) || not (is_secret secret) then none else some (session_id, secret)

unfoldable pub parse_refresh_token : Text → Option (Text × Text)
unfolding split_at_separator is_uuid is_secret
parse_refresh_token token =
    if ltb refresh_token_max_length (length token) then none else checked (split_at_separator token)
