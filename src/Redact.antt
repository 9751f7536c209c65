-- ===== src/Redact.antt =====
-- The redaction of audit payloads: apps/iam-api/src/audit/redact.ts. An object is a cell of a heap,
-- so that it may hold itself; numbers are opaque, dates are valid, and no
-- key is `__proto__`.
pub mod Safe
pub mod Caught
mod Tests
use plant_ops.Prelude.{
  ℕ, zero, suc, ◌+◌, Text, codes, Bool, true, false, not, ◌&&◌, ◌||◌, List, [], ◌∷◌, Option, none,
  some, any, all, leb, ◌=?◌, length, if◌then◌else◌,
}
use plant_ops.Scope.{starts_with, split}
use plant_ops.Scope as Scope
use plant_ops.Refresh.Token.{
  is_digit, is_hex, is_base64url, hex_run, at_end, is_uuid, split_at_separator, checked,
}

-- `undefined` is a function or a symbol too; a bigint has its digits, a date its ISO string.
pub data Value : Type 0 where
  null undefined binary : Value
  text : Text → Value
  number : ℕ → Value
  boolean : Bool → Value
  bigint : Text → Value
  date : Text → Value
  reference : ℕ → Value

pub data Object : Type 0 where
  array : List Value → Object
  fields : List (Text × Value) → Object

abbrev pub Heap : Type 0
Heap = ℕ → Object

-- What is written; `printed` is the string of a bigint or of a date.
mutual
  pub data Json : Type 0 where
    json_null : Json
    string : Text → Json
    printed : Text → Json
    json_number : ℕ → Json
    json_boolean : Bool → Json
    items : JsonItems → Json
    object : JsonFields → Json

  pub data JsonItems : Type 0 where
    no_items : JsonItems
    item : Json → JsonItems → JsonItems

  pub data JsonFields : Type 0 where
    no_fields : JsonFields
    field : Text → Json → JsonFields → JsonFields

abbrev pub redacted : Text
redacted = codes "[redacted]"

abbrev pub truncated : Text
truncated = codes "[truncated]"

abbrev pub circular : Text
circular = codes "[circular]"

abbrev pub max_depth : ℕ
max_depth = 8

abbrev pub denied_key_fragments : List Text
denied_key_fragments =
    codes "password"
    ∷ codes "passwd"
    ∷ codes "secret"
    ∷ codes "token"
    ∷ codes "credential"
    ∷ codes "hash"
    ∷ codes "salt"
    ∷ codes "signature"
    ∷ codes "privatekey"
    ∷ codes "apikey"
    ∷ codes "authorization"
    ∷ codes "cookie"
    ∷ []

abbrev pub is_upper : ℕ → Bool
is_upper c = leb b'A' c && leb c b'Z'

abbrev pub is_lower : ℕ → Bool
is_lower c = leb b'a' c && leb c b'z'

-- `toLowerCase`, then `replace(/[^a-z0-9]/g, '')`: beside the capital letters, only U+0130 and
-- U+212A have one of these characters in their lower case.
unfoldable pub normalize_key : Text → Text
normalize_key [] = []
normalize_key (c ∷ key) =
    let rest = normalize_key key in
    if is_upper c
    then (c + 32) ∷ rest
    else if is_lower c || is_digit c
    then c ∷ rest
    else if c =? 304
    then b'i' ∷ rest
    else if c =? 8490
    then b'k' ∷ rest
    else rest

unfoldable pub has_infix : Text → Text → Bool
has_infix fragment [] = starts_with [] fragment
has_infix fragment (c ∷ s) = let rest = has_infix fragment s in starts_with (c ∷ s) fragment || rest

unfoldable pub is_secret_key : Text → Bool
unfolding normalize_key has_infix
is_secret_key key =
    let normalized = normalize_key key in
    any (λ fragment. has_infix fragment normalized) denied_key_fragments

-- `[a-z0-9]` under the flag `i`
abbrev pub is_alphanumeric : ℕ → Bool
is_alphanumeric c = is_lower c || is_upper c || is_digit c

-- `[a-z0-9-]*\$` under the flag `i`
unfoldable pub dollar_follows : Text → Bool
dollar_follows [] = false
dollar_follows (c ∷ s) =
    let rest = dollar_follows s in c =? b'$' || ((is_alphanumeric c || c =? b'-') && rest)

-- `MODULAR_CRYPT`
unfoldable pub is_modular_crypt : Text → Bool
unfolding dollar_follows
is_modular_crypt (d ∷ c ∷ s) = d =? b'$' && is_alphanumeric c && dollar_follows s
is_modular_crypt _ = false

unfoldable pub is_run : Text → Bool
unfolding is_base64url
is_run [] = false
is_run (c ∷ s) = all is_base64url (c ∷ s)

abbrev pub is_jwt_head : Text → Bool
is_jwt_head (a ∷ b ∷ c ∷ s) = a =? b'e' && b =? b'y' && c =? b'J' && is_run s
is_jwt_head _ = false

abbrev pub are_jwt_parts : List Text → Bool
are_jwt_parts (h ∷ p ∷ s ∷ []) = is_jwt_head h && is_run p && all is_base64url s
are_jwt_parts _ = false

-- `JWT`
unfoldable pub is_jwt : Text → Bool
unfolding split is_run
is_jwt s = are_jwt_parts (split Scope.separator s)

abbrev pub is_given : Option (Text × Text) → Bool
is_given none = false
is_given (some parts) = true

-- `REFRESH_TOKEN`
unfoldable pub is_refresh_token : Text → Bool
unfolding split_at_separator is_uuid
is_refresh_token s = is_given (checked (split_at_separator s))

unfoldable pub is_scope_label : Text → Bool
unfolding hex_run
is_scope_label (n ∷ u ∷ s) = (n =? b'n' || n =? b'N') && u =? b'_' && hex_run 32 at_end s
is_scope_label _ = false

-- `SCOPE_PATH`
unfoldable pub is_scope_path : Text → Bool
unfolding split is_scope_label
is_scope_path s = all is_scope_label (split Scope.separator s)

-- `HIGH_ENTROPY_BLOB`
abbrev pub is_high_entropy_blob : Text → Bool
is_high_entropy_blob s = all is_base64url s && leb 32 (length s)

unfoldable pub looks_like_secret : Text → Bool
unfolding is_modular_crypt is_jwt is_refresh_token is_scope_path
looks_like_secret s =
    if is_uuid s || is_scope_path s
    then false
    else is_modular_crypt s || is_jwt s || is_refresh_token s || is_high_entropy_blob s

-- A value, where `below` writes what a reference leads to.
unfoldable pub redact_leaf : (ℕ → Json) → Value → Option Json
unfolding looks_like_secret
redact_leaf below null = some json_null
redact_leaf below undefined = none
redact_leaf below binary = some (string redacted)
redact_leaf below (text s) = some (string (if looks_like_secret s then redacted else s))
redact_leaf below (number n) = some (json_number n)
redact_leaf below (boolean b) = some (json_boolean b)
redact_leaf below (bigint digits) = some (printed digits)
redact_leaf below (date iso) = some (printed iso)
redact_leaf below (reference r) = some (below r)

abbrev pub or_null : Option Json → Json
or_null none = json_null
or_null (some j) = j

unfoldable pub redact_items : (Value → Option Json) → List Value → JsonItems
redact_items redact [] = no_items
redact_items redact (v ∷ vs) = item (or_null (redact v)) (redact_items redact vs)

unfoldable pub redact_field : (Value → Option Json) → Text → Value → JsonFields → JsonFields
unfolding is_secret_key
redact_field redact key v rest =
    if is_secret_key key
    then field key (string redacted) rest
    else elim (redact v) [ none ↦ rest | some j ↦ field key j rest ]

unfoldable pub redact_fields : (Value → Option Json) → List (Text × Value) → JsonFields
unfolding redact_field
redact_fields redact [] = no_fields
redact_fields redact ((key, v) ∷ rest) = redact_field redact key v (redact_fields redact rest)

unfoldable pub redact_object : (Value → Option Json) → Object → Json
unfolding redact_items redact_fields
redact_object redact (array vs) = items (redact_items redact vs)
redact_object redact (fields entries) = object (redact_fields redact entries)

abbrev pub has_seen : List ℕ → ℕ → Bool
has_seen seen r = any (λ s. s =? r) seen

-- `redactValue`, with the levels that are left before the bound.
unfoldable pub redact_value : ℕ → Heap → List ℕ → Value → Option Json
unfolding redact_leaf redact_object
redact_value zero heap seen v = redact_leaf (λ r. string truncated) v
redact_value (suc levels) heap seen v =
    redact_leaf
      (λ r. elim (has_seen seen r) [
        | true ↦ string circular
        | false ↦ redact_object (redact_value levels heap (r ∷ seen)) (heap r)
      ])
      v

-- `isPlainRecord`, and the empty object for what is not one.
abbrev pub plain_record : Option Json → JsonFields
plain_record (some (object out)) = out
plain_record _ = no_fields

unfoldable pub redact_payload : Heap → Value → JsonFields
unfolding redact_value
redact_payload heap payload = plain_record (redact_value max_depth heap [] payload)
