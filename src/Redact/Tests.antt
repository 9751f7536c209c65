-- ===== src/Redact/Tests.antt =====
-- Runs of the redaction.
use plant_ops.Prelude.{zero, suc, Text, codes, true, [], ◌∷◌, ◌++◌, ◌≡◌, refl}
use plant_ops.Scope.{split, starts_with}
use plant_ops.Refresh.Token.{is_hex, is_uuid, is_secret, hex_run, is_base64url, split_at_separator}
use plant_ops.Redact.{
  text, number, reference, fields, array, Heap, string, json_number, items, item, no_items,
  no_fields, field, redacted, circular, normalize_key, has_infix, is_secret_key, dollar_follows,
  looks_like_secret, is_jwt, is_modular_crypt, is_refresh_token, is_scope_path, is_scope_label,
  is_run, redact_leaf, redact_items, redact_field, redact_fields, redact_object, redact_value,
  redact_payload,
}
use plant_ops.Redact.Safe.{AreSafeFields, redact_payload-AreSafeFields}

abbrev a_uuid : Text
a_uuid = codes "00000000-0000-0000-0000-00000000000a"

abbrev a_secret : Text
a_secret = codes "abcdefghijklmnop"

-- An object that holds itself, beside a password and an array with a token.
abbrev a_heap : Heap
a_heap zero = fields (
    (codes "API-Key", text (codes "k"))
    ∷ (codes "id", text a_uuid)
    ∷ (codes "self", reference 0)
    ∷ (codes "list", reference 1)
    ∷ [])
a_heap (suc r) = array (text (a_uuid ++ b'~' ∷ a_secret) ∷ number 5 ∷ [])

redact_payload-a_heap :
    redact_payload a_heap (reference 0)
    ≡ field (codes "API-Key") (string redacted) (
        field (codes "id") (string a_uuid) (
          field (codes "self") (string circular) (
            field
              (codes "list")
              (items (item (string redacted) (item (json_number 5) no_items)))
              no_fields)))
unfolding redact_payload redact_value redact_leaf redact_object redact_items redact_fields
    redact_field is_secret_key normalize_key has_infix starts_with looks_like_secret is_jwt
    is_modular_crypt is_refresh_token is_scope_path is_scope_label is_run dollar_follows split
    split_at_separator is_uuid is_secret hex_run is_hex is_base64url
redact_payload-a_heap = refl

redact_payload-AreSafeFields_example : AreSafeFields 7 (redact_payload a_heap (reference 0))
redact_payload-AreSafeFields_example = redact_payload-AreSafeFields a_heap (reference 0)

a_uuid-is_uuid : is_uuid a_uuid ≡ true
unfolding is_uuid hex_run is_hex
a_uuid-is_uuid = refl

a_secret-is_secret : is_secret a_secret ≡ true
unfolding is_secret is_base64url
a_secret-is_secret = refl
