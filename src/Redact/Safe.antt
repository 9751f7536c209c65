-- ===== src/Redact/Safe.antt =====
-- What a redacted payload holds.
use plant_ops.Prelude.{
  ℕ, zero, suc, Text, Bool, false, List, [], ◌∷◌, Option, none, some, ◌≡◌, refl, inl, inr,
  Bool-cases,
}
use plant_ops.Scope.{split, starts_with}
use plant_ops.Refresh.Token.{is_base64url, hex_run, is_hex, is_uuid, split_at_separator}
use plant_ops.Redact.{
  Value, null, undefined, binary, text, number, boolean, bigint, date, reference, Object, array,
  fields, Heap, Json, json_null, string, printed, json_number, json_boolean, items, object,
  JsonItems, no_items, item, JsonFields, no_fields, field, redacted, truncated, circular, max_depth,
  is_secret_key, dollar_follows, looks_like_secret, redact_leaf, or_null, redact_items,
  redact_field, redact_fields, redact_object, has_seen, redact_value, plain_record, redact_payload,
}

-- No string value looks like a secret, the value of a denied key is redacted, and objects and arrays nest
-- to the given depth at most.
mutual
  pub data IsSafe : ℕ → Json → Type 0 where
    of_null : {n : ℕ} → IsSafe n json_null
    of_string : {n : ℕ} {s : Text} → looks_like_secret s ≡ false → IsSafe n (string s)
    of_printed : {n : ℕ} {s : Text} → IsSafe n (printed s)
    of_number : {n m : ℕ} → IsSafe n (json_number m)
    of_boolean : {n : ℕ} {b : Bool} → IsSafe n (json_boolean b)
    of_items : {n : ℕ} {is : JsonItems} → AreSafeItems n is → IsSafe (suc n) (items is)
    of_object : {n : ℕ} {fs : JsonFields} → AreSafeFields n fs → IsSafe (suc n) (object fs)

  pub data AreSafeItems : ℕ → JsonItems → Type 0 where
    of_no_items : {n : ℕ} → AreSafeItems n no_items
    of_item :
        {n : ℕ} {j : Json} {is : JsonItems}
        → IsSafe n j
        → AreSafeItems n is
        → AreSafeItems n (item j is)

  pub data AreSafeFields : ℕ → JsonFields → Type 0 where
    of_no_fields : {n : ℕ} → AreSafeFields n no_fields
    of_denied :
        {n : ℕ} {key : Text} {fs : JsonFields}
        → AreSafeFields n fs
        → AreSafeFields n (field key (string redacted) fs)
    of_field :
        {n : ℕ} {key : Text} {j : Json} {fs : JsonFields}
        → is_secret_key key ≡ false
        → IsSafe n j
        → AreSafeFields n fs
        → AreSafeFields n (field key j fs)

abbrev SafeIfAny : ℕ → Option Json → Type 0
SafeIfAny n none = Unit
SafeIfAny n (some j) = IsSafe n j

redacted-open : looks_like_secret redacted ≡ false
unfolding looks_like_secret split starts_with is_uuid hex_run is_hex is_base64url split_at_separator
    dollar_follows
redacted-open = refl

truncated-open : looks_like_secret truncated ≡ false
unfolding looks_like_secret split starts_with is_uuid hex_run is_hex is_base64url split_at_separator
    dollar_follows
truncated-open = refl

circular-open : looks_like_secret circular ≡ false
unfolding looks_like_secret split starts_with is_uuid hex_run is_hex is_base64url split_at_separator
    dollar_follows
circular-open = refl

redact_leaf-SafeIfAny :
    (n : ℕ) (below : ℕ → Json) (v : Value)
    → ((r : ℕ) → IsSafe n (below r))
    → SafeIfAny n (redact_leaf below v)
unfolding redact_leaf
redact_leaf-SafeIfAny n below null h = of_null
redact_leaf-SafeIfAny n below undefined h = tt
redact_leaf-SafeIfAny n below binary h = of_string redacted-open
redact_leaf-SafeIfAny n below (text s) h = elim (Bool-cases (looks_like_secret s)) [
  | inl e ↦ rw e (of_string redacted-open)
  | inr e ↦ rw e (of_string e)
]
redact_leaf-SafeIfAny n below (number m) h = of_number
redact_leaf-SafeIfAny n below (boolean b) h = of_boolean
redact_leaf-SafeIfAny n below (bigint digits) h = of_printed
redact_leaf-SafeIfAny n below (date iso) h = of_printed
redact_leaf-SafeIfAny n below (reference r) h = h r

module _ (n : ℕ) (redact : Value → Option Json) (safe : (v : Value) → SafeIfAny n (redact v)) where
  or_null-IsSafe : (answer : Option Json) → SafeIfAny n answer → IsSafe n (or_null answer)
  or_null-IsSafe none h = of_null
  or_null-IsSafe (some j) h = h

  redact_items-AreSafeItems : (vs : List Value) → AreSafeItems n (redact_items redact vs)
  unfolding redact_items
  redact_items-AreSafeItems [] = of_no_items
  redact_items-AreSafeItems (v ∷ vs) =
      of_item (or_null-IsSafe (redact v) (safe v)) (redact_items-AreSafeItems vs)

  field_if_any :
      (key : Text) (answer : Option Json) (rest : JsonFields)
      → is_secret_key key ≡ false
      → SafeIfAny n answer
      → AreSafeFields n rest
      → AreSafeFields n (elim answer [ none ↦ rest | some j ↦ field key j rest ])
  field_if_any key none rest k s h = h
  field_if_any key (some j) rest k s h = of_field k s h

  redact_fields-AreSafeFields :
      (entries : List (Text × Value)) → AreSafeFields n (redact_fields redact entries)
  unfolding redact_fields redact_field
  redact_fields-AreSafeFields [] = of_no_fields
  redact_fields-AreSafeFields ((key, v) ∷ entries) =
      let rest = redact_fields-AreSafeFields entries in
      elim (Bool-cases (is_secret_key key)) [
        | inl e ↦ rw e (of_denied rest)
        | inr e ↦ rw e (field_if_any key (redact v) (redact_fields redact entries) e (safe v) rest)
      ]

  redact_object-IsSafe : (o : Object) → IsSafe (suc n) (redact_object redact o)
  unfolding redact_object
  redact_object-IsSafe (array vs) = of_items (redact_items-AreSafeItems vs)
  redact_object-IsSafe (fields entries) = of_object (redact_fields-AreSafeFields entries)

redact_value-SafeIfAny :
    (n : ℕ) (heap : Heap) (seen : List ℕ) (v : Value) → SafeIfAny n (redact_value n heap seen v)
unfolding redact_value
redact_value-SafeIfAny zero heap seen v =
    redact_leaf-SafeIfAny zero _ v (λ r. of_string truncated-open)
redact_value-SafeIfAny (suc n) heap seen v = redact_leaf-SafeIfAny (suc n) _ v (λ r.
    elim (Bool-cases (has_seen seen r)) [
      | inl e ↦ rw e (of_string circular-open)
      | inr e ↦ rw e (
          redact_object-IsSafe n (redact_value n heap (r ∷ seen))
            (redact_value-SafeIfAny n heap (r ∷ seen)) (heap r))
    ])

plain_record-AreSafeFields :
    (n : ℕ) (answer : Option Json)
    → SafeIfAny (suc n) answer
    → AreSafeFields n (plain_record answer)
plain_record-AreSafeFields n none h = of_no_fields
plain_record-AreSafeFields n (some (object fs)) (of_object h) = h
plain_record-AreSafeFields n (some json_null) h = of_no_fields
plain_record-AreSafeFields n (some (string s)) h = of_no_fields
plain_record-AreSafeFields n (some (printed s)) h = of_no_fields
plain_record-AreSafeFields n (some (json_number m)) h = of_no_fields
plain_record-AreSafeFields n (some (json_boolean b)) h = of_no_fields
plain_record-AreSafeFields n (some (items is)) h = of_no_fields

-- Whatever a payload holds and however it refers back to itself: in what is written of it, no
-- string value at any depth looks like a secret, the digits of a bigint and the form of a date apart
-- (the names of fields are kept as they are, whatever they look like); each field with a denied key
-- has the marker as its value; and at most seven objects or arrays stand one in another below the
-- payload itself.
pub redact_payload-AreSafeFields :
    (heap : Heap) (payload : Value) → AreSafeFields 7 (redact_payload heap payload)
unfolding redact_payload
redact_payload-AreSafeFields heap payload =
    plain_record-AreSafeFields 7 (redact_value max_depth heap [] payload)
      (redact_value-SafeIfAny 8 heap [] payload)
