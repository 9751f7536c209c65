-- ===== src/Redact/Caught.antt =====
-- The refresh tokens of Refresh/Token are seen by their shape.
use plant_ops.Prelude.{
  ℕ, Text, Bool, true, false, ◌||◌, [], ◌∷◌, ◌++◌, some, ◌≡◌, refl, sym, ap, ◌∙◌, inl, inr, arith,
  Bool-cases, ◌=?◌,
}
use plant_ops.Scope.{split}
use plant_ops.Scope as Scope
use plant_ops.Scope.Labels.{split_cons}
use plant_ops.Refresh.Token.{
  separator, is_hex, is_uuid, is_secret, hex_run, format_refresh_token, checked,
}
use plant_ops.Refresh.Token.Laws.{has_no_separator, is_uuid-has_no_separator, split-format}
use plant_ops.Redact.{
  is_modular_crypt, is_jwt, is_refresh_token, is_given, is_scope_label, is_scope_path,
  is_high_entropy_blob, looks_like_secret, text, string, redacted, redact_leaf, Json,
}

has_no_separator-separator : (s t : Text) → has_no_separator (s ++ separator ∷ t) ≡ false
has_no_separator-separator [] t = refl
has_no_separator-separator (c ∷ s) t = ground (arith, has_no_separator-separator s t)

is_uuid-token :
    (session_id secret : Text) → is_uuid (format_refresh_token session_id secret) ≡ false
unfolding format_refresh_token
is_uuid-token session_id secret = elim (Bool-cases (is_uuid (session_id ++ separator ∷ secret))) [
  | inr e ↦ e
  | inl e ↦ absurd (
      let bad : true ≡ false =
        sym (is_uuid-has_no_separator (session_id ++ separator ∷ secret) e)
        ∙ has_no_separator-separator session_id secret in
      ground (arith, bad))
]

is_hex-not_n : (c : ℕ) → is_hex c ≡ true → (c =? b'n' || c =? b'N') ≡ false
unfolding is_hex
is_hex-not_n c h = ground (arith, h)

is_scope_label-hex : (c : ℕ) (s : Text) → is_hex c ≡ true → is_scope_label (c ∷ s) ≡ false
unfolding is_scope_label
is_scope_label-hex c [] h = refl
is_scope_label-hex c (u ∷ s) h = rw (is_hex-not_n c h) refl

is_scope_path-hex : (c : ℕ) (s : Text) → is_hex c ≡ true → is_scope_path (c ∷ s) ≡ false
unfolding is_scope_path split
is_scope_path-hex c s h =
    let (label, labels, e) = split_cons Scope.separator s in
    let other : (c =? Scope.separator) ≡ false = unfold is_hex in ground (arith, h) in
    rw (other, e, is_scope_label-hex c label h) refl

is_scope_path-token :
    (session_id secret : Text)
    → is_uuid session_id ≡ true
    → is_scope_path (format_refresh_token session_id secret) ≡ false
unfolding is_uuid hex_run format_refresh_token
is_scope_path-token [] secret u = absurd (ground (arith, u))
is_scope_path-token (c ∷ s) secret u = elim (Bool-cases (is_hex c)) [
  | inl e ↦ is_scope_path-hex c (s ++ separator ∷ secret) e
  | inr e ↦ absurd (let k : false ≡ true = rw e at u in ground (arith, k))
]

is_refresh_token-format :
    (session_id secret : Text)
    → is_uuid session_id ≡ true
    → is_secret secret ≡ true
    → is_refresh_token (format_refresh_token session_id secret) ≡ true
unfolding is_refresh_token
is_refresh_token-format session_id secret u v =
    let parts = split-format session_id secret (is_uuid-has_no_separator session_id u) in
    ap (λ o. is_given (checked o)) parts ∙ rw (u, v) refl

or_third : (a b c d : Bool) → c ≡ true → (a || b || c || d) ≡ true
or_third a b c d h = ground (arith, h)

-- Each refresh token, of a uuid and a well-formed secret, is redacted wherever it stands as a
-- value.
pub redact_leaf-format_refresh_token :
    (below : ℕ → Json) (session_id secret : Text)
    → is_uuid session_id ≡ true
    → is_secret secret ≡ true
    → redact_leaf below (text (format_refresh_token session_id secret)) ≡ some (string redacted)
unfolding redact_leaf looks_like_secret
redact_leaf-format_refresh_token below session_id secret u v =
    let token = format_refresh_token session_id secret in
    rw
      (
        is_uuid-token session_id secret,
        is_scope_path-token session_id secret u,
        or_third (is_modular_crypt token) (is_jwt token) (is_refresh_token token)
            (is_high_entropy_blob token) (is_refresh_token-format session_id secret u v),
      )
      refl
