-- ===== src/Refresh/Token/Laws.antt =====
-- What parses is what was formatted.
use plant_ops.Prelude.{
  ℕ, zero, suc, ◌≤◌, Text, Bool, true, false, ◌≡◌, refl, sym, ap, ◌∙◌, inl, inr, arith, [], ◌∷◌,
  Option, none, some, ltb, ◌=?◌, all, length, Bool-cases, not, Option-cases,
}
use plant_ops.Refresh.Token.{
  separator, refresh_token_max_length, is_hex, hex_run, hyphen_then, at_end, is_uuid, is_secret,
  format_refresh_token, split_at_separator, checked, parse_refresh_token,
}

-- No separator among the code units.
abbrev pub has_no_separator : Text → Bool
has_no_separator = all (λ c. not (c =? separator))

is_hex-not-separator : (c : ℕ) → is_hex c ≡ true → not (c =? separator) ≡ true
unfolding is_hex
is_hex-not-separator c h = ground arith

hex_run-has_no_separator :
    (n : ℕ) (k : Text → Bool)
    → ((s : Text) → k s ≡ true → has_no_separator s ≡ true)
    → (s : Text) → hex_run n k s ≡ true
    → has_no_separator s ≡ true
unfolding hex_run
hex_run-has_no_separator zero k f s h = f s h
hex_run-has_no_separator (suc n) k f [] h = refl
hex_run-has_no_separator (suc n) k f (c ∷ s) h =
    ground (arith, is_hex-not-separator c, hex_run-has_no_separator n k f s)

hyphen_then-has_no_separator :
    (k : Text → Bool)
    → ((s : Text) → k s ≡ true → has_no_separator s ≡ true)
    → (s : Text) → hyphen_then k s ≡ true
    → has_no_separator s ≡ true
hyphen_then-has_no_separator k f [] h = refl
hyphen_then-has_no_separator k f (c ∷ s) h = ground (arith, f s)

at_end-has_no_separator : (s : Text) → at_end s ≡ true → has_no_separator s ≡ true
at_end-has_no_separator [] h = refl
at_end-has_no_separator (c ∷ s) h = absurd (ground arith)

pub is_uuid-has_no_separator : (s : Text) → is_uuid s ≡ true → has_no_separator s ≡ true
unfolding is_uuid
is_uuid-has_no_separator = hex_run-has_no_separator 8 _ (
    hyphen_then-has_no_separator _ (
      hex_run-has_no_separator 4 _ (
        hyphen_then-has_no_separator _ (
          hex_run-has_no_separator 4 _ (
            hyphen_then-has_no_separator _ (
              hex_run-has_no_separator 4 _ (
                hyphen_then-has_no_separator _
                  (hex_run-has_no_separator 12 at_end at_end-has_no_separator))))))))

pub split-format :
    (session_id secret : Text)
    → has_no_separator session_id ≡ true
    → split_at_separator (format_refresh_token session_id secret) ≡ some (session_id, secret)
unfolding split_at_separator format_refresh_token
split-format [] secret h = refl
split-format (c ∷ s) secret h =
    let e : (c =? separator) ≡ false = ground arith in
    let ih = split-format s secret (ground arith) in rw (e, ih) refl

abbrev found : Text → Text → Option (Text × Text)
found session_id secret = some (session_id, secret)

ltb_of_le : (m n : ℕ) → n ≤ m → ltb m n ≡ false
ltb_of_le m n h = ground arith

-- A token built from a uuid and a well-formed secret, of at most 128 code units, parses back to
-- exactly these two parts.
pub parse-format :
    (session_id secret : Text)
    → is_uuid session_id ≡ true
    → is_secret secret ≡ true
    → length (format_refresh_token session_id secret) ≤ refresh_token_max_length
    → parse_refresh_token (format_refresh_token session_id secret) ≡ some (session_id, secret)
unfolding parse_refresh_token
parse-format session_id secret u v n =
    let e =
      ltb_of_le refresh_token_max_length (length (format_refresh_token session_id secret)) n in
    rw (e, split-format session_id secret (is_uuid-has_no_separator session_id u), u, v) refl

format-split :
    (token session_id secret : Text)
    → split_at_separator token ≡ some (session_id, secret)
    → format_refresh_token session_id secret ≡ token
unfolding split_at_separator format_refresh_token
format-split [] session_id secret h = absurd (ground arith)
format-split (c ∷ s) session_id secret h = elim (Bool-cases (c =? separator)) [
  | inl e ↦
      let q : some ([], s) ≡ some (session_id, secret) = rw e at h in
      let sep : c ≡ separator = ground arith in cc
  | inr e ↦ elim (Option-cases (split_at_separator s)) [
    | inl n ↦ let q : none ≡ some (session_id, secret) = rw (e, n) at h in cc
    | inr ((before, after), n) ↦
        let q : some (c ∷ before, after) ≡ some (session_id, secret) = rw (e, n) at h in
        let ih = format-split s before after n in
        let here : c ∷ format_refresh_token before after ≡ c ∷ s = ap (λ r. c ∷ r) ih in cc
  ]
]

-- A token that parses is the formatted pair of its parts, a uuid and a well-formed secret, and has
-- at most 128 code units.
pub format-parse :
    (token session_id secret : Text)
    → parse_refresh_token token ≡ some (session_id, secret)
    → (format_refresh_token session_id secret ≡ token)
      × (is_uuid session_id ≡ true)
      × (is_secret secret ≡ true)
      × (length token ≤ refresh_token_max_length)
unfolding parse_refresh_token
format-parse token session_id secret h =
    elim (Bool-cases (ltb refresh_token_max_length (length token))) [
      | inl e ↦ let q : none ≡ some (session_id, secret) = rw e at h in cc
      | inr e ↦ elim (Option-cases (split_at_separator token)) [
        | inl n ↦ let q : none ≡ some (session_id, secret) = rw (e, n) at h in cc
        | inr ((before, after), n) ↦
            let q : checked (some (before, after)) ≡ some (session_id, secret) = rw (e, n) at h in
            let (u, v, l, r) = parts_of before after session_id secret q in
            let whole = format-split token before after n in
            (cc, u, v, le_of_ltb refresh_token_max_length (length token) e)
      ]
    ]
  where
    le_of_ltb : (m n : ℕ) → ltb m n ≡ false → n ≤ m
    le_of_ltb m n h = ground arith

    parts_of :
        (before after session_id secret : Text)
        → checked (some (before, after)) ≡ some (session_id, secret)
        → (is_uuid session_id ≡ true)
          × (is_secret secret ≡ true)
          × (before ≡ session_id)
          × (after ≡ secret)
    parts_of before after session_id secret h = elim (Bool-cases (is_uuid before)) [
      | inr u ↦ let q : none ≡ some (session_id, secret) = rw u at h in cc
      | inl u ↦ elim (Bool-cases (is_secret after)) [
        | inr v ↦ let q : none ≡ some (session_id, secret) = rw (u, v) at h in cc
        | inl v ↦
            let q : found before after ≡ found session_id secret = rw (u, v) at h in
            let l : before ≡ session_id = cc in
            let r : after ≡ secret = cc in (ap is_uuid (sym l) ∙ u, ap is_secret (sym r) ∙ v, l, r)
      ]
    ]
