-- ===== src/Csv/Quoted.antt =====
-- Fields written in quotes, and how one is read back.
use plant_ops.Prelude.{
  ℕ, Text, true, false, ◌||◌, ◌≡◌, refl, sym, ap, ◌∙◌, arith, inl, inr, [], ◌∷◌, ◌++◌, Option, some,
  ◌=?◌, =?_iff, if◌then◌else◌, Bool-cases,
}
use plant_ops.Csv.{
  QuotedField, read_quoted_field, with_char, line_after, quote, comma, follows_well, is_line_end,
}

-- A quote within a field is doubled.
unfoldable pub escape : Text → Text
escape [] = []
escape (c ∷ s) = if c =? quote then quote ∷ quote ∷ escape s else c ∷ escape s

-- The field is read as `value`, up to `rest`.
abbrev pub IsReadAs : Option QuotedField → Text → Text → Type 0
IsReadAs o value rest = (q : QuotedField) × (o ≡ some q) × (q.value ≡ value) × (q.rest ≡ rest)

read_quoted_field-cons :
    (line c : ℕ) (t v rest : Text)
    → (c =? quote) ≡ false
    → ((l : ℕ) → IsReadAs (read_quoted_field l t) v rest)
    → IsReadAs (read_quoted_field line (c ∷ t)) (c ∷ v) rest
unfolding read_quoted_field
read_quoted_field-cons line c [] v rest e ih = let (q, h, x, y) = ih line in absurd (cc)
read_quoted_field-cons line c (d ∷ s) v rest e ih =
    let (q, h, x, y) = ih (line_after c (d ∷ s) line) in
    (record q { value = c ∷ q.value }, rw (e, h) refl, ap (λ w. c ∷ w) x, y)

read_quoted_field-double :
    (line : ℕ) (t v rest : Text)
    → IsReadAs (read_quoted_field line t) v rest
    → IsReadAs (read_quoted_field line (quote ∷ quote ∷ t)) (quote ∷ v) rest
unfolding read_quoted_field
read_quoted_field-double line t v rest (q, h, x, y) =
    (record q { value = quote ∷ q.value }, ap (with_char quote) h, ap (λ w. quote ∷ w) x, y)

read_quoted_field-close :
    (line : ℕ) (rest : Text)
    → follows_well rest ≡ true
    → IsReadAs (read_quoted_field line (quote ∷ rest)) [] rest
unfolding read_quoted_field
read_quoted_field-close line [] h = (_, refl, refl, refl)
read_quoted_field-close line (c ∷ s) h =
    let e = not_quote c h in
    (record { value = []; rest = c ∷ s; line = line }, rw e refl, refl, refl)
  where
    not_quote : (c : ℕ) → (c =? comma || is_line_end c) ≡ true → (c =? quote) ≡ false
    not_quote c h = ground arith

-- A field in quotes, followed by a separator, the end of a line or nothing, is read as it was.
pub read_quoted_field-escape :
    (line : ℕ) (v rest : Text)
    → follows_well rest ≡ true
    → IsReadAs (read_quoted_field line (escape v ++ quote ∷ rest)) v rest
unfolding escape
read_quoted_field-escape line [] rest h = read_quoted_field-close line rest h
read_quoted_field-escape line (c ∷ v) rest h = elim (Bool-cases (c =? quote)) [
  | inl e ↦
      let same : quote ≡ c = sym ((=?_iff c quote).0 e) in
      rw e (
        quoted same (
          read_quoted_field-double line (escape v ++ quote ∷ rest) v rest
            (read_quoted_field-escape line v rest h)))
  | inr e ↦ rw e (
      read_quoted_field-cons line c (escape v ++ quote ∷ rest) v rest e
        (λ l. read_quoted_field-escape l v rest h))
]
  where
    quoted :
        {o : Option QuotedField} → quote ≡ c → IsReadAs o (quote ∷ v) rest → IsReadAs o (c ∷ v) rest
    quoted same (q, a, b, d) = (q, a, b ∙ ap (λ x. x ∷ v) same, d)
