-- ===== src/Csv/Ends.antt =====
-- The fuel is enough: every content is read to its end or to an error.
use plant_ops.Prelude.{
  ℕ, zero, suc, ◌≤◌, Text, ◌&&◌, ◌≡◌, refl, sym, ap, arith, inl, inr, List, [], ◌∷◌, Option, none,
  some, ◌=?◌, length, Bool-cases,
}
use mathlib.Core.Option.{some-injective}
use plant_ops.Csv.{
  ParsedLine, CsvTable, Parsed, QuotedField, read_quoted_field, with_char, line_after, quote, Scan,
  Step, fails, continues, after_quoted, follows_well, after_line_end, is_line_end, comma, pass,
  dispatch, scan_lines, start_scan, read_lines, parse_csv, without_mark, table_of, finished, failed,
}

with_char-rest :
    (c : ℕ) (o : Option QuotedField) (q : QuotedField)
    → with_char c o ≡ some q
    → (p : QuotedField) × (o ≡ some p) × (q.rest ≡ p.rest)
with_char-rest c none q h = absurd (cc)
with_char-rest c (some p) q h = (p, refl, ap QuotedField.rest (sym (some-injective _ _ h)))

-- What follows a quoted field is shorter than the content.
read_quoted_field-shorter :
    (line : ℕ) (s : Text) (q : QuotedField)
    → read_quoted_field line s ≡ some q
    → suc (length q.rest) ≤ length s
unfolding read_quoted_field
read_quoted_field-shorter line [] q h = absurd (cc)
read_quoted_field-shorter line (c ∷ []) q h = elim (Bool-cases (c =? quote)) [
  | inl e ↦
      let k : some (record { value = []; rest = []; line = line }) ≡ some q = rw e at h in
      let r : [] ≡ q.rest = ap QuotedField.rest (some-injective _ _ k) in
      let n : 0 ≡ length q.rest = ap length r in omega (arith, n)
  | inr e ↦ let k : none ≡ some q = rw e at h in absurd (cc)
]
read_quoted_field-shorter line (c ∷ d ∷ s) q h = elim (Bool-cases (c =? quote)) [
  | inr e ↦
      let k : with_char c (read_quoted_field (line_after c (d ∷ s) line) (d ∷ s)) ≡ some q =
        rw e at h in
      let (p, f, r) = with_char-rest c _ q k in
      let n : length q.rest ≡ length p.rest = ap length r in
      let ih = read_quoted_field-shorter (line_after c (d ∷ s) line) (d ∷ s) p f in
      omega (arith, n, ih)
  | inl e ↦ elim (Bool-cases (d =? quote)) [
    | inl g ↦
        let k : with_char quote (read_quoted_field line s) ≡ some q = rw (e, g) at h in
        let (p, f, r) = with_char-rest quote _ q k in
        let n : length q.rest ≡ length p.rest = ap length r in
        let ih = read_quoted_field-shorter line s p f in omega (arith, n, ih)
    | inr g ↦
        let k : some (record { value = []; rest = d ∷ s; line = line }) ≡ some q = rw (e, g) at h in
        let r : d ∷ s ≡ q.rest = ap QuotedField.rest (some-injective _ _ k) in
        let n : suc (length s) ≡ length q.rest = ap length r in omega (arith, n)
  ]
]

-- A pass that goes on leaves no more than what followed its first character.
abbrev pub Advances : Step → Text → Type 0
Advances (fails e) s = Unit
Advances (continues st rest) s = length rest ≤ length s

after_quoted-Advances :
    (st : Scan) (s : Text) (o : Option QuotedField)
    → ((q : QuotedField) → o ≡ some q → suc (length q.rest) ≤ length s)
    → Advances (after_quoted st o) s
after_quoted-Advances st s none h = tt
after_quoted-Advances st s (some q) h = elim (Bool-cases (follows_well q.rest)) [
  | inl e ↦ rw e (omega (arith, h q refl))
  | inr e ↦ rw e tt
]

after_line_end-shorter : (c : ℕ) (s : Text) → length (after_line_end c s) ≤ length s
after_line_end-shorter c [] = omega arith
after_line_end-shorter c (d ∷ s) = ground arith

dispatch-Advances : (st : Scan) (c : ℕ) (s : Text) → Advances (dispatch st c s) s
unfolding dispatch
dispatch-Advances st c s = elim (Bool-cases (c =? quote && st.at_field_start)) [
  | inl e ↦ rw e (
      after_quoted-Advances st s (read_quoted_field st.line_number s)
        (read_quoted_field-shorter st.line_number s))
  | inr e ↦ elim (Bool-cases (c =? comma)) [
    | inl f ↦ rw (e, f) (omega arith)
    | inr f ↦ elim (Bool-cases (is_line_end c)) [
      | inl g ↦ rw (e, f, g) (after_line_end-shorter c s)
      | inr g ↦ rw (e, f, g) (omega arith)
    ]
  ]
]

pub pass-Advances : (st : Scan) (c : ℕ) (s : Text) → Advances (pass st c s) s
unfolding pass
pass-Advances st c s = dispatch-Advances _ c s

scan_lines-ends :
    (fuel : ℕ) (st : Scan) (s : Text)
    → length s ≤ fuel
    → (r : Parsed (List ParsedLine)) × (scan_lines fuel st s ≡ some r)
unfolding scan_lines
scan_lines-ends fuel st [] h = (_, refl)
scan_lines-ends zero st (c ∷ s) h = absurd (omega (arith, h))
scan_lines-ends (suc fuel) st (c ∷ s) h =
    go (λ st' s' k. scan_lines-ends fuel st' s' k) (pass st c s) (pass-Advances st c s)
  where
    go :
        ((st' : Scan) (s' : Text)
          → length s' ≤ fuel
          → (r : Parsed (List ParsedLine)) × (scan_lines fuel st' s' ≡ some r))
        → (step : Step) → Advances step s
        → (r : Parsed (List ParsedLine)) × ((elim step [
          | fails e ↦ some (failed e)
          | continues st' s' ↦ scan_lines fuel st' s'
        ])
            ≡ some r)
    go ih (fails e) a = (failed e, refl)
    go ih (continues st' s') a = ih st' s' (omega (arith, a, h))

-- Every content is parsed to a table or to an error: the loop ends within as many passes as the
-- content has characters.
pub parse_csv-ends :
    (lower : Text → Text) (content : Text)
    → (r : Parsed CsvTable) × (parse_csv lower content ≡ some r)
unfolding parse_csv read_lines
parse_csv-ends lower content =
    let s = without_mark content in
    let (r, e) = scan_lines-ends (length s) start_scan s (omega arith) in
    (table_of lower r, ap (finished lower) e)
