-- ===== src/Csv/RoundTrip.antt =====
-- Rows written in quotes are read back.
use plant_ops.Prelude.{
  ℕ, zero, suc, ◌≤◌, Text, true, false, ◌≡◌, refl, sym, ap, ◌∙◌, arith, List, [], ◌∷◌, ◌++◌, Option,
  some, if◌then◌else◌, length, map,
}
use mathlib.Core.List.{map-append, append_assoc, append-nil}
use mathlib.Core.Path.{subst}
use plant_ops.Csv.{
  ParsedLine, Parsed, parsed, failed, quote, comma, line_feed, follows_well, Scan, Step, fails,
  continues, after_line_end, next_line, end_line, dispatch, pass, scan_lines, start_scan,
  read_lines,
}
use plant_ops.Csv.Ends.{Advances, pass-Advances}
use plant_ops.Csv.Quoted.{escape, read_quoted_field-escape}

-- A row is a first field and the others.
abbrev pub field_text : Text → Text → Text
field_text f rest = quote ∷ escape f ++ quote ∷ rest

unfoldable pub row_text : Text → List Text → Text → Text
row_text f [] rest = field_text f (line_feed ∷ rest)
row_text f (g ∷ gs) rest = field_text f (comma ∷ row_text g gs rest)

unfoldable pub rows_text : List (Text × List Text) → Text
unfolding row_text
rows_text [] = []
rows_text ((f, fs) ∷ rows) = row_text f fs (rows_text rows)

abbrev resume : ℕ → Step → Option (Parsed (List ParsedLine))
resume fuel step = elim step [
  | fails e ↦ some (failed e)
  | continues st' s' ↦ scan_lines fuel st' s'
]

-- Fuel beyond the length of the content makes no difference.
scan_lines-fuel :
    (f g : ℕ) (st : Scan) (s : Text)
    → length s ≤ f
    → length s ≤ g
    → scan_lines f st s ≡ scan_lines g st s
unfolding scan_lines
scan_lines-fuel f g st [] h k = refl
scan_lines-fuel zero g st (c ∷ s) h k = absurd (omega (arith, h))
scan_lines-fuel (suc f) zero st (c ∷ s) h k = absurd (omega (arith, k))
scan_lines-fuel (suc f) (suc g) st (c ∷ s) h k =
    go (λ st' s' x y. scan_lines-fuel f g st' s' x y) (pass st c s) (pass-Advances st c s)
  where
    go :
        ((st' : Scan) (s' : Text)
          → length s' ≤ f
          → length s' ≤ g
          → scan_lines f st' s' ≡ scan_lines g st' s')
        → (step : Step) → Advances step s
        → resume f step ≡ resume g step
    go ih (fails e) a = refl
    go ih (continues st' s') a = ih st' s' (omega (arith, a, h)) (omega (arith, a, k))

abbrev pub run : Scan → Text → Option (Parsed (List ParsedLine))
run st s = scan_lines (length s) st s

pub run-continues :
    (st st' : Scan) (c : ℕ) (s s' : Text)
    → pass st c s ≡ continues st' s'
    → run st (c ∷ s) ≡ run st' s'
unfolding scan_lines
run-continues st st' c s s' h =
    let shorter : length s' ≤ length s = subst (λ step. Advances step s) h (pass-Advances st c s) in
    ap (resume (length s)) h ∙ scan_lines-fuel (length s) (length s') st' s' shorter (omega arith)

-- At the start of a field, with the rows and the values read so far.
pub record IsReady (st : Scan) (rows : List (List Text)) (values : List Text) : Type 0 where
  pub rows_read : map ParsedLine.values st.lines ≡ rows
  pub values_read : st.values ≡ values
  pub no_field : st.field ≡ []
  pub at_start : st.at_field_start ≡ true

-- After a field.
pub record HasField (st : Scan) (rows : List (List Text)) (values : List Text) (f : Text)
    : Type 0 where
  pub rows_read : map ParsedLine.values st.lines ≡ rows
  pub values_read : st.values ≡ values
  pub field_read : st.field ≡ f
  pub begun : st.pending ≡ true

pub field-read :
    (st : Scan) (rows : List (List Text)) (values : List Text) (f rest : Text)
    → IsReady st rows values
    → follows_well rest ≡ true
    → (st' : Scan) × (run st (field_text f rest) ≡ run st' rest) × HasField st' rows values f
unfolding pass dispatch
field-read st rows values f rest r w =
    let (q, h, x, y) = read_quoted_field-escape st.line_number f rest w in
    let well : follows_well q.rest ≡ true = ap follows_well y ∙ w in
    let st' : Scan = record st {
      pending = true;
      field = st.field ++ q.value;
      line_number = q.line;
      at_field_start = false;
    } in
    let here : pass st quote (escape f ++ quote ∷ rest) ≡ continues st' rest =
      rw (r.at_start, h, well) (ap (continues st') y) in
    (
      st',
      run-continues st st' quote (escape f ++ quote ∷ rest) rest here,
      record {
        rows_read = r.rows_read;
        values_read = r.values_read;
        field_read = ap (λ t. t ++ q.value) r.no_field ∙ x;
        begun = refl;
      },
    )

comma-read :
    (st : Scan) (rows : List (List Text)) (values : List Text) (f rest : Text)
    → HasField st rows values f
    → (st' : Scan) × (run st (comma ∷ rest) ≡ run st' rest) × IsReady st' rows (values ++ f ∷ [])
unfolding pass dispatch
comma-read st rows values f rest r =
    let st' : Scan = record st {
      pending = true;
      values = st.values ++ st.field ∷ [];
      field = [];
      at_field_start = true;
    } in
    (
      st',
      run-continues st st' comma rest rest refl,
      record {
        rows_read = r.rows_read;
        values_read =
            ap (λ v. v ++ st.field ∷ []) r.values_read ∙ ap (λ t. values ++ t ∷ []) r.field_read;
        no_field = refl;
        at_start = refl;
      },
    )

pub after_line_feed : (s : Text) → after_line_end line_feed s ≡ s
after_line_feed [] = refl
after_line_feed (c ∷ s) = refl

line_end-read :
    (st : Scan) (rows : List (List Text)) (values : List Text) (f rest : Text)
    → HasField st rows values f
    → (st' : Scan) × (run st (line_feed ∷ rest) ≡ run st' rest)
      × IsReady st' (rows ++ (values ++ f ∷ []) ∷ []) []
      × (st'.pending ≡ false)
unfolding pass dispatch end_line
line_end-read st rows values f rest r =
    let here : pass st line_feed rest ≡ continues (next_line st) rest =
      ap (continues (next_line st)) (after_line_feed rest) in
    let row : st.values ++ st.field ∷ [] ≡ values ++ f ∷ [] =
      ap (λ v. v ++ st.field ∷ []) r.values_read ∙ ap (λ t. values ++ t ∷ []) r.field_read in
    let line : ParsedLine = record { line = st.started_on; values = st.values ++ st.field ∷ [] } in
    (
      next_line st,
      run-continues st (next_line st) line_feed rest rest here,
      record {
        rows_read =
            ap (λ b. map ParsedLine.values (if b then st.lines ++ line ∷ [] else st.lines)) r.begun
            ∙ map-append ParsedLine.values st.lines (line ∷ [])
            ∙ ap (λ x. x ++ (st.values ++ st.field ∷ []) ∷ []) r.rows_read
            ∙ ap (λ x. rows ++ x ∷ []) row;
        values_read = refl;
        no_field = refl;
        at_start = refl;
      },
      refl,
    )

row-read :
    (st : Scan) (rows : List (List Text)) (values : List Text) (f : Text) (fs : List Text)
    (rest : Text)
    → IsReady st rows values
    → (st' : Scan) × (run st (row_text f fs rest) ≡ run st' rest)
      × IsReady st' (rows ++ (values ++ f ∷ fs) ∷ []) []
      × (st'.pending ≡ false)
unfolding row_text
row-read st rows values f [] rest r =
    let (st₁, h₁, r₁) = field-read st rows values f (line_feed ∷ rest) r refl in
    let (st₂, h₂, r₂, p) = line_end-read st₁ rows values f rest r₁ in (st₂, h₁ ∙ h₂, r₂, p)
row-read st rows values f (g ∷ gs) rest r =
    let (st₁, h₁, r₁) = field-read st rows values f (comma ∷ row_text g gs rest) r refl in
    let (st₂, h₂, r₂) = comma-read st₁ rows values f (row_text g gs rest) r₁ in
    let (st₃, h₃, r₃, p) = row-read st₂ rows (values ++ f ∷ []) g gs rest r₂ in
    let same : (values ++ f ∷ []) ++ g ∷ gs ≡ values ++ f ∷ g ∷ gs =
      append_assoc values (f ∷ []) (g ∷ gs) in
    (st₃, h₁ ∙ h₂ ∙ h₃, subst (λ x. IsReady st₃ (rows ++ x ∷ []) []) same r₃, p)

abbrev pub row_of : Text × List Text → List Text
row_of (f, fs) = f ∷ fs

rows-read :
    (st : Scan) (before : List (List Text)) (rows : List (Text × List Text))
    → IsReady st before []
    → st.pending ≡ false
    → (ls : List ParsedLine) × (run st (rows_text rows) ≡ some (parsed ls))
      × (map ParsedLine.values ls ≡ before ++ map row_of rows)
unfolding rows_text scan_lines end_line
rows-read st before [] r p = (
  (end_line st).lines,
  refl,
  ap
        (λ b. map ParsedLine.values (
          if b
          then st.lines
            ++ (record { line = st.started_on; values = st.values ++ st.field ∷ [] }) ∷ []
          else st.lines))
        p
      ∙ r.rows_read
      ∙ sym (append-nil before),
)
rows-read st before ((f, fs) ∷ rows) r p =
    let (st₁, h₁, r₁, p₁) = row-read st before [] f fs (rows_text rows) r in
    let (ls, h₂, e) = rows-read st₁ (before ++ (f ∷ fs) ∷ []) rows r₁ p₁ in
    (ls, h₁ ∙ h₂, e ∙ append_assoc before ((f ∷ fs) ∷ []) (map row_of rows))

-- Any rows of at least one field each, written with every field in quotes, its quotes doubled, with
-- commas between fields and a line feed after each row, are read back as they were, whatever commas,
-- quotes and line ends the fields contain.
pub read_lines-rows_text :
    (rows : List (Text × List Text))
    → (ls : List ParsedLine) × (read_lines (rows_text rows) ≡ some (parsed ls))
      × (map ParsedLine.values ls ≡ map row_of rows)
unfolding read_lines
read_lines-rows_text rows =
    rows-read start_scan [] rows
      (record { rows_read = refl; values_read = refl; no_field = refl; at_start = refl }) refl
