-- ===== src/CsvWriter/ReadBack.antt =====
-- What the export writes, the reader of bulk uploads reads back.
use mathlib.Core.List.{map-append, append_assoc, append-nil}
use mathlib.Core.Path.{subst}
use plant_ops.Prelude.{
  Text, true, false, ◌≡◌, refl, sym, ap, ◌∙◌, inl, inr, arith, List, [], ◌∷◌, ◌++◌, Option, none,
  some, if◌then◌else◌, map, any, Bool-cases,
}
use plant_ops.Csv.{
  ParsedLine, parsed, quote, comma, carriage_return, line_feed, follows_well, Scan, continues,
  next_line, end_line, dispatch, pass, scan_lines, start_scan, read_lines,
}
use plant_ops.Csv.Quoted.{escape}
use plant_ops.Csv.RoundTrip.{run, run-continues, IsReady, field-read, field_text}
use plant_ops.CsvWriter.{
  must_quote_char, starts_formula, doubled, quoted_if_needed, csv_field, csv_row, csv_rows,
}
use plant_ops.CsvWriter.Guarded.{cell_text, starts_formula-cell_text}

doubled-eq-escape : (s : Text) → doubled s ≡ escape s
unfolding doubled escape
doubled-eq-escape [] = refl
doubled-eq-escape (c ∷ s) = ground (arith, doubled-eq-escape s)

-- Behind a cell, with the rows and the values read so far; the cell is in the field.
record HasCell (st : Scan) (rows : List (List Text)) (values : List Text) (f : Text) : Type 0 where
  rows_read : map ParsedLine.values st.lines ≡ rows
  values_read : st.values ≡ values
  field_read : st.field ≡ f

-- A cell without separators, quotes and line ends goes into the field as it is.
plain-read :
    (st : Scan) (rows : List (List Text)) (values : List Text) (f s rest : Text)
    → any must_quote_char s ≡ false
    → HasCell st rows values f
    → (st' : Scan) × (run st (s ++ rest) ≡ run st' rest)
      × HasCell st' rows values (f ++ s)
      × (st.pending ≡ true → st'.pending ≡ true)
unfolding pass dispatch
plain-read st rows values f [] rest h r =
    (st, refl, subst (λ x. HasCell st rows values x) (sym (append-nil f)) r, λ p. p)
plain-read st rows values f (c ∷ s) rest h r =
    let st' : Scan = record st {
      pending = true;
      field = st.field ++ c ∷ [];
      at_field_start = false;
    } in
    let here : pass st c (s ++ rest) ≡ continues st' (s ++ rest) = ground (arith, h) in
    let r' : HasCell st' rows values (f ++ c ∷ []) = record {
      rows_read = r.rows_read;
      values_read = r.values_read;
      field_read = ap (λ t. t ++ c ∷ []) r.field_read;
    } in
    let (st₂, e, r₂, p) = plain-read st' rows values (f ++ c ∷ []) s rest (ground (arith, h)) r' in
    (
      st₂,
      run-continues st st' c (s ++ rest) (s ++ rest) here ∙ e,
      subst (λ x. HasCell st₂ rows values x) (append_assoc f (c ∷ []) s) r₂,
      λ x. p refl,
    )

-- A written cell is read into the field.
cell-read :
    (st : Scan) (rows : List (List Text)) (values : List Text) (cell rest : Text)
    → IsReady st rows values
    → follows_well rest ≡ true
    → (st' : Scan) × (run st (quoted_if_needed cell ++ rest) ≡ run st' rest)
      × HasCell st' rows values cell
      × (st.pending ≡ true → st'.pending ≡ true)
unfolding quoted_if_needed
cell-read st rows values cell rest r w = elim (Bool-cases (any must_quote_char cell)) [
  | inr e ↦ rw e (
      plain-read st rows values [] cell rest e
        (record { rows_read = r.rows_read; values_read = r.values_read; field_read = r.no_field }))
  | inl e ↦
      let (st', h, f) = field-read st rows values cell rest r w in
      let shape : (quote ∷ doubled cell ++ quote ∷ []) ++ rest ≡ field_text cell rest =
        append_assoc (quote ∷ doubled cell) (quote ∷ []) rest
        ∙ ap (λ x. (quote ∷ x) ++ quote ∷ rest) (doubled-eq-escape cell) in
      rw e (
        st',
        ap (run st) shape ∙ h,
        record { rows_read = f.rows_read; values_read = f.values_read; field_read = f.field_read },
        λ p. f.begun,
      )
]

csv_field_lem : (value : Option Text) → csv_field value ≡ quoted_if_needed (cell_text value)
unfolding csv_field quoted_if_needed
csv_field_lem none = refl
csv_field_lem (some []) = refl
csv_field_lem (some (c ∷ s)) = refl

comma-read :
    (st : Scan) (rows : List (List Text)) (values : List Text) (cell rest : Text)
    → HasCell st rows values cell
    → (st' : Scan) × (run st (comma ∷ rest) ≡ run st' rest)
      × IsReady st' rows (values ++ cell ∷ [])
      × (st'.pending ≡ true)
unfolding pass dispatch
comma-read st rows values cell rest r =
    let st' : Scan = record st {
      pending = true;
      values = st.values ++ st.field ∷ [];
      field = [];
      at_field_start = true;
    } in
    (
      st',
      run-continues st st' comma rest rest refl,
      record {
        rows_read = r.rows_read;
        values_read =
            ap (λ v. v ++ st.field ∷ []) r.values_read ∙ ap (λ t. values ++ t ∷ []) r.field_read;
        no_field = refl;
        at_start = refl;
      },
      refl,
    )

line_end-read :
    (st : Scan) (rows : List (List Text)) (values : List Text) (cell rest : Text)
    → HasCell st rows values cell
    → st.pending ≡ true
    → (st' : Scan) × (run st (carriage_return ∷ line_feed ∷ rest) ≡ run st' rest)
      × IsReady st' (rows ++ (values ++ cell ∷ []) ∷ []) []
      × (st'.pending ≡ false)
unfolding pass dispatch end_line
line_end-read st rows values cell rest r p =
    let row : st.values ++ st.field ∷ [] ≡ values ++ cell ∷ [] =
      ap (λ v. v ++ st.field ∷ []) r.values_read ∙ ap (λ t. values ++ t ∷ []) r.field_read in
    let line : ParsedLine = record { line = st.started_on; values = st.values ++ st.field ∷ [] } in
    (
      next_line st,
      run-continues st (next_line st) carriage_return (line_feed ∷ rest) rest refl,
      record {
        rows_read =
            ap (λ b. map ParsedLine.values (if b then st.lines ++ line ∷ [] else st.lines)) p
            ∙ map-append ParsedLine.values st.lines (line ∷ [])
            ∙ ap (λ x. x ++ (st.values ++ st.field ∷ []) ∷ []) r.rows_read
            ∙ ap (λ x. rows ++ x ∷ []) row;
        values_read = refl;
        no_field = refl;
        at_start = refl;
      },
      refl,
    )

-- The rest of a row, once a comma or an earlier cell has begun it.
row-read :
    (st : Scan) (rows : List (List Text)) (values : List Text) (v : Option Text)
    (vs : List (Option Text)) (rest : Text)
    → IsReady st rows values
    → st.pending ≡ true
    → (st' : Scan) × (run st (csv_row (v ∷ vs) ++ carriage_return ∷ line_feed ∷ rest)
        ≡ run st' rest)
      × IsReady st' (rows ++ (values ++ map cell_text (v ∷ vs)) ∷ []) []
      × (st'.pending ≡ false)
unfolding csv_row
row-read st rows values v [] rest r p =
    let end = carriage_return ∷ line_feed ∷ rest in
    let (st₁, h₁, r₁, p₁) = cell-read st rows values (cell_text v) end r refl in
    let (st₂, h₂, r₂, p₂) = line_end-read st₁ rows values (cell_text v) rest r₁ (p₁ p) in
    (st₂, ap (λ x. run st (x ++ end)) (csv_field_lem v) ∙ h₁ ∙ h₂, r₂, p₂)
row-read st rows values v (w ∷ vs) rest r p =
    let end = carriage_return ∷ line_feed ∷ rest in
    let more = csv_row (w ∷ vs) ++ end in
    let (st₁, h₁, r₁, _) = cell-read st rows values (cell_text v) (comma ∷ more) r refl in
    let (st₂, h₂, r₂, p₂) = comma-read st₁ rows values (cell_text v) more r₁ in
    let (st₃, h₃, r₃, p₃) = row-read st₂ rows (values ++ cell_text v ∷ []) w vs rest r₂ p₂ in
    let shape : (csv_field v ++ comma ∷ csv_row (w ∷ vs)) ++ end
        ≡ quoted_if_needed (cell_text v) ++ comma ∷ more =
      append_assoc (csv_field v) (comma ∷ csv_row (w ∷ vs)) end
      ∙ ap (λ x. x ++ comma ∷ more) (csv_field_lem v) in
    (
      st₃,
      ap (run st) shape ∙ h₁ ∙ h₂ ∙ h₃,
      subst (λ x. IsReady st₃ (rows ++ x ∷ []) [])
          (append_assoc values (cell_text v ∷ []) (map cell_text (w ∷ vs))) r₃,
      p₃,
    )

-- A whole row of two cells or more.
whole_row-read :
    (st : Scan) (rows : List (List Text)) (v w : Option Text) (vs : List (Option Text))
    (rest : Text)
    → IsReady st rows []
    → (st' : Scan) × (run st (csv_row (v ∷ w ∷ vs) ++ carriage_return ∷ line_feed ∷ rest)
        ≡ run st' rest)
      × IsReady st' (rows ++ map cell_text (v ∷ w ∷ vs) ∷ []) []
      × (st'.pending ≡ false)
unfolding csv_row
whole_row-read st rows v w vs rest r =
    let end = carriage_return ∷ line_feed ∷ rest in
    let more = csv_row (w ∷ vs) ++ end in
    let (st₁, h₁, r₁, _) = cell-read st rows [] (cell_text v) (comma ∷ more) r refl in
    let (st₂, h₂, r₂, p₂) = comma-read st₁ rows [] (cell_text v) more r₁ in
    let (st₃, h₃, r₃, p₃) = row-read st₂ rows (cell_text v ∷ []) w vs rest r₂ p₂ in
    let shape : (csv_field v ++ comma ∷ csv_row (w ∷ vs)) ++ end
        ≡ quoted_if_needed (cell_text v) ++ comma ∷ more =
      append_assoc (csv_field v) (comma ∷ csv_row (w ∷ vs)) end
      ∙ ap (λ x. x ++ comma ∷ more) (csv_field_lem v) in
    (st₃, ap (run st) shape ∙ h₁ ∙ h₂ ∙ h₃, r₃, p₃)

-- A row of two cells or more.
abbrev pub cells : Option Text × Option Text × List (Option Text) → List (Option Text)
cells (v, w, vs) = v ∷ w ∷ vs

rows-read :
    (st : Scan) (before : List (List Text))
    (rows : List (Option Text × Option Text × List (Option Text)))
    → IsReady st before []
    → st.pending ≡ false
    → (ls : List ParsedLine) × (run st (csv_rows (map cells rows)) ≡ some (parsed ls))
      × (map ParsedLine.values ls ≡ before ++ map (λ row. map cell_text (cells row)) rows)
unfolding csv_rows scan_lines end_line
rows-read st before [] r p = (
  (end_line st).lines,
  refl,
  ap
        (λ b. map ParsedLine.values (
          if b
          then st.lines
            ++ (record { line = st.started_on; values = st.values ++ st.field ∷ [] }) ∷ []
          else st.lines))
        p
      ∙ r.rows_read
      ∙ sym (append-nil before),
)
rows-read st before ((v, w, vs) ∷ rows) r p =
    let (st₁, h₁, r₁, p₁) = whole_row-read st before v w vs (csv_rows (map cells rows)) r in
    let (ls, h₂, e) = rows-read st₁ (before ++ map cell_text (v ∷ w ∷ vs) ∷ []) rows r₁ p₁ in
    (
      ls,
      h₁ ∙ h₂,
      e
          ∙ append_assoc before (map cell_text (v ∷ w ∷ vs) ∷ [])
              (map (λ row. map cell_text (cells row)) rows),
    )

-- Any rows of two cells or more, written by the export's writer, are read by the reader of bulk
-- uploads as the same rows of the same cells, whatever commas, quotes and line ends the values hold:
-- a null is an empty cell, a value that would start a formula has the text prefix, and any other is
-- itself. No cell that is read starts a formula.
pub read_lines-csv_rows :
    (rows : List (Option Text × Option Text × List (Option Text)))
    → (ls : List ParsedLine) × (read_lines (csv_rows (map cells rows)) ≡ some (parsed ls))
      × (map ParsedLine.values ls ≡ map (λ row. map cell_text (cells row)) rows)
      × ((value : Option Text) → starts_formula (cell_text value) ≡ false)
unfolding read_lines
read_lines-csv_rows rows =
    let (ls, h, e) =
      rows-read start_scan [] rows
        (record { rows_read = refl; values_read = refl; no_field = refl; at_start = refl }) refl in
    (ls, h, e, starts_formula-cell_text)
