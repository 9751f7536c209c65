-- ===== src/CsvWriter.antt =====
-- Writing the CSV of an audit export: csvField, csvRow and the rows of auditCsv of
-- apps/iam-api/src/audit/audit-csv.ts.
pub mod Guarded
pub mod ReadBack
mod Tests
use plant_ops.Prelude.{
  ℕ, Text, codes, Bool, true, false, ◌||◌, List, [], ◌∷◌, ◌++◌, Option, none, some, any, map, ◌=?◌,
  if◌then◌else◌,
}
use plant_ops.Csv.{quote, comma, carriage_return, line_feed}

abbrev pub text_prefix : ℕ
text_prefix = b'\''

-- `MUST_QUOTE`
abbrev pub must_quote_char : ℕ → Bool
must_quote_char c = c =? quote || c =? comma || c =? carriage_return || c =? line_feed

-- `FORMULA_LEAD`
abbrev pub is_formula_lead : ℕ → Bool
is_formula_lead c =
    c =? b'=' || c =? b'+' || c =? b'-' || c =? b'@' || c =? 9 || c =? carriage_return

abbrev pub starts_formula : Text → Bool
starts_formula [] = false
starts_formula (c ∷ s) = is_formula_lead c

-- The cell before quoting: a value that a spreadsheet would run gets the text prefix.
unfoldable pub guarded : Text → Text
guarded value = if starts_formula value then text_prefix ∷ value else value

-- `replaceAll('"', '""')`
unfoldable pub doubled : Text → Text
doubled [] = []
doubled (c ∷ s) = let rest = doubled s in if c =? quote then quote ∷ quote ∷ rest else c ∷ rest

unfoldable pub quoted_if_needed : Text → Text
unfolding doubled
quoted_if_needed cell =
    if any must_quote_char cell then quote ∷ doubled cell ++ quote ∷ [] else cell

-- `csvField`
unfoldable pub csv_field : Option Text → Text
unfolding guarded quoted_if_needed
csv_field none = []
csv_field (some []) = []
csv_field (some (c ∷ s)) = quoted_if_needed (guarded (c ∷ s))

-- The fields of a row from one on, with commas between them.
unfoldable pub csv_row : List (Option Text) → Text
unfolding csv_field
csv_row [] = []
csv_row (v ∷ []) = csv_field v
csv_row (v ∷ w ∷ vs) = csv_field v ++ comma ∷ csv_row (w ∷ vs)

-- Every row with its record separator.
unfoldable pub csv_rows : List (List (Option Text)) → Text
unfolding csv_row
csv_rows [] = []
csv_rows (row ∷ rows) = csv_row row ++ carriage_return ∷ line_feed ∷ csv_rows rows
