-- ===== src/CsvWriter/Tests.antt =====
-- Cells written and read back.
use plant_ops.Prelude.{Text, codes, false, List, [], ◌∷◌, Option, none, some, ◌≡◌, refl, map}
use plant_ops.Csv.{ParsedLine, parsed, read_lines}
use plant_ops.CsvWriter.{csv_field, csv_rows, starts_formula}
use plant_ops.CsvWriter.Guarded.{cell_text}
use plant_ops.CsvWriter.ReadBack.{cells, read_lines-csv_rows}

formula : csv_field (some (codes "=1,2")) ≡ codes "\"'=1,2\""
unfolding csv_field
formula = refl

abbrev rows : List (Option Text × Option Text × List (Option Text))
rows = (some (codes "a\"b"), none, some (codes "-1") ∷ []) ∷ []

read_lines-csv_rows_example :
    (ls : List ParsedLine) × (read_lines (csv_rows (map cells rows)) ≡ some (parsed ls))
    × (map ParsedLine.values ls ≡ (codes "a\"b" ∷ [] ∷ codes "'-1" ∷ []) ∷ [])
    × ((value : Option Text) → starts_formula (cell_text value) ≡ false)
unfolding csv_field
read_lines-csv_rows_example = read_lines-csv_rows rows
