-- ===== src/Csv/Tests.antt =====
-- Witnesses and runs for the CSV reader.
use plant_ops.Prelude.{Text, codes, List, [], ◌∷◌, some, ◌≡◌, refl, trim, map}
use plant_ops.Csv.{
  ParsedLine, read_lines, CsvTable, Parsed, parsed, failed, unclosed_quote, parse_csv,
}
use plant_ops.Csv.RoundTrip.{rows_text, read_lines-rows_text}
use plant_ops.Csv.Ends.{parse_csv-ends}

abbrev in_lower_case : Text → Text
in_lower_case s = s

parse_csv-ends_example : (r : Parsed CsvTable) × (parse_csv in_lower_case (codes "a,b") ≡ some r)
parse_csv-ends_example = parse_csv-ends in_lower_case (codes "a,b")

two_rows :
    parse_csv in_lower_case (codes "a,b\n\"x\"\"y\",2\n\nz,3")
    ≡ some (
        parsed (record {
          headers = codes "a" ∷ codes "b" ∷ [];
          records =
              record { row = 1; line = 2; values = codes "x\"y" ∷ codes "2" ∷ [] }
              ∷ record { row = 2; line = 4; values = codes "z" ∷ codes "3" ∷ [] }
              ∷ [];
        }))
unfolding parse_csv trim
two_rows = refl

never_closed : parse_csv in_lower_case (codes "a\n\"b") ≡ some (failed (unclosed_quote 2))
unfolding parse_csv trim
never_closed = refl

abbrev awkward : List (Text × List Text)
awkward = (codes "a,\"b\"", codes "c\nd" ∷ []) ∷ (codes "", []) ∷ []

read_lines-rows_text_example :
    (ls : List ParsedLine) × (read_lines (rows_text awkward) ≡ some (parsed ls))
    × (map ParsedLine.values ls ≡ (codes "a,\"b\"" ∷ codes "c\nd" ∷ []) ∷ (codes "" ∷ []) ∷ [])
read_lines-rows_text_example = read_lines-rows_text awkward
