-- ===== src/Csv.antt =====
-- Reading the CSV of a bulk upload: parseCsv, readLines and readQuotedField of
-- apps/iam-api/src/users/csv.util.ts. The loop runs on fuel, one round for each pass of the loop;
-- `none` is a loop that the fuel did not reach the end of.
pub mod Ends
pub mod Quoted
pub mod RoundTrip
mod Tests
use plant_ops.Prelude.{
  ℕ, zero, suc, ◌+◌, Text, Bool, true, false, not, ◌&&◌, ◌||◌, List, [], ◌∷◌, ◌++◌, Option, none,
  some, ◌=?◌, if◌then◌else◌, length, map, trim,
}

abbrev pub quote : ℕ
quote = b'"'

abbrev pub comma : ℕ
comma = b','

abbrev pub carriage_return : ℕ
carriage_return = 13

abbrev pub line_feed : ℕ
line_feed = 10

abbrev pub byte_order_mark : ℕ
byte_order_mark = 0xfeff

pub record ParsedLine : Type 0 where
  pub line : ℕ
  pub values : List Text

pub record CsvRecord : Type 0 where
  pub row : ℕ
  pub line : ℕ
  pub values : List Text

pub record CsvTable : Type 0 where
  pub headers : List Text
  pub records : List CsvRecord

-- The three messages of `CsvParseError`, with its line.
pub data CsvParseError : Type 0 where
  empty_content unexpected_text unclosed_quote : ℕ → CsvParseError

pub data Parsed (A : Type 0) : Type 0 where
  failed : CsvParseError → Parsed A
  parsed : A → Parsed A

abbrev pub starts_with_line_feed : Text → Bool
starts_with_line_feed [] = false
starts_with_line_feed (c ∷ s) = c =? line_feed

-- The line number after a character of a quoted field.
abbrev pub line_after : ℕ → Text → ℕ → ℕ
line_after c s line =
    if c =? line_feed
    then suc line
    else if c =? carriage_return && not (starts_with_line_feed s)
    then suc line
    else line

-- What `readQuotedField` returns: the value, the content from `next` on, and the line.
pub record QuotedField : Type 0 where
  pub value : Text
  pub rest : Text
  pub line : ℕ

abbrev pub with_char : ℕ → Option QuotedField → Option QuotedField
with_char c none = none
with_char c (some q) = some (record q { value = c ∷ q.value })

-- `readQuotedField`; `none` where the field is never closed.
unfoldable pub read_quoted_field : ℕ → Text → Option QuotedField
read_quoted_field line [] = none
read_quoted_field line (c ∷ []) =
    if c =? quote then some (record { value = []; rest = []; line = line }) else none
read_quoted_field line (c ∷ d ∷ s) =
    let doubled = with_char quote (read_quoted_field line s) in
    let later = with_char c (read_quoted_field (line_after c (d ∷ s) line) (d ∷ s)) in
    if c =? quote
    then if d =? quote then doubled else some (record { value = []; rest = d ∷ s; line = line })
    else later

-- The variables of `readLines`; the lists grow at their end.
pub record Scan : Type 0 where
  pub lines : List ParsedLine
  pub values : List Text
  pub field : Text
  pub line_number : ℕ
  pub started_on : ℕ
  pub pending : Bool
  pub at_field_start : Bool

abbrev pub is_line_end : ℕ → Bool
is_line_end c = c =? carriage_return || c =? line_feed

-- `endLine`
unfoldable pub end_line : Scan → Scan
end_line st = record st {
  lines =
      if st.pending
      then st.lines ++ (record { line = st.started_on; values = st.values ++ st.field ∷ [] }) ∷ []
      else st.lines;
  values = [];
  field = [];
  pending = false;
  at_field_start = true;
}

pub data Step : Type 0 where
  fails : CsvParseError → Step
  continues : Scan → Text → Step

-- After a closing quote.
abbrev pub follows_well : Text → Bool
follows_well [] = true
follows_well (c ∷ s) = c =? comma || is_line_end c

abbrev pub after_quoted : Scan → Option QuotedField → Step
after_quoted st none = fails (unclosed_quote st.line_number)
after_quoted st (some q) =
    if follows_well q.rest
    then continues
        (record st { field = st.field ++ q.value; line_number = q.line; at_field_start = false })
        q.rest
    else fails (unexpected_text q.line)

abbrev pub after_line_end : ℕ → Text → Text
after_line_end c [] = []
after_line_end c (d ∷ s) = if c =? carriage_return && d =? line_feed then s else d ∷ s

abbrev pub next_line : Scan → Scan
next_line st = record (end_line st) {
  line_number = suc st.line_number;
  started_on = suc st.line_number;
}

-- The tests of a pass in their order, once `pending` is set.
unfoldable pub dispatch : Scan → ℕ → Text → Step
unfolding read_quoted_field end_line
dispatch st c s =
    let quoted = after_quoted st (read_quoted_field st.line_number s) in
    if c =? quote && st.at_field_start
    then quoted
    else if c =? comma
    then continues
        (record st { values = st.values ++ st.field ∷ []; field = []; at_field_start = true }) s
    else if is_line_end c
    then continues (next_line st) (after_line_end c s)
    else continues (record st { field = st.field ++ c ∷ []; at_field_start = false }) s

-- One pass of the loop of `readLines`.
unfoldable pub pass : Scan → ℕ → Text → Step
unfolding dispatch
pass st c s = dispatch (if is_line_end c then st else record st { pending = true }) c s

unfoldable pub scan_lines : ℕ → Scan → Text → Option (Parsed (List ParsedLine))
unfolding pass end_line
scan_lines fuel st [] = some (parsed (end_line st).lines)
scan_lines zero st (c ∷ s) = none
scan_lines (suc fuel) st (c ∷ s) = elim (pass st c s) [
  | fails e ↦ some (failed e)
  | continues st' s' ↦ scan_lines fuel st' s'
]

abbrev pub start_scan : Scan
start_scan = record {
  lines = [];
  values = [];
  field = [];
  line_number = 1;
  started_on = 1;
  pending = false;
  at_field_start = true;
}

-- `readLines`
unfoldable pub read_lines : Text → Option (Parsed (List ParsedLine))
unfolding scan_lines
read_lines content = scan_lines (length content) start_scan content

abbrev pub without_mark : Text → Text
without_mark [] = []
without_mark (c ∷ s) = if c =? byte_order_mark then s else c ∷ s

abbrev pub numbered : ℕ → List ParsedLine → List CsvRecord
numbered row [] = []
numbered row (l ∷ ls) =
    record { row = row; line = l.line; values = l.values } ∷ numbered (suc row) ls

abbrev pub table_of : (Text → Text) → Parsed (List ParsedLine) → Parsed CsvTable
table_of lower (failed e) = failed e
table_of lower (parsed []) = failed (empty_content 1)
table_of lower (parsed (header ∷ lines)) = parsed (record {
  headers = map (λ value. lower (trim value)) header.values;
  records = numbered 1 lines;
})

abbrev pub finished : (Text → Text) → Option (Parsed (List ParsedLine)) → Option (Parsed CsvTable)
finished lower none = none
finished lower (some result) = some (table_of lower result)

-- `parseCsv`, with `toLowerCase` as a parameter.
unfoldable pub parse_csv : (Text → Text) → Text → Option (Parsed CsvTable)
unfolding read_lines
parse_csv lower content = finished lower (read_lines (without_mark content))
