-- ===== src/Audit.antt =====
-- The audit trail's reads: auditFilter, list, count and chunk of
-- apps/iam-api/src/audit/audit-query.service.ts, normalizePagination of
-- libs/contracts/src/pagination.ts, and the export of audit-export.service.ts with the columns of
-- audit-csv.ts. A timestamp of the table counts microseconds; a Date of the driver keeps whole
-- milliseconds. The payload, `JSON.stringify` and `toISOString` are parameters.
pub mod Filter
pub mod Order
pub mod Whole
pub mod Skipped
pub mod Pages
mod Tests
unfoldable pub use Filter.*
use plant_ops.Prelude.{
  ℕ, zero, suc, ◌+◌, ◌-◌, ◌*◌, ◌/◌, Text, codes, ◌==◌, Bool, true, false, not, ◌&&◌, ◌||◌, List, [],
  ◌∷◌, ◌++◌, Option, none, some, ltb, leb, ◌=?◌, if◌then◌else◌, map, filter, take, drop, length,
  text_lt,
}
use plant_ops.CsvWriter.{csv_rows}

module _ {Payload : Type 0} where
  -- `auditFilter`
  unfoldable pub audit_filter : AuditQuery → AuditRow Payload → Bool
  audit_filter q row =
      column_matches q.actor_id row.actor_id
      && actor_type_matches q.actor_type row.actor_type
      && column_matches q.action (some row.action)
      && column_matches q.target_type row.target_type
      && column_matches q.target_id row.target_id
      && column_matches q.client_id row.client_id
      && is_from q.from row.created_at
      && is_before q.to row.created_at

  -- `(created_at, id) < ($n, $m)`
  unfoldable pub is_below : Cursor → AuditRow Payload → Bool
  unfolding text_lt
  is_below cursor row =
      ltb row.created_at cursor.created_at
      || (row.created_at =? cursor.created_at && text_lt row.id cursor.id)

  abbrev pub place_of : AuditRow Payload → Cursor
  place_of row = record { created_at = row.created_at; id = row.id }

  -- `order by created_at desc, id desc`
  unfoldable pub insert_row : AuditRow Payload → List (AuditRow Payload) → List (AuditRow Payload)
  unfolding is_below
  insert_row row [] = row ∷ []
  insert_row row (r ∷ rows) =
      let rest = insert_row row rows in
      if is_below (place_of row) r then row ∷ r ∷ rows else r ∷ rest

  unfoldable pub newest_first : List (AuditRow Payload) → List (AuditRow Payload)
  unfolding insert_row
  newest_first [] = []
  newest_first (row ∷ rows) = insert_row row (newest_first rows)

  unfoldable pub selected : AuditQuery → List (AuditRow Payload) → List (AuditRow Payload)
  unfolding audit_filter newest_first
  selected q table = newest_first (filter (audit_filter q) table)

  -- `toAuditRecord`, as far as the timestamp goes.
  abbrev pub to_audit_record : AuditRow Payload → AuditRow Payload
  to_audit_record row = record row { created_at = to_date row.created_at }

  abbrev pub after_cursor : Option Cursor → AuditRow Payload → Bool
  after_cursor none row = true
  after_cursor (some cursor) row = is_below cursor row

  -- The rows of `chunk`.
  unfoldable pub chunk :
      AuditQuery → ℕ → Option Cursor → List (AuditRow Payload) → List (AuditRow Payload)
  unfolding selected is_below
  chunk q limit cursor table = take limit (filter (after_cursor cursor) (selected q table))

  -- `count`
  unfoldable pub count : AuditQuery → List (AuditRow Payload) → ℕ
  unfolding selected
  count q table = length (filter (audit_filter q) table)

  -- The cursor that a chunk's last record gives.
  unfoldable pub last_cursor : List (AuditRow Payload) → Option Cursor
  last_cursor [] = none
  last_cursor (row ∷ []) = some (record { created_at = to_date row.created_at; id = row.id })
  last_cursor (row ∷ r ∷ rows) = last_cursor (r ∷ rows)

  abbrev pub joined :
      List (AuditRow Payload) → Option (List (AuditRow Payload)) → Option (List (AuditRow Payload))
  joined rows none = none
  joined rows (some more) = some (rows ++ more)

  -- The loop of `export`, by the chunk size, on fuel; `none` is a loop that has not ended.
  unfoldable pub collect :
      ℕ
      → ℕ
      → AuditQuery
      → Option Cursor
      → List (AuditRow Payload)
      → Option (List (AuditRow Payload))
  unfolding chunk last_cursor
  collect zero size q cursor table = none
  collect (suc fuel) size q cursor table =
      let rows = chunk q size cursor table in
      let later = collect fuel size q (last_cursor rows) table in
      if ltb (length rows) size then some rows else joined rows later

abbrev pub chunk_size : ℕ
chunk_size = 1000

abbrev pub audit_export_max_rows : ℕ
audit_export_max_rows = 10000

abbrev pub audit_export_columns : List Text
audit_export_columns =
    codes "id"
    ∷ codes "created_at"
    ∷ codes "client_id"
    ∷ codes "actor_type"
    ∷ codes "actor_id"
    ∷ codes "action"
    ∷ codes "target_type"
    ∷ codes "target_id"
    ∷ codes "payload"
    ∷ []

-- The export is refused with the number of matching rows, or answered with its text; it records how
-- many rows it carried.
pub data Exported : Type 0 where
  too_many : ℕ → Exported
  unfinished : Exported
  exported : Text → ℕ → Exported

module _ {Payload : Type 0} (stringify : Payload → Text) (iso : ℕ → Text) where
  -- `cellsOf`
  abbrev pub cells_of : AuditRow Payload → List (Option Text)
  cells_of row =
      some row.id
      ∷ some (iso row.created_at)
      ∷ row.client_id
      ∷ some (actor_type_name row.actor_type)
      ∷ row.actor_id
      ∷ some row.action
      ∷ row.target_type
      ∷ row.target_id
      ∷ some (stringify row.payload)
      ∷ []

  -- `auditCsv`
  unfoldable pub audit_csv : List (AuditRow Payload) → Text
  unfolding csv_rows
  audit_csv records = csv_rows (map some audit_export_columns ∷ map cells_of records)

  abbrev pub written : Option (List (AuditRow Payload)) → Exported
  written none = unfinished
  written (some rows) = exported (audit_csv (map to_audit_record rows)) (length rows)

  -- `export`, with the rounds of its loop.
  unfoldable pub export : ℕ → AuditQuery → List (AuditRow Payload) → Exported
  unfolding count collect
  export fuel q table =
      if ltb audit_export_max_rows (count q table)
      then too_many (count q table)
      else written (collect fuel chunk_size q none table)

abbrev pub max_page_size : ℕ
max_page_size = 100

abbrev pub default_page_size : ℕ
default_page_size = 25

pub record Page : Type 0 where
  pub page : ℕ
  pub limit : ℕ

abbrev pub at_least : ℕ → ℕ → ℕ
at_least a b = if ltb a b then b else a

abbrev pub at_most : ℕ → ℕ → ℕ
at_most a b = if ltb a b then a else b

abbrev pub given_or : Option ℕ → ℕ → ℕ
given_or none d = d
given_or (some n) d = n

-- `normalizePagination`, of numbers that are not negative.
unfoldable pub normalize_pagination : Option ℕ → Option ℕ → Page
normalize_pagination page limit = record {
  page = at_least 1 (given_or page 1);
  limit = at_most max_page_size (at_least 1 (given_or limit default_page_size));
}

module _ {Payload : Type 0} where
  -- The records of `list`.
  unfoldable pub list_rows :
      AuditQuery → Option ℕ → Option ℕ → List (AuditRow Payload) → List (AuditRow Payload)
  unfolding selected normalize_pagination
  list_rows q page limit table =
      let p = normalize_pagination page limit in
      map to_audit_record (take p.limit (drop ((p.page - 1) * p.limit) (selected q table)))
