-- ===== src/Audit/Tests.antt =====
-- An export of two rows, one that loses a row at a chunk of one, and the first page.
use mathlib.Core.List.{Memᴰ}
use plant_ops.Prelude.{
  ℕ, Text, codes, ◌==◌, List, [], ◌∷◌, none, some, ◌≡◌, refl, arith, inl, ltb, if◌then◌else◌, map,
}
use plant_ops.Audit.{
  AuditRow, AuditQuery, user, selected, collect, count, exported, too_many, audit_csv,
  to_audit_record, export, audit_export_max_rows, normalize_pagination, is_below,
}
use plant_ops.Audit.Order.{HasDistinctIds, IsDescending}
use plant_ops.Audit.Whole.{export_fuel, export-whole}
use plant_ops.Audit.Skipped.{collect-not_mem}
use plant_ops.Audit.Pages.{pages, pages-selected}

abbrev row : Text → ℕ → AuditRow Text
row id at = record {
  id = id;
  client_id = some (codes "c");
  actor_type = user;
  actor_id = none;
  action = codes "user.created";
  target_type = none;
  target_id = none;
  payload = codes "{}";
  created_at = at;
}

abbrev everything : AuditQuery
everything = record {
  actor_id = none;
  actor_type = none;
  action = none;
  target_type = none;
  target_id = none;
  client_id = none;
  from = none;
  to = none;
}

-- Two rows of one millisecond, 300 and 700 microseconds into it.
abbrev trail : List (AuditRow Text)
trail = row (codes "a") 5300 ∷ row (codes "b") 5700 ∷ []

abbrev stringify : Text → Text
stringify s = s

abbrev iso : ℕ → Text
iso n = n ∷ []

ordered : selected everything trail ≡ row (codes "b") 5700 ∷ row (codes "a") 5300 ∷ []
unfolding selected ◌==◌
ordered = refl

loses_one : collect 5 1 everything none trail ≡ some (row (codes "b") 5700 ∷ [])
unfolding collect selected ◌==◌
loses_one = refl

trail-HasDistinctIds : HasDistinctIds trail
trail-HasDistinctIds = (((λ e. ground (arith, e)), tt), (tt, tt))

export-whole_example : export stringify iso export_fuel everything trail ≡ (
    if ltb audit_export_max_rows (count everything trail)
    then too_many (count everything trail)
    else exported
        (audit_csv stringify iso (map to_audit_record (selected everything trail)))
        (count everything trail))
export-whole_example =
    export-whole stringify iso everything trail trail-HasDistinctIds
      (inl (rw ordered (omega arith)))

trail-IsDescending : IsDescending (selected everything trail)
unfolding is_below
trail-IsDescending = rw ordered ((refl, tt), (tt, tt))

collect-not_mem_example : ¬ Memᴰ (row (codes "a") 5300) (row (codes "b") 5700 ∷ [])
collect-not_mem_example =
    collect-not_mem 1 everything trail [] (row (codes "a") 5300 ∷ []) (row (codes "b") 5700)
      (row (codes "a") 5300) trail-IsDescending ordered refl (Memᴰ.head refl) 5
      (row (codes "b") 5700 ∷ []) (omega arith) (omega arith) loses_one

pages-selected_example :
    pages 1 everything none trail ≡ map to_audit_record (selected everything trail)
unfolding normalize_pagination
pages-selected_example = pages-selected 1 everything none trail (rw ordered (omega arith))
