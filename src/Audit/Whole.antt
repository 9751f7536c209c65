-- ===== src/Audit/Whole.antt =====
-- The chunks of an export, joined.
use mathlib.Core.Path.{subst}
use mathlib.Core.List.{append_assoc}
use plant_ops.Prelude.{
  ℕ, zero, suc, ◌<◌, Text, Bool, true, false, List, [], ◌∷◌, ◌++◌, Option, none, some, ◌≡◌, refl,
  sym, ap, ◌∙◌, ◌⊎◌, inl, inr, arith, Bool-cases, if◌then◌else◌, ltb, All, filter, take, drop,
  length, length-append, map,
}
use plant_ops.Audit.{
  AuditRow, AuditQuery, Cursor, to_date, audit_filter, is_below, place_of, selected, after_cursor,
  chunk, count, last_cursor, joined, collect, chunk_size, audit_export_max_rows, too_many, exported,
  to_audit_record, audit_csv, export,
}
use plant_ops.Audit.Order.{
  IsDescending, HasDistinctIds, date_place, is_below_irrefl, is_below_asymm, parts_of,
  newest_first-IsDescending, filter-HasDistinctIds, length-newest_first,
}

module _ {Payload : Type 0} where
  -- A timestamp of whole milliseconds, which a date keeps.
  abbrev pub IsKept : AuditRow Payload → Type 0
  IsKept r = to_date r.created_at ≡ r.created_at

  filter-nothing :
      (p : AuditRow Payload → Bool) (xs ys : List (AuditRow Payload))
      → All (λ x. p x ≡ false) xs
      → filter p (xs ++ ys) ≡ filter p ys
  filter-nothing p [] ys h = refl
  filter-nothing p (x ∷ xs) ys h = rw h.0 (filter-nothing p xs ys h.1)

  filter-everything :
      (p : AuditRow Payload → Bool) (xs : List (AuditRow Payload))
      → All (λ x. p x ≡ true) xs
      → filter p xs ≡ xs
  filter-everything p [] h = refl
  filter-everything p (x ∷ xs) h = rw h.0 (ap (λ t. x ∷ t) (filter-everything p xs h.1))

  All-asymm :
      (r : AuditRow Payload) (xs : List (AuditRow Payload))
      → All (λ s. is_below (place_of s) r ≡ true) xs
      → All (λ s. is_below (place_of r) s ≡ false) xs
  All-asymm r [] h = tt
  All-asymm r (x ∷ xs) h = (is_below_asymm x r h.0, All-asymm r xs h.1)

  -- Behind the place of a row of the list lies the rest of the list.
  pub filter-is_below :
      (before : List (AuditRow Payload)) (r : AuditRow Payload) (rest : List (AuditRow Payload))
      → IsDescending (before ++ r ∷ rest)
      → filter (is_below (place_of r)) (before ++ r ∷ rest) ≡ rest
  filter-is_below before r rest d =
      let (b, a) = parts_of before r rest d in
      let p = is_below (place_of r) in
      filter-nothing p before (r ∷ rest) (All-asymm r before b)
      ∙ filter-nothing p (r ∷ []) rest (is_below_irrefl r, tt)
      ∙ filter-everything p rest a

  pub last_of :
      (x : AuditRow Payload) (xs : List (AuditRow Payload))
      → (before : List (AuditRow Payload)) × (r : AuditRow Payload) × (x ∷ xs ≡ before ++ r ∷ [])
        × (last_cursor (x ∷ xs) ≡ some (date_place r))
  unfolding last_cursor
  last_of x [] = ([], x, refl, refl)
  last_of x (y ∷ xs) = let (before, r, e, l) = last_of y xs in (x ∷ before, r, ap (λ t. x ∷ t) e, l)

  take-drop : (n : ℕ) (xs : List (AuditRow Payload)) → take n xs ++ drop n xs ≡ xs
  take-drop zero xs = refl
  take-drop (suc n) [] = refl
  take-drop (suc n) (x ∷ xs) = ap (λ t. x ∷ t) (take-drop n xs)

  take-few : (n : ℕ) (xs : List (AuditRow Payload)) → length xs < n → take n xs ≡ xs
  take-few zero xs h = absurd (omega (arith, h))
  take-few (suc n) [] h = refl
  take-few (suc n) (x ∷ xs) h = ap (λ t. x ∷ t) (take-few n xs (omega (arith, h)))

  take-short : (n : ℕ) (xs : List (AuditRow Payload)) → length (take n xs) < n → take n xs ≡ xs
  take-short zero xs h = absurd (omega (arith, h))
  take-short (suc n) [] h = refl
  take-short (suc n) (x ∷ xs) h = ap (λ t. x ∷ t) (take-short n xs (omega (arith, h)))

  All-behind :
      (P : AuditRow Payload → Type 0) (xs : List (AuditRow Payload)) (r : AuditRow Payload)
      (ys : List (AuditRow Payload))
      → All P (xs ++ r ∷ ys)
      → P r
  All-behind P [] r ys h = h.0
  All-behind P (x ∷ xs) r ys h = All-behind P xs r ys h.1

  All-true : (xs : List (AuditRow Payload)) → All (λ x. true ≡ true) xs
  All-true [] = tt
  All-true (x ∷ xs) = (refl, All-true xs)

  module _ (size : ℕ) (q : AuditQuery) (table : List (AuditRow Payload)) (some_size : 0 < size)
      (ordered : IsDescending (selected q table)) (kept : All IsKept (selected q table)) where
    -- What the later rounds collect behind the rows of a full chunk.
    onward :
        (fuel : ℕ)
        → ((cursor : Option Cursor) (before rest : List (AuditRow Payload))
            → selected q table ≡ before ++ rest
            → filter (after_cursor cursor) (selected q table) ≡ rest
            → length rest < fuel
            → collect fuel size q cursor table ≡ some rest)
        → (before rest rows behind : List (AuditRow Payload)) → selected q table ≡ before ++ rest
        → length rest < suc fuel
        → rows ++ behind ≡ rest
        → 0 < length rows
        → joined rows (collect fuel size q (last_cursor rows) table) ≡ some rest
    onward fuel ih before rest [] behind e h t pos = absurd (omega (arith, pos))
    onward fuel ih before rest (x ∷ xs) behind e h t pos =
        let (early, r, s, l) = last_of x xs in
        let whole : selected q table ≡ (before ++ early) ++ r ∷ behind =
          e
          ∙ ap (λ y. before ++ y)
              (sym t ∙ ap (λ y. y ++ behind) s ∙ append_assoc early (r ∷ []) behind)
          ∙ sym (append_assoc before early (r ∷ behind)) in
        let exact : date_place r ≡ place_of r =
          ap (λ n. record { created_at = n; id = r.id })
            (All-behind IsKept (before ++ early) r behind (subst (All IsKept) whole kept)) in
        let left : filter (is_below (place_of r)) (selected q table) ≡ behind =
          ap (filter (is_below (place_of r))) whole
          ∙ filter-is_below (before ++ early) r behind (subst IsDescending whole ordered) in
        let shorter : length behind < fuel =
          omega (arith, h, ap length t, length-append (x ∷ xs) behind) in
        let later : collect fuel size q (last_cursor (x ∷ xs)) table ≡ some behind =
          ap (λ c. collect fuel size q c table) (l ∙ ap some exact)
          ∙ ih (some (place_of r)) ((before ++ early) ++ r ∷ []) behind
              (whole ∙ sym (append_assoc (before ++ early) (r ∷ []) behind)) left shorter in
        ap (joined (x ∷ xs)) later ∙ ap some t

    -- From a cursor behind `before`, the loop collects the rest.
    collects :
        (fuel : ℕ) (cursor : Option Cursor) (before rest : List (AuditRow Payload))
        → selected q table ≡ before ++ rest
        → filter (after_cursor cursor) (selected q table) ≡ rest
        → length rest < fuel
        → collect fuel size q cursor table ≡ some rest
    unfolding collect
    collects zero cursor before rest e f h = absurd (omega (arith, h))
    collects (suc fuel) cursor before rest e f h =
        let rows : chunk q size cursor table ≡ take size rest = unfold chunk in ap (take size) f in
        elim (Bool-cases (ltb (length (take size rest)) size)) [
          | inl short ↦ rw (rows, short) (ap some (take-short size rest (ground (arith, short))))
          | inr full ↦
              rw (rows, full)
                (onward fuel (collects fuel) before rest (take size rest) (drop size rest) e h
                  (take-drop size rest) (ground (arith, full, some_size)))
        ]

  count-selected :
      (q : AuditQuery) (table : List (AuditRow Payload)) → length (selected q table) ≡ count q table
  unfolding selected count
  count-selected q table = length-newest_first (filter (audit_filter q) table)

  -- Timestamps of whole milliseconds, or so few rows that one chunk holds them.
  abbrev pub IsExportable : List (AuditRow Payload) → Type 0
  IsExportable rows = (length rows < chunk_size) ⊎ All IsKept rows

  collect-selected :
      (fuel : ℕ) (q : AuditQuery) (table : List (AuditRow Payload))
      → IsDescending (selected q table)
      → IsExportable (selected q table)
      → length (selected q table) < fuel
      → collect fuel chunk_size q none table ≡ some (selected q table)
  unfolding collect chunk
  collect-selected zero q table d k h = absurd (omega (arith, h))
  collect-selected (suc fuel) q table d (inl few) h =
      let rows : chunk q chunk_size none table ≡ selected q table =
        ap (take chunk_size)
          (filter-everything (λ r. true) (selected q table) (All-true (selected q table)))
        ∙ take-few chunk_size (selected q table) few in
      let short : ltb (length (selected q table)) chunk_size ≡ true = ground (arith, few) in
      rw (rows, short) refl
  collect-selected (suc fuel) q table d (inr kept) h =
      collects chunk_size q table (omega arith) d kept (suc fuel) none [] (selected q table) refl
        (filter-everything (λ r. true) (selected q table) (All-true (selected q table))) h

-- More rounds than an export that is not refused can need.
abbrev pub export_fuel : ℕ
export_fuel = 10001

-- On a trail whose ids are distinct, where the matching rows are fewer than one chunk or were all
-- written at whole milliseconds: an export of more matching rows than the bound is refused with
-- their number, and any other is the text of all matching rows, newest first, each once.
pub export-whole :
    {Payload : Type 0} (stringify : Payload → Text) (iso : ℕ → Text) (q : AuditQuery)
    (table : List (AuditRow Payload))
    → HasDistinctIds table
    → IsExportable (selected q table)
    → export stringify iso export_fuel q table ≡ (
        if ltb audit_export_max_rows (count q table)
        then too_many (count q table)
        else exported
            (audit_csv stringify iso (map to_audit_record (selected q table)))
            (count q table))
unfolding export
export-whole stringify iso q table ids k =
    elim (Bool-cases (ltb audit_export_max_rows (count q table))) [
      | inl e ↦ rw e refl
      | inr e ↦
          let size = count-selected q table in
          let ordered : IsDescending (selected q table) =
            unfold selected in
            newest_first-IsDescending (filter (audit_filter q) table)
              (filter-HasDistinctIds (audit_filter q) table ids) in
          let all : collect export_fuel chunk_size q none table ≡ some (selected q table) =
            collect-selected export_fuel q table ordered k (ground (arith, size, e)) in
          rw (e, all)
            (ap (exported (audit_csv stringify iso (map to_audit_record (selected q table)))) size)
    ]
