-- ===== src/Audit/Order.antt =====
-- The order of the reads: newest first, ids breaking the ties.
use plant_ops.Prelude.{
  ◌+◌, Bool, true, false, List, [], ◌∷◌, ◌++◌, ◌≡◌, ◌≢◌, sym, ◌∙◌, inl, inr, arith, Bool-cases, All,
  filter, length, text_lt_irrefl, text_lt_trans, text_lt_total,
}
use plant_ops.Audit.{AuditRow, Cursor, is_below, place_of, to_date, insert_row, newest_first}

module _ {Payload : Type 0} where
  pub is_below_trans :
      (c : Cursor) (r s : AuditRow Payload)
      → is_below c r ≡ true
      → is_below (place_of r) s ≡ true
      → is_below c s ≡ true
  unfolding is_below
  is_below_trans c r s h k = ground (arith, text_lt_trans s.id r.id c.id, h, k)

  pub is_below_irrefl : (r : AuditRow Payload) → is_below (place_of r) r ≡ false
  unfolding is_below
  is_below_irrefl r = ground (arith, text_lt_irrefl r.id)

  pub is_below_asymm :
      (r s : AuditRow Payload) → is_below (place_of r) s ≡ true → is_below (place_of s) r ≡ false
  is_below_asymm r s h = elim (Bool-cases (is_below (place_of s) r)) [
    | inr e ↦ e
    | inl e ↦
        let z = is_below_trans (place_of s) r s e h in
        let w : true ≡ false = sym z ∙ is_below_irrefl s in absurd (ground (arith, w))
  ]

  pub is_below_total :
      (r s : AuditRow Payload)
      → is_below (place_of r) s ≡ false
      → r.id ≢ s.id
      → is_below (place_of s) r ≡ true
  unfolding is_below
  is_below_total r s h n = ground (arith, text_lt_total s.id r.id, h, n)

  abbrev pub date_place : AuditRow Payload → Cursor
  date_place r = record { created_at = to_date r.created_at; id = r.id }

  -- What lies below the millisecond of a row lies below the row.
  pub is_below_of_date :
      (r s : AuditRow Payload) → is_below (date_place r) s ≡ true → is_below (place_of r) s ≡ true
  unfolding is_below
  is_below_of_date r s h = ground (arith, h)

  abbrev pub IsDescending : List (AuditRow Payload) → Type 0
  IsDescending [] = Unit
  IsDescending (r ∷ rows) = All (λ s. is_below (place_of r) s ≡ true) rows × IsDescending rows

  -- No two rows have one id.
  abbrev pub HasDistinctIds : List (AuditRow Payload) → Type 0
  HasDistinctIds [] = Unit
  HasDistinctIds (r ∷ rows) = All (λ s. r.id ≢ s.id) rows × HasDistinctIds rows

  All-insert_row :
      (P : AuditRow Payload → Type 0) (r : AuditRow Payload) (rows : List (AuditRow Payload))
      → P r
      → All P rows
      → All P (insert_row r rows)
  unfolding insert_row
  All-insert_row P r [] p h = (p, h)
  All-insert_row P r (s ∷ rows) p h = elim (Bool-cases (is_below (place_of r) s)) [
    | inl e ↦ rw e (p, h)
    | inr e ↦ rw e (h.0, All-insert_row P r rows p h.1)
  ]

  pub All-newest_first :
      (P : AuditRow Payload → Type 0) (rows : List (AuditRow Payload))
      → All P rows
      → All P (newest_first rows)
  unfolding newest_first
  All-newest_first P [] h = h
  All-newest_first P (r ∷ rows) h =
      All-insert_row P r (newest_first rows) h.0 (All-newest_first P rows h.1)

  All-below :
      (r s : AuditRow Payload) (rows : List (AuditRow Payload))
      → is_below (place_of r) s ≡ true
      → All (λ t. is_below (place_of s) t ≡ true) rows
      → All (λ t. is_below (place_of r) t ≡ true) rows
  All-below r s [] h k = tt
  All-below r s (t ∷ rows) h k = (is_below_trans (place_of r) s t h k.0, All-below r s rows h k.1)

  insert_row-IsDescending :
      (r : AuditRow Payload) (rows : List (AuditRow Payload))
      → All (λ s. r.id ≢ s.id) rows
      → IsDescending rows
      → IsDescending (insert_row r rows)
  unfolding insert_row
  insert_row-IsDescending r [] n d = (tt, tt)
  insert_row-IsDescending r (s ∷ rows) n d = elim (Bool-cases (is_below (place_of r) s)) [
    | inl e ↦ rw e ((e, All-below r s rows e d.0), d)
    | inr e ↦ rw e (
      All-insert_row (λ t. is_below (place_of s) t ≡ true) r rows (is_below_total r s e n.0) d.0,
      insert_row-IsDescending r rows n.1 d.1,
    )
  ]

  pub newest_first-IsDescending :
      (rows : List (AuditRow Payload)) → HasDistinctIds rows → IsDescending (newest_first rows)
  unfolding newest_first
  newest_first-IsDescending [] h = tt
  newest_first-IsDescending (r ∷ rows) h =
      insert_row-IsDescending r (newest_first rows) (All-newest_first (λ s. r.id ≢ s.id) rows h.0)
        (newest_first-IsDescending rows h.1)

  length-insert_row :
      (r : AuditRow Payload) (rows : List (AuditRow Payload))
      → length (insert_row r rows) ≡ length rows + 1
  unfolding insert_row
  length-insert_row r [] = omega arith
  length-insert_row r (s ∷ rows) = ground (arith, length-insert_row r rows)

  pub length-newest_first :
      (rows : List (AuditRow Payload)) → length (newest_first rows) ≡ length rows
  unfolding newest_first
  length-newest_first [] = omega arith
  length-newest_first (r ∷ rows) =
      omega (arith, length-insert_row r (newest_first rows), length-newest_first rows)

  All-filter :
      (P : AuditRow Payload → Type 0) (p : AuditRow Payload → Bool) (rows : List (AuditRow Payload))
      → All P rows
      → All P (filter p rows)
  All-filter P p [] h = tt
  All-filter P p (r ∷ rows) h = elim (Bool-cases (p r)) [
    | inl e ↦ rw e (h.0, All-filter P p rows h.1)
    | inr e ↦ rw e (All-filter P p rows h.1)
  ]

  pub filter-HasDistinctIds :
      (p : AuditRow Payload → Bool) (rows : List (AuditRow Payload))
      → HasDistinctIds rows
      → HasDistinctIds (filter p rows)
  filter-HasDistinctIds p [] h = tt
  filter-HasDistinctIds p (r ∷ rows) h = elim (Bool-cases (p r)) [
    | inl e ↦ rw e (All-filter (λ s. r.id ≢ s.id) p rows h.0, filter-HasDistinctIds p rows h.1)
    | inr e ↦ rw e (filter-HasDistinctIds p rows h.1)
  ]

  -- A row of a descending list parts it into what comes before and what lies below.
  pub parts_of :
      (before : List (AuditRow Payload)) (r : AuditRow Payload) (rest : List (AuditRow Payload))
      → IsDescending (before ++ r ∷ rest)
      → All (λ s. is_below (place_of s) r ≡ true) before
        × All (λ s. is_below (place_of r) s ≡ true) rest
  parts_of [] r rest d = (tt, d.0)
  parts_of (s ∷ before) r rest d =
      let (b, a) = parts_of before r rest d.1 in ((below_here before d.0, b), a)
    where
      below_here :
          (xs : List (AuditRow Payload))
          → All (λ t. is_below (place_of s) t ≡ true) (xs ++ r ∷ rest)
          → is_below (place_of s) r ≡ true
      below_here [] h = h.0
      below_here (x ∷ xs) h = below_here xs h.1
