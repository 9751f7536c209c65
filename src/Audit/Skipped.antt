-- ===== src/Audit/Skipped.antt =====
-- What an export loses where a chunk ends inside a millisecond.
use mathlib.Core.List.{Memᴰ, append_assoc}
use mathlib.Core.Path.{subst}
use plant_ops.Prelude.{
  ℕ, zero, suc, ◌<◌, true, false, List, [], ◌∷◌, ◌++◌, Option, none, some, ◌≡◌, refl, sym, ap, ◌∙◌,
  ◌⊎◌, inl, inr, arith, Bool-cases, ltb, All, filter, take, length, Memᴰ-filter,
}
use plant_ops.Audit.{
  AuditRow, AuditQuery, Cursor, to_date, is_below, place_of, selected, chunk, last_cursor, joined,
  collect,
}
use plant_ops.Audit.Order.{
  IsDescending, date_place, is_below_irrefl, is_below_trans, is_below_of_date, parts_of,
}
use plant_ops.Audit.Whole.{last_of}

module _ {Payload : Type 0} (size : ℕ) (q : AuditQuery) (table : List (AuditRow Payload)) where
  Memᴰ-take :
      (n : ℕ) (xs : List (AuditRow Payload)) {r : AuditRow Payload} → Memᴰ r (take n xs) → Memᴰ r xs
  Memᴰ-take zero xs m = elim m [ ]
  Memᴰ-take (suc n) [] m = elim m [ ]
  Memᴰ-take (suc n) (x ∷ xs) (Memᴰ.head e) = Memᴰ.head e
  Memᴰ-take (suc n) (x ∷ xs) (Memᴰ.tail m) = Memᴰ.tail (Memᴰ-take n xs m)

  Memᴰ-append :
      (xs ys : List (AuditRow Payload)) {r : AuditRow Payload}
      → Memᴰ r (xs ++ ys)
      → Memᴰ r xs ⊎ Memᴰ r ys
  Memᴰ-append [] ys m = inr m
  Memᴰ-append (x ∷ xs) ys (Memᴰ.head e) = inl (Memᴰ.head e)
  Memᴰ-append (x ∷ xs) ys (Memᴰ.tail m) = elim (Memᴰ-append xs ys m) [
    | inl n ↦ inl (Memᴰ.tail n)
    | inr n ↦ inr n
  ]

  Memᴰ-last : (xs : List (AuditRow Payload)) (r : AuditRow Payload) → Memᴰ r (xs ++ r ∷ [])
  Memᴰ-last [] r = Memᴰ.head refl
  Memᴰ-last (x ∷ xs) r = Memᴰ.tail (Memᴰ-last xs r)

  joined-some :
      (rows whole : List (AuditRow Payload)) (o : Option (List (AuditRow Payload)))
      → joined rows o ≡ some whole
      → (more : List (AuditRow Payload)) × (o ≡ some more) × (rows ++ more ≡ whole)
  joined-some rows whole none h = absurd (ground (arith, h))
  joined-some rows whole (some more) h = (more, refl, ground (arith, h))

  -- Everything that is collected from a cursor on lies below it.
  collected-below :
      (fuel : ℕ) (cursor : Cursor) (whole : List (AuditRow Payload))
      → 0 < size
      → collect fuel size q (some cursor) table ≡ some whole
      → (r : AuditRow Payload) → Memᴰ r whole
      → is_below cursor r ≡ true
  unfolding collect
  collected-below zero cursor whole pos h r m = absurd (ground (arith, h))
  collected-below (suc fuel) cursor whole pos h r m =
      let rows = chunk q size (some cursor) table in
      let in_chunk : (s : AuditRow Payload) → Memᴰ s rows → is_below cursor s ≡ true = λ s k.
        unfold chunk in
        (Memᴰ-filter (is_below cursor) (selected q table)
          (Memᴰ-take size (filter (is_below cursor) (selected q table)) k)).1 in
      elim (Bool-cases (ltb (length rows) size)) [
        | inl e ↦
            let k : some rows ≡ some whole = rw e at h in
            let same : rows ≡ whole = ground (arith, k) in
            in_chunk r (subst (λ x. Memᴰ r x) (sym same) m)
        | inr e ↦
            let (more, l, s) =
              joined-some rows whole (collect fuel size q (last_cursor rows) table) (rw e at h) in
            elim (Memᴰ-append rows more (subst (λ x. Memᴰ r x) (sym s) m)) [
              | inl n ↦ in_chunk r n
              | inr n ↦
                  later rows more (λ c w x. collected-below fuel c w pos x) (ground (arith, e, pos))
                    l in_chunk r n
            ]
      ]
    where
      later :
          (rows more : List (AuditRow Payload))
          → ((c : Cursor) (w : List (AuditRow Payload))
              → collect fuel size q (some c) table ≡ some w
              → (r : AuditRow Payload) → Memᴰ r w
              → is_below c r ≡ true)
          → 0 < length rows
          → collect fuel size q (last_cursor rows) table ≡ some more
          → ((s : AuditRow Payload) → Memᴰ s rows → is_below cursor s ≡ true)
          → (r : AuditRow Payload) → Memᴰ r more
          → is_below cursor r ≡ true
      later [] more ih pos l here r m = absurd (omega (arith, pos))
      later (x ∷ xs) more ih pos l here r m =
          let (before, s, e, k) = last_of x xs in
          let low =
            ih (date_place s) more (ap (λ c. collect fuel size q c table) (sym k) ∙ l) r m in
          is_below_trans cursor s r (here s (subst (λ y. Memᴰ s y) (sym e) (Memᴰ-last before s)))
            (is_below_of_date s r low)

  take-exact : (xs ys : List (AuditRow Payload)) → take (length xs) (xs ++ ys) ≡ xs
  take-exact [] ys = refl
  take-exact (x ∷ xs) ys = ap (λ t. x ∷ t) (take-exact xs ys)

  last_cursor-snoc :
      (xs : List (AuditRow Payload)) (r : AuditRow Payload)
      → last_cursor (xs ++ r ∷ []) ≡ some (date_place r)
  unfolding last_cursor
  last_cursor-snoc [] r = refl
  last_cursor-snoc (x ∷ []) r = refl
  last_cursor-snoc (x ∷ y ∷ xs) r = last_cursor-snoc (y ∷ xs) r

  All-Memᴰ :
      (P : AuditRow Payload → Type 0) {r : AuditRow Payload} (xs : List (AuditRow Payload))
      → All P xs
      → Memᴰ r xs
      → P r
  All-Memᴰ P [] h m = elim m [ ]
  All-Memᴰ P (x ∷ xs) h (Memᴰ.head e) = subst P (sym e) h.0
  All-Memᴰ P (x ∷ xs) h (Memᴰ.tail m) = All-Memᴰ P xs h.1 m

  filter-true : (xs : List (AuditRow Payload)) → filter (λ r. true) xs ≡ xs
  filter-true [] = refl
  filter-true (x ∷ xs) = ap (λ t. x ∷ t) (filter-true xs)

  module _ (before rest : List (AuditRow Payload)) (c b : AuditRow Payload)
      (ordered : IsDescending (selected q table)) (split : selected q table ≡ before ++ c ∷ rest)
      (full : length (before ++ c ∷ []) ≡ size) (behind : Memᴰ b rest) where
    low : is_below (place_of c) b ≡ true
    low =
        All-Memᴰ (λ s. is_below (place_of c) s ≡ true) rest
          (parts_of before c rest (subst IsDescending split ordered)).1 behind

    not_before : Memᴰ b before → ⊥
    not_before m =
        let high =
          All-Memᴰ (λ s. is_below (place_of s) c ≡ true) before
            (parts_of before c rest (subst IsDescending split ordered)).0 m in
        let z : true ≡ false = sym (is_below_trans (place_of b) c b high low) ∙ is_below_irrefl b in
        ground (arith, z)

    not_c : b ≡ c → ⊥
    not_c e =
        let z : true ≡ false =
          sym (subst (λ x. is_below (place_of c) x ≡ true) e low) ∙ is_below_irrefl c in
        ground (arith, z)

    not_first : Memᴰ b (before ++ c ∷ []) → ⊥
    not_first m = elim (Memᴰ-append before (c ∷ []) m) [
      | inl n ↦ not_before n
      | inr (Memᴰ.head e) ↦ not_c e
      | inr (Memᴰ.tail n) ↦ elim n [ ]
    ]

    first_rows : chunk q size none table ≡ before ++ c ∷ []
    unfolding chunk
    first_rows =
        ap (take size)
          (filter-true (selected q table) ∙ split ∙ sym (append_assoc before (c ∷ []) rest))
        ∙ ap (λ n. take n ((before ++ c ∷ []) ++ rest)) (sym full)
        ∙ take-exact (before ++ c ∷ []) rest

    -- A matching row behind the last row of the first full chunk, in a later microsecond than the
    -- start of that row's millisecond, is in no chunk of the export.
    pub collect-not_mem :
        (fuel : ℕ) (whole : List (AuditRow Payload))
        → 0 < size
        → to_date c.created_at < b.created_at
        → collect fuel size q none table ≡ some whole
        → ¬ Memᴰ b whole
    unfolding collect is_below
    collect-not_mem zero whole pos late h m = absurd (ground (arith, h))
    collect-not_mem (suc fuel) whole pos late h m =
        let rows = chunk q size none table in
        let long : ltb (length rows) size ≡ false = ground (arith, ap length first_rows, full) in
        let (more, l, s) =
          joined-some rows whole (collect fuel size q (last_cursor rows) table) (rw long at h) in
        elim (Memᴰ-append rows more (subst (λ x. Memᴰ b x) (sym s) m)) [
          | inl n ↦ not_first (subst (λ x. Memᴰ b x) first_rows n)
          | inr n ↦
              let from : collect fuel size q (some (date_place c)) table ≡ some more =
                ap (λ x. collect fuel size q x table)
                  (sym (ap last_cursor first_rows ∙ last_cursor-snoc before c))
                ∙ l in
              let under = collected-below fuel (date_place c) more pos from b n in
              ground (arith, under, late)
        ]
