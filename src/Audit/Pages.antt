-- ===== src/Audit/Pages.antt =====
-- The pages of the list.
use plant_ops.Prelude.{
  ℕ, zero, suc, ◌+◌, ◌-◌, ◌*◌, ◌≤◌, List, [], ◌∷◌, ◌++◌, Option, none, some, ◌≡◌, refl, sym, ap,
  ◌∙◌, arith, take, drop, length, map,
}
use plant_ops.Audit.{
  AuditRow, AuditQuery, selected, to_audit_record, at_least, normalize_pagination, list_rows,
}

module _ {Payload : Type 0} where
  -- The pages from the first one to page `n`, one behind the other.
  pub pages : ℕ → AuditQuery → Option ℕ → List (AuditRow Payload) → List (AuditRow Payload)
  pages zero q limit table = []
  pages (suc n) q limit table = pages n q limit table ++ list_rows q (some (suc n)) limit table

  map-append :
      {B : Type 0} (f : AuditRow Payload → B) (xs ys : List (AuditRow Payload))
      → map f (xs ++ ys) ≡ map f xs ++ map f ys
  map-append f [] ys = refl
  map-append f (x ∷ xs) ys = ap (λ t. f x ∷ t) (map-append f xs ys)

  take_nil : (n : ℕ) → ◌≡◌ {A = List (AuditRow Payload)} (take n []) []
  take_nil zero = refl
  take_nil (suc n) = refl

  take_more :
      (n m : ℕ) (xs : List (AuditRow Payload)) → take n xs ++ take m (drop n xs) ≡ take (n + m) xs
  take_more zero m xs = let e : m ≡ 0 + m = omega arith in ap (λ k. take k xs) e
  take_more (suc n) m [] = take_nil m ∙ sym (take_nil (suc n + m))
  take_more (suc n) m (x ∷ xs) =
      let e : suc (n + m) ≡ suc n + m = omega arith in
      ap (λ t. x ∷ t) (take_more n m xs) ∙ ap (λ k. take k (x ∷ xs)) e

  take_all : (n : ℕ) (xs : List (AuditRow Payload)) → length xs ≤ n → take n xs ≡ xs
  take_all zero [] h = refl
  take_all zero (x ∷ xs) h = absurd (omega (arith, h))
  take_all (suc n) [] h = refl
  take_all (suc n) (x ∷ xs) h = ap (λ t. x ∷ t) (take_all n xs (omega (arith, h)))

  module _ (q : AuditQuery) (limit : Option ℕ) (table : List (AuditRow Payload)) where
    size : ℕ
    size = (normalize_pagination none limit).limit

    list_rows_lem :
        (n : ℕ)
        → list_rows q (some (suc n)) limit table
          ≡ map to_audit_record (take size (drop (n * size) (selected q table)))
    unfolding list_rows normalize_pagination size
    list_rows_lem n =
        let e : at_least 1 (suc n) - 1 ≡ n = ground arith in
        ap (λ k. map to_audit_record (take size (drop (k * size) (selected q table)))) e

    pages-take :
        (n : ℕ) → pages n q limit table ≡ map to_audit_record (take (n * size) (selected q table))
    unfolding pages
    pages-take zero =
        let e : 0 ≡ 0 * size = omega arith in
        ap (λ k. map to_audit_record (take k (selected q table))) e
    pages-take (suc n) =
        let e : n * size + size ≡ suc n * size = omega arith in
        ap (λ t. t ++ list_rows q (some (suc n)) limit table) (pages-take n)
        ∙ ap (λ t. map to_audit_record (take (n * size) (selected q table)) ++ t) (list_rows_lem n)
        ∙ sym (
            map-append to_audit_record (take (n * size) (selected q table))
              (take size (drop (n * size) (selected q table))))
        ∙ ap (map to_audit_record) (take_more (n * size) size (selected q table))
        ∙ ap (λ k. map to_audit_record (take k (selected q table))) e

  -- Once the pages are enough for the matching rows, they are the records of these rows, newest
  -- first, one behind the other.
  pub pages-selected :
      (n : ℕ) (q : AuditQuery) (limit : Option ℕ) (table : List (AuditRow Payload))
      → length (selected q table) ≤ n * (normalize_pagination none limit).limit
      → pages n q limit table ≡ map to_audit_record (selected q table)
  unfolding size
  pages-selected n q limit table h =
      pages-take q limit table n
      ∙ ap (map to_audit_record) (take_all (n * size q limit table) (selected q table) h)
