-- ===== src/Prelude/Canonical.antt =====
-- A set of texts has one strictly increasing list.
use mathlib.Core.Path.{◌≡◌, refl, ap, ◌∙◌, ap₂}
use mathlib.Core.Logic.{inl, inr}
use mathlib.Core.Bool.{Bool, true, false}
use mathlib.Core.List.{List, [], ◌∷◌}
use native.Mathlib.Omega.{arith}
use plant_ops.Prelude.Tests.{Bool-cases}
use Prim.Native.Nat.{suc, ◌≤◌}
use mathlib.Core.Bool.{not}
use plant_ops.Prelude.Lists.{all, filter, length, length-filter-le}
use plant_ops.Prelude.Texts.{Text, ◌==◌, eq_iff, eq_refl, includes}
use plant_ops.Prelude.Sorting.{
  text_lt, text_lt_irrefl, text_lt_trans, text_lt_total, insert_text, sort, includes-sort,
  includes-filter, all-member, all_of_members, IsIncreasing, IsDistinct,
}

-- What is above the head of an increasing list is above the rest of it too.
all_above :
    (x y : Text) (ys : List Text)
    → text_lt x y ≡ true
    → all (text_lt y) ys ≡ true
    → all (text_lt x) ys ≡ true
all_above x y ys h k =
    all_of_members (text_lt x) ys λ z m. text_lt_trans x y z h (all-member (text_lt y) ys z k m)

all-insert :
    (p : Text → Bool) (x : Text) (ys : List Text)
    → p x ≡ true
    → all p ys ≡ true
    → all p (insert_text x ys) ≡ true
unfolding insert_text
all-insert p x [] h k = ground arith
all-insert p x (y ∷ ys) h k = ground (arith, all-insert p x ys h)

insert-IsIncreasing :
    (x : Text) (ys : List Text)
    → includes ys x ≡ false
    → IsIncreasing ys
    → IsIncreasing (insert_text x ys)
unfolding insert_text includes
insert-IsIncreasing x [] m h = (refl, tt)
insert-IsIncreasing x (y ∷ ys) m (h, hs) = elim (Bool-cases (text_lt y x)) [
  | inl e ↦ rw e (all-insert (text_lt y) x ys e h, insert-IsIncreasing x ys (ground arith) hs)
  | inr e ↦
      let lt : text_lt x y ≡ true = elim (Bool-cases (text_lt x y)) [
        | inl t ↦ t
        | inr f ↦ absurd (ground (arith, (eq_iff y x).1 (text_lt_total y x e f)))
      ] in
      rw e (ground (arith, all_above x y ys lt h), (h, hs))
]

pub sort-IsIncreasing : (xs : List Text) → IsDistinct xs → IsIncreasing (sort xs)
unfolding sort
sort-IsIncreasing [] h = tt
sort-IsIncreasing (x ∷ xs) (h, hs) =
    insert-IsIncreasing x (sort xs) (includes-sort xs x ∙ h) (sort-IsIncreasing xs hs)

-- The head of an increasing list is not in its tail.
includes_of_above : (x : Text) (xs : List Text) → all (text_lt x) xs ≡ true → includes xs x ≡ false
includes_of_above x xs h = elim (Bool-cases (includes xs x)) [
  | inl m ↦ absurd (ground (arith, all-member (text_lt x) xs x h m, text_lt_irrefl x))
  | inr e ↦ e
]

heads_eq :
    (x y : Text) (xs ys : List Text)
    → all (text_lt x) xs ≡ true
    → all (text_lt y) ys ≡ true
    → includes (y ∷ ys) x ≡ true
    → includes (x ∷ xs) y ≡ true
    → x ≡ y
unfolding includes
heads_eq x y xs ys h k m n = elim (Bool-cases (x == y)) [
  | inl e ↦ (eq_iff x y).0 e
  | inr e ↦
      let yx : text_lt y x ≡ true =
        all-member (text_lt y) ys x k (ground (arith, eq_iff x y, eq_iff y x)) in
      let xy : text_lt x y ≡ true =
        all-member (text_lt x) xs y h (ground (arith, eq_iff x y, eq_iff y x)) in
      absurd (ground (arith, text_lt_trans x y x xy yx, text_lt_irrefl x))
]

pub IsIncreasing-ext :
    (xs ys : List Text)
    → IsIncreasing xs
    → IsIncreasing ys
    → ((k : Text) → includes xs k ≡ includes ys k)
    → xs ≡ ys
unfolding includes
IsIncreasing-ext [] [] h k e = refl
IsIncreasing-ext [] (y ∷ ys) h k e = absurd (ground (arith, e y, eq_refl y))
IsIncreasing-ext (x ∷ xs) [] h k e = absurd (ground (arith, e x, eq_refl x))
IsIncreasing-ext (x ∷ xs) (y ∷ ys) (h, hs) (k, ks) e =
    let same : x ≡ y =
      heads_eq x y xs ys h k (ground (arith, e x, eq_refl x)) (ground (arith, e y, eq_refl y)) in
    let tails : (z : Text) → includes xs z ≡ includes ys z = λ z. elim (Bool-cases (x == z)) [
      | inl t ↦
          let xz : x ≡ z = (eq_iff x z).0 t in
          let nx : includes xs x ≡ false = includes_of_above x xs h in
          let ny : includes ys y ≡ false = includes_of_above y ys k in cc
      | inr f ↦ ground (arith, e z, eq_iff x z, eq_iff y z)
    ] in
    ap₂ ◌∷◌ same (IsIncreasing-ext xs ys hs ks tails)

-- Pigeonhole: distinct members of a list are no more than its elements.
length-without :
    (x : Text) (ys : List Text)
    → includes ys x ≡ true
    → suc (length (filter (λ y. not (y == x)) ys)) ≤ length ys
unfolding includes
length-without x [] h = absurd (ground arith)
length-without x (y ∷ ys) h = elim (Bool-cases (y == x)) [
  | inl e ↦ rw e (omega (arith, length-filter-le (λ y. not (y == x)) ys))
  | inr e ↦ rw e (omega (arith, length-without x ys (ground arith)))
]

pub length-le_of_IsDistinct :
    (xs ys : List Text)
    → IsDistinct xs
    → ((k : Text) → includes xs k ≡ true → includes ys k ≡ true)
    → length xs ≤ length ys
unfolding includes
length-le_of_IsDistinct [] ys h sub = omega arith
length-le_of_IsDistinct (x ∷ xs) ys (h, hs) sub =
    let rest = filter (λ y. not (y == x)) ys in
    let ih = length-le_of_IsDistinct xs rest hs (λ k m. kept k m (elim (Bool-cases (x == k)) [
      | inl e ↦ absurd (ground (arith, ap (includes xs) ((eq_iff x k).0 e)))
      | inr e ↦ e
    ])) in
    omega (arith, ih, length-without x ys (sub x (ground (arith, eq_refl x))))
  where
    kept :
        (k : Text)
        → includes xs k ≡ true
        → (x == k) ≡ false
        → includes (filter (λ y. not (y == x)) ys) k ≡ true
    kept k m e =
        ground (arith, includes-filter (λ y. not (y == x)) ys k, sub k, eq_iff k x, eq_iff x k)
