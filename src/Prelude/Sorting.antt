-- ===== src/Prelude/Sorting.antt =====
-- The order of JavaScript's default sort on strings, sorting, and sets kept in insertion order.
use mathlib.Core.Path.{◌≡◌, refl, ap, ◌∙◌}
use mathlib.Core.Logic.{inl, inr}
use mathlib.Core.Bool.{Bool, true, false, not, ◌&&◌, ◌||◌}
use mathlib.Core.List.{List, [], ◌∷◌}
use native.Mathlib.Omega.{arith}
use plant_ops.Prelude.Tests.{ltb, ◌=?◌, if◌then◌else◌, Bool-cases}
use plant_ops.Prelude.Lists.{filter, any, all}
use plant_ops.Prelude.Texts.{Text, ◌==◌, eq_iff, eq_refl, includes}

-- By code units, a proper prefix first.
unfoldable pub text_lt : Text → Text → Bool
text_lt [] [] = false
text_lt [] (b ∷ t) = true
text_lt (a ∷ s) [] = false
text_lt (a ∷ s) (b ∷ t) = ltb a b || (a =? b && text_lt s t)

pub text_lt_irrefl : (s : Text) → text_lt s s ≡ false
unfolding text_lt
text_lt_irrefl [] = refl
text_lt_irrefl (a ∷ s) = ground (arith, text_lt_irrefl s)

pub text_lt_trans : (s t u : Text) → text_lt s t ≡ true → text_lt t u ≡ true → text_lt s u ≡ true
unfolding text_lt
text_lt_trans [] t [] h k = ground (arith)
text_lt_trans [] t (c ∷ u) h k = refl
text_lt_trans (a ∷ s) [] u h k = cc
text_lt_trans (a ∷ s) (b ∷ t) [] h k = cc
text_lt_trans (a ∷ s) (b ∷ t) (c ∷ u) h k = ground (arith, text_lt_trans s t u)

-- Two texts that are not ordered either way are equal.
pub text_lt_total : (s t : Text) → text_lt s t ≡ false → text_lt t s ≡ false → s ≡ t
unfolding text_lt
text_lt_total [] [] h k = refl
text_lt_total [] (b ∷ t) h k = cc
text_lt_total (a ∷ s) [] h k = cc
text_lt_total (a ∷ s) (b ∷ t) h k = ground (arith, text_lt_total s t)

unfoldable pub insert_text : Text → List Text → List Text
insert_text x [] = x ∷ []
insert_text x (y ∷ ys) = if text_lt y x then y ∷ insert_text x ys else x ∷ y ∷ ys

-- `[...].sort()`
unfoldable pub sort : List Text → List Text
unfolding insert_text text_lt
sort [] = []
sort (x ∷ xs) = insert_text x (sort xs)

-- `[...new Set(xs)]`: the first occurrence of each text, in order.
unfoldable pub distinct : List Text → List Text
unfolding ◌==◌
distinct [] = []
distinct (x ∷ xs) = x ∷ filter (λ y. not (y == x)) (distinct xs)

pub includes-filter :
    (p : Text → Bool) (xs : List Text) (k : Text)
    → includes (filter p xs) k ≡ (includes xs k && p k)
unfolding includes
includes-filter p [] k = refl
includes-filter p (x ∷ xs) k = elim (Bool-cases (x == k)) [
  | inl e ↦ ground (arith, includes-filter p xs k, ap p ((eq_iff x k).0 e))
  | inr e ↦ ground (arith, includes-filter p xs k)
]

pub includes-distinct : (xs : List Text) (k : Text) → includes (distinct xs) k ≡ includes xs k
unfolding includes distinct
includes-distinct [] k = refl
includes-distinct (x ∷ xs) k = ground (
  arith,
  includes-filter (λ y. not (y == x)) (distinct xs) k,
  includes-distinct xs k,
  eq_iff x k,
  eq_iff k x,
)

pub includes-insert :
    (x : Text) (ys : List Text) (k : Text)
    → includes (insert_text x ys) k ≡ (x == k || includes ys k)
unfolding includes insert_text
includes-insert x [] k = refl
includes-insert x (y ∷ ys) k = ground (arith, includes-insert x ys k)

pub includes-sort : (xs : List Text) (k : Text) → includes (sort xs) k ≡ includes xs k
unfolding includes sort
includes-sort [] k = refl
includes-sort (x ∷ xs) k =
    includes-insert x (sort xs) k ∙ ap (λ b. x == k || b) (includes-sort xs k)

-- `any` and `all` depend on the members alone.
pub any_of_includes :
    (p : Text → Bool) (xs : List Text) (k : Text)
    → includes xs k ≡ true
    → p k ≡ true
    → any p xs ≡ true
unfolding includes
any_of_includes p [] k h e = cc
any_of_includes p (x ∷ xs) k h e = elim (Bool-cases (x == k)) [
  | inl same ↦ ground (arith, ap p ((eq_iff x k).0 same))
  | inr other ↦ ground (arith, any_of_includes p xs k)
]

pub any-member :
    (p : Text → Bool) (xs : List Text)
    → any p xs ≡ true
    → (k : Text) × (includes xs k ≡ true) × (p k ≡ true)
unfolding includes
any-member p [] h = absurd (ground arith)
any-member p (x ∷ xs) h = elim (Bool-cases (p x)) [
  | inl e ↦ (x, ground (arith, eq_refl x), e)
  | inr e ↦ let (k, m, pk) = any-member p xs (ground arith) in (k, ground arith, pk)
]

pub all-member :
    (p : Text → Bool) (xs : List Text) (k : Text)
    → all p xs ≡ true
    → includes xs k ≡ true
    → p k ≡ true
unfolding includes
all-member p [] k h m = cc
all-member p (x ∷ xs) k h m = elim (Bool-cases (x == k)) [
  | inl same ↦ ground (arith, ap p ((eq_iff x k).0 same))
  | inr other ↦ all-member p xs k (ground arith) (ground arith)
]

pub all_of_members :
    (p : Text → Bool) (xs : List Text)
    → ((k : Text) → includes xs k ≡ true → p k ≡ true)
    → all p xs ≡ true
unfolding includes
all_of_members p [] h = refl
all_of_members p (x ∷ xs) h =
    let here : p x ≡ true = h x (ground (arith, eq_refl x)) in
    let later : all p xs ≡ true = all_of_members p xs (λ k m. h k (ground (arith, m))) in
    ground (arith, here, later)

-- A failed `every` has a member that fails.
pub all-counterexample :
    (p : Text → Bool) (xs : List Text)
    → all p xs ≡ false
    → (k : Text) × (includes xs k ≡ true) × (p k ≡ false)
unfolding includes
all-counterexample p [] h = absurd (ground arith)
all-counterexample p (x ∷ xs) h = elim (Bool-cases (p x)) [
  | inr e ↦ (x, ground (arith, eq_refl x), e)
  | inl e ↦ let (k, m, pk) = all-counterexample p xs (ground arith) in (k, ground arith, pk)
]

-- Strictly increasing, hence without repetition.
abbrev pub IsIncreasing : List Text → Type 0
IsIncreasing [] = Unit
IsIncreasing (x ∷ xs) = (all (text_lt x) xs ≡ true) × IsIncreasing xs

abbrev pub IsDistinct : List Text → Type 0
IsDistinct [] = Unit
IsDistinct (x ∷ xs) = (includes xs x ≡ false) × IsDistinct xs

pub filter-IsDistinct :
    (p : Text → Bool) (xs : List Text) → IsDistinct xs → IsDistinct (filter p xs)
filter-IsDistinct p [] h = tt
filter-IsDistinct p (x ∷ xs) (h, hs) = elim (Bool-cases (p x)) [
  | inl e ↦ rw e (ground (arith, includes-filter p xs x), filter-IsDistinct p xs hs)
  | inr e ↦ rw e (filter-IsDistinct p xs hs)
]

pub distinct-IsDistinct : (xs : List Text) → IsDistinct (distinct xs)
unfolding distinct
distinct-IsDistinct [] = tt
distinct-IsDistinct (x ∷ xs) = (
  ground (arith, includes-filter (λ y. not (y == x)) (distinct xs) x, eq_refl x),
  filter-IsDistinct _ (distinct xs) (distinct-IsDistinct xs),
)
