-- ===== src/Prelude/Lists.antt =====
-- Lists with Boolean predicates, and lists measured by native numbers.
use Prim.Native.Nat.{ℕ, zero, suc, ◌+◌, ◌≤◌}
use mathlib.Core.Path.{◌≡◌, refl, sym, ap, ◌∙◌}
use mathlib.Core.Logic.{inl, inr}
use mathlib.Core.Bool.{Bool, true, false, ◌&&◌, ◌||◌}
use mathlib.Core.Option.{Option, none, some}
use mathlib.Core.List.{List, [], ◌∷◌, ◌++◌, Memᴰ, map}
use native.Mathlib.Omega.{arith}
use plant_ops.Prelude.Tests.{if◌then◌else◌, Bool-cases}

module _ {ℓ} {A : Type ℓ} where
  abbrev pub length : List A → ℕ
  length [] = 0
  length (x ∷ xs) = suc (length xs)

  abbrev pub take : ℕ → List A → List A
  take zero xs = []
  take (suc n) [] = []
  take (suc n) (x ∷ xs) = x ∷ take n xs

  abbrev pub drop : ℕ → List A → List A
  drop zero xs = xs
  drop (suc n) [] = []
  drop (suc n) (x ∷ xs) = drop n xs

  abbrev pub is_empty : List A → Bool
  is_empty [] = true
  is_empty (x ∷ xs) = false

  -- `Array.prototype.some`
  abbrev pub any : (A → Bool) → List A → Bool
  any p [] = false
  any p (x ∷ xs) = p x || any p xs

  -- `Array.prototype.every`
  abbrev pub all : (A → Bool) → List A → Bool
  all p [] = true
  all p (x ∷ xs) = p x && all p xs

  -- `Array.prototype.filter`
  abbrev pub filter : (A → Bool) → List A → List A
  filter p [] = []
  filter p (x ∷ xs) = let rest = filter p xs in if p x then x ∷ rest else rest

  -- `Array.prototype.find`
  abbrev pub find : (A → Bool) → List A → Option A
  find p [] = none
  find p (x ∷ xs) = if p x then some x else find p xs

  pub length-append : (xs ys : List A) → length (xs ++ ys) ≡ length xs + length ys
  length-append [] ys = omega arith
  length-append (x ∷ xs) ys = omega (arith, length-append xs ys)

  pub any-append : (p : A → Bool) (xs ys : List A) → any p (xs ++ ys) ≡ (any p xs || any p ys)
  any-append p [] ys = refl
  any-append p (x ∷ xs) ys = ground (arith, any-append p xs ys)

  pub any-filter : (p q : A → Bool) (xs : List A) → any p (filter q xs) ≡ any (λ x. q x && p x) xs
  any-filter p q [] = refl
  any-filter p q (x ∷ xs) = ground (arith, any-filter p q xs)

  pub length-filter-le : (p : A → Bool) (xs : List A) → length (filter p xs) ≤ length xs
  length-filter-le p [] = omega arith
  length-filter-le p (x ∷ xs) = ground (arith, length-filter-le p xs)

  -- A member that passes, with its test.
  pub any-witness : (p : A → Bool) (xs : List A) → any p xs ≡ true → (x : A) × (p x ≡ true)
  any-witness p [] h = absurd (ground arith)
  any-witness p (x ∷ xs) h = elim (Bool-cases (p x)) [
    | inl e ↦ (x, e)
    | inr e ↦ any-witness p xs (ground arith)
  ]

module _ {ℓ κ} {A : Type ℓ} {B : Type κ} where
  abbrev pub flat_map : (A → List B) → List A → List B
  flat_map f [] = []
  flat_map f (x ∷ xs) = f x ++ flat_map f xs

  pub any-flat_map :
      (p : B → Bool) (f : A → List B) (xs : List A)
      → any p (flat_map f xs) ≡ any (λ x. any p (f x)) xs
  any-flat_map p f [] = refl
  any-flat_map p f (x ∷ xs) =
      any-append p (f x) (flat_map f xs) ∙ ap (λ b. any p (f x) || b) (any-flat_map p f xs)

module _ {ℓ} {A : Type ℓ} (p : A → Bool) where
  -- A member that passes, and the other way round.
  pub any-Memᴰ : (xs : List A) → any p xs ≡ true → (x : A) × Memᴰ x xs × (p x ≡ true)
  any-Memᴰ [] h = absurd (ground arith)
  any-Memᴰ (x ∷ xs) h = elim (Bool-cases (p x)) [
    | inl e ↦ (x, Memᴰ.head refl, e)
    | inr e ↦ let (y, m, py) = any-Memᴰ xs (ground arith) in (y, Memᴰ.tail m, py)
  ]

  pub any_of_Memᴰ : {x : A} {xs : List A} → Memᴰ x xs → p x ≡ true → any p xs ≡ true
  any_of_Memᴰ (Memᴰ.head e) h = let e' = ap p e in ground arith
  any_of_Memᴰ (Memᴰ.tail m) h = let ih = any_of_Memᴰ m h in ground arith

  -- What a test finds is a member that passes it.
  pub find-Memᴰ : (xs : List A) (x : A) → find p xs ≡ some x → (p x ≡ true) × Memᴰ x xs
  find-Memᴰ [] x h = absurd (ground (arith, h))
  find-Memᴰ (y ∷ ys) x h = elim (Bool-cases (p y)) [
    | inl e ↦
        let k : some y ≡ some x = rw e at h in
        let q : y ≡ x = ground (arith, k) in (rw (← q) e, Memᴰ.head (sym q))
    | inr e ↦ let (px, m) = find-Memᴰ ys x (rw e at h) in (px, Memᴰ.tail m)
  ]

module _ {ℓ} {A : Type ℓ} (p : A → Bool) where
  pub Memᴰ-filter : {x : A} (xs : List A) → Memᴰ x (filter p xs) → Memᴰ x xs × (p x ≡ true)
  Memᴰ-filter [] m = elim m [ ]
  Memᴰ-filter (y ∷ ys) m = elim (Bool-cases (p y)) [
    | inl e ↦ cons_case y ys (Memᴰ-filter ys) e (rw e at m)
    | inr e ↦ let (n, h) = Memᴰ-filter ys (rw e at m) in (Memᴰ.tail n, h)
  ]
    where
      cons_case :
          {x : A} (y : A) (ys : List A)
          → (Memᴰ x (filter p ys) → Memᴰ x ys × (p x ≡ true))
          → p y ≡ true
          → Memᴰ x (y ∷ filter p ys)
          → Memᴰ x (y ∷ ys) × (p x ≡ true)
      cons_case y ys ih e (Memᴰ.head q) = (Memᴰ.head q, ap p q ∙ e)
      cons_case y ys ih e (Memᴰ.tail m) = let (n, h) = ih m in (Memᴰ.tail n, h)

  pub Memᴰ-filter_intro : {x : A} {xs : List A} → Memᴰ x xs → p x ≡ true → Memᴰ x (filter p xs)
  Memᴰ-filter_intro (Memᴰ.head {x = b} q) h =
      let e : p b ≡ true = sym (ap p q) ∙ h in rw e (Memᴰ.head q)
  Memᴰ-filter_intro (Memᴰ.tail {x = b} m) h =
      let ih = Memᴰ-filter_intro m h in
      elim (Bool-cases (p b)) [ inl e ↦ rw e (Memᴰ.tail ih) | inr e ↦ rw e ih ]

module _ {ℓ κ} {A : Type ℓ} {B : Type κ} (p : B → Bool) (f : A → List B) where
  pub any-flat_map_elim :
      (xs : List A) → any p (flat_map f xs) ≡ true → (x : A) × Memᴰ x xs × (any p (f x) ≡ true)
  any-flat_map_elim xs h = any-Memᴰ (λ x. any p (f x)) xs (sym (any-flat_map p f xs) ∙ h)

  pub any-flat_map_intro :
      {x : A} {xs : List A} → Memᴰ x xs → any p (f x) ≡ true → any p (flat_map f xs) ≡ true
  any-flat_map_intro {xs = xs} m h = any-flat_map p f xs ∙ any_of_Memᴰ (λ x. any p (f x)) m h

-- Every element satisfies a predicate; computes to a tuple.
abbrev pub All {ℓ κ} : {A : Type ℓ} → (A → Type κ) → List A → Type κ
All P [] = Unit
All P (x ∷ xs) = P x × All P xs

-- A member of a mapped list comes from one of the list.
pub Memᴰ-map {ℓ κ} :
    {A : Type ℓ} {B : Type κ} (f : A → B) (xs : List A) {y : B}
    → Memᴰ y (map f xs)
    → (x : A) × Memᴰ x xs × (y ≡ f x)
Memᴰ-map f [] m = elim m [ ]
Memᴰ-map f (x ∷ xs) (Memᴰ.head e) = (x, Memᴰ.head refl, e)
Memᴰ-map f (x ∷ xs) (Memᴰ.tail m) = let (z, n, e) = Memᴰ-map f xs m in (z, Memᴰ.tail n, e)

pub Memᴰ-map_intro {ℓ κ} :
    {A : Type ℓ} {B : Type κ} (f : A → B) {x : A} {xs : List A} → Memᴰ x xs → Memᴰ (f x) (map f xs)
Memᴰ-map_intro f (Memᴰ.head e) = Memᴰ.head (ap f e)
Memᴰ-map_intro f (Memᴰ.tail m) = Memᴰ.tail (Memᴰ-map_intro f m)
