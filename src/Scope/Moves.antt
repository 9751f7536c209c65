-- ===== src/Scope/Moves.antt =====
-- `rewritePrefix`: what a move of a subtree does to the paths in it.
use plant_ops.Prelude.{
  ℕ, zero, suc, ◌-◌, ◌≤◌, ◌<◌, Text, true, false, List, [], ◌∷◌, ◌++◌, ◌≡◌, refl, sym, ap, ◌∙◌, inl,
  inr, arith, Bool-cases, length, drop, ◌=?◌, =?_iff, All, some,
}
use plant_ops.Scope.{separator, is_within, split, join, path_depth, rewrite_prefix}
use plant_ops.Scope.Labels.{labels, is_label_prefix, split_cons, is_within-eq-is_label_prefix}

abbrev pub HasNo : ℕ → Text → Type 0
HasNo c [] = Unit
HasNo c (a ∷ s) = ((a =? c) ≡ false) × HasNo c s

pub split-append : (c : ℕ) (s t : Text) → split c (s ++ c ∷ t) ≡ split c s ++ split c t
unfolding split
split-append c [] t = ground arith
split-append c (a ∷ s) t = let (h, u, e) = split_cons c s in ground (arith, split-append c s t, e)

pub split_of_HasNo : (c : ℕ) (s : Text) → HasNo c s → split c s ≡ s ∷ []
unfolding split
split_of_HasNo c [] h = refl
split_of_HasNo c (a ∷ s) (h, hs) = ground (arith, h, split_of_HasNo c s hs)

pub split-HasNo : (c : ℕ) (s : Text) → All (HasNo c) (split c s)
unfolding split
split-HasNo c [] = (tt, tt)
split-HasNo c (a ∷ s) = elim (Bool-cases (a =? c)) [
  | inl e ↦ rw e (tt, split-HasNo c s)
  | inr e ↦
      let (h, t, f) = split_cons c s in
      let ih : All (HasNo c) (h ∷ t) = rw f at (split-HasNo c s) in rw (e, f) ((e, ih.0), ih.1)
]

-- Joining labels and splitting them again gives them back.
split-join :
    (c : ℕ) (p : Text) (ps : List Text)
    → All (HasNo c) (p ∷ ps)
    → split c (join c (p ∷ ps)) ≡ p ∷ ps
unfolding join
split-join c p [] (h, _) = split_of_HasNo c p h
split-join c p (q ∷ ps) (h, hs) =
    split-append c p (join c (q ∷ ps))
    ∙ ap (λ l. l ++ split c (join c (q ∷ ps))) (split_of_HasNo c p h)
    ∙ ap (λ l. p ∷ l) (split-join c q ps hs)

join_cons : (c a : ℕ) (h : Text) (t : List Text) → join c ((a ∷ h) ∷ t) ≡ a ∷ join c (h ∷ t)
unfolding join
join_cons c a h [] = refl
join_cons c a h (p ∷ ps) = refl

pub join-split : (c : ℕ) (s : Text) → join c (split c s) ≡ s
unfolding join split
join-split c [] = refl
join-split c (a ∷ s) =
    let (h, t, e) = split_cons c s in
    let ih : join c (h ∷ t) ≡ s = ap (join c) (sym e) ∙ join-split c s in
    elim (Bool-cases (a =? c)) [
      | inl f ↦ rw (f, e) (ap (◌∷◌ c) ih ∙ ap (λ x. x ∷ s) (sym ((=?_iff a c).0 f)))
      | inr f ↦ rw (f, e) (join_cons c a h t ∙ ap (◌∷◌ a) ih)
    ]

All-drop : (P : Text → Type 0) (k : ℕ) (xs : List Text) → All P xs → All P (drop k xs)
All-drop P zero xs h = h
All-drop P (suc k) [] h = tt
All-drop P (suc k) (x ∷ xs) h = All-drop P k xs h.1

pub length-split-pos : (c : ℕ) (s : Text) → 1 ≤ length (split c s)
length-split-pos c s = let (h, t, e) = split_cons c s in rw e (omega arith)

pub length-le_of_is_label_prefix :
    (ps xs : List Text) → is_label_prefix ps xs ≡ true → length ps ≤ length xs
unfolding is_label_prefix
length-le_of_is_label_prefix [] xs h = omega arith
length-le_of_is_label_prefix (p ∷ ps) [] h = absurd (ground arith)
length-le_of_is_label_prefix (p ∷ ps) (x ∷ xs) h =
    ground (arith, length-le_of_is_label_prefix ps xs)

drop_cons :
    (k : ℕ) (xs : List Text) → k < length xs → (y : Text) × (ys : List Text) × (drop k xs ≡ y ∷ ys)
drop_cons k [] h = absurd (omega arith)
drop_cons zero (x ∷ xs) h = (x, xs, refl)
drop_cons (suc k) (x ∷ xs) h = drop_cons k xs (omega arith)

-- The result of a move, label by label: the new ancestry, then what stood from the moved node down.
pub labels-rewrite_prefix :
    (path old_prefix new_parent : Text)
    → is_within path old_prefix ≡ true
    → (moved : Text) × (rewrite_prefix path old_prefix new_parent ≡ some moved)
      × (labels moved ≡ labels new_parent ++ drop (path_depth old_prefix - 1) (labels path))
unfolding rewrite_prefix
labels-rewrite_prefix path old new h =
    let k : ℕ = path_depth old - 1 in
    let deep : length (labels old) ≤ length (labels path) =
      length-le_of_is_label_prefix (labels old) (labels path)
        (sym (is_within-eq-is_label_prefix path old) ∙ h) in
    let (y, ys, e) =
      drop_cons k (labels path)
        (unfold path_depth in omega (arith, deep, length-split-pos separator old)) in
    let clean : All (HasNo separator) (y ∷ ys) =
      rw e at (All-drop (HasNo separator) k (labels path) (split-HasNo separator path)) in
    (
      join separator (new ∷ y ∷ ys),
      rw (h, e) refl,
      rw e (
          split-append separator new (join separator (y ∷ ys))
          ∙ ap (λ l. labels new ++ l) (split-join separator y ys clean)),
    )
