-- ===== src/Scope/Labels.antt =====
-- The labels of a path: coverage by text is the prefix order on lists of labels.
use plant_ops.Prelude.{
  ℕ, Text, ◌==◌, Bool, true, false, ◌&&◌, List, [], ◌∷◌, ◌≡◌, refl, inl, inr, arith, Bool-cases,
  ◌=?◌,
}
use plant_ops.Scope.{separator, starts_with, is_within, split}

abbrev pub labels : Text → List Text
labels path = split separator path

-- The order of the tree: an ancestor's labels begin its descendant's.
unfoldable pub is_label_prefix : List Text → List Text → Bool
is_label_prefix [] xs = true
is_label_prefix (p ∷ ps) [] = false
is_label_prefix (p ∷ ps) (x ∷ xs) = p == x && is_label_prefix ps xs

pub split_cons : (c : ℕ) (s : Text) → (h : Text) × (t : List Text) × (split c s ≡ h ∷ t)
unfolding split
split_cons c [] = ([], [], refl)
split_cons c (a ∷ s) =
    let (h, t, e) = split_cons c s in
    elim (Bool-cases (a =? c)) [ inl f ↦ ([], split c s, rw f) | inr f ↦ (a ∷ h, t, rw (f, e)) ]

is_within_cons : (b a : ℕ) (s p : Text) → is_within (b ∷ s) (a ∷ p) ≡ (b =? a && is_within s p)
unfolding is_within starts_with ◌==◌
is_within_cons b a s p = ground arith

is_label_prefix_cons_head :
    (a b : ℕ) (h k : Text) (t u : List Text)
    → is_label_prefix ((a ∷ h) ∷ t) ((b ∷ k) ∷ u) ≡ (b =? a && is_label_prefix (h ∷ t) (k ∷ u))
unfolding is_label_prefix ◌==◌
is_label_prefix_cons_head a b h k t u = ground arith

module _ (p s : List Text) where
  both_start_empty : is_label_prefix ([] ∷ p) ([] ∷ s) ≡ is_label_prefix p s
  unfolding is_label_prefix ◌==◌
  both_start_empty = refl

  nonempty_before_empty : (a : ℕ) (h : Text) → is_label_prefix ((a ∷ h) ∷ p) ([] ∷ s) ≡ false
  unfolding is_label_prefix ◌==◌
  nonempty_before_empty a h = refl

  empty_before_nonempty : (b : ℕ) (k : Text) → is_label_prefix ([] ∷ p) ((b ∷ k) ∷ s) ≡ false
  unfolding is_label_prefix ◌==◌
  empty_before_nonempty b k = refl

is_within_nil : (b : ℕ) (s : Text) → is_within (b ∷ s) [] ≡ (b =? separator)
unfolding is_within starts_with ◌==◌
is_within_nil b s = ground arith

nil_is_within : (a : ℕ) (p : Text) → is_within [] (a ∷ p) ≡ false
unfolding is_within starts_with ◌==◌
nil_is_within a p = refl

-- A path is within a prefix exactly when its labels begin with the prefix's labels.
pub is_within-eq-is_label_prefix :
    (path prefix : Text) → is_within path prefix ≡ is_label_prefix (labels prefix) (labels path)
unfolding split
is_within-eq-is_label_prefix [] [] = unfold is_within starts_with is_label_prefix ◌==◌ in refl
is_within-eq-is_label_prefix (b ∷ s) [] =
    let (h, t, e) = split_cons separator s in
    rw (is_within_nil b s) (unfold is_label_prefix ◌==◌ in ground (arith, e))
is_within-eq-is_label_prefix [] (a ∷ p) =
    let (h, t, e) = split_cons separator p in
    rw (nil_is_within a p) (unfold is_label_prefix ◌==◌ in ground (arith, e))
is_within-eq-is_label_prefix (b ∷ s) (a ∷ p) =
    let (h, t, e) = split_cons separator p in
    let (k, u, f) = split_cons separator s in
    rw (is_within_cons b a s p) (
      ground (
        arith,
        e,
        f,
        is_within-eq-is_label_prefix s p,
        is_label_prefix_cons_head a b h k t u,
        both_start_empty (labels p) (labels s),
        nonempty_before_empty t (labels s) a h,
        empty_before_nonempty (labels p) u b k,
      ))
