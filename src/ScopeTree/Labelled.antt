-- ===== src/ScopeTree/Labelled.antt =====
-- Paths of the tree by their labels: a child's path, and the path of a moved node.
use mathlib.Core.List.{append_assoc}
use plant_ops.Prelude.{
  ℕ, zero, suc, ◌-◌, ◌≤◌, Text, eq_iff, true, List, [], ◌∷◌, ◌++◌, Option, none, some, ◌≡◌, refl,
  sym, ap, ◌∙◌, ◌⊎◌, inl, inr, arith, length, drop, length-append,
}
use plant_ops.Scope.{
  separator, is_within, join, scope_path_label, root_path, child_path, path_depth, rewrite_prefix,
}
use plant_ops.Scope.Labels.{labels, is_label_prefix, is_within-eq-is_label_prefix}
use plant_ops.Scope.Within.{is_within_of_Beneath, is_within_trans, Beneath}
use plant_ops.Scope.Moves.{
  HasNo, split-append, split_of_HasNo, join-split, labels-rewrite_prefix, length-split-pos,
  length-le_of_is_label_prefix,
}
use plant_ops.ScopeTree.{moved_path}

pub labels-child_path :
    (p id : Text)
    → HasNo separator (scope_path_label id)
    → labels (child_path p id) ≡ labels p ++ scope_path_label id ∷ []
unfolding child_path
labels-child_path p id h =
    split-append separator p (scope_path_label id)
    ∙ ap (λ l. labels p ++ l) (split_of_HasNo separator (scope_path_label id) h)

pub labels-root_path :
    (id : Text)
    → HasNo separator (scope_path_label id)
    → labels (root_path id) ≡ scope_path_label id ∷ []
unfolding root_path
labels-root_path id h = split_of_HasNo separator (scope_path_label id) h

pub labels_inj : (s t : Text) → labels s ≡ labels t → s ≡ t
labels_inj s t e = sym (join-split separator s) ∙ ap (join separator) e ∙ join-split separator t

last : List Text → Option Text
last [] = none
last (x ∷ []) = some x
last (x ∷ y ∷ xs) = last (y ∷ xs)

last_snoc : (xs : List Text) (a : Text) → last (xs ++ a ∷ []) ≡ some a
unfolding last
last_snoc [] a = refl
last_snoc (x ∷ []) a = refl
last_snoc (x ∷ y ∷ xs) a = last_snoc (y ∷ xs) a

pub snoc_last : (xs ys : List Text) (a b : Text) → xs ++ a ∷ [] ≡ ys ++ b ∷ [] → a ≡ b
snoc_last xs ys a b e =
    let k : some a ≡ some b = sym (last_snoc xs a) ∙ ap last e ∙ last_snoc ys b in ground (arith, k)

is_label_prefix-snoc :
    (xs ys : List Text) (l : Text)
    → is_label_prefix xs (ys ++ l ∷ []) ≡ true
    → (is_label_prefix xs ys ≡ true) ⊎ (xs ≡ ys ++ l ∷ [])
unfolding is_label_prefix
is_label_prefix-snoc [] ys l h = inl refl
is_label_prefix-snoc (x ∷ []) [] l h = inr (ap (λ t. t ∷ []) (ground (arith, eq_iff x l)))
is_label_prefix-snoc (x ∷ x' ∷ xs) [] l h = absurd (ground (arith, h))
is_label_prefix-snoc (x ∷ xs) (y ∷ ys) l h =
    elim (is_label_prefix-snoc xs ys l (ground (arith, h))) [
      | inl e ↦ inl (ground (arith, h, e))
      | inr e ↦ inr (ground (arith, h, e, eq_iff x y))
    ]

-- What lies at or above a child lies at or above its parent, or is the child.
pub within_child :
    (p id old : Text)
    → HasNo separator (scope_path_label id)
    → is_within (child_path p id) old ≡ true
    → (is_within p old ≡ true) ⊎ (old ≡ child_path p id)
within_child p id old h w =
    let k : is_label_prefix (labels old) (labels p ++ scope_path_label id ∷ []) ≡ true =
      ap (is_label_prefix (labels old)) (sym (labels-child_path p id h))
      ∙ sym (is_within-eq-is_label_prefix (child_path p id) old)
      ∙ w in
    elim (is_label_prefix-snoc (labels old) (labels p) (scope_path_label id) k) [
      | inl e ↦ inl (is_within-eq-is_label_prefix p old ∙ e)
      | inr e ↦ inr (labels_inj old (child_path p id) (e ∙ sym (labels-child_path p id h)))
    ]

pub child_within : (p id : Text) → is_within (child_path p id) p ≡ true
unfolding child_path Beneath
child_within p id = is_within_of_Beneath (child_path p id) p (inr (scope_path_label id, refl))

-- At or above a root there is only the root.
pub within_root :
    (id old : Text)
    → HasNo separator (scope_path_label id)
    → is_within (root_path id) old ≡ true
    → old ≡ root_path id
unfolding is_label_prefix
within_root id old h w =
    let k : is_label_prefix (labels old) ([] ++ scope_path_label id ∷ []) ≡ true =
      ap (is_label_prefix (labels old)) (sym (labels-root_path id h))
      ∙ sym (is_within-eq-is_label_prefix (root_path id) old)
      ∙ w in
    elim (is_label_prefix-snoc (labels old) [] (scope_path_label id) k) [
      | inl e ↦ absurd (
          omega
            (arith, length-le_of_is_label_prefix (labels old) [] e, length-split-pos separator old))
      | inr e ↦ labels_inj old (root_path id) (e ∙ sym (labels-root_path id h))
    ]

drop_snoc :
    (k : ℕ) (xs : List Text) (l : Text)
    → k ≤ length xs
    → drop k (xs ++ l ∷ []) ≡ drop k xs ++ l ∷ []
drop_snoc zero xs l h = refl
drop_snoc (suc k) [] l h = absurd (omega arith)
drop_snoc (suc k) (x ∷ xs) l h = drop_snoc k xs l (omega arith)

drop_all : (xs : List Text) → drop (length xs) xs ≡ []
drop_all [] = refl
drop_all (x ∷ xs) = drop_all xs

pub labels-moved_path :
    (old new path : Text)
    → is_within path old ≡ true
    → labels (moved_path old new path) ≡ labels new ++ drop (path_depth old - 1) (labels path)
unfolding moved_path rewrite_prefix
labels-moved_path old new path w =
    let (m, e, l) = labels-rewrite_prefix path old new w in
    let k : some (moved_path old new path) ≡ some m = rw w at e in
    let same : moved_path old new path ≡ m = ground (arith, k) in rw same l

-- A move takes a child of a node of the subtree to the child of where the node went.
pub moved_path-child_path :
    (old new p id : Text)
    → HasNo separator (scope_path_label id)
    → is_within p old ≡ true
    → moved_path old new (child_path p id) ≡ child_path (moved_path old new p) id
unfolding path_depth
moved_path-child_path old new p id h w =
    let l = scope_path_label id in
    let k : ℕ = path_depth old - 1 in
    let small : k ≤ length (labels p) =
      unfold path_depth in
      omega (
        arith,
        length-le_of_is_label_prefix (labels old) (labels p)
            (sym (is_within-eq-is_label_prefix p old) ∙ w),
      ) in
    labels_inj (moved_path old new (child_path p id)) (child_path (moved_path old new p) id) (
      labels-moved_path old new (child_path p id)
        (is_within_trans (child_path p id) p old (child_within p id) w)
      ∙ ap (λ x. labels new ++ drop k x) (labels-child_path p id h)
      ∙ ap (λ x. labels new ++ x) (drop_snoc k (labels p) l small)
      ∙ sym (append_assoc (labels new) (drop k (labels p)) (l ∷ []))
      ∙ ap (λ x. x ++ l ∷ []) (sym (labels-moved_path old new p w))
      ∙ sym (labels-child_path (moved_path old new p) id h))

-- The moved node becomes a child of its new parent.
pub moved_path_self :
    (old new id : Text) (before : List Text)
    → HasNo separator (scope_path_label id)
    → labels old ≡ before ++ scope_path_label id ∷ []
    → is_within old old ≡ true
    → moved_path old new old ≡ child_path new id
unfolding path_depth
moved_path_self old new id before h e w =
    let l = scope_path_label id in
    let k : path_depth old - 1 ≡ length before =
      unfold path_depth in omega (arith, ap length e, length-append before (l ∷ [])) in
    labels_inj (moved_path old new old) (child_path new id) (
      labels-moved_path old new old w
      ∙ ap (λ n. labels new ++ drop n (labels old)) k
      ∙ ap (λ x. labels new ++ drop (length before) x) e
      ∙ ap (λ x. labels new ++ x) (drop_snoc (length before) before l (omega arith))
      ∙ ap (λ x. labels new ++ (x ++ l ∷ [])) (drop_all before)
      ∙ sym (labels-child_path new id h))
