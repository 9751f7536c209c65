-- ===== src/Scope/Subtree.antt =====
-- A moved subtree keeps its shape: which node lies beneath which, its depths, and its root's label.
use plant_ops.Prelude.{
  ℕ, zero, suc, ◌+◌, ◌-◌, ◌≤◌, Text, eq_iff, eq_refl, true, false, List, [], ◌∷◌, ◌++◌, ◌≡◌, refl,
  sym, ap, ◌∙◌, inl, inr, arith, Bool-cases, length, drop, none, some, length-append, ◌≡⟨◌⟩◌, ◌∎,
}
use plant_ops.Scope.{separator, is_within, path_depth, rewrite_prefix, depth_after_move}
use plant_ops.Scope.Labels.{labels, is_label_prefix, is_within-eq-is_label_prefix}
use plant_ops.Scope.Moves.{length-split-pos, length-le_of_is_label_prefix, labels-rewrite_prefix}

is_label_prefix-append :
    (l a b : List Text) → is_label_prefix (l ++ a) (l ++ b) ≡ is_label_prefix a b
unfolding is_label_prefix
is_label_prefix-append [] a b = refl
is_label_prefix-append (x ∷ l) a b = ground (arith, eq_refl x, is_label_prefix-append l a b)

is_label_prefix_self : (l r : List Text) → is_label_prefix l (l ++ r) ≡ true
unfolding is_label_prefix
is_label_prefix_self [] r = refl
is_label_prefix_self (x ∷ l) r = ground (arith, eq_refl x, is_label_prefix_self l r)

-- Below a common ancestor the labels above it decide nothing.
is_label_prefix-drop :
    (k : ℕ) (o a b : List Text)
    → k ≤ length o
    → is_label_prefix o a ≡ true
    → is_label_prefix o b ≡ true
    → is_label_prefix (drop k a) (drop k b) ≡ is_label_prefix a b
unfolding is_label_prefix
is_label_prefix-drop zero o a b h p q = refl
is_label_prefix-drop (suc k) [] a b h p q = absurd (omega arith)
is_label_prefix-drop (suc k) (x ∷ o) [] b h p q = cc
is_label_prefix-drop (suc k) (x ∷ o) (y ∷ a) [] h p q = cc
is_label_prefix-drop (suc k) (x ∷ o) (y ∷ a) (z ∷ b) h p q =
    ground (arith, is_label_prefix-drop k o a b, eq_iff x y, eq_iff x z, eq_iff y z)

pub is_within_of_rewrite_prefix :
    (path old_prefix new_parent moved : Text)
    → rewrite_prefix path old_prefix new_parent ≡ some moved
    → is_within path old_prefix ≡ true
unfolding rewrite_prefix
is_within_of_rewrite_prefix path old new moved h = elim (Bool-cases (is_within path old)) [
  | inl e ↦ e
  | inr e ↦ absurd (ground arith)
]

labels_of_moved :
    (path old_prefix new_parent moved : Text)
    → rewrite_prefix path old_prefix new_parent ≡ some moved
    → labels moved ≡ labels new_parent ++ drop (path_depth old_prefix - 1) (labels path)
labels_of_moved path old new moved h =
    let (m, e, l) =
      labels-rewrite_prefix path old new (is_within_of_rewrite_prefix path old new moved h) in
    cc

-- A path outside the moved subtree is refused, and only such a path is.
pub rewrite_prefix-none_iff :
    (path old_prefix new_parent : Text)
    → (rewrite_prefix path old_prefix new_parent ≡ none → is_within path old_prefix ≡ false)
      × (is_within path old_prefix ≡ false → rewrite_prefix path old_prefix new_parent ≡ none)
unfolding rewrite_prefix
rewrite_prefix-none_iff path old new = (ground arith, ground arith)

-- A move keeps which node of the subtree lies beneath which, in both directions.
pub is_within-rewrite_prefix :
    (path q old_prefix new_parent moved_path moved_q : Text)
    → rewrite_prefix path old_prefix new_parent ≡ some moved_path
    → rewrite_prefix q old_prefix new_parent ≡ some moved_q
    → is_within moved_path moved_q ≡ is_within path q
is_within-rewrite_prefix path q old new mp mq h g =
    is_within mp mq
    ≡⟨ is_within-eq-is_label_prefix mp mq ⟩ is_label_prefix (labels mq) (labels mp)
    ≡⟨ (rw (labels_of_moved path old new mp h, labels_of_moved q old new mq g)) ⟩
      is_label_prefix (labels new ++ drop k (labels q)) (labels new ++ drop k (labels path))
    ≡⟨ is_label_prefix-append (labels new) (drop k (labels q)) (drop k (labels path)) ⟩
      is_label_prefix (drop k (labels q)) (drop k (labels path))
    ≡⟨ is_label_prefix-drop k (labels old) (labels q) (labels path) small (below q mq g)
        (below path mp h) ⟩
      is_label_prefix (labels q) (labels path)
    ≡⟨ sym (is_within-eq-is_label_prefix path q) ⟩ is_within path q ∎
  where
    k : ℕ
    k = path_depth old - 1

    small : k ≤ length (labels old)
    small = unfold path_depth in omega arith

    below :
        (x m : Text)
        → rewrite_prefix x old new ≡ some m
        → is_label_prefix (labels old) (labels x) ≡ true
    below x m e =
        sym (is_within-eq-is_label_prefix x old) ∙ is_within_of_rewrite_prefix x old new m e

pub length-drop : (k : ℕ) (xs : List Text) → length (drop k xs) ≡ length xs - k
length-drop zero xs = omega arith
length-drop (suc k) [] = omega arith
length-drop (suc k) (x ∷ xs) = omega (arith, length-drop k xs)

-- A moved node lies beneath its new parent, at the depth that the service checks against the bound:
-- the parent's depth plus the levels that the subtree occupies down to the node.
pub path_depth-rewrite_prefix :
    (path old_prefix new_parent moved : Text)
    → rewrite_prefix path old_prefix new_parent ≡ some moved
    → (is_within moved new_parent ≡ true)
      × (path_depth moved
          ≡ depth_after_move (path_depth new_parent) (path_depth path + 1 - path_depth old_prefix))
unfolding path_depth depth_after_move
path_depth-rewrite_prefix path old new moved h =
    let shape = labels_of_moved path old new moved h in
    let inside : is_label_prefix (labels old) (labels path) ≡ true =
      sym (is_within-eq-is_label_prefix path old)
      ∙ is_within_of_rewrite_prefix path old new moved h in
    (
      is_within-eq-is_label_prefix moved new
          ∙ ap (is_label_prefix (labels new)) shape
          ∙ is_label_prefix_self (labels new) _,
      omega (
        arith,
        ap length shape,
        length-append (labels new) (drop (length (labels old) - 1) (labels path)),
        length-drop (length (labels old) - 1) (labels path),
        length-split-pos separator old,
        length-le_of_is_label_prefix (labels old) (labels path) inside,
      ),
    )
