-- ===== src/Navigation/Menu.antt =====
-- What the menu shows.
use mathlib.Core.List.{Memᴰ}
use plant_ops.Prelude.{
  ℕ, zero, suc, Text, true, ◌≡◌, inl, inr, arith, List, none, some, length, includes, IsDistinct,
  any_of_includes, any-member,
}
use plant_ops.Navigation.{
  NavCatalogNode, NavCatalog, NavTree, Forest, to_dto, gates_of, visible_among, prune_nav_tree,
}
use plant_ops.Navigation.Visible.{
  IsVisible, by_gate, by_opt_in, by_child, Reaches, root, child, Within, at_top,
}
use plant_ops.Navigation.Walk.{Child, Expanded, has_children-of_Child}
use plant_ops.Navigation.Exact.{Listed, Within-Listed, Placed, visible-Placed, Within-below}
use plant_ops.Navigation.Depth.{ids, prune_nav_tree-total}

module _ (catalog : NavCatalog) (held : List Text) where
  -- Every entry of the menu, at any depth, is the record of a catalog node that a root reaches and
  -- that the subject may see.
  pub Within-prune_nav_tree :
      (menu : Forest) (t : NavTree)
      → prune_nav_tree catalog held ≡ some menu
      → Within t menu
      → Listed catalog held t
  unfolding prune_nav_tree
  Within-prune_nav_tree menu t e w =
      Within-Listed catalog held (suc (length catalog.nodes)) none menu t
        (λ n c. unfold Child in (root c.0 c.1)) e w

  -- An entry for the node, with what the walk knows of its children.
  Shown : Forest → NavCatalogNode → Type 0
  Shown menu n =
      (children : Forest) × (fuel : ℕ) × Within (to_dto n children) menu
      × Expanded catalog held fuel n children

  Shown-below :
      (menu siblings : Forest) (p n : NavCatalogNode) (fuel : ℕ)
      → Within (to_dto p siblings) menu
      → Child catalog held (some p.id) n
      → IsVisible catalog held n
      → Expanded catalog held fuel p siblings
      → Shown menu n
  unfolding visible_among Shown Placed Expanded
  Shown-below menu siblings p n fuel w c v (inl (leaf, none_below)) =
      absurd (ground (arith, has_children-of_Child catalog held p.id n c))
  Shown-below menu siblings p n zero w c v (inr (has, ek)) = absurd (ground arith)
  Shown-below menu siblings p n (suc fuel) w c v (inr (has, ek)) =
      let (children, top, x) = visible-Placed catalog held fuel (some p.id) siblings n ek c v in
      (children, fuel, Within-below p siblings menu _ w (at_top top), x)

  Shown-of_Reaches :
      (menu : Forest) {n : NavCatalogNode}
      → prune_nav_tree catalog held ≡ some menu
      → Reaches catalog held n
      → IsVisible catalog held n
      → Shown menu n
  unfolding prune_nav_tree
  Shown-of_Reaches menu {n} e (root l p) v =
      unfold Shown Placed Child in
      (let (children, top, x) =
          visible-Placed catalog held (length catalog.nodes) none menu n e (l, p) v in
        (children, length catalog.nodes, at_top top, x))
  Shown-of_Reaches menu {n} e (child p r l q) v =
      below_parent p l q (Shown-of_Reaches menu e r (by_child n l q v))
    where
      below_parent :
          (p : NavCatalogNode)
          → Memᴰ n catalog.nodes
          → n.parent_id ≡ some p.id
          → Shown menu p
          → Shown menu n
      below_parent p l q shown =
          unfold Shown Child in
          (let (siblings, fuel, w, x) = shown in Shown-below menu siblings p n fuel w (l, q) v x)

  -- In a catalog whose node ids are distinct, every node that a root reaches and that the subject
  -- may see has an entry in the menu.
  pub Reaches-prune_nav_tree :
      (n : NavCatalogNode)
      → IsDistinct (ids catalog.nodes)
      → Reaches catalog held n
      → IsVisible catalog held n
      → (menu : Forest) × (prune_nav_tree catalog held ≡ some menu)
        × ((children : Forest) × Within (to_dto n children) menu)
  Reaches-prune_nav_tree n unique r v =
      let (menu, e) = prune_nav_tree-total catalog held unique in
      unfold Shown in
      (let (children, fuel, w, x) = Shown-of_Reaches menu e r v in (menu, e, (children, w)))

-- Holding more permissions hides nothing.
IsVisible-mono :
    (catalog : NavCatalog) (held more : List Text) {n : NavCatalogNode}
    → ((k : Text) → includes held k ≡ true → includes more k ≡ true)
    → IsVisible catalog held n
    → IsVisible catalog more n
IsVisible-mono catalog held more {n} sub (by_gate leaf opened) =
    let (k, listed, has) = any-member (λ p. includes held p) (gates_of catalog.gates n.id) opened in
    by_gate leaf
      (any_of_includes (λ p. includes more p) (gates_of catalog.gates n.id) k listed (sub k has))
IsVisible-mono catalog held more sub (by_opt_in leaf ungated opted) = by_opt_in leaf ungated opted
IsVisible-mono catalog held more sub (by_child c l q v) =
    by_child c l q (IsVisible-mono catalog held more sub v)

Reaches-any :
    (catalog : NavCatalog) (held more : List Text) {n : NavCatalogNode}
    → Reaches catalog held n
    → Reaches catalog more n
Reaches-any catalog held more (root l p) = root l p
Reaches-any catalog held more (child p r l q) = child p (Reaches-any catalog held more r) l q

-- A subject who holds all that another one holds sees an entry for every node that the other sees.
pub prune_nav_tree_mono :
    (catalog : NavCatalog) (held more : List Text) (menu : Forest) (t : NavTree)
    → IsDistinct (ids catalog.nodes)
    → ((k : Text) → includes held k ≡ true → includes more k ≡ true)
    → prune_nav_tree catalog held ≡ some menu
    → Within t menu
    → (n : NavCatalogNode) × (children : Forest) × (t ≡ to_dto n children)
      × ((larger : Forest) × (prune_nav_tree catalog more ≡ some larger)
          × ((others : Forest) × Within (to_dto n others) larger))
prune_nav_tree_mono catalog held more menu t unique sub e w =
    let (n, children, q, r, v) = Within-prune_nav_tree catalog held menu t e w in
    (
      n,
      children,
      q,
      Reaches-prune_nav_tree catalog more n unique (Reaches-any catalog held more r)
          (IsVisible-mono catalog held more sub v),
    )
