-- ===== src/Navigation/Exact.antt =====
-- The pruned menu holds exactly the visible nodes that a root reaches.
use mathlib.Core.List.{Memᴰ}
use plant_ops.Prelude.{
  ℕ, zero, suc, Text, true, false, ◌≡◌, refl, sym, ap, ◌∙◌, ◌⊎◌, inl, inr, arith, List, Option,
  some, is_empty,
}
use plant_ops.Navigation.{
  NavCatalogNode, NavCatalog, NavTree, Forest, nil, cons, to_dto, container, has_children, gates_of,
  visible_leaf, visible_node, visible_all, visible_among,
}
use plant_ops.Navigation.Visible.{
  IsVisible, by_gate, by_opt_in, by_child, Reaches, child, Top, here, later, Within, at_top, below,
  is_gated_open,
}
use plant_ops.Navigation.Walk.{
  Child, Expanded, Kept, mem_of_child, has_children-of_Child, visible_all-node, visible_among-Top,
  bind-eq-some,
}

pub Top-ne-nil : (t : NavTree) (ts : Forest) → Top t ts → ts ≡ nil → ⊥
Top-ne-nil t ts here e = cc
Top-ne-nil t ts (later h) e = cc

Within-ne-nil : (t : NavTree) (ts : Forest) → Within t ts → ts ≡ nil → ⊥
Within-ne-nil t ts (at_top h) e = Top-ne-nil t ts h e
Within-ne-nil t ts (below n children h w) e = Top-ne-nil _ ts h e

-- What stands below a tree of the forest stands in the forest.
pub Within-below :
    (n : NavCatalogNode) (children ts : Forest) (t : NavTree)
    → Within (to_dto n children) ts
    → Within t children
    → Within t ts
Within-below n children ts t (at_top h) w = below n children h w
Within-below n children ts t (below m us h v) w = below m us h (Within-below n children us t v w)

module _ (catalog : NavCatalog) (held : List Text) where
  -- A tree of the menu: the record of a catalog node that a root reaches and the subject may see.
  abbrev pub Listed : NavTree → Type 0
  Listed t =
      (n : NavCatalogNode) × (children : Forest) × (t ≡ to_dto n children)
      × Reaches catalog held n
      × IsVisible catalog held n

  pub Within-Listed :
      (fuel : ℕ) (parent : Option Text) (ts : Forest) (t : NavTree)
      → ((n : NavCatalogNode) → Child catalog held parent n → Reaches catalog held n)
      → visible_among catalog held fuel parent ≡ some ts
      → Within t ts
      → Listed t
  unfolding visible_among Kept Expanded Child
  Within-Listed zero parent ts t reach e w = absurd (ground arith)
  Within-Listed (suc fuel) parent ts t reach e (at_top h) =
      let (n, children, q, c, x, v) = visible_among-Top catalog held fuel parent ts t e h in
      (n, children, q, reach n c, v)
  Within-Listed (suc fuel) parent ts t reach e (below n children h w) =
      let (n', children', q, c, x, v) =
        visible_among-Top catalog held fuel parent ts (to_dto n children) e h in
      let same : children ≡ children' = cc in
      elim x [
        | inl (leaf, empty) ↦ absurd (Within-ne-nil t children w (same ∙ empty))
        | inr (has, ek) ↦
            Within-Listed fuel (some n'.id) children t (λ m (l, p). child n' (reach n' c) l p)
              (ek ∙ ap some (sym same)) w
      ]

  unfoldable pub Placed : ℕ → NavCatalogNode → Forest → Type 0
  Placed fuel n ts =
      (children : Forest) × Top (to_dto n children) ts × Expanded catalog held fuel n children

  leaf-visible :
      (n : NavCatalogNode)
      → (is_gated_open catalog held n ≡ true)
        ⊎ ((is_empty (gates_of catalog.gates n.id) ≡ true) × (n.is_public ≡ true))
      → visible_leaf catalog held n ≡ some (to_dto n nil)
  unfolding visible_leaf
  leaf-visible n (inl h) = ground arith
  leaf-visible n (inr (h, k)) = ground arith

  module _ (fuel : ℕ) (ns : List NavCatalogNode) (ts : Forest) (n : NavCatalogNode)
      (among : Text → Option Forest)
      (among_lem : (id : Text) → among id ≡ visible_among catalog held fuel (some id))
      (e : visible_all catalog held among ns ≡ some ts) (m : Memᴰ n ns) where
    leaf-Placed :
        has_children catalog.nodes n.id ≡ false
        → visible_leaf catalog held n ≡ some (to_dto n nil)
        → Placed fuel n ts
    unfolding visible_node Placed Expanded
    leaf-Placed leaf shown =
        let (kept, ek, tops) = visible_all-node catalog held among ns ts n e m in
        (nil, tops (to_dto n nil) (ground (arith, leaf, shown)), inl (leaf, refl))

    container-Placed :
        has_children catalog.nodes n.id ≡ true
        → ((us : Forest) → visible_among catalog held fuel (some n.id) ≡ some us → us ≡ nil → ⊥)
        → Placed fuel n ts
    unfolding visible_node Placed Expanded
    container-Placed has inhabited =
        let (kept, ek, tops) = visible_all-node catalog held among ns ts n e m in
        let (us, eu, made) =
          bind-eq-some (among n.id) (λ us. some (container n us)) {b = kept} (rw has at ek) in
        let found : visible_among catalog held fuel (some n.id) ≡ some us =
          sym (among_lem n.id) ∙ eu in
        (us, tops (to_dto n us) (shape us kept (inhabited us found) made), inr (has, found))
      where
        shape :
            (us : Forest) (kept : Option NavTree)
            → (us ≡ nil → ⊥)
            → some (container n us) ≡ some kept
            → kept ≡ some (to_dto n us)
        shape nil kept no_nil q = absurd (no_nil refl)
        shape (cons u us) kept no_nil q = cc

  -- Every visible child of the parent is kept.
  pub visible-Placed :
      (fuel : ℕ) (parent : Option Text) (ts : Forest) (n : NavCatalogNode)
      → visible_among catalog held (suc fuel) parent ≡ some ts
      → Child catalog held parent n
      → IsVisible catalog held n
      → Placed fuel n ts
  unfolding visible_among
  visible-Placed fuel parent ts n e c (by_gate leaf opened) =
      leaf-Placed fuel _ ts n _ (λ id. refl) e (mem_of_child catalog held parent n c) leaf
        (leaf-visible n (inl opened))
  visible-Placed fuel parent ts n e c (by_opt_in leaf ungated opted) =
      leaf-Placed fuel _ ts n _ (λ id. refl) e (mem_of_child catalog held parent n c) leaf
        (leaf-visible n (inr (ungated, opted)))
  visible-Placed zero parent ts n e c (by_child k l p v) =
      container-Placed zero _ ts n _ (λ id. refl) e (mem_of_child catalog held parent n c)
        (has_children-of_Child catalog held n.id k (unfold Child in (l, p)))
        (λ us none_left q. ground arith)
  visible-Placed (suc fuel) parent ts n e c (by_child k l p v) =
      let kc : Child catalog held (some n.id) k = unfold Child in (l, p) in
      container-Placed (suc fuel) _ ts n _ (λ id. refl) e (mem_of_child catalog held parent n c)
        (has_children-of_Child catalog held n.id k kc)
        (λ us eu q. placed-ne-nil us k (visible-Placed fuel (some n.id) us k eu kc v) q)
    where
      placed-ne-nil : (us : Forest) (k : NavCatalogNode) → Placed fuel k us → us ≡ nil → ⊥
      placed-ne-nil us k pl q = unfold Placed in (let (x, top, y) = pl in Top-ne-nil _ us top q)
