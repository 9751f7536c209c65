-- ===== src/Navigation/Visible.antt =====
-- Which nodes a subject may see, stated over the catalog and with no walk in it.
use mathlib.Core.List.{Memᴰ}
use plant_ops.Prelude.{Text, Bool, true, false, ◌≡◌, List, none, some, any, is_empty, includes}
use plant_ops.Navigation.{
  NavCatalogNode, NavCatalog, NavTree, Forest, cons, to_dto, has_children, gates_of,
}

module _ (catalog : NavCatalog) (held : List Text) where
  abbrev pub is_gated_open : NavCatalogNode → Bool
  is_gated_open n = any (λ permission. includes held permission) (gates_of catalog.gates n.id)

  -- A leaf by a held gate, or as public where it has no gate; a container by a visible child.
  pub data IsVisible : NavCatalogNode → Type 0 where
    by_gate :
        {n : NavCatalogNode}
        → has_children catalog.nodes n.id ≡ false
        → is_gated_open n ≡ true
        → IsVisible n
    by_opt_in :
        {n : NavCatalogNode}
        → has_children catalog.nodes n.id ≡ false
        → is_empty (gates_of catalog.gates n.id) ≡ true
        → n.is_public ≡ true
        → IsVisible n
    by_child :
        {n : NavCatalogNode} (c : NavCatalogNode)
        → Memᴰ c catalog.nodes
        → c.parent_id ≡ some n.id
        → IsVisible c
        → IsVisible n

  -- A node whose ancestors are all in the catalog, up to a root.
  pub data Reaches : NavCatalogNode → Type 0 where
    root : {n : NavCatalogNode} → Memᴰ n catalog.nodes → n.parent_id ≡ none → Reaches n
    child :
        {n : NavCatalogNode} (p : NavCatalogNode)
        → Reaches p
        → Memᴰ n catalog.nodes
        → n.parent_id ≡ some p.id
        → Reaches n

pub data Top (t : NavTree) : Forest → Type 0 where
  here : {ts : Forest} → Top t (cons t ts)
  later : {u : NavTree} {ts : Forest} → Top t ts → Top t (cons u ts)

-- A tree stands somewhere in a forest.
pub data Within (t : NavTree) : Forest → Type 0 where
  at_top : {ts : Forest} → Top t ts → Within t ts
  below :
      {ts : Forest} (n : NavCatalogNode) (children : Forest)
      → Top (to_dto n children) ts
      → Within t children
      → Within t ts
