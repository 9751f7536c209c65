-- ===== src/Navigation/Tests.antt =====
-- The menu of a small catalog.
use mathlib.Core.List.{Memᴰ}
use plant_ops.Prelude.{
  Text, codes, ◌==◌, Bool, true, false, ◌≡◌, refl, [], ◌∷◌, Option, none, some, includes,
  IsDistinct,
}
use plant_ops.Navigation.{
  NavCatalogNode, NavCatalog, Forest, nil, cons, to_dto, menu, prune_nav_tree, has_children,
  gates_of,
}
use plant_ops.Navigation.Visible.{IsVisible, by_gate, root, child, Within, at_top, below, here}
use plant_ops.Navigation.Exact.{Listed}
use plant_ops.Navigation.Menu.{Within-prune_nav_tree, Reaches-prune_nav_tree}
use plant_ops.Navigation.Depth.{ids, prune_nav_tree-total}

abbrev node : Text → Option Text → Bool → NavCatalogNode
node id parent is_public = record {
  id = id;
  parent_id = parent;
  kind = menu;
  key = id;
  label = id;
  route = none;
  icon = none;
  is_public = is_public;
}

abbrev top_node : NavCatalogNode
top_node = node (codes "m") none false

abbrev gated : NavCatalogNode
gated = node (codes "g") (some (codes "m")) true

abbrev orphan : NavCatalogNode
orphan = node (codes "o") (some (codes "z")) true

-- `m` holds the gated leaf `g`; the parent of `o` is retired.
abbrev catalog : NavCatalog
catalog = record {
  nodes = top_node ∷ gated ∷ orphan ∷ [];
  gates = (codes "g", codes "dc.create" ∷ []) ∷ [];
}

abbrev shown : Forest
shown = cons (to_dto top_node (cons (to_dto gated nil) nil)) nil

held_menu : prune_nav_tree catalog (codes "dc.create" ∷ []) ≡ some shown
unfolding prune_nav_tree includes ◌==◌
held_menu = refl

-- A leaf that is mapped and not held stays hidden though it is public, and empties its container.
empty_menu : prune_nav_tree catalog [] ≡ some nil
unfolding prune_nav_tree includes ◌==◌
empty_menu = refl

unique : IsDistinct (ids catalog.nodes)
unfolding includes ◌==◌
unique = (refl, (refl, (refl, tt)))

prune_nav_tree-total_example :
    (ts : Forest) × (prune_nav_tree catalog (codes "dc.create" ∷ []) ≡ some ts)
prune_nav_tree-total_example = prune_nav_tree-total catalog (codes "dc.create" ∷ []) unique

Within-prune_nav_tree_example : Listed catalog (codes "dc.create" ∷ []) (to_dto gated nil)
Within-prune_nav_tree_example =
    Within-prune_nav_tree catalog (codes "dc.create" ∷ []) shown (to_dto gated nil) held_menu
      (below top_node (cons (to_dto gated nil) nil) here (at_top here))

gated-IsVisible : IsVisible catalog (codes "dc.create" ∷ []) gated
unfolding has_children gates_of includes ◌==◌
gated-IsVisible = by_gate refl refl

Reaches-prune_nav_tree_example :
    (menu : Forest) × (prune_nav_tree catalog (codes "dc.create" ∷ []) ≡ some menu)
    × ((children : Forest) × Within (to_dto gated children) menu)
Reaches-prune_nav_tree_example =
    Reaches-prune_nav_tree catalog (codes "dc.create" ∷ []) gated unique
      (child top_node (root (Memᴰ.head refl) refl) (Memᴰ.tail (Memᴰ.head refl)) refl)
      gated-IsVisible
