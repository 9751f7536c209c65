-- ===== src/Navigation.antt =====
-- The dynamic menu: `pruneNavTree` of apps/iam-api/src/navigation/prune.ts. The walk recurs on fuel,
-- `none` when it runs out; `prune_nav_tree` gives one round for each node and one more.
pub mod Visible
pub mod Walk
pub mod Exact
pub mod Menu
pub mod Depth
mod Tests
use plant_ops.Prelude.{
  ℕ, zero, suc, Text, ◌==◌, Bool, true, false, ◌&&◌, List, [], ◌∷◌, Option, none, some, filter, any,
  is_empty, not, includes, length, if◌then◌else◌, or_default, ◌>>=◌, same_option,
}

pub data NavNodeKind : Type 0 where
  module_node menu sub_menu : NavNodeKind

pub record NavCatalogNode : Type 0 where
  pub id : Text
  pub parent_id : Option Text
  pub kind : NavNodeKind
  pub key : Text
  pub label : Text
  pub route : Option Text
  pub icon : Option Text
  pub is_public : Bool

-- `gates` is a record from node ids to permission keys.
pub record NavCatalog : Type 0 where
  pub nodes : List NavCatalogNode
  pub gates : List (Text × List Text)

-- `NavNodeDTO`, whose children are a list of the same.
mutual
  pub data NavTree : Type 0 where
    dto :
        (id : Text)
        → NavNodeKind
        → (key label : Text) → (route icon : Option Text) → Forest
        → NavTree

  pub data Forest : Type 0 where
    nil : Forest
    cons : NavTree → Forest → Forest

abbrev pub is_nil : Forest → Bool
is_nil nil = true
is_nil (cons t ts) = false

-- `children.get(parentId) ?? []`, in catalog order; the index holds an entry for a parent that some
-- node names, and for no other.
unfoldable pub children_of : List NavCatalogNode → Option Text → List NavCatalogNode
children_of nodes parent = filter (λ n. same_option n.parent_id parent) nodes

unfoldable pub has_children : List NavCatalogNode → Text → Bool
has_children nodes id = any (λ n. same_option n.parent_id (some id)) nodes

-- `gates[node.id] ?? []`
unfoldable pub gates_of : List (Text × List Text) → Text → List Text
gates_of [] id = []
gates_of ((j, required) ∷ gates) id = if j == id then required else gates_of gates id

abbrev pub to_dto : NavCatalogNode → Forest → NavTree
to_dto n children = dto n.id n.kind n.key n.label n.route n.icon children

-- The end of `visibleNode`, for a node without children.
unfoldable pub visible_leaf : NavCatalog → List Text → NavCatalogNode → Option NavTree
unfolding gates_of
visible_leaf catalog held n =
    let required = gates_of catalog.gates n.id in
    if any (λ permission. includes held permission) required
    then some (to_dto n nil)
    else if is_empty required && n.is_public
    then some (to_dto n nil)
    else none

-- `PRUNE` for a container with no visible child.
abbrev pub container : NavCatalogNode → Forest → Option NavTree
container n children = if is_nil children then none else some (to_dto n children)

abbrev pub push : Option NavTree → Forest → Forest
push none ts = ts
push (some t) ts = cons t ts

module _ (catalog : NavCatalog) (held : List Text) where
  -- `visibleNode`, given `visibleAmong` for the children.
  unfoldable pub visible_node : (Text → Option Forest) → NavCatalogNode → Option (Option NavTree)
  unfolding visible_leaf has_children
  visible_node among n =
      let children = among n.id in
      if has_children catalog.nodes n.id
      then children >>= (λ ts. some (container n ts))
      else some (visible_leaf catalog held n)

  -- The loop of `visibleAmong`.
  unfoldable pub visible_all : (Text → Option Forest) → List NavCatalogNode → Option Forest
  unfolding visible_node
  visible_all among [] = some nil
  visible_all among (n ∷ ns) =
      visible_node among n >>= λ kept. visible_all among ns >>= λ rest. some (push kept rest)

  unfoldable pub visible_among : ℕ → Option Text → Option Forest
  unfolding visible_all children_of
  visible_among zero parent = none
  visible_among (suc fuel) parent =
      visible_all (λ id. visible_among fuel (some id)) (children_of catalog.nodes parent)

  unfoldable pub prune_nav_tree : Option Forest
  unfolding visible_among
  prune_nav_tree = visible_among (suc (length catalog.nodes)) none
