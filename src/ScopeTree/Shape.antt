-- ===== src/ScopeTree/Shape.antt =====
-- What it means for the rows of scope_node to be trees, one for each client.
use mathlib.Core.List.{Memᴰ}
use plant_ops.Prelude.{◌≤◌, Text, List, Option, none, some, ◌≡◌}
use plant_ops.Scope.{
  separator, scope_path_label, root_path, child_path, path_depth, max_scope_tree_depth,
}
use plant_ops.Scope.Moves.{HasNo}
use plant_ops.ScopeTree.{ScopeNodeRow}

-- The path of a row, by what its parent column says.
abbrev pub IsPlaced : List ScopeNodeRow → ScopeNodeRow → Option Text → Type 0
IsPlaced nodes r none = r.path ≡ root_path r.id
IsPlaced nodes r (some parent_id) =
    (q : ScopeNodeRow) × Memᴰ q nodes
    × (q.id ≡ parent_id)
    × (q.client_id ≡ r.client_id)
    × (r.path ≡ child_path q.path r.id)

-- Every row stands under its parent's row, in the same client, and within the depth bound; ids, and
-- the labels made from them, are distinct, labels have no separator, and a client has one root.
pub record IsTree (nodes : List ScopeNodeRow) : Type 0 where
  pub placed : (r : ScopeNodeRow) → Memᴰ r nodes → IsPlaced nodes r r.parent_id
  pub shallow : (r : ScopeNodeRow) → Memᴰ r nodes → path_depth r.path ≤ max_scope_tree_depth
  pub clean : (r : ScopeNodeRow) → Memᴰ r nodes → HasNo separator (scope_path_label r.id)
  pub labelled :
      (r q : ScopeNodeRow)
      → Memᴰ r nodes
      → Memᴰ q nodes
      → scope_path_label r.id ≡ scope_path_label q.id
      → r ≡ q
  pub one_root :
      (r q : ScopeNodeRow)
      → Memᴰ r nodes
      → Memᴰ q nodes
      → r.client_id ≡ q.client_id
      → r.parent_id ≡ none
      → q.parent_id ≡ none
      → r ≡ q
