-- ===== src/ScopeTree.antt =====
-- The scope tree service of apps/iam-api/src/scopes/scopes.service.ts: create, update (a rename, a
-- move) and remove, over the rows of the tables. A conflict is thrown, and the transaction leaves
-- the tables as they were. Timestamps, and the metadata that no rule reads, are left out.
pub mod Rows
pub mod Shape
mod Labelled
mod Moved
pub mod Inserted
pub mod Kept
pub mod Reached
mod Tests
unfoldable pub use Rows.*
use plant_ops.Prelude.{
  ℕ, ◌+◌, ◌-◌, Text, ◌==◌, Bool, true, false, not, ◌&&◌, ◌||◌, List, [], ◌∷◌, ◌++◌, Option, none,
  some, map, any, filter, find, length, drop, if◌then◌else◌, ltb, column_is,
}
use plant_ops.Scope.{
  separator, is_within, split, join, path_depth, root_path, child_path, depth_after_move,
  is_depth_allowed, starts_with,
}
use plant_ops.Resolver.{RoleBinding, SubjectRef, SubjectType}

unfoldable pub path_beneath : Text → Option ScopeNodeRow → Result Text
path_beneath id none = conflict foreign_parent
path_beneath id (some parent) =
    if not (is_depth_allowed (path_depth parent.path + 1))
    then conflict too_deep
    else ok (child_path parent.path id)

-- `pathForNewNode`
unfoldable pub path_for_new_node : Text → Text → Option Text → List ScopeNodeRow → Result Text
unfolding path_beneath find_row
path_for_new_node cid id none nodes =
    if any (λ n. n.client_id == cid && column_is_null n.parent_id) nodes
    then conflict second_root
    else ok (root_path id)
path_for_new_node cid id (some parent_id) nodes = path_beneath id (find_row cid parent_id nodes)

-- `create`, with the new id.
unfoldable pub create :
    Text
    → Text
    → Option Text
    → ScopeNodeKind
    → Text
    → ScopeState
    → Result (ScopeNodeRow × ScopeState)
unfolding path_for_new_node
create cid id parent_id kind name st = do
  path ← path_for_new_node cid id parent_id st.nodes
  let row : ScopeNodeRow = record {
    id = id;
    client_id = cid;
    parent_id = parent_id;
    kind = kind;
    name = name;
    path = path;
  }
  ok (row, record st { nodes = row ∷ st.nodes; audit = created id path parent_id ∷ st.audit })

-- `update … where client_id = $1 and id = $2`
unfoldable pub update_row :
    Text → Text → (ScopeNodeRow → ScopeNodeRow) → List ScopeNodeRow → List ScopeNodeRow
unfolding is_row
update_row cid id f nodes = map (λ n. if is_row cid id n then f n else n) nodes

abbrev pub named : Text → ScopeNodeRow → ScopeNodeRow
named name n = record n { name = name }

unfoldable pub rename : ScopeNodeRow → Text → ScopeState → ScopeNodeRow × ScopeState
unfolding update_row
rename current name st = (
  named name current,
  record st {
    nodes = update_row current.client_id current.id (named name) st.nodes;
    audit = renamed current.id current.name name ∷ st.audit;
  },
)

abbrev pub max : ℕ → ℕ → ℕ
max a b = if ltb a b then b else a

-- `coalesce(max(nlevel(path)), …)` over the rows.
unfoldable pub max_depth : ℕ → List ScopeNodeRow → ℕ
max_depth least [] = least
max_depth least (n ∷ nodes) = max (path_depth n.path) (max_depth least nodes)

unfoldable pub height_under : Text → Text → List ScopeNodeRow → ℕ
unfolding max_depth is_under
height_under cid path nodes =
    max_depth (path_depth path) (filter (is_under cid path) nodes) - path_depth path + 1

-- `$3::ltree || subpath(path, nlevel($2::ltree) - 1)`
unfoldable pub moved_path : Text → Text → Text → Text
moved_path old new path = join separator (new ∷ drop (path_depth old - 1) (split separator path))

unfoldable pub moved_row : ScopeNodeRow → ScopeNodeRow → ScopeNodeRow → ScopeNodeRow
unfolding moved_path is_under
moved_row current parent n =
    if is_under current.client_id current.path n
    then record n {
      path = moved_path current.path parent.path n.path;
      parent_id = if n.id == current.id then some parent.id else n.parent_id;
    }
    else n

-- The update of the subtree, its audit entry and its invalidation.
unfoldable pub after_move : ScopeNodeRow → ScopeNodeRow → ScopeState → ScopeNodeRow × ScopeState
unfolding moved_row subjects_under
after_move current parent st =
    let subjects = subjects_under current.client_id current.path st in
    let row = moved_row current parent current in
    let nodes_moved = length (filter (is_under current.client_id current.path) st.nodes) in
    (
      row,
      record st {
        nodes = map (moved_row current parent) st.nodes;
        audit = moved current.id current.path row.path nodes_moved (length subjects) ∷ st.audit;
        published = subjects ∷ st.published;
      },
    )

unfoldable pub move_beneath :
    ScopeNodeRow → Option ScopeNodeRow → ScopeState → Result (ScopeNodeRow × ScopeState)
unfolding height_under after_move
move_beneath current none st = conflict foreign_parent
move_beneath current (some parent) st =
    if parent.path == current.path || starts_with parent.path (current.path ++ separator ∷ [])
    then conflict beneath_itself
    else if not (
        is_depth_allowed (
          depth_after_move (path_depth parent.path)
            (height_under current.client_id current.path st.nodes)))
    then conflict too_deep
    else ok (after_move current parent st)

-- `move`
unfoldable pub move : Text → ScopeNodeRow → Text → ScopeState → Result (ScopeNodeRow × ScopeState)
unfolding move_beneath find_row
move cid current new_parent_id st = move_beneath current (find_row cid new_parent_id st.nodes) st

unfoldable pub renamed_first : Option Text → ScopeNodeRow → ScopeState → ScopeNodeRow × ScopeState
unfolding rename
renamed_first none current st = (current, st)
renamed_first (some name) current st =
    if name == current.name then (current, st) else rename current name st

unfoldable pub then_moved :
    Text → Option Text → ScopeNodeRow × ScopeState → Result (ScopeNodeRow × ScopeState)
unfolding move
then_moved cid none (row, st) = ok (row, st)
then_moved cid (some parent_id) (row, st) =
    if column_is row.parent_id parent_id then ok (row, st) else move cid row parent_id st

unfoldable pub update_found :
    Text
    → Option Text
    → Option Text
    → Option ScopeNodeRow
    → ScopeState
    → Result (Option ScopeNodeRow × ScopeState)
unfolding renamed_first then_moved
update_found cid name parent_id none st = ok (none, st)
update_found cid name parent_id (some current) st = do
  (row, st') ← then_moved cid parent_id (renamed_first name current st)
  ok (some row, st')

-- `update`: the row, or `null` where the client has no such node.
unfoldable pub update :
    Text → Text → Option Text → Option Text → ScopeState → Result (Option ScopeNodeRow × ScopeState)
unfolding update_found find_row
update cid id name parent_id st = update_found cid name parent_id (find_row cid id st.nodes) st

unfoldable pub remove_found :
    Text → Text → Option ScopeNodeRow → ScopeState → Result (Bool × ScopeState)
unfolding is_row
remove_found cid id none st = ok (false, st)
remove_found cid id (some row) st =
    if any (λ c. c.client_id == cid && column_is c.parent_id id) st.nodes
    then conflict has_children
    else if any (λ rb. rb.client_id == cid && rb.scope_node_id == id) st.bindings
    then conflict has_bindings
    else ok (
      true,
      record st {
        nodes = filter (λ n. not (is_row cid id n)) st.nodes;
        audit = deleted row.id row.path ∷ st.audit;
      },
    )

-- `remove`
unfoldable pub remove : Text → Text → ScopeState → Result (Bool × ScopeState)
unfolding remove_found find_row
remove cid id st = remove_found cid id (find_row cid id st.nodes) st
