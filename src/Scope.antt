-- ===== src/Scope.antt =====
-- Scope paths: `pathIsWithin` of libs/auth-kit/src/scope-resolver.ts, the path arithmetic of
-- apps/iam-api/src/scopes/path.util.ts, and `scopePathLabel` of
-- libs/db/src/entities/scope-node.entity.ts.
pub mod Within
pub mod Labels
pub mod Moves
pub mod Subtree
mod Tests
use plant_ops.Prelude.{
  ℕ, ◌+◌, ◌-◌, Text, codes, ◌==◌, Bool, true, false, not, ◌&&◌, ◌||◌, List, [], ◌∷◌, ◌++◌, Option,
  none, some, leb, ◌=?◌, if◌then◌else◌, length, drop, filter,
}

abbrev pub separator : ℕ
separator = b'.'

-- `s.startsWith(p)`
unfoldable pub starts_with : Text → Text → Bool
starts_with s [] = true
starts_with [] (a ∷ p) = false
starts_with (b ∷ s) (a ∷ p) = b =? a && starts_with s p

-- `path <@ prefix`: `pathIsWithin`, re-exported as `isWithin`.
unfoldable pub is_within : Text → Text → Bool
unfolding starts_with
is_within path prefix = path == prefix || starts_with path (prefix ++ separator ∷ [])

-- `s.split(c)` for a separator of one code unit, and `parts.join(c)`.
abbrev pub cons_head : ℕ → List Text → List Text
cons_head a [] = (a ∷ []) ∷ []
cons_head a (p ∷ ps) = (a ∷ p) ∷ ps

unfoldable pub split : ℕ → Text → List Text
split c [] = [] ∷ []
split c (a ∷ s) = let rest = split c s in if a =? c then [] ∷ rest else cons_head a rest

unfoldable pub join : ℕ → List Text → Text
join c [] = []
join c (p ∷ []) = p
join c (p ∷ q ∷ ps) = p ++ c ∷ join c (q ∷ ps)

abbrev pub scope_path_label_prefix : Text
scope_path_label_prefix = codes "n_"

-- `n_` and the id with its hyphens removed.
unfoldable pub scope_path_label : Text → Text
scope_path_label id = scope_path_label_prefix ++ filter (λ c. not (c =? b'-')) id

unfoldable pub root_path : Text → Text
unfolding scope_path_label
root_path id = scope_path_label id

unfoldable pub child_path : Text → Text → Text
unfolding scope_path_label
child_path parent_path id = parent_path ++ separator ∷ scope_path_label id

unfoldable pub path_depth : Text → ℕ
unfolding split
path_depth path = length (split separator path)

-- `rewritePrefix`; `none` stands for the thrown error.
unfoldable pub rewrite_prefix : Text → Text → Text → Option Text
unfolding is_within split join path_depth
rewrite_prefix path old_prefix new_parent_path =
    if not (is_within path old_prefix)
    then none
    else (let tail = drop (path_depth old_prefix - 1) (split separator path) in
        some (join separator (new_parent_path ∷ tail)))

abbrev pub max_scope_tree_depth : ℕ
max_scope_tree_depth = 32

unfoldable pub depth_after_move : ℕ → ℕ → ℕ
depth_after_move parent_depth subtree_height = parent_depth + subtree_height

unfoldable pub is_depth_allowed : ℕ → Bool
is_depth_allowed depth = leb depth max_scope_tree_depth
