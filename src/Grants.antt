-- ===== src/Grants.antt =====
-- Resolved grants: apps/iam-api/src/authz/grants.util.ts, and the point check of
-- libs/auth-kit/src/scope-resolver.ts. A JavaScript `Record` or `Map` is an association list in
-- insertion order; keys are permission keys, which are dotted and never integer-like.
pub mod Minimal
pub mod Assembled
pub mod Canonical
pub mod Slices
mod Tests
use plant_ops.Prelude.{
  Text, ◌==◌, Bool, true, false, not, ◌||◌, List, [], ◌∷◌, ◌++◌, Option, none, some, map, any, all,
  filter, if◌then◌else◌, includes, distinct, sort, or_default,
}
use plant_ops.Scope.{is_within}

pub record GrantRow : Type 0 where
  pub permission_key : Text
  pub scope_path : Text

-- A `Record<PermissionKey, ScopePath[]>`.
abbrev pub ScopeMap : Type 0
ScopeMap = List (Text × List Text)

pub record ResolvedGrants : Type 0 where
  pub permissions : List Text
  pub scopes : ScopeMap

unfoldable pub lookup : ScopeMap → Text → Option (List Text)
lookup [] k = none
lookup ((j, v) ∷ m) k = if j == k then some v else lookup m k

-- The test of `minimizePaths`: no other path of the set contains the candidate.
unfoldable pub is_minimal : List Text → Text → Bool
is_minimal paths candidate =
    all (λ other. other == candidate || not (is_within candidate other)) paths

unfoldable pub minimize_paths : List Text → List Text
unfolding is_minimal
minimize_paths paths = sort (filter (is_minimal (distinct paths)) (distinct paths))

-- One round of the grouping loop of `assembleGrants`: push to the key's entry, or add one.
unfoldable pub push_path : ScopeMap → Text → Text → ScopeMap
push_path [] key path = (key, path ∷ []) ∷ []
push_path ((j, paths) ∷ m) key path =
    if j == key then (j, paths ++ path ∷ []) ∷ m else (j, paths) ∷ push_path m key path

unfoldable pub group_rows : ScopeMap → List GrantRow → ScopeMap
unfolding push_path
group_rows m [] = m
group_rows m (row ∷ rows) = group_rows (push_path m row.permission_key row.scope_path) rows

abbrev pub keys : ScopeMap → List Text
keys m = map (λ e. e.0) m

-- The second loop: the sorted keys, each with its minimal paths.
unfoldable pub minimal_scopes : ScopeMap → List Text → ScopeMap
unfolding lookup minimize_paths
minimal_scopes m [] = []
minimal_scopes m (k ∷ ks) = (k, minimize_paths (or_default (lookup m k) [])) ∷ minimal_scopes m ks

unfoldable pub assemble_grants : List GrantRow → ResolvedGrants
unfolding group_rows minimal_scopes
assemble_grants rows =
    let by_permission = group_rows [] rows in
    let scopes = minimal_scopes by_permission (sort (keys by_permission)) in
    record { permissions = keys scopes; scopes = scopes }

-- `holdsPermission`
unfoldable pub holds_permission : ResolvedGrants → Text → Bool
holds_permission grants permission = includes grants.permissions permission

abbrev pub some_covers : Option (List Text) → Text → Bool
some_covers none target = false
some_covers (some covering) target = any (λ path. is_within target path) covering

-- `coversPath`, which is `grantsCover`
unfoldable pub covers_path : ResolvedGrants → Text → Text → Bool
unfolding holds_permission lookup
covers_path grants permission target_path =
    if not (holds_permission grants permission)
    then false
    else some_covers (lookup grants.scopes permission) target_path

-- `allowedPathsFor`
unfoldable pub allowed_paths_for : ResolvedGrants → Text → List Text
unfolding lookup
allowed_paths_for grants permission = or_default (lookup grants.scopes permission) []

-- The loop of `sliceGrants`.
unfoldable pub slice_scopes : ResolvedGrants → List Text → List Text → ScopeMap
unfolding lookup
slice_scopes grants wanted [] = []
slice_scopes grants wanted (k ∷ ks) =
    let rest = slice_scopes grants wanted ks in
    if includes wanted k then (k, or_default (lookup grants.scopes k) []) ∷ rest else rest

unfoldable pub slice_grants : ResolvedGrants → List Text → ResolvedGrants
unfolding slice_scopes
slice_grants grants wanted =
    let scopes = slice_scopes grants wanted grants.permissions in
    record { permissions = keys scopes; scopes = scopes }
