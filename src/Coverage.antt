-- ===== src/Coverage.antt =====
-- The coverage test of the browser: libs/web-kit/src/scope-coverage.ts. `none` stands for grants
-- that have not been loaded.
pub mod Server
mod Tests
use plant_ops.Prelude.{
  Text, ◌==◌, Bool, true, false, ◌||◌, List, [], ◌∷◌, ◌++◌, Option, none, some, any, if◌then◌else◌,
  includes, or_default,
}
use plant_ops.Scope.{separator, starts_with}
use plant_ops.Grants.{ResolvedGrants, lookup}

unfoldable pub path_covers : Text → Text → Bool
unfolding ◌==◌ starts_with
path_covers granted_path target_path =
    if granted_path == [] || target_path == []
    then false
    else target_path == granted_path || starts_with target_path (granted_path ++ separator ∷ [])

unfoldable pub any_path_covers : List Text → Text → Bool
unfolding path_covers
any_path_covers granted_paths target_path =
    any (λ granted. path_covers granted target_path) granted_paths

-- `holdsPermission` of the browser
unfoldable pub holds_somewhere : Option ResolvedGrants → Text → Bool
unfolding includes
holds_somewhere none permission = false
holds_somewhere (some grants) permission = includes grants.permissions permission

unfoldable pub permission_scopes : Option ResolvedGrants → Text → List Text
unfolding lookup
permission_scopes none permission = []
permission_scopes (some grants) permission = or_default (lookup grants.scopes permission) []

unfoldable pub holds_permission_at : Option ResolvedGrants → Text → Text → Bool
unfolding any_path_covers lookup
holds_permission_at none permission scope_path = false
holds_permission_at (some grants) permission scope_path =
    any_path_covers (or_default (lookup grants.scopes permission) []) scope_path
