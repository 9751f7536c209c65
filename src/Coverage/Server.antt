-- ===== src/Coverage/Server.antt =====
-- The browser's test against the server's.
use plant_ops.Prelude.{
  Text, ◌&&◌, List, [], ◌∷◌, Option, none, some, any, includes, or_default, ◌≡◌, ◌≢◌, refl, ap, ◌∙◌,
  arith, All,
}
use plant_ops.Scope.{is_within}
use plant_ops.Grants.{ResolvedGrants, lookup, keys, some_covers, holds_permission, covers_path}
use plant_ops.Grants.Assembled.{is_some, includes-keys}
use plant_ops.Coverage.{
  path_covers, any_path_covers, holds_somewhere, permission_scopes, holds_permission_at,
}

path_covers-is_within :
    (granted target : Text) → granted ≢ [] → path_covers granted target ≡ is_within target granted
unfolding path_covers is_within
path_covers-is_within [] target n = absurd (n refl)
path_covers-is_within (a ∷ p) [] n = refl
path_covers-is_within (a ∷ p) (b ∷ s) n = refl

any_path_covers-is_within :
    (paths : List Text) (target : Text)
    → All (λ path. path ≢ []) paths
    → any_path_covers paths target ≡ any (λ path. is_within target path) paths
unfolding any_path_covers
any_path_covers-is_within [] target h = refl
any_path_covers-is_within (p ∷ ps) target (n, h) =
    rw (path_covers-is_within p target n, any_path_covers-is_within ps target h) refl

some_covers_of :
    (o : Option (List Text)) (target : Text)
    → any (λ path. is_within target path) (or_default o []) ≡ (is_some o && some_covers o target)
some_covers_of none target = refl
some_covers_of (some paths) target = refl

-- On grants whose permissions are the keys of their scopes, with no empty path for the permission,
-- the browser shows a control for a scope exactly when the server's point check admits it, and only
-- where the subject holds the permission somewhere, at one of the scopes that the browser lists.
pub holds_permission_at-covers_path :
    (grants : ResolvedGrants) (permission scope_path : Text)
    → grants.permissions ≡ keys grants.scopes
    → All (λ path. path ≢ []) (permission_scopes (some grants) permission)
    → (holds_permission_at (some grants) permission scope_path
        ≡ covers_path grants permission scope_path)
      × (holds_permission_at (some grants) permission scope_path ≡ (
          holds_somewhere (some grants) permission
          && any (λ path. is_within scope_path path) (permission_scopes (some grants) permission)))
unfolding holds_permission_at covers_path holds_permission holds_somewhere permission_scopes
holds_permission_at-covers_path grants permission scope_path same nonempty =
    let paths = or_default (lookup grants.scopes permission) [] in
    let web = any_path_covers-is_within paths scope_path nonempty in
    let server = some_covers_of (lookup grants.scopes permission) scope_path in
    let held : includes grants.permissions permission ≡ is_some (lookup grants.scopes permission) =
      ap (λ ks. includes ks permission) same ∙ includes-keys grants.scopes permission in
    (ground (arith, web, server, held), ground (arith, web, server, held))
