-- ===== src/Grants/Assembled.antt =====
-- `assembleGrants`: the grants cover exactly what the rows cover, and depend on nothing else.
use plant_ops.Prelude.{
  Text, ◌==◌, eq_iff, Bool, true, false, ◌&&◌, ◌||◌, List, [], ◌∷◌, ◌++◌, ◌≡◌, refl, ap, ◌∙◌, inl,
  inr, arith, Bool-cases, Option, none, some, not, any, includes, sort, includes-sort,
  if◌then◌else◌, or_default, any-append,
}
use plant_ops.Scope.{is_within}
use plant_ops.Grants.{
  GrantRow, ScopeMap, lookup, minimize_paths, push_path, group_rows, keys, minimal_scopes,
  assemble_grants, some_covers, covers_path,
}
use plant_ops.Grants.Minimal.{covers, covers-minimize_paths}

abbrev pub paths_at : ScopeMap → Text → List Text
paths_at m k = or_default (lookup m k) []

-- A row grants a permission over the subtree of its path.
abbrev pub row_covers : Text → Text → GrantRow → Bool
row_covers permission target row =
    row.permission_key == permission && is_within target row.scope_path

lookup-push_path :
    (m : ScopeMap) (key path k : Text)
    → lookup (push_path m key path) k
      ≡ (if key == k then some (paths_at m key ++ path ∷ []) else lookup m k)
unfolding lookup push_path
lookup-push_path [] key path k = refl
lookup-push_path ((j, v) ∷ m) key path k =
    ground (arith, eq_iff j key, eq_iff j k, eq_iff key k, lookup-push_path m key path k)

covers-push_path :
    (m : ScopeMap) (key path k t : Text)
    → covers (paths_at (push_path m key path) k) t
      ≡ (covers (paths_at m k) t || (key == k && is_within t path))
covers-push_path m key path k t = elim (Bool-cases (key == k)) [
  | inl e ↦
      let same : key ≡ k = (eq_iff key k).0 e in
      rw (lookup-push_path m key path k, e)
        (any-append (λ p. is_within t p) (paths_at m key) (path ∷ [])
          ∙ ground (arith, ap (λ (x : Text). covers (paths_at m x) t) same))
  | inr e ↦ rw (lookup-push_path m key path k, e) (ground arith)
]

pub covers-group_rows :
    (m : ScopeMap) (rows : List GrantRow) (k t : Text)
    → covers (paths_at (group_rows m rows) k) t
      ≡ (covers (paths_at m k) t || any (row_covers k t) rows)
unfolding group_rows
covers-group_rows m [] k t = ground arith
covers-group_rows m (row ∷ rows) k t =
    let p = row.permission_key in
    let s = row.scope_path in
    ground (arith, covers-group_rows (push_path m p s) rows k t, covers-push_path m p s k t)

abbrev pub is_some : Option (List Text) → Bool
is_some none = false
is_some (some v) = true

pub includes-keys : (m : ScopeMap) (k : Text) → includes (keys m) k ≡ is_some (lookup m k)
unfolding includes lookup
includes-keys [] k = refl
includes-keys ((j, v) ∷ m) k = ground (arith, includes-keys m k)

pub keys-minimal_scopes : (m : ScopeMap) (ks : List Text) → keys (minimal_scopes m ks) ≡ ks
unfolding minimal_scopes
keys-minimal_scopes m [] = refl
keys-minimal_scopes m (k ∷ ks) = ap (λ l. k ∷ l) (keys-minimal_scopes m ks)

pub lookup-minimal_scopes :
    (m : ScopeMap) (ks : List Text) (k : Text)
    → lookup (minimal_scopes m ks) k
      ≡ (if includes ks k then some (minimize_paths (paths_at m k)) else none)
unfolding lookup minimal_scopes includes
lookup-minimal_scopes m [] k = refl
lookup-minimal_scopes m (j ∷ ks) k = elim (Bool-cases (j == k)) [
  | inl e ↦ rw e (ap (λ x. some (minimize_paths (paths_at m x))) ((eq_iff j k).0 e))
  | inr e ↦ rw e (lookup-minimal_scopes m ks k)
]

pub permissions-assemble_grants :
    (rows : List GrantRow) → (assemble_grants rows).permissions ≡ sort (keys (group_rows [] rows))
unfolding assemble_grants
permissions-assemble_grants rows = keys-minimal_scopes (group_rows [] rows) _

-- The grants assembled from the rows of the resolve query admit a permission at a target exactly
-- when some row has that very permission and a path at or above the target.
pub covers_path-assemble_grants :
    (rows : List GrantRow) (permission target : Text)
    → covers_path (assemble_grants rows) permission target ≡ any (row_covers permission target) rows
unfolding covers_path
covers_path-assemble_grants rows k t =
    let m = group_rows [] rows in
    let known : includes (sort (keys m)) k ≡ is_some (lookup m k) =
      includes-sort (keys m) k ∙ includes-keys m k in
    let grouped : covers (paths_at m k) t ≡ any (row_covers k t) rows =
      covers-group_rows [] rows k t in
    rw (permissions-assemble_grants rows)
      (unfold assemble_grants in (go (lookup m k) refl known grouped))
  where
    go :
        (o : Option (List Text))
        → lookup (group_rows [] rows) k ≡ o
        → includes (sort (keys (group_rows [] rows))) k ≡ is_some (lookup (group_rows [] rows) k)
        → covers (paths_at (group_rows [] rows) k) t ≡ any (row_covers k t) rows
        → (if not (includes (sort (keys (group_rows [] rows))) k)
            then false
            else some_covers
                (lookup (minimal_scopes (group_rows [] rows) (sort (keys (group_rows [] rows)))) k)
                t)
          ≡ any (row_covers k t) rows
    go none e known grouped = rw (known, e) (rw e at grouped)
    go (some v) e known grouped =
        let has : includes (sort (keys (group_rows [] rows))) k ≡ true = rw e at known in
        rw
          (
            has,
            lookup-minimal_scopes (group_rows [] rows) (sort (keys (group_rows [] rows))) k,
            has,
          )
          (covers-minimize_paths (paths_at (group_rows [] rows) k) t ∙ grouped)
