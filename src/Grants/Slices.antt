-- ===== src/Grants/Slices.antt =====
-- `sliceGrants` and `allowedPathsFor`.
use plant_ops.Prelude.{
  Text, ◌==◌, eq_iff, ◌&&◌, List, [], ◌∷◌, ◌≡◌, refl, inl, inr, arith, Bool-cases, Option, none,
  some, includes, if◌then◌else◌, or_default, sort,
}
use plant_ops.Grants.{
  GrantRow, ResolvedGrants, lookup, keys, slice_scopes, slice_grants, assemble_grants, some_covers,
  covers_path, allowed_paths_for, group_rows,
}
use plant_ops.Grants.Minimal.{covers}
use plant_ops.Grants.Assembled.{includes-keys, lookup-minimal_scopes, permissions-assemble_grants}

lookup-slice_scopes :
    (g : ResolvedGrants) (wanted ks : List Text) (k : Text)
    → lookup (slice_scopes g wanted ks) k ≡ (
        if includes ks k && includes wanted k
        then some (or_default (lookup g.scopes k) [])
        else none)
unfolding slice_scopes includes lookup
lookup-slice_scopes g wanted [] k = refl
lookup-slice_scopes g wanted (j ∷ ks) k = elim (Bool-cases (j == k)) [
  | inl e ↦ let same : j ≡ k = (eq_iff j k).0 e in ground (arith, lookup-slice_scopes g wanted ks k)
  | inr e ↦ ground (arith, lookup-slice_scopes g wanted ks k)
]

some_covers-or_default :
    (o : Option (List Text)) (t : Text) → some_covers (some (or_default o [])) t ≡ some_covers o t
some_covers-or_default none t = refl
some_covers-or_default (some v) t = refl

-- A slice admits what the whole grants admit, for the wanted permissions and for no other.
pub covers_path-slice_grants :
    (grants : ResolvedGrants) (wanted : List Text) (permission target : Text)
    → covers_path (slice_grants grants wanted) permission target
      ≡ (includes wanted permission && covers_path grants permission target)
unfolding covers_path slice_grants
covers_path-slice_grants g wanted k t = ground (
  arith,
  lookup-slice_scopes g wanted g.permissions k,
  includes-keys (slice_scopes g wanted g.permissions) k,
  some_covers-or_default (lookup g.scopes k) t,
)

-- The roots that narrow a query select exactly the targets that the point check admits.
pub allowed_paths_for-assemble_grants :
    (rows : List GrantRow) (permission target : Text)
    → covers (allowed_paths_for (assemble_grants rows) permission) target
      ≡ covers_path (assemble_grants rows) permission target
unfolding covers_path allowed_paths_for
allowed_paths_for-assemble_grants rows k t = rw (permissions-assemble_grants rows) (
    unfold assemble_grants in
    (ground
      (arith, lookup-minimal_scopes (group_rows [] rows) (sort (keys (group_rows [] rows))) k)))
