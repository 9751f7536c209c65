-- ===== src/Manifest/Converged.antt =====
-- An upsert changes nothing exactly when the catalog is what the manifest says.
use plant_ops.Prelude.{
  eq_iff, Bool, true, ◌&&◌, Option, some, ◌≡◌, ◌↔◌, arith, is_empty, map, includes,
}
use mathlib.Core.List.{Memᴰ}
use plant_ops.Manifest.{
  CatalogApplication, CatalogPermission, CatalogNavNode, CurrentCatalog, DesiredNavNode,
  ManifestPermission, ApplicationManifest, Update, flatten_manifest_nav, plan_application,
  permission_changes, nav_changes,
}
use plant_ops.Manifest.Plan.{
  by_key, plan_permissions, plan_nav, compute_manifest_plan, to_manifest_diff, is_no_op_diff,
}
use plant_ops.Manifest.Lists.{
  is_empty-map, push_unless-empty_iff, nothing-empty_iff, same_option_iff, IsSettled-of_empty_lists,
  empty_of_settled, deactivated-empty_iff,
}
use plant_ops.Manifest.Same.{
  IsSamePermission, IsSameNode, HasSameGates, permission_changes-empty_iff, nav_changes-empty_iff,
  mappings-empty_iff,
}

-- The catalog is what the manifest says: the application's name and description; every declared
-- permission and node stored under its key, the same in every field and active; no other one active;
-- and the gates of each declared node.
pub record IsConverged (current : CurrentCatalog) (manifest : ApplicationManifest) : Type 0 where
  pub name : manifest.name ≡ current.application.name
  pub description : manifest.description ≡ current.application.description
  pub permissions :
      (permission : ManifestPermission)
      → Memᴰ permission manifest.permissions
      → (row : CatalogPermission) × (by_key CatalogPermission.key current.permissions permission.key
          ≡ some row)
        × IsSamePermission permission row
  pub no_other_permission :
      (row : CatalogPermission)
      → Memᴰ row current.permissions
      → row.is_active ≡ true
      → includes (map ManifestPermission.key manifest.permissions) row.key ≡ true
  pub nodes :
      (node : DesiredNavNode)
      → Memᴰ node (flatten_manifest_nav manifest.nav)
      → (row : CatalogNavNode) × (by_key CatalogNavNode.key current.nav_nodes node.key ≡ some row)
        × IsSameNode node row
  pub no_other_node :
      (row : CatalogNavNode)
      → Memᴰ row current.nav_nodes
      → row.is_active ≡ true
      → includes (map DesiredNavNode.key (flatten_manifest_nav manifest.nav)) row.key ≡ true
  pub gates :
      (node : DesiredNavNode)
      → Memᴰ node (flatten_manifest_nav manifest.nav)
      → HasSameGates current node

application-empty_iff :
    (current : CatalogApplication) (manifest : ApplicationManifest)
    → (is_empty (plan_application current manifest) ≡ true)
      ↔ ((manifest.name ≡ current.name) × ((manifest.description ≡ current.description) × Unit {0}))
unfolding plan_application
application-empty_iff current manifest =
    push_unless-empty_iff _ _ _ (eq_iff manifest.name current.name) (
      push_unless-empty_iff _ _ _ (same_option_iff manifest.description current.description)
        nothing-empty_iff)

nine :
    (a b c d e f g h i : Bool)
    → ((a && b && c && d && e && f && g && h && i) ≡ true) ↔ (
        (a ≡ true)
        × (b ≡ true)
        × (c ≡ true)
        × (d ≡ true)
        × (e ≡ true)
        × (f ≡ true)
        × (g ≡ true)
        × ((h && i) ≡ true))
nine a b c d e f g h i = (
  (λ p. (
    ground (arith, p),
    ground (arith, p),
    ground (arith, p),
    ground (arith, p),
    ground (arith, p),
    ground (arith, p),
    ground (arith, p),
    ground (arith, p),
  )),
  λ (j, k, l, m, n, o, p, q). ground arith,
)

module _ (current : CurrentCatalog) (manifest : ApplicationManifest) where
  -- The nine lists of the diff.
  abbrev AreEmpty : Type 0
  AreEmpty =
      let plan = compute_manifest_plan current manifest in
      (is_empty plan.application ≡ true)
      × (is_empty plan.permissions.created ≡ true)
      × (is_empty plan.permissions.updated ≡ true)
      × (is_empty plan.permissions.deactivated ≡ true)
      × (is_empty plan.nav.created ≡ true)
      × (is_empty plan.nav.updated ≡ true)
      × (is_empty plan.nav.deactivated ≡ true)
      × ((is_empty plan.mapped && is_empty plan.unmapped) ≡ true)

  no_op-AreEmpty :
      (is_no_op_diff (to_manifest_diff (compute_manifest_plan current manifest)) ≡ true) ↔ AreEmpty
  unfolding is_no_op_diff to_manifest_diff
  no_op-AreEmpty =
      let plan = compute_manifest_plan current manifest in
      let a = is_empty-map ManifestPermission.key plan.permissions.created in
      let b =
        is_empty-map (λ (u : Update ManifestPermission CatalogPermission). u.desired.key)
          plan.permissions.updated in
      let c = is_empty-map DesiredNavNode.key plan.nav.created in
      let d =
        is_empty-map (λ (u : Update DesiredNavNode CatalogNavNode). u.desired.key)
          plan.nav.updated in
      rw (a, b, c, d)
        (nine (is_empty plan.application) (is_empty plan.permissions.created)
          (is_empty plan.permissions.updated) (is_empty plan.permissions.deactivated)
          (is_empty plan.nav.created) (is_empty plan.nav.updated) (is_empty plan.nav.deactivated)
          (is_empty plan.mapped) (is_empty plan.unmapped))

  -- The diff of a manifest is a no-op exactly when the catalog is what the manifest says: the
  -- application's name and description, every declared permission and node stored under its key with
  -- the same fields and active, no other one active, and the same gates on each declared node.
  pub is_no_op_diff-IsConverged :
      (is_no_op_diff (to_manifest_diff (compute_manifest_plan current manifest)) ≡ true)
      ↔ IsConverged current manifest
  unfolding compute_manifest_plan plan_permissions plan_nav
  is_no_op_diff-IsConverged =
      let desired = flatten_manifest_nav manifest.nav in
      let find_permission : ManifestPermission → Option CatalogPermission =
        λ p. by_key CatalogPermission.key current.permissions p.key in
      let find_node : DesiredNavNode → Option CatalogNavNode =
        λ n. by_key CatalogNavNode.key current.nav_nodes n.key in
      let other_permissions =
        deactivated-empty_iff CatalogPermission.key CatalogPermission.is_active
          (map ManifestPermission.key manifest.permissions) current.permissions in
      let other_nodes =
        deactivated-empty_iff CatalogNavNode.key CatalogNavNode.is_active
          (map DesiredNavNode.key desired) current.nav_nodes in
      let application = application-empty_iff current.application manifest in
      let gates = mappings-empty_iff current desired in
      (
        (λ h.
            let (a, b, c, d, e, f, g, i) = no_op-AreEmpty.0 h in
            let (n, (s, u)) = application.0 a in
            record {
              name = n;
              description = s;
              permissions = λ p m.
                  let (row, l, z) =
                    IsSettled-of_empty_lists find_permission permission_changes manifest.permissions
                      b c p m in
                  (row, l, (permission_changes-empty_iff p row).0 z);
              no_other_permission = other_permissions.0 d;
              nodes = λ p m.
                  let (row, l, z) =
                    IsSettled-of_empty_lists find_node nav_changes desired e f p m in
                  (row, l, (nav_changes-empty_iff p row).0 z);
              no_other_node = other_nodes.0 g;
              gates = gates.0 i;
            }),
        λ s.
            let (b, c) =
              empty_of_settled find_permission permission_changes manifest.permissions λ p m.
                let (row, l, z) = s.permissions p m in
                (row, l, (permission_changes-empty_iff p row).1 z) in
            let (e, f) =
              empty_of_settled find_node nav_changes desired λ p m.
                let (row, l, z) = s.nodes p m in (row, l, (nav_changes-empty_iff p row).1 z) in
            no_op-AreEmpty.1 (
              application.1 (s.name, (s.description, tt)),
              b,
              c,
              other_permissions.1 s.no_other_permission,
              e,
              f,
              other_nodes.1 s.no_other_node,
              gates.1 s.gates,
            ),
      )
