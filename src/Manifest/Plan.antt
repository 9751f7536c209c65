-- ===== src/Manifest/Plan.antt =====
-- `computeManifestPlan` from the two catalogs on, `toManifestDiff` and `isNoOpDiff`, of
-- apps/iam-api/src/registry/manifest-diff.ts.
use plant_ops.Prelude.{
  Text, ◌==◌, Bool, not, ◌&&◌, List, [], ◌∷◌, ◌++◌, Option, none, some, if◌then◌else◌, is_empty,
  filter, map, includes, distinct, sort, or_default,
}
use plant_ops.Manifest.{
  CatalogPermission, CatalogNavNode, CurrentCatalog, DesiredNavNode, ManifestPermission,
  ApplicationManifest, Update, EntityPlan, flatten_manifest_nav, plan_application,
  permission_changes, nav_changes,
}

-- `new Map(current.map((row) => [row.key, row])).get(key)`: the last row of the key.
unfoldable pub by_key : {Current : Type 0} → (Current → Text) → List Current → Text → Option Current
by_key key_of [] key = none
by_key key_of (row ∷ rows) key = elim (by_key key_of rows key) [
  | some later ↦ some later
  | none ↦ if key_of row == key then some row else none
]

module _ {Desired Current : Type 0} where
  abbrev pub update_of : Desired → Current → List Text → List (Update Desired Current)
  update_of d row [] = []
  update_of d row (c ∷ cs) = record { desired = d; current = row; changed = c ∷ cs } ∷ []

  abbrev pub created_of : Desired → Option Current → List Desired
  created_of d none = d ∷ []
  created_of d (some row) = []

  abbrev pub updated_of :
      (Desired → Current → List Text) → Desired → Option Current → List (Update Desired Current)
  updated_of changes d none = []
  updated_of changes d (some row) = update_of d row (changes d row)

  module _ (lookup : Desired → Option Current) (changes : Desired → Current → List Text) where
    -- The loop over what is declared, which `planPermissions` and `planNav` share.
    unfoldable pub created : List Desired → List Desired
    created [] = []
    created (d ∷ ds) = created_of d (lookup d) ++ created ds

    unfoldable pub updated : List Desired → List (Update Desired Current)
    updated [] = []
    updated (d ∷ ds) = updated_of changes d (lookup d) ++ updated ds

-- The keys of the active rows that are not declared.
unfoldable pub deactivated :
    {Current : Type 0} → (Current → Text) → (Current → Bool) → List Text → List Current → List Text
deactivated key_of active wanted rows =
    map key_of (filter (λ row. active row && not (includes wanted (key_of row))) rows)

unfoldable pub plan_permissions :
    List CatalogPermission
    → List ManifestPermission
    → EntityPlan ManifestPermission CatalogPermission
unfolding by_key created updated deactivated permission_changes
plan_permissions current declared =
    let lookup : ManifestPermission → Option CatalogPermission =
      λ permission. by_key CatalogPermission.key current permission.key in
    record {
      created = created lookup permission_changes declared;
      updated = updated lookup permission_changes declared;
      deactivated =
          deactivated CatalogPermission.key CatalogPermission.is_active
            (map ManifestPermission.key declared) current;
    }

unfoldable pub plan_nav :
    List CatalogNavNode → List DesiredNavNode → EntityPlan DesiredNavNode CatalogNavNode
unfolding by_key created updated deactivated nav_changes
plan_nav current desired =
    let lookup : DesiredNavNode → Option CatalogNavNode =
      λ node. by_key CatalogNavNode.key current node.key in
    record {
      created = created lookup nav_changes desired;
      updated = updated lookup nav_changes desired;
      deactivated =
          deactivated CatalogNavNode.key CatalogNavNode.is_active (map DesiredNavNode.key desired)
            current;
    }

pub record ManifestMappingChange : Type 0 where
  pub nav_key : Text
  pub permission_keys : List Text

abbrev pub change_of : Text → List Text → List ManifestMappingChange
change_of key [] = []
change_of key (k ∷ ks) = record { nav_key = key; permission_keys = k ∷ ks } ∷ []

abbrev pub existing_keys : CurrentCatalog → DesiredNavNode → List Text
existing_keys current node = distinct (or_default (current.mappings node.key) [])

abbrev pub to_map : CurrentCatalog → DesiredNavNode → List Text
to_map current node = filter (λ key. not (includes (existing_keys current node) key)) node.requires

abbrev pub to_unmap : CurrentCatalog → DesiredNavNode → List Text
to_unmap current node =
    sort (filter (λ key. not (includes node.requires key)) (existing_keys current node))

-- `planMappings`, its two lists.
unfoldable pub mapped : CurrentCatalog → List DesiredNavNode → List ManifestMappingChange
mapped current [] = []
mapped current (node ∷ nodes) = change_of node.key (to_map current node) ++ mapped current nodes

unfoldable pub unmapped : CurrentCatalog → List DesiredNavNode → List ManifestMappingChange
unmapped current [] = []
unmapped current (node ∷ nodes) =
    change_of node.key (to_unmap current node) ++ unmapped current nodes

pub record ManifestPlan : Type 0 where
  pub application : List Text
  pub permissions : EntityPlan ManifestPermission CatalogPermission
  pub nav : EntityPlan DesiredNavNode CatalogNavNode
  pub mapped : List ManifestMappingChange
  pub unmapped : List ManifestMappingChange

unfoldable pub compute_manifest_plan : CurrentCatalog → ApplicationManifest → ManifestPlan
unfolding flatten_manifest_nav plan_application plan_permissions plan_nav mapped unmapped
compute_manifest_plan current manifest =
    let desired = flatten_manifest_nav manifest.nav in
    record {
      application = plan_application current.application manifest;
      permissions = plan_permissions current.permissions manifest.permissions;
      nav = plan_nav current.nav_nodes desired;
      mapped = mapped current desired;
      unmapped = unmapped current desired;
    }

pub record Keys : Type 0 where
  pub created : List Text
  pub updated : List Text
  pub deactivated : List Text

pub record ManifestDiff : Type 0 where
  pub application : List Text
  pub permissions : Keys
  pub nav : Keys
  pub mapped : List ManifestMappingChange
  pub unmapped : List ManifestMappingChange

abbrev pub keys_of :
    {Desired Current : Type 0} → (Desired → Text) → EntityPlan Desired Current → Keys
keys_of key plan = record {
  created = map key plan.created;
  updated = map (λ update. key update.desired) plan.updated;
  deactivated = plan.deactivated;
}

unfoldable pub to_manifest_diff : ManifestPlan → ManifestDiff
to_manifest_diff plan = record {
  application = plan.application;
  permissions = keys_of ManifestPermission.key plan.permissions;
  nav = keys_of DesiredNavNode.key plan.nav;
  mapped = plan.mapped;
  unmapped = plan.unmapped;
}

unfoldable pub is_no_op_diff : ManifestDiff → Bool
is_no_op_diff diff =
    is_empty diff.application
    && is_empty diff.permissions.created
    && is_empty diff.permissions.updated
    && is_empty diff.permissions.deactivated
    && is_empty diff.nav.created
    && is_empty diff.nav.updated
    && is_empty diff.nav.deactivated
    && is_empty diff.mapped
    && is_empty diff.unmapped
