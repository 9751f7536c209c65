-- ===== src/Manifest/Tests.antt =====
-- Witnesses and runs for the manifest diff.
use plant_ops.Prelude.{
  Text, codes, ◌==◌, true, false, List, [], ◌∷◌, none, some, ◌≡◌, ◌↔◌, refl, if◌then◌else◌, sort,
  distinct, includes,
}
use plant_ops.Navigation.{NavNodeKind}
use plant_ops.Manifest.{CurrentCatalog, ApplicationManifest, ManifestNav, NavFields}
use plant_ops.Manifest.Plan.{compute_manifest_plan, to_manifest_diff, is_no_op_diff}
use plant_ops.Manifest.Converged.{IsConverged, is_no_op_diff-IsConverged}

abbrev leaf : NavFields
leaf = record {
  key = codes "dc";
  kind = NavNodeKind.menu;
  label = codes "Device control";
  route = some (codes "/dc");
  icon = none;
  sort_order = none;
  is_public = none;
  requires = some (codes "dc.view" ∷ codes "dc.view" ∷ []);
}

abbrev manifest : ApplicationManifest
manifest = record {
  name = codes "Gate";
  description = none;
  permissions = (record { key = codes "dc.view"; name = codes "View"; description = none }) ∷ [];
  nav = ManifestNav.nav_node leaf ManifestNav.nil ManifestNav.nil;
}

abbrev catalog : List Text → CurrentCatalog
catalog gates = record {
  application = record { key = codes "gate"; name = codes "Gate"; description = none };
  permissions =
      (record { key = codes "dc.view"; name = codes "View"; description = none; is_active = true })
      ∷ [];
  nav_nodes =
      (record {
        key = codes "dc";
        kind = NavNodeKind.menu;
        label = codes "Device control";
        route = some (codes "/dc");
        icon = none;
        sort_order = 0;
        is_public = false;
        is_active = true;
        parent_key = none;
      })
      ∷ [];
  mappings = λ k. if k == codes "dc" then some gates else none;
}

is_no_op_diff-IsConverged_example :
    (is_no_op_diff
        (to_manifest_diff (compute_manifest_plan (catalog (codes "dc.view" ∷ [])) manifest))
      ≡ true)
    ↔ IsConverged (catalog (codes "dc.view" ∷ [])) manifest
is_no_op_diff-IsConverged_example =
    is_no_op_diff-IsConverged (catalog (codes "dc.view" ∷ [])) manifest

converged :
    is_no_op_diff
      (to_manifest_diff (compute_manifest_plan (catalog (codes "dc.view" ∷ [])) manifest))
    ≡ true
unfolding is_no_op_diff to_manifest_diff compute_manifest_plan ◌==◌ distinct sort includes
converged = refl

unmapped_gate :
    is_no_op_diff
      (to_manifest_diff (compute_manifest_plan (catalog (codes "dc.edit" ∷ [])) manifest))
    ≡ false
unfolding is_no_op_diff to_manifest_diff compute_manifest_plan ◌==◌ distinct sort includes
unmapped_gate = refl
