-- ===== src/Manifest.antt =====
-- Comparing an application manifest with the stored catalog:
-- apps/iam-api/src/registry/manifest-diff.ts. An absent optional field and `null` are both `none`, and
-- absent children are no children.
pub mod Plan
mod Lists
pub mod Same
pub mod Converged
mod Tests
use plant_ops.Prelude.{
  ℕ, suc, Text, codes, ◌==◌, Bool, true, false, not, ◌&&◌, ◌||◌, List, [], ◌∷◌, ◌++◌, Option, none,
  some, ◌=?◌, if◌then◌else◌, is_empty, filter, map, includes, distinct, sort, or_default,
  same_option,
}
use plant_ops.Navigation.{NavNodeKind, module_node, menu, sub_menu}

pub record CatalogApplication : Type 0 where
  pub key : Text
  pub name : Text
  pub description : Option Text

pub record CatalogPermission : Type 0 where
  pub key : Text
  pub name : Text
  pub description : Option Text
  pub is_active : Bool

pub record CatalogNavNode : Type 0 where
  pub key : Text
  pub kind : NavNodeKind
  pub label : Text
  pub route : Option Text
  pub icon : Option Text
  pub sort_order : ℕ
  pub is_public : Bool
  pub is_active : Bool
  pub parent_key : Option Text

pub record CurrentCatalog : Type 0 where
  pub application : CatalogApplication
  pub permissions : List CatalogPermission
  pub nav_nodes : List CatalogNavNode
  pub mappings : Text → Option (List Text)

pub record DesiredNavNode : Type 0 where
  pub key : Text
  pub kind : NavNodeKind
  pub label : Text
  pub route : Option Text
  pub icon : Option Text
  pub sort_order : ℕ
  pub is_public : Bool
  pub parent_key : Option Text
  pub requires : List Text

pub record ManifestPermission : Type 0 where
  pub key : Text
  pub name : Text
  pub description : Option Text

pub record NavFields : Type 0 where
  pub key : Text
  pub kind : NavNodeKind
  pub label : Text
  pub route : Option Text
  pub icon : Option Text
  pub sort_order : Option ℕ
  pub is_public : Option Bool
  pub requires : Option (List Text)

-- `ManifestNavNode[]`
pub data ManifestNav : Type 0 where
  nil : ManifestNav
  nav_node : NavFields → ManifestNav → ManifestNav → ManifestNav

pub record ApplicationManifest : Type 0 where
  pub name : Text
  pub description : Option Text
  pub permissions : List ManifestPermission
  pub nav : ManifestNav

pub record Update (Desired Current : Type 0) : Type 0 where
  pub desired : Desired
  pub current : Current
  pub changed : List Text

pub record EntityPlan (Desired Current : Type 0) : Type 0 where
  pub created : List Desired
  pub updated : List (Update Desired Current)
  pub deactivated : List Text

abbrev pub desired_node : NavFields → Option Text → ℕ → DesiredNavNode
desired_node f parent index = record {
  key = f.key;
  kind = f.kind;
  label = f.label;
  route = f.route;
  icon = f.icon;
  sort_order = or_default f.sort_order index;
  is_public = or_default f.is_public false;
  parent_key = parent;
  requires = distinct (or_default f.requires []);
}

-- `visit`, from an index on: a node, its children, and the nodes after it.
unfoldable pub visit : ManifestNav → Option Text → ℕ → List DesiredNavNode
visit nil parent index = []
visit (nav_node f children rest) parent index =
    desired_node f parent index ∷ visit children (some f.key) 0 ++ visit rest parent (suc index)

unfoldable pub flatten_manifest_nav : ManifestNav → List DesiredNavNode
unfolding visit
flatten_manifest_nav nav = visit nav none 0

abbrev pub same_bool : Bool → Bool → Bool
same_bool true b = b
same_bool false b = not b

abbrev pub same_kind : NavNodeKind → NavNodeKind → Bool
same_kind module_node module_node = true
same_kind menu menu = true
same_kind sub_menu sub_menu = true
same_kind _ _ = false

-- `if (!same) changed.push(name)`
abbrev pub push_unless : Bool → Text → List Text → List Text
push_unless same name changed = if same then changed else name ∷ changed

unfoldable pub plan_application : CatalogApplication → ApplicationManifest → List Text
plan_application current manifest =
    push_unless (manifest.name == current.name) (codes "name")
      (push_unless (same_option manifest.description current.description) (codes "description") [])

unfoldable pub permission_changes : ManifestPermission → CatalogPermission → List Text
permission_changes permission existing =
    push_unless (permission.name == existing.name) (codes "name") (
      push_unless (same_option permission.description existing.description) (codes "description")
        (push_unless existing.is_active (codes "is_active") []))

-- The `NAV_FIELDS` in their order, then `is_active`.
unfoldable pub nav_changes : DesiredNavNode → CatalogNavNode → List Text
nav_changes desired existing = push_unless (same_kind desired.kind existing.kind) (codes "kind") (
    push_unless (desired.label == existing.label) (codes "label") (
      push_unless (same_option desired.route existing.route) (codes "route") (
        push_unless (same_option desired.icon existing.icon) (codes "icon") (
          push_unless (desired.sort_order =? existing.sort_order) (codes "sort_order") (
            push_unless (same_bool desired.is_public existing.is_public) (codes "is_public") (
              push_unless (same_option desired.parent_key existing.parent_key) (codes "parent_key")
                (push_unless existing.is_active (codes "is_active") [])))))))
