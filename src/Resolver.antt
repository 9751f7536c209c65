-- ===== src/Resolver.antt =====
-- The resolution query and `scopePathOf` of apps/iam-api/src/authz/resolver.service.ts, over the
-- rows of the tables that it joins. Row order is that of the joins; `now` is the database's clock.
pub mod Access
mod Tests
use plant_ops.Prelude.{
  ℕ, Text, ◌==◌, Bool, true, false, ◌&&◌, List, [], ◌∷◌, Option, none, some, ltb, if◌then◌else◌,
  flat_map, column_is, codes,
}
use plant_ops.Grants.{GrantRow, ResolvedGrants, assemble_grants, covers_path}

pub record RoleBinding : Type 0 where
  pub client_id : Text
  pub user_id : Option Text
  pub service_account_id : Option Text
  pub role_id : Text
  pub scope_node_id : Text
  pub expires_at : Option ℕ

pub record ScopeNode : Type 0 where
  pub id : Text
  pub client_id : Text
  pub path : Text

pub record RolePermission : Type 0 where
  pub role_id : Text
  pub permission_id : Text

pub record Permission : Type 0 where
  pub id : Text
  pub application_id : Text
  pub key : Text
  pub is_active : Bool

pub record Application : Type 0 where
  pub id : Text
  pub is_active : Bool

pub record ClientApplication : Type 0 where
  pub client_id : Text
  pub application_id : Text
  pub enabled : Bool

pub record Tables : Type 0 where
  pub role_bindings : List RoleBinding
  pub scope_nodes : List ScopeNode
  pub role_permissions : List RolePermission
  pub permissions : List Permission
  pub applications : List Application
  pub client_applications : List ClientApplication

pub data SubjectType : Type 0 where
  user service : SubjectType

abbrev pub type_name : SubjectType → Text
type_name SubjectType.user = codes "user"
type_name SubjectType.service = codes "service"

pub record SubjectRef : Type 0 where
  pub client_id : Text
  pub type : SubjectType
  pub id : Text

-- The column that `subjectColumn` names.
unfoldable pub subject_column : SubjectType → RoleBinding → Option Text
subject_column user rb = rb.user_id
subject_column service rb = rb.service_account_id

-- `expires_at is null or expires_at > now()`
abbrev pub is_live : Option ℕ → ℕ → Bool
is_live none now = true
is_live (some t) now = ltb now t

-- The optional filter on the application.
abbrev pub in_application : Option Text → Text → Bool
in_application none id = true
in_application (some a) id = id == a

-- The `on` clauses.
unfoldable pub is_joined :
    RoleBinding → ScopeNode → RolePermission → Permission → Application → ClientApplication → Bool
is_joined rb sn rp p a ca =
    sn.id == rb.scope_node_id
    && sn.client_id == rb.client_id
    && rp.role_id == rb.role_id
    && p.id == rp.permission_id
    && a.id == p.application_id
    && ca.client_id == rb.client_id
    && ca.application_id == p.application_id

module _ (now : ℕ) (subject : SubjectRef) (application_id : Option Text) where
  -- The `where` clause.
  unfoldable pub is_selected : RoleBinding → Permission → Application → ClientApplication → Bool
  unfolding subject_column
  is_selected rb p a ca =
      rb.client_id == subject.client_id
      && column_is (subject_column subject.type rb) subject.id
      && is_live rb.expires_at now
      && p.is_active
      && a.is_active
      && ca.enabled
      && in_application application_id p.application_id

  unfoldable pub row_of :
      RoleBinding
      → ScopeNode
      → RolePermission
      → Permission
      → Application
      → ClientApplication
      → List GrantRow
  unfolding is_selected is_joined
  row_of rb sn rp p a ca =
      if is_joined rb sn rp p a ca && is_selected rb p a ca
      then record { permission_key = p.key; scope_path = sn.path } ∷ []
      else []

  -- The joins, from the innermost out.
  module _ (t : Tables) where
    unfoldable pub rows_of_application :
        RoleBinding → ScopeNode → RolePermission → Permission → Application → List GrantRow
    unfolding row_of
    rows_of_application rb sn rp p a = flat_map (row_of rb sn rp p a) t.client_applications

    unfoldable pub rows_of_permission :
        RoleBinding → ScopeNode → RolePermission → Permission → List GrantRow
    unfolding rows_of_application
    rows_of_permission rb sn rp p = flat_map (rows_of_application rb sn rp p) t.applications

    unfoldable pub rows_of_mapping : RoleBinding → ScopeNode → RolePermission → List GrantRow
    unfolding rows_of_permission
    rows_of_mapping rb sn rp = flat_map (rows_of_permission rb sn rp) t.permissions

    unfoldable pub rows_of_node : RoleBinding → ScopeNode → List GrantRow
    unfolding rows_of_mapping
    rows_of_node rb sn = flat_map (rows_of_mapping rb sn) t.role_permissions

    unfoldable pub rows_of_binding : RoleBinding → List GrantRow
    unfolding rows_of_node
    rows_of_binding rb = flat_map (rows_of_node rb) t.scope_nodes

  unfoldable pub grant_rows : Tables → List GrantRow
  unfolding rows_of_binding
  grant_rows t = flat_map (rows_of_binding t) t.role_bindings

  unfoldable pub resolve : Tables → ResolvedGrants
  unfolding grant_rows
  resolve t = assemble_grants (grant_rows t)

-- The first row of the query of `scopePathOf`.
unfoldable pub scope_path_of : List ScopeNode → Text → Text → Option Text
scope_path_of [] client_id scope_node_id = none
scope_path_of (n ∷ ns) client_id scope_node_id =
    if n.client_id == client_id && n.id == scope_node_id
    then some n.path
    else scope_path_of ns client_id scope_node_id
