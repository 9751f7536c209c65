-- ===== src/Resolver/Access.antt =====
-- What the resolution engine answers, against a description of access that mentions no query.
use mathlib.Core.List.{Memᴰ}
use plant_ops.Prelude.{
  ℕ, Text, ◌==◌, eq_iff, eq_refl, Bool, true, ◌&&◌, List, ◌≡◌, sym, ◌∙◌, ap, arith, Option, none,
  some, any, any-flat_map_elim, any-flat_map_intro, ◌↔◌, column_is,
}
use plant_ops.Scope.{is_within}
use plant_ops.Grants.{GrantRow, covers_path}
use plant_ops.Grants.Assembled.{row_covers, covers_path-assemble_grants}
use plant_ops.Resolver.{
  RoleBinding, ScopeNode, RolePermission, Permission, Application, ClientApplication, Tables,
  SubjectRef, subject_column, is_live, in_application, is_selected, is_joined, row_of,
  rows_of_application, rows_of_permission, rows_of_mapping, rows_of_node, rows_of_binding,
  grant_rows, resolve,
}

-- The six rows of a grant.
pub record Chain : Type 0 where
  pub binding : RoleBinding
  pub node : ScopeNode
  pub mapping : RolePermission
  pub permission : Permission
  pub application : Application
  pub enablement : ClientApplication

abbrev chain_from :
    RoleBinding → ScopeNode → RolePermission → Permission → Application → ClientApplication → Chain
chain_from rb sn rp p a ca = record {
  binding = rb;
  node = sn;
  mapping = rp;
  permission = p;
  application = a;
  enablement = ca;
}

column_is-some : (o : Option Text) (id : Text) → column_is o id ≡ true → o ≡ some id
column_is-some none id h = absurd (ground arith)
column_is-some (some x) id h = ap some ((eq_iff x id).0 h)

column_is_self : (o : Option Text) (id : Text) → o ≡ some id → column_is o id ≡ true
column_is_self o id h = ap (λ c. column_is c id) h ∙ eq_refl id

module _ (now : ℕ) (subject : SubjectRef) (application_id : Option Text) (key target : Text) where
  -- A chain that grants the key over the target: a live binding of the subject in the tenant, of a
  -- role that maps the active permission, of an active application that the tenant has enabled, at a
  -- node of the tenant at or above the target.
  pub record IsGrant (c : Chain) : Type 0 where
    pub tenant : c.binding.client_id ≡ subject.client_id
    pub who : subject_column subject.type c.binding ≡ some subject.id
    pub live : is_live c.binding.expires_at now ≡ true
    pub bound_node : c.node.id ≡ c.binding.scope_node_id
    pub node_tenant : c.node.client_id ≡ c.binding.client_id
    pub role : c.mapping.role_id ≡ c.binding.role_id
    pub mapped : c.permission.id ≡ c.mapping.permission_id
    pub permission_active : c.permission.is_active ≡ true
    pub owner : c.application.id ≡ c.permission.application_id
    pub application_active : c.application.is_active ≡ true
    pub enabled_for : c.enablement.client_id ≡ c.binding.client_id
    pub enabled_app : c.enablement.application_id ≡ c.permission.application_id
    pub enabled : c.enablement.enabled ≡ true
    pub slice : in_application application_id c.permission.application_id ≡ true
    pub key_eq : c.permission.key ≡ key
    pub covers : is_within target c.node.path ≡ true

  -- The test that a chain of rows yields a row that covers the target.
  unfoldable pub chain_covers : Chain → Bool
  chain_covers c = any (row_covers key target) (
      row_of now subject application_id c.binding c.node c.mapping c.permission c.application
        c.enablement)

  unfoldable pub chain_test : Chain → Bool
  unfolding is_selected is_joined
  chain_test c =
      is_joined c.binding c.node c.mapping c.permission c.application c.enablement
      && is_selected now subject application_id c.binding c.permission c.application c.enablement
      && c.permission.key == key
      && is_within target c.node.path

  chain_covers_lem :
      (c : Chain)
      → any (row_covers key target) (
          row_of now subject application_id c.binding c.node c.mapping c.permission c.application
            c.enablement)
        ≡ true
      → chain_covers c ≡ true
  unfolding chain_covers
  chain_covers_lem c h = h

  chain_covers-eq-chain_test : (c : Chain) → chain_covers c ≡ chain_test c
  unfolding chain_covers row_of
  chain_covers-eq-chain_test c = unfold chain_test in ground arith

  IsGrant-of_chain_test : (c : Chain) → chain_test c ≡ true → IsGrant c
  unfolding chain_test
  IsGrant-of_chain_test c h = record {
    tenant = (eq_iff _ _).0 (ground arith);
    who = column_is-some _ _ (ground arith);
    live = ground arith;
    bound_node = (eq_iff _ _).0 (ground arith);
    node_tenant = (eq_iff _ _).0 (ground arith);
    role = (eq_iff _ _).0 (ground arith);
    mapped = (eq_iff _ _).0 (ground arith);
    permission_active = ground arith;
    owner = (eq_iff _ _).0 (ground arith);
    application_active = ground arith;
    enabled_for = (eq_iff _ _).0 (ground arith);
    enabled_app = (eq_iff _ _).0 (ground arith);
    enabled = ground arith;
    slice = ground arith;
    key_eq = (eq_iff _ _).0 (ground arith);
    covers = ground arith;
  }

  chain_test_of_IsGrant : (c : Chain) → IsGrant c → chain_test c ≡ true
  unfolding chain_test
  chain_test_of_IsGrant c g = ground (
    arith,
    (eq_iff _ _).1 g.tenant,
    column_is_self _ _ g.who,
    (eq_iff _ _).1 g.bound_node,
    (eq_iff _ _).1 g.node_tenant,
    (eq_iff _ _).1 g.role,
    (eq_iff _ _).1 g.mapped,
    (eq_iff _ _).1 g.owner,
    (eq_iff _ _).1 g.enabled_for,
    (eq_iff _ _).1 g.enabled_app,
    (eq_iff _ _).1 g.key_eq,
    g.live,
    g.permission_active,
    g.application_active,
    g.enabled,
    g.slice,
    g.covers,
  )

  -- The rows of the chain stand in the tables.
  pub record IsStored (t : Tables) (c : Chain) : Type 0 where
    pub binding : Memᴰ c.binding t.role_bindings
    pub node : Memᴰ c.node t.scope_nodes
    pub mapping : Memᴰ c.mapping t.role_permissions
    pub permission : Memᴰ c.permission t.permissions
    pub application : Memᴰ c.application t.applications
    pub enablement : Memᴰ c.enablement t.client_applications

  -- Who has which permission where.
  abbrev pub HasAccess : Tables → Type 0
  HasAccess t = (c : Chain) × IsStored t c × IsGrant c

  abbrev rows_cover : List GrantRow → Bool
  rows_cover rows = any (row_covers key target) rows

  module _ (t : Tables) where
    chain_of_rows : rows_cover (grant_rows now subject application_id t) ≡ true → HasAccess t
    unfolding grant_rows
    chain_of_rows h =
        let (rb, mb, h1) = any-flat_map_elim p (rows_of_binding now subject application_id t) _ h in
        let (sn, mn, h2) =
          any-flat_map_elim p (rows_of_node now subject application_id t rb) _ h1 in
        let (rp, mr, h3) =
          any-flat_map_elim p (rows_of_mapping now subject application_id t rb sn) _ h2 in
        let (pm, mp, h4) =
          any-flat_map_elim p (rows_of_permission now subject application_id t rb sn rp) _ h3 in
        let (a, ma, h5) =
          any-flat_map_elim p (rows_of_application now subject application_id t rb sn rp pm) _ h4 in
        let (ca, mc, h6) =
          any-flat_map_elim p (row_of now subject application_id rb sn rp pm a) _ h5 in
        (
          chain_from rb sn rp pm a ca,
          record {
            binding = mb;
            node = mn;
            mapping = mr;
            permission = mp;
            application = ma;
            enablement = mc;
          },
          IsGrant-of_chain_test (chain_from rb sn rp pm a ca) (
              sym (chain_covers-eq-chain_test (chain_from rb sn rp pm a ca))
              ∙ chain_covers_lem (chain_from rb sn rp pm a ca) h6),
        )
      where
        p : GrantRow → Bool
        p = row_covers key target

    rows_of_chain : HasAccess t → rows_cover (grant_rows now subject application_id t) ≡ true
    unfolding grant_rows chain_covers
    rows_of_chain (c, m, g) =
        any-flat_map_intro p (rows_of_binding now subject application_id t) m.binding (
          any-flat_map_intro p (rows_of_node now subject application_id t c.binding) m.node (
            any-flat_map_intro p (rows_of_mapping now subject application_id t c.binding c.node)
              m.mapping
              (any-flat_map_intro p
                (rows_of_permission now subject application_id t c.binding c.node c.mapping)
                m.permission
                (any-flat_map_intro p
                  (rows_of_application now subject application_id t c.binding c.node c.mapping
                    c.permission)
                  m.application
                  (any-flat_map_intro p
                    (row_of now subject application_id c.binding c.node c.mapping c.permission
                      c.application)
                    m.enablement (chain_covers-eq-chain_test c ∙ chain_test_of_IsGrant c g))))))
      where
        p : GrantRow → Bool
        p = row_covers key target

  -- The resolved grants admit a permission at a target path exactly when the tables hold a chain of
  -- rows that grants it there.
  pub covers_path-resolve :
      (t : Tables)
      → (covers_path (resolve now subject application_id t) key target ≡ true) ↔ HasAccess t
  unfolding resolve
  covers_path-resolve t =
      let rows = grant_rows now subject application_id t in
      (
        (λ h. chain_of_rows t (sym (covers_path-assemble_grants rows key target) ∙ h)),
        λ a. covers_path-assemble_grants rows key target ∙ rows_of_chain t a,
      )
