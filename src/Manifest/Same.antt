-- ===== src/Manifest/Same.antt =====
-- When a stored row is the declared one, and when its gates are.
use plant_ops.Prelude.{
  Text, codes, eq_iff, Bool, true, not, ◌&&◌, List, [], ◌∷◌, ◌≡◌, ◌↔◌, refl, sym, ◌∙◌, arith,
  is_empty, filter, includes, distinct, includes-sort, includes-distinct, includes-filter, =?_iff,
  or_default,
}
use mathlib.Core.List.{Memᴰ}
use mathlib.Core.Path.{subst}
use plant_ops.Manifest.{
  CatalogPermission, CatalogNavNode, CurrentCatalog, DesiredNavNode, ManifestPermission,
  permission_changes, nav_changes,
}
use plant_ops.Manifest.Plan.{mapped, unmapped, to_map, to_unmap, change_of}
use plant_ops.Manifest.Lists.{
  is_empty-append, push_unless-empty_iff, nothing-empty_iff, is_empty_iff, is_empty-change_of,
  same_option_iff, same_bool_iff, same_kind_iff,
}

-- A stored permission is the declared one, and active.
pub record IsSamePermission (permission : ManifestPermission) (row : CatalogPermission)
    : Type 0 where
  pub name : permission.name ≡ row.name
  pub description : permission.description ≡ row.description
  pub is_active : row.is_active ≡ true

pub record IsSameNode (node : DesiredNavNode) (row : CatalogNavNode) : Type 0 where
  pub kind : node.kind ≡ row.kind
  pub label : node.label ≡ row.label
  pub route : node.route ≡ row.route
  pub icon : node.icon ≡ row.icon
  pub sort_order : node.sort_order ≡ row.sort_order
  pub is_public : node.is_public ≡ row.is_public
  pub parent_key : node.parent_key ≡ row.parent_key
  pub is_active : row.is_active ≡ true

pub permission_changes-empty_iff :
    (permission : ManifestPermission) (row : CatalogPermission)
    → (is_empty (permission_changes permission row) ≡ true) ↔ IsSamePermission permission row
unfolding permission_changes
permission_changes-empty_iff permission row =
    let fields = push_unless-empty_iff _ _ _ (eq_iff permission.name row.name) (
      push_unless-empty_iff _ _ _ (same_option_iff permission.description row.description) (
        push_unless-empty_iff row.is_active (codes "is_active") [] ((λ h. h), λ h. h)
          nothing-empty_iff)) in
    (
      (λ h.
          let (n, (d, (a, u))) = fields.0 h in record { name = n; description = d; is_active = a }),
      λ s. fields.1 (s.name, (s.description, (s.is_active, tt))),
    )

pub nav_changes-empty_iff :
    (node : DesiredNavNode) (row : CatalogNavNode)
    → (is_empty (nav_changes node row) ≡ true) ↔ IsSameNode node row
unfolding nav_changes
nav_changes-empty_iff node row =
    let fields = push_unless-empty_iff _ _ _ (same_kind_iff node.kind row.kind) (
      push_unless-empty_iff _ _ _ (eq_iff node.label row.label) (
        push_unless-empty_iff _ _ _ (same_option_iff node.route row.route) (
          push_unless-empty_iff _ _ _ (same_option_iff node.icon row.icon) (
            push_unless-empty_iff _ _ _ (=?_iff node.sort_order row.sort_order) (
              push_unless-empty_iff _ _ _ (same_bool_iff node.is_public row.is_public) (
                push_unless-empty_iff _ _ _ (same_option_iff node.parent_key row.parent_key) (
                  push_unless-empty_iff row.is_active (codes "is_active") [] ((λ h. h), λ h. h)
                    nothing-empty_iff))))))) in
    (
      (λ h.
          let (k, (l, (r, (i, (o, (p, (q, (a, u)))))))) = fields.0 h in
          record {
            kind = k;
            label = l;
            route = r;
            icon = i;
            sort_order = o;
            is_public = p;
            parent_key = q;
            is_active = a;
          }),
      λ s. fields.1 (
        s.kind,
        (
          s.label,
          (s.route, (s.icon, (s.sort_order, (s.is_public, (s.parent_key, (s.is_active, tt)))))),
        ),
      ),
    )

-- The stored gates of a node are the declared ones, as sets.
abbrev pub HasSameGates : CurrentCatalog → DesiredNavNode → Type 0
HasSameGates current node =
    (key : Text)
    → includes node.requires key ≡ includes (or_default (current.mappings node.key) []) key

gates-empty_iff :
    (current : CurrentCatalog) (node : DesiredNavNode)
    → ((is_empty (to_map current node) && is_empty (to_unmap current node)) ≡ true)
      ↔ HasSameGates current node
gates-empty_iff current node =
    let stored : List Text = or_default (current.mappings node.key) [] in
    let new_keys : Text → Bool = λ k. not (includes (distinct stored) k) in
    let old_keys : Text → Bool = λ k. not (includes node.requires k) in
    (
      (λ h k. ground (
        arith,
        h,
        (is_empty_iff (to_map current node)).0 (ground (arith, h)) k,
        includes-filter new_keys node.requires k,
        (is_empty_iff (to_unmap current node)).0 (ground (arith, h)) k,
        includes-sort (filter old_keys (distinct stored)) k,
        includes-filter old_keys (distinct stored) k,
        includes-distinct stored k,
      )),
      λ same.
          let a : is_empty (to_map current node) ≡ true =
            (is_empty_iff (to_map current node)).1 λ k.
              includes-filter new_keys node.requires k
              ∙ ground (arith, same k, includes-distinct stored k) in
          let b : is_empty (to_unmap current node) ≡ true =
            (is_empty_iff (to_unmap current node)).1 λ k.
              includes-sort (filter old_keys (distinct stored)) k
              ∙ includes-filter old_keys (distinct stored) k
              ∙ ground (arith, same k, includes-distinct stored k) in
          ground (arith, a, b),
    )

pub mappings-empty_iff :
    (current : CurrentCatalog) (nodes : List DesiredNavNode)
    → ((is_empty (mapped current nodes) && is_empty (unmapped current nodes)) ≡ true)
      ↔ ((node : DesiredNavNode) → Memᴰ node nodes → HasSameGates current node)
unfolding mapped unmapped
mappings-empty_iff current [] = ((λ h node m. elim m [ ]), λ h. refl)
mappings-empty_iff current (x ∷ xs) =
    let a = is_empty-append (change_of x.key (to_map current x)) (mapped current xs) in
    let b = is_empty-change_of x.key (to_map current x) in
    let c = is_empty-append (change_of x.key (to_unmap current x)) (unmapped current xs) in
    let d = is_empty-change_of x.key (to_unmap current x) in
    let here = gates-empty_iff current x in
    let later = mappings-empty_iff current xs in
    let whole : (is_empty (mapped current (x ∷ xs)) && is_empty (unmapped current (x ∷ xs))) ≡ (
        (is_empty (to_map current x) && is_empty (to_unmap current x))
        && (is_empty (mapped current xs) && is_empty (unmapped current xs))) =
      ground (arith, a, b, c, d) in
    (
      (λ h node m.
          here_or_later m (here.0 (ground (arith, whole, h)))
            (later.0 (ground (arith, whole, h)) node)),
      λ same.
          whole
          ∙ ground (
            arith,
            here.1 (same x (Memᴰ.head refl)),
            later.1 (λ node m. same node (Memᴰ.tail m)),
          ),
    )
  where
    here_or_later :
        {node x : DesiredNavNode} {xs : List DesiredNavNode}
        → Memᴰ node (x ∷ xs)
        → HasSameGates current x
        → (Memᴰ node xs → HasSameGates current node)
        → HasSameGates current node
    here_or_later (Memᴰ.head e) s k = subst (HasSameGates current) (sym e) s
    here_or_later (Memᴰ.tail m) s k = k m
