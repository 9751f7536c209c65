-- ===== src/ScopeTree/Inserted.antt =====
-- A new node: what `create` makes of the tables.
use mathlib.Core.List.{Memᴰ}
use mathlib.Core.Path.{subst}
use plant_ops.Prelude.{
  ◌+◌, ◌≤◌, Text, ◌==◌, eq_iff, true, false, ◌&&◌, List, [], ◌∷◌, Option, none, some, any, ◌≡◌, ◌≢◌,
  refl, sym, ap, ◌∙◌, inl, inr, arith, Bool-cases, find-Memᴰ, any_of_Memᴰ, ◌⊎◌, length-append,
  length,
}
use plant_ops.Scope.{
  separator, scope_path_label, root_path, child_path, path_depth, max_scope_tree_depth,
  is_depth_allowed,
}
use plant_ops.Scope.Labels.{labels}
use plant_ops.Scope.Moves.{HasNo}
use plant_ops.Resolver.{RoleBinding}
use plant_ops.ScopeTree.{
  ScopeNodeKind, ScopeNodeRow, ScopeState, ScopeAudit, ScopeConflict, Result, ok, conflict,
  column_is_null, is_row, find_row, path_beneath, path_for_new_node, create,
}
use plant_ops.ScopeTree.Shape.{IsPlaced, IsTree}
use plant_ops.ScopeTree.Labelled.{labels-root_path, labels-child_path}

-- Every binding is anchored at a node of its client.
abbrev pub IsAnchored : List ScopeNodeRow → List RoleBinding → Type 0
IsAnchored nodes bindings =
    (rb : RoleBinding)
    → Memᴰ rb bindings
    → (n : ScopeNodeRow) × Memᴰ n nodes × (n.id ≡ rb.scope_node_id) × (n.client_id ≡ rb.client_id)

pub record IsSound (st : ScopeState) : Type 0 where
  pub tree : IsTree st.nodes
  pub anchored : IsAnchored st.nodes st.bindings

-- A new id: its label has no separator and is that of no row.
pub record IsFresh (id : Text) (nodes : List ScopeNodeRow) : Type 0 where
  pub clean : HasNo separator (scope_path_label id)
  pub unused : (r : ScopeNodeRow) → Memᴰ r nodes → scope_path_label r.id ≢ scope_path_label id

pub find_row-some :
    (cid id : Text) (nodes : List ScopeNodeRow) (r : ScopeNodeRow)
    → find_row cid id nodes ≡ some r
    → Memᴰ r nodes × (r.client_id ≡ cid) × (r.id ≡ id)
unfolding find_row is_row
find_row-some cid id nodes r h =
    let (p, m) = find-Memᴰ (is_row cid id) nodes r h in
    (m, (eq_iff r.client_id cid).0 (ground (arith, p)), (eq_iff r.id id).0 (ground (arith, p)))

pub ok-cases :
    {A : Type 0} (m : Result A) → ((a : A) × (m ≡ ok a)) ⊎ ((c : ScopeConflict) × (m ≡ conflict c))
ok-cases (ok a) = inl (a, refl)
ok-cases (conflict c) = inr (c, refl)

abbrev state_or : {A : Type 0} → ScopeState → Result (A × ScopeState) → ScopeState
state_or st (ok (a, st')) = st'
state_or st (conflict c) = st

pub ok_state :
    {A : Type 0} {a b : A} {st st' : ScopeState}
    → ◌≡◌ {A = Result (A × ScopeState)} (ok (a, st)) (ok (b, st'))
    → st ≡ st'
ok_state {A} {a} {b} {st} e = ap (state_or st) e

IsPlaced-cons :
    (row r : ScopeNodeRow) (nodes : List ScopeNodeRow) (o : Option Text)
    → IsPlaced nodes r o
    → IsPlaced (row ∷ nodes) r o
IsPlaced-cons row r nodes none p = p
IsPlaced-cons row r nodes (some parent_id) (q, m, a, b, c) = (q, Memᴰ.tail m, a, b, c)

-- A row put before a tree.
module _ (nodes : List ScopeNodeRow) (t : IsTree nodes) (row : ScopeNodeRow)
    (fresh : IsFresh row.id nodes) (placed : IsPlaced nodes row row.parent_id)
    (shallow : path_depth row.path ≤ max_scope_tree_depth)
    (no_root : (r : ScopeNodeRow)
      → Memᴰ r nodes
      → r.client_id ≡ row.client_id
      → row.parent_id ≡ none
      → r.parent_id ≢ none) where
  IsTree-cons : IsTree (row ∷ nodes)
  IsTree-cons = record {
    placed = placed';
    shallow = shallow';
    clean = clean';
    labelled = labelled';
    one_root = one_root';
  }
    where
      placed' : (r : ScopeNodeRow) → Memᴰ r (row ∷ nodes) → IsPlaced (row ∷ nodes) r r.parent_id
      placed' r (Memᴰ.head e) =
          subst (λ x. IsPlaced (row ∷ nodes) x x.parent_id) (sym e)
            (IsPlaced-cons row row nodes row.parent_id placed)
      placed' r (Memᴰ.tail m) = IsPlaced-cons row r nodes r.parent_id (t.placed r m)

      shallow' :
          (r : ScopeNodeRow) → Memᴰ r (row ∷ nodes) → path_depth r.path ≤ max_scope_tree_depth
      shallow' r (Memᴰ.head e) =
          subst (λ x. path_depth (ScopeNodeRow.path x) ≤ max_scope_tree_depth) (sym e) shallow
      shallow' r (Memᴰ.tail m) = t.shallow r m

      clean' : (r : ScopeNodeRow) → Memᴰ r (row ∷ nodes) → HasNo separator (scope_path_label r.id)
      clean' r (Memᴰ.head e) =
          subst (λ x. HasNo separator (scope_path_label (ScopeNodeRow.id x))) (sym e) fresh.clean
      clean' r (Memᴰ.tail m) = t.clean r m

      labelled' :
          (r q : ScopeNodeRow)
          → Memᴰ r (row ∷ nodes)
          → Memᴰ q (row ∷ nodes)
          → scope_path_label r.id ≡ scope_path_label q.id
          → r ≡ q
      labelled' r q (Memᴰ.head e) (Memᴰ.head g) h = e ∙ sym g
      labelled' r q (Memᴰ.head e) (Memᴰ.tail n) h =
          absurd (fresh.unused q n (sym h ∙ ap (λ x. scope_path_label (ScopeNodeRow.id x)) e))
      labelled' r q (Memᴰ.tail m) (Memᴰ.head g) h =
          absurd (fresh.unused r m (h ∙ ap (λ x. scope_path_label (ScopeNodeRow.id x)) g))
      labelled' r q (Memᴰ.tail m) (Memᴰ.tail n) h = t.labelled r q m n h

      one_root' :
          (r q : ScopeNodeRow)
          → Memᴰ r (row ∷ nodes)
          → Memᴰ q (row ∷ nodes)
          → r.client_id ≡ q.client_id
          → r.parent_id ≡ none
          → q.parent_id ≡ none
          → r ≡ q
      one_root' r q (Memᴰ.head e) (Memᴰ.head g) c a b = e ∙ sym g
      one_root' r q (Memᴰ.head e) (Memᴰ.tail n) c a b = absurd (
          no_root q n (sym c ∙ ap ScopeNodeRow.client_id e) (sym (ap ScopeNodeRow.parent_id e) ∙ a)
            b)
      one_root' r q (Memᴰ.tail m) (Memᴰ.head g) c a b =
          absurd (
            no_root r m (c ∙ ap ScopeNodeRow.client_id g) (sym (ap ScopeNodeRow.parent_id g) ∙ b) a)
      one_root' r q (Memᴰ.tail m) (Memᴰ.tail n) c a b = t.one_root r q m n c a b

path_beneath-ok :
    (id path : Text) (o : Option ScopeNodeRow)
    → path_beneath id o ≡ ok path
    → (q : ScopeNodeRow) × (o ≡ some q)
      × (path ≡ child_path q.path id)
      × (path_depth q.path + 1 ≤ max_scope_tree_depth)
unfolding path_beneath is_depth_allowed
path_beneath-ok id path none h = absurd (ground (arith, h))
path_beneath-ok id path (some q) h = elim (Bool-cases (is_depth_allowed (path_depth q.path + 1))) [
  | inr e ↦
      absurd (let k : conflict ScopeConflict.too_deep ≡ ok path = rw e at h in ground (arith, k))
  | inl e ↦
      let k : ok (child_path q.path id) ≡ ok path = rw e at h in
      (q, refl, ground (arith, k), ground (arith, e))
]

path_for_new_node-ok :
    (cid id path : Text) (o : Option Text) (nodes : List ScopeNodeRow)
    → path_for_new_node cid id o nodes ≡ ok path
    → (row : ScopeNodeRow) → row.id ≡ id
    → row.client_id ≡ cid
    → row.path ≡ path
    → IsTree nodes
    → HasNo separator (scope_path_label id)
    → IsPlaced nodes row o
      × (path_depth row.path ≤ max_scope_tree_depth)
      × ((r : ScopeNodeRow)
          → Memᴰ r nodes
          → r.client_id ≡ row.client_id
          → o ≡ none
          → r.parent_id ≢ none)
unfolding path_for_new_node path_depth
path_for_new_node-ok cid id path none nodes h row i c p t clean =
    elim (Bool-cases (any (λ n. n.client_id == cid && column_is_null n.parent_id) nodes)) [
      | inl e ↦
          absurd
            (let k : conflict ScopeConflict.second_root ≡ ok path = rw e at h in ground (arith, k))
      | inr e ↦
          let k : ok (root_path id) ≡ ok path = rw e at h in
          let q : root_path id ≡ path = ground (arith, k) in
          (
            p ∙ sym q ∙ ap root_path (sym i),
            rw (p ∙ sym q) (omega (arith, ap length (labels-root_path id clean))),
            λ r m d o n.
                let found =
                  any_of_Memᴰ (λ n. n.client_id == cid && column_is_null n.parent_id) m
                    (rw n (ground (arith, (eq_iff r.client_id cid).1 (d ∙ c)))) in
                let z : true ≡ false = sym found ∙ e in ground (arith, z),
          )
    ]
path_for_new_node-ok cid id path (some parent_id) nodes h row i c p t clean =
    let (q, f, e, d) = path_beneath-ok id path (find_row cid parent_id nodes) h in
    let (m, qc, qi) = find_row-some cid parent_id nodes q f in
    (
      (q, m, qi, qc ∙ sym c, p ∙ e ∙ ap (child_path q.path) (sym i)),
      rw (p ∙ e) (
          omega (
            arith,
            ap length (labels-child_path q.path id clean),
            length-append (labels q.path) (scope_path_label id ∷ []),
            d,
          )),
      λ r n k o. absurd (ground (arith, o)),
    )

IsAnchored-cons :
    (row : ScopeNodeRow) (nodes : List ScopeNodeRow) (bindings : List RoleBinding)
    → IsAnchored nodes bindings
    → IsAnchored (row ∷ nodes) bindings
IsAnchored-cons row nodes bindings a rb m = let (n, k, i, c) = a rb m in (n, Memᴰ.tail k, i, c)

pub create-IsSound :
    (cid id : Text) (parent_id : Option Text) (kind : ScopeNodeKind) (name : Text)
    (st st' : ScopeState) (row : ScopeNodeRow)
    → create cid id parent_id kind name st ≡ ok (row, st')
    → IsFresh id st.nodes
    → IsSound st
    → IsSound st'
unfolding create
create-IsSound cid id parent_id kind name st st' row h fresh s =
    elim (ok-cases (path_for_new_node cid id parent_id st.nodes)) [
      | inr (c, e) ↦ absurd (let k : conflict c ≡ ok (row, st') = rw e at h in ground (arith, k))
      | inl (path, e) ↦
          let node : ScopeNodeRow = record {
            id = id;
            client_id = cid;
            parent_id = parent_id;
            kind = kind;
            name = name;
            path = path;
          } in
          let k : ok (
            node,
            record st {
              nodes = node ∷ st.nodes;
              audit = ScopeAudit.created id path parent_id ∷ st.audit;
            },
          )
              ≡ ok (row, st') =
            rw e at h in
          let (placed, shallow, no_root) =
            path_for_new_node-ok cid id path parent_id st.nodes e node refl refl refl s.tree
              fresh.clean in
          subst IsSound (ok_state k) (record {
            tree = IsTree-cons st.nodes s.tree node fresh placed shallow no_root;
            anchored = IsAnchored-cons node st.nodes st.bindings s.anchored;
          })
    ]
