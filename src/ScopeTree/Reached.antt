-- ===== src/ScopeTree/Reached.antt =====
-- What holds of the tables that the service's operations reach.
use mathlib.Core.List.{Memᴰ}
use mathlib.Core.Path.{subst}
use plant_ops.Prelude.{
  ℕ, zero, suc, ◌≤◌, Text, ◌==◌, eq_iff, eq_refl, Bool, true, false, not, ◌&&◌, List, [], ◌∷◌,
  Option, none, some, any, filter, ◌≡◌, ◌↔◌, refl, sym, ap, ◌∙◌, inl, inr, arith, Bool-cases,
  any_of_Memᴰ, Memᴰ-filter, Memᴰ-filter_intro, length, length-append, column_is,
}
use plant_ops.Scope.{is_within, scope_path_label, path_depth, child_path}
use plant_ops.Scope.Within.{is_within_refl, is_within_trans}
use plant_ops.Scope.Moves.{length-split-pos}
use plant_ops.Scope.Labels.{labels}
use plant_ops.Resolver.{RoleBinding}
use plant_ops.ScopeTree.{
  ScopeNodeKind, ScopeNodeRow, ScopeState, ScopeConflict, ok, conflict, is_row, find_row, create,
  update, remove_found, remove,
}
use plant_ops.ScopeTree.Shape.{IsPlaced, IsTree}
use plant_ops.ScopeTree.Labelled.{within_child, child_within, within_root, labels-child_path}
use plant_ops.ScopeTree.Moved.{path_inj}
use plant_ops.ScopeTree.Inserted.{IsSound, IsAnchored, IsFresh, ok_state, create-IsSound}
use plant_ops.ScopeTree.Kept.{update-IsSound}

module _ (cid id : Text) (nodes : List ScopeNodeRow) (t : IsTree nodes)
    (childless : any (λ c. c.client_id == cid && column_is c.parent_id id) nodes ≡ false) where
  stays : ScopeNodeRow → Bool
  stays n = not (is_row cid id n)

  is_row_parts : (r : ScopeNodeRow) → is_row cid id r ≡ true → (r.client_id ≡ cid) × (r.id ≡ id)
  unfolding is_row
  is_row_parts r h =
      ((eq_iff r.client_id cid).0 (ground (arith, h)), (eq_iff r.id id).0 (ground (arith, h)))

  stays_placed :
      (r : ScopeNodeRow) (o : Option Text)
      → Memᴰ r nodes
      → r.parent_id ≡ o
      → IsPlaced nodes r o
      → IsPlaced (filter stays nodes) r o
  unfolding stays
  stays_placed r none m e p = p
  stays_placed r (some parent_id) m e (q, k, i, c, p) = elim (Bool-cases (is_row cid id q)) [
    | inr f ↦ (q, Memᴰ-filter_intro stays k (ap not f), i, c, p)
    | inl f ↦
        let (qc, qi) = is_row_parts q f in
        let parent : r.parent_id ≡ some id = e ∙ ap some (sym i ∙ qi) in
        let child =
          any_of_Memᴰ (λ c. c.client_id == cid && column_is c.parent_id id) m
            (rw parent (ground (arith, (eq_iff r.client_id cid).1 (sym c ∙ qc), eq_refl id))) in
        absurd (let z : true ≡ false = sym child ∙ childless in ground (arith, z))
  ]

  kept : (r : ScopeNodeRow) → Memᴰ r (filter stays nodes) → Memᴰ r nodes
  kept r m = (Memᴰ-filter stays nodes m).0

  IsTree-filter : IsTree (filter stays nodes)
  IsTree-filter = record {
    placed = λ r m. stays_placed r r.parent_id (kept r m) refl (t.placed r (kept r m));
    shallow = λ r m. t.shallow r (kept r m);
    clean = λ r m. t.clean r (kept r m);
    labelled = λ r q m n e. t.labelled r q (kept r m) (kept q n) e;
    one_root = λ r q m n c a b. t.one_root r q (kept r m) (kept q n) c a b;
  }

  IsAnchored-filter :
      (bindings : List RoleBinding)
      → any (λ rb. rb.client_id == cid && rb.scope_node_id == id) bindings ≡ false
      → IsAnchored nodes bindings
      → IsAnchored (filter stays nodes) bindings
  unfolding stays
  IsAnchored-filter bindings unbound a rb m =
      let (n, k, i, c) = a rb m in
      elim (Bool-cases (is_row cid id n)) [
        | inr f ↦ (n, Memᴰ-filter_intro stays k (ap not f), i, c)
        | inl f ↦
            let (nc, ni) = is_row_parts n f in
            let bound =
              any_of_Memᴰ (λ (rb : RoleBinding). rb.client_id == cid && rb.scope_node_id == id) m
                (ground (
                  arith,
                  (eq_iff rb.client_id cid).1 (sym c ∙ nc),
                  (eq_iff rb.scope_node_id id).1 (sym i ∙ ni),
                )) in
            absurd (let z : true ≡ false = sym bound ∙ unbound in ground (arith, z))
      ]

remove_found-IsSound :
    (cid id : Text) (o : Option ScopeNodeRow) (st st' : ScopeState) (done : Bool)
    → remove_found cid id o st ≡ ok (done, st')
    → IsSound st
    → IsSound st'
unfolding remove_found
remove_found-IsSound cid id none st st' done h s = subst IsSound (ok_state h) s
remove_found-IsSound cid id (some row) st st' done h s =
    elim (Bool-cases (any (λ c. c.client_id == cid && column_is c.parent_id id) st.nodes)) [
      | inl e ↦ absurd (
          let k : conflict ScopeConflict.has_children ≡ ok (done, st') = rw e at h in
          ground (arith, k))
      | inr e ↦
          elim (Bool-cases
            (any (λ rb. rb.client_id == cid && rb.scope_node_id == id) st.bindings)) [
              | inl f ↦ absurd (
                  let k : conflict ScopeConflict.has_bindings ≡ ok (done, st') = rw (e, f) at h in
                  ground (arith, k))
              | inr f ↦
                  unfold stays in
                  subst IsSound (ok_state (rw (e, f) at h)) (record {
                    tree = IsTree-filter cid id st.nodes s.tree e;
                    anchored = IsAnchored-filter cid id st.nodes s.tree e st.bindings f s.anchored;
                  })
            ]
    ]

-- The states that the operations reach: a conflict leaves the tables alone, so only successes step.
pub data Reached : ScopeState → Type 0 where
  start : (st : ScopeState) → IsSound st → Reached st
  creates :
      (cid id : Text) (parent_id : Option Text) (kind : ScopeNodeKind) (name : Text)
      (st st' : ScopeState) (row : ScopeNodeRow)
      → Reached st
      → IsFresh id st.nodes
      → create cid id parent_id kind name st ≡ ok (row, st')
      → Reached st'
  updates :
      (cid id : Text) (name parent_id : Option Text) (found : Option ScopeNodeRow)
      (st st' : ScopeState)
      → Reached st
      → update cid id name parent_id st ≡ ok (found, st')
      → Reached st'
  removes :
      (cid id : Text) (done : Bool) (st st' : ScopeState)
      → Reached st
      → remove cid id st ≡ ok (done, st')
      → Reached st'

-- From sound tables, any nodes created with new ids, and any renames, moves and removals, in any
-- order, leave sound tables: every row's path is its parent's path and its own label, in the same
-- client and at a depth of at most 32; a client has one root; every binding is anchored at a row.
pub Reached-IsSound : {st : ScopeState} → Reached st → IsSound st
unfolding remove
Reached-IsSound (start st s) = s
Reached-IsSound (creates cid id parent_id kind name st st' row r fresh h) =
    create-IsSound cid id parent_id kind name st st' row h fresh (Reached-IsSound r)
Reached-IsSound (updates cid id name parent_id found st st' r h) =
    update-IsSound cid id name parent_id found st st' h (Reached-IsSound r)
Reached-IsSound (removes cid id done st st' r h) =
    remove_found-IsSound cid id (find_row cid id st.nodes) st st' done h (Reached-IsSound r)

-- Following the parent column from one row leads to another.
pub data Descends (nodes : List ScopeNodeRow) : ScopeNodeRow → ScopeNodeRow → Type 0 where
  itself : (r m : ScopeNodeRow) → r ≡ m → Descends nodes r m
  through :
      (r q m : ScopeNodeRow)
      → Memᴰ q nodes
      → r.parent_id ≡ some q.id
      → Descends nodes q m
      → Descends nodes r m

module _ (nodes : List ScopeNodeRow) (t : IsTree nodes) where
  -- A row with a parent stands right below it.
  beneath_parent :
      (r q : ScopeNodeRow) (o : Option Text)
      → Memᴰ q nodes
      → o ≡ some q.id
      → IsPlaced nodes r o
      → r.path ≡ child_path q.path r.id
  beneath_parent r q none m e p = absurd (ground (arith, e))
  beneath_parent r q (some parent_id) m e (q', k, i, c, p) =
      let same : q' ≡ q =
        t.labelled q' q k m
          (ap scope_path_label (i ∙ (let z : parent_id ≡ q.id = ground (arith, e) in z))) in
      p ∙ ap (λ x. child_path (ScopeNodeRow.path x) r.id) same

  Descends-is_within :
      (r m : ScopeNodeRow) → Memᴰ r nodes → Descends nodes r m → is_within r.path m.path ≡ true
  Descends-is_within r m k (itself _ _ e) =
      subst (λ x. is_within r.path (ScopeNodeRow.path x) ≡ true) e (is_within_refl r.path)
  Descends-is_within r m k (through _ q _ n p d) =
      let below = beneath_parent r q r.parent_id n p (t.placed r k) in
      is_within_trans r.path q.path m.path (rw below (child_within q.path r.id))
        (Descends-is_within q m n d)

  climbs :
      (fuel : ℕ) (r m : ScopeNodeRow) (o : Option Text)
      → path_depth r.path ≤ fuel
      → Memᴰ r nodes
      → Memᴰ m nodes
      → r.parent_id ≡ o
      → IsPlaced nodes r o
      → is_within r.path m.path ≡ true
      → Descends nodes r m
  unfolding path_depth
  climbs zero r m o d k n e p w = absurd (omega (arith, d, length-split-pos b'.' r.path))
  climbs (suc fuel) r m none d k n e p w =
      itself r m
        (sym (path_inj nodes t m r n k (within_root r.id m.path (t.clean r k) (rw p at w) ∙ sym p)))
  climbs (suc fuel) r m (some parent_id) d k n e (q, l, i, c, p) w =
      elim (within_child q.path r.id m.path (t.clean r k) (rw p at w)) [
        | inr f ↦ itself r m (sym (path_inj nodes t m r n k (f ∙ sym p)))
        | inl f ↦ through r q m l (e ∙ ap some (sym i)) (
            climbs fuel q m q.parent_id
              (omega (
                arith,
                d,
                ap length (ap labels p ∙ labels-child_path q.path r.id (t.clean r k)),
                length-append (labels q.path) (scope_path_label r.id ∷ []),
              ))
              l n refl (t.placed q l) f)
      ]

-- In every state that the operations reach, one node's path lies within another's exactly when
-- following the parent column leads from the one to the other.
pub Reached-is_within_iff :
    {st : ScopeState} (reached : Reached st) (r m : ScopeNodeRow)
    → Memᴰ r st.nodes
    → Memᴰ m st.nodes
    → (is_within r.path m.path ≡ true) ↔ Descends st.nodes r m
Reached-is_within_iff {st} reached r m k n =
    let t = (Reached-IsSound reached).tree in
    (
      λ w.
          climbs st.nodes t (path_depth r.path) r m r.parent_id (omega arith) k n refl
            (t.placed r k) w,
      λ d. Descends-is_within st.nodes t r m k d,
    )
