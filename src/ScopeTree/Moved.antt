-- ===== src/ScopeTree/Moved.antt =====
-- The rows after an update of each row, and after a move.
use mathlib.Core.List.{Memᴰ}
use mathlib.Core.Path.{subst}
use plant_ops.Prelude.{
  ℕ, ◌+◌, ◌-◌, ◌≤◌, Text, ◌==◌, eq_iff, Bool, true, false, List, [], ◌∷◌, ◌++◌, Option, none, some,
  map, ◌≡◌, ◌≢◌, refl, sym, ap, ◌∙◌, inl, inr, arith, Bool-cases, length, length-append,
  if◌then◌else◌, Memᴰ-map, Memᴰ-map_intro, filter, Memᴰ-filter_intro, drop,
}
use plant_ops.Scope.{
  separator, is_within, scope_path_label, root_path, child_path, path_depth, max_scope_tree_depth,
}
use plant_ops.Scope.Labels.{labels}
use plant_ops.Scope.Within.{is_within_refl, is_within_trans}
use plant_ops.Scope.Moves.{length-split-pos}
use plant_ops.Scope.Subtree.{length-drop}
use plant_ops.ScopeTree.{ScopeNodeRow, is_under, moved_path, moved_row, max_depth, height_under}
use plant_ops.ScopeTree.Shape.{IsPlaced, IsTree}
use plant_ops.ScopeTree.Labelled.{
  labels-child_path, labels-root_path, snoc_last, within_child, child_within, within_root,
  labels-moved_path, moved_path-child_path, moved_path_self,
}

-- An update that keeps ids and clients, makes no root, and puts every row in its place.
pub IsTree-map :
    (f : ScopeNodeRow → ScopeNodeRow) (nodes : List ScopeNodeRow)
    → ((r : ScopeNodeRow) → (f r).id ≡ r.id)
    → ((r : ScopeNodeRow) → (f r).client_id ≡ r.client_id)
    → ((r : ScopeNodeRow) → (f r).parent_id ≡ none → r.parent_id ≡ none)
    → ((r : ScopeNodeRow) → Memᴰ r nodes → IsPlaced (map f nodes) (f r) (f r).parent_id)
    → ((r : ScopeNodeRow) → Memᴰ r nodes → path_depth (f r).path ≤ max_scope_tree_depth)
    → IsTree nodes
    → IsTree (map f nodes)
IsTree-map f nodes ids clients roots placed shallow t = record {
  placed = λ r' m.
      let (r, n, e) = Memᴰ-map f nodes m in
      subst (λ x. IsPlaced (map f nodes) x x.parent_id) (sym e) (placed r n);
  shallow = λ r' m.
      let (r, n, e) = Memᴰ-map f nodes m in
      subst (λ x. path_depth (ScopeNodeRow.path x) ≤ max_scope_tree_depth) (sym e) (shallow r n);
  clean =
      λ r' m. let (r, n, e) = Memᴰ-map f nodes m in rw (ap ScopeNodeRow.id e ∙ ids r) (t.clean r n);
  labelled = λ r' q' m k h.
      let (r, n, e) = Memᴰ-map f nodes m in
      let (q, o, g) = Memᴰ-map f nodes k in
      let h' : scope_path_label r.id ≡ scope_path_label q.id =
        ap scope_path_label (sym (ap ScopeNodeRow.id e ∙ ids r))
        ∙ h
        ∙ ap scope_path_label (ap ScopeNodeRow.id g ∙ ids q) in
      e ∙ ap f (t.labelled r q n o h') ∙ sym g;
  one_root = λ r' q' m k c a b.
      let (r, n, e) = Memᴰ-map f nodes m in
      let (q, o, g) = Memᴰ-map f nodes k in
      let c' : r.client_id ≡ q.client_id =
        sym (ap ScopeNodeRow.client_id e ∙ clients r)
        ∙ c
        ∙ ap ScopeNodeRow.client_id g
        ∙ clients q in
      e
      ∙ ap f (
          t.one_root r q n o c' (roots r (sym (ap ScopeNodeRow.parent_id e) ∙ a))
            (roots q (sym (ap ScopeNodeRow.parent_id g) ∙ b)))
      ∙ sym g;
}

module _ (nodes : List ScopeNodeRow) (t : IsTree nodes) where
  ends_of :
      (r : ScopeNodeRow) (o : Option Text)
      → Memᴰ r nodes
      → IsPlaced nodes r o
      → (before : List Text) × (labels r.path ≡ before ++ scope_path_label r.id ∷ [])
  ends_of r none m p = ([], ap labels p ∙ labels-root_path r.id (t.clean r m))
  ends_of r (some parent_id) m (q, _, _, _, p) =
      (labels q.path, ap labels p ∙ labels-child_path q.path r.id (t.clean r m))

  -- A path ends in the label of its row.
  pub ends_in :
      (r : ScopeNodeRow)
      → Memᴰ r nodes
      → (before : List Text) × (labels r.path ≡ before ++ scope_path_label r.id ∷ [])
  ends_in r m = ends_of r r.parent_id m (t.placed r m)

  pub path_inj : (r q : ScopeNodeRow) → Memᴰ r nodes → Memᴰ q nodes → r.path ≡ q.path → r ≡ q
  path_inj r q m n e =
      let (b, p) = ends_in r m in
      let (d, s) = ends_in q n in
      t.labelled r q m n
        (snoc_last b d (scope_path_label r.id) (scope_path_label q.id) (sym p ∙ ap labels e ∙ s))

max_depth-ge :
    (least : ℕ) (r : ScopeNodeRow) (nodes : List ScopeNodeRow)
    → Memᴰ r nodes
    → path_depth r.path ≤ max_depth least nodes
unfolding max_depth
max_depth-ge least r [] m = elim m [ ]
max_depth-ge least r (n ∷ nodes) (Memᴰ.head e) =
    let e' = ap (λ x. path_depth (ScopeNodeRow.path x)) e in ground arith
max_depth-ge least r (n ∷ nodes) (Memᴰ.tail m) = ground (arith, max_depth-ge least r nodes m)

module _ (nodes : List ScopeNodeRow) (t : IsTree nodes) (current parent : ScopeNodeRow)
    (mc : Memᴰ current nodes) (mp : Memᴰ parent nodes) (same : parent.client_id ≡ current.client_id)
    (apart : is_within parent.path current.path ≡ false)
    (allowed : path_depth parent.path + height_under current.client_id current.path nodes
      ≤ max_scope_tree_depth) where
  under : ScopeNodeRow → Bool
  under r = is_under current.client_id current.path r

  f : ScopeNodeRow → ScopeNodeRow
  f r = moved_row current parent r

  f_apart : (r : ScopeNodeRow) → under r ≡ false → f r ≡ r
  unfolding f under moved_row
  f_apart r e = rw e refl

  went : ScopeNodeRow → ScopeNodeRow
  went r = record r {
    path = moved_path current.path parent.path r.path;
    parent_id = if r.id == current.id then some parent.id else r.parent_id;
  }

  f_below : (r : ScopeNodeRow) → under r ≡ true → f r ≡ went r
  unfolding f under went moved_row
  f_below r e = rw e refl

  f_id : (r : ScopeNodeRow) → (f r).id ≡ r.id
  unfolding went
  f_id r = elim (Bool-cases (under r)) [
    | inl e ↦ ap ScopeNodeRow.id (f_below r e)
    | inr e ↦ ap ScopeNodeRow.id (f_apart r e)
  ]

  f_client_id : (r : ScopeNodeRow) → (f r).client_id ≡ r.client_id
  unfolding went
  f_client_id r = elim (Bool-cases (under r)) [
    | inl e ↦ ap ScopeNodeRow.client_id (f_below r e)
    | inr e ↦ ap ScopeNodeRow.client_id (f_apart r e)
  ]

  f_root : (r : ScopeNodeRow) → (f r).parent_id ≡ none → r.parent_id ≡ none
  unfolding went
  f_root r h = elim (Bool-cases (under r)) [
    | inr e ↦ sym (ap ScopeNodeRow.parent_id (f_apart r e)) ∙ h
    | inl e ↦
        let k : (if r.id == current.id then some parent.id else r.parent_id) ≡ none =
          sym (ap ScopeNodeRow.parent_id (f_below r e)) ∙ h in
        elim (Bool-cases (r.id == current.id)) [
          | inl g ↦ absurd (let z : some parent.id ≡ none = rw g at k in ground (arith, z))
          | inr g ↦ rw g at k
        ]
  ]

  under_iff :
      (r : ScopeNodeRow) → r.client_id ≡ current.client_id → under r ≡ is_within r.path current.path
  unfolding under is_under
  under_iff r e = ground (arith, (eq_iff r.client_id current.client_id).1 e)

  client_of_below : (r : ScopeNodeRow) → under r ≡ true → r.client_id ≡ current.client_id
  unfolding under is_under
  client_of_below r h = (eq_iff r.client_id current.client_id).0 (ground (arith, h))

  parent_stays : f parent ≡ parent
  parent_stays = f_apart parent (under_iff parent same ∙ apart)

  -- A row outside the subtree keeps its place.
  stays :
      (r : ScopeNodeRow) (o : Option Text)
      → under r ≡ false
      → IsPlaced nodes r o
      → IsPlaced (map f nodes) r o
  stays r none u p = p
  stays r (some parent_id) u (q, m, i, c, p) = elim (Bool-cases (under q)) [
    | inr e ↦ (q, subst (λ x. Memᴰ x (map f nodes)) (f_apart q e) (Memᴰ-map_intro f m), i, c, p)
    | inl e ↦
        let k = client_of_below q e in
        let w : is_within r.path current.path ≡ true =
          is_within_trans r.path q.path current.path (rw p (child_within q.path r.id))
            (sym (under_iff q k) ∙ e) in
        let z : under r ≡ true = under_iff r (sym c ∙ k) ∙ w in
        absurd (let y : true ≡ false = sym z ∙ u in ground (arith, y))
  ]

  -- A row below the moved node keeps its parent.
  follows :
      (r : ScopeNodeRow) (o : Option Text)
      → Memᴰ r nodes
      → r ≢ current
      → under r ≡ true
      → IsPlaced nodes r o
      → IsPlaced (map f nodes) (went r) o
  unfolding went
  follows r none m n u p =
      let w : is_within (root_path r.id) current.path ≡ true =
        rw (← p) (sym (under_iff r (client_of_below r u)) ∙ u) in
      absurd (
        n (
          path_inj nodes t r current m mc
            (p ∙ sym (within_root r.id current.path (t.clean r m) w))))
  follows r (some parent_id) m n u (q, k, i, c, p) =
      let w : is_within (child_path q.path r.id) current.path ≡ true =
        rw (← p) (sym (under_iff r (client_of_below r u)) ∙ u) in
      elim (within_child q.path r.id current.path (t.clean r m) w) [
        | inr e ↦ absurd (n (path_inj nodes t r current m mc (p ∙ sym e)))
        | inl e ↦
            let uq : under q ≡ true = under_iff q (c ∙ client_of_below r u) ∙ e in
            let there : (f q).path ≡ moved_path current.path parent.path q.path =
              ap ScopeNodeRow.path (f_below q uq) in
            (
              f q,
              Memᴰ-map_intro f k,
              f_id q ∙ i,
              f_client_id q ∙ c,
              ap (moved_path current.path parent.path) p
                  ∙ moved_path-child_path current.path parent.path q.path r.id (t.clean r m) e
                  ∙ ap (λ x. child_path x r.id) (sym there),
            )
      ]

  went_placed :
      (r : ScopeNodeRow)
      → Memᴰ r nodes
      → under r ≡ true
      → IsPlaced (map f nodes) (went r) (went r).parent_id
  unfolding went
  went_placed r m u = elim (Bool-cases (r.id == current.id)) [
    | inl g ↦
        let same_row : r ≡ current =
          t.labelled r current m mc (ap scope_path_label ((eq_iff r.id current.id).0 g)) in
        let (before, ends) = ends_in nodes t r m in
        rw g (
          parent,
          subst (λ x. Memᴰ x (map f nodes)) parent_stays (Memᴰ-map_intro f mp),
          refl,
          same ∙ sym (client_of_below r u),
          ap (λ x. moved_path x parent.path r.path) (sym (ap ScopeNodeRow.path same_row))
              ∙ moved_path_self r.path parent.path r.id before (t.clean r m) ends
                  (is_within_refl r.path),
        )
    | inr g ↦
        let other : r ≢ current = λ e.
          let z : true ≡ false = sym ((eq_iff r.id current.id).1 (ap ScopeNodeRow.id e)) ∙ g in
          ground (arith, z) in
        rw g (follows r r.parent_id m other u (t.placed r m))
  ]

  f_placed : (r : ScopeNodeRow) → Memᴰ r nodes → IsPlaced (map f nodes) (f r) (f r).parent_id
  f_placed r m = elim (Bool-cases (under r)) [
    | inr e ↦
        subst (λ x. IsPlaced (map f nodes) x x.parent_id) (sym (f_apart r e))
          (stays r r.parent_id e (t.placed r m))
    | inl e ↦
        subst (λ x. IsPlaced (map f nodes) x x.parent_id) (sym (f_below r e)) (went_placed r m e)
  ]

  moved_depth :
      (r : ScopeNodeRow)
      → is_within r.path current.path ≡ true
      → path_depth r.path ≤ max_depth (path_depth current.path) (filter under nodes)
      → path_depth (moved_path current.path parent.path r.path) ≤ max_scope_tree_depth
  unfolding path_depth height_under under
  moved_depth r w h = omega (
    arith,
    allowed,
    ap length (labels-moved_path current.path parent.path r.path w),
    length-append (labels parent.path) (drop (length (labels current.path) - 1) (labels r.path)),
    length-drop (length (labels current.path) - 1) (labels r.path),
    length-split-pos separator current.path,
    h,
  )

  f_shallow : (r : ScopeNodeRow) → Memᴰ r nodes → path_depth (f r).path ≤ max_scope_tree_depth
  unfolding went
  f_shallow r m = elim (Bool-cases (under r)) [
    | inr e ↦ rw (f_apart r e) (t.shallow r m)
    | inl e ↦
        let w : is_within r.path current.path ≡ true =
          sym (under_iff r (client_of_below r e)) ∙ e in
        let height =
          max_depth-ge (path_depth current.path) r (filter under nodes)
            (Memᴰ-filter_intro under m e) in
        rw (f_below r e) (moved_depth r w height)
  ]

  pub IsTree-moved_row : IsTree (map (moved_row current parent) nodes)
  unfolding f
  IsTree-moved_row = IsTree-map f nodes f_id f_client_id f_root f_placed f_shallow t

-- A move changes no id and no client.
pub moved_row-id : (current parent r : ScopeNodeRow) → (moved_row current parent r).id ≡ r.id
unfolding moved_row
moved_row-id current parent r = elim (Bool-cases (is_under current.client_id current.path r)) [
  | inl e ↦ rw e refl
  | inr e ↦ rw e refl
]

pub moved_row-client_id :
    (current parent r : ScopeNodeRow) → (moved_row current parent r).client_id ≡ r.client_id
unfolding moved_row
moved_row-client_id current parent r =
    elim (Bool-cases (is_under current.client_id current.path r)) [
      | inl e ↦ rw e refl
      | inr e ↦ rw e refl
    ]
