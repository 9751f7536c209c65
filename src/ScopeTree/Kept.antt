-- ===== src/ScopeTree/Kept.antt =====
-- Every operation of the service keeps the trees, and keeps every binding anchored.
use mathlib.Core.List.{Memᴰ}
use mathlib.Core.Path.{subst}
use plant_ops.Prelude.{
  Text, ◌==◌, eq_refl, true, ◌||◌, List, [], ◌∷◌, ◌++◌, Option, none, some, map, ◌≡◌, refl, sym, ap,
  ◌∙◌, inl, inr, arith, Bool-cases, if◌then◌else◌, Memᴰ-map_intro, column_is,
}
use plant_ops.Scope.{
  root_path, child_path, separator, is_within, path_depth, is_depth_allowed, depth_after_move,
  starts_with,
}
use plant_ops.Resolver.{RoleBinding}
use plant_ops.ScopeTree.{
  ScopeNodeRow, ScopeState, ScopeConflict, ok, conflict, is_row, find_row, update_row, named,
  rename, moved_row, after_move, move_beneath, move, renamed_first, then_moved, update_found,
  update, height_under,
}
use plant_ops.ScopeTree.Shape.{IsPlaced, IsTree}
use plant_ops.ScopeTree.Moved.{IsTree-map, IsTree-moved_row, moved_row-id, moved_row-client_id}
use plant_ops.ScopeTree.Inserted.{IsSound, IsAnchored, find_row-some, ok-cases, ok_state}

IsAnchored-map :
    (f : ScopeNodeRow → ScopeNodeRow) (nodes : List ScopeNodeRow) (bindings : List RoleBinding)
    → ((r : ScopeNodeRow) → (f r).id ≡ r.id)
    → ((r : ScopeNodeRow) → (f r).client_id ≡ r.client_id)
    → IsAnchored nodes bindings
    → IsAnchored (map f nodes) bindings
IsAnchored-map f nodes bindings ids clients a rb m =
    let (n, k, i, c) = a rb m in (f n, Memᴰ-map_intro f k, ids n ∙ i, clients n ∙ c)

module _ (cid id name : Text) where
  g : ScopeNodeRow → ScopeNodeRow
  g n = if is_row cid id n then named name n else n

  g_id : (r : ScopeNodeRow) → (g r).id ≡ r.id
  unfolding g
  g_id r = elim (Bool-cases (is_row cid id r)) [ inl e ↦ rw e refl | inr e ↦ rw e refl ]

  g_client_id : (r : ScopeNodeRow) → (g r).client_id ≡ r.client_id
  unfolding g
  g_client_id r = elim (Bool-cases (is_row cid id r)) [ inl e ↦ rw e refl | inr e ↦ rw e refl ]

  g_parent_id : (r : ScopeNodeRow) → (g r).parent_id ≡ r.parent_id
  unfolding g
  g_parent_id r = elim (Bool-cases (is_row cid id r)) [ inl e ↦ rw e refl | inr e ↦ rw e refl ]

  g_path : (r : ScopeNodeRow) → (g r).path ≡ r.path
  unfolding g
  g_path r = elim (Bool-cases (is_row cid id r)) [ inl e ↦ rw e refl | inr e ↦ rw e refl ]

  g_placed :
      (nodes : List ScopeNodeRow) (r : ScopeNodeRow) (o : Option Text)
      → IsPlaced nodes r o
      → IsPlaced (map g nodes) (g r) o
  g_placed nodes r none p = g_path r ∙ p ∙ ap root_path (sym (g_id r))
  g_placed nodes r (some parent_id) (q, m, i, c, p) = (
    g q,
    Memᴰ-map_intro g m,
    g_id q ∙ i,
    g_client_id q ∙ c ∙ sym (g_client_id r),
    g_path r
        ∙ p
        ∙ ap (λ x. child_path x r.id) (sym (g_path q))
        ∙ ap (child_path (g q).path) (sym (g_id r)),
  )

  IsTree-update_row :
      (nodes : List ScopeNodeRow) → IsTree nodes → IsTree (update_row cid id (named name) nodes)
  unfolding update_row g
  IsTree-update_row nodes t =
      IsTree-map g nodes g_id g_client_id (λ r h. sym (g_parent_id r) ∙ h)
        (λ r m. rw (g_parent_id r) (g_placed nodes r r.parent_id (t.placed r m)))
        (λ r m. rw (g_path r) (t.shallow r m)) t

  IsAnchored-update_row :
      (nodes : List ScopeNodeRow) (bindings : List RoleBinding)
      → IsAnchored nodes bindings
      → IsAnchored (update_row cid id (named name) nodes) bindings
  unfolding update_row g
  IsAnchored-update_row nodes bindings a = IsAnchored-map g nodes bindings g_id g_client_id a

renamed_member :
    (current : ScopeNodeRow) (name : Text) (nodes : List ScopeNodeRow)
    → Memᴰ current nodes
    → Memᴰ (named name current) (update_row current.client_id current.id (named name) nodes)
unfolding update_row is_row
renamed_member current name nodes m =
    let itself : is_row current.client_id current.id current ≡ true =
      ground (arith, eq_refl current.client_id, eq_refl current.id) in
    subst (λ x. Memᴰ x (update_row current.client_id current.id (named name) nodes))
      (rw itself refl)
      (Memᴰ-map_intro (λ n. if is_row current.client_id current.id n then named name n else n) m)

-- The rename of `update` keeps the tables sound, and gives a row of theirs.
renamed_first-IsSound :
    (name : Option Text) (current : ScopeNodeRow) (st : ScopeState)
    → Memᴰ current st.nodes
    → IsSound st
    → IsSound (renamed_first name current st).1
      × Memᴰ (renamed_first name current st).0 (renamed_first name current st).1.nodes
      × ((renamed_first name current st).0.client_id ≡ current.client_id)
unfolding renamed_first rename
renamed_first-IsSound none current st m s = (s, m, refl)
renamed_first-IsSound (some name) current st m s = elim (Bool-cases (name == current.name)) [
  | inl e ↦ rw e (s, m, refl)
  | inr e ↦ rw e (
    record {
      tree = IsTree-update_row current.client_id current.id name st.nodes s.tree;
      anchored =
          IsAnchored-update_row current.client_id current.id name st.nodes st.bindings s.anchored;
    },
    renamed_member current name st.nodes m,
    refl,
  )
]

move_beneath-IsSound :
    (current : ScopeNodeRow) (o : Option ScopeNodeRow) (st st' : ScopeState) (row : ScopeNodeRow)
    → ((parent : ScopeNodeRow)
        → o ≡ some parent
        → Memᴰ parent st.nodes × (parent.client_id ≡ current.client_id))
    → move_beneath current o st ≡ ok (row, st')
    → Memᴰ current st.nodes
    → IsSound st
    → IsSound st'
unfolding move_beneath depth_after_move is_depth_allowed is_within
move_beneath-IsSound current none st st' row found h m s = absurd (ground (arith, h))
move_beneath-IsSound current (some parent) st st' row found h m s =
    let (mp, same) = found parent refl in
    elim (Bool-cases
      (parent.path == current.path || starts_with parent.path (current.path ++ separator ∷ []))) [
        | inl e ↦ absurd (
            let k : conflict ScopeConflict.beneath_itself ≡ ok (row, st') = rw e at h in
            ground (arith, k))
        | inr e ↦
            elim (Bool-cases (
              is_depth_allowed (
                depth_after_move (path_depth parent.path)
                  (height_under current.client_id current.path st.nodes)))) [
                    | inr f ↦ absurd (
                        let k : conflict ScopeConflict.too_deep ≡ ok (row, st') = rw (e, f) at h in
                        ground (arith, k))
                    | inl f ↦
                        let tree =
                          IsTree-moved_row st.nodes s.tree current parent m mp same e
                            (ground (arith, f)) in
                        let anchored =
                          IsAnchored-map (moved_row current parent) st.nodes st.bindings
                            (moved_row-id current parent) (moved_row-client_id current parent)
                            s.anchored in
                        let k : ok (after_move current parent st) ≡ ok (row, st') =
                          rw (e, f) at h in
                        unfold after_move in
                        subst IsSound (ok_state k) (record { tree = tree; anchored = anchored })
                  ]
      ]

then_moved-IsSound :
    (cid : Text) (o : Option Text) (current row : ScopeNodeRow) (st st' : ScopeState)
    → then_moved cid o (current, st) ≡ ok (row, st')
    → Memᴰ current st.nodes
    → current.client_id ≡ cid
    → IsSound st
    → IsSound st'
unfolding then_moved move
then_moved-IsSound cid none current row st st' h m c s = subst IsSound (ok_state h) s
then_moved-IsSound cid (some parent_id) current row st st' h m c s =
    elim (Bool-cases (column_is current.parent_id parent_id)) [
      | inl e ↦ let k : ok (current, st) ≡ ok (row, st') = rw e at h in subst IsSound (ok_state k) s
      | inr e ↦
          move_beneath-IsSound current (find_row cid parent_id st.nodes) st st' row
            (λ parent f.
              let (mp, pc, _) = find_row-some cid parent_id st.nodes parent f in (mp, pc ∙ sym c))
            (rw e at h) m s
    ]

update_found-IsSound :
    (cid : Text) (name parent_id : Option Text) (o found : Option ScopeNodeRow)
    (st st' : ScopeState)
    → ((r : ScopeNodeRow) → o ≡ some r → Memᴰ r st.nodes × (r.client_id ≡ cid))
    → update_found cid name parent_id o st ≡ ok (found, st')
    → IsSound st
    → IsSound st'
unfolding update_found
update_found-IsSound cid name parent_id none found st st' here h s = subst IsSound (ok_state h) s
update_found-IsSound cid name parent_id (some current) found st st' here h s =
    let (m, c) = here current refl in
    let (s1, m1, c1) = renamed_first-IsSound name current st m s in
    let first = renamed_first name current st in
    elim (ok-cases (then_moved cid parent_id first)) [
      | inr (x, e) ↦ absurd (let k : conflict x ≡ ok (found, st') = rw e at h in ground (arith, k))
      | inl ((row, st2), e) ↦
          let k : ok (some row, st2) ≡ ok (found, st') = rw e at h in
          subst IsSound (ok_state k)
            (then_moved-IsSound cid parent_id first.0 row first.1 st2 e m1 (c1 ∙ c) s1)
    ]

pub update-IsSound :
    (cid id : Text) (name parent_id : Option Text) (found : Option ScopeNodeRow)
    (st st' : ScopeState)
    → update cid id name parent_id st ≡ ok (found, st')
    → IsSound st
    → IsSound st'
unfolding update
update-IsSound cid id name parent_id found st st' h s =
    update_found-IsSound cid name parent_id (find_row cid id st.nodes) found st st'
      (λ r f. let (m, c, _) = find_row-some cid id st.nodes r f in (m, c)) h s
