-- ===== src/ScopeTree/Tests.antt =====
-- A tree of three nodes, made, moved in and refused.
use mathlib.Core.List.{Memᴰ}
use plant_ops.Prelude.{codes, ◌==◌, true, [], ◌∷◌, none, some, ◌≡◌, ◌≢◌, ◌↔◌, refl, arith}
use mathlib.Core.Path.{ap, sym, ◌∙◌}
use plant_ops.Scope.{
  is_within, scope_path_label, path_depth, root_path, child_path, is_depth_allowed,
}
use plant_ops.ScopeTree.{
  ScopeNodeRow, group, plant, ScopeState, ScopeAudit, ok, conflict, beneath_itself, has_children,
  second_root, create, update, remove,
}
use plant_ops.ScopeTree.Inserted.{IsSound, IsFresh}
use plant_ops.ScopeTree.Reached.{
  Reached, start, creates, Descends, Reached-IsSound, Reached-is_within_iff,
}

abbrev empty : ScopeState
empty = record { nodes = []; bindings = []; audit = []; published = [] }

abbrev root : ScopeNodeRow
root = record {
  id = codes "a";
  client_id = codes "c";
  parent_id = none;
  kind = group;
  name = codes "Group";
  path = codes "n_a";
}

abbrev left : ScopeNodeRow
left = record {
  id = codes "b-1";
  client_id = codes "c";
  parent_id = some (codes "a");
  kind = plant;
  name = codes "Plant";
  path = codes "n_a.n_b1";
}

abbrev one : ScopeState
one = record empty {
  nodes = root ∷ [];
  audit = ScopeAudit.created (codes "a") (codes "n_a") none ∷ [];
}

abbrev two : ScopeState
two = record one {
  nodes = left ∷ root ∷ [];
  audit = ScopeAudit.created (codes "b-1") (codes "n_a.n_b1") (some (codes "a")) ∷ one.audit;
}

make_root : create (codes "c") (codes "a") none group (codes "Group") empty ≡ ok (root, one)
unfolding create ◌==◌ root_path
make_root = refl

make_left :
    create (codes "c") (codes "b-1") (some (codes "a")) plant (codes "Plant") one ≡ ok (left, two)
unfolding create ◌==◌ path_depth is_depth_allowed child_path
make_left = refl

refuses_second_root :
    create (codes "c") (codes "d") none group (codes "Other") two ≡ conflict second_root
unfolding create ◌==◌
refuses_second_root = refl

refuses_own_child :
    update (codes "c") (codes "a") none (some (codes "b-1")) two ≡ conflict beneath_itself
unfolding update ◌==◌ is_within
refuses_own_child = refl

refuses_parent : remove (codes "c") (codes "a") two ≡ conflict has_children
unfolding remove ◌==◌
refuses_parent = refl

empty-IsSound : IsSound empty
empty-IsSound = record {
  tree = record {
    placed = λ r m. elim m [ ];
    shallow = λ r m. elim m [ ];
    clean = λ r m. elim m [ ];
    labelled = λ r q m n e. elim m [ ];
    one_root = λ r q m n c a b. elim m [ ];
  };
  anchored = λ rb m. elim m [ ];
}

IsFresh-root : IsFresh (codes "a") empty.nodes
unfolding scope_path_label
IsFresh-root = record { clean = (refl, (refl, (refl, tt))); unused = λ r m. elim m [ ] }

Reached-one : Reached one
Reached-one =
    creates (codes "c") (codes "a") none group (codes "Group") empty one root
      (start empty empty-IsSound) IsFresh-root make_root

IsFresh-left : IsFresh (codes "b-1") one.nodes
unfolding scope_path_label
IsFresh-left = record { clean = (refl, (refl, (refl, (refl, tt)))); unused = unused }
  where
    unused :
        (r : ScopeNodeRow)
        → Memᴰ r one.nodes
        → scope_path_label r.id ≢ scope_path_label (codes "b-1")
    unused r (Memᴰ.head e) h =
        let k : codes "n_a" ≡ codes "n_b1" =
          sym (ap (λ x. scope_path_label (ScopeNodeRow.id x)) e) ∙ h in
        ground (arith, k)
    unused r (Memᴰ.tail m) h = elim m [ ]

Reached-two : Reached two
Reached-two =
    creates (codes "c") (codes "b-1") (some (codes "a")) plant (codes "Plant") one two left
      Reached-one IsFresh-left make_left

Reached-IsSound_example : IsSound two
Reached-IsSound_example = Reached-IsSound Reached-two

Reached-is_within_iff_example :
    (is_within left.path root.path ≡ true) ↔ Descends two.nodes left root
Reached-is_within_iff_example =
    Reached-is_within_iff Reached-two left root (Memᴰ.head refl) (Memᴰ.tail (Memᴰ.head refl))
