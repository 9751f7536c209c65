-- ===== src/Scope/Tests.antt =====
-- Paths on small inputs.
use plant_ops.Prelude.{Text, codes, ◌==◌, ◌≡◌, refl, true, false, some, none}
use plant_ops.Scope.{is_within, rewrite_prefix, root_path, child_path}

abbrev plant : Text
plant = codes "n_a.n_b"

abbrev gate : Text
gate = codes "n_a.n_b.n_c"

-- `n_ab.n_cd` is not beneath `n_a`.
sibling : is_within (codes "n_ab.n_cd") (codes "n_a") ≡ false
unfolding is_within ◌==◌
sibling = refl

beneath : is_within gate plant ≡ true
unfolding is_within ◌==◌
beneath = refl

paths : child_path (root_path (codes "1-2")) (codes "3-4") ≡ codes "n_12.n_34"
unfolding child_path root_path
paths = refl

moved_gate : rewrite_prefix gate plant (codes "n_x.n_y") ≡ some (codes "n_x.n_y.n_b.n_c")
unfolding rewrite_prefix ◌==◌
moved_gate = refl

moved_plant : rewrite_prefix plant plant (codes "n_x.n_y") ≡ some (codes "n_x.n_y.n_b")
unfolding rewrite_prefix ◌==◌
moved_plant = refl

outside : rewrite_prefix (codes "n_ab") (codes "n_a") (codes "n_x") ≡ none
unfolding rewrite_prefix ◌==◌
outside = refl
