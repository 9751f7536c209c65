-- ===== src/Coverage/Tests.antt =====
-- Runs of the browser's test.
use plant_ops.Prelude.{codes, ◌==◌, false, [], ◌∷◌, some, ◌≡◌, ◌&&◌, refl, arith, any}
use plant_ops.Scope.{is_within}
use plant_ops.Grants.{ResolvedGrants, covers_path}
use plant_ops.Coverage.{path_covers, holds_somewhere, permission_scopes, holds_permission_at}
use plant_ops.Coverage.Server.{holds_permission_at-covers_path}

abbrev grants : ResolvedGrants
grants = record {
  permissions = codes "gate.open" ∷ [];
  scopes = (codes "gate.open", codes "n_a" ∷ codes "n_b.n_c" ∷ []) ∷ [];
}

not_a_sibling : path_covers (codes "n_a") (codes "n_ab") ≡ false
unfolding path_covers ◌==◌
not_a_sibling = refl

holds_permission_at-covers_path_example :
    (holds_permission_at (some grants) (codes "gate.open") (codes "n_b.n_c.n_d")
      ≡ covers_path grants (codes "gate.open") (codes "n_b.n_c.n_d"))
    × (holds_permission_at (some grants) (codes "gate.open") (codes "n_b.n_c.n_d") ≡ (
        holds_somewhere (some grants) (codes "gate.open")
        && any
            (λ path. is_within (codes "n_b.n_c.n_d") path)
            (permission_scopes (some grants) (codes "gate.open"))))
unfolding permission_scopes ◌==◌
holds_permission_at-covers_path_example =
    holds_permission_at-covers_path grants (codes "gate.open") (codes "n_b.n_c.n_d") refl
      ((λ e. ground (arith, e)), ((λ e. ground (arith, e)), tt))
