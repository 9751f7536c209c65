-- ===== src/Grants/Tests.antt =====
-- Grants on small inputs.
use plant_ops.Prelude.{Text, codes, ◌==◌, ◌≡◌, refl, List, [], ◌∷◌, sort, distinct}
use plant_ops.Scope.{is_within}
use plant_ops.Grants.{GrantRow, minimize_paths, assemble_grants, covers_path, allowed_paths_for}
use plant_ops.Grants.Minimal.{covers}
use plant_ops.Grants.Canonical.{assemble_grants-canonical}
use plant_ops.Grants.Slices.{allowed_paths_for-assemble_grants}

abbrev row : Text → Text → GrantRow
row key path = record { permission_key = key; scope_path = path }

abbrev rows : List GrantRow
rows =
    row (codes "b") (codes "n_a.n_b")
    ∷ row (codes "a") (codes "n_c")
    ∷ row (codes "b") (codes "n_a")
    ∷ []

abbrev fewer : List GrantRow
fewer = row (codes "b") (codes "n_a") ∷ row (codes "a") (codes "n_c") ∷ []

-- A repeated path survives once, and an ancestor absorbs its descendants.
minimal :
    minimize_paths (codes "n_b" ∷ codes "n_a.n_c" ∷ codes "n_b" ∷ codes "n_a" ∷ [])
    ≡ codes "n_a" ∷ codes "n_b" ∷ []
unfolding minimize_paths sort distinct is_within ◌==◌
minimal = refl

assembled : assemble_grants rows ≡ assemble_grants fewer
unfolding assemble_grants minimize_paths sort distinct is_within ◌==◌
assembled = refl

assemble_grants-canonical_example : assemble_grants rows ≡ assemble_grants fewer
assemble_grants-canonical_example =
    assemble_grants-canonical rows fewer (λ k t i. covers_path (assembled i) k t)

only_root : minimize_paths (codes "n_a" ∷ codes "n_a.n_b" ∷ []) ≡ codes "n_a" ∷ []
unfolding minimize_paths sort distinct is_within ◌==◌
only_root = refl

allowed_paths_for-assemble_grants_example :
    covers (allowed_paths_for (assemble_grants rows) (codes "b")) (codes "n_a.n_q")
    ≡ covers_path (assemble_grants rows) (codes "b") (codes "n_a.n_q")
allowed_paths_for-assemble_grants_example =
    allowed_paths_for-assemble_grants rows (codes "b") (codes "n_a.n_q")
