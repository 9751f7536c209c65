-- ===== src/Decision/Tests.antt =====
-- Decisions on small inputs.
use plant_ops.Prelude.{
  Text, codes, ◌==◌, ◌≡◌, refl, true, false, ◌&&◌, ◌||◌, [], ◌∷◌, Option, none, some, includes,
}
use plant_ops.Scope.{is_within}
use plant_ops.Grants.{ResolvedGrants, covers_path}
use plant_ops.Decision.{
  AuthorizationSnapshot, PermissionRequirement, scope_denied, decide, snapshot_for, Route, Value,
  object, field, end, text, can_activate, named_node,
}
use plant_ops.Decision.Outcomes.{Explains, decide-Explains}
use plant_ops.Decision.Guarded.{passes_guard, subject_admitted, is_none, can_activate-passes}

abbrev grants : ResolvedGrants
grants = record {
  permissions = codes "scope.move" ∷ [];
  scopes = (codes "scope.move", codes "n_a" ∷ []) ∷ [];
}

-- A source that knows the node `g` at `n_a.n_g` and the node `h` at `n_b.n_h`.
abbrev source : Unit {0} → Option Text → AuthorizationSnapshot
source c none = record { grants = grants; target_path = none }
source c (some n) = record { grants = grants; target_path = some (some (codes "n_b.n_h")) }

abbrev requirement : PermissionRequirement
requirement = record {
  permissions = codes "scope.move" ∷ [];
  scope_from = some (codes "params.id");
  scope_optional = false;
}

abbrev request : Value
request = object (field (codes "params") (object (field (codes "id") (text (codes "h")) end)) end)

abbrev route : Route
route = record { is_http = true; is_public = false; requirement = some requirement; exempt = false }

named : named_node requirement request ≡ some (codes "h")
unfolding named_node ◌==◌
named = refl

refused : (decide source tt requirement (some (codes "h"))).outcome ≡ scope_denied
unfolding decide covers_path includes is_within ◌==◌
refused = refl

decide-Explains_example :
    Explains requirement
      (some (codes "h"))
      (snapshot_for source tt requirement (some (codes "h")))
      (decide source tt requirement (some (codes "h"))).outcome
      (decide source tt requirement (some (codes "h"))).permissions
decide-Explains_example = decide-Explains source tt requirement (some (codes "h"))

can_activate-passes_example : passes_guard (can_activate source route (some tt) request).0 ≡ (
    false
    || false
    || (is_none (some requirement) && false)
    || subject_admitted source (some requirement) (some tt) request)
can_activate-passes_example = can_activate-passes source route (some tt) request
