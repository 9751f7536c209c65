-- ===== src/Decision/Guarded.antt =====
-- `PermissionGuard`: which requests reach a handler, and which denials are recorded.
use plant_ops.Prelude.{
  Text, Bool, true, false, not, ◌&&◌, ◌||◌, ◌≡◌, refl, ◌∙◌, inl, inr, arith, Option, none, some,
  any, is_empty, Bool-cases,
}
use plant_ops.Decision.{
  AuthorizationOutcome, AuthorizationDecision, AuthorizationSnapshot, PermissionRequirement, decide,
  snapshot_for, Route, Value, GuardResult, passes, denied, result_of, recorded, guard_declared,
  can_activate, named_node,
}
use plant_ops.Decision.Outcomes.{is_allowed, key_admits, is_allowed-decide}

abbrev pub passes_guard : GuardResult → Bool
passes_guard passes = true
passes_guard (denied code) = false

abbrev pub is_none : Option PermissionRequirement → Bool
is_none none = true
is_none (some r) = false

-- There is a subject and a requirement to refuse it by.
abbrev pub is_identified : {Claims : Type 0} → Option PermissionRequirement → Option Claims → Bool
is_identified (some r) (some claims) = true
is_identified _ _ = false

module _ {Claims : Type 0} (authorize : Claims → Option Text → AuthorizationSnapshot) where
  -- Some key of the declared requirement admits the subject of the request.
  abbrev pub subject_admitted : Option PermissionRequirement → Option Claims → Value → Bool
  subject_admitted none claims request = false
  subject_admitted (some requirement) none request = false
  subject_admitted (some requirement) (some claims) request =
      let node = named_node requirement request in
      any (key_admits requirement node (snapshot_for authorize claims requirement node))
        requirement.permissions

  passes_result_of : (o : AuthorizationOutcome) → passes_guard (result_of o) ≡ is_allowed o
  passes_result_of AuthorizationOutcome.allowed = refl
  passes_result_of AuthorizationOutcome.permission_denied = refl
  passes_result_of AuthorizationOutcome.scope_denied = refl

  guard_declared-passes :
      (requirement : Option PermissionRequirement) (exempt : Bool) (claims : Option Claims)
      (request : Value)
      → passes_guard (guard_declared authorize requirement exempt claims request).0
        ≡ ((is_none requirement && exempt) || subject_admitted requirement claims request)
  unfolding guard_declared
  guard_declared-passes none true claims request = refl
  guard_declared-passes none false claims request = refl
  guard_declared-passes (some r) exempt none request = refl
  guard_declared-passes (some r) exempt (some claims) request =
      passes_result_of _ ∙ is_allowed-decide authorize claims r (named_node r request)

  -- A request passes exactly when the context is not HTTP, the route is public, the route declares
  -- no requirement and is exempt, or a key of its requirement admits the request's subject.
  pub can_activate-passes :
      (route : Route) (claims : Option Claims) (request : Value)
      → passes_guard (can_activate authorize route claims request).0 ≡ (
          not route.is_http
          || route.is_public
          || (is_none route.requirement && route.exempt)
          || subject_admitted route.requirement claims request)
  unfolding can_activate
  can_activate-passes route claims request =
      let declared = guard_declared-passes route.requirement route.exempt claims request in
      elim (Bool-cases route.is_http) [
        | inl e ↦ elim (Bool-cases route.is_public) [
          | inl f ↦ ground (arith, e, f)
          | inr f ↦ ground (arith, e, f, declared)
        ]
        | inr e ↦ ground (arith, e)
      ]

  recorded_of : (d : AuthorizationDecision) → is_empty (recorded d) ≡ is_allowed d.outcome
  recorded_of d = ground arith

  guard_declared-records :
      (requirement : Option PermissionRequirement) (exempt : Bool) (claims : Option Claims)
      (request : Value)
      → is_empty (guard_declared authorize requirement exempt claims request).1
        ≡ (not (is_identified requirement claims) || subject_admitted requirement claims request)
  unfolding guard_declared
  guard_declared-records none true claims request = refl
  guard_declared-records none false claims request = refl
  guard_declared-records (some r) exempt none request = refl
  guard_declared-records (some r) exempt (some claims) request =
      recorded_of (decide authorize claims r (named_node r request))
      ∙ is_allowed-decide authorize claims r (named_node r request)

  -- A denial is recorded exactly when a guarded route with a requirement refuses a known subject.
  pub can_activate-records :
      (route : Route) (claims : Option Claims) (request : Value)
      → not (is_empty (can_activate authorize route claims request).1) ≡ (
          route.is_http
          && not route.is_public
          && is_identified route.requirement claims
          && not (subject_admitted route.requirement claims request))
  unfolding can_activate
  can_activate-records route claims request =
      let declared = guard_declared-records route.requirement route.exempt claims request in
      elim (Bool-cases route.is_http) [
        | inl e ↦ elim (Bool-cases route.is_public) [
          | inl f ↦ ground (arith, e, f)
          | inr f ↦ ground (arith, e, f, declared)
        ]
        | inr e ↦ ground (arith, e)
      ]
