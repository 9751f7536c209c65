-- ===== src/Decision.antt =====
-- The authorization rule of one request: `ScopeResolver.decide` of
-- libs/auth-kit/src/scope-resolver.ts, `readScopeTarget` of
-- libs/auth-kit/src/require-permission.decorator.ts, and `PermissionGuard.canActivate` of
-- libs/auth-kit/src/permission.guard.ts. The grants source is a parameter, as in the code.
pub mod Outcomes
pub mod Guarded
mod Tests
use plant_ops.Prelude.{
  ℕ, Text, codes, ◌==◌, Bool, true, false, not, ◌&&◌, ◌||◌, List, [], ◌∷◌, Option, none, some,
  filter, find, if◌then◌else◌, trim, ◌>>=◌,
}
use plant_ops.Scope.{split, separator}
use plant_ops.Grants.{ResolvedGrants, holds_permission, covers_path}

pub data AuthorizationOutcome : Type 0 where
  allowed permission_denied scope_denied : AuthorizationOutcome

pub record AuthorizationDecision : Type 0 where
  pub outcome : AuthorizationOutcome
  pub permissions : List Text
  pub scope_node_id : Option Text

-- `target_path` is `some none` for a node that is not visible, `none` where no node was asked for.
pub record AuthorizationSnapshot : Type 0 where
  pub grants : ResolvedGrants
  pub target_path : Option (Option Text)

pub record PermissionRequirement : Type 0 where
  pub permissions : List Text
  pub scope_from : Option Text
  pub scope_optional : Bool

abbrev pub is_given : Option Text → Bool
is_given none = false
is_given (some x) = true

-- `snapshot.targetPath ?? null`
abbrev pub target_or_null : Option (Option Text) → Option Text
target_or_null none = none
target_or_null (some path) = path

abbrev pub decision : AuthorizationOutcome → List Text → Option Text → AuthorizationDecision
decision outcome permissions at = record {
  outcome = outcome;
  permissions = permissions;
  scope_node_id = at;
}

-- The node of a request that is `scoped`: the route declares one and the request names one.
abbrev pub scoped_node : PermissionRequirement → Option Text → Option Text
scoped_node requirement node =
    if is_given requirement.scope_from && is_given node then node else none

-- The last step: the first held key that covers the target.
unfoldable pub decide_covering : List Text → Option Text → Option Text → AuthorizationDecision
decide_covering held none at = decision scope_denied held at
decide_covering held (some covering) at = decision allowed (covering ∷ []) at

-- The target of a scoped request; `null` is a node that the subject cannot see.
unfoldable pub decide_target :
    ResolvedGrants → Text → List Text → Option Text → Option Text → AuthorizationDecision
unfolding decide_covering
decide_target grants first held none at = decision allowed (first ∷ []) at
decide_target grants first held (some path) at =
    decide_covering held (find (λ permission. covers_path grants permission path) held) at

-- `decide`, from the held keys on.
unfoldable pub decide_held :
    PermissionRequirement → Option Text → AuthorizationSnapshot → List Text → AuthorizationDecision
unfolding decide_target
decide_held requirement node snapshot [] =
    decision permission_denied requirement.permissions (scoped_node requirement node)
decide_held requirement node snapshot (first ∷ more) =
    let at = scoped_node requirement node in
    if is_given requirement.scope_from && not (is_given node)
    then if requirement.scope_optional
      then decision allowed (first ∷ []) at
      else decision scope_denied (first ∷ more) at
    else if not (is_given requirement.scope_from && is_given node)
    then decision allowed (first ∷ []) at
    else decide_target snapshot.grants first (first ∷ more) (target_or_null snapshot.target_path) at

module _ {Claims : Type 0} (authorize : Claims → Option Text → AuthorizationSnapshot) where
  unfoldable pub snapshot_for : Claims → PermissionRequirement → Option Text → AuthorizationSnapshot
  snapshot_for claims requirement node = authorize claims (scoped_node requirement node)

  unfoldable pub decide : Claims → PermissionRequirement → Option Text → AuthorizationDecision
  unfolding snapshot_for decide_held
  decide claims requirement node =
      let snapshot = snapshot_for claims requirement node in
      decide_held requirement node snapshot
        (filter (λ permission. holds_permission snapshot.grants permission) requirement.permissions)

-- A request body, its parameters or its query, as far as a dotted path can walk into it.
mutual
  pub data Value : Type 0 where
    text : Text → Value
    object : Fields → Value
    other : Value

  pub data Fields : Type 0 where
    end : Fields
    field : Text → Value → Fields → Fields

unfoldable pub get_field : Text → Fields → Option Value
get_field name end = none
get_field name (field k v fs) = if k == name then some v else get_field name fs

unfoldable pub is_prototype_key : Text → Bool
is_prototype_key segment =
    segment == codes "__proto__" || segment == codes "constructor" || segment == codes "prototype"

-- The loop of `readScopeTarget`; `none` stands for `undefined`, which ends the walk at any depth.
unfoldable pub walk : List Text → Option Value → Option Value
unfolding get_field is_prototype_key
walk [] current = current
walk (segment ∷ segments) (some (object fields)) =
    let next = walk segments (get_field segment fields) in
    if is_prototype_key segment then none else next
walk (segment ∷ segments) _ = none

unfoldable pub non_blank : Option Value → Option Text
unfolding trim
non_blank (some (text s)) = if trim s == [] then none else some s
non_blank _ = none

unfoldable pub read_scope_target : Value → Text → Option Text
unfolding walk non_blank split
read_scope_target request path = non_blank (walk (split separator path) (some request))

-- The node that the request names, where the route says to look for one.
unfoldable pub named_node : PermissionRequirement → Value → Option Text
unfolding read_scope_target
named_node requirement request = requirement.scope_from >>= read_scope_target request

-- What a route declares, as the reflector reads it.
pub record Route : Type 0 where
  pub is_http : Bool
  pub is_public : Bool
  pub requirement : Option PermissionRequirement
  pub exempt : Bool

pub data DenialErrorCode : Type 0 where
  permission_denied scope_denied : DenialErrorCode

pub data GuardResult : Type 0 where
  passes : GuardResult
  denied : DenialErrorCode → GuardResult

abbrev pub result_of : AuthorizationOutcome → GuardResult
result_of AuthorizationOutcome.allowed = passes
result_of AuthorizationOutcome.permission_denied = denied DenialErrorCode.permission_denied
result_of AuthorizationOutcome.scope_denied = denied DenialErrorCode.scope_denied

-- The denials that the auditor is handed.
abbrev pub recorded : AuthorizationDecision → List AuthorizationDecision
recorded d = elim d.outcome [ AuthorizationOutcome.allowed ↦ [] | _ ↦ d ∷ [] ]

module _ {Claims : Type 0} (authorize : Claims → Option Text → AuthorizationSnapshot) where
  guard_subject :
      PermissionRequirement → Option Claims → Value → GuardResult × List AuthorizationDecision
  unfolding decide named_node
  guard_subject requirement none request = (denied DenialErrorCode.permission_denied, [])
  guard_subject requirement (some claims) request =
      let node = named_node requirement request in
      let d = decide authorize claims requirement node in (result_of d.outcome, recorded d)

  guard_declared :
      Option PermissionRequirement
      → Bool
      → Option Claims
      → Value
      → GuardResult × List AuthorizationDecision
  unfolding guard_subject
  guard_declared none true claims request = (passes, [])
  guard_declared none false claims request = (denied DenialErrorCode.permission_denied, [])
  guard_declared (some requirement) exempt claims request = guard_subject requirement claims request

  -- `canActivate`: the result, and what was recorded.
  unfoldable pub can_activate :
      Route → Option Claims → Value → GuardResult × List AuthorizationDecision
  unfolding guard_declared
  can_activate route claims request =
      if not route.is_http
      then (passes, [])
      else if route.is_public
      then (passes, [])
      else guard_declared route.requirement route.exempt claims request
