-- ===== src/Decision/Outcomes.antt =====
-- What `decide` answers, against a description of it that names no order of tests.
use plant_ops.Prelude.{
  Text, eq_refl, Bool, true, false, ◌&&◌, List, [], ◌∷◌, ◌≡◌, refl, sym, ◌∙◌, inl, inr, arith,
  Option, none, some, any, filter, find, includes, is_empty, Bool-cases, any-filter,
  any_of_includes, includes-filter,
}
use plant_ops.Grants.{ResolvedGrants, holds_permission, covers_path}
use plant_ops.Decision.{
  AuthorizationOutcome, allowed, permission_denied, scope_denied, AuthorizationDecision,
  AuthorizationSnapshot, PermissionRequirement, target_or_null, decide_covering, decide_held,
  snapshot_for, decide,
}

abbrev pub is_allowed : AuthorizationOutcome → Bool
is_allowed allowed = true
is_allowed _ = false

-- Whether a held key is good for the place that the request names.
abbrev covers_target : ResolvedGrants → Text → Option Text → Bool
covers_target grants permission none = true
covers_target grants permission (some path) = covers_path grants permission path

abbrev place_admits : Option Text → Bool → Option Text → AuthorizationSnapshot → Text → Bool
place_admits none optional _ snapshot permission = true
place_admits (some from) optional none snapshot permission = optional
place_admits (some from) optional (some n) snapshot permission =
    covers_target snapshot.grants permission (target_or_null snapshot.target_path)

-- A key admits a request if it is held, and the route names no place, or the request may leave the
-- place out and does, or the place is invisible to the subject, or the key covers it.
abbrev pub key_admits : PermissionRequirement → Option Text → AuthorizationSnapshot → Text → Bool
key_admits requirement node snapshot permission =
    holds_permission snapshot.grants permission
    && place_admits requirement.scope_from requirement.scope_optional node snapshot permission

pub find-any :
    (p : Text → Bool) (xs : List Text)
    → (any p xs ≡ true → (k : Text) × (find p xs ≡ some k) × (p k ≡ true) × (includes xs k ≡ true))
      × (any p xs ≡ false → find p xs ≡ none)
unfolding includes
find-any p [] = ((λ h. absurd (ground arith)), λ h. refl)
find-any p (x ∷ xs) = elim (Bool-cases (p x)) [
  | inl e ↦ ((λ h. (x, ground arith, e, ground (arith, eq_refl x))), λ h. absurd (ground arith))
  | inr e ↦
      let ih = find-any p xs in
      (
        (λ h. let (k, f, pk, m) = ih.0 (ground arith) in (k, ground arith, pk, ground arith)),
        λ h. ground (arith, ih.1),
      )
]

-- What a decision reports with its outcome.
abbrev pub Explains :
    PermissionRequirement
    → Option Text
    → AuthorizationSnapshot
    → AuthorizationOutcome
    → List Text
    → Type 0
Explains requirement node snapshot allowed named =
    (key : Text) × (named ≡ key ∷ [])
    × (includes requirement.permissions key ≡ true)
    × (key_admits requirement node snapshot key ≡ true)
Explains requirement _ snapshot permission_denied named =
    (named ≡ requirement.permissions)
    × (any (holds_permission snapshot.grants) requirement.permissions ≡ false)
Explains requirement node snapshot scope_denied named =
    (named ≡ filter (λ k. holds_permission snapshot.grants k) requirement.permissions)
    × (is_empty named ≡ false)
    × (any (key_admits requirement node snapshot) requirement.permissions ≡ false)

-- The same over the list of the held keys.
abbrev HeldExplains :
    List Text → (Text → Bool) → List Text → AuthorizationOutcome → List Text → Type 0
HeldExplains permissions admits held allowed named =
    (key : Text) × (named ≡ key ∷ []) × (includes held key ≡ true) × (admits key ≡ true)
HeldExplains permissions admits held permission_denied named = (named ≡ permissions) × (held ≡ [])
HeldExplains permissions admits held scope_denied named =
    (named ≡ held) × (is_empty held ≡ false) × (any admits held ≡ false)

abbrev FoundExplains : List Text → (Text → Bool) → List Text → AuthorizationDecision → Type 0
FoundExplains permissions admits held d =
    HeldExplains permissions admits held d.outcome d.permissions

any-false : (xs : List Text) → any (λ _. false) xs ≡ false
any-false [] = refl
any-false (x ∷ xs) = any-false xs

includes_head : (x : Text) (xs : List Text) → includes (x ∷ xs) x ≡ true
unfolding includes
includes_head x xs = ground (arith, eq_refl x)

explain_covering :
    (permissions : List Text) (admits : Text → Bool) (x : Text) (xs : List Text) (at : Option Text)
    → FoundExplains permissions admits (x ∷ xs) (decide_covering (x ∷ xs) (find admits (x ∷ xs)) at)
unfolding decide_covering
explain_covering permissions admits x xs at = elim (Bool-cases (any admits (x ∷ xs))) [
  | inl e ↦
      let (k, f, ok, m) = (find-any admits (x ∷ xs)).0 e in rw (f, decide_covering) (k, refl, m, ok)
  | inr e ↦ rw ((find-any admits (x ∷ xs)).1 e, decide_covering) (refl, refl, e)
]

module _ (permissions : List Text) (optional : Bool) (grants : ResolvedGrants) where
  abbrev requires : Option Text → PermissionRequirement
  requires from = record { permissions = permissions; scope_from = from; scope_optional = optional }

  abbrev sees : Option (Option Text) → AuthorizationSnapshot
  sees target = record { grants = grants; target_path = target }

  explain_held :
      (from at : Option Text) (target : Option (Option Text)) (held : List Text)
      → FoundExplains permissions
          (place_admits from optional at (sees target))
          held
          (decide_held (requires from) at (sees target) held)
  unfolding decide_held
  explain_held from at target [] = (refl, refl)
  explain_held none at target (x ∷ xs) = (x, refl, includes_head x xs, refl)
  explain_held (some f) none target (x ∷ xs) = elim (Bool-cases optional) [
    | inl e ↦ rw e (x, refl, includes_head x xs, refl)
    | inr e ↦ rw e (refl, refl, any-false xs)
  ]
  explain_held (some f) (some n) none (x ∷ xs) = (x, refl, includes_head x xs, refl)
  explain_held (some f) (some n) (some none) (x ∷ xs) = (x, refl, includes_head x xs, refl)
  explain_held (some f) (some n) (some (some path)) (x ∷ xs) =
      explain_covering permissions (λ k. covers_path grants k path) x xs (some n)

any_of_filter_nil : (p : Text → Bool) (xs : List Text) → filter p xs ≡ [] → any p xs ≡ false
any_of_filter_nil p [] h = refl
any_of_filter_nil p (x ∷ xs) h = elim (Bool-cases (p x)) [
  | inl e ↦ ground arith
  | inr e ↦ ground (arith, any_of_filter_nil p xs)
]

any_and : (p q : Text → Bool) (xs : List Text) → any p xs ≡ false → any (λ x. p x && q x) xs ≡ false
any_and p q [] h = refl
any_and p q (x ∷ xs) h = ground (arith, any_and p q xs)

module _ (r : PermissionRequirement) (node : Option Text) (snapshot : AuthorizationSnapshot) where
  abbrev holds : Text → Bool
  holds k = holds_permission snapshot.grants k

  abbrev admits : Text → Bool
  admits k = place_admits r.scope_from r.scope_optional node snapshot k

  explain_all :
      (o : AuthorizationOutcome) (named : List Text)
      → HeldExplains r.permissions admits (filter holds r.permissions) o named
      → Explains r node snapshot o named
  explain_all allowed named (k, e, m, a) =
      let listed = includes-filter holds r.permissions k in (k, e, ground arith, ground arith)
  explain_all permission_denied named (e, none_held) =
      (e, any_of_filter_nil holds r.permissions none_held)
  explain_all scope_denied named (e, held, refused) =
      (e, rw e held, sym (any-filter admits holds r.permissions) ∙ refused)

  is_allowed-of_Explains :
      (o : AuthorizationOutcome) (named : List Text)
      → Explains r node snapshot o named
      → is_allowed o ≡ any (key_admits r node snapshot) r.permissions
  is_allowed-of_Explains allowed named (k, e, m, a) =
      sym (any_of_includes (key_admits r node snapshot) r.permissions k m a)
  is_allowed-of_Explains permission_denied named (e, h) = sym (any_and holds admits r.permissions h)
  is_allowed-of_Explains scope_denied named (e, held, refused) = sym refused

module _ {Claims : Type 0} (authorize : Claims → Option Text → AuthorizationSnapshot) where
  -- What each decision names: an allowed request, one key of the route that admits it; a permission
  -- denial, every key of the route, when none is held; a scope denial, all the held keys, of which
  -- there is one and none admits the place.
  pub decide-Explains :
      (claims : Claims) (requirement : PermissionRequirement) (node : Option Text)
      → Explains requirement node
          (snapshot_for authorize claims requirement node)
          (decide authorize claims requirement node).outcome
          (decide authorize claims requirement node).permissions
  unfolding decide
  decide-Explains claims r node =
      let s = snapshot_for authorize claims r node in
      explain_all r node s _ _ (
        explain_held r.permissions r.scope_optional s.grants r.scope_from node s.target_path
          (filter (λ k. holds_permission s.grants k) r.permissions))

  -- A request is allowed exactly when some key that the route accepts admits it.
  pub is_allowed-decide :
      (claims : Claims) (requirement : PermissionRequirement) (node : Option Text)
      → is_allowed (decide authorize claims requirement node).outcome
        ≡ any
            (key_admits requirement node (snapshot_for authorize claims requirement node))
            requirement.permissions
  is_allowed-decide claims r node =
      is_allowed-of_Explains r node (snapshot_for authorize claims r node) _ _
        (decide-Explains claims r node)
