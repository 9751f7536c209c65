-- ===== src/KeyRotation/Steps.antt =====
-- What each step does to the signer and to the published keys.
use plant_ops.Prelude.{
  ℕ, ◌≤◌, Text, ◌==◌, eq_iff, eq_refl, true, false, Option, none, some, ◌≡◌, refl, sym, ap, ◌∙◌,
  arith, inl, inr, Bool-cases, Option-cases, if◌then◌else◌, ltb, Bool-ext,
}
use mathlib.Core.Path.{subst}
use plant_ops.KeyRotation.{
  KeyEnvState, GeneratedKeyPair, RotationPlan, RotationOrderError, planned, refused, key_of,
  delete_key, plan_publish, plan_activate, activate_with, plan_retire, publication, activation,
  retirement, add_seconds, propagation_wait_seconds, retention_wait_seconds,
}
use plant_ops.KeyRotation.Published.{key_of-set_key, key_of-delete_key}

pub eq_sym : (s t : Text) → (s == t) ≡ (t == s)
eq_sym s t =
    Bool-ext (s == t) (t == s) (λ h. (eq_iff t s).1 (sym ((eq_iff s t).0 h)))
      (λ h. (eq_iff s t).1 (sym ((eq_iff t s).0 h)))

-- The key that a verifier finds for a `kid`.
abbrev pub published : KeyEnvState → Text → Option Text
published env kid =
    if env.signing_key_id == kid then some env.public_key else key_of env.retired_public_keys kid

-- The signer is not among the retained keys.
abbrev pub IsSeparate : KeyEnvState → Type 0
IsSeparate env = key_of env.retired_public_keys env.signing_key_id ≡ none

-- What an accepted publication is, with what it checked.
pub record IsPublication (current : KeyEnvState) (incoming : GeneratedKeyPair) (plan : RotationPlan)
    : Type 0 where
  pub signer : plan.next.signing_key_id ≡ current.signing_key_id
  pub private : plan.next.private_key ≡ current.private_key
  pub fresh : published current incoming.kid ≡ none
  pub gains :
      (k : Text)
      → published plan.next k
        ≡ (if incoming.kid == k then some incoming.public_key else published current k)
  pub separate : IsSeparate current → IsSeparate plan.next

pub record IsActivation (current : KeyEnvState) (kid : Text) (published_at now : ℕ)
    (plan : RotationPlan) : Type 0 where
  pub signer : plan.next.signing_key_id ≡ kid
  pub unchanged : (k : Text) → published plan.next k ≡ published current k
  pub waited : add_seconds published_at propagation_wait_seconds ≤ now
  pub separate : IsSeparate plan.next

pub record IsRetirement (current : KeyEnvState) (kid : Text) (deactivated_at now : ℕ)
    (plan : RotationPlan) : Type 0 where
  pub signer : plan.next.signing_key_id ≡ current.signing_key_id
  pub loses : (k : Text) → published plan.next k ≡ (if kid == k then none else published current k)
  pub waited : add_seconds deactivated_at retention_wait_seconds ≤ now
  pub separate : IsSeparate current → IsSeparate plan.next

le_of_ltb : (m n : ℕ) → ltb m n ≡ false → n ≤ m
le_of_ltb m n h = ground arith

planned_inj : {p q : RotationPlan} → planned p ≡ planned q → p ≡ q
planned_inj h = cc

publication-IsPublication :
    (current : KeyEnvState) (incoming : GeneratedKeyPair) (now : ℕ)
    → (incoming.kid == current.signing_key_id) ≡ false
    → key_of current.retired_public_keys incoming.kid ≡ none
    → IsPublication current incoming (publication current incoming now)
unfolding publication
publication-IsPublication current incoming now e n = record {
  signer = refl;
  private = refl;
  fresh = rw (eq_sym current.signing_key_id incoming.kid, e) n;
  gains = λ k. elim (Bool-cases (current.signing_key_id == k)) [
    | inl f ↦ rw (f, other k f) refl
    | inr f ↦ rw f (key_of-set_key current.retired_public_keys incoming.kid incoming.public_key k)
  ];
  separate = λ s.
      key_of-set_key current.retired_public_keys incoming.kid incoming.public_key
        current.signing_key_id
      ∙ rw e s;
}
  where
    other : (k : Text) → (current.signing_key_id == k) ≡ true → (incoming.kid == k) ≡ false
    other k f = ap (λ x. incoming.kid == x) (sym ((eq_iff current.signing_key_id k).0 f)) ∙ e

-- An accepted publication adds exactly the new key to what is published, where it was not before.
pub plan_publish-IsPublication :
    (current : KeyEnvState) (incoming : GeneratedKeyPair) (now : ℕ) (plan : RotationPlan)
    → plan_publish current incoming now ≡ planned plan
    → IsPublication current incoming plan
unfolding plan_publish
plan_publish-IsPublication current incoming now plan h =
    elim (Bool-cases (incoming.kid == current.signing_key_id)) [
      | inl e ↦
          let q : refused RotationOrderError.already_signing ≡ planned plan = rw e at h in
          absurd (cc)
      | inr e ↦ elim (Option-cases (key_of current.retired_public_keys incoming.kid)) [
        | inr (pem, n) ↦
            let q : refused RotationOrderError.already_published ≡ planned plan = rw (e, n) at h in
            absurd (cc)
        | inl n ↦
            let q : planned (publication current incoming now) ≡ planned plan = rw (e, n) at h in
            subst (IsPublication current incoming) (planned_inj q)
              (publication-IsPublication current incoming now e n)
      ]
    ]

activation-unchanged :
    (current : KeyEnvState) (kid private public k : Text) (now : ℕ)
    → IsSeparate current
    → key_of current.retired_public_keys kid ≡ some public
    → published (activation current kid private public now).next k ≡ published current k
unfolding activation
activation-unchanged current kid private public k now s n = elim (Bool-cases (kid == k)) [
  | inl e ↦
      let same = (eq_iff kid k).0 e in
      rw e (
        sym (elim (Bool-cases (current.signing_key_id == k)) [
          | inl f ↦ absurd (
              none_ne (
                sym (
                  ap (key_of current.retired_public_keys)
                    ((eq_iff current.signing_key_id k).0 f ∙ sym same)
                  ∙ n)
                ∙ s))
          | inr f ↦ rw f (ap (key_of current.retired_public_keys) (sym same) ∙ n)
        ]))
  | inr e ↦ rw e (
      key_of-set_key (delete_key current.retired_public_keys kid) current.signing_key_id
        current.public_key k
      ∙ ap (λ o. if current.signing_key_id == k then some current.public_key else o)
          (key_of-delete_key current.retired_public_keys kid k ∙ rw e refl))
]
  where
    none_ne : some public ≡ none → ⊥
    none_ne h = cc

activation-IsSeparate :
    (current : KeyEnvState) (kid private public : Text) (now : ℕ)
    → IsSeparate current
    → key_of current.retired_public_keys kid ≡ some public
    → IsSeparate (activation current kid private public now).next
unfolding activation
activation-IsSeparate current kid private public now s n =
    key_of-set_key (delete_key current.retired_public_keys kid) current.signing_key_id
      current.public_key kid
    ∙ elim (Bool-cases (current.signing_key_id == kid)) [
      | inl f ↦ absurd (
          none_ne (
            sym (
              ap (key_of current.retired_public_keys) ((eq_iff current.signing_key_id kid).0 f) ∙ n)
            ∙ s))
      | inr f ↦ rw f (key_of-delete_key current.retired_public_keys kid kid ∙ rw (eq_refl kid) refl)
    ]
  where
    none_ne : some public ≡ none → ⊥
    none_ne h = cc

activation-signer :
    (current : KeyEnvState) (kid private public : Text) (now : ℕ)
    → (activation current kid private public now).next.signing_key_id ≡ kid
unfolding activation
activation-signer current kid private public now = refl

activate_with-IsActivation :
    (current : KeyEnvState) (kid private : Text) (published_at now : ℕ) (o : Option Text)
    (plan : RotationPlan)
    → IsSeparate current
    → key_of current.retired_public_keys kid ≡ o
    → activate_with current kid private published_at now false o ≡ planned plan
    → IsActivation current kid published_at now plan
unfolding activate_with
activate_with-IsActivation current kid private published_at now none plan s n h = absurd (cc)
activate_with-IsActivation current kid private published_at now (some public) plan s n h =
    elim (Bool-cases (ltb now (add_seconds published_at propagation_wait_seconds))) [
      | inl e ↦
          let q : refused RotationOrderError.not_propagated ≡ planned plan = rw e at h in
          absurd (cc)
      | inr e ↦
          let q : planned (activation current kid private public now) ≡ planned plan = rw e at h in
          subst (IsActivation current kid published_at now) (planned_inj q) (record {
            signer = activation-signer current kid private public now;
            unchanged = λ k. activation-unchanged current kid private public k now s n;
            waited = le_of_ltb now (add_seconds published_at propagation_wait_seconds) e;
            separate = activation-IsSeparate current kid private public now s n;
          })
    ]

-- An unforced activation that is accepted changes the signer to the given key, and no key that
-- is published; it comes at the earliest after the propagation wait.
pub plan_activate-IsActivation :
    (current : KeyEnvState) (kid private : Text) (published_at now : ℕ) (plan : RotationPlan)
    → IsSeparate current
    → plan_activate current kid private published_at now false ≡ planned plan
    → IsActivation current kid published_at now plan
unfolding plan_activate
plan_activate-IsActivation current kid private published_at now plan s =
    activate_with-IsActivation current kid private published_at now
      (key_of current.retired_public_keys kid) plan s refl

retirement-loses :
    (current : KeyEnvState) (kid k : Text)
    → (kid == current.signing_key_id) ≡ false
    → published (retirement current kid).next k ≡ (if kid == k then none else published current k)
unfolding retirement
retirement-loses current kid k e = elim (Bool-cases (current.signing_key_id == k)) [
  | inl f ↦
      let other : (kid == k) ≡ false =
        ap (λ x. kid == x) (sym ((eq_iff current.signing_key_id k).0 f)) ∙ e in
      rw (f, other) refl
  | inr f ↦ rw f (key_of-delete_key current.retired_public_keys kid k)
]

retirement-IsSeparate :
    (current : KeyEnvState) (kid : Text)
    → (kid == current.signing_key_id) ≡ false
    → IsSeparate current
    → IsSeparate (retirement current kid).next
unfolding retirement
retirement-IsSeparate current kid e s =
    key_of-delete_key current.retired_public_keys kid current.signing_key_id ∙ rw e s

retirement-signer :
    (current : KeyEnvState) (kid : Text)
    → (retirement current kid).next.signing_key_id ≡ current.signing_key_id
unfolding retirement
retirement-signer current kid = refl

-- An unforced retirement that is accepted removes exactly the given key from what is published, never
-- the signer's; it comes at the earliest after the retention wait.
pub plan_retire-IsRetirement :
    (current : KeyEnvState) (kid : Text) (deactivated_at now : ℕ) (plan : RotationPlan)
    → plan_retire current kid deactivated_at now false ≡ planned plan
    → IsRetirement current kid deactivated_at now plan
unfolding plan_retire
plan_retire-IsRetirement current kid deactivated_at now plan h =
    elim (Bool-cases (kid == current.signing_key_id)) [
      | inl e ↦
          let q : refused RotationOrderError.still_signing ≡ planned plan = rw e at h in absurd (cc)
      | inr e ↦ elim (Option-cases (key_of current.retired_public_keys kid)) [
        | inl n ↦
            let q : refused RotationOrderError.not_retained ≡ planned plan = rw (e, n) at h in
            absurd (cc)
        | inr (pem, n) ↦
            elim (Bool-cases (ltb now (add_seconds deactivated_at retention_wait_seconds))) [
              | inl w ↦
                  let q : refused RotationOrderError.still_needed ≡ planned plan =
                    rw (e, n, w) at h in
                  absurd (cc)
              | inr w ↦
                  let q : planned (retirement current kid) ≡ planned plan = rw (e, n, w) at h in
                  subst (IsRetirement current kid deactivated_at now) (planned_inj q) (record {
                    signer = retirement-signer current kid;
                    loses = λ k. retirement-loses current kid k e;
                    waited = le_of_ltb now (add_seconds deactivated_at retention_wait_seconds) w;
                    separate = retirement-IsSeparate current kid e;
                  })
            ]
      ]
    ]
