-- ===== src/KeyRotation/Whole.antt =====
-- The three steps of a rotation in turn.
use plant_ops.Prelude.{
  ℕ, ◌≤◌, Text, ◌==◌, eq_refl, false, none, some, ◌≡◌, refl, ap, ◌∙◌, inl, inr, Bool-cases,
  if◌then◌else◌,
}
use plant_ops.KeyRotation.{
  KeyEnvState, GeneratedKeyPair, RotationPlan, planned, plan_publish, plan_activate, plan_retire,
  add_seconds, propagation_wait_seconds, retention_wait_seconds,
}
use plant_ops.KeyRotation.Steps.{
  published, IsSeparate, eq_sym, plan_publish-IsPublication, plan_activate-IsActivation,
  plan_retire-IsRetirement,
}

-- A whole rotation without force, of an environment whose signer is not among the retained keys: a
-- publication at `t₁`, an activation at `t₂` and a retirement of the old signer at `t₃`, each accepted.
-- The activation comes no earlier than the propagation wait after `t₁`, and the new key is published
-- since; the retirement comes no earlier than the retention wait after `t₂`, and the old key is
-- published until then; at the end the new key signs, the old one is not published, and every other
-- key is published as it was.
pub plan_publish-activate-retire :
    (env : KeyEnvState) (incoming : GeneratedKeyPair) (private : Text) (t₁ t₂ t₃ : ℕ)
    (p q r : RotationPlan)
    → IsSeparate env
    → plan_publish env incoming t₁ ≡ planned p
    → plan_activate p.next incoming.kid private t₁ t₂ false ≡ planned q
    → plan_retire q.next env.signing_key_id t₂ t₃ false ≡ planned r
    → (add_seconds t₁ propagation_wait_seconds ≤ t₂)
      × (add_seconds t₂ retention_wait_seconds ≤ t₃)
      × (published q.next env.signing_key_id ≡ some env.public_key)
      × (published p.next incoming.kid ≡ some incoming.public_key)
      × (r.next.signing_key_id ≡ incoming.kid)
      × ((k : Text)
          → published r.next k ≡ (
              if env.signing_key_id == k
              then none
              else if incoming.kid == k
              then some incoming.public_key
              else published env k))
plan_publish-activate-retire env incoming private t₁ t₂ t₃ p q r s h₁ h₂ h₃ =
    let a = plan_publish-IsPublication env incoming t₁ p h₁ in
    let b = plan_activate-IsActivation p.next incoming.kid private t₁ t₂ q (a.separate s) h₂ in
    let c = plan_retire-IsRetirement q.next env.signing_key_id t₂ t₃ r h₃ in
    let both : (k : Text)
        → published q.next k
          ≡ (if incoming.kid == k then some incoming.public_key else published env k) =
      λ k. b.unchanged k ∙ a.gains k in
    (
      b.waited,
      c.waited,
      both env.signing_key_id ∙ old a.fresh,
      a.gains incoming.kid ∙ rw (eq_refl incoming.kid) refl,
      c.signer ∙ b.signer,
      λ k. c.loses k ∙ ap (λ o. if env.signing_key_id == k then none else o) (both k),
    )
  where
    old :
        published env incoming.kid ≡ none
        → (if incoming.kid == env.signing_key_id
            then some incoming.public_key
            else published env env.signing_key_id)
          ≡ some env.public_key
    old f = elim (Bool-cases (incoming.kid == env.signing_key_id)) [
      | inl e ↦
          let g : published env incoming.kid ≡ some env.public_key =
            rw (eq_sym env.signing_key_id incoming.kid, e) refl in
          absurd (cc)
      | inr e ↦ rw (e, eq_refl env.signing_key_id) refl
    ]
