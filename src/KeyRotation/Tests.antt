-- ===== src/KeyRotation/Tests.antt =====
-- Witnesses for the key rotation.
use plant_ops.Prelude.{◌≤◌, Text, codes, ◌==◌, [], ◌∷◌, none, some, ◌≡◌, refl, if◌then◌else◌}
use plant_ops.KeyRotation.{
  KeyEnvState, GeneratedKeyPair, RotationPlan, publication, activation, retirement, plan_publish,
  plan_activate, plan_retire, add_seconds, propagation_wait_seconds, retention_wait_seconds,
}
use plant_ops.KeyRotation.Steps.{published}
use plant_ops.KeyRotation.Whole.{plan_publish-activate-retire}

abbrev env : KeyEnvState
env = record {
  signing_key_id = codes "k1";
  private_key = codes "s1";
  public_key = codes "p1";
  retired_public_keys = (codes "k0", codes "p0") ∷ [];
}

abbrev incoming : GeneratedKeyPair
incoming = record { kid = codes "k2"; private_key = codes "s2"; public_key = codes "p2" }

abbrev first : RotationPlan
first = publication env incoming 0

abbrev second : RotationPlan
second = activation first.next (codes "k2") (codes "s2") (codes "p2") 360000

abbrev third : RotationPlan
third = retirement second.next (codes "k1")

plan_publish-activate-retire_example :
    (add_seconds 0 propagation_wait_seconds ≤ 360000)
    × (add_seconds 360000 retention_wait_seconds ≤ 1320000)
    × (published second.next (codes "k1") ≡ some (codes "p1"))
    × (published first.next (codes "k2") ≡ some (codes "p2"))
    × (third.next.signing_key_id ≡ codes "k2")
    × ((k : Text)
        → published third.next k ≡ (
            if codes "k1" == k
            then none
            else if codes "k2" == k
            then some (codes "p2")
            else published env k))
unfolding plan_publish plan_activate plan_retire ◌==◌
plan_publish-activate-retire_example =
    plan_publish-activate-retire env incoming (codes "s2") 0 360000 1320000 first second third refl
      refl refl refl
