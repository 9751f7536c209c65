-- ===== src/KeyRotation.antt =====
-- Planning the rotation of the signing keys: planPublish, planActivate, planRetire and addSeconds of
-- libs/config/src/key-rotation.ts. A time is a number of milliseconds; a plan's summary, a text for
-- the operator, is left out.
pub mod Published
pub mod Steps
pub mod Whole
mod Tests
use plant_ops.Contracts.{clock_skew_leeway_seconds, jwks_cache_max_age_seconds}
use plant_ops.Prelude.{
  ℕ, ◌+◌, ◌*◌, Text, ◌==◌, Bool, true, false, not, ◌&&◌, List, [], ◌∷◌, Option, none, some, ltb,
  if◌then◌else◌, filter,
}

abbrev pub Keys : Type 0
Keys = List (Text × Text)

pub record KeyEnvState : Type 0 where
  pub signing_key_id : Text
  pub private_key : Text
  pub public_key : Text
  pub retired_public_keys : Keys

pub record GeneratedKeyPair : Type 0 where
  pub kid : Text
  pub private_key : Text
  pub public_key : Text

pub data RotationStep : Type 0 where
  publish activate retire : RotationStep

pub record RotationPlan : Type 0 where
  pub step : RotationStep
  pub next : KeyEnvState
  pub next_step_earliest_at : Option ℕ
  pub next_step : Option RotationStep

-- `RotationOrderError`, one constructor for each message.
pub data RotationOrderError : Type 0 where
  already_signing already_published not_published not_propagated still_signing not_retained
        still_needed :
      RotationOrderError

pub data Planned : Type 0 where
  refused : RotationOrderError → Planned
  planned : RotationPlan → Planned

-- Indexing an object by a key, `in`, the setting of a key and its deletion.
unfoldable pub key_of : Keys → Text → Option Text
key_of [] kid = none
key_of ((k, pem) ∷ rest) kid = if k == kid then some pem else key_of rest kid

abbrev pub is_present : Option Text → Bool
is_present none = false
is_present (some pem) = true

unfoldable pub set_key : Keys → Text → Text → Keys
set_key [] kid pem = (kid, pem) ∷ []
set_key ((k, old) ∷ rest) kid pem =
    if k == kid then (k, pem) ∷ rest else (k, old) ∷ set_key rest kid pem

unfoldable pub delete_key : Keys → Text → Keys
delete_key keys kid = filter (λ entry. not (entry.0 == kid)) keys

abbrev pub access_token_ttl_seconds : ℕ
access_token_ttl_seconds = 900

abbrev pub propagation_wait_seconds : ℕ
propagation_wait_seconds = jwks_cache_max_age_seconds + clock_skew_leeway_seconds

abbrev pub retention_wait_seconds : ℕ
retention_wait_seconds = access_token_ttl_seconds + clock_skew_leeway_seconds

unfoldable pub add_seconds : ℕ → ℕ → ℕ
add_seconds from seconds = from + seconds * 1000

-- The plan of each step, where it is not refused.
unfoldable pub publication : KeyEnvState → GeneratedKeyPair → ℕ → RotationPlan
unfolding set_key add_seconds
publication current incoming now = record {
  step = publish;
  next = record current {
    retired_public_keys = set_key current.retired_public_keys incoming.kid incoming.public_key;
  };
  next_step_earliest_at = some (add_seconds now propagation_wait_seconds);
  next_step = some activate;
}

unfoldable pub activation : KeyEnvState → Text → Text → Text → ℕ → RotationPlan
unfolding set_key delete_key add_seconds
activation current kid private public now = record {
  step = activate;
  next = record {
    signing_key_id = kid;
    private_key = private;
    public_key = public;
    retired_public_keys =
        set_key (delete_key current.retired_public_keys kid) current.signing_key_id
          current.public_key;
  };
  next_step_earliest_at = some (add_seconds now retention_wait_seconds);
  next_step = some retire;
}

unfoldable pub retirement : KeyEnvState → Text → RotationPlan
unfolding delete_key
retirement current kid = record {
  step = retire;
  next = record current { retired_public_keys = delete_key current.retired_public_keys kid };
  next_step_earliest_at = none;
  next_step = none;
}

unfoldable pub plan_publish : KeyEnvState → GeneratedKeyPair → ℕ → Planned
unfolding key_of publication
plan_publish current incoming now =
    if incoming.kid == current.signing_key_id
    then refused already_signing
    else if is_present (key_of current.retired_public_keys incoming.kid)
    then refused already_published
    else planned (publication current incoming now)

-- `planActivate`, once the public key is found.
unfoldable pub activate_with : KeyEnvState → Text → Text → ℕ → ℕ → Bool → Option Text → Planned
unfolding activation add_seconds
activate_with current kid private published_at now force none = refused not_published
activate_with current kid private published_at now force (some public) =
    if not force && ltb now (add_seconds published_at propagation_wait_seconds)
    then refused not_propagated
    else planned (activation current kid private public now)

unfoldable pub plan_activate : KeyEnvState → Text → Text → ℕ → ℕ → Bool → Planned
unfolding activate_with key_of
plan_activate current kid private published_at now force =
    activate_with current kid private published_at now force
      (key_of current.retired_public_keys kid)

unfoldable pub plan_retire : KeyEnvState → Text → ℕ → ℕ → Bool → Planned
unfolding key_of retirement add_seconds
plan_retire current kid deactivated_at now force =
    if kid == current.signing_key_id
    then refused still_signing
    else if not (is_present (key_of current.retired_public_keys kid))
    then refused not_retained
    else if not force && ltb now (add_seconds deactivated_at retention_wait_seconds)
    then refused still_needed
    else planned (retirement current kid)
