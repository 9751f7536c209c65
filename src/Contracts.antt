-- ===== src/Contracts.antt =====
-- Constants that several components share: libs/contracts/src/constants.ts.
use plant_ops.Prelude.{ℕ}

abbrev pub clock_skew_leeway_seconds : ℕ
clock_skew_leeway_seconds = 60

abbrev pub jwks_cache_max_age_seconds : ℕ
jwks_cache_max_age_seconds = 300
