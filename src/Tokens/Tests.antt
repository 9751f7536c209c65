-- ===== src/Tokens/Tests.antt =====
-- Runs of the access tokens.
use plant_ops.Prelude.{
  ℕ, Text, codes, ◌==◌, Option, none, some, ◌≡◌, ◌↔◌, refl, arith, if◌then◌else◌,
}
use plant_ops.Resolver.{SubjectType}
use plant_ops.Authentication.{JwtClaims}
use plant_ops.Tokens.{ok, verify_access_token, issue_access_token}
use plant_ops.Tokens.Signed.{Verifies, verify_access_token_iff}
use plant_ops.Tokens.Issued.{verify_access_token-issue_access_token}
use plant_ops.Tokens.Letters.{letters, letters-JoseLaws}

abbrev published_keys : Text → Option ℕ
published_keys kid = if kid == codes "k" then some 3 else none

abbrev token_at_1000 : Text × JwtClaims
token_at_1000 =
    issue_access_token letters (λ t. 900) (codes "i") 3 (codes "k") (codes "u") SubjectType.user
      (codes "c") (codes "s") 1000

published-k : published_keys (codes "k") ≡ some 3
unfolding ◌==◌
published-k = refl

verify_access_token-issue_access_token_example :
    verify_access_token letters published_keys (codes "i") token_at_1000.0 1959 ≡ ok token_at_1000.1
verify_access_token-issue_access_token_example =
    verify_access_token-issue_access_token letters (λ key. key) letters-JoseLaws published_keys
      (λ t. 900) (codes "i") 3 (codes "k") (codes "u") SubjectType.user (codes "c") (codes "s") 1000
      1959 (ground arith) (ground arith) (ground arith) (ground arith) (ground arith) published-k
      (omega arith)

verify_access_token_iff_example :
    (verify_access_token letters published_keys (codes "i") token_at_1000.0 1959
      ≡ ok token_at_1000.1)
    ↔ Verifies letters published_keys (codes "i") token_at_1000.0 1959 token_at_1000.1
verify_access_token_iff_example =
    verify_access_token_iff letters published_keys (codes "i") token_at_1000.0 1959 token_at_1000.1
