-- ===== src/Jwks/Tests.antt =====
-- Runs of a consumer's verifier.
use plant_ops.Prelude.{
  ℕ, ◌+◌, ◌*◌, ◌≤◌, Text, codes, ◌==◌, List, [], ◌∷◌, Option, none, some, ◌≡◌, refl, ap, ◌∙◌, arith,
}
use plant_ops.Resolver.{SubjectType}
use plant_ops.Authentication.{JwtClaims}
use plant_ops.Tokens.{
  ok, Payload, text, get_member, sign_compact_jws, issue_access_token, verify_access_token,
}
use plant_ops.Tokens.Issued.{parse_compact_jws-sign_compact_jws}
use plant_ops.Tokens.Letters.{letters, letters-JoseLaws}
use plant_ops.Jwks.{
  JwksDocument, KeyCache, JwksVerifierOptions, JwksVerifier, get_key, keys_of, import_keys,
  import_jwk, read_entries, verify, verify_all,
}
use plant_ops.Jwks.Agreed.{verify-verify_access_token}
use plant_ops.Jwks.Paced.{verify_all-bound}
use plant_ops.Jwks.Flooded.{IsForged, verify_all-requests}
use plant_ops.Jwks.Renewed.{keys_in, verify-issue_access_token}

abbrev key_of_jwk : Payload → Option (ℕ × ℕ)
key_of_jwk jwk = some (3, 2048)

abbrev defaults : JwksVerifierOptions
defaults = record {
  issuer = codes "i";
  cache_max_age_seconds = none;
  min_refetch_interval_seconds = none;
}

abbrev document_k : JwksDocument
document_k =
    some
      (none ∷ some ((codes "kty", text (codes "RSA")) ∷ (codes "kid", text (codes "k")) ∷ []) ∷ [])

abbrev cache_at_0 : KeyCache ℕ
cache_at_0 = record { keys = (codes "old", 1) ∷ []; fetched_at_ms = 0 }

abbrev holding_old : JwksVerifier ℕ
holding_old = record { cache = some cache_at_0; requests = 1 }

abbrev token_of_k : Text × JwtClaims
token_of_k =
    issue_access_token letters (λ t. 900) (codes "i") 3 (codes "k") (codes "u") SubjectType.user
      (codes "c") (codes "s") 40

get_key-k : get_key (keys_in key_of_jwk document_k) (codes "k") ≡ some 3
unfolding get_key keys_in import_keys import_jwk read_entries get_member ◌==◌
get_key-k = refl

get_key-old : get_key cache_at_0.keys (codes "k") ≡ none
unfolding get_key ◌==◌
get_key-old = refl

verify-verify_access_token_example :
    let answer =
      verify key_of_jwk defaults (λ n. some document_k) letters holding_old token_of_k.0 40000 in
    answer.0 ≡ verify_access_token letters (keys_of answer.1.cache) (codes "i") token_of_k.0 40
verify-verify_access_token_example =
    verify-verify_access_token key_of_jwk defaults (λ n. some document_k) letters holding_old
      token_of_k.0 40000

abbrev two_calls : List (Text × ℕ)
two_calls = (token_of_k.0, 40000) ∷ (codes "x", 50000) ∷ []

verify_all-bound_example :
    let new : JwksVerifier ℕ = record { cache = none; requests = 0 } in
    40000
      + (verify_all key_of_jwk defaults (λ n. some document_k) letters new two_calls).1.requests
        * 30000
    ≤ 50000 + 30000
verify_all-bound_example =
    verify_all-bound key_of_jwk defaults (λ n. document_k) (omega arith) letters 40000 two_calls
      (omega arith)

verify-issue_access_token_example :
    (verify key_of_jwk defaults (λ n. some document_k) letters holding_old token_of_k.0 40000).0
    ≡ ok token_of_k.1
verify-issue_access_token_example =
    verify-issue_access_token key_of_jwk defaults (λ n. some document_k) letters (λ key. key)
      letters-JoseLaws holding_old document_k (λ t. 900) 3 (codes "k") (codes "u") SubjectType.user
      (codes "c") (codes "s") 40 40000 (ground arith) (ground arith) (ground arith) (ground arith)
      (ground arith) refl get_key-k (get_key-old, refl) (omega arith)

abbrev forged : Text
forged = sign_compact_jws letters [] 4 (codes "k")

abbrev forged_calls : List (Text × ℕ)
forged_calls = (forged, 300000) ∷ (forged, 300000) ∷ []

forged-IsForged : IsForged key_of_jwk defaults letters cache_at_0 (forged, 300000)
forged-IsForged =
    let (parsed, e, named) =
      parse_compact_jws-sign_compact_jws letters (λ key. key) letters-JoseLaws [] 4 (codes "k")
        (ground arith) in
    (parsed, e, ap (get_key cache_at_0.keys) named ∙ get_key-old, omega arith, omega arith)

verify_all-requests_example :
    let after = (verify_all key_of_jwk defaults (λ n. none) letters holding_old forged_calls).1 in
    (after.cache ≡ some cache_at_0) × (after.requests ≡ 5)
verify_all-requests_example =
    verify_all-requests key_of_jwk defaults letters cache_at_0 1 forged_calls
      (forged-IsForged, (forged-IsForged, tt))
