-- ===== src/Tokens/Signed.antt =====
-- Which tokens are verified, and with which claims.
use plant_ops.Contracts.{clock_skew_leeway_seconds}
use mathlib.Core.Path.{subst}
use plant_ops.Prelude.{
  ℕ, ◌+◌, ◌<◌, ◌≤◌, Text, ◌==◌, eq_iff, true, false, Option, some, ◌≡◌, ◌↔◌, refl, ap, inl, inr,
  arith, Bool-cases, leb, ltb,
}
use plant_ops.Authentication.{JwtClaims}
use plant_ops.Tokens.{
  unsupported_algorithm, unknown_key, bad_signature, expired, not_yet_valid, wrong_issuer, ok,
  rejected, require, Jose, ParsedJws, jwt_signing_algorithm, parse_compact_jws, verify_compact_jws,
  read_access_token_claims, accept_claims, verify_access_token,
}
use plant_ops.Tokens.Carried.{Carries, >>=-eq-ok, ok_or, read_access_token_claims_iff}
use plant_ops.Tokens.Parsed.{Parses, require-ok, parse_compact_jws-Parses, Parses-parse_compact_jws}

-- The token is signed with a published key, carries the claims, and is within its time.
pub record Verifies {PublicKey PrivateKey : Type 0} (jose : Jose PublicKey PrivateKey)
    (verification_key : Text → Option PublicKey) (issuer token : Text) (seconds : ℕ)
    (claims : JwtClaims) : Type 0 where
  pub parsed : ParsedJws
  pub key : PublicKey
  pub parses : Parses jose token parsed
  pub algorithm : parsed.alg ≡ jwt_signing_algorithm
  pub published : verification_key parsed.kid ≡ some key
  pub signed : jose.check parsed.signing_input key parsed.signature ≡ true
  pub carries : Carries parsed.payload claims
  pub issued_by : claims.iss ≡ issuer
  pub not_over : seconds < claims.exp + clock_skew_leeway_seconds
  pub begun : claims.iat ≤ seconds + clock_skew_leeway_seconds

pub accept_claims_lem :
    (claims : JwtClaims) (issuer : Text) (seconds : ℕ)
    → claims.iss ≡ issuer
    → seconds < claims.exp + clock_skew_leeway_seconds
    → claims.iat ≤ seconds + clock_skew_leeway_seconds
    → accept_claims claims issuer seconds ≡ ok claims
unfolding accept_claims
accept_claims_lem claims issuer seconds i e b =
    let same : (claims.iss == issuer) ≡ true = (eq_iff claims.iss issuer).1 i in
    let live : leb (claims.exp + clock_skew_leeway_seconds) seconds ≡ false = ground (arith, e) in
    let begun : ltb (seconds + clock_skew_leeway_seconds) claims.iat ≡ false = ground (arith, b) in
    rw (same, live, begun) refl

accept_claims-ok :
    (read claims : JwtClaims) (issuer : Text) (seconds : ℕ)
    → accept_claims read issuer seconds ≡ ok claims
    → (read ≡ claims)
      × (read.iss ≡ issuer)
      × (seconds < read.exp + clock_skew_leeway_seconds)
      × (read.iat ≤ seconds + clock_skew_leeway_seconds)
unfolding accept_claims
accept_claims-ok read claims issuer seconds h = elim (Bool-cases (read.iss == issuer)) [
  | inr e ↦ absurd (let k : rejected wrong_issuer ≡ ok claims = rw e at h in ground (arith, k))
  | inl e ↦ elim (Bool-cases (leb (read.exp + clock_skew_leeway_seconds) seconds)) [
    | inl f ↦ absurd (let k : rejected expired ≡ ok claims = rw (e, f) at h in ground (arith, k))
    | inr f ↦ elim (Bool-cases (ltb (seconds + clock_skew_leeway_seconds) read.iat)) [
      | inl g ↦
          absurd
            (let k : rejected not_yet_valid ≡ ok claims = rw (e, f, g) at h in ground (arith, k))
      | inr g ↦
          let k : ok read ≡ ok claims = rw (e, f, g) at h in
          (ap (ok_or read) k, (eq_iff read.iss issuer).0 e, ground (arith, f), ground (arith, g))
    ]
  ]
]

verify_compact_jws-ok :
    {PublicKey PrivateKey : Type 0} (jose : Jose PublicKey PrivateKey)
    → (parsed : ParsedJws) (key : PublicKey) (done : Unit {0})
    → verify_compact_jws jose parsed key ≡ ok done
    → (parsed.alg ≡ jwt_signing_algorithm)
      × (jose.check parsed.signing_input key parsed.signature ≡ true)
unfolding verify_compact_jws
verify_compact_jws-ok jose parsed key done h =
    elim (Bool-cases (parsed.alg == jwt_signing_algorithm)) [
      | inr e ↦
          absurd (let k : rejected unsupported_algorithm ≡ ok done = rw e at h in ground (arith, k))
      | inl e ↦ elim (Bool-cases (jose.check parsed.signing_input key parsed.signature)) [
        | inl f ↦ ((eq_iff parsed.alg jwt_signing_algorithm).0 e, f)
        | inr f ↦
            absurd (let k : rejected bad_signature ≡ ok done = rw (e, f) at h in ground (arith, k))
      ]
    ]

pub verify_compact_jws_lem :
    {PublicKey PrivateKey : Type 0} (jose : Jose PublicKey PrivateKey)
    → (parsed : ParsedJws) (key : PublicKey) → parsed.alg ≡ jwt_signing_algorithm
    → jose.check parsed.signing_input key parsed.signature ≡ true
    → verify_compact_jws jose parsed key ≡ ok tt
unfolding verify_compact_jws
verify_compact_jws_lem jose parsed key a c =
    let same : (parsed.alg == jwt_signing_algorithm) ≡ true =
      (eq_iff parsed.alg jwt_signing_algorithm).1 a in
    rw (same, c) refl

-- With any base64url, JSON and signatures: an access token is verified, with given claims,
-- exactly when it has three base64url segments, of which the first is read as a header that names
-- RS256 and a key, the key is published under that name and accepts the third segment over the
-- first two with the dot between them, and the second is read as a payload of exactly the seven
-- claims with those values, where the strings are not empty, the issuer is the expected one, the
-- time is before the expiry and not before the issue, each by 60 seconds of leeway.
pub verify_access_token_iff :
    {PublicKey PrivateKey : Type 0} (jose : Jose PublicKey PrivateKey)
    → (verification_key : Text → Option PublicKey) (issuer token : Text) (seconds : ℕ)
    → (claims : JwtClaims)
    → (verify_access_token jose verification_key issuer token seconds ≡ ok claims)
      ↔ Verifies jose verification_key issuer token seconds claims
unfolding verify_access_token
verify_access_token_iff jose verification_key issuer token seconds claims = (
  λ h.
      let (parsed, a, h1) = >>=-eq-ok (parse_compact_jws jose token) _ claims h in
      let (key, b, h2) =
        >>=-eq-ok (require unknown_key (verification_key parsed.kid)) _ claims h1 in
      let (done, c, h3) = >>=-eq-ok (verify_compact_jws jose parsed key) _ claims h2 in
      let (read, d, h4) = >>=-eq-ok (read_access_token_claims parsed.payload) _ claims h3 in
      let (same, i, e, n) = accept_claims-ok read claims issuer seconds h4 in
      let checked = verify_compact_jws-ok jose parsed key done c in
      (record {
        parsed = parsed;
        key = key;
        parses = parse_compact_jws-Parses jose token parsed a;
        algorithm = checked.0;
        published = require-ok unknown_key (verification_key parsed.kid) key b;
        signed = checked.1;
        carries =
            subst (Carries parsed.payload) same
              ((read_access_token_claims_iff parsed.payload read).0 d);
        issued_by = subst (λ c. c.iss ≡ issuer) same i;
        not_over = subst (λ c. seconds < c.exp + clock_skew_leeway_seconds) same e;
        begun = subst (λ c. c.iat ≤ seconds + clock_skew_leeway_seconds) same n;
      }),
  λ v.
      rw
        (
          Parses-parse_compact_jws jose token v.parsed v.parses,
          v.published,
          verify_compact_jws_lem jose v.parsed v.key v.algorithm v.signed,
          (read_access_token_claims_iff v.parsed.payload claims).1 v.carries,
        )
        (accept_claims_lem claims issuer seconds v.issued_by v.not_over v.begun),
)
