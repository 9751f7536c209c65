-- ===== src/Tokens/Issued.antt =====
-- An issued token is verified until it expires.
use plant_ops.Contracts.{clock_skew_leeway_seconds}
use plant_ops.Prelude.{
  ℕ, ◌+◌, ◌≤◌, Text, ◌==◌, eq_iff, true, false, [], ◌++◌, ◌∷◌, includes, Option, some, ◌≡◌, ◌≢◌,
  refl, arith, if◌then◌else◌, leb, ltb,
}
use plant_ops.Resolver.{SubjectType}
use plant_ops.Authentication.{JwtClaims}
use plant_ops.Scope.{separator}
use plant_ops.Tokens.{
  expired, ok, rejected, Payload, get_member, payload_of, header_of, is_base64url_segment, Jose,
  ParsedJws, jwt_signing_algorithm, parse_compact_jws, accept_claims, verify_access_token,
  sign_compact_jws, issue_access_token,
}
use plant_ops.Tokens.Carried.{Carries, read_access_token_claims_iff}
use plant_ops.Tokens.Parsed.{Parses, Parses-parse_compact_jws}
use plant_ops.Tokens.Signed.{verify_compact_jws_lem}

-- What the code relies on: segments read back, and signatures that their key accepts.
pub record JoseLaws {PublicKey PrivateKey : Type 0} (jose : Jose PublicKey PrivateKey)
    (public_of : PrivateKey → PublicKey) : Type 0 where
  pub decode-encode : (payload : Payload) → jose.decode (jose.encode payload) ≡ some payload
  pub encode_safe : (payload : Payload) → is_base64url_segment (jose.encode payload) ≡ true
  pub sign_safe :
      (input : Text) (key : PrivateKey) → is_base64url_segment (jose.sign input key) ≡ true
  pub check-sign :
      (input : Text) (key : PrivateKey)
      → jose.check input (public_of key) (jose.sign input key) ≡ true

-- The strings of a payload that is written are given.
pub record AreGiven (claims : JwtClaims) : Type 0 where
  pub iss : claims.iss ≢ []
  pub sub : claims.sub ≢ []
  pub cid : claims.cid ≢ []
  pub sid : claims.sid ≢ []

payload_of-Carries : (claims : JwtClaims) → AreGiven claims → Carries (payload_of claims) claims
unfolding get_member ◌==◌ includes
payload_of-Carries claims g = record {
  iss = refl;
  sub = refl;
  sty = refl;
  cid = refl;
  sid = refl;
  iat = refl;
  exp = refl;
  iss_given = g.iss;
  sub_given = g.sub;
  cid_given = g.cid;
  sid_given = g.sid;
  only = refl;
}

abbrev signed_parts :
    {PublicKey PrivateKey : Type 0}
    → Jose PublicKey PrivateKey
    → Payload
    → PrivateKey
    → Text
    → ParsedJws
signed_parts jose payload key kid =
    let signing_input = jose.encode (header_of kid) ++ separator ∷ jose.encode payload in
    record {
      alg = jwt_signing_algorithm;
      kid = kid;
      payload = payload;
      signing_input = signing_input;
      signature = jose.sign signing_input key;
    }

signed_parts-Parses :
    {PublicKey PrivateKey : Type 0} (jose : Jose PublicKey PrivateKey)
    → (public_of : PrivateKey → PublicKey) (laws : JoseLaws jose public_of)
    → (payload : Payload) (key : PrivateKey) (kid : Text) → kid ≢ []
    → Parses jose (sign_compact_jws jose payload key kid) (signed_parts jose payload key kid)
unfolding sign_compact_jws get_member ◌==◌
signed_parts-Parses jose public_of laws payload key kid given = record {
  head = jose.encode (header_of kid);
  body = jose.encode payload;
  header = header_of kid;
  spelt = refl;
  input = refl;
  head_safe = laws.encode_safe (header_of kid);
  body_safe = laws.encode_safe payload;
  signature_safe = laws.sign_safe _ key;
  head_read = laws.decode-encode (header_of kid);
  body_read = laws.decode-encode payload;
  alg = refl;
  kid = refl;
  kid_given = given;
}

-- A token that is written is read with the id of its key.
pub parse_compact_jws-sign_compact_jws :
    {PublicKey PrivateKey : Type 0} (jose : Jose PublicKey PrivateKey)
    → (public_of : PrivateKey → PublicKey) (laws : JoseLaws jose public_of)
    → (payload : Payload) (key : PrivateKey) (kid : Text) → kid ≢ []
    → (parsed : ParsedJws) × (parse_compact_jws jose (sign_compact_jws jose payload key kid)
        ≡ ok parsed)
      × (parsed.kid ≡ kid)
parse_compact_jws-sign_compact_jws jose public_of laws payload key kid given =
    let parsed = signed_parts jose payload key kid in
    (
      parsed,
      Parses-parse_compact_jws jose (sign_compact_jws jose payload key kid) parsed
          (signed_parts-Parses jose public_of laws payload key kid given),
      refl,
    )

accept_claims-time :
    (claims : JwtClaims) (later : ℕ)
    → claims.iat ≤ later + clock_skew_leeway_seconds
    → accept_claims claims claims.iss later
      ≡ (if leb (claims.exp + clock_skew_leeway_seconds) later then rejected expired else ok claims)
unfolding accept_claims
accept_claims-time claims later h =
    let same : (claims.iss == claims.iss) ≡ true = (eq_iff claims.iss claims.iss).1 refl in
    let begun : ltb (later + clock_skew_leeway_seconds) claims.iat ≡ false = ground (arith, h) in
    rw (same, begun) refl

-- Where segments read back and a key accepts its own signatures: a token that is issued for given
-- strings, with a key that is published under its id, is verified with the claims it was issued
-- with at each later time, and up to 60 seconds before, until 60 seconds after its lifetime; from
-- then on it is rejected as expired.
pub verify_access_token-issue_access_token :
    {PublicKey PrivateKey : Type 0} (jose : Jose PublicKey PrivateKey)
    → (public_of : PrivateKey → PublicKey) (laws : JoseLaws jose public_of)
    → (verification_key : Text → Option PublicKey) (ttl : SubjectType → ℕ)
    → (issuer : Text) (key : PrivateKey) (kid subject_id : Text) (subject_type : SubjectType)
    → (client_id session_id : Text) (now later : ℕ) → issuer ≢ []
    → kid ≢ []
    → subject_id ≢ []
    → client_id ≢ []
    → session_id ≢ []
    → verification_key kid ≡ some (public_of key)
    → now ≤ later + clock_skew_leeway_seconds
    → let issued =
        issue_access_token jose ttl issuer key kid subject_id subject_type client_id session_id
          now in
      verify_access_token jose verification_key issuer issued.0 later ≡ (
        if leb (now + ttl subject_type + clock_skew_leeway_seconds) later
        then rejected expired
        else ok issued.1)
unfolding verify_access_token issue_access_token
verify_access_token-issue_access_token jose public_of laws verification_key ttl issuer key kid
      subject_id subject_type client_id session_id now later i k s c d published begun =
    let claims : JwtClaims = record {
      iss = issuer;
      sub = subject_id;
      sty = subject_type;
      cid = client_id;
      sid = session_id;
      iat = now;
      exp = now + ttl subject_type;
    } in
    let payload = payload_of claims in
    let parsed = signed_parts jose payload key kid in
    rw
      (
        Parses-parse_compact_jws jose (sign_compact_jws jose payload key kid) parsed
            (signed_parts-Parses jose public_of laws payload key kid k),
        published,
        verify_compact_jws_lem jose parsed (public_of key) refl
            (laws.check-sign parsed.signing_input key),
        (read_access_token_claims_iff payload claims).1
            (payload_of-Carries claims (record { iss = i; sub = s; cid = c; sid = d })),
      )
      (accept_claims-time claims later begun)
