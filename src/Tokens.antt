-- ===== src/Tokens.antt =====
-- Access tokens: claims.ts (in Tokens/Claims) and jws.ts of libs/auth-kit/src, with TokenService of
-- apps/iam-api/src/auth/token.service.ts. The cryptography, base64url and JSON are parameters.
pub mod Claims
pub mod Carried
pub mod Parsed
pub mod Signed
pub mod Issued
pub mod Letters
mod Tests
unfoldable pub use Claims.*
use plant_ops.Refresh.Token.{is_base64url}
use plant_ops.Prelude.{
  ℕ, ◌+◌, Text, codes, ◌==◌, Bool, true, false, not, ◌&&◌, ◌||◌, List, [], ◌∷◌, ◌++◌, Option, none,
  some, any, all, includes, ltb, leb, ◌=?◌, if◌then◌else◌,
}
use plant_ops.Scope.{split, separator}
use plant_ops.Resolver.{SubjectType, type_name}
use plant_ops.Authentication.{JwtClaims}

-- `BASE64URL_SEGMENT`
abbrev pub is_base64url_segment : Text → Bool
is_base64url_segment [] = false
is_base64url_segment (c ∷ s) = all is_base64url (c ∷ s)

-- What the code takes from Node: the segments of an object, and signatures as their segments.
pub record Jose (PublicKey PrivateKey : Type 0) : Type 0 where
  pub encode : Payload → Text
  pub decode : Text → Option Payload
  pub sign : Text → PrivateKey → Text
  pub check : Text → PublicKey → Text → Bool

pub record ParsedJws : Type 0 where
  pub alg : Text
  pub kid : Text
  pub payload : Payload
  pub signing_input : Text
  pub signature : Text

abbrev pub jwt_signing_algorithm : Text
jwt_signing_algorithm = codes "RS256"

abbrev pub text_member : Option Member → Option Text
text_member (some (text s)) = some s
text_member _ = none

abbrev pub kid_claim : Option Member → Verified Text
unfolding text_claim
kid_claim member = elim (text_claim member) [ ok kid ↦ ok kid | rejected r ↦ rejected malformed ]

-- `{ ...claims }`, which is all that `assertExactClaims` returns of its seven members.
abbrev pub payload_of : JwtClaims → Payload
payload_of claims =
    (codes "iss", text claims.iss)
    ∷ (codes "sub", text claims.sub)
    ∷ (codes "sty", text (type_name claims.sty))
    ∷ (codes "cid", text claims.cid)
    ∷ (codes "sid", text claims.sid)
    ∷ (codes "iat", integer claims.iat)
    ∷ (codes "exp", integer claims.exp)
    ∷ []

abbrev pub header_of : Text → Payload
header_of kid =
    (codes "alg", text jwt_signing_algorithm)
    ∷ (codes "typ", text (codes "JWT"))
    ∷ (codes "kid", text kid)
    ∷ []

module _ {PublicKey PrivateKey : Type 0} (jose : Jose PublicKey PrivateKey) where
  unfoldable pub decode_segment : Text → Verified Payload
  decode_segment segment =
      if is_base64url_segment segment
      then require malformed (jose.decode segment)
      else rejected malformed

  unfoldable pub parse_parts : Text → Text → Text → Verified ParsedJws
  unfolding decode_segment get_member text_claim
  parse_parts h p s = do
    header ← decode_segment h
    payload ← decode_segment p
    alg ← require malformed (text_member (get_member header (codes "alg")))
    kid ← kid_claim (get_member header (codes "kid"))
    ok (record {
      alg = alg;
      kid = kid;
      payload = payload;
      signing_input = h ++ separator ∷ p;
      signature = s;
    })

  unfoldable pub parse_segments : List Text → Verified ParsedJws
  unfolding parse_parts
  parse_segments (h ∷ p ∷ s ∷ []) =
      if not (is_base64url_segment s) then rejected malformed else parse_parts h p s
  parse_segments segments = rejected malformed

  -- `parseCompactJws`, as the verifiers call it.
  unfoldable pub parse_compact_jws : Text → Verified ParsedJws
  unfolding parse_segments split
  parse_compact_jws token = parse_segments (split separator token)

  -- `verifyCompactJws`, with the rejections of its callers.
  unfoldable pub verify_compact_jws : ParsedJws → PublicKey → Verified (Unit {0})
  verify_compact_jws parsed key =
      if not (parsed.alg == jwt_signing_algorithm)
      then rejected unsupported_algorithm
      else if jose.check parsed.signing_input key parsed.signature
      then ok tt
      else rejected bad_signature

  -- `verifyAccessToken`
  unfoldable pub verify_access_token :
      (Text → Option PublicKey) → Text → Text → ℕ → Verified JwtClaims
  unfolding parse_compact_jws verify_compact_jws read_access_token_claims accept_claims
  verify_access_token verification_key issuer token seconds = do
    parsed ← parse_compact_jws token
    key ← require unknown_key (verification_key parsed.kid)
    done ← verify_compact_jws parsed key
    claims ← read_access_token_claims parsed.payload
    accept_claims claims issuer seconds

  -- `signCompactJws`
  unfoldable pub sign_compact_jws : Payload → PrivateKey → Text → Text
  sign_compact_jws payload key kid =
      let signing_input = jose.encode (header_of kid) ++ separator ∷ jose.encode payload in
      signing_input ++ separator ∷ jose.sign signing_input key

  -- `issueAccessToken`: the token and its claims, with the lifetime of the subject's type.
  unfoldable pub issue_access_token :
      (SubjectType → ℕ)
      → Text
      → PrivateKey
      → Text
      → Text
      → SubjectType
      → Text
      → Text
      → ℕ
      → Text × JwtClaims
  unfolding sign_compact_jws
  issue_access_token ttl issuer key kid subject_id subject_type client_id session_id now =
      let claims : JwtClaims = record {
        iss = issuer;
        sub = subject_id;
        sty = subject_type;
        cid = client_id;
        sid = session_id;
        iat = now;
        exp = now + ttl subject_type;
      } in
      (sign_compact_jws (payload_of claims) key kid, claims)
