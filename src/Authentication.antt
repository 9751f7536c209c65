-- ===== src/Authentication.antt =====
-- Who a request comes from: `AuthGuard` with `isRevoked` and `bearerTokenOf` of
-- libs/auth-kit/src/auth.guard.ts, `RevocationCache` of libs/auth-kit/src/revocation-cache.ts and
-- `revokedSessionKey` of libs/contracts/src/constants.ts. The token verifier, the store's commands,
-- the fallback and `toLowerCase` are parameters; `none` stands for a call that throws.
pub mod Admitted
pub mod Revoked
mod Tests
use plant_ops.Prelude.{
  ℕ, Text, codes, ◌==◌, Bool, true, false, not, List, [], ◌∷◌, ◌++◌, Option, none, some, ltb,
  if◌then◌else◌, ◌>>=◌,
}
use plant_ops.Scope.{split}
use plant_ops.Resolver.{SubjectType}

-- A header of Node: absent, one string, or an array of strings.
pub data Header : Type 0 where
  absent : Header
  single : Text → Header
  repeated : List Text → Header

abbrev pub space : ℕ
space = 32

-- The parts of the header: a scheme, and exactly one more that is not empty.
unfoldable pub token_of : (Text → Text) → List Text → Option Text
unfolding ◌==◌
token_of lower (scheme ∷ token ∷ []) =
    if not (lower scheme == codes "bearer") then none else if token == [] then none else some token
token_of lower parts = none

unfoldable pub bearer_token_of : (Text → Text) → Header → Option Text
unfolding token_of split
bearer_token_of lower (single header) = token_of lower (split space header)
bearer_token_of lower _ = none

unfoldable pub revoked_session_key : Text → Text
revoked_session_key session_id = codes "revoked-sid:" ++ session_id

-- `RevocationCache.isRevoked`, over the store's `EXISTS`
unfoldable pub is_revoked_in_cache : (Text → Option ℕ) → Text → Option Bool
unfolding revoked_session_key
is_revoked_in_cache exists session_id =
    exists (revoked_session_key session_id) >>= (λ n. some (ltb 0 n))

-- The one command that `RevocationCache.revoke` sends: `SET key 1 EX ttl`, at the time `now`.
unfoldable pub revoke :
    {Store : Type 0} (set_ex : ℕ → Text → Text → ℕ → Store → Store) → ℕ → ℕ → Text → Store → Store
unfolding revoked_session_key
revoke set_ex ttl_seconds now session_id store =
    set_ex now (revoked_session_key session_id) (codes "1") ttl_seconds store

pub record JwtClaims : Type 0 where
  pub iss : Text
  pub sub : Text
  pub sty : SubjectType
  pub cid : Text
  pub sid : Text
  pub iat : ℕ
  pub exp : ℕ

pub data WhenUnavailable : Type 0 where
  deny allow : WhenUnavailable

-- `(onRevocationUnavailable ?? 'deny') === 'deny'`
abbrev pub denies : Option WhenUnavailable → Bool
denies none = true
denies (some deny) = true
denies (some allow) = false

pub data Authentication : Type 0 where
  unauthorized : Authentication
  admitted : Option JwtClaims → Authentication

-- What the reflector and the request say.
pub record Arrival : Type 0 where
  pub is_http : Bool
  pub is_public : Bool
  pub authorization : Header

-- The collaborators that the guard is built with.
pub record Guard : Type 0 where
  pub lower : Text → Text
  pub verify : Text → Option JwtClaims
  pub exists : Text → Option ℕ
  pub fallback : Option (JwtClaims → Option Bool)
  pub on_unavailable : Option WhenUnavailable

module _ (guard : Guard) where
  -- The two sources have failed, or the second one has answered.
  unfoldable pub after_fallback : Option Bool → Bool
  after_fallback none = denies guard.on_unavailable
  after_fallback (some answer) = answer

  unfoldable pub after_cache : JwtClaims → Option Bool → Bool
  unfolding after_fallback
  after_cache claims (some answer) = answer
  after_cache claims none = after_fallback (guard.fallback >>= (λ ask. ask claims))

  -- `isRevoked`
  unfoldable pub is_revoked : JwtClaims → Bool
  unfolding is_revoked_in_cache after_cache
  is_revoked claims = after_cache claims (is_revoked_in_cache guard.exists (claims.sid))

  unfoldable pub admit_verified : Option JwtClaims → Authentication
  unfolding is_revoked
  admit_verified none = unauthorized
  admit_verified (some claims) = if is_revoked claims then unauthorized else admitted (some claims)

  unfoldable pub admit_bearer : Option Text → Authentication
  unfolding admit_verified
  admit_bearer none = unauthorized
  admit_bearer (some token) = admit_verified (guard.verify token)

  -- `canActivate`: refused, or let through with the claims that the sink accepts, if any.
  unfoldable pub authenticate : Arrival → Authentication
  unfolding admit_bearer bearer_token_of
  authenticate arrival =
      if not arrival.is_http
      then admitted none
      else if arrival.is_public
      then admitted none
      else admit_bearer (bearer_token_of guard.lower arrival.authorization)
