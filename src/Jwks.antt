-- ===== src/Jwks.antt =====
-- Tokens at a consumer: `JwksVerifier` of libs/auth-kit/src/jwks-verifier.ts, call after call. The
-- endpoint is the list of its answers by the number of the request; times are milliseconds.
pub mod Agreed
pub mod Paced
pub mod Renewed
pub mod Flooded
mod Tests
use plant_ops.Contracts.{jwks_cache_max_age_seconds}
use plant_ops.Prelude.{
  ℕ, suc, ◌+◌, ◌*◌, ◌/◌, Text, codes, ◌==◌, Bool, true, false, not, ◌&&◌, List, [], ◌∷◌, Option,
  none, some, leb, if◌then◌else◌,
}
use plant_ops.Authentication.{JwtClaims}
use plant_ops.Tokens.{
  unknown_key, Verified, ok, rejected, ◌>>=◌, require, Member, text, Payload, get_member,
  text_claim, text_member, Jose, ParsedJws, jwt_signing_algorithm, parse_compact_jws,
  verify_compact_jws, read_access_token_claims, accept_claims,
}

-- What an answer holds: its `keys`, if that is an array, with its members that are objects.
abbrev pub JwksDocument : Type 0
JwksDocument = Option (List (Option Payload))

-- The answer to each request, none where the request fails.
abbrev pub Endpoint : Type 0
Endpoint = ℕ → Option JwksDocument

pub record KeyCache (PublicKey : Type 0) : Type 0 where
  pub keys : List (Text × PublicKey)
  pub fetched_at_ms : ℕ

pub record JwksVerifierOptions : Type 0 where
  pub issuer : Text
  pub cache_max_age_seconds : Option ℕ
  pub min_refetch_interval_seconds : Option ℕ

abbrev pub default_min_refetch_interval_seconds : ℕ
default_min_refetch_interval_seconds = 30

abbrev pub jwt_min_rsa_key_bits : ℕ
jwt_min_rsa_key_bits = 2048

abbrev pub or_default : Option ℕ → ℕ → ℕ
or_default none n = n
or_default (some m) n = m

abbrev pub max_age_ms : JwksVerifierOptions → ℕ
max_age_ms options = or_default options.cache_max_age_seconds jwks_cache_max_age_seconds * 1000

abbrev pub min_refetch_ms : JwksVerifierOptions → ℕ
min_refetch_ms options =
    or_default options.min_refetch_interval_seconds default_min_refetch_interval_seconds * 1000

-- The verifier, and how many requests it has sent.
pub record JwksVerifier (PublicKey : Type 0) : Type 0 where
  pub cache : Option (KeyCache PublicKey)
  pub requests : ℕ

-- `Map.get` of a map whose last entry stands first.
unfoldable pub get_key : {K : Type 0} → List (Text × K) → Text → Option K
get_key [] kid = none
get_key ((k, key) ∷ keys) kid = if k == kid then some key else get_key keys kid

-- A member that is absent or has the value.
abbrev pub is_absent_or : Text → Option Member → Bool
is_absent_or s none = true
is_absent_or s (some (text t)) = t == s
is_absent_or s (some _) = false

abbrev pub is_text : Text → Option Member → Bool
is_text s (some (text t)) = t == s
is_text s _ = false

abbrev pub is_missing : Option Member → Bool
is_missing none = true
is_missing (some m) = false

abbrev pub given_text : Option Member → Option Text
given_text (some (text (c ∷ s))) = some (c ∷ s)
given_text _ = none

-- `readJwks`: the objects with a key id that is a string and not empty.
unfoldable pub read_entries : List (Option Payload) → List (Text × Payload)
unfolding get_member
read_entries [] = []
read_entries (none ∷ entries) = read_entries entries
read_entries (some jwk ∷ entries) =
    let rest = read_entries entries in
    elim (given_text (get_member jwk (codes "kid"))) [ none ↦ rest | some kid ↦ (kid, jwk) ∷ rest ]

abbrev pub read_jwks : JwksDocument → List (Text × Payload)
unfolding read_entries
read_jwks none = []
read_jwks (some entries) = read_entries entries

abbrev pub large_enough : {K : Type 0} → Option (K × ℕ) → Option K
large_enough none = none
large_enough (some (key, bits)) = if leb jwt_min_rsa_key_bits bits then some key else none

abbrev pub kept : {K : Type 0} → Option (KeyCache K) → Verified (KeyCache K) → Option (KeyCache K)
kept cache (ok fetched) = some fetched
kept cache (rejected r) = cache

unfoldable pub keys_of : {K : Type 0} → Option (KeyCache K) → Text → Option K
unfolding get_key
keys_of none kid = none
keys_of (some cache) kid = get_key cache.keys kid

-- Whether a lookup asks the endpoint.
unfoldable pub is_due : {K : Type 0} → JwksVerifierOptions → Option (KeyCache K) → ℕ → Bool → Bool
is_due options none now force_refetch = true
is_due options (some cache) now force_refetch =
    if force_refetch
    then leb (cache.fetched_at_ms + min_refetch_ms options) now
    else leb (cache.fetched_at_ms + max_age_ms options) now

module _ {PublicKey : Type 0} (create_public_key : Payload → Option (PublicKey × ℕ)) where
  -- `importJwk`; `createPublicKey` answers with the key and the length of its modulus.
  unfoldable pub import_jwk : Payload → Option PublicKey
  unfolding get_member
  import_jwk jwk =
      if not (is_text (codes "RSA") (get_member jwk (codes "kty")))
      then none
      else if not (is_absent_or (codes "sig") (get_member jwk (codes "use")))
      then none
      else if not (is_absent_or jwt_signing_algorithm (get_member jwk (codes "alg")))
      then none
      else if not (is_missing (get_member jwk (codes "d")))
      then none
      else large_enough (create_public_key jwk)

  -- A map that is set key by key.
  unfoldable pub import_keys :
      List (Text × Payload) → List (Text × PublicKey) → List (Text × PublicKey)
  unfolding import_jwk
  import_keys [] keys = keys
  import_keys ((kid, jwk) ∷ entries) keys =
      import_keys entries (elim (import_jwk jwk) [ none ↦ keys | some key ↦ (kid, key) ∷ keys ])

  -- `fetchKeys`
  unfoldable pub fetch_keys :
      Option (KeyCache PublicKey) → ℕ → Option JwksDocument → Verified (KeyCache PublicKey)
  unfolding import_keys read_entries
  fetch_keys none now none = rejected unknown_key
  fetch_keys (some cache) now none = ok cache
  fetch_keys cache now (some document) =
      ok (record { keys = import_keys (read_jwks document) []; fetched_at_ms = now })

  module _ (options : JwksVerifierOptions) (endpoint : Endpoint) where
    -- `refresh`, with no other call in flight.
    unfoldable pub refresh :
        JwksVerifier PublicKey → ℕ → Verified (KeyCache PublicKey) × JwksVerifier PublicKey
    unfolding fetch_keys
    refresh st now =
        let fetched = fetch_keys st.cache now (endpoint st.requests) in
        (fetched, record { cache = kept st.cache fetched; requests = suc st.requests })

    -- `keyFor`
    unfoldable pub key_for :
        JwksVerifier PublicKey
        → Text
        → ℕ
        → Bool
        → Verified (Option PublicKey) × JwksVerifier PublicKey
    unfolding refresh is_due keys_of
    key_for st kid now force_refetch =
        if is_due options st.cache now force_refetch
        then ((do cache ← (refresh st now).0; ok (get_key cache.keys kid)), (refresh st now).1)
        else (ok (keys_of st.cache kid), st)

    -- An unknown key is looked for once more.
    unfoldable pub look_again :
        Text
        → ℕ
        → Verified (Option PublicKey)
        → JwksVerifier PublicKey
        → Verified (Option PublicKey) × JwksVerifier PublicKey
    unfolding key_for
    look_again kid now (rejected r) st = (rejected r, st)
    look_again kid now (ok (some key)) st = (ok (some key), st)
    look_again kid now (ok none) st = key_for st kid now true

    unfoldable pub look_up :
        JwksVerifier PublicKey → Text → ℕ → Verified (Option PublicKey) × JwksVerifier PublicKey
    unfolding look_again
    look_up st kid now = let first = key_for st kid now false in look_again kid now first.0 first.1

    module _ {PrivateKey : Type 0} (jose : Jose PublicKey PrivateKey) where
      unfoldable pub verify_parsed :
          JwksVerifier PublicKey
          → Verified ParsedJws
          → ℕ
          → Verified JwtClaims × JwksVerifier PublicKey
      unfolding look_up verify_compact_jws read_access_token_claims accept_claims
      verify_parsed st (rejected r) now = (rejected r, st)
      verify_parsed st (ok parsed) now =
          let found = look_up st parsed.kid now in
          (
            (do
              known ← found.0
              key ← require unknown_key known
              done ← verify_compact_jws jose parsed key
              claims ← read_access_token_claims parsed.payload
              accept_claims claims options.issuer (now / 1000)),
            found.1,
          )

      -- `verify`
      unfoldable pub verify :
          JwksVerifier PublicKey → Text → ℕ → Verified JwtClaims × JwksVerifier PublicKey
      unfolding parse_compact_jws verify_parsed
      verify st token now = verify_parsed st (parse_compact_jws jose token) now

      -- Calls one after the other, each with its time.
      unfoldable pub verify_all :
          JwksVerifier PublicKey
          → List (Text × ℕ)
          → List (Verified JwtClaims) × JwksVerifier PublicKey
      unfolding verify
      verify_all st [] = ([], st)
      verify_all st ((token, now) ∷ calls) =
          let answer = verify st token now in
          let rest = verify_all answer.1 calls in (answer.0 ∷ rest.0, rest.1)
