-- ===== src/Authentication/Admitted.antt =====
-- `AuthGuard`: which requests are let through with claims.
use plant_ops.Prelude.{
  Text, codes, ◌==◌, eq_iff, ne_of_eq_false, true, false, List, [], ◌∷◌, ◌++◌, Option, none, some,
  ltb, ◌>>=◌, ◌≡◌, ◌≢◌, ◌↔◌, refl, sym, ap, ◌∙◌, inl, inr, arith, Bool-cases, Option-cases, All,
}
use mathlib.Core.Path.{subst}
use plant_ops.Scope.{split, join}
use plant_ops.Scope.Moves.{join-split, HasNo, split-append, split_of_HasNo, split-HasNo}
use plant_ops.Authentication.{
  Header, absent, single, repeated, space, token_of, bearer_token_of, revoked_session_key,
  is_revoked_in_cache, JwtClaims, WhenUnavailable, deny, allow, denies, unauthorized, admitted,
  Arrival, Guard, after_fallback, after_cache, is_revoked, admit_verified, admit_bearer,
  authenticate,
}

-- The header is a scheme in any case, one space, and the token.
IsBearer : (Text → Text) → Header → Text → Type 0
IsBearer lower header token =
    (scheme : Text) × (header ≡ single (scheme ++ space ∷ token))
    × HasNo space scheme
    × HasNo space token
    × (lower scheme ≡ codes "bearer")
    × (token ≢ [])

-- Who vouches that the session is not revoked.
pub data IsLive (guard : Guard) (claims : JwtClaims) : Type 0 where
  by_cache : guard.exists (revoked_session_key claims.sid) ≡ some 0 → IsLive guard claims
  by_fallback :
      guard.exists (revoked_session_key claims.sid) ≡ none
      → (guard.fallback >>= (λ ask. ask claims)) ≡ some false
      → IsLive guard claims
  by_option :
      guard.exists (revoked_session_key claims.sid) ≡ none
      → (guard.fallback >>= (λ ask. ask claims)) ≡ none
      → guard.on_unavailable ≡ some allow
      → IsLive guard claims

join_two : (p q : Text) → join space (p ∷ q ∷ []) ≡ p ++ space ∷ q
unfolding join
join_two p q = refl

denies_iff : (o : Option WhenUnavailable) → denies o ≡ false → o ≡ some allow
denies_iff none h = absurd (ground (arith, h))
denies_iff (some deny) h = absurd (ground (arith, h))
denies_iff (some allow) h = refl

module _ (guard : Guard) (claims : JwtClaims) where
  is_revoked-IsLive : is_revoked guard claims ≡ false → IsLive guard claims
  unfolding is_revoked is_revoked_in_cache after_cache after_fallback
  is_revoked-IsLive h = elim (Option-cases (guard.exists (revoked_session_key claims.sid))) [
    | inl e ↦ elim (Option-cases (guard.fallback >>= (λ ask. ask claims))) [
      | inl f ↦ by_option e f (denies_iff _ (rw (e, f) at h))
      | inr (b, f) ↦ (let k : b ≡ false = rw (e, f) at h in by_fallback e (f ∙ ap some k))
    ]
    | inr (n, e) ↦ (let k : ltb 0 n ≡ false = rw e at h in by_cache (e ∙ ap some (ground arith)))
  ]

  IsLive-is_revoked : IsLive guard claims → is_revoked guard claims ≡ false
  unfolding is_revoked is_revoked_in_cache after_cache after_fallback
  IsLive-is_revoked (by_cache e) = rw e refl
  IsLive-is_revoked (by_fallback e f) = rw (e, f) refl
  IsLive-is_revoked (by_option e f g) = rw (e, f, g) refl

token_of_lem :
    (lower : Text → Text) (scheme token : Text)
    → lower scheme ≡ codes "bearer"
    → token ≢ []
    → token_of lower (scheme ∷ token ∷ []) ≡ some token
unfolding token_of
token_of_lem lower scheme token e n = elim (Bool-cases (token == [])) [
  | inl f ↦ absurd (n ((eq_iff token []).0 f))
  | inr f ↦ rw (e, f) refl
]

-- What the parts are where there is a token.
token_of-parts :
    (lower : Text → Text) (parts : List Text) (token : Text)
    → token_of lower parts ≡ some token
    → (scheme : Text) × (parts ≡ scheme ∷ token ∷ [])
      × (lower scheme ≡ codes "bearer")
      × (token ≢ [])
unfolding token_of
token_of-parts lower [] token h = absurd (ground (arith, h))
token_of-parts lower (a ∷ []) token h = absurd (ground (arith, h))
token_of-parts lower (a ∷ b ∷ c ∷ ps) token h = absurd (ground (arith, h))
token_of-parts lower (scheme ∷ b ∷ []) token h =
    elim (Bool-cases (lower scheme == codes "bearer")) [
      | inr e ↦ absurd (let k : none ≡ some token = rw e at h in ground (arith, k))
      | inl e ↦ elim (Bool-cases (b == [])) [
        | inl f ↦ absurd (let k : none ≡ some token = rw (e, f) at h in ground (arith, k))
        | inr f ↦
            let k : some b ≡ some token = rw (e, f) at h in
            let q : b ≡ token = ground (arith, k) in
            (
              scheme,
              ap (λ x. scheme ∷ x ∷ []) q,
              (eq_iff _ _).0 e,
              λ z. ne_of_eq_false b [] f (q ∙ z),
            )
      ]
    ]

bearer_token_of-IsBearer :
    (lower : Text → Text) (header : Header) (token : Text)
    → bearer_token_of lower header ≡ some token
    → IsBearer lower header token
unfolding bearer_token_of IsBearer
bearer_token_of-IsBearer lower absent token h = absurd (ground (arith, h))
bearer_token_of-IsBearer lower (repeated hs) token h = absurd (ground (arith, h))
bearer_token_of-IsBearer lower (single header) token h =
    let (scheme, e, b, n) = token_of-parts lower (split space header) token h in
    let parts : All (HasNo space) (scheme ∷ token ∷ []) = rw e at (split-HasNo space header) in
    let whole : join space (scheme ∷ token ∷ []) ≡ header =
      ap (join space) (sym e) ∙ join-split space header in
    (scheme, ap single (sym whole ∙ join_two scheme token), parts.0, parts.1.0, b, n)

IsBearer-bearer_token_of :
    (lower : Text → Text) (header : Header) (token : Text)
    → IsBearer lower header token
    → bearer_token_of lower header ≡ some token
unfolding bearer_token_of IsBearer
IsBearer-bearer_token_of lower header token (scheme, e, hs, ht, b, n) =
    let parts : split space (scheme ++ space ∷ token) ≡ scheme ∷ token ∷ [] =
      split-append space scheme token
      ∙ rw (split_of_HasNo space scheme hs, split_of_HasNo space token ht) refl in
    rw e (rw parts (token_of_lem lower scheme token b n))

-- The conditions under which a request is let through as the subject of `claims`.
pub Admits : Guard → Arrival → JwtClaims → Type 0
Admits guard arrival claims =
    (arrival.is_http ≡ true)
    × (arrival.is_public ≡ false)
    × (token : Text) × IsBearer guard.lower arrival.authorization token
    × (guard.verify token ≡ some claims)
    × IsLive guard claims

pub Admits-IsLive :
    (guard : Guard) (arrival : Arrival) (claims : JwtClaims)
    → Admits guard arrival claims
    → IsLive guard claims
unfolding Admits
Admits-IsLive guard arrival claims (_, _, _, _, _, l) = l

verified-IsLive :
    (guard : Guard) (verified : Option JwtClaims) (claims : JwtClaims)
    → admit_verified guard verified ≡ admitted (some claims)
    → (verified ≡ some claims) × IsLive guard claims
unfolding admit_verified
verified-IsLive guard none claims h = absurd (ground (arith, h))
verified-IsLive guard (some c) claims h = elim (Bool-cases (is_revoked guard c)) [
  | inl e ↦ absurd (let k : unauthorized ≡ admitted (some claims) = rw e at h in ground (arith, k))
  | inr e ↦
      let k : admitted (some c) ≡ admitted (some claims) = rw e at h in
      let q : c ≡ claims = ground (arith, k) in
      (ap some q, subst (IsLive guard) q (is_revoked-IsLive guard c e))
]

bearer-Admits :
    (guard : Guard) (bearer : Option Text) (claims : JwtClaims)
    → admit_bearer guard bearer ≡ admitted (some claims)
    → (token : Text) × (bearer ≡ some token)
      × (guard.verify token ≡ some claims)
      × IsLive guard claims
unfolding admit_bearer
bearer-Admits guard none claims h = absurd (ground (arith, h))
bearer-Admits guard (some token) claims h =
    let (v, l) = verified-IsLive guard (guard.verify token) claims h in (token, refl, v, l)

authenticate-Admits :
    (guard : Guard) (arrival : Arrival) (claims : JwtClaims)
    → authenticate guard arrival ≡ admitted (some claims)
    → Admits guard arrival claims
unfolding authenticate Admits
authenticate-Admits guard arrival claims h = elim (Bool-cases arrival.is_http) [
  | inr e ↦ absurd (let k : admitted none ≡ admitted (some claims) = rw e at h in ground (arith, k))
  | inl e ↦ elim (Bool-cases arrival.is_public) [
    | inl f ↦
        absurd
          (let k : admitted none ≡ admitted (some claims) = rw (e, f) at h in ground (arith, k))
    | inr f ↦
        let k : admit_bearer guard (bearer_token_of guard.lower arrival.authorization)
            ≡ admitted (some claims) =
          rw (e, f) at h in
        let (token, b, v, l) = bearer-Admits guard _ claims k in
        (e, f, token, bearer_token_of-IsBearer guard.lower arrival.authorization token b, v, l)
  ]
]

-- A request is let through with claims exactly when it comes over HTTP to a route that is not
-- public, its one `Authorization` header is a bearer scheme, one space and a token that verifies to
-- these claims, and the session is vouched for: by the cache, by the fallback where the cache
-- fails, or by an explicit option where both fail.
pub authenticate_iff :
    (guard : Guard) (arrival : Arrival) (claims : JwtClaims)
    → (authenticate guard arrival ≡ admitted (some claims)) ↔ Admits guard arrival claims
unfolding authenticate Admits admit_bearer admit_verified
authenticate_iff guard arrival claims = (
  authenticate-Admits guard arrival claims,
  λ (e, f, token, b, v, l).
      let bearer = IsBearer-bearer_token_of guard.lower arrival.authorization token b in
      let live = IsLive-is_revoked guard claims l in rw (e, f, bearer, v, live) refl,
)
