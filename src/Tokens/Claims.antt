-- ===== src/Tokens/Claims.antt =====
-- claims.ts of libs/auth-kit/src: the rejections, and the checks of the claims. A payload is the list
-- of its members, and the only numbers of one are those that are not negative.
use plant_ops.Contracts.{clock_skew_leeway_seconds}
use plant_ops.Prelude.{
  ℕ, ◌+◌, Text, codes, ◌==◌, Bool, true, false, not, List, [], ◌∷◌, Option, none, some, any, all,
  includes, ltb, leb, if◌then◌else◌,
}
use plant_ops.Resolver.{SubjectType}
use plant_ops.Authentication.{JwtClaims}

pub data TokenRejection : Type 0 where
  malformed unsupported_algorithm unknown_key bad_signature expired not_yet_valid wrong_issuer
        bad_claims :
      TokenRejection

pub data Verified (A : Type 0) : Type 0 where
  ok : A → Verified A
  rejected : TokenRejection → Verified A

infixl 5 ◌>>=◌
abbrev pub ◌>>=◌ : {A B : Type 0} → Verified A → (A → Verified B) → Verified B
ok a >>= f = f a
rejected r >>= f = rejected r

abbrev pub require : {A : Type 0} → TokenRejection → Option A → Verified A
require r none = rejected r
require r (some a) = ok a

-- A member of a JSON object, as far as a claim goes.
pub data Member : Type 0 where
  text : Text → Member
  integer : ℕ → Member
  other : Member

abbrev pub Payload : Type 0
Payload = List (Text × Member)

unfoldable pub get_member : Payload → Text → Option Member
get_member [] key = none
get_member ((k, v) ∷ payload) key = if k == key then some v else get_member payload key

abbrev pub jwt_claim_keys : List Text
jwt_claim_keys =
    codes "iss"
    ∷ codes "sub"
    ∷ codes "sty"
    ∷ codes "cid"
    ∷ codes "sid"
    ∷ codes "iat"
    ∷ codes "exp"
    ∷ []

abbrev pub is_undefined : Option Member → Bool
is_undefined none = true
is_undefined (some v) = false

-- A string that is not empty.
unfoldable pub text_claim : Option Member → Verified Text
text_claim (some (text [])) = rejected bad_claims
text_claim (some (text (c ∷ s))) = ok (c ∷ s)
text_claim _ = rejected bad_claims

unfoldable pub integer_claim : Option Member → Verified ℕ
integer_claim (some (integer n)) = ok n
integer_claim _ = rejected bad_claims

unfoldable pub type_claim : Option Member → Verified SubjectType
type_claim (some (text s)) =
    if s == codes "user"
    then ok SubjectType.user
    else if s == codes "service"
    then ok SubjectType.service
    else rejected bad_claims
type_claim _ = rejected bad_claims

unfoldable pub read_members : Payload → Verified JwtClaims
unfolding get_member text_claim integer_claim type_claim
read_members payload = do
  iss ← text_claim (get_member payload (codes "iss"))
  sub ← text_claim (get_member payload (codes "sub"))
  cid ← text_claim (get_member payload (codes "cid"))
  sid ← text_claim (get_member payload (codes "sid"))
  iat ← integer_claim (get_member payload (codes "iat"))
  exp ← integer_claim (get_member payload (codes "exp"))
  sty ← type_claim (get_member payload (codes "sty"))
  ok (record { iss = iss; sub = sub; sty = sty; cid = cid; sid = sid; iat = iat; exp = exp })

abbrev pub is_claim : Text × Member → Bool
is_claim (k, v) = includes jwt_claim_keys k

-- `readAccessTokenClaims`
unfoldable pub read_access_token_claims : Payload → Verified JwtClaims
unfolding read_members
read_access_token_claims payload =
    if any (λ key. is_undefined (get_member payload key)) jwt_claim_keys
    then rejected bad_claims
    else if not (all is_claim payload)
    then rejected bad_claims
    else read_members payload

-- `assertClaimsAcceptable`, at a time in whole seconds.
unfoldable pub accept_claims : JwtClaims → Text → ℕ → Verified JwtClaims
accept_claims claims issuer seconds =
    if not (claims.iss == issuer)
    then rejected wrong_issuer
    else if leb (claims.exp + clock_skew_leeway_seconds) seconds
    then rejected expired
    else if ltb (seconds + clock_skew_leeway_seconds) claims.iat
    then rejected not_yet_valid
    else ok claims
