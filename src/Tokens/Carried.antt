-- ===== src/Tokens/Carried.antt =====
-- Which payloads are read as claims.
use mathlib.Core.Path.{subst}
use plant_ops.Prelude.{
  ℕ, Text, codes, ◌==◌, eq_iff, true, false, [], ◌∷◌, Option, none, some, all, any, ◌≡◌, ◌≢◌, ◌↔◌,
  refl, ap, ◌∙◌, inl, inr, arith, Bool-cases,
}
use plant_ops.Resolver.{SubjectType, type_name}
use plant_ops.Authentication.{JwtClaims}
use plant_ops.Tokens.{
  Verified, ok, rejected, bad_claims, ◌>>=◌, Member, text, integer, other, Payload, get_member,
  jwt_claim_keys, is_undefined, text_claim, integer_claim, type_claim, read_members, is_claim,
  read_access_token_claims,
}

-- The payload has the seven claims and no other member, with strings that are not empty.
pub record Carries (payload : Payload) (claims : JwtClaims) : Type 0 where
  pub iss : get_member payload (codes "iss") ≡ some (text claims.iss)
  pub sub : get_member payload (codes "sub") ≡ some (text claims.sub)
  pub sty : get_member payload (codes "sty") ≡ some (text (type_name claims.sty))
  pub cid : get_member payload (codes "cid") ≡ some (text claims.cid)
  pub sid : get_member payload (codes "sid") ≡ some (text claims.sid)
  pub iat : get_member payload (codes "iat") ≡ some (integer claims.iat)
  pub exp : get_member payload (codes "exp") ≡ some (integer claims.exp)
  pub iss_given : claims.iss ≢ []
  pub sub_given : claims.sub ≢ []
  pub cid_given : claims.cid ≢ []
  pub sid_given : claims.sid ≢ []
  pub only : all is_claim payload ≡ true

pub >>=-eq-ok :
    {A B : Type 0} (m : Verified A) (f : A → Verified B) (b : B)
    → (m >>= f) ≡ ok b
    → (a : A) × (m ≡ ok a) × (f a ≡ ok b)
>>=-eq-ok (ok a) f b h = (a, refl, h)
>>=-eq-ok (rejected r) f b h = absurd (ground (arith, h))

pub text_claim-ok :
    (o : Option Member) (s : Text) → text_claim o ≡ ok s → (o ≡ some (text s)) × (s ≢ [])
unfolding text_claim
text_claim-ok none s h = absurd (ground (arith, h))
text_claim-ok (some (text [])) s h = absurd (ground (arith, h))
text_claim-ok (some (text (c ∷ t))) s h =
    let e : c ∷ t ≡ s = ground (arith, h) in
    (ap (λ x. some (text x)) e, λ z. let y : c ∷ t ≡ [] = e ∙ z in ground (arith, y))
text_claim-ok (some (integer n)) s h = absurd (ground (arith, h))
text_claim-ok (some other) s h = absurd (ground (arith, h))

pub text_claim_lem : (s : Text) → s ≢ [] → text_claim (some (text s)) ≡ ok s
unfolding text_claim
text_claim_lem [] n = absurd (n refl)
text_claim_lem (c ∷ s) n = refl

integer_claim-ok : (o : Option Member) (n : ℕ) → integer_claim o ≡ ok n → o ≡ some (integer n)
unfolding integer_claim
integer_claim-ok none n h = absurd (ground (arith, h))
integer_claim-ok (some (text s)) n h = absurd (ground (arith, h))
integer_claim-ok (some (integer m)) n h = ground (arith, h)
integer_claim-ok (some other) n h = absurd (ground (arith, h))

type_claim-ok :
    (o : Option Member) (t : SubjectType) → type_claim o ≡ ok t → o ≡ some (text (type_name t))
unfolding type_claim
type_claim-ok none t h = absurd (ground (arith, h))
type_claim-ok (some (integer m)) t h = absurd (ground (arith, h))
type_claim-ok (some other) t h = absurd (ground (arith, h))
type_claim-ok (some (text s)) t h = elim (Bool-cases (s == codes "user")) [
  | inl e ↦
      let k : ok SubjectType.user ≡ ok t = rw e at h in
      let same : SubjectType.user ≡ t = ground (arith, k) in
      ap (λ x. some (text x)) ((eq_iff s (codes "user")).0 e ∙ ap type_name same)
  | inr e ↦ elim (Bool-cases (s == codes "service")) [
    | inl f ↦
        let k : ok SubjectType.service ≡ ok t = rw (e, f) at h in
        let same : SubjectType.service ≡ t = ground (arith, k) in
        ap (λ x. some (text x)) ((eq_iff s (codes "service")).0 f ∙ ap type_name same)
    | inr f ↦ absurd (let k : rejected bad_claims ≡ ok t = rw (e, f) at h in ground (arith, k))
  ]
]

type_claim_lem : (t : SubjectType) → type_claim (some (text (type_name t))) ≡ ok t
unfolding type_claim ◌==◌
type_claim_lem SubjectType.user = refl
type_claim_lem SubjectType.service = refl

abbrev pub ok_or : {A : Type 0} → A → Verified A → A
ok_or a (ok b) = b
ok_or a (rejected r) = a

read_members-Carries :
    (payload : Payload) (claims : JwtClaims)
    → all is_claim payload ≡ true
    → read_members payload ≡ ok claims
    → Carries payload claims
unfolding read_members
read_members-Carries payload claims only h =
    let (iss, a, h1) = >>=-eq-ok (text_claim (get_member payload (codes "iss"))) _ claims h in
    let (sub, b, h2) = >>=-eq-ok (text_claim (get_member payload (codes "sub"))) _ claims h1 in
    let (cid, c, h3) = >>=-eq-ok (text_claim (get_member payload (codes "cid"))) _ claims h2 in
    let (sid, d, h4) = >>=-eq-ok (text_claim (get_member payload (codes "sid"))) _ claims h3 in
    let (iat, e, h5) = >>=-eq-ok (integer_claim (get_member payload (codes "iat"))) _ claims h4 in
    let (exp, f, h6) = >>=-eq-ok (integer_claim (get_member payload (codes "exp"))) _ claims h5 in
    let (sty, g, h7) = >>=-eq-ok (type_claim (get_member payload (codes "sty"))) _ claims h6 in
    let read : JwtClaims = record {
      iss = iss;
      sub = sub;
      sty = sty;
      cid = cid;
      sid = sid;
      iat = iat;
      exp = exp;
    } in
    let k : ok read ≡ ok claims = h7 in
    let same : read ≡ claims = ap (ok_or read) k in
    subst (Carries payload) same (record {
      iss = (text_claim-ok (get_member payload (codes "iss")) iss a).0;
      sub = (text_claim-ok (get_member payload (codes "sub")) sub b).0;
      sty = type_claim-ok (get_member payload (codes "sty")) sty g;
      cid = (text_claim-ok (get_member payload (codes "cid")) cid c).0;
      sid = (text_claim-ok (get_member payload (codes "sid")) sid d).0;
      iat = integer_claim-ok (get_member payload (codes "iat")) iat e;
      exp = integer_claim-ok (get_member payload (codes "exp")) exp f;
      iss_given = (text_claim-ok (get_member payload (codes "iss")) iss a).1;
      sub_given = (text_claim-ok (get_member payload (codes "sub")) sub b).1;
      cid_given = (text_claim-ok (get_member payload (codes "cid")) cid c).1;
      sid_given = (text_claim-ok (get_member payload (codes "sid")) sid d).1;
      only = only;
    })

Carries-read_members :
    (payload : Payload) (claims : JwtClaims)
    → Carries payload claims
    → read_members payload ≡ ok claims
unfolding read_members
Carries-read_members payload claims c =
    rw
      (
        c.iss,
        c.sub,
        c.cid,
        c.sid,
        c.iat,
        c.exp,
        c.sty,
        text_claim_lem claims.iss c.iss_given,
        text_claim_lem claims.sub c.sub_given,
        text_claim_lem claims.cid c.cid_given,
        text_claim_lem claims.sid c.sid_given,
        type_claim_lem claims.sty,
      )
      refl

Carries-defined :
    (payload : Payload) (claims : JwtClaims)
    → Carries payload claims
    → any (λ key. is_undefined (get_member payload key)) jwt_claim_keys ≡ false
Carries-defined payload claims c = rw (c.iss, c.sub, c.sty, c.cid, c.sid, c.iat, c.exp) refl

pub read_access_token_claims_iff :
    (payload : Payload) (claims : JwtClaims)
    → (read_access_token_claims payload ≡ ok claims) ↔ Carries payload claims
unfolding read_access_token_claims
read_access_token_claims_iff payload claims = (
  λ h. elim (Bool-cases (any (λ key. is_undefined (get_member payload key)) jwt_claim_keys)) [
    | inl e ↦ absurd (let k : rejected bad_claims ≡ ok claims = rw e at h in ground (arith, k))
    | inr e ↦ elim (Bool-cases (all is_claim payload)) [
      | inr f ↦
          absurd (let k : rejected bad_claims ≡ ok claims = rw (e, f) at h in ground (arith, k))
      | inl f ↦ read_members-Carries payload claims f (rw (e, f) at h)
    ]
  ],
  λ c. rw (Carries-defined payload claims c, c.only) (Carries-read_members payload claims c),
)
