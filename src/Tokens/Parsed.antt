-- ===== src/Tokens/Parsed.antt =====
-- Which tokens are read, and what is read from them.
use plant_ops.Refresh.Token.{is_base64url}
use mathlib.Core.List.{append_assoc}
use mathlib.Core.Path.{subst}
use plant_ops.Prelude.{
  ℕ, Text, codes, true, false, List, [], ◌∷◌, ◌++◌, Option, none, some, all, ◌≡◌, ◌≢◌, refl, sym,
  ap, ◌∙◌, inl, inr, arith, Bool-cases, ◌=?◌,
}
use plant_ops.Scope.{split, join, separator}
use plant_ops.Scope.Moves.{HasNo, split-append, split_of_HasNo, join-split}
use plant_ops.Tokens.{
  TokenRejection, malformed, ok, rejected, require, Member, text, integer, other, Payload,
  get_member, text_claim, text_member, kid_claim, is_base64url_segment, Jose, ParsedJws,
  decode_segment, parse_parts, parse_segments, parse_compact_jws,
}
use plant_ops.Tokens.Carried.{>>=-eq-ok, text_claim-ok, ok_or}

-- The token has three segments, of which the first two are read.
pub record Parses {PublicKey PrivateKey : Type 0} (jose : Jose PublicKey PrivateKey) (token : Text)
    (parsed : ParsedJws) : Type 0 where
  pub head : Text
  pub body : Text
  pub header : Payload
  pub spelt : token ≡ parsed.signing_input ++ separator ∷ parsed.signature
  pub input : parsed.signing_input ≡ head ++ separator ∷ body
  pub head_safe : is_base64url_segment head ≡ true
  pub body_safe : is_base64url_segment body ≡ true
  pub signature_safe : is_base64url_segment parsed.signature ≡ true
  pub head_read : jose.decode head ≡ some header
  pub body_read : jose.decode body ≡ some parsed.payload
  pub alg : get_member header (codes "alg") ≡ some (text parsed.alg)
  pub kid : get_member header (codes "kid") ≡ some (text parsed.kid)
  pub kid_given : parsed.kid ≢ []

pub require-ok :
    {A : Type 0} (r : TokenRejection) (o : Option A) (a : A) → require r o ≡ ok a → o ≡ some a
require-ok r none a h = absurd (ground (arith, h))
require-ok r (some b) a h = ap (λ x. some (ok_or b x)) h

text_member-some : (o : Option Member) (s : Text) → text_member o ≡ some s → o ≡ some (text s)
text_member-some none s h = absurd (ground (arith, h))
text_member-some (some (text t)) s h = ground (arith, h)
text_member-some (some (integer n)) s h = absurd (ground (arith, h))
text_member-some (some other) s h = absurd (ground (arith, h))

kid_claim-ok : (o : Option Member) (s : Text) → kid_claim o ≡ ok s → (o ≡ some (text s)) × (s ≢ [])
unfolding text_claim
kid_claim-ok none s h = absurd (ground (arith, h))
kid_claim-ok (some (text [])) s h = absurd (ground (arith, h))
kid_claim-ok (some (text (c ∷ t))) s h = text_claim-ok (some (text (c ∷ t))) s h
kid_claim-ok (some (integer n)) s h = absurd (ground (arith, h))
kid_claim-ok (some other) s h = absurd (ground (arith, h))

pub kid_claim_lem : (s : Text) → s ≢ [] → kid_claim (some (text s)) ≡ ok s
unfolding text_claim
kid_claim_lem [] n = absurd (n refl)
kid_claim_lem (c ∷ s) n = refl

base64url-separator : (c : ℕ) → is_base64url c ≡ true → (c =? separator) ≡ false
unfolding is_base64url
base64url-separator c h = ground (arith, h)

all-HasNo : (s : Text) → all is_base64url s ≡ true → HasNo separator s
all-HasNo [] h = tt
all-HasNo (c ∷ s) h = elim (Bool-cases (is_base64url c)) [
  | inl e ↦ (base64url-separator c e, all-HasNo s (rw e at h))
  | inr e ↦ absurd (let k : false ≡ true = rw e at h in ground (arith, k))
]

is_base64url_segment-HasNo : (s : Text) → is_base64url_segment s ≡ true → HasNo separator s
is_base64url_segment-HasNo [] h = tt
is_base64url_segment-HasNo (c ∷ s) h = all-HasNo (c ∷ s) h

pub split-segments :
    (h p s : Text)
    → is_base64url_segment h ≡ true
    → is_base64url_segment p ≡ true
    → is_base64url_segment s ≡ true
    → split separator ((h ++ separator ∷ p) ++ separator ∷ s) ≡ h ∷ p ∷ s ∷ []
split-segments h p s hs ps ss =
    split-append separator (h ++ separator ∷ p) s
    ∙ ap (λ l. l ++ split separator s) (split-append separator h p)
    ∙ rw
        (
          split_of_HasNo separator h (is_base64url_segment-HasNo h hs),
          split_of_HasNo separator p (is_base64url_segment-HasNo p ps),
          split_of_HasNo separator s (is_base64url_segment-HasNo s ss),
        )
        refl

parse_segments-ok :
    {PublicKey PrivateKey : Type 0} (jose : Jose PublicKey PrivateKey)
    → (segments : List Text) (parsed : ParsedJws) → parse_segments jose segments ≡ ok parsed
    → (h p s : Text) × (segments ≡ h ∷ p ∷ s ∷ [])
      × (is_base64url_segment s ≡ true)
      × (parse_parts jose h p s ≡ ok parsed)
unfolding parse_segments
parse_segments-ok jose [] parsed e = absurd (ground (arith, e))
parse_segments-ok jose (h ∷ []) parsed e = absurd (ground (arith, e))
parse_segments-ok jose (h ∷ p ∷ []) parsed e = absurd (ground (arith, e))
parse_segments-ok jose (h ∷ p ∷ s ∷ []) parsed e = elim (Bool-cases (is_base64url_segment s)) [
  | inl f ↦ (h, p, s, refl, f, (rw f at e))
  | inr f ↦ absurd (let k : rejected malformed ≡ ok parsed = rw f at e in ground (arith, k))
]
parse_segments-ok jose (h ∷ p ∷ s ∷ t ∷ r) parsed e = absurd (ground (arith, e))

decode_segment-ok :
    {PublicKey PrivateKey : Type 0} (jose : Jose PublicKey PrivateKey)
    → (segment : Text) (payload : Payload) → decode_segment jose segment ≡ ok payload
    → (is_base64url_segment segment ≡ true) × (jose.decode segment ≡ some payload)
unfolding decode_segment
decode_segment-ok jose segment payload e = elim (Bool-cases (is_base64url_segment segment)) [
  | inl f ↦ (f, require-ok malformed (jose.decode segment) payload (rw f at e))
  | inr f ↦ absurd (let k : rejected malformed ≡ ok payload = rw f at e in ground (arith, k))
]

parse_parts-Parses :
    {PublicKey PrivateKey : Type 0} (jose : Jose PublicKey PrivateKey)
    → (h p s : Text) (parsed : ParsedJws) → is_base64url_segment s ≡ true
    → parse_parts jose h p s ≡ ok parsed
    → Parses jose ((h ++ separator ∷ p) ++ separator ∷ s) parsed
unfolding parse_parts
parse_parts-Parses jose h p s parsed safe e =
    let (header, a, e1) = >>=-eq-ok (decode_segment jose h) _ parsed e in
    let (payload, b, e2) = >>=-eq-ok (decode_segment jose p) _ parsed e1 in
    let (alg, c, e3) =
      >>=-eq-ok (require malformed (text_member (get_member header (codes "alg")))) _ parsed e2 in
    let (kid, d, e4) = >>=-eq-ok (kid_claim (get_member header (codes "kid"))) _ parsed e3 in
    let read : ParsedJws = record {
      alg = alg;
      kid = kid;
      payload = payload;
      signing_input = h ++ separator ∷ p;
      signature = s;
    } in
    let k : ok read ≡ ok parsed = e4 in
    let same : read ≡ parsed = ap (ok_or read) k in
    subst (Parses jose ((h ++ separator ∷ p) ++ separator ∷ s)) same (record {
      head = h;
      body = p;
      header = header;
      spelt = refl;
      input = refl;
      head_safe = (decode_segment-ok jose h header a).0;
      body_safe = (decode_segment-ok jose p payload b).0;
      signature_safe = safe;
      head_read = (decode_segment-ok jose h header a).1;
      body_read = (decode_segment-ok jose p payload b).1;
      alg =
          text_member-some (get_member header (codes "alg")) alg
            (require-ok malformed (text_member (get_member header (codes "alg"))) alg c);
      kid = (kid_claim-ok (get_member header (codes "kid")) kid d).0;
      kid_given = (kid_claim-ok (get_member header (codes "kid")) kid d).1;
    })

pub parse_compact_jws-Parses :
    {PublicKey PrivateKey : Type 0} (jose : Jose PublicKey PrivateKey)
    → (token : Text) (parsed : ParsedJws) → parse_compact_jws jose token ≡ ok parsed
    → Parses jose token parsed
unfolding parse_compact_jws join
parse_compact_jws-Parses jose token parsed e =
    let (h, p, s, spelt, safe, parts) = parse_segments-ok jose (split separator token) parsed e in
    let whole : (h ++ separator ∷ p) ++ separator ∷ s ≡ token =
      append_assoc h (separator ∷ p) (separator ∷ s)
      ∙ ap (join separator) (sym spelt)
      ∙ join-split separator token in
    subst (λ t. Parses jose t parsed) whole (parse_parts-Parses jose h p s parsed safe parts)

pub Parses-parse_compact_jws :
    {PublicKey PrivateKey : Type 0} (jose : Jose PublicKey PrivateKey)
    → (token : Text) (parsed : ParsedJws) → Parses jose token parsed
    → parse_compact_jws jose token ≡ ok parsed
unfolding parse_compact_jws parse_segments parse_parts decode_segment
Parses-parse_compact_jws jose token parsed c =
    let segments : split separator token ≡ c.head ∷ c.body ∷ parsed.signature ∷ [] =
      ap (split separator) (c.spelt ∙ ap (λ t. t ++ separator ∷ parsed.signature) c.input)
      ∙ split-segments c.head c.body parsed.signature c.head_safe c.body_safe c.signature_safe in
    rw
      (
        segments,
        c.signature_safe,
        c.head_safe,
        c.body_safe,
        c.head_read,
        c.body_read,
        c.alg,
        c.kid,
        kid_claim_lem parsed.kid c.kid_given,
        sym c.input,
      )
      refl
