-- ===== src/Authentication/Tests.antt =====
-- A guard that knows one token, and a store that keeps the last key set and its end.
use plant_ops.Prelude.{
  ℕ, ◌+◌, Text, codes, ◌==◌, true, false, ltb, ◌&&◌, if◌then◌else◌, ◌≡◌, ◌≢◌, ◌↔◌, refl, Option,
  none, some, ◌∷◌, [], arith, eq_refl, eq_iff, Bool-cases, List, inl, inr,
}
use plant_ops.Resolver.{SubjectType}
use plant_ops.Authentication.{
  JwtClaims, Guard, Arrival, single, authenticate, admitted, unauthorized, revoke, bearer_token_of,
  is_revoked, revoked_session_key,
}
use plant_ops.Authentication.Admitted.{Admits, authenticate_iff}
use plant_ops.Authentication.Revoked.{KeepsKeys, Follows, revoke-authenticate}

abbrev claims : JwtClaims
claims = record {
  iss = codes "iam";
  sub = codes "u";
  sty = SubjectType.user;
  cid = codes "c";
  sid = codes "s";
  iat = 10;
  exp = 20;
}

-- Small letters stay, capital ones are moved to them.
abbrev lower : Text → Text
lower [] = []
lower (c ∷ s) = let rest = lower s in (if ltb 64 c && ltb c 91 then c + 32 else c) ∷ rest

abbrev verify : Text → Option JwtClaims
verify token = if token == codes "t" then some claims else none

-- The cache is down, and the database says that no session is revoked.
abbrev guard : Guard
guard = record {
  lower = lower;
  verify = verify;
  exists = λ key. none;
  fallback = some (λ c. some false);
  on_unavailable = none;
}

abbrev arrival : Arrival
arrival = record { is_http = true; is_public = false; authorization = single (codes "BEARER t") }

lets_in : authenticate guard arrival ≡ admitted (some claims)
unfolding authenticate bearer_token_of is_revoked ◌==◌
lets_in = refl

without_fallback : authenticate (record guard { fallback = none }) arrival ≡ unauthorized
unfolding authenticate bearer_token_of is_revoked ◌==◌
without_fallback = refl

two_spaces :
    authenticate guard (record arrival { authorization = single (codes "Bearer  t") })
    ≡ unauthorized
unfolding authenticate bearer_token_of is_revoked ◌==◌
two_spaces = refl

authenticate_iff_example :
    (authenticate guard arrival ≡ admitted (some claims)) ↔ Admits guard arrival claims
authenticate_iff_example = authenticate_iff guard arrival claims

-- A key and the time at which it ends; the last entry of a key is the one that counts.
abbrev Entry : Type 0
Entry = Text × ℕ

abbrev set_ex : ℕ → Text → Text → ℕ → List Entry → List Entry
set_ex now key value ttl entries = (key, now + ttl) ∷ entries

abbrev exists_at : ℕ → List Entry → Text → ℕ
exists_at now [] key = 0
exists_at now ((k, end) ∷ entries) key =
    let rest = exists_at now entries key in
    if k == key then (if ltb now end then 1 else 0) else rest

eq_false_of_ne : (s t : Text) → s ≢ t → (s == t) ≡ false
eq_false_of_ne s t n = elim (Bool-cases (s == t)) [
  | inl e ↦ absurd (n ((eq_iff s t).0 e))
  | inr e ↦ e
]

keeps : KeepsKeys set_ex exists_at
keeps = record {
  present = λ now later key value ttl entries p q. ground (arith, eq_refl key, q);
  apart = λ now later key other value ttl entries n. rw (eq_false_of_ne other key n) refl;
}

-- A key that is no revocation.
apart : (session_id : Text) → codes "perms" ≢ revoked_session_key session_id
unfolding revoked_session_key
apart session_id e = ground (arith, e)

-- The session is revoked, another key is set, and another session is revoked.
abbrev entries_at_120 : List Entry
entries_at_120 =
    revoke set_ex 930 120 (codes "s2")
      (set_ex 110 (codes "perms") (codes "x") 5 (revoke set_ex 930 100 (codes "s") []))

entries_at_120-Follows :
    Follows set_ex 930 (revoke set_ex 930 100 (codes "s") []) 100 entries_at_120 120
entries_at_120-Follows =
    Follows.revokes 120 (codes "s2") (ground arith)
      (Follows.sets 110 (codes "perms") (codes "x") 5 (ground arith) apart Follows.stays)

revoke-authenticate_example :
    authenticate
      (record guard {
        exists = λ key. if true then some (exists_at 150 entries_at_120 key) else none;
      })
      arrival
    ≢ admitted (some claims)
revoke-authenticate_example =
    revoke-authenticate set_ex exists_at keeps guard arrival claims true 930 100 120 150 []
      entries_at_120 entries_at_120-Follows (ground arith) (ground arith) (inl refl)
