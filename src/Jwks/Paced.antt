-- ===== src/Jwks/Paced.antt =====
-- How often a consumer's verifier asks the endpoint.
use plant_ops.Prelude.{
  ℕ, suc, ◌+◌, ◌*◌, ◌≤◌, Text, Bool, true, false, List, [], ◌∷◌, Option, none, some, ◌≡◌, refl, inl,
  inr, arith, Bool-cases,
}
use plant_ops.Tokens.{Verified, ok, rejected, Payload, Jose, ParsedJws, parse_compact_jws}
use plant_ops.Jwks.{
  JwksDocument, Endpoint, KeyCache, JwksVerifierOptions, JwksVerifier, max_age_ms, min_refetch_ms,
  fetch_keys, refresh, is_due, key_for, look_again, look_up, verify_parsed, verify, verify_all,
}

-- The calls come in the order of their times, from a start.
abbrev pub IsOrderedFrom : ℕ → List (Text × ℕ) → Type 0
IsOrderedFrom start [] = Unit
IsOrderedFrom start ((token, now) ∷ calls) = (start ≤ now) × IsOrderedFrom now calls

abbrev pub last_time : ℕ → List (Text × ℕ) → ℕ
last_time start [] = start
last_time start ((token, now) ∷ calls) = last_time now calls

-- Since the start, each request but the first came the floor after the one before.
abbrev Paced : {K : Type 0} → ℕ → ℕ → ℕ → Option (KeyCache K) → ℕ → Type 0
Paced floor start now none requests = (start ≤ now) × (requests ≡ 0)
Paced floor start now (some cache) requests =
    (cache.fetched_at_ms ≤ now)
    × (start + requests * floor ≤ cache.fetched_at_ms + floor)
    × (start ≤ cache.fetched_at_ms)

suc_mul : (n m : ℕ) → suc n * m ≡ n * m + m
suc_mul n m = omega arith

module _ {PublicKey : Type 0} (create_public_key : Payload → Option (PublicKey × ℕ))
    (options : JwksVerifierOptions) (document : ℕ → JwksDocument)
    (floor_below : min_refetch_ms options ≤ max_age_ms options) where
  abbrev floor : ℕ
  floor = min_refetch_ms options

  abbrev answering : Endpoint
  answering n = some (document n)

  refresh-Paced :
      (start before now : ℕ) (cache : Option (KeyCache PublicKey)) (requests : ℕ)
      (force_refetch : Bool)
      → before ≤ now
      → is_due options cache now force_refetch ≡ true
      → Paced floor start before cache requests
      → let after =
          (refresh create_public_key options answering
            (record { cache = cache; requests = requests })
            now).1 in
        Paced floor start now after.cache after.requests
  unfolding refresh fetch_keys is_due
  refresh-Paced start before now none requests force_refetch b d (s, z) =
      (omega arith, rw z (omega arith), omega arith)
  refresh-Paced start before now (some cache) requests true b d (f, p, s) =
      let due : cache.fetched_at_ms + floor ≤ now = ground (arith, d) in
      (omega arith, omega (arith, suc_mul requests floor), omega arith)
  refresh-Paced start before now (some cache) requests false b d (f, p, s) =
      let due : cache.fetched_at_ms + max_age_ms options ≤ now = ground (arith, d) in
      (omega arith, omega (arith, suc_mul requests floor), omega arith)

  Paced-later :
      (start before now : ℕ) (cache : Option (KeyCache PublicKey)) (requests : ℕ)
      → before ≤ now
      → Paced floor start before cache requests
      → Paced floor start now cache requests
  Paced-later start before now none requests b (s, z) = (omega arith, z)
  Paced-later start before now (some cache) requests b (f, p, s) = (omega arith, p, s)

  key_for-Paced :
      (start before now : ℕ) (st : JwksVerifier PublicKey) (kid : Text) (force_refetch : Bool)
      → before ≤ now
      → Paced floor start before st.cache st.requests
      → let after = (key_for create_public_key options answering st kid now force_refetch).1 in
        Paced floor start now after.cache after.requests
  unfolding key_for
  key_for-Paced start before now st kid force_refetch b p =
      elim (Bool-cases (is_due options st.cache now force_refetch)) [
        | inl e ↦ rw e (refresh-Paced start before now st.cache st.requests force_refetch b e p)
        | inr e ↦ rw e (Paced-later start before now st.cache st.requests b p)
      ]

  look_again-Paced :
      (start now : ℕ) (kid : Text) (first : Verified (Option PublicKey))
      (st : JwksVerifier PublicKey)
      → Paced floor start now st.cache st.requests
      → let after = (look_again create_public_key options answering kid now first st).1 in
        Paced floor start now after.cache after.requests
  unfolding look_again
  look_again-Paced start now kid (rejected r) st p = p
  look_again-Paced start now kid (ok (some key)) st p = p
  look_again-Paced start now kid (ok none) st p =
      key_for-Paced start now now st kid true (omega arith) p

  module _ {PrivateKey : Type 0} (jose : Jose PublicKey PrivateKey) where
    verify_parsed-Paced :
        (start before now : ℕ) (st : JwksVerifier PublicKey) (parsed : Verified ParsedJws)
        → before ≤ now
        → Paced floor start before st.cache st.requests
        → let after = (verify_parsed create_public_key options answering jose st parsed now).1 in
          Paced floor start now after.cache after.requests
    unfolding verify_parsed look_up
    verify_parsed-Paced start before now st (rejected r) b p =
        Paced-later start before now st.cache st.requests b p
    verify_parsed-Paced start before now st (ok parsed) b p =
        look_again-Paced start now parsed.kid _ _
          (key_for-Paced start before now st parsed.kid false b p)

    verify_all-Paced :
        (start before : ℕ) (st : JwksVerifier PublicKey) (calls : List (Text × ℕ))
        → IsOrderedFrom before calls
        → Paced floor start before st.cache st.requests
        → let after = (verify_all create_public_key options answering jose st calls).1 in
          Paced floor start (last_time before calls) after.cache after.requests
    unfolding verify_all verify
    verify_all-Paced start before st [] o p = p
    verify_all-Paced start before st ((token, now) ∷ calls) (b, o) p =
        verify_all-Paced start now _ calls o
          (verify_parsed-Paced start before now st (parse_compact_jws jose token) b p)

    Paced-bound :
        (start now : ℕ) (cache : Option (KeyCache PublicKey)) (requests : ℕ)
        → Paced floor start now cache requests
        → start + requests * floor ≤ now + floor
    Paced-bound start now none requests (s, z) = rw z (omega arith)
    Paced-bound start now (some cache) requests (f, p, s) = omega arith

    -- Where the endpoint answers every request and the floor is at most the cache's age: a new
    -- verifier, given any tokens in the order of their times, has at the last of these times
    -- sent at most one request for each floor that has passed since the start, and one more.
    pub verify_all-bound :
        (start : ℕ) (calls : List (Text × ℕ))
        → IsOrderedFrom start calls
        → let new : JwksVerifier PublicKey = record { cache = none; requests = 0 } in
          let after = (verify_all create_public_key options answering jose new calls).1 in
          start + after.requests * floor ≤ last_time start calls + floor
    verify_all-bound start calls o =
        let new : JwksVerifier PublicKey = record { cache = none; requests = 0 } in
        Paced-bound start (last_time start calls) _ _
          (verify_all-Paced start start new calls o (omega arith, refl))
