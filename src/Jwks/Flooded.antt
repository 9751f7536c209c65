-- ===== src/Jwks/Flooded.antt =====
-- What unknown keys cost while the endpoint fails.
use plant_ops.Prelude.{
  ℕ, suc, ◌+◌, ◌*◌, ◌≤◌, Text, true, List, [], ◌∷◌, Option, none, some, All, ◌≡◌, refl, ap, ◌∙◌,
  arith, leb, length,
}
use plant_ops.Tokens.{unknown_key, ok, rejected, Payload, Jose, ParsedJws, parse_compact_jws}
use plant_ops.Jwks.{
  Endpoint, KeyCache, JwksVerifierOptions, JwksVerifier, get_key, keys_of, max_age_ms,
  min_refetch_ms, fetch_keys, refresh, is_due, key_for, look_again, look_up, verify_parsed, verify,
  verify_all,
}

module _ {PublicKey PrivateKey : Type 0} (create_public_key : Payload → Option (PublicKey × ℕ))
    (options : JwksVerifierOptions) (jose : Jose PublicKey PrivateKey)
    (cache : KeyCache PublicKey) where
  abbrev failing : Endpoint
  failing n = none

  -- A token of an unknown key, when the cache is over its age and the floor.
  abbrev pub IsForged : Text × ℕ → Type 0
  IsForged (token, now) =
      (parsed : ParsedJws) × (parse_compact_jws jose token ≡ ok parsed)
      × (get_key cache.keys parsed.kid ≡ none)
      × (cache.fetched_at_ms + max_age_ms options ≤ now)
      × (cache.fetched_at_ms + min_refetch_ms options ≤ now)

  holding : ℕ → JwksVerifier PublicKey
  holding n = record { cache = some cache; requests = n }

  verify_parsed-forged :
      (n now : ℕ) (parsed : ParsedJws)
      → get_key cache.keys parsed.kid ≡ none
      → leb (cache.fetched_at_ms + max_age_ms options) now ≡ true
      → leb (cache.fetched_at_ms + min_refetch_ms options) now ≡ true
      → verify_parsed create_public_key options failing jose (holding n) (ok parsed) now
        ≡ (rejected unknown_key, holding (suc (suc n)))
  unfolding verify_parsed look_up look_again key_for refresh fetch_keys is_due keys_of holding
  verify_parsed-forged n now parsed k a b = rw (a, k, b, k) refl

  verify-forged :
      (n : ℕ) (call : Text × ℕ)
      → IsForged call
      → verify create_public_key options failing jose (holding n) call.0 call.1
        ≡ (rejected unknown_key, holding (suc (suc n)))
  unfolding verify
  verify-forged n (token, now) (parsed, e, k, a, b) =
      rw e (verify_parsed-forged n now parsed k (ground (arith, a)) (ground (arith, b)))

  verify_all-forged :
      (n : ℕ) (calls : List (Text × ℕ))
      → All IsForged calls
      → (verify_all create_public_key options failing jose (holding n) calls).1
        ≡ holding (n + 2 * length calls)
  unfolding verify_all
  verify_all-forged n [] h = ap holding (omega arith)
  verify_all-forged n (call ∷ calls) (h, hs) =
      rw (verify-forged n call h)
        (verify_all-forged (suc (suc n)) calls hs ∙ ap holding (omega arith))

  -- While the endpoint fails, and the keys held are over their age and the floor: every token
  -- under an unknown key sends two requests, however many there are and however close their
  -- times, and the cache stays as it is.
  pub verify_all-requests :
      (n : ℕ) (calls : List (Text × ℕ))
      → All IsForged calls
      → let before : JwksVerifier PublicKey = record { cache = some cache; requests = n } in
        let after = (verify_all create_public_key options (λ n. none) jose before calls).1 in
        (after.cache ≡ some cache) × (after.requests ≡ n + 2 * length calls)
  unfolding holding
  verify_all-requests n calls h =
      let same = verify_all-forged n calls h in
      (
        ap (λ (v : JwksVerifier PublicKey). v.cache) same,
        ap (λ (v : JwksVerifier PublicKey). v.requests) same,
      )
