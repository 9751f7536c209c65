-- ===== src/Jwks/Agreed.antt =====
-- A consumer's verifier answers as the issuer's would, with the keys that it holds afterwards.
use plant_ops.Prelude.{
  ℕ, suc, ◌/◌, Text, Bool, true, false, Option, none, some, ◌≡◌, ◌⊎◌, inl, inr, refl, ap, ◌∙◌,
  Bool-cases,
}
use plant_ops.Tokens.{
  unknown_key, Verified, ok, rejected, ◌>>=◌, require, Payload, Jose, ParsedJws, parse_compact_jws,
  verify_compact_jws, read_access_token_claims, accept_claims, verify_access_token,
}
use plant_ops.Jwks.{
  JwksDocument, Endpoint, KeyCache, JwksVerifierOptions, JwksVerifier, get_key, fetch_keys, kept,
  keys_of, refresh, is_due, key_for, look_again, look_up, verify_parsed, verify,
}

-- A lookup answers from the cache that it leaves, or finds none and leaves none.
abbrev pub Answers :
    {PublicKey : Type 0} → Text → Verified (Option PublicKey) × JwksVerifier PublicKey → Type 0
Answers kid (answer, st) =
    (answer ≡ ok (keys_of st.cache kid)) ⊎ ((answer ≡ rejected unknown_key) × (st.cache ≡ none))

known-require :
    {PublicKey : Type 0} (kid : Text) (answer : Verified (Option PublicKey))
    → (st : JwksVerifier PublicKey) → Answers kid (answer, st)
    → (answer >>= require unknown_key) ≡ require unknown_key (keys_of st.cache kid)
unfolding keys_of
known-require kid answer st (inl e) = rw e refl
known-require kid answer st (inr (e, n)) = rw (e, n) refl

>>=-assoc :
    {A B C : Type 0} (m : Verified A) (f : A → Verified B) (g : B → Verified C)
    → (m >>= λ a. f a >>= g) ≡ (m >>= f >>= g)
>>=-assoc (ok a) f g = refl
>>=-assoc (rejected r) f g = refl

module _ {PublicKey : Type 0} (create_public_key : Payload → Option (PublicKey × ℕ))
    (options : JwksVerifierOptions) (endpoint : Endpoint) where
  fetch_keys-Answers :
      (cache : Option (KeyCache PublicKey)) (now n : ℕ) (answer : Option JwksDocument) (kid : Text)
      → let fetched = fetch_keys create_public_key cache now answer in
        Answers kid (
          (fetched >>= λ (c : KeyCache PublicKey). ok (get_key c.keys kid)),
          record { cache = kept cache fetched; requests = n },
        )
  unfolding fetch_keys keys_of
  fetch_keys-Answers none now n none kid = inr (refl, refl)
  fetch_keys-Answers (some cache) now n none kid = inl refl
  fetch_keys-Answers none now n (some document) kid = inl refl
  fetch_keys-Answers (some cache) now n (some document) kid = inl refl

  key_for-Answers :
      (st : JwksVerifier PublicKey) (kid : Text) (now : ℕ) (force_refetch : Bool)
      → Answers kid (key_for create_public_key options endpoint st kid now force_refetch)
  unfolding key_for refresh
  key_for-Answers st kid now force_refetch =
      elim (Bool-cases (is_due options st.cache now force_refetch)) [
        | inl e ↦
            rw e (fetch_keys-Answers st.cache now (suc st.requests) (endpoint st.requests) kid)
        | inr e ↦ rw e (inl refl)
      ]

  look_again-Answers :
      (kid : Text) (now : ℕ) (first : Verified (Option PublicKey)) (st : JwksVerifier PublicKey)
      → Answers kid (first, st)
      → Answers kid (look_again create_public_key options endpoint kid now first st)
  unfolding look_again
  look_again-Answers kid now (rejected r) st h = h
  look_again-Answers kid now (ok (some key)) st h = h
  look_again-Answers kid now (ok none) st h = key_for-Answers st kid now true

  look_up-Answers :
      (st : JwksVerifier PublicKey) (kid : Text) (now : ℕ)
      → Answers kid (look_up create_public_key options endpoint st kid now)
  unfolding look_up
  look_up-Answers st kid now = look_again-Answers kid now _ _ (key_for-Answers st kid now false)

  module _ {PrivateKey : Type 0} (jose : Jose PublicKey PrivateKey) where
    verify_parsed_lem :
        (st : JwksVerifier PublicKey) (parsed : Verified ParsedJws) (now : ℕ)
        → let answer = verify_parsed create_public_key options endpoint jose st parsed now in
          answer.0 ≡ (do
            read ← parsed
            key ← require unknown_key (keys_of answer.1.cache read.kid)
            done ← verify_compact_jws jose read key
            claims ← read_access_token_claims read.payload
            accept_claims claims options.issuer (now / 1000))
    unfolding verify_parsed
    verify_parsed_lem st (rejected r) now = refl
    verify_parsed_lem st (ok parsed) now =
        let found = look_up create_public_key options endpoint st parsed.kid now in
        >>=-assoc found.0 (require unknown_key) _
        ∙ ap
            (λ m. m >>= λ key. (do
              done ← verify_compact_jws jose parsed key
              claims ← read_access_token_claims parsed.payload
              accept_claims claims options.issuer (now / 1000)))
            (known-require parsed.kid found.0 found.1 (look_up-Answers st parsed.kid now))

    -- Whatever the endpoint answers: the claims or the rejection are those of the issuer's own
    -- verification, with the keys of the cache that the call leaves in the place of the issuer's,
    -- and no key at all where it leaves no cache.
    pub verify-verify_access_token :
        (st : JwksVerifier PublicKey) (token : Text) (now : ℕ)
        → let answer = verify create_public_key options endpoint jose st token now in
          answer.0
          ≡ verify_access_token jose (keys_of answer.1.cache) options.issuer token (now / 1000)
    unfolding verify verify_access_token
    verify-verify_access_token st token now =
        verify_parsed_lem st (parse_compact_jws jose token) now
