-- ===== src/Jwks/Renewed.antt =====
-- A consumer's verifier follows a rotation of the keys.
use plant_ops.Contracts.{clock_skew_leeway_seconds}
use plant_ops.Prelude.{
  ℕ, suc, ◌+◌, ◌/◌, ◌≤◌, Text, Bool, true, false, List, [], Option, none, some, ◌≡◌, ◌≢◌, refl, ap,
  ◌∙◌, inl, inr, Bool-cases, leb, if◌then◌else◌,
}
use plant_ops.Resolver.{SubjectType}
use plant_ops.Tokens.{
  expired, Verified, ok, rejected, Payload, Jose, payload_of, issue_access_token,
}
use plant_ops.Tokens.Issued.{
  JoseLaws, parse_compact_jws-sign_compact_jws, verify_access_token-issue_access_token,
}
use plant_ops.Jwks.{
  JwksDocument, Endpoint, KeyCache, JwksVerifierOptions, JwksVerifier, get_key, keys_of, max_age_ms,
  min_refetch_ms, read_jwks, import_keys, fetch_keys, refresh, is_due, key_for, look_again, look_up,
  verify_parsed, verify,
}
use plant_ops.Jwks.Agreed.{verify-verify_access_token}

-- The keys of a document.
unfoldable pub keys_in :
    {PublicKey : Type 0}
    → (Payload → Option (PublicKey × ℕ))
    → JwksDocument
    → List (Text × PublicKey)
unfolding import_keys
keys_in create_public_key document = import_keys create_public_key (read_jwks document) []

module _ {PublicKey : Type 0} (create_public_key : Payload → Option (PublicKey × ℕ))
    (options : JwksVerifierOptions) (endpoint : Endpoint) where
  -- A key that the verifier may ask the endpoint for.
  abbrev pub MayAsk : Option (KeyCache PublicKey) → Text → ℕ → Type 0
  MayAsk none kid now = Unit
  MayAsk (some cache) kid now =
      (get_key cache.keys kid ≡ none)
      × (leb (cache.fetched_at_ms + min_refetch_ms options) now ≡ true)

  fetch_keys-answered :
      (cache : Option (KeyCache PublicKey)) (n now : ℕ) (document : JwksDocument)
      → endpoint n ≡ some document
      → fetch_keys create_public_key cache now (endpoint n)
        ≡ ok (record { keys = keys_in create_public_key document; fetched_at_ms = now })
  unfolding fetch_keys keys_in
  fetch_keys-answered none n now document e = rw e refl
  fetch_keys-answered (some cache) n now document e = rw e refl

  key_for-answered :
      (cache : Option (KeyCache PublicKey)) (n now : ℕ) (kid : Text) (force_refetch : Bool)
      → (document : JwksDocument) → endpoint n ≡ some document
      → is_due options cache now force_refetch ≡ true
      → let st : JwksVerifier PublicKey = record { cache = cache; requests = n } in
        let renewed : KeyCache PublicKey = record {
          keys = keys_in create_public_key document;
          fetched_at_ms = now;
        } in
        key_for create_public_key options endpoint st kid now force_refetch ≡ (
          ok (get_key (keys_in create_public_key document) kid),
          record { cache = some renewed; requests = suc n },
        )
  unfolding key_for refresh
  key_for-answered cache n now kid force_refetch document e due =
      rw (due, fetch_keys-answered cache n now document e) refl

  key_for-kept :
      (cache : KeyCache PublicKey) (n now : ℕ) (kid : Text) (force_refetch : Bool)
      → is_due options (some cache) now force_refetch ≡ false
      → let st : JwksVerifier PublicKey = record { cache = some cache; requests = n } in
        key_for create_public_key options endpoint st kid now force_refetch
        ≡ (ok (get_key cache.keys kid), st)
  unfolding key_for keys_of
  key_for-kept cache n now kid force_refetch e = rw e refl

  abbrev key_again :
      Text → ℕ → Verified (Option PublicKey) × JwksVerifier PublicKey → Option PublicKey
  key_again kid now (first, st) =
      keys_of (look_again create_public_key options endpoint kid now first st).1.cache kid

  look_up-answered :
      (cache : Option (KeyCache PublicKey)) (n now : ℕ) (kid : Text) (key : PublicKey)
      → (document : JwksDocument) → endpoint n ≡ some document
      → get_key (keys_in create_public_key document) kid ≡ some key
      → MayAsk cache kid now
      → let st : JwksVerifier PublicKey = record { cache = cache; requests = n } in
        keys_of (look_up create_public_key options endpoint st kid now).1.cache kid ≡ some key
  unfolding look_up look_again is_due keys_of
  look_up-answered none n now kid key document e k m =
      ap (key_again kid now) (key_for-answered none n now kid false document e refl)
      ∙ rw (k, k) refl
  look_up-answered (some cache) n now kid key document e k (absent, due) =
      elim (Bool-cases (leb (cache.fetched_at_ms + max_age_ms options) now)) [
        | inl a ↦
            ap (key_again kid now) (key_for-answered (some cache) n now kid false document e a)
            ∙ rw (k, k) refl
        | inr a ↦
            ap (key_again kid now) (key_for-kept cache n now kid false a)
            ∙ rw absent (
                ap
                  (λ (a : Verified (Option PublicKey) × JwksVerifier PublicKey).
                    keys_of a.1.cache kid)
                  (key_for-answered (some cache) n now kid true document e due))
            ∙ k
      ]

  -- Where the endpoint's next answer publishes the key under its id, and the verifier has no cache
  -- or one that lacks the id and is over the floor of its age: a token that is issued with the key
  -- for given strings is verified with the claims it was issued with, at each time from its issue
  -- (and up to 60 seconds before) until 60 seconds after its lifetime, and is then rejected as
  -- expired.
  pub verify-issue_access_token :
      {PrivateKey : Type 0} (jose : Jose PublicKey PrivateKey)
      → (public_of : PrivateKey → PublicKey) (laws : JoseLaws jose public_of)
      → (st : JwksVerifier PublicKey) (document : JwksDocument) (ttl : SubjectType → ℕ)
      → (key : PrivateKey) (kid subject_id : Text) (subject_type : SubjectType)
      → (client_id session_id : Text) (issued_at now : ℕ) → options.issuer ≢ []
      → kid ≢ []
      → subject_id ≢ []
      → client_id ≢ []
      → session_id ≢ []
      → endpoint st.requests ≡ some document
      → get_key (keys_in create_public_key document) kid ≡ some (public_of key)
      → MayAsk st.cache kid now
      → issued_at ≤ now / 1000 + clock_skew_leeway_seconds
      → let issued =
          issue_access_token jose ttl options.issuer key kid subject_id subject_type client_id
            session_id issued_at in
        (verify create_public_key options endpoint jose st issued.0 now).0 ≡ (
          if leb (issued_at + ttl subject_type + clock_skew_leeway_seconds) (now / 1000)
          then rejected expired
          else ok issued.1)
  unfolding issue_access_token
  verify-issue_access_token jose public_of laws st document ttl key kid subject_id subject_type
        client_id session_id issued_at now i k s c d answered published may_ask begun =
      let issued =
        issue_access_token jose ttl options.issuer key kid subject_id subject_type client_id
          session_id issued_at in
      let (parsed, e, named) =
        parse_compact_jws-sign_compact_jws jose public_of laws (payload_of issued.1) key kid k in
      let held : keys_of (verify create_public_key options endpoint jose st issued.0 now).1.cache
            kid
          ≡ some (public_of key) =
        unfold verify verify_parsed in
        rw (e, named)
          (look_up-answered st.cache st.requests now kid (public_of key) document answered published
            may_ask) in
      verify-verify_access_token create_public_key options endpoint jose st issued.0 now
      ∙ verify_access_token-issue_access_token jose public_of laws
          (keys_of (verify create_public_key options endpoint jose st issued.0 now).1.cache) ttl
          options.issuer key kid subject_id subject_type client_id session_id issued_at (now / 1000)
          i k s c d held begun
