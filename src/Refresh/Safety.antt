-- ===== src/Refresh/Safety.antt =====
-- What the rotation of one row keeps, and where the rotation of the rows looks.
use plant_ops.Prelude.{
  ℕ, ◌<◌, Text, ◌==◌, eq_iff, eq_refl, Bool, true, false, ◌&&◌, ◌||◌, ◌≡◌, ◌≢◌, ◌⊎◌, inl, inr, refl,
  sym, ap, ◌∙◌, arith, [], ◌∷◌, Option, none, some, leb, Bool-cases, if◌then◌else◌,
}
use plant_ops.Refresh.Rotation.{
  Session, RefreshOutcome, rotated, replay, stale, reuse, invalid, refresh_rotated, reuse_detected,
  Rotation, rotate_row, hash_is, is_set, in_grace, coalesce,
}

abbrev pub is_grant : RefreshOutcome → Bool
is_grant rotated = true
is_grant replay = true
is_grant _ = false

-- A live session: neither revoked nor expired.
abbrev pub IsLive : ℕ → Session → Type 0
IsLive now s = (s.revoked_at ≡ none) × (now < s.expires_at)

abbrev pub is_some : Option Text → Bool
is_some none = false
is_some (some x) = true

-- `session_rotation_state`: the two columns are null together.
abbrev pub HasRotationState : Session → Type 0
HasRotationState s = is_set s.rotated_at ≡ is_some s.previous_refresh_token_hash

abbrev pub rotated_session : ℕ → Text → Session → Session
rotated_session now new s = record s {
  previous_refresh_token_hash = s.refresh_token_hash;
  refresh_token_hash = some new;
  rotated_at = some now;
}

-- The branches of the decision, each with its conditions.
pub data Branch (now grace : ℕ) (presented new : Text) (s : Session) : Rotation → Type 0 where
  dead :
      (is_set s.revoked_at || leb s.expires_at now) ≡ true
      → Branch now grace presented new s (record { session = s; outcome = invalid; audited = [] })
  current :
      (is_set s.revoked_at || leb s.expires_at now) ≡ false
      → hash_is s.refresh_token_hash presented ≡ true
      → Branch now grace presented new s (record {
        session = rotated_session now new s;
        outcome = rotated;
        audited = refresh_rotated ∷ [];
      })
  race :
      (is_set s.revoked_at || leb s.expires_at now) ≡ false
      → hash_is s.refresh_token_hash presented ≡ false
      → hash_is s.previous_refresh_token_hash presented ≡ true
      → in_grace s.rotated_at now grace ≡ true
      → Branch now grace presented new s (record {
        session = s;
        outcome = if hash_is s.refresh_token_hash new then replay else stale;
        audited = [];
      })
  compromise :
      (is_set s.revoked_at || leb s.expires_at now) ≡ false
      → hash_is s.refresh_token_hash presented ≡ false
      → (hash_is s.previous_refresh_token_hash presented && in_grace s.rotated_at now grace) ≡ false
      → Branch now grace presented new s (record {
        session = record s { revoked_at = coalesce s.revoked_at now };
        outcome = reuse;
        audited = reuse_detected ∷ [];
      })

pub rotate_row-Branch :
    (now grace : ℕ) (presented new : Text) (s : Session)
    → Branch now grace presented new s (rotate_row now grace presented new s)
unfolding rotate_row
rotate_row-Branch now grace presented new s =
    elim (Bool-cases (is_set s.revoked_at || leb s.expires_at now)) [
      | inl d ↦ rw d (Branch.dead d)
      | inr d ↦ elim (Bool-cases (hash_is s.refresh_token_hash presented)) [
        | inl c ↦ rw (d, c) (Branch.current d c)
        | inr c ↦
            elim (Bool-cases (
              hash_is s.previous_refresh_token_hash presented && in_grace s.rotated_at now grace)) [
                | inl r ↦ rw (d, c, r) (Branch.race d c (ground arith) (ground arith))
                | inr r ↦ rw (d, c, r) (Branch.compromise d c r)
              ]
      ]
    ]

-- What a successful rotation says of the row: it was live, the presented hash was its current one,
-- or its previous one within the grace window.
abbrev pub IsPresentable : ℕ → ℕ → Text → Session → Type 0
IsPresentable now grace presented s =
    IsLive now s
    × ((hash_is s.refresh_token_hash presented ≡ true)
        ⊎ ((hash_is s.previous_refresh_token_hash presented ≡ true)
            × (in_grace s.rotated_at now grace ≡ true)))

IsLive-of_tests :
    (now : ℕ) (s : Session) → (is_set s.revoked_at || leb s.expires_at now) ≡ false → IsLive now s
IsLive-of_tests now s h = (unset s.revoked_at (ground arith), ground arith)
  where
    unset : (o : Option ℕ) → is_set o ≡ false → o ≡ none
    unset none h = refl
    unset (some t) h = absurd (ground arith)

-- What holds of a row that a rotation was granted on.
abbrev pub Granted : ℕ → ℕ → Text → Text → Session → Rotation → Type 0
Granted now grace presented new s r =
    IsPresentable now grace presented s
    × (hash_is r.session.refresh_token_hash new ≡ true)
    × IsLive now r.session
    × (r.session.expires_at ≡ s.expires_at)
    × (r.session.client_id ≡ s.client_id)
    × (r.session.user_id ≡ s.user_id)

Branch-Granted :
    (now grace : ℕ) (presented new : Text) (s : Session) (r : Rotation)
    → Branch now grace presented new s r
    → is_grant r.outcome ≡ true
    → Granted now grace presented new s r
Branch-Granted now grace presented new s r (Branch.dead d) g = absurd (ground arith)
Branch-Granted now grace presented new s r (Branch.current d c) g =
    let (n, e) = IsLive-of_tests now s d in (((n, e), inl c), eq_refl new, (n, e), refl, refl, refl)
Branch-Granted now grace presented new s r (Branch.race d c p w) g =
    let live = IsLive-of_tests now s d in
    ((live, inr (p, w)), confirmed (hash_is s.refresh_token_hash new) g, live, refl, refl, refl)
  where
    confirmed : (b : Bool) → is_grant (if b then replay else stale) ≡ true → b ≡ true
    confirmed true h = refl
    confirmed false h = h
Branch-Granted now grace presented new s r (Branch.compromise d c p) g = absurd (ground arith)

-- A rotation that answers `rotated` or `replay` leaves a live row whose current hash is the
-- proposed one and whose expiry, client and user are what they were; the presented hash was the
-- row's current one, or its previous one within the grace window.
pub rotate_row-Granted :
    (now grace : ℕ) (presented new : Text) (s : Session)
    → is_grant (rotate_row now grace presented new s).outcome ≡ true
    → Granted now grace presented new s (rotate_row now grace presented new s)
rotate_row-Granted now grace presented new s =
    Branch-Granted now grace presented new s _ (rotate_row-Branch now grace presented new s)

Branch-HasRotationState :
    (now grace : ℕ) (presented new : Text) (s : Session) (r : Rotation)
    → Branch now grace presented new s r
    → HasRotationState s
    → HasRotationState r.session
Branch-HasRotationState now grace presented new s r (Branch.dead d) h = h
Branch-HasRotationState now grace presented new s r (Branch.current d c) h =
    held s.refresh_token_hash c
  where
    held : (o : Option Text) → hash_is o presented ≡ true → true ≡ is_some o
    held none c = sym c
    held (some x) c = refl
Branch-HasRotationState now grace presented new s r (Branch.race d c p w) h = h
Branch-HasRotationState now grace presented new s r (Branch.compromise d c p) h = h

-- Every rotation keeps the constraint that the previous hash and its time are null together.
pub rotate_row-HasRotationState :
    (now grace : ℕ) (presented new : Text) (s : Session)
    → HasRotationState s
    → HasRotationState (rotate_row now grace presented new s).session
rotate_row-HasRotationState now grace presented new s =
    Branch-HasRotationState now grace presented new s _
      (rotate_row-Branch now grace presented new s)

Branch-revoked :
    (now grace : ℕ) (presented new : Text) (s : Session) (r : Rotation)
    → Branch now grace presented new s r
    → is_set s.revoked_at ≡ true
    → r ≡ record { session = s; outcome = invalid; audited = [] }
Branch-revoked now grace presented new s r (Branch.dead d) h = refl
Branch-revoked now grace presented new s r (Branch.current d c) h = absurd (ground arith)
Branch-revoked now grace presented new s r (Branch.race d c p w) h = absurd (ground arith)
Branch-revoked now grace presented new s r (Branch.compromise d c p) h = absurd (ground arith)

-- A revoked row is answered `invalid`, is left as it is and writes no audit, whatever is presented.
pub rotate_row-revoked :
    (now grace : ℕ) (presented new : Text) (s : Session)
    → is_set s.revoked_at ≡ true
    → rotate_row now grace presented new s ≡ record { session = s; outcome = invalid; audited = [] }
rotate_row-revoked now grace presented new s =
    Branch-revoked now grace presented new s _ (rotate_row-Branch now grace presented new s)

Branch-rotated :
    (now grace : ℕ) (presented new : Text) (s : Session) (r : Rotation)
    → Branch now grace presented new s r
    → r.outcome ≡ rotated
    → r.session ≡ rotated_session now new s
Branch-rotated now grace presented new s r (Branch.dead d) h = absurd (cc)
Branch-rotated now grace presented new s r (Branch.current d c) h = refl
Branch-rotated now grace presented new s r (Branch.race d c p w) h =
    absurd (never (hash_is s.refresh_token_hash new) h)
  where
    never : (b : Bool) → (if b then replay else stale) ≡ rotated → ⊥
    never true h = cc
    never false h = cc
Branch-rotated now grace presented new s r (Branch.compromise d c p) h = absurd (cc)

Branch-unmatched :
    (now grace : ℕ) (presented new : Text) (s : Session) (r : Rotation)
    → Branch now grace presented new s r
    → IsLive now s
    → hash_is s.refresh_token_hash presented ≡ false
    → hash_is s.previous_refresh_token_hash presented ≡ false
    → (r.outcome ≡ reuse) × (r.session.revoked_at ≡ some now) × (r.audited ≡ reuse_detected ∷ [])
Branch-unmatched now grace presented new s r (Branch.dead d) (n, e) h k =
    let n' = ap is_set n in absurd (ground arith)
Branch-unmatched now grace presented new s r (Branch.current d c) l h k = absurd (ground arith)
Branch-unmatched now grace presented new s r (Branch.race d c p w) l h k = absurd (ground arith)
Branch-unmatched now grace presented new s r (Branch.compromise d c p) (n, e) h k =
    (refl, ap (λ o. coalesce o now) n, refl)

-- A live row answers a hash of neither generation with `reuse`, revokes itself at that moment, and
-- audits the detection.
pub rotate_row-unmatched :
    (now grace : ℕ) (presented new : Text) (s : Session)
    → IsLive now s
    → hash_is s.refresh_token_hash presented ≡ false
    → hash_is s.previous_refresh_token_hash presented ≡ false
    → let r = rotate_row now grace presented new s in
      (r.outcome ≡ reuse) × (r.session.revoked_at ≡ some now) × (r.audited ≡ reuse_detected ∷ [])
rotate_row-unmatched now grace presented new s =
    Branch-unmatched now grace presented new s _ (rotate_row-Branch now grace presented new s)

-- After two rotations whose new hashes both differ from the first token's hash, presenting the
-- first token again while the session is live is answered reuse, whatever the grace window, and
-- every later rotation of it is invalid.
pub rotate_row-two_generations :
    (s : Session) (grace t₁ t₂ t₃ t₄ : ℕ) (p q r x y z : Text)
    → q ≢ p
    → r ≢ p
    → (rotate_row t₁ grace p q s).outcome ≡ rotated
    → (rotate_row t₂ grace q r (rotate_row t₁ grace p q s).session).outcome ≡ rotated
    → IsLive t₃ (rotate_row t₂ grace q r (rotate_row t₁ grace p q s).session).session
    → let stolen =
        rotate_row t₃ grace p x
          (rotate_row t₂ grace q r (rotate_row t₁ grace p q s).session).session in
      (stolen.outcome ≡ reuse) × ((rotate_row t₄ grace y z stolen.session).outcome ≡ invalid)
rotate_row-two_generations s grace t₁ t₂ t₃ t₄ p q r x y z qp rp h k live =
    let once = (rotate_row t₁ grace p q s).session in
    let twice = (rotate_row t₂ grace q r once).session in
    let first : once ≡ rotated_session t₁ q s =
      Branch-rotated t₁ grace p q s _ (rotate_row-Branch t₁ grace p q s) h in
    let second : twice ≡ rotated_session t₂ r once =
      Branch-rotated t₂ grace q r once _ (rotate_row-Branch t₂ grace q r once) k in
    let current : hash_is twice.refresh_token_hash p ≡ false =
      ap (λ s. hash_is s.refresh_token_hash p) second ∙ differs r p rp in
    let previous : hash_is twice.previous_refresh_token_hash p ≡ false =
      ap (λ s. hash_is s.previous_refresh_token_hash p) second
      ∙ ap (λ s. hash_is s.refresh_token_hash p) first
      ∙ differs q p qp in
    let stolen = rotate_row t₃ grace p x twice in
    let (o, v, a) = rotate_row-unmatched t₃ grace p x twice live current previous in
    (o, ap Rotation.outcome (rotate_row-revoked t₄ grace y z stolen.session (ap is_set v)))
  where
    differs : (a b : Text) → a ≢ b → (a == b) ≡ false
    differs a b n = elim (Bool-cases (a == b)) [ inl e ↦ absurd (n ((eq_iff a b).0 e)) | inr e ↦ e ]

-- The user of a row is never changed.
pub rotate_row-user :
    (now grace : ℕ) (presented new : Text) (s : Session)
    → (rotate_row now grace presented new s).session.user_id ≡ s.user_id
rotate_row-user now grace presented new s = same s _ (rotate_row-Branch now grace presented new s)
  where
    same :
        (s : Session) (r : Rotation)
        → Branch now grace presented new s r
        → r.session.user_id ≡ s.user_id
    same s r (Branch.dead d) = refl
    same s r (Branch.current d c) = refl
    same s r (Branch.race d c p w) = refl
    same s r (Branch.compromise d c p) = refl
