-- ===== src/Accounts/Resets/Spent.antt =====
-- A reset token is used at most once.
use plant_ops.Prelude.{
  ℕ, ◌+◌, Text, ◌==◌, eq_iff, Bool, true, false, ◌||◌, List, [], ◌∷◌, Option, none, some, ◌≡◌, ◌≢◌,
  refl, sym, ap, ◌∙◌, inl, inr, arith, Bool-cases, if◌then◌else◌, leb, any, find, any_of_Memᴰ,
  find-Memᴰ, Memᴰ-map,
}
use mathlib.Core.List.{Memᴰ}
use mathlib.Core.Path.{subst}
use plant_ops.Accounts.{Accounts, User, Client, is_unset}
use plant_ops.Accounts.Live as Live
use plant_ops.Accounts.Resets.{
  ResetToken, Resets, invalid, use_tokens, is_outstanding, has_hash, is_blank_hash, store_token,
  store_for, auth_request_password_reset, is_refused, spend, complete_found, complete_for,
  auth_complete_password_reset, request, complete, is_completed,
}

-- There is a token of the hash, and each one is used.
pub record IsSpent (hash : Text) (tokens : List ResetToken) : Type 0 where
  pub stored : any (has_hash hash) tokens ≡ true
  pub used : (t : ResetToken) → Memᴰ t tokens → t.token_hash ≡ hash → t.used_at ≢ none

module _ (now : ℕ) (picked : ResetToken → Bool) where
  abbrev pub mark : ResetToken → ResetToken
  mark t = if picked t then record t { used_at = some now } else t

  pub mark-token_hash : (t : ResetToken) → (mark t).token_hash ≡ t.token_hash
  mark-token_hash t = elim (Bool-cases (picked t)) [ inl e ↦ rw e refl | inr e ↦ rw e refl ]

  mark-used : (t : ResetToken) → t.used_at ≢ none → (mark t).used_at ≢ none
  mark-used t n = elim (Bool-cases (picked t)) [
    | inl e ↦ rw e (λ z. ground (arith, z))
    | inr e ↦ rw e n
  ]

  any-use_tokens :
      (hash : Text) (tokens : List ResetToken)
      → any (has_hash hash) (use_tokens now picked tokens) ≡ any (has_hash hash) tokens
  unfolding use_tokens
  any-use_tokens hash [] = refl
  any-use_tokens hash (t ∷ tokens) =
      ap (λ h. h == hash || any (has_hash hash) (use_tokens now picked tokens)) (mark-token_hash t)
      ∙ ap (λ b. t.token_hash == hash || b) (any-use_tokens hash tokens)

  use_tokens-IsSpent :
      (hash : Text) (tokens : List ResetToken)
      → IsSpent hash tokens
      → IsSpent hash (use_tokens now picked tokens)
  unfolding use_tokens
  use_tokens-IsSpent hash tokens s = record {
    stored = any-use_tokens hash tokens ∙ s.stored;
    used = λ t m e.
        let (u, n, q) = Memᴰ-map mark tokens m in
        let old = s.used u n (sym (mark-token_hash u) ∙ sym (ap ResetToken.token_hash q) ∙ e) in
        subst (λ (x : ResetToken). x.used_at ≢ none) (sym q) (mark-used u old);
  }

IsSpent-cons :
    (hash : Text) (t : ResetToken) (tokens : List ResetToken)
    → (t.token_hash == hash) ≡ false
    → IsSpent hash tokens
    → IsSpent hash (t ∷ tokens)
IsSpent-cons hash t tokens other s = record { stored = rw other s.stored; used = used }
  where
    used : (x : ResetToken) → Memᴰ x (t ∷ tokens) → x.token_hash ≡ hash → x.used_at ≢ none
    used x (Memᴰ.head q) e =
        let same = (eq_iff t.token_hash hash).1 (sym (ap ResetToken.token_hash q) ∙ e) in
        absurd (let bad : false ≡ true = sym other ∙ same in ground (arith, bad))
    used x (Memᴰ.tail m) e = s.used x m e

store_for-IsSpent :
    (hash : Text) (now : ℕ) (new_hash : Text) (expires_at : ℕ) (o : Option User) (st : Resets)
    → IsSpent hash st.tokens
    → IsSpent hash (store_for now new_hash expires_at o st).1.tokens
unfolding store_for store_token
store_for-IsSpent hash now new_hash expires_at none st s = s
store_for-IsSpent hash now new_hash expires_at (some u) st s =
    elim (Bool-cases
      (any (has_hash new_hash) st.tokens || is_blank_hash new_hash || leb expires_at now)) [
        | inl e ↦ rw e s
        | inr e ↦ rw e (
            IsSpent-cons hash _ _ (other e)
              (use_tokens-IsSpent now (is_outstanding u.id) hash st.tokens s))
      ]
  where
    other :
        (any (has_hash new_hash) st.tokens || is_blank_hash new_hash || leb expires_at now) ≡ false
        → (new_hash == hash) ≡ false
    other e = elim (Bool-cases (new_hash == hash)) [
      | inr n ↦ n
      | inl q ↦
          let there : any (has_hash new_hash) st.tokens ≡ true =
            ap (λ h. any (has_hash h) st.tokens) ((eq_iff new_hash hash).0 q) ∙ s.stored in
          absurd (let bad : true ≡ false = (rw there at e) in ground (arith, bad))
    ]

complete_found-IsSpent :
    (hash : Text) (now : ℕ) (secret_hash : Text) (t : ResetToken) (u : Option User)
    (c : Option Client) (st : Resets)
    → IsSpent hash st.tokens
    → IsSpent hash (complete_found now secret_hash t u c st).2.tokens
unfolding complete_found spend
complete_found-IsSpent hash now secret_hash t none c st s = s
complete_found-IsSpent hash now secret_hash t (some u) none st s = s
complete_found-IsSpent hash now secret_hash t (some u) (some c) st s =
    elim (Bool-cases (is_refused now t u c)) [
      | inl e ↦ rw e s
      | inr e ↦ rw e (use_tokens-IsSpent now (has_hash t.token_hash) hash st.tokens s)
    ]

complete_for-IsSpent :
    (hash : Text) (now : ℕ) (secret_hash : Text) (o : Option ResetToken) (st : Resets)
    → IsSpent hash st.tokens
    → IsSpent hash (complete_for now secret_hash o st).2.tokens
unfolding complete_for
complete_for-IsSpent hash now secret_hash none st s = s
complete_for-IsSpent hash now secret_hash (some t) st s =
    complete_found-IsSpent hash now secret_hash t _ _ st s

-- A token that is used already is refused, and nothing changes.
complete_found-used :
    (now : ℕ) (secret_hash : Text) (t : ResetToken) (u : Option User) (c : Option Client)
    (st : Resets)
    → is_unset t.used_at ≡ false
    → complete_found now secret_hash t u c st ≡ (invalid, [], st)
unfolding complete_found
complete_found-used now secret_hash t none c st e = refl
complete_found-used now secret_hash t (some u) none st e = refl
complete_found-used now secret_hash t (some u) (some c) st e = rw e refl

is_unset-false : (o : Option ℕ) → o ≢ none → is_unset o ≡ false
is_unset-false none n = absurd (n refl)
is_unset-false (some t) n = refl

complete_for-spent :
    (hash : Text) (now : ℕ) (secret_hash : Text) (st : Resets)
    → IsSpent hash st.tokens
    → (o : Option ResetToken) → find (has_hash hash) st.tokens ≡ o
    → complete_for now secret_hash o st ≡ (invalid, [], st)
unfolding complete_for
complete_for-spent hash now secret_hash st s none f = refl
complete_for-spent hash now secret_hash st s (some t) f =
    let (e, m) = find-Memᴰ (has_hash hash) st.tokens t f in
    complete_found-used now secret_hash t _ _ st
      (is_unset-false t.used_at (s.used t m ((eq_iff t.token_hash hash).0 e)))

use_tokens-spends :
    (now : ℕ) (t : ResetToken) (tokens : List ResetToken)
    → Memᴰ t tokens
    → IsSpent t.token_hash (use_tokens now (has_hash t.token_hash) tokens)
unfolding use_tokens
use_tokens-spends now t tokens m = record { stored = stored; used = used }
  where
    picked : ResetToken → Bool
    picked = has_hash t.token_hash

    stored : any picked (use_tokens now picked tokens) ≡ true
    stored =
        any-use_tokens now picked t.token_hash tokens
        ∙ any_of_Memᴰ picked m ((eq_iff t.token_hash t.token_hash).1 refl)

    used :
        (x : ResetToken)
        → Memᴰ x (use_tokens now picked tokens)
        → x.token_hash ≡ t.token_hash
        → x.used_at ≢ none
    used x n e =
        let (u, k, q) = Memᴰ-map (mark now picked) tokens n in
        let same = sym (mark-token_hash now picked u) ∙ sym (ap ResetToken.token_hash q) ∙ e in
        let chosen : picked u ≡ true = (eq_iff u.token_hash t.token_hash).1 same in
        subst (λ (y : ResetToken). y.used_at ≢ none) (sym q) (rw chosen (λ z. ground (arith, z)))

-- A completed reset spends the token that it found.
complete_found-completed :
    (now : ℕ) (secret_hash : Text) (t : ResetToken) (u : Option User) (c : Option Client)
    (st : Resets)
    → Memᴰ t st.tokens
    → is_completed (complete_found now secret_hash t u c st).0 ≡ true
    → IsSpent t.token_hash (complete_found now secret_hash t u c st).2.tokens
unfolding complete_found spend
complete_found-completed now secret_hash t none c st m e = absurd (ground (arith, e))
complete_found-completed now secret_hash t (some u) none st m e = absurd (ground (arith, e))
complete_found-completed now secret_hash t (some u) (some c) st m e =
    elim (Bool-cases (is_refused now t u c)) [
      | inl r ↦ absurd (let k : false ≡ true = rw r at e in ground (arith, k))
      | inr r ↦ rw r (use_tokens-spends now t st.tokens m)
    ]

complete_for-completed :
    (hash : Text) (now : ℕ) (secret_hash : Text) (st : Resets)
    → (o : Option ResetToken) → find (has_hash hash) st.tokens ≡ o
    → is_completed (complete_for now secret_hash o st).0 ≡ true
    → IsSpent hash (complete_for now secret_hash o st).2.tokens
unfolding complete_for
complete_for-completed hash now secret_hash st none f e = absurd (ground (arith, e))
complete_for-completed hash now secret_hash st (some t) f e =
    let (k, m) = find-Memᴰ (has_hash hash) st.tokens t f in
    subst (λ h. IsSpent h (complete_for now secret_hash (some t) st).2.tokens)
      ((eq_iff t.token_hash hash).0 k) (complete_found-completed now secret_hash t _ _ st m e)

module _ (normalize hash_reset_token hash_secret : Text → Text) (verify : Option Text → Text → Bool)
    (max : ℕ) where
  -- What requests, completions and all that happens to the accounts lead to.
  pub data Reached (start : Resets) : Resets → Type 0 where
    starts : Reached start start
    moves :
        {st : Resets} (accounts : Accounts)
        → Reached start st
        → Live.Reached normalize verify max st.accounts accounts
        → Reached start (record st { accounts = accounts })
    requests :
        {st : Resets} (ttl now : ℕ) (token client_slug email : Text)
        → Reached start st
        → Reached start
            (request normalize hash_reset_token hash_secret ttl now token client_slug email st).2
    completes :
        {st : Resets} (now : ℕ) (token new_password : Text)
        → Reached start st
        → Reached start
            (complete normalize hash_reset_token hash_secret now token new_password st).1

  complete-tokens :
      (now : ℕ) (token new_password : Text) (st : Resets)
      → (complete normalize hash_reset_token hash_secret now token new_password st).1.tokens
        ≡ (auth_complete_password_reset now
            (hash_reset_token token)
            (hash_secret new_password)
            st).2.tokens
  unfolding complete
  complete-tokens now token new_password st =
      elim (Bool-cases (
        is_completed
          (auth_complete_password_reset now (hash_reset_token token) (hash_secret new_password)
            st).0)) [ inl e ↦ rw e refl | inr e ↦ rw e refl ]

  request-IsSpent :
      (hash : Text) (ttl now : ℕ) (token client_slug email : Text) (st : Resets)
      → IsSpent hash st.tokens
      → IsSpent hash
          (request normalize hash_reset_token hash_secret ttl now token client_slug email
            st).2.tokens
  unfolding request auth_request_password_reset
  request-IsSpent hash ttl now token client_slug email st s =
      store_for-IsSpent hash now (hash_reset_token token) (now + ttl) _ st s

  complete-keeps-IsSpent :
      (hash : Text) (now : ℕ) (token new_password : Text) (st : Resets)
      → IsSpent hash st.tokens
      → IsSpent hash
          (complete normalize hash_reset_token hash_secret now token new_password st).1.tokens
  unfolding auth_complete_password_reset
  complete-keeps-IsSpent hash now token new_password st s =
      subst (IsSpent hash) (sym (complete-tokens now token new_password st))
        (complete_for-IsSpent hash now (hash_secret new_password) _ st s)

  Reached-IsSpent :
      (hash : Text) {start : Resets} (st : Resets)
      → IsSpent hash start.tokens
      → Reached start st
      → IsSpent hash st.tokens
  Reached-IsSpent hash st s starts = s
  Reached-IsSpent hash st s (moves {st = before} accounts r l) = Reached-IsSpent hash before s r
  Reached-IsSpent hash st s (requests {st = before} ttl now token client_slug email r) =
      request-IsSpent hash ttl now token client_slug email before (Reached-IsSpent hash before s r)
  Reached-IsSpent hash st s (completes {st = before} now token new_password r) =
      complete-keeps-IsSpent hash now token new_password before (Reached-IsSpent hash before s r)

  complete-outcome :
      (now : ℕ) (token new_password : Text) (st : Resets)
      → (complete normalize hash_reset_token hash_secret now token new_password st).0 ≡ true
      → is_completed
          (auth_complete_password_reset now
            (hash_reset_token token)
            (hash_secret new_password)
            st).0
        ≡ true
  unfolding complete
  complete-outcome now token new_password st e =
      elim (Bool-cases (
        is_completed
          (auth_complete_password_reset now (hash_reset_token token) (hash_secret new_password)
            st).0)) [
              | inl k ↦ k
              | inr k ↦ absurd (let bad : false ≡ true = rw k at e in ground (arith, bad))
            ]

  complete-IsSpent :
      (now : ℕ) (token new_password : Text) (st : Resets)
      → (complete normalize hash_reset_token hash_secret now token new_password st).0 ≡ true
      → IsSpent
          (hash_reset_token token)
          (complete normalize hash_reset_token hash_secret now token new_password st).1.tokens
  unfolding auth_complete_password_reset
  complete-IsSpent now token new_password st e =
      subst (IsSpent (hash_reset_token token)) (sym (complete-tokens now token new_password st)) (
        complete_for-completed (hash_reset_token token) now (hash_secret new_password) st _ refl
          (complete-outcome now token new_password st e))

  -- Whatever happens after a reset is completed, logins, locks and further requests included: its
  -- token completes no reset again, and an attempt with it changes nothing.
  pub complete_once :
      (now later : ℕ) (token new_password other_password : Text) (before st : Resets)
      → (complete normalize hash_reset_token hash_secret now token new_password before).0 ≡ true
      → Reached (complete normalize hash_reset_token hash_secret now token new_password before).1 st
      → complete normalize hash_reset_token hash_secret later token other_password st ≡ (false, st)
  unfolding complete auth_complete_password_reset
  complete_once now later token new_password other_password before st e r =
      let hash = hash_reset_token token in
      let spent = Reached-IsSpent hash st (complete-IsSpent now token new_password before e) r in
      rw (complete_for-spent hash later (hash_secret other_password) st spent _ refl) refl
