-- ===== src/Accounts/Resets/Consistent.antt =====
-- The tokens that requests and completions leave, with the accounts.
use plant_ops.Prelude.{
  ℕ, ◌+◌, Text, ◌==◌, eq_iff, Bool, true, false, ◌||◌, List, ◌∷◌, Option, none, some, ◌≡◌, ◌≢◌,
  refl, sym, ap, ◌∙◌, inl, inr, arith, Bool-cases, leb, any, any_of_Memᴰ, Memᴰ-map,
}
use mathlib.Core.List.{Memᴰ}
use plant_ops.Accounts.{User, Client, is_unset}
use plant_ops.Accounts.Live.{IsSafe}
use plant_ops.Accounts.Live as Live
use plant_ops.Accounts.Rows.{update_user-HasUniqueIds, update_user-revoke}
use plant_ops.Accounts.Resets.{
  ResetToken, Resets, use_tokens, is_outstanding, has_hash, is_blank_hash, store_token, store_for,
  auth_request_password_reset, is_refused, renewed, spend, complete_found, complete_for,
  auth_complete_password_reset, request, complete, is_completed,
}
use plant_ops.Accounts.Resets.Spent.{Reached, mark, mark-token_hash}
use plant_ops.Accounts.Resets.Spent as Spent

-- A hash has one row, and a user at most one token that is not used.
pub record AreSingle (tokens : List ResetToken) : Type 0 where
  pub by_hash :
      (t u : ResetToken) → Memᴰ t tokens → Memᴰ u tokens → t.token_hash ≡ u.token_hash → t ≡ u
  pub by_user :
      (t u : ResetToken)
      → Memᴰ t tokens
      → Memᴰ u tokens
      → t.user_id ≡ u.user_id
      → t.used_at ≡ none
      → u.used_at ≡ none
      → t ≡ u

pub record IsConsistent (st : Resets) : Type 0 where
  pub accounts : IsSafe st.accounts
  pub tokens : AreSingle st.tokens

module _ (now : ℕ) (picked : ResetToken → Bool) where
  -- A token that an update leaves unused was not picked.
  mark-unused :
      (t : ResetToken)
      → (mark now picked t).used_at ≡ none
      → (mark now picked t ≡ t) × (picked t ≡ false)
  mark-unused t n = elim (Bool-cases (picked t)) [
    | inl e ↦ absurd (let k : some now ≡ none = rw e at n in ground (arith, k))
    | inr e ↦ (rw e refl, e)
  ]

  use_tokens-AreSingle :
      (tokens : List ResetToken) → AreSingle tokens → AreSingle (use_tokens now picked tokens)
  unfolding use_tokens
  use_tokens-AreSingle tokens s = record {
    by_hash = λ t u m n e.
        let (x, mx, p) = Memᴰ-map (mark now picked) tokens m in
        let (y, my, q) = Memᴰ-map (mark now picked) tokens n in
        let same = s.by_hash x y mx my (
          sym (mark-token_hash now picked x)
          ∙ sym (ap ResetToken.token_hash p)
          ∙ e
          ∙ ap ResetToken.token_hash q
          ∙ mark-token_hash now picked y) in
        p ∙ ap (mark now picked) same ∙ sym q;
    by_user = λ t u m n e a b.
        let (x, mx, p) = Memᴰ-map (mark now picked) tokens m in
        let (y, my, q) = Memᴰ-map (mark now picked) tokens n in
        let (kx, _) = mark-unused x (sym (ap ResetToken.used_at p) ∙ a) in
        let (ky, _) = mark-unused y (sym (ap ResetToken.used_at q) ∙ b) in
        let tx : t ≡ x = p ∙ kx in
        let uy : u ≡ y = q ∙ ky in
        tx
        ∙ s.by_user x y mx my (sym (ap ResetToken.user_id tx) ∙ e ∙ ap ResetToken.user_id uy)
            (sym (ap ResetToken.used_at tx) ∙ a) (sym (ap ResetToken.used_at uy) ∙ b)
        ∙ sym uy;
  }

-- A new token, of a hash that is not there and a user with none left.
AreSingle-cons :
    (t : ResetToken) (tokens : List ResetToken)
    → ((u : ResetToken) → Memᴰ u tokens → u.token_hash ≢ t.token_hash)
    → ((u : ResetToken) → Memᴰ u tokens → u.user_id ≡ t.user_id → u.used_at ≢ none)
    → AreSingle tokens
    → AreSingle (t ∷ tokens)
AreSingle-cons t tokens fresh alone s = record { by_hash = by_hash; by_user = by_user }
  where
    by_hash :
        (x y : ResetToken)
        → Memᴰ x (t ∷ tokens)
        → Memᴰ y (t ∷ tokens)
        → x.token_hash ≡ y.token_hash
        → x ≡ y
    by_hash x y (Memᴰ.head p) (Memᴰ.head q) e = p ∙ sym q
    by_hash x y (Memᴰ.head p) (Memᴰ.tail n) e =
        absurd (fresh y n (sym e ∙ ap ResetToken.token_hash p))
    by_hash x y (Memᴰ.tail m) (Memᴰ.head q) e = absurd (fresh x m (e ∙ ap ResetToken.token_hash q))
    by_hash x y (Memᴰ.tail m) (Memᴰ.tail n) e = s.by_hash x y m n e

    by_user :
        (x y : ResetToken)
        → Memᴰ x (t ∷ tokens)
        → Memᴰ y (t ∷ tokens)
        → x.user_id ≡ y.user_id
        → x.used_at ≡ none
        → y.used_at ≡ none
        → x ≡ y
    by_user x y (Memᴰ.head p) (Memᴰ.head q) e a b = p ∙ sym q
    by_user x y (Memᴰ.head p) (Memᴰ.tail n) e a b =
        absurd (alone y n (sym e ∙ ap ResetToken.user_id p) b)
    by_user x y (Memᴰ.tail m) (Memᴰ.head q) e a b =
        absurd (alone x m (e ∙ ap ResetToken.user_id q) a)
    by_user x y (Memᴰ.tail m) (Memᴰ.tail n) e a b = s.by_user x y m n e a b

store_for-IsConsistent :
    (now : ℕ) (hash : Text) (expires_at : ℕ) (o : Option User) (st : Resets)
    → IsConsistent st
    → IsConsistent (store_for now hash expires_at o st).1
unfolding store_for store_token
store_for-IsConsistent now hash expires_at none st s = s
store_for-IsConsistent now hash expires_at (some u) st s =
    elim (Bool-cases (any (has_hash hash) st.tokens || is_blank_hash hash || leb expires_at now)) [
      | inl e ↦ rw e s
      | inr e ↦ rw e (record {
        accounts = record { unique = s.accounts.unique; only_active = s.accounts.only_active };
        tokens =
            AreSingle-cons _ _ (fresh (ground (arith, e))) alone
              (use_tokens-AreSingle now (is_outstanding u.id) st.tokens s.tokens);
      })
    ]
  where
    fresh :
        any (has_hash hash) st.tokens ≡ false
        → (t : ResetToken) → Memᴰ t (use_tokens now (is_outstanding u.id) st.tokens)
        → t.token_hash ≢ hash
    fresh e t m q =
        let (x, mx, p) = Memᴰ-map (mark now (is_outstanding u.id)) st.tokens m in
        let same =
          sym (mark-token_hash now (is_outstanding u.id) x)
          ∙ sym (ap ResetToken.token_hash p)
          ∙ q in
        let there = any_of_Memᴰ (has_hash hash) mx ((eq_iff x.token_hash hash).1 same) in
        let bad : false ≡ true = sym e ∙ there in ground (arith, bad)

    alone :
        (t : ResetToken)
        → Memᴰ t (use_tokens now (is_outstanding u.id) st.tokens)
        → t.user_id ≡ u.id
        → t.used_at ≢ none
    alone t m i n =
        let (x, mx, p) = Memᴰ-map (mark now (is_outstanding u.id)) st.tokens m in
        let (k, unpicked) =
          mark-unused now (is_outstanding u.id) x (sym (ap ResetToken.used_at p) ∙ n) in
        let same : t ≡ x = p ∙ k in
        let mine : (x.user_id == u.id) ≡ true =
          (eq_iff x.user_id u.id).1 (sym (ap ResetToken.user_id same) ∙ i) in
        let unset : is_unset x.used_at ≡ true =
          ap is_unset (sym (ap ResetToken.used_at same) ∙ n) in
        let bad : true ≡ false = rw (mine, unset) at unpicked in ground (arith, bad)

complete_found-IsConsistent :
    (now : ℕ) (secret_hash : Text) (t : ResetToken) (u : Option User) (c : Option Client)
    (st : Resets)
    → IsConsistent st
    → IsConsistent (complete_found now secret_hash t u c st).2
unfolding complete_found spend
complete_found-IsConsistent now secret_hash t none c st s = s
complete_found-IsConsistent now secret_hash t (some u) none st s = s
complete_found-IsConsistent now secret_hash t (some u) (some c) st s =
    elim (Bool-cases (is_refused now t u c)) [
      | inl e ↦ rw e s
      | inr e ↦ rw e (record {
        accounts = record {
          unique =
              update_user-HasUniqueIds (λ v. v.id == t.user_id) (renewed secret_hash) (λ v. refl)
                st.accounts.users s.accounts.unique;
          only_active =
              update_user-revoke (λ v. v.id == t.user_id) (renewed secret_hash) (λ v. refl) now
                t.user_id st.accounts.users st.accounts.sessions
                (λ v p. (eq_iff v.id t.user_id).0 p) s.accounts.only_active;
        };
        tokens = use_tokens-AreSingle now (has_hash t.token_hash) st.tokens s.tokens;
      })
    ]

complete_for-IsConsistent :
    (now : ℕ) (secret_hash : Text) (o : Option ResetToken) (st : Resets)
    → IsConsistent st
    → IsConsistent (complete_for now secret_hash o st).2
unfolding complete_for
complete_for-IsConsistent now secret_hash none st s = s
complete_for-IsConsistent now secret_hash (some t) st s =
    complete_found-IsConsistent now secret_hash t _ _ st s

module _ (normalize hash_reset_token hash_secret : Text → Text) (verify : Option Text → Text → Bool)
    (max : ℕ) where
  request-IsConsistent :
      (ttl now : ℕ) (token client_slug email : Text) (st : Resets)
      → IsConsistent st
      → IsConsistent
          (request normalize hash_reset_token hash_secret ttl now token client_slug email st).2
  unfolding request auth_request_password_reset
  request-IsConsistent ttl now token client_slug email st s =
      store_for-IsConsistent now (hash_reset_token token) (now + ttl) _ st s

  complete-IsConsistent :
      (now : ℕ) (token new_password : Text) (st : Resets)
      → IsConsistent st
      → IsConsistent (complete normalize hash_reset_token hash_secret now token new_password st).1
  unfolding complete auth_complete_password_reset
  complete-IsConsistent now token new_password st s =
      let answer =
        auth_complete_password_reset now (hash_reset_token token) (hash_secret new_password) st in
      let after = complete_for-IsConsistent now (hash_secret new_password) _ st s in
      elim (Bool-cases (is_completed answer.0)) [
        | inl e ↦ rw e (record {
          accounts = record {
            unique = after.accounts.unique;
            only_active = after.accounts.only_active;
          };
          tokens = after.tokens;
        })
        | inr e ↦ rw e after
      ]

  -- From accounts with unique user ids in which no session of a locked or disabled user is live, and
  -- tokens of which each hash has one and each user at most one that is not used: any requests,
  -- completions, logins, failed ones included, locks, unlocks and disablings lead to such accounts
  -- and such tokens only.
  pub Reached-IsConsistent :
      (start st : Resets)
      → IsConsistent start
      → Reached normalize hash_reset_token hash_secret verify max start st
      → IsConsistent st
  Reached-IsConsistent start st s Spent.Reached.starts = s
  Reached-IsConsistent start st s (Spent.Reached.moves {st = before} accounts r l) =
      let b = Reached-IsConsistent start before s r in
      record {
        accounts = Live.Reached-IsSafe normalize verify max before.accounts accounts b.accounts l;
        tokens = b.tokens;
      }
  Reached-IsConsistent start st s
        (Spent.Reached.requests {st = before} ttl now token client_slug email r) =
      request-IsConsistent ttl now token client_slug email before
        (Reached-IsConsistent start before s r)
  Reached-IsConsistent start st s (Spent.Reached.completes {st = before} now token new_password r) =
      complete-IsConsistent now token new_password before (Reached-IsConsistent start before s r)
