-- ===== src/Accounts/Resets/Renewal.antt =====
-- After a reset: the new password opens the account, and no session from before is live.
use plant_ops.Prelude.{
  ℕ, Text, ◌==◌, eq_iff, Bool, true, false, not, ◌&&◌, List, [], ◌∷◌, Option, none, some, ◌≡◌, ◌≢◌,
  refl, sym, ap, ◌∙◌, inl, inr, arith, Bool-cases, if◌then◌else◌, any, find, any_of_Memᴰ, find-Memᴰ,
}
use mathlib.Core.List.{Memᴰ}
use mathlib.Core.Path.{subst}
use plant_ops.Accounts.{
  active, UserStatus, Accounts, Client, User, SessionRow, same_status, update_user, revoke_sessions,
  begin_session,
}
use plant_ops.Accounts.Login.{logged_in, invalid_credentials, login, classify}
use plant_ops.Accounts.Rows.{HasUniqueIds, find-update, survivor}
use plant_ops.Accounts.Resets.{
  ResetToken, Resets, has_hash, renewed, is_refused, spend, complete_found, complete_for,
  auth_complete_password_reset, complete,
}

-- The account that a login finds, and the reset token of that account.
pub record IsResetOf (normalize : Text → Text) (client_slug email hash : Text) (c : Client)
    (u : User) (t : ResetToken) (st : Resets) : Type 0 where
  pub unique : HasUniqueIds st.accounts.users
  pub client : find (λ c. c.slug == client_slug) st.accounts.clients ≡ some c
  pub user :
      find (λ u. u.client_id == c.id && u.email == normalize email) st.accounts.users ≡ some u
  pub token : find (has_hash hash) st.tokens ≡ some t
  pub of_user : t.user_id ≡ u.id
  pub of_client : find (λ c. c.id == t.client_id) st.accounts.clients ≡ some c

active_of : (s : UserStatus) → not (same_status s active) ≡ false → s ≡ active
active_of UserStatus.active h = refl
active_of UserStatus.locked h = absurd (ground (arith, h))
active_of UserStatus.disabled h = absurd (ground (arith, h))

-- A login with the account's new row.
login-renewed :
    (normalize : Text → Text) (verify : Option Text → Text → Bool) (now max : ℕ)
    (new_id client_slug email password secret_hash : Text) (c : Client) (u : User) (st : Accounts)
    → find (λ c. c.slug == client_slug) st.clients ≡ some c
    → find (λ u. u.client_id == c.id && u.email == normalize email) st.users
      ≡ some (renewed secret_hash u)
    → c.is_active ≡ true
    → u.status ≡ active
    → (login normalize verify now max new_id client_slug email password st).0
      ≡ (if verify (some secret_hash) password then logged_in new_id else invalid_credentials)
unfolding login classify begin_session
login-renewed normalize verify now max new_id client_slug email password secret_hash c u st f g a
      s =
    let (k, m) =
      find-Memᴰ (λ u. u.client_id == c.id && u.email == normalize email) st.users
        (renewed secret_hash u) g in
    let (k', n) = find-Memᴰ (λ c. c.slug == client_slug) st.clients c f in
    let mine : (u.client_id == c.id) ≡ true = ground (arith, k) in
    let user_there =
      any_of_Memᴰ (λ x. x.id == u.id && x.client_id == c.id && same_status x.status active) m
        (rw ((eq_iff u.id u.id).1 refl, mine, s) refl) in
    let client_there =
      any_of_Memᴰ (λ x. x.id == c.id && x.is_active) n (rw ((eq_iff c.id c.id).1 refl, a) refl) in
    elim (Bool-cases (verify (some secret_hash) password)) [
      | inl v ↦ rw (f, g, v, a, s, user_there, client_there) refl
      | inr v ↦ rw (f, g, v, a) refl
    ]

find_of_any :
    {A : Type 0} (p : A → Bool) (xs : List A) → any p xs ≡ true → (x : A) × (find p xs ≡ some x)
find_of_any p [] h = absurd (ground (arith, h))
find_of_any p (x ∷ xs) h = elim (Bool-cases (p x)) [
  | inl e ↦ (x, rw e refl)
  | inr e ↦ let (y, f) = find_of_any p xs (rw e at h) in (y, rw e f)
]

find-id :
    (u : User) (users : List User)
    → HasUniqueIds users
    → Memᴰ u users
    → find (λ v. v.id == u.id) users ≡ some u
find-id u users unique m =
    let (v, f) =
      find_of_any (λ v. v.id == u.id) users
        (any_of_Memᴰ (λ (v : User). v.id == u.id) m ((eq_iff u.id u.id).1 refl)) in
    let (k, n) = find-Memᴰ (λ v. v.id == u.id) users v f in
    f ∙ ap (λ x. some x) (unique v u n m ((eq_iff v.id u.id).0 k))

module _ (normalize hash_reset_token hash_secret : Text → Text) (now : ℕ)
    (token new_password client_slug email : Text) (c : Client) (u : User) (t : ResetToken)
    (st : Resets)
    (reset : IsResetOf normalize client_slug email (hash_reset_token token) c u t st) where
  abbrev secret_hash : Text
  secret_hash = hash_secret new_password

  auth_complete_password_reset-found :
      auth_complete_password_reset now (hash_reset_token token) secret_hash st
      ≡ complete_found now secret_hash t (some u) (some c) st
  unfolding auth_complete_password_reset complete_for
  auth_complete_password_reset-found =
      let (k, m) =
        find-Memᴰ (λ u. u.client_id == c.id && u.email == normalize email) st.accounts.users u
          reset.user in
      let found : find (λ v. v.id == t.user_id) st.accounts.users ≡ some u =
        ap (λ id. find (λ (v : User). v.id == id) st.accounts.users) reset.of_user
        ∙ find-id u st.accounts.users reset.unique m in
      ap (λ o. complete_for now secret_hash o st) reset.token
      ∙ ap
          (λ o.
            complete_found now secret_hash t o (find (λ c. c.id == t.client_id) st.accounts.clients)
              st)
          found
      ∙ ap (λ o. complete_found now secret_hash t (some u) o st) reset.of_client

  -- What a completed reset leaves of the accounts.
  record IsRenewed (after : Accounts) : Type 0 where
    clients : after.clients ≡ st.accounts.clients
    users : after.users ≡ update_user (λ v. v.id == u.id) (renewed secret_hash) st.accounts.users
    sessions : after.sessions ≡ revoke_sessions now u.id st.accounts.sessions
    is_active : c.is_active ≡ true
    status : u.status ≡ active

  complete-IsRenewed :
      (complete normalize hash_reset_token hash_secret now token new_password st).0 ≡ true
      → IsRenewed
          (complete normalize hash_reset_token hash_secret now token new_password st).1.accounts
  unfolding complete complete_found spend
  complete-IsRenewed e =
      let same = auth_complete_password_reset-found in
      elim (Bool-cases (is_refused now t u c)) [
        | inl r ↦ absurd (let k : false ≡ true = rw (same, r) at e in ground (arith, k))
        | inr r ↦
            rw (same, r)
              (record {
                clients = refl;
                users = rw reset.of_user refl;
                sessions = rw reset.of_user refl;
                is_active = ground (arith, r);
                status = active_of u.status (ground (arith, r));
              })
      ]

  -- When a reset is completed for the account that a login with this tenant and address finds: no
  -- session of the account is live afterwards, and the next login opens a session if its password
  -- matches the new secret, and is refused as invalid if it does not.
  pub complete-login :
      (verify : Option Text → Text → Bool) (later max : ℕ) (new_id password : Text)
      → (complete normalize hash_reset_token hash_secret now token new_password st).0 ≡ true
      → let after = (complete normalize hash_reset_token hash_secret now token new_password st).1 in
        ((s : SessionRow) → Memᴰ s after.accounts.sessions → s.user_id ≡ u.id → s.revoked_at ≢ none)
        × ((login normalize verify later max new_id client_slug email password after.accounts).0 ≡ (
            if verify (some secret_hash) password then logged_in new_id else invalid_credentials))
  complete-login verify later max new_id password e =
      let after =
        (complete normalize hash_reset_token hash_secret now token new_password st).1.accounts in
      let r = complete-IsRenewed e in
      let (k, m) =
        find-Memᴰ (λ u. u.client_id == c.id && u.email == normalize email) st.accounts.users u
          reset.user in
      (
        λ s n own live.
            let (_, other) =
              survivor now u.id st.accounts.sessions s (subst (λ rows. Memᴰ s rows) r.sessions n)
                live in
            let bad : true ≡ false = sym ((eq_iff s.user_id u.id).1 own) ∙ other in
            ground (arith, bad),
        login-renewed normalize verify later max new_id client_slug email password secret_hash c u
            after (ap (find (λ c. c.slug == client_slug)) r.clients ∙ reset.client)
            (ap (find (λ u. u.client_id == c.id && u.email == normalize email)) r.users
              ∙ find-update (λ u. u.client_id == c.id && u.email == normalize email)
                  (renewed secret_hash) u st.accounts.users (λ v n i. reset.unique v u n m i) k
                  reset.user)
            r.is_active r.status,
      )
