-- ===== src/Accounts/Resets.antt =====
-- Password resets: request and complete of apps/iam-api/src/auth/password-reset.service.ts, and the SQL
-- functions auth_request_password_reset and auth_complete_password_reset of
-- libs/db/src/migrations/0014-password-reset-account-state.ts. A token row is known by its hash, which
-- is unique; a statement that breaks a constraint fails and leaves the tables as they were.
pub mod Spent
pub mod Renewal
pub mod Consistent
use plant_ops.Prelude.{
  ℕ, ◌+◌, Text, ◌==◌, Bool, true, false, not, ◌&&◌, ◌||◌, List, ◌∷◌, ◌++◌, [], Option, none, some,
  leb, ◌=?◌, if◌then◌else◌, find, map, any,
}
use plant_ops.Accounts.{
  active, Client, User, Accounts, same_status, is_unset, update_user, revoke_sessions,
  killed_sessions, forgiven, password_reset_requested, password_reset_completed,
}

pub record ResetToken : Type 0 where
  pub token_hash : Text
  pub client_id : Text
  pub user_id : Text
  pub expires_at : ℕ
  pub used_at : Option ℕ

-- The accounts with the table of reset tokens.
pub record Resets : Type 0 where
  pub accounts : Accounts
  pub tokens : List ResetToken

pub data RequestOutcome : Type 0 where
  issued ignored failed : RequestOutcome

pub data ResetOutcome : Type 0 where
  completed invalid : ResetOutcome

-- `update … set used_at = now() where …`
unfoldable pub use_tokens : ℕ → (ResetToken → Bool) → List ResetToken → List ResetToken
use_tokens now picked tokens =
    map (λ t. if picked t then record t { used_at = some now } else t) tokens

abbrev pub is_outstanding : Text → ResetToken → Bool
is_outstanding user_id t = t.user_id == user_id && is_unset t.used_at

abbrev pub has_hash : Text → ResetToken → Bool
has_hash hash t = t.token_hash == hash

abbrev pub may_request : List Client → Text → Text → User → Bool
may_request clients client_slug email u =
    u.email == email
    && same_status u.status active
    && any (λ c. c.id == u.client_id && c.slug == client_slug && c.is_active) clients

-- The hash has no character but spaces: `length(btrim(token_hash)) > 0` fails.
unfoldable pub is_blank_hash : Text → Bool
is_blank_hash [] = true
is_blank_hash (c ∷ s) = let rest = is_blank_hash s in c =? 32 && rest

unfoldable pub store_token : ℕ → Text → ℕ → User → Resets → RequestOutcome × Resets
unfolding use_tokens is_blank_hash
store_token now hash expires_at u st =
    let token : ResetToken = record {
      token_hash = hash;
      client_id = u.client_id;
      user_id = u.id;
      expires_at = expires_at;
      used_at = none;
    } in
    if any (has_hash hash) st.tokens || is_blank_hash hash || leb expires_at now
    then (failed, st)
    else (
      issued,
      record {
        accounts = record st.accounts { audit = password_reset_requested u.id ∷ st.accounts.audit };
        tokens = token ∷ use_tokens now (is_outstanding u.id) st.tokens;
      },
    )

abbrev pub store_for : ℕ → Text → ℕ → Option User → Resets → RequestOutcome × Resets
unfolding store_token
store_for now hash expires_at none st = (ignored, st)
store_for now hash expires_at (some u) st = store_token now hash expires_at u st

-- `auth_request_password_reset`
unfoldable pub auth_request_password_reset :
    (Text → Text) → ℕ → Text → Text → Text → ℕ → Resets → RequestOutcome × Resets
unfolding store_for
auth_request_password_reset normalize now client_slug email hash expires_at st =
    store_for now hash expires_at
      (find (may_request st.accounts.clients client_slug (normalize email)) st.accounts.users) st

-- Why a token is refused: it is spent or over, or its user or client is not active.
abbrev pub is_refused : ℕ → ResetToken → User → Client → Bool
is_refused now t u c =
    not (is_unset t.used_at)
    || leb t.expires_at now
    || not (same_status u.status active)
    || not c.is_active

-- What `on conflict … do update` leaves, with the counter cleared.
abbrev pub renewed : Text → User → User
renewed secret_hash u = record (forgiven u) { secret_hash = some secret_hash }

unfoldable pub spend : ℕ → Text → ResetToken → Resets → List Text × Resets
unfolding use_tokens update_user revoke_sessions killed_sessions
spend now secret_hash t st = (
  killed_sessions t.user_id st.accounts.sessions,
  record {
    accounts = record st.accounts {
      users = update_user (λ v. v.id == t.user_id) (renewed secret_hash) st.accounts.users;
      sessions = revoke_sessions now t.user_id st.accounts.sessions;
      audit = password_reset_completed t.user_id ∷ st.accounts.audit;
    };
    tokens = use_tokens now (has_hash t.token_hash) st.tokens;
  },
)

unfoldable pub complete_found :
    ℕ → Text → ResetToken → Option User → Option Client → Resets → ResetOutcome × List Text × Resets
unfolding spend
complete_found now secret_hash t (some u) (some c) st =
    if is_refused now t u c
    then (invalid, [], st)
    else (completed, (spend now secret_hash t st).0, (spend now secret_hash t st).1)
complete_found now secret_hash t u c st = (invalid, [], st)

abbrev pub complete_for : ℕ → Text → Option ResetToken → Resets → ResetOutcome × List Text × Resets
unfolding complete_found
complete_for now secret_hash none st = (invalid, [], st)
complete_for now secret_hash (some t) st =
    complete_found now secret_hash t (find (λ u. u.id == t.user_id) st.accounts.users)
      (find (λ c. c.id == t.client_id) st.accounts.clients) st

-- `auth_complete_password_reset`
unfoldable pub auth_complete_password_reset :
    ℕ → Text → Text → Resets → ResetOutcome × List Text × Resets
unfolding complete_for
auth_complete_password_reset now hash secret_hash st =
    complete_for now secret_hash (find (has_hash hash) st.tokens) st

pub record Delivery : Type 0 where
  pub email : Text
  pub client_slug : Text
  pub token : Text
  pub expires_at : ℕ

abbrev pub is_issued : RequestOutcome → Bool
is_issued issued = true
is_issued _ = false

abbrev pub is_completed : ResetOutcome → Bool
is_completed completed = true
is_completed invalid = false

module _ (normalize hash_reset_token hash_secret : Text → Text) where
  -- `PasswordResetService.request`, with the minted token: what is delivered.
  unfoldable pub request :
      ℕ → ℕ → Text → Text → Text → Resets → RequestOutcome × Option Delivery × Resets
  unfolding auth_request_password_reset
  request ttl now token client_slug email st =
      let expires_at = now + ttl in
      let answer =
        auth_request_password_reset normalize now client_slug email (hash_reset_token token)
          expires_at st in
      (
        answer.0,
        if is_issued answer.0
            then some (record {
              email = email;
              client_slug = client_slug;
              token = token;
              expires_at = expires_at;
            })
            else none,
        answer.1,
      )

  -- `PasswordResetService.complete`: the answer is whether it throws nothing.
  unfoldable pub complete : ℕ → Text → Text → Resets → Bool × Resets
  unfolding auth_complete_password_reset
  complete now token new_password st =
      let answer =
        auth_complete_password_reset now (hash_reset_token token) (hash_secret new_password) st in
      let after = answer.2 in
      if is_completed answer.0
      then (
        true,
        record after {
          accounts = record after.accounts { published = answer.1 ++ after.accounts.published };
        },
      )
      else (false, after)
