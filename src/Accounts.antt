-- ===== src/Accounts.antt =====
-- Logging in and the state of an account: `AuthService.login` of apps/iam-api/src/auth/auth.service.ts,
-- `AccountStateService` of account-state.service.ts, `revokeAllForUser` of session.service.ts, and the
-- SQL functions `auth_lookup_password_identity` (libs/db/src/migrations/0012-auth-functions.ts),
-- `auth_record_login_failure` and `auth_begin_session` (0014-password-reset-account-state.ts).
-- `lower(btrim(…))` and the verification of a password are parameters.
pub mod Login
pub mod Rows
pub mod Live
pub mod Attempts
pub mod Resets
mod Tests
use plant_ops.Prelude.{
  ℕ, suc, ◌+◌, Text, ◌==◌, Bool, true, false, not, ◌&&◌, ◌||◌, List, [], ◌∷◌, ◌++◌, Option, none,
  some, ltb, leb, if◌then◌else◌, find, map, filter, any,
}

pub data UserStatus : Type 0 where
  active locked disabled : UserStatus

pub data LoginFailureReason : Type 0 where
  unknown_client unknown_user bad_password account_locked account_disabled client_suspended :
      LoginFailureReason

pub record Client : Type 0 where
  pub id : Text
  pub slug : Text
  pub is_active : Bool

-- `secret_hash` is that of the password identity.
pub record User : Type 0 where
  pub id : Text
  pub client_id : Text
  pub email : Text
  pub status : UserStatus
  pub failed_login_attempts : ℕ
  pub last_failed_login_at : Option ℕ
  pub secret_hash : Option Text

pub record SessionRow : Type 0 where
  pub id : Text
  pub user_id : Text
  pub revoked_at : Option ℕ

pub data AccountEvent : Type 0 where
  login_failed : LoginFailureReason → AccountEvent
  login_success : Text → AccountEvent
  account_locked_event account_unlocked_event user_disabled_event : Text → AccountEvent
  session_revoked : Text → AccountEvent
  password_reset_requested password_reset_completed : Text → AccountEvent

-- The rows, the audit trail, the `sid`s published as revoked and the users whose grants are announced
-- as invalid, the latest first.
pub record Accounts : Type 0 where
  pub clients : List Client
  pub users : List User
  pub sessions : List SessionRow
  pub audit : List AccountEvent
  pub published : List Text
  pub invalidated : List Text

abbrev pub same_status : UserStatus → UserStatus → Bool
same_status active active = true
same_status locked locked = true
same_status disabled disabled = true
same_status _ _ = false

abbrev pub is_unset : Option ℕ → Bool
is_unset none = true
is_unset (some t) = false

-- `update … where id = …`
unfoldable pub update_user : (User → Bool) → (User → User) → List User → List User
update_user picked f users = map (λ u. if picked u then f u else u) users

-- `update "session" set revoked_at = now() where user_id = … and revoked_at is null returning id`
abbrev pub is_killed : Text → SessionRow → Bool
is_killed user_id s = s.user_id == user_id && is_unset s.revoked_at

unfoldable pub revoke_sessions : ℕ → Text → List SessionRow → List SessionRow
revoke_sessions now user_id rows =
    map (λ s. if is_killed user_id s then record s { revoked_at = some now } else s) rows

unfoldable pub killed_sessions : Text → List SessionRow → List Text
killed_sessions user_id rows = map SessionRow.id (filter (is_killed user_id) rows)

abbrev pub failed_once : ℕ → User → User
failed_once now u = record u {
  failed_login_attempts = u.failed_login_attempts + 1;
  last_failed_login_at = some now;
}

abbrev pub locked_out : User → User
locked_out u = record u { status = locked; failed_login_attempts = 0 }

-- The threshold, once the failure is counted: lock, revoke, audit.
unfoldable pub count_failure : ℕ → ℕ → User → Accounts → List Text × Accounts
unfolding update_user revoke_sessions killed_sessions
count_failure now max u st =
    let counted = update_user (λ v. v.id == u.id) (failed_once now) st.users in
    if leb max (u.failed_login_attempts + 1)
    then (
      killed_sessions u.id st.sessions,
      record st {
        users = update_user (λ v. v.id == u.id) locked_out counted;
        sessions = revoke_sessions now u.id st.sessions;
        audit = account_locked_event u.id ∷ st.audit;
      },
    )
    else ([], record st { users = counted })

abbrev pub is_bad_password : LoginFailureReason → Bool
is_bad_password bad_password = true
is_bad_password _ = false

abbrev pub count_for : ℕ → ℕ → Option User → Accounts → List Text × Accounts
count_for now max none st = ([], st)
count_for now max (some u) st = count_failure now max u st

abbrev pub active_user : Text → Text → User → Bool
active_user client_id email u =
    u.client_id == client_id && u.email == email && same_status u.status active

abbrev pub counted_in : ℕ → ℕ → Bool → Text → Option Client → Accounts → List Text × Accounts
counted_in now max counts email none st = ([], st)
counted_in now max counts email (some c) st =
    let done = count_for now max (find (active_user c.id email) st.users) st in
    if counts then done else ([], st)

module _ (normalize : Text → Text) where
  -- `auth_record_login_failure`
  unfoldable pub record_login_failure :
      ℕ → ℕ → Text → Text → LoginFailureReason → Accounts → List Text × Accounts
  unfolding count_failure
  record_login_failure now max client_slug email reason st =
      let (revoked, after) =
        counted_in now max (is_bad_password reason && ltb 0 max) (normalize email)
          (find (λ c. c.slug == client_slug) st.clients) st in
      (revoked, record after { audit = login_failed reason ∷ after.audit })

  -- `AuthService.recordFailure`: what was revoked is published.
  unfoldable pub record_failure : ℕ → ℕ → Text → Text → LoginFailureReason → Accounts → Accounts
  unfolding record_login_failure
  record_failure now max client_slug email reason st =
      let (revoked, after) = record_login_failure now max client_slug email reason st in
      record after { published = revoked ++ after.published }

-- `auth_begin_session`; `none` where the user or the client is not active.
abbrev pub is_eligible : Text → Text → Accounts → Bool
is_eligible client_id user_id st =
    any (λ u. u.id == user_id && u.client_id == client_id && same_status u.status active) st.users
    && any (λ c. c.id == client_id && c.is_active) st.clients

abbrev pub forgiven : User → User
forgiven u = record u { failed_login_attempts = 0; last_failed_login_at = none }

unfoldable pub begin_session : Text → Text → Text → Accounts → Option Text × Accounts
unfolding update_user
begin_session new_id client_id user_id st =
    if is_eligible client_id user_id st
    then (
      some new_id,
      record st {
        users = update_user (λ v. v.id == user_id) forgiven st.users;
        sessions = (record { id = new_id; user_id = user_id; revoked_at = none }) ∷ st.sessions;
        audit = login_success new_id ∷ st.audit;
      },
    )
    else (none, st)

-- `transition`, from the update on.
unfoldable pub transition :
    ℕ
    → Text
    → Text
    → UserStatus
    → (UserStatus → Bool)
    → (Text → AccountEvent)
    → Bool
    → Bool
    → Accounts
    → Bool × Accounts
unfolding update_user revoke_sessions killed_sessions
transition now client_id user_id status allowed event revokes invalidates st =
    let picked : User → Bool = λ u.
      u.id == user_id
      && u.client_id == client_id
      && not (same_status u.status status)
      && allowed u.status in
    let killed = killed_sessions user_id st.sessions in
    let changed = any picked st.users in
    if not changed then (false, st) else (
      true,
      record st {
        users = update_user picked (λ u. record (forgiven u) { status = status }) st.users;
        sessions = if revokes then revoke_sessions now user_id st.sessions else st.sessions;
        audit = (if revokes then map session_revoked killed else []) ++ event user_id ∷ st.audit;
        published = (if revokes then killed else []) ++ st.published;
        invalidated = if invalidates then user_id ∷ st.invalidated else st.invalidated;
      },
    )

abbrev pub any_status : UserStatus → Bool
any_status status = true

unfoldable pub lock : ℕ → Text → Text → Accounts → Bool × Accounts
unfolding transition
lock now client_id user_id =
    transition now client_id user_id locked any_status account_locked_event true true

unfoldable pub unlock : ℕ → Text → Text → Accounts → Bool × Accounts
unfolding transition
unlock now client_id user_id =
    transition now client_id user_id active (same_status locked) account_unlocked_event false false

unfoldable pub disable : ℕ → Text → Text → Accounts → Bool × Accounts
unfolding transition
disable now client_id user_id =
    transition now client_id user_id disabled any_status user_disabled_event true true
