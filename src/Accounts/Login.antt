-- ===== src/Accounts/Login.antt =====
-- `login` of apps/iam-api/src/auth/auth.service.ts: the identity lookup, `classify`, and the session.
use plant_ops.Prelude.{
  ℕ, Text, ◌==◌, Bool, not, ◌&&◌, List, Option, none, some, if◌then◌else◌, find,
}
use plant_ops.Accounts.{
  active, locked, LoginFailureReason, unknown_client, unknown_user, bad_password, account_locked,
  account_disabled, client_suspended, Client, User, Accounts, same_status, record_failure,
  begin_session,
}

-- One row of `auth_lookup_password_identity`.
pub record Identity : Type 0 where
  pub client : Client
  pub user : Option User

abbrev pub identity_in : List User → Text → Option Client → Option Identity
identity_in users email none = none
identity_in users email (some c) =
    some (record { client = c; user = find (λ u. u.client_id == c.id && u.email == email) users })

abbrev pub secret_of : Option Identity → Option Text
secret_of none = none
secret_of (some i) = elim i.user [ none ↦ none | some u ↦ u.secret_hash ]

abbrev pub classify_user : Option User → Bool → Option LoginFailureReason
classify_user none matches = some unknown_user
classify_user (some u) matches =
    if not matches
    then some bad_password
    else if same_status u.status locked
    then some account_locked
    else if not (same_status u.status active)
    then some account_disabled
    else none

-- `classify`
unfoldable pub classify : Option Identity → Bool → Option LoginFailureReason
classify none matches = some unknown_client
classify (some i) matches =
    if not i.client.is_active then some client_suspended else classify_user i.user matches

pub data LoginResult : Type 0 where
  logged_in : Text → LoginResult
  invalid_credentials account_locked_error : LoginResult

abbrev pub failure_of : LoginFailureReason → LoginResult
failure_of account_locked = account_locked_error
failure_of _ = invalid_credentials

module _ (normalize : Text → Text) (verify : Option Text → Text → Bool) where
  abbrev pub begun : ℕ → ℕ → Text → Text → Option Text → Accounts → LoginResult × Accounts
  begun now max client_slug email none st =
      (invalid_credentials, record_failure normalize now max client_slug email account_locked st)
  begun now max client_slug email (some session_id) st = (logged_in session_id, st)

  abbrev pub begin_for :
      ℕ → ℕ → Text → Text → Text → Option Identity → Accounts → LoginResult × Accounts
  begin_for now max client_slug email new_id none st = (invalid_credentials, st)
  begin_for now max client_slug email new_id (some i) st = elim i.user [
    | none ↦ (invalid_credentials, st)
    | some u ↦
        let (session, after) = begin_session new_id i.client.id u.id st in
        begun now max client_slug email session after
  ]

  abbrev pub decided :
      ℕ
      → ℕ
      → Text
      → Text
      → Text
      → Option Identity
      → Option LoginFailureReason
      → Accounts
      → LoginResult × Accounts
  decided now max client_slug email new_id identity (some reason) st =
      (failure_of reason, record_failure normalize now max client_slug email reason st)
  decided now max client_slug email new_id identity none st =
      begin_for now max client_slug email new_id identity st

  -- `login`; the session is given the new id that the database generates.
  unfoldable pub login : ℕ → ℕ → Text → Text → Text → Text → Accounts → LoginResult × Accounts
  unfolding classify record_failure begin_session
  login now max new_id client_slug email password st =
      let identity =
        identity_in st.users (normalize email) (find (λ c. c.slug == client_slug) st.clients) in
      decided now max client_slug email new_id identity
        (classify identity (verify (secret_of identity) password)) st
