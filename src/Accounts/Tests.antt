-- ===== src/Accounts/Tests.antt =====
-- Witnesses and runs for the accounts.
use plant_ops.Accounts.Resets.Consistent.{IsConsistent, Reached-IsConsistent}
use plant_ops.Accounts.Resets.Renewal.{IsResetOf, complete-login}
use plant_ops.Accounts.Resets.Spent as Spent
use plant_ops.Accounts.Resets.Spent.{complete_once}
use plant_ops.Accounts.Resets.{
  ResetToken, Resets, complete, request, auth_complete_password_reset, complete_found, spend,
}
use plant_ops.Prelude.{
  ℕ, ◌≤◌, Text, codes, ◌==◌, Bool, true, false, [], ◌∷◌, Option, none, some, ◌≡◌, refl, sym, ◌∙◌,
  ◌≢◌, if◌then◌else◌, ap,
}
use mathlib.Core.List.{Memᴰ, ◌++◌}
use plant_ops.Accounts.{
  Client, locked, revoke_sessions, killed_sessions, active, User, Accounts, record_failure,
  begin_session, SessionRow,
}
use plant_ops.Accounts.Attempts.{IsFound, counted, logins, logins-locks}
use plant_ops.Accounts.Login.{login, classify, logged_in, invalid_credentials}
use plant_ops.Accounts.Live.{IsSafe}

abbrev alice : User
alice = record {
  id = codes "u1";
  client_id = codes "c1";
  email = codes "a@x";
  status = active;
  failed_login_attempts = 0;
  last_failed_login_at = none;
  secret_hash = some (codes "pw");
}

abbrev accounts : Accounts
accounts = record {
  clients = (record { id = codes "c1"; slug = codes "acme"; is_active = true }) ∷ [];
  users = alice ∷ [];
  sessions = [];
  audit = [];
  published = [];
  invalidated = [];
}

abbrev as_typed : Text → Text
as_typed email = email

abbrev same_text : Option Text → Text → Bool
same_text none password = false
same_text (some hash) password = hash == password

only_alice : (u : User) → Memᴰ u (alice ∷ []) → u ≡ alice
only_alice u (Memᴰ.head e) = e
only_alice u (Memᴰ.tail m) = elim m [ ]

accounts-IsSafe : IsSafe accounts
accounts-IsSafe = record {
  unique = λ u v m n e. only_alice u m ∙ sym (only_alice v n);
  only_active = λ u s m n e r. elim n [ ];
}

abbrev attempt : Text → Accounts → Accounts
attempt password st =
    (login as_typed same_text 5 2 (codes "s1") (codes "acme") (codes "a@x") password st).1

-- The second failure locks the account, and publishes the session of the login before.
locked_after_two :
    (attempt (codes "no") (attempt (codes "nope") (attempt (codes "pw") accounts))).published
    ≡ codes "s1" ∷ []
unfolding login record_failure begin_session classify ◌==◌
locked_after_two = refl

abbrev acme : Client
acme = record { id = codes "c1"; slug = codes "acme"; is_active = true }

abbrev signed_in : Accounts
signed_in = record accounts {
  sessions = (record { id = codes "s9"; user_id = codes "u1"; revoked_at = none }) ∷ [];
}

-- The passwords of the attempts: none is the right one.
abbrev guess : ℕ → Text
guess n = []

alice-IsFound :
    IsFound as_typed same_text 5 2
      (codes "s1")
      (codes "acme")
      (codes "a@x")
      guess
      acme
      signed_in
      alice
unfolding ◌==◌
alice-IsFound = record {
  client = refl;
  is_active = refl;
  user = refl;
  status = refl;
  unique = accounts-IsSafe.unique;
}

wrong_guess : (k : ℕ) → same_text (some (codes "pw")) (guess k) ≡ false
unfolding ◌==◌
wrong_guess k = refl

abbrev attempts : ℕ → Accounts
attempts n =
    logins as_typed same_text 5 2 (codes "s1") (codes "acme") (codes "a@x") guess n signed_in

logins-locks_example :
    ((k : ℕ)
      → k ≤ 1
      → (login as_typed same_text 5 2
          (codes "s1")
          (codes "acme")
          (codes "a@x")
          (guess k)
          (attempts k)).0
        ≡ invalid_credentials)
    × (IsFound as_typed same_text 5 2
          (codes "s1")
          (codes "acme")
          (codes "a@x")
          guess
          acme
          (attempts 1)
          (counted as_typed same_text 5 2
            (codes "s1")
            (codes "acme")
            (codes "a@x")
            guess
            acme
            1
            alice)
        × ((attempts 1).sessions ≡ signed_in.sessions)
        × ((v : User) → Memᴰ v (attempts 2).users → v.id ≡ codes "u1" → v.status ≡ locked)
        × ((attempts 2).sessions ≡ revoke_sessions 5 (codes "u1") signed_in.sessions)
        × ((attempts 2).published ≡ killed_sessions (codes "u1") signed_in.sessions ++ []))
logins-locks_example =
    logins-locks as_typed same_text 5 2 (codes "s1") (codes "acme") (codes "a@x") guess acme 1
      signed_in alice alice-IsFound wrong_guess refl

abbrev reset_token : ResetToken
reset_token = record {
  token_hash = codes "t";
  client_id = codes "c1";
  user_id = codes "u1";
  expires_at = 9;
  used_at = none;
}

abbrev with_token : Resets
with_token = record { accounts = signed_in; tokens = reset_token ∷ [] }

abbrev after_reset : Resets
after_reset = (complete as_typed as_typed as_typed 5 (codes "t") (codes "new") with_token).1

reset_token-completes :
    (complete as_typed as_typed as_typed 5 (codes "t") (codes "new") with_token).0 ≡ true
unfolding complete auth_complete_password_reset complete_found spend ◌==◌
reset_token-completes = refl

reset_token-IsResetOf :
    IsResetOf as_typed (codes "acme") (codes "a@x") (codes "t") acme alice reset_token with_token
unfolding ◌==◌
reset_token-IsResetOf = record {
  unique = accounts-IsSafe.unique;
  client = refl;
  user = refl;
  token = refl;
  of_user = refl;
  of_client = refl;
}

complete-login_example :
    ((s : SessionRow)
      → Memᴰ s after_reset.accounts.sessions
      → s.user_id ≡ codes "u1"
      → s.revoked_at ≢ none)
    × ((login as_typed same_text 6 2
          (codes "s2")
          (codes "acme")
          (codes "a@x")
          (codes "pw")
          after_reset.accounts).0
        ≡ (if same_text (some (codes "new")) (codes "pw")
            then logged_in (codes "s2")
            else invalid_credentials))
complete-login_example =
    complete-login as_typed as_typed as_typed 5 (codes "t") (codes "new") (codes "acme")
      (codes "a@x") acme alice reset_token with_token reset_token-IsResetOf same_text 6 2
      (codes "s2") (codes "pw") reset_token-completes

complete_once_example :
    complete as_typed as_typed as_typed 7
      (codes "t")
      (codes "again")
      (request as_typed as_typed as_typed 4 6
        (codes "t2")
        (codes "acme")
        (codes "a@x")
        after_reset).2
    ≡ (
      false,
      (request as_typed as_typed as_typed 4 6
          (codes "t2")
          (codes "acme")
          (codes "a@x")
          after_reset).2,
    )
complete_once_example =
    complete_once as_typed as_typed as_typed same_text 2 5 7 (codes "t") (codes "new")
      (codes "again") with_token
      (request as_typed as_typed as_typed 4 6 (codes "t2") (codes "acme") (codes "a@x")
        after_reset).2
      reset_token-completes
      (Spent.Reached.requests 4 6 (codes "t2") (codes "acme") (codes "a@x") Spent.Reached.starts)

only_token : (t : ResetToken) → Memᴰ t (reset_token ∷ []) → t ≡ reset_token
only_token t (Memᴰ.head e) = e
only_token t (Memᴰ.tail m) = elim m [ ]

with_token-IsConsistent : IsConsistent with_token
with_token-IsConsistent = record {
  accounts = record {
    unique = accounts-IsSafe.unique;
    only_active = λ u s m n e r. ap User.status (only_alice u m);
  };
  tokens = record {
    by_hash = λ t u m n e. only_token t m ∙ sym (only_token u n);
    by_user = λ t u m n e a b. only_token t m ∙ sym (only_token u n);
  };
}

Reached-IsConsistent_example : IsConsistent after_reset
Reached-IsConsistent_example =
    Reached-IsConsistent as_typed as_typed as_typed same_text 2 with_token after_reset
      with_token-IsConsistent
      (Spent.Reached.completes 5 (codes "t") (codes "new") Spent.Reached.starts)
