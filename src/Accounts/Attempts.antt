-- ===== src/Accounts/Attempts.antt =====
-- The count of failed logins, and the lock-out.
use plant_ops.Prelude.{
  ℕ, zero, suc, ◌+◌, ◌≤◌, ◌<◌, Text, ◌==◌, eq_iff, Bool, true, false, not, ◌&&◌, List, [], Option,
  ◌≡◌, refl, sym, ap, ◌∙◌, arith, inl, inr, ◌∷◌, ◌++◌, some, Bool-cases, if◌then◌else◌, find, leb,
  ltb, find-Memᴰ,
}
use mathlib.Core.List.{Memᴰ}
use mathlib.Core.Path.{subst}
use plant_ops.Accounts.{
  active, same_status, client_suspended, locked, bad_password, Client, User, Accounts, AccountEvent,
  update_user, revoke_sessions, killed_sessions, failed_once, locked_out, count_failure,
  record_login_failure, record_failure, active_user,
}
use plant_ops.Accounts.Login.{
  Identity, identity_in, classify_user, secret_of, decided, login, classify, invalid_credentials,
}
use mathlib.Core.Option.{some-injective}
use plant_ops.Accounts.Rows.{
  HasUniqueIds, update_user-source, update_user-HasUniqueIds, find-update,
}

ltb_of_lt : (a b : ℕ) → a < b → ltb a b ≡ true
ltb_of_lt a b h = ground arith

leb_of_lt : (a b : ℕ) → b < a → leb a b ≡ false
leb_of_lt a b h = ground arith

leb_of_le : (a b : ℕ) → a ≤ b → leb a b ≡ true
leb_of_le a b h = ground arith

-- The first rows that two tests find are the same where the second test implies the first.
find-narrow :
    {A : Type 0} (p q : A → Bool) (xs : List A) (u : A)
    → ((x : A) → p x ≡ false → q x ≡ false)
    → q u ≡ true
    → find p xs ≡ some u
    → find q xs ≡ some u
find-narrow p q [] u h y f = absurd (ground (arith, f))
find-narrow p q (x ∷ xs) u h y f = elim (Bool-cases (p x)) [
  | inl e ↦
      let k : some x ≡ some u = rw e at f in
      let same : x ≡ u = some-injective _ _ k in let z : q x ≡ true = ap q same ∙ y in rw z k
  | inr e ↦ rw (h x e) (find-narrow p q xs u h y (rw e at f))
]

module _ (normalize : Text → Text) (verify : Option Text → Text → Bool) (now max : ℕ)
    (new_id slug email : Text) (guess : ℕ → Text) where
  -- What logins in a row leave, the first with the password `guess 0`.
  unfoldable pub logins : ℕ → Accounts → Accounts
  logins zero st = st
  logins (suc n) st = (login normalize verify now max new_id slug email (guess n) (logins n st)).1

module _ (normalize : Text → Text) (verify : Option Text → Text → Bool) (now max : ℕ)
    (new_id slug email : Text) (guess : ℕ → Text) (c : Client) where
  -- The address is that of an active user of an active tenant.
  pub record IsFound (st : Accounts) (u : User) : Type 0 where
    pub client : find (λ c. c.slug == slug) st.clients ≡ some c
    pub is_active : c.is_active ≡ true
    pub user : find (λ u. u.client_id == c.id && u.email == normalize email) st.users ≡ some u
    pub status : u.status ≡ active
    pub unique : HasUniqueIds st.users

  failure : Accounts → Accounts
  failure st = record_failure normalize now max slug email bad_password st

  -- A login with a wrong password is refused, and counted.
  login-wrong :
      (st : Accounts) (u : User) (password : Text)
      → IsFound st u
      → verify u.secret_hash password ≡ false
      → login normalize verify now max new_id slug email password st
        ≡ (invalid_credentials, failure st)
  unfolding login classify failure
  login-wrong st u password h wrong =
      let found : Identity = record { client = c; user = some u } in
      let looked_up : identity_in st.users (normalize email) (find (λ c. c.slug == slug) st.clients)
          ≡ some found =
        ap (identity_in st.users (normalize email)) h.client
        ∙ ap (λ o. some (record { client = c; user = o })) h.user in
      let reason : classify (some found) false ≡ some bad_password =
        ap (λ (b : Bool). if not b then some client_suspended else classify_user (some u) false)
          h.is_active in
      ap
        (λ i.
          decided normalize verify now max slug email new_id i
            (classify i (verify (secret_of i) password)) st)
        looked_up
      ∙ ap
          (λ b.
            decided normalize verify now max slug email new_id (some found)
              (classify (some found) b) st)
          wrong
      ∙ ap (λ o. decided normalize verify now max slug email new_id (some found) o st) reason

  active-user :
      (st : Accounts) (u : User)
      → IsFound st u
      → find (active_user c.id (normalize email)) st.users ≡ some u
  active-user st u h =
      let (k, _) =
        find-Memᴰ (λ u. u.client_id == c.id && u.email == normalize email) st.users u h.user in
      find-narrow (λ u. u.client_id == c.id && u.email == normalize email)
        (active_user c.id (normalize email)) st.users u (λ x e. ground (arith, e))
        (let s : same_status u.status active ≡ true = ap (λ x. same_status x active) h.status in
          ground (arith, k, s))
        h.user

  -- A counted failure of the user, as the code composes it.
  failure-count :
      (st : Accounts) (u : User)
      → IsFound st u
      → ltb 0 max ≡ true
      → failure st ≡ (
          let (revoked, after) = count_failure now max u st in
          record after {
            audit = AccountEvent.login_failed bad_password ∷ after.audit;
            published = revoked ++ after.published;
          })
  unfolding record_failure record_login_failure failure
  failure-count st u h pos = rw (pos, h.client, active-user st u h) refl

  abbrev below : User → Accounts → Accounts
  below u st = record st {
    users = update_user (λ v. v.id == u.id) (failed_once now) st.users;
    audit = AccountEvent.login_failed bad_password ∷ st.audit;
  }

  failure-below :
      (st : Accounts) (u : User)
      → IsFound st u
      → u.failed_login_attempts + 1 < max
      → failure st ≡ below u st
  unfolding count_failure
  failure-below st u h lt =
      let pos : ltb 0 max ≡ true = ltb_of_lt 0 max (omega (arith, lt)) in
      let no : leb max (u.failed_login_attempts + 1) ≡ false =
        leb_of_lt max (u.failed_login_attempts + 1) lt in
      failure-count st u h pos ∙ rw no refl

  below-IsFound :
      (st : Accounts) (u : User) → IsFound st u → IsFound (below u st) (failed_once now u)
  below-IsFound st u h =
      let (t, m) =
        find-Memᴰ (λ u. u.client_id == c.id && u.email == normalize email) st.users u h.user in
      record {
        client = h.client;
        is_active = h.is_active;
        user =
            find-update (λ u. u.client_id == c.id && u.email == normalize email) (failed_once now) u
              st.users (λ v n e. h.unique v u n m e) t h.user;
        status = h.status;
        unique =
            update_user-HasUniqueIds (λ v. v.id == u.id) (failed_once now) (λ v. refl) st.users
              h.unique;
      }

  abbrev made : ℕ → Accounts → Accounts
  made = logins normalize verify now max new_id slug email guess

  -- The user after a number of counted failures.
  unfoldable pub counted : ℕ → User → User
  counted zero u = u
  counted (suc n) u = failed_once now (counted n u)

  counted-fields :
      (n : ℕ) (u : User)
      → ((counted n u).id ≡ u.id)
        × ((counted n u).secret_hash ≡ u.secret_hash)
        × ((counted n u).failed_login_attempts ≡ u.failed_login_attempts + n)
  unfolding counted
  counted-fields zero u = (refl, refl, omega arith)
  counted-fields (suc n) u = let (i, k, a) = counted-fields n u in (i, k, omega (arith, a))

  AreWrong : User → Type 0
  AreWrong u = (k : ℕ) → verify u.secret_hash (guess k) ≡ false

  -- One more login, of a user whose failures are counted.
  logins-suc :
      (n : ℕ) (st : Accounts) (u : User)
      → AreWrong u
      → IsFound (made n st) (counted n u)
      → login normalize verify now max new_id slug email (guess n) (made n st)
        ≡ (invalid_credentials, failure (made n st))
  unfolding AreWrong
  logins-suc n st u wrong g =
      let (_, k, _) = counted-fields n u in
      login-wrong (made n st) (counted n u) (guess n) g (ap (λ s. verify s (guess n)) k ∙ wrong n)

  logins-below :
      (n : ℕ) (st : Accounts) (u : User)
      → IsFound st u
      → AreWrong u
      → u.failed_login_attempts + n < max
      → IsFound (made n st) (counted n u)
        × ((made n st).sessions ≡ st.sessions)
        × ((made n st).published ≡ st.published)
  unfolding logins counted
  logins-below zero st u h wrong lt = (h, refl, refl)
  logins-below (suc n) st u h wrong lt =
      let (g, s, p) = logins-below n st u h wrong (omega (arith, lt)) in
      let (i, _, a) = counted-fields n u in
      let one : made (suc n) st ≡ below (counted n u) (made n st) =
        ap (λ r. r.1) (logins-suc n st u wrong g)
        ∙ failure-below (made n st) (counted n u) g (omega (arith, lt, a)) in
      (
        subst (λ x. IsFound x (failed_once now (counted n u))) (sym one)
            (below-IsFound (made n st) (counted n u) g),
        ap Accounts.sessions one ∙ s,
        ap Accounts.published one ∙ p,
      )

  -- The user whose row is at the threshold, after one more failure.
  failure-locks :
      (st : Accounts) (u : User)
      → IsFound st u
      → ltb 0 max ≡ true
      → max ≤ u.failed_login_attempts + 1
      → ((v : User) → Memᴰ v (failure st).users → v.id ≡ u.id → v.status ≡ locked)
        × ((failure st).sessions ≡ revoke_sessions now u.id st.sessions)
        × ((failure st).published ≡ killed_sessions u.id st.sessions ++ st.published)
  unfolding count_failure
  failure-locks st u h pos le =
      let yes : leb max (u.failed_login_attempts + 1) ≡ true =
        leb_of_le max (u.failed_login_attempts + 1) le in
      let counted_users = update_user (λ v. v.id == u.id) (failed_once now) st.users in
      let after : Accounts = record st {
        users = update_user (λ v. v.id == u.id) locked_out counted_users;
        sessions = revoke_sessions now u.id st.sessions;
        audit =
            AccountEvent.login_failed bad_password
            ∷ AccountEvent.account_locked_event u.id
            ∷ st.audit;
        published = killed_sessions u.id st.sessions ++ st.published;
      } in
      let one : failure st ≡ after = failure-count st u h pos ∙ rw yes refl in
      (
        λ v m e.
            let (w, n, q) =
              update_user-source (λ v. v.id == u.id) locked_out (λ v. refl) counted_users v
                (subst (λ x. Memᴰ v x) (ap Accounts.users one) m) in
            status_of v w e q,
        ap Accounts.sessions one,
        ap Accounts.published one,
      )
    where
      status_of :
          (v w : User)
          → v.id ≡ u.id
          → v ≡ (if w.id == u.id then locked_out w else w)
          → v.status ≡ locked
      status_of v w e q = elim (Bool-cases (w.id == u.id)) [
        | inl b ↦ let p : v ≡ locked_out w = rw b at q in ap User.status p
        | inr b ↦
            let p : v ≡ w = rw b at q in
            absurd (ground (arith, b, (eq_iff w.id u.id).1 (sym (ap User.id p) ∙ e)))
      ]

  -- An active user of an active tenant with unique user ids who is `n + 1` failures from the
  -- threshold, and logins in a row with passwords that do not match: each of the first `n + 1` answers
  -- that the credentials are invalid; after `n` of them the address still finds the active user, with
  -- the failures counted and no session touched; the next one locks every row of the user, revokes the
  -- user's live sessions and publishes them.
  pub logins-locks :
      (n : ℕ) (st : Accounts) (u : User)
      → IsFound st u
      → ((k : ℕ) → verify u.secret_hash (guess k) ≡ false)
      → u.failed_login_attempts + suc n ≡ max
      → ((k : ℕ)
          → k ≤ n
          → (login normalize verify now max new_id slug email
              (guess k)
              (logins normalize verify now max new_id slug email guess k st)).0
            ≡ invalid_credentials)
        × (let before = logins normalize verify now max new_id slug email guess n st in
            let after = logins normalize verify now max new_id slug email guess (suc n) st in
            IsFound before (counted n u)
            × (before.sessions ≡ st.sessions)
            × ((v : User) → Memᴰ v after.users → v.id ≡ u.id → v.status ≡ locked)
            × (after.sessions ≡ revoke_sessions now u.id st.sessions)
            × (after.published ≡ killed_sessions u.id st.sessions ++ st.published))
  unfolding logins AreWrong
  logins-locks n st u h wrong e =
      let (g, s, p) = logins-below n st u h wrong (omega (arith, e)) in
      let (i, _, a) = counted-fields n u in
      let one : made (suc n) st ≡ failure (made n st) = ap (λ r. r.1) (logins-suc n st u wrong g) in
      let (l, r, k) =
        failure-locks (made n st) (counted n u) g (ltb_of_lt 0 max (omega (arith, e)))
          (omega (arith, e, a)) in
      (
        (λ j le.
            let (gj, _, _) = logins-below j st u h wrong (omega (arith, e, le)) in
            ap (λ r. r.0) (logins-suc j st u wrong gj)),
        (
          g,
          s,
          (λ v m q. l v (subst (λ x. Memᴰ v x) (ap Accounts.users one) m) (q ∙ sym i)),
          ap Accounts.sessions one
              ∙ r
              ∙ ap (λ x. revoke_sessions now x (made n st).sessions) i
              ∙ ap (revoke_sessions now u.id) s,
          ap Accounts.published one
              ∙ k
              ∙ ap (λ x. killed_sessions x (made n st).sessions ++ (made n st).published) i
              ∙ ap (λ x. killed_sessions u.id x ++ (made n st).published) s
              ∙ ap (λ x. killed_sessions u.id st.sessions ++ x) p,
        ),
      )
