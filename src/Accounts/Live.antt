-- ===== src/Accounts/Live.antt =====
-- Nobody but an active user has a live session, in every state that the operations reach.
use plant_ops.Prelude.{
  ℕ, ◌+◌, Text, ◌==◌, eq_iff, Bool, true, false, not, ◌&&◌, ◌≡◌, refl, sym, ap, ◌∙◌, arith, inl,
  inr, ◌∷◌, Option, none, some, Bool-cases, if◌then◌else◌, any, find, any-Memᴰ, leb, ltb,
}
use mathlib.Core.List.{Memᴰ}
use plant_ops.Accounts.{
  UserStatus, active, locked, disabled, LoginFailureReason, account_locked, Client, User,
  SessionRow, Accounts, same_status, update_user, revoke_sessions, failed_once, locked_out,
  forgiven, count_failure, count_for, counted_in, record_login_failure, record_failure,
  begin_session, is_eligible, transition, lock, unlock, disable, any_status, AccountEvent,
  account_locked_event, account_unlocked_event, user_disabled_event, active_user, is_bad_password,
}
use plant_ops.Accounts.Login.{
  Identity, login, decided, begin_for, begun, identity_in, secret_of, classify,
}
use plant_ops.Accounts.Rows.{
  HasUniqueIds, HasOnlyActive, update_user-source, update_user-HasUniqueIds,
  update_user-HasOnlyActive, update_user-revoke,
}

pub record IsSafe (st : Accounts) : Type 0 where
  pub unique : HasUniqueIds st.users
  pub only_active : HasOnlyActive st.users st.sessions

count_failure-IsSafe :
    (now max : ℕ) (u : User) (st : Accounts) → IsSafe st → IsSafe (count_failure now max u st).1
unfolding count_failure
count_failure-IsSafe now max u st h =
    let picked : User → Bool = λ v. v.id == u.id in
    let unique = update_user-HasUniqueIds picked (failed_once now) (λ v. refl) st.users h.unique in
    let counted =
      update_user-HasOnlyActive picked (failed_once now) (λ v. refl) st.users st.sessions (λ v a. a)
        h.only_active in
    elim (Bool-cases (leb max (u.failed_login_attempts + 1))) [
      | inl e ↦ rw e (record {
        unique = update_user-HasUniqueIds picked locked_out (λ v. refl) _ unique;
        only_active =
            update_user-revoke picked locked_out (λ v. refl) now u.id _ st.sessions
              (λ v p. (eq_iff v.id u.id).0 p) counted;
      })
      | inr e ↦ rw e (record { unique = unique; only_active = counted })
    ]

count_for-IsSafe :
    (now max : ℕ) (o : Option User) (st : Accounts) → IsSafe st → IsSafe (count_for now max o st).1
count_for-IsSafe now max none st h = h
count_for-IsSafe now max (some u) st h = count_failure-IsSafe now max u st h

counted_in-IsSafe :
    (now max : ℕ) (counts : Bool) (email : Text) (o : Option Client) (st : Accounts)
    → IsSafe st
    → IsSafe (counted_in now max counts email o st).1
counted_in-IsSafe now max counts email none st h = h
counted_in-IsSafe now max true email (some c) st h =
    count_for-IsSafe now max (find (active_user c.id email) st.users) st h
counted_in-IsSafe now max false email (some c) st h = h

record_failure-IsSafe :
    (normalize : Text → Text) (now max : ℕ) (client_slug email : Text) (reason : LoginFailureReason)
    (st : Accounts)
    → IsSafe st
    → IsSafe (record_failure normalize now max client_slug email reason st)
unfolding record_failure record_login_failure
record_failure-IsSafe normalize now max client_slug email reason st h =
    let g =
      counted_in-IsSafe now max (is_bad_password reason && ltb 0 max) (normalize email)
        (find (λ c. c.slug == client_slug) st.clients) st h in
    record { unique = g.unique; only_active = g.only_active }

active_of_same : (x : UserStatus) → same_status x active ≡ true → x ≡ active
active_of_same active h = refl
active_of_same locked h = absurd (cc)
active_of_same disabled h = absurd (cc)

-- The new session is that of an active user.
begun-HasOnlyActive :
    (new_id client_id user_id : Text) (st : Accounts)
    → is_eligible client_id user_id st ≡ true
    → IsSafe st
    → HasOnlyActive
        (update_user (λ v. v.id == user_id) forgiven st.users)
        ((record { id = new_id; user_id = user_id; revoked_at = none }) ∷ st.sessions)
begun-HasOnlyActive new_id client_id user_id st e h u s m (Memᴰ.tail n) k r =
    update_user-HasOnlyActive (λ v. v.id == user_id) forgiven (λ v. refl) st.users st.sessions
      (λ v a. a) h.only_active u s m n k r
begun-HasOnlyActive new_id client_id user_id st e h u s m (Memᴰ.head q) k r =
    let eligible : User → Bool =
      λ u. u.id == user_id && u.client_id == client_id && same_status u.status active in
    let (x, mx, ex) = any-Memᴰ eligible st.users (ground (arith, e)) in
    let (w, mw, ew) = update_user-source (λ v. v.id == user_id) forgiven (λ v. refl) st.users u m in
    let wid : (w.id ≡ u.id) × (w.status ≡ u.status) = kept w ew in
    let same : w ≡ x = h.unique w x mw mx (
      wid.0
      ∙ sym k
      ∙ ap SessionRow.user_id q
      ∙ sym ((eq_iff x.id user_id).0 (ground (arith, ex)))) in
    sym wid.1 ∙ ap User.status same ∙ active_of_same x.status (ground (arith, ex))
  where
    kept :
        (w : User)
        → u ≡ (if w.id == user_id then forgiven w else w)
        → (w.id ≡ u.id) × (w.status ≡ u.status)
    kept w q = elim (Bool-cases (w.id == user_id)) [
      | inl b ↦ let p : u ≡ forgiven w = rw b at q in (sym (ap User.id p), sym (ap User.status p))
      | inr b ↦ let p : u ≡ w = rw b at q in (sym (ap User.id p), sym (ap User.status p))
    ]

begin_session-IsSafe :
    (new_id client_id user_id : Text) (st : Accounts)
    → IsSafe st
    → IsSafe (begin_session new_id client_id user_id st).1
unfolding begin_session
begin_session-IsSafe new_id client_id user_id st h =
    elim (Bool-cases (is_eligible client_id user_id st)) [
      | inl e ↦ rw e (record {
        unique =
            update_user-HasUniqueIds (λ v. v.id == user_id) forgiven (λ v. refl) st.users h.unique;
        only_active = begun-HasOnlyActive new_id client_id user_id st e h;
      })
      | inr e ↦ rw e h
    ]

-- The users and the sessions of a transition that finds a user.
moved-IsSafe :
    (now : ℕ) (user_id : Text) (status : UserStatus) (picked : User → Bool) (revokes : Bool)
    (st : Accounts)
    → ((u : User) → picked u ≡ true → u.id ≡ user_id)
    → (revokes ≡ false → status ≡ active)
    → IsSafe st
    → HasOnlyActive
        (update_user picked (λ u. record (forgiven u) { status = status }) st.users)
        (if revokes then revoke_sessions now user_id st.sessions else st.sessions)
moved-IsSafe now user_id status picked true st only ok h =
    update_user-revoke picked (λ u. record (forgiven u) { status = status }) (λ v. refl) now user_id
      st.users st.sessions only h.only_active
moved-IsSafe now user_id status picked false st only ok h =
    update_user-HasOnlyActive picked (λ u. record (forgiven u) { status = status }) (λ v. refl)
      st.users st.sessions (λ v a. ok refl) h.only_active

transition-IsSafe :
    (now : ℕ) (client_id user_id : Text) (status : UserStatus) (allowed : UserStatus → Bool)
    (event : Text → AccountEvent) (revokes invalidates : Bool) (st : Accounts)
    → (revokes ≡ false → status ≡ active)
    → IsSafe st
    → IsSafe (transition now client_id user_id status allowed event revokes invalidates st).1
unfolding transition
transition-IsSafe now client_id user_id status allowed event revokes invalidates st ok h =
    let picked : User → Bool = λ u.
      u.id == user_id
      && u.client_id == client_id
      && not (same_status u.status status)
      && allowed u.status in
    elim (Bool-cases (any picked st.users)) [
      | inr e ↦ rw e h
      | inl e ↦ rw e (record {
        unique =
            update_user-HasUniqueIds picked (λ u. record (forgiven u) { status = status })
              (λ v. refl) st.users h.unique;
        only_active =
            moved-IsSafe now user_id status picked revokes st
              (λ u p. (eq_iff u.id user_id).0 (ground (arith, p))) ok h;
      })
    ]

login-IsSafe :
    (normalize : Text → Text) (verify : Option Text → Text → Bool) (now max : ℕ)
    (new_id client_slug email password : Text) (st : Accounts)
    → IsSafe st
    → IsSafe (login normalize verify now max new_id client_slug email password st).1
unfolding login
login-IsSafe normalize verify now max new_id client_slug email password st h =
    let identity =
      identity_in st.users (normalize email) (find (λ c. c.slug == client_slug) st.clients) in
    decide identity (classify identity (verify (secret_of identity) password))
  where
    began :
        (session : Option Text) (after : Accounts)
        → IsSafe after
        → IsSafe (begun normalize verify now max client_slug email session after).1
    began none after g =
        record_failure-IsSafe normalize now max client_slug email account_locked after g
    began (some session) after g = g

    begin_user :
        (i : Identity) (o : Option User)
        → IsSafe
            (begin_for normalize verify now max client_slug email new_id
              (some (record i { user = o }))
              st).1
    begin_user i none = h
    begin_user i (some u) =
        began (begin_session new_id i.client.id u.id st).0
          (begin_session new_id i.client.id u.id st).1
          (begin_session-IsSafe new_id i.client.id u.id st h)

    decide :
        (identity : Option Identity) (o : Option LoginFailureReason)
        → IsSafe (decided normalize verify now max client_slug email new_id identity o st).1
    decide identity (some reason) =
        record_failure-IsSafe normalize now max client_slug email reason st h
    decide none none = h
    decide (some i) none = begin_user i i.user

-- The states that logins and administrators reach from a safe one.
pub data Reached (normalize : Text → Text) (verify : Option Text → Text → Bool) (max : ℕ)
    (start : Accounts) : Accounts → Type 0 where
  starts : Reached normalize verify max start start
  logs_in :
      {st : Accounts} (now : ℕ) (new_id client_slug email password : Text)
      → Reached normalize verify max start st
      → Reached normalize verify max start
          (login normalize verify now max new_id client_slug email password st).1
  locks :
      {st : Accounts} (now : ℕ) (client_id user_id : Text)
      → Reached normalize verify max start st
      → Reached normalize verify max start (lock now client_id user_id st).1
  unlocks :
      {st : Accounts} (now : ℕ) (client_id user_id : Text)
      → Reached normalize verify max start st
      → Reached normalize verify max start (unlock now client_id user_id st).1
  disables :
      {st : Accounts} (now : ℕ) (client_id user_id : Text)
      → Reached normalize verify max start st
      → Reached normalize verify max start (disable now client_id user_id st).1

-- From accounts with unique user ids in which no session of a locked or disabled user is live, any
-- logins, failed ones included, and any locks, unlocks and disablings lead to such accounts only.
pub Reached-IsSafe :
    (normalize : Text → Text) (verify : Option Text → Text → Bool) (max : ℕ) (start st : Accounts)
    → IsSafe start
    → Reached normalize verify max start st
    → IsSafe st
unfolding lock unlock disable
Reached-IsSafe normalize verify max start st h starts = h
Reached-IsSafe normalize verify max start st h
      (logs_in {st = s} now new_id client_slug email password r) =
    login-IsSafe normalize verify now max new_id client_slug email password s
      (Reached-IsSafe normalize verify max start s h r)
Reached-IsSafe normalize verify max start st h (locks {st = s} now client_id user_id r) =
    transition-IsSafe now client_id user_id locked any_status account_locked_event true true s
      (λ e. cc) (Reached-IsSafe normalize verify max start s h r)
Reached-IsSafe normalize verify max start st h (unlocks {st = s} now client_id user_id r) =
    transition-IsSafe now client_id user_id active (same_status locked) account_unlocked_event false
      false s (λ e. refl) (Reached-IsSafe normalize verify max start s h r)
Reached-IsSafe normalize verify max start st h (disables {st = s} now client_id user_id r) =
    transition-IsSafe now client_id user_id disabled any_status user_disabled_event true true s
      (λ e. cc) (Reached-IsSafe normalize verify max start s h r)
