-- ===== src/Authentication/Revoked.antt =====
-- What the revocation of a session does to the requests that follow, with what is written to the store
-- in between.
use plant_ops.Prelude.{
  ℕ, ◌+◌, ◌≤◌, ◌<◌, Text, codes, ◌==◌, eq_iff, ne_of_eq_false, Bool, true, false, none, some, ◌>>=◌,
  ◌≡◌, ◌≢◌, ◌⊎◌, refl, sym, inl, inr, arith, Bool-cases, if◌then◌else◌,
}
use mathlib.Core.Path.{subst}
use plant_ops.Authentication.{
  revoked_session_key, revoke, JwtClaims, allow, admitted, Arrival, Guard, authenticate,
}
use plant_ops.Authentication.Admitted.{
  Admits-IsLive, IsLive, by_cache, by_fallback, by_option, authenticate_iff,
}

module _ {Store : Type 0} (set_ex : ℕ → Text → Text → ℕ → Store → Store)
    (exists_at : ℕ → Store → Text → ℕ) where
  -- What is relied on of `SET … EX` and `EXISTS`.
  pub record KeepsKeys : Type 0 where
    pub present :
        (now later : ℕ) (key value : Text) (ttl : ℕ) (store : Store)
        → now ≤ later
        → later < now + ttl
        → 0 < exists_at later (set_ex now key value ttl store) key
    pub apart :
        (now later : ℕ) (key other value : Text) (ttl : ℕ) (store : Store)
        → other ≢ key
        → exists_at later (set_ex now other value ttl store) key ≡ exists_at later store key

module _ {Store : Type 0} (set_ex : ℕ → Text → Text → ℕ → Store → Store) (ttl : ℕ) where
  -- The stores that follow on one, each with the time of the last write: more sessions are revoked, and
  -- keys that name no session are set.
  pub data Follows (start : Store) (from : ℕ) : Store → ℕ → Type 0 where
    stays : Follows start from start from
    revokes :
        {store : Store} {last : ℕ} (now : ℕ) (session_id : Text)
        → last ≤ now
        → Follows start from store last
        → Follows start from (revoke set_ex ttl now session_id store) now
    sets :
        {store : Store} {last : ℕ} (now : ℕ) (key value : Text) (kept_for : ℕ)
        → last ≤ now
        → ((session_id : Text) → key ≢ revoked_session_key session_id)
        → Follows start from store last
        → Follows start from (set_ex now key value kept_for store) now

module _ {Store : Type 0} (set_ex : ℕ → Text → Text → ℕ → Store → Store)
    (exists_at : ℕ → Store → Text → ℕ) (keeps : KeepsKeys set_ex exists_at) (ttl : ℕ) where
  -- Setting any key for the same time keeps the entry.
  exists_at-set :
      (key other value : Text) (now later : ℕ) (store : Store)
      → now ≤ later
      → later < now + ttl
      → 0 < exists_at later store key
      → 0 < exists_at later (set_ex now other value ttl store) key
  exists_at-set key other value now later store p q e = elim (Bool-cases (other == key)) [
    | inl s ↦
        subst (λ k. 0 < exists_at later (set_ex now other value ttl store) k)
          ((eq_iff other key).0 s) (keeps.present now later other value ttl store p q)
    | inr n ↦
        subst (λ m. 0 < m)
          (sym (keeps.apart now later key other value ttl store (ne_of_eq_false other key n))) e
  ]

  Follows_le :
      (start : Store) (from : ℕ) (store : Store) (last : ℕ)
      → Follows set_ex ttl start from store last
      → from ≤ last
  Follows_le start from store last stays = omega arith
  Follows_le start from store last (revokes {store = before} {last = t} now other le f) =
      let h = Follows_le start from before t f in omega (arith, le, h)
  Follows_le start from store last
        (sets {store = before} {last = t} now key value kept_for le n f) =
      let h = Follows_le start from before t f in omega (arith, le, h)

  Follows-exists_at :
      (session_id : Text) (start : Store) (from later : ℕ) (store : Store) (last : ℕ)
      → 0 < exists_at later start (revoked_session_key session_id)
      → later < from + ttl
      → Follows set_ex ttl start from store last
      → last ≤ later
      → 0 < exists_at later store (revoked_session_key session_id)
  unfolding revoke
  Follows-exists_at session_id start from later store last e q stays p = e
  Follows-exists_at session_id start from later store last e q
        (revokes {store = before} {last = t} now other le f) p =
      let h = Follows_le start from before t f in
      exists_at-set (revoked_session_key session_id) (revoked_session_key other) (codes "1") now
        later before p (omega (arith, q, h, le))
        (Follows-exists_at session_id start from later before t e q f (omega (arith, le, p)))
  Follows-exists_at session_id start from later store last e q
        (sets {store = before} {last = t} now key value kept_for le n f) p =
      subst (λ m. 0 < m)
        (sym (
          keeps.apart now later (revoked_session_key session_id) key value kept_for before
            (n session_id)))
        (Follows-exists_at session_id start from later before t e q f (omega (arith, le, p)))

not_live :
    (guard : Guard) (claims : JwtClaims) (answered : Bool) (n : ℕ)
    → guard.exists (revoked_session_key claims.sid) ≡ (if answered then some n else none)
    → 0 < n
    → (answered ≡ true)
      ⊎ (((guard.fallback >>= (λ ask. ask claims)) ≢ some false)
          × (guard.on_unavailable ≢ some allow))
    → IsLive guard claims
    → ⊥
not_live guard claims true n e p o (by_cache f) = ground (arith, e, f, p)
not_live guard claims true n e p o (by_fallback f _) = ground (arith, e, f)
not_live guard claims true n e p o (by_option f _ _) = ground (arith, e, f)
not_live guard claims false n e p o (by_cache f) = ground (arith, e, f)
not_live guard claims false n e p (inl a) (by_fallback f g) = ground (arith, a)
not_live guard claims false n e p (inl a) (by_option f g h) = ground (arith, a)
not_live guard claims false n e p (inr (a, b)) (by_fallback f g) = a g
not_live guard claims false n e p (inr (a, b)) (by_option f g h) = b h

-- Over a store in which a key that is set for a time exists until its end, and in which setting
-- one key leaves the others as they are: from the moment a session is revoked and until its
-- entry ends, whatever sessions are revoked and whatever other keys are set in between, no
-- request is let through with the claims of that session where the cache answers, whatever the
-- fallback and the option are; nor where the cache fails, unless the fallback says that the
-- session is not revoked or the option is to allow.
pub revoke-authenticate :
    {Store : Type 0} (set_ex : ℕ → Text → Text → ℕ → Store → Store)
    (exists_at : ℕ → Store → Text → ℕ)
    → KeepsKeys set_ex exists_at
    → (guard : Guard) (arrival : Arrival) (claims : JwtClaims) (answered : Bool)
      (ttl now last later : ℕ) (store after : Store)
    → Follows set_ex ttl (revoke set_ex ttl now claims.sid store) now after last
    → last ≤ later
    → later < now + ttl
    → (answered ≡ true)
      ⊎ (((guard.fallback >>= (λ ask. ask claims)) ≢ some false)
          × (guard.on_unavailable ≢ some allow))
    → authenticate
        (record guard {
          exists = λ key. if answered then some (exists_at later after key) else none;
        })
        arrival
      ≢ admitted (some claims)
unfolding revoke
revoke-authenticate set_ex exists_at keeps guard arrival claims answered ttl now last later store
      after f p q o h =
    let l = Admits-IsLive _ arrival claims ((authenticate_iff _ arrival claims).0 h) in
    let r = Follows_le set_ex exists_at keeps ttl _ now after last f in
    let first =
      keeps.present now later (revoked_session_key claims.sid) (codes "1") ttl store
        (omega (arith, r, p)) q in
    not_live _ claims answered _ refl
      (Follows-exists_at set_ex exists_at keeps ttl claims.sid _ now later after last first q f p) o
      l
