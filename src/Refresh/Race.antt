-- ===== src/Refresh/Race.antt =====
-- Clients that present one token at the same time: elections and rotations in any order.
use plant_ops.Prelude.{
  ℕ, ◌+◌, ◌≤◌, ◌<◌, Text, ◌==◌, eq_refl, eq_iff, Bool, true, false, ◌≡◌, ◌⊎◌, inl, inr, refl, sym,
  ap, ◌∙◌, arith, List, [], ◌∷◌, Option, none, some, ltb, or_default, All, if◌then◌else◌,
}
use mathlib.Core.List.{Memᴰ}
use mathlib.Core.Option.{some-injective}
use mathlib.Core.Path.{subst}
use plant_ops.Refresh.Rotation.{
  Session, RefreshOutcome, replay, stale, Rotation, rotate_row, hash_is, is_set, in_grace,
}
use plant_ops.Refresh.Service.{
  ReplayStore, replay_key, replay_slack_seconds, elect, elect_in_cache, elected,
}
use plant_ops.Refresh.Safety.{is_grant, Branch, rotate_row-Branch}

-- A store that answers, and in which a value stays as it is once it is set (`SET … NX`), during
-- the life of its entry.
pub record IsWriteOnce {State : Type 0} (store : ReplayStore State) : Type 0 where
  pub written :
      (k v : Text) (ttl : ℕ) (c : State)
      → (store.set_nx k v ttl c).0 ≡ some true
      → store.get k (store.set_nx k v ttl c).1 ≡ some (some v)
  pub refused :
      (k v : Text) (ttl : ℕ) (c : State)
      → (store.set_nx k v ttl c).0 ≡ some false
      → (x : Text) × (store.get k c ≡ some (some x))
        × (store.get k (store.set_nx k v ttl c).1 ≡ some (some x))
  pub kept :
      (k v x : Text) (ttl : ℕ) (c : State)
      → store.get k c ≡ some (some x)
      → (store.set_nx k v ttl c).0 ≡ some false
  pub answers :
      (k v : Text) (ttl : ℕ) (c : State)
      → ((store.set_nx k v ttl c).0 ≡ some true) ⊎ ((store.set_nx k v ttl c).0 ≡ some false)

module _ {State : Type 0} (store : ReplayStore State) (laws : IsWriteOnce store)
    (hash : Text → Text) (grace : ℕ) (presented : Text) where
  -- The value that the cache holds for the presented token.
  abbrev pub Holds : State → Text → Type 0
  Holds c e = store.get (replay_key (hash presented)) c ≡ some (some e)

  module _ (candidate : Text) (c : State) where
    abbrev stored : Option Bool × State
    stored = store.set_nx (replay_key (hash presented)) candidate (grace + replay_slack_seconds) c

    elected-true :
        stored.0 ≡ some true → (elect store hash grace presented candidate c).0 ≡ candidate
    unfolding elect elect_in_cache
    elected-true h =
        ap
          (λ o.
            or_default
              (elected store o (store.get (replay_key (hash presented)) stored.1) candidate)
              candidate)
          h

    elected-false :
        (e : Text)
        → stored.0 ≡ some false
        → Holds stored.1 e
        → (elect store hash grace presented candidate c).0 ≡ e
    unfolding elect elect_in_cache
    elected-false e h k =
        ap
          (λ o.
            or_default
              (elected store o (store.get (replay_key (hash presented)) stored.1) candidate)
              candidate)
          h
        ∙ ap (λ r. or_default (elected store (some false) r candidate) candidate) k

    elect-state : (elect store hash grace presented candidate c).1 ≡ stored.1
    unfolding elect elect_in_cache
    elect-state = refl

    -- What a request elects is what the cache then holds.
    elect-Holds :
        Holds
          (elect store hash grace presented candidate c).1
          (elect store hash grace presented candidate c).0
    elect-Holds = elim (laws.answers key candidate ttl c) [
      | inl h ↦
          ap (store.get key) elect-state
          ∙ laws.written key candidate ttl c h
          ∙ ap (λ e. some (some e)) (sym (elected-true h))
      | inr h ↦
          let (x, before, after) = laws.refused key candidate ttl c h in
          ap (store.get key) elect-state
          ∙ after
          ∙ ap (λ e. some (some e)) (sym (elected-false x h after))
    ]
      where
        key : Text
        key = replay_key (hash presented)

        ttl : ℕ
        ttl = grace + replay_slack_seconds

    -- Where a value is held already, it is what is elected, and it stays.
    elect-kept : (e : Text) → Holds c e → (elect store hash grace presented candidate c).0 ≡ e
    elect-kept e h =
        let key = replay_key (hash presented) in
        let ttl = grace + replay_slack_seconds in
        let no = laws.kept key candidate e ttl c h in
        let (x, before, after) = laws.refused key candidate ttl c no in
        let same : x ≡ e = some-injective _ _ (some-injective _ _ (sym before ∙ h)) in
        elected-false x no after ∙ same

  hash_is-some : (o : Option Text) (h : Text) → hash_is o h ≡ true → o ≡ some h
  hash_is-some none h e = absurd (cc)
  hash_is-some (some x) h e = ap some ((eq_iff x h).0 e)

  ltb_of_lt : (a b : ℕ) → a < b → ltb a b ≡ true
  ltb_of_lt a b h = ground arith

  -- The row, the cache, the successors elected so far and the outcomes so far.
  pub data Race (t₀ : ℕ) (s₀ : Session) (c₀ : State)
      : Session → State → List Text → List RefreshOutcome → Type 0 where
    start : Race t₀ s₀ c₀ s₀ c₀ [] []
    elects :
        {s : Session} {c : State} {ps : List Text} {os : List RefreshOutcome} (candidate : Text)
        → Race t₀ s₀ c₀ s c ps os
        → Race t₀ s₀ c₀ s
            (elect store hash grace presented candidate c).1
            ((elect store hash grace presented candidate c).0 ∷ ps)
            os
    rotates :
        {s : Session} {c : State} {ps : List Text} {os : List RefreshOutcome} (now : ℕ) (p : Text)
        → t₀ ≤ now
        → now < t₀ + grace
        → Memᴰ p ps
        → Race t₀ s₀ c₀ s c ps os
        → Race t₀ s₀ c₀
            (rotate_row now grace (hash presented) (hash p) s).session
            c
            ps
            ((rotate_row now grace (hash presented) (hash p) s).outcome ∷ os)

  -- The successors agree with what the cache holds.
  abbrev Agreed : State → List Text → Type 0
  Agreed c [] = Unit
  Agreed c (p ∷ ps) = Holds c p × All (λ q. q ≡ p) ps

  -- The row is as it was, or was rotated to the agreed successor since.
  data Row (t₀ : ℕ) (s₀ : Session) (ps : List Text) (s : Session) : Type 0 where
    before : s ≡ s₀ → Row t₀ s₀ ps s
    since :
        (e : Text) (t : ℕ)
        → Memᴰ e ps
        → t₀ ≤ t
        → s.rotated_at ≡ some t
        → s.refresh_token_hash ≡ some (hash e)
        → s.previous_refresh_token_hash ≡ some (hash presented)
        → s.revoked_at ≡ none
        → s.expires_at ≡ s₀.expires_at
        → Row t₀ s₀ ps s

  All-Memᴰ : (e p : Text) (ps : List Text) → All (λ q. q ≡ e) ps → Memᴰ p ps → p ≡ e
  All-Memᴰ e p [] h m = elim m [ ]
  All-Memᴰ e p (q ∷ qs) (h, hs) (Memᴰ.head m) = m ∙ h
  All-Memᴰ e p (q ∷ qs) (h, hs) (Memᴰ.tail m) = All-Memᴰ e p qs hs m

  Agreed-eq :
      (c : State) (p q : Text) (ps : List Text) → Agreed c ps → Memᴰ p ps → Memᴰ q ps → p ≡ q
  Agreed-eq c p q [] h m n = elim m [ ]
  Agreed-eq c p q (r ∷ rs) (h, hs) m n =
      All-Memᴰ r p (r ∷ rs) (refl, hs) m ∙ sym (All-Memᴰ r q (r ∷ rs) (refl, hs) n)

  elect-Agreed :
      (candidate : Text) (c : State) (ps : List Text)
      → Agreed c ps
      → Agreed
          (elect store hash grace presented candidate c).1
          ((elect store hash grace presented candidate c).0 ∷ ps)
  elect-Agreed candidate c [] a = (elect-Holds candidate c, tt)
  elect-Agreed candidate c (q ∷ qs) (h, hs) =
      let same = elect-kept candidate c q h in
      (elect-Holds candidate c, (sym same, subst (λ e. All (λ q. q ≡ e) qs) (sym same) hs))

  module _ (t₀ : ℕ) (s₀ : Session) (current : hash_is s₀.refresh_token_hash (hash presented) ≡ true)
      (unrevoked : s₀.revoked_at ≡ none) (unexpired : t₀ + grace ≤ s₀.expires_at) where
    rotates_before :
        (now : ℕ) (p : Text) (ps : List Text) (r : Rotation)
        → now < t₀ + grace
        → t₀ ≤ now
        → Memᴰ p ps
        → Branch now grace (hash presented) (hash p) s₀ r
        → (is_grant r.outcome ≡ true) × Row t₀ s₀ ps r.session
    rotates_before now p ps r lt le m (Branch.dead d) =
        let n = ap is_set unrevoked in absurd (ground arith)
    rotates_before now p ps r lt le m (Branch.current d c) = (
      refl,
      since p now m le refl refl (hash_is-some s₀.refresh_token_hash (hash presented) c) unrevoked
          refl,
    )
    rotates_before now p ps r lt le m (Branch.race d c q w) = absurd (ground arith)
    rotates_before now p ps r lt le m (Branch.compromise d c q) = absurd (ground arith)

    rotates_since :
        (now : ℕ) (p e : Text) (t : ℕ) (ps : List Text) (s : Session) (r : Rotation)
        → now < t₀ + grace
        → t₀ ≤ now
        → Memᴰ p ps
        → p ≡ e
        → Memᴰ e ps
        → t₀ ≤ t
        → s.rotated_at ≡ some t
        → s.refresh_token_hash ≡ some (hash e)
        → s.previous_refresh_token_hash ≡ some (hash presented)
        → s.revoked_at ≡ none
        → s.expires_at ≡ s₀.expires_at
        → Branch now grace (hash presented) (hash p) s r
        → (is_grant r.outcome ≡ true) × Row t₀ s₀ ps r.session
    rotates_since now p e t ps s r lt le m same me lt' at cur prev rev ex (Branch.dead d) =
        let n = ap is_set rev in absurd (ground arith)
    rotates_since now p e t ps s r lt le m same me lt' at cur prev rev ex (Branch.current d c) = (
      refl,
      since p now m le refl refl (hash_is-some s.refresh_token_hash (hash presented) c) rev ex,
    )
    rotates_since now p e t ps s r lt le m same me lt' at cur prev rev ex (Branch.race d c q w) =
        let confirmed : hash_is s.refresh_token_hash (hash p) ≡ true =
          ap (λ o. hash_is o (hash p)) cur
          ∙ ap (λ x. hash x == hash p) (sym same)
          ∙ eq_refl (hash p) in
        (
          ap (λ b. is_grant (if b then replay else stale)) confirmed,
          since e t me lt' at cur prev rev ex,
        )
    rotates_since now p e t ps s r lt le m same me lt' at cur prev rev ex
          (Branch.compromise d c q) =
        let match : hash_is s.previous_refresh_token_hash (hash presented) ≡ true =
          ap (λ o. hash_is o (hash presented)) prev ∙ eq_refl (hash presented) in
        let window : in_grace s.rotated_at now grace ≡ true =
          ap (λ o. in_grace o now grace) at ∙ ltb_of_lt now (t + grace) (omega (arith, lt, lt')) in
        absurd (ground arith)

    Race-keeps :
        (c₀ : State) (s : Session) (c : State) (ps : List Text) (os : List RefreshOutcome)
        → Race t₀ s₀ c₀ s c ps os
        → Agreed c ps × Row t₀ s₀ ps s × All (λ o. is_grant o ≡ true) os
    Race-keeps c₀ s c ps os start = (tt, before refl, tt)
    Race-keeps c₀ s c ps os (elects {s = s'} {c = c'} {ps = ps'} candidate race) =
        let (a, row, o) = Race-keeps c₀ s' c' ps' os race in
        (elect-Agreed candidate c' ps' a, wider row, o)
      where
        wider : {s : Session} {p : Text} {ps : List Text} → Row t₀ s₀ ps s → Row t₀ s₀ (p ∷ ps) s
        wider (before e) = before e
        wider (since e t m lt at cur prev rev ex) = since e t (Memᴰ.tail m) lt at cur prev rev ex
    Race-keeps c₀ s c ps os (rotates {s = s'} {os = os'} now p le lt m race) =
        let (a, row, o) = Race-keeps c₀ s' c ps os' race in
        let (g, row') = step s' row a in (a, row', (g, o))
      where
        step :
            (s : Session)
            → Row t₀ s₀ ps s
            → Agreed c ps
            → (is_grant (rotate_row now grace (hash presented) (hash p) s).outcome ≡ true)
              × Row t₀ s₀ ps (rotate_row now grace (hash presented) (hash p) s).session
        step s (before e) a =
            subst
              (λ s.
                (is_grant (rotate_row now grace (hash presented) (hash p) s).outcome ≡ true)
                × Row t₀ s₀ ps (rotate_row now grace (hash presented) (hash p) s).session)
              (sym e)
              (rotates_before now p ps _ lt le m
                (rotate_row-Branch now grace (hash presented) (hash p) s₀))
        step s (since e t me lt' at cur prev rev ex) a =
            rotates_since now p e t ps s _ lt le m (Agreed-eq c p e ps a m me) me lt' at cur prev
              rev ex (rotate_row-Branch now grace (hash presented) (hash p) s)

    -- Requests that race with the current token of a session, within the grace window from a
    -- time on, where the session is not revoked and does not expire before the window ends, in
    -- any order of elections and rotations, against a cache that answers and is write-once:
    -- every rotation is answered rotated or replay, and any two of the elected successors are
    -- equal.
    pub Race-converges :
        (c₀ : State) (s : Session) (c : State) (ps : List Text) (os : List RefreshOutcome)
        → Race t₀ s₀ c₀ s c ps os
        → All (λ o. is_grant o ≡ true) os × ((p q : Text) → Memᴰ p ps → Memᴰ q ps → p ≡ q)
    Race-converges c₀ s c ps os race =
        let (a, row, o) = Race-keeps c₀ s c ps os race in (o, λ p q m n. Agreed-eq c p q ps a m n)
