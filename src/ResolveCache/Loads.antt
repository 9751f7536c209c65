-- ===== src/ResolveCache/Loads.antt =====
-- Where the entries of the client's cache come from.
use plant_ops.Prelude.{
  ℕ, ◌+◌, ◌<◌, Text, ◌==◌, eq_iff, eq_refl, Bool, true, false, not, List, [], ◌∷◌, Option, none,
  some, ltb, ◌≡◌, ◌≢◌, refl, ap, inl, inr, arith, Bool-cases, or_default,
}
use mathlib.Core.Path.{subst}
use plant_ops.Grants.{ResolvedGrants}
use plant_ops.ResolveCache.{
  Entry, ResolveCache, key_of, put, cached, joined, requested, reload, get_stale, get_entry, get,
  settle, clear, invalidate, Event, gets, reloads, invalidates, settles, clears, after,
}

-- The event leaves the key alone: it is no `clear`, and no `invalidate` of everything or of the key.
abbrev keeps : Text → Event → Bool
keeps key clears = false
keeps key (invalidates none) = false
keeps key (invalidates (some application_id)) = not (key == application_id)
keeps key _ = true

-- A load of the key brought the grants, `ttl_ms` before the entry's end, and nothing dropped the
-- key since.
data Loaded (ttl_ms : ℕ) (key : Text) (entry : Entry) : List (ℕ × Event) → Type 0 where
  by_load :
      (now : ℕ) (past : List (ℕ × Event))
      → entry.expires_at ≡ now + ttl_ms
      → Loaded ttl_ms key entry ((now, settles key (some entry.grants)) ∷ past)
  kept :
      (now : ℕ) (event : Event) (past : List (ℕ × Event))
      → keeps key event ≡ true
      → Loaded ttl_ms key entry past
      → Loaded ttl_ms key entry ((now, event) ∷ past)

reload-entries :
    (query : Option Text) (st : ResolveCache) (key : Text) (entry : Entry)
    → (reload query st).1.entries key ≡ some entry
    → st.entries key ≡ some entry
unfolding reload
reload-entries query st key entry h = elim (Bool-cases (st.in_flight (key_of query))) [
  | inl e ↦ rw e at h
  | inr e ↦ rw e at h
]

put-some :
    {A : Type 0} (key at : Text) (value : A) (map : Text → Option A)
    → put key none map at ≡ some value
    → (map at ≡ some value) × ((at == key) ≡ false)
put-some key at value map h = elim (Bool-cases (at == key)) [
  | inl e ↦ absurd (let k : none ≡ some value = rw e at h in ground (arith, k))
  | inr e ↦ (rw e at h, e)
]

get_stale-entries :
    (query : Option Text) (st : ResolveCache) (key : Text) (entry : Entry)
    → (get_stale query st).1.entries key ≡ some entry
    → st.entries key ≡ some entry
unfolding get_stale
get_stale-entries query st key entry h =
    let dropped = record st { entries = put (key_of query) none st.entries } in
    (put-some (key_of query) key entry st.entries (reload-entries query dropped key entry h)).0

get_entry-entries :
    (now : ℕ) (query : Option Text) (st : ResolveCache) (o : Option Entry) (key : Text)
    (entry : Entry)
    → (get_entry now query st o).1.entries key ≡ some entry
    → st.entries key ≡ some entry
unfolding get_entry
get_entry-entries now query st none key entry h = get_stale-entries query st key entry h
get_entry-entries now query st (some e) key entry h = elim (Bool-cases (ltb now e.expires_at)) [
  | inl f ↦ rw f at h
  | inr f ↦ get_stale-entries query st key entry (rw f at h)
]

loaded_at :
    (ttl_ms now : ℕ) (key j : Text) (grants : ResolvedGrants) (past : List (ℕ × Event))
    → key ≡ j
    → Loaded ttl_ms key
        (record { grants = grants; expires_at = now + ttl_ms })
        ((now, settles j (some grants)) ∷ past)
loaded_at ttl_ms now key j grants past e = rw (← e) (by_load now past refl)

after-Loaded :
    (ttl_ms : ℕ) (history : List (ℕ × Event)) (key : Text) (entry : Entry)
    → (after ttl_ms history).entries key ≡ some entry
    → Loaded ttl_ms key entry history
unfolding after get reload clear invalidate settle
after-Loaded ttl_ms [] key entry h = absurd (ground (arith, h))
after-Loaded ttl_ms ((now, gets query) ∷ past) key entry h = kept now _ past refl (
    after-Loaded ttl_ms past key entry (
      get_entry-entries now query (after ttl_ms past) ((after ttl_ms past).entries (key_of query))
        key entry h))
after-Loaded ttl_ms ((now, reloads query) ∷ past) key entry h =
    kept now _ past refl
      (after-Loaded ttl_ms past key entry (reload-entries query (after ttl_ms past) key entry h))
after-Loaded ttl_ms ((now, invalidates none) ∷ past) key entry h = absurd (ground (arith, h))
after-Loaded ttl_ms ((now, invalidates (some a)) ∷ past) key entry h =
    let (k, n) = put-some a key entry (after ttl_ms past).entries h in
    kept now _ past (ap not n) (after-Loaded ttl_ms past key entry k)
after-Loaded ttl_ms ((now, clears) ∷ past) key entry h = absurd (ground (arith, h))
after-Loaded ttl_ms ((now, settles j none) ∷ past) key entry h =
    kept now _ past refl (after-Loaded ttl_ms past key entry h)
after-Loaded ttl_ms ((now, settles j (some grants)) ∷ past) key entry h =
    elim (Bool-cases (ltb 0 ttl_ms)) [
      | inr e ↦ kept now _ past refl (after-Loaded ttl_ms past key entry (rw e at h))
      | inl e ↦ elim (Bool-cases (key == j)) [
        | inr f ↦ kept now _ past refl (after-Loaded ttl_ms past key entry (rw (e, f) at h))
        | inl f ↦
            let k : some (record { grants = grants; expires_at = now + ttl_ms }) ≡ some entry =
              rw (e, f) at h in
            let q : record { grants = grants; expires_at = now + ttl_ms } ≡ entry =
              ap (λ o. or_default o entry) k in
            subst (λ x. Loaded ttl_ms key x ((now, settles j (some grants)) ∷ past)) q
              (loaded_at ttl_ms now key j grants past ((eq_iff key j).0 f))
      ]
    ]

-- A load of the key brought the grants less than the cache's lifetime ago, and nothing dropped the
-- key since.
pub IsFresh : ℕ → ℕ → Text → ResolvedGrants → List (ℕ × Event) → Type 0
IsFresh ttl_ms now key grants history =
    (entry : Entry) × (entry.grants ≡ grants)
    × (now < entry.expires_at)
    × Loaded ttl_ms key entry history

-- A reload never answers from the entries.
never :
    (query : Option Text) (st : ResolveCache) (grants : ResolvedGrants)
    → (reload query st).0 ≢ cached grants
unfolding reload
never query st grants h = elim (Bool-cases (st.in_flight (key_of query))) [
  | inl e ↦ let k : joined ≡ cached grants = rw e at h in ground (arith, k)
  | inr e ↦ let k : requested ≡ cached grants = rw e at h in ground (arith, k)
]

stale :
    (query : Option Text) (st : ResolveCache) (grants : ResolvedGrants)
    → (get_stale query st).0 ≢ cached grants
unfolding get_stale
stale query st grants h =
    never query (record st { entries = put (key_of query) none st.entries }) grants h

get_entry-cached :
    (now : ℕ) (query : Option Text) (st : ResolveCache) (o : Option Entry) (grants : ResolvedGrants)
    → (get_entry now query st o).0 ≡ cached grants
    → (entry : Entry) × (o ≡ some entry) × (entry.grants ≡ grants) × (now < entry.expires_at)
unfolding get_entry get_stale
get_entry-cached now query st none grants h = absurd (stale query st grants h)
get_entry-cached now query st (some e) grants h = elim (Bool-cases (ltb now e.expires_at)) [
  | inl f ↦
      let k : cached e.grants ≡ cached grants = rw f at h in
      (e, refl, ground (arith, k), ground (arith, f))
  | inr f ↦ absurd (stale query st grants (rw f at h))
]

-- The cache answers with grants only where a load of the same key brought them less than the
-- lifetime before, and neither `clear` nor `invalidate` has dropped the key since that load's end.
pub get-IsFresh :
    (ttl_ms now : ℕ) (query : Option Text) (history : List (ℕ × Event)) (grants : ResolvedGrants)
    → (get now query (after ttl_ms history)).0 ≡ cached grants
    → IsFresh ttl_ms now (key_of query) grants history
unfolding get IsFresh
get-IsFresh ttl_ms now query history grants h =
    let st = after ttl_ms history in
    let (entry, e, g, l) = get_entry-cached now query st (st.entries (key_of query)) grants h in
    (entry, g, l, after-Loaded ttl_ms history (key_of query) entry e)

-- A load that is in flight when the cache is cleared fills it when it answers: until the lifetime
-- ends, the cache answers with the grants that were asked for before the clear.
pub get-settle-clear :
    (ttl_ms now later : ℕ) (query : Option Text) (grants : ResolvedGrants) (st : ResolveCache)
    → 0 < ttl_ms
    → later < now + ttl_ms
    → st.in_flight (key_of query) ≡ true
    → ((clear st).in_flight (key_of query) ≡ true)
      × ((get later query (settle ttl_ms now (key_of query) (some grants) (clear st))).0
          ≡ cached grants)
unfolding get get_entry settle clear
get-settle-clear ttl_ms now later query grants st p q flying =
    let a : ltb 0 ttl_ms ≡ true = ground (arith, p) in
    let b : ltb later (now + ttl_ms) ≡ true = ground (arith, q) in
    (flying, rw (a, eq_refl (key_of query), b) refl)
