-- ===== src/ResolveCache.antt =====
-- The client's cache of libs/iam-client/src/resolve-cache.ts. A request's promise is a mark under
-- its key; `settle` is what its `then` and `finally` do once the load has answered or failed.
pub mod Loads
mod Tests
use plant_ops.Prelude.{
  ℕ, ◌+◌, ◌*◌, Text, codes, ◌==◌, Bool, true, false, not, List, [], ◌∷◌, Option, none, some, ltb,
  if◌then◌else◌, or_default,
}
use plant_ops.Grants.{ResolvedGrants}

pub record Entry : Type 0 where
  pub grants : ResolvedGrants
  pub expires_at : ℕ

pub record ResolveCache : Type 0 where
  pub entries : Text → Option Entry
  pub in_flight : Text → Bool

abbrev pub empty_cache : ResolveCache
empty_cache = record { entries = λ key. none; in_flight = λ key. false }

abbrev pub key_of : Option Text → Text
key_of application_id = or_default application_id (codes "*")

-- `Map.set` and `Map.delete`
abbrev pub put : {A : Type 0} → Text → A → (Text → A) → Text → A
put key value map at = if at == key then value else map at

-- What a caller gets: an entry, the promise of a request in flight, or that of a new request.
pub data Answer : Type 0 where
  cached : ResolvedGrants → Answer
  joined requested : Answer

unfoldable pub reload : Option Text → ResolveCache → Answer × ResolveCache
reload query st =
    if st.in_flight (key_of query)
    then (joined, st)
    else (requested, record st { in_flight = put (key_of query) true st.in_flight })

-- The branch of `get` without a fresh entry.
unfoldable pub get_stale : Option Text → ResolveCache → Answer × ResolveCache
unfolding reload
get_stale query st = reload query (record st { entries = put (key_of query) none st.entries })

unfoldable pub get_entry : ℕ → Option Text → ResolveCache → Option Entry → Answer × ResolveCache
unfolding get_stale
get_entry now query st none = get_stale query st
get_entry now query st (some entry) =
    if ltb now entry.expires_at then (cached entry.grants, st) else get_stale query st

unfoldable pub get : ℕ → Option Text → ResolveCache → Answer × ResolveCache
unfolding get_entry
get now query st = get_entry now query st (st.entries (key_of query))

unfoldable pub settle : ℕ → ℕ → Text → Option ResolvedGrants → ResolveCache → ResolveCache
settle ttl_ms now key none st = record st { in_flight = put key false st.in_flight }
settle ttl_ms now key (some grants) st = record {
  entries =
      if ltb 0 ttl_ms
      then put key (some (record { grants = grants; expires_at = now + ttl_ms })) st.entries
      else st.entries;
  in_flight = put key false st.in_flight;
}

unfoldable pub clear : ResolveCache → ResolveCache
clear st = record st { entries = λ key. none }

unfoldable pub invalidate : Option Text → ResolveCache → ResolveCache
unfolding clear
invalidate none st = clear st
invalidate (some application_id) st = record st { entries = put application_id none st.entries }

-- What happens to a cache, one thing at a time.
pub data Event : Type 0 where
  gets reloads invalidates : Option Text → Event
  settles : Text → Option ResolvedGrants → Event
  clears : Event

unfoldable pub step : ℕ → ℕ → Event → ResolveCache → ResolveCache
unfolding get reload settle invalidate
step ttl_ms now (gets query) st = (get now query st).1
step ttl_ms now (reloads query) st = (reload query st).1
step ttl_ms now (invalidates query) st = invalidate query st
step ttl_ms now (settles key answer) st = settle ttl_ms now key answer st
step ttl_ms now clears st = clear st

-- The cache after a history, the latest event first, each with its time.
unfoldable pub after : ℕ → List (ℕ × Event) → ResolveCache
unfolding step
after ttl_ms [] = empty_cache
after ttl_ms ((now, event) ∷ past) = step ttl_ms now event (after ttl_ms past)
