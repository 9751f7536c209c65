-- ===== src/ResolveCache/Tests.antt =====
-- Runs of the client's cache.
use plant_ops.Prelude.{codes, ◌==◌, true, [], ◌∷◌, some, none, ◌≡◌, refl, arith}
use plant_ops.Grants.{ResolvedGrants}
use plant_ops.ResolveCache.{
  ResolveCache, empty_cache, cached, requested, reload, get, settle, clear, gets, settles, after,
}
use plant_ops.ResolveCache.Loads.{IsFresh, get-IsFresh, get-settle-clear}

abbrev grants : ResolvedGrants
grants = record { permissions = codes "gate.open" ∷ []; scopes = [] }

served :
    (get 50 none (after 60 ((5, settles (codes "*") (some grants)) ∷ (1, gets none) ∷ []))).0
    ≡ cached grants
unfolding get after ◌==◌
served = refl

expired :
    (get 65 none (after 60 ((5, settles (codes "*") (some grants)) ∷ (1, gets none) ∷ []))).0
    ≡ requested
unfolding get after ◌==◌
expired = refl

get-IsFresh_example :
    IsFresh 60 50 (codes "*") grants ((5, settles (codes "*") (some grants)) ∷ (1, gets none) ∷ [])
get-IsFresh_example =
    get-IsFresh 60 50 none ((5, settles (codes "*") (some grants)) ∷ (1, gets none) ∷ []) grants
      served

abbrev waiting : ResolveCache
waiting = (reload none empty_cache).1

get-settle-clear_example :
    ((clear waiting).in_flight (codes "*") ≡ true)
    × ((get 50 none (settle 60 5 (codes "*") (some grants) (clear waiting))).0 ≡ cached grants)
unfolding reload ◌==◌
get-settle-clear_example =
    get-settle-clear 60 5 50 none grants waiting (ground arith) (ground arith) refl
