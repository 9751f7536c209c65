-- ===== src/GrantsCache/Fresh.antt =====
-- Requests that read, resolve and write back while the grants change and bindings lapse: what no
-- order of their steps serves. An entry may end at any step; its counter, which the code keeps for twice
-- the time, does not end.
use plant_ops.Prelude.{
  ℕ, suc, ◌+◌, ◌≤◌, Bool, true, false, List, [], ◌∷◌, Option, none, some, ◌≡◌, refl, sym, ap, ◌∙◌,
  arith, inl, inr, Bool-cases, ◌=?◌, =?_iff,
}
use mathlib.Core.List.{Memᴰ}
use mathlib.Core.Option.{some-injective}
use mathlib.Core.Path.{subst}
use plant_ops.Grants.{ResolvedGrants}
use plant_ops.GrantsCache.{
  Cell, CachedGrants, StoredEntry, unreadable, readable, StoredCounter, not_finite, number,
  version_of, entry_at, read_at, read, write, bump_cell, incremented, grants_after, grants_for,
}

-- The grants that Postgres would resolve, those that it would have resolved since the last committed
-- change and that a lapse has replaced, the subject's cell, how many committed changes are still to be
-- announced, the versions that requests have observed, and what they have resolved since.
pub record World : Type 0 where
  pub truth : ResolvedGrants
  pub lapsed : List ResolvedGrants
  pub cell : Cell
  pub owed : ℕ
  pub observed : List ℕ
  pub resolved : List (ℕ × ResolvedGrants)

-- The worlds that the steps of any number of requests and changes reach. A request may take its
-- later steps at any time, or never.
pub data Reached : World → Type 0 where
  start :
      (grants : ResolvedGrants)
      → Reached (record {
        truth = grants;
        lapsed = [];
        cell = record { entry = none; counter = none };
        owed = 0;
        observed = [];
        resolved = [];
      })
  changes :
      {w : World} (grants : ResolvedGrants)
      → Reached w
      → Reached (record w { truth = grants; lapsed = []; owed = suc w.owed })
  -- The `expires_at` of a binding passes: nothing is written, and nothing is announced.
  lapses :
      {w : World} (grants : ResolvedGrants)
      → Reached w
      → Reached (record w { truth = grants; lapsed = w.truth ∷ w.lapsed })
  bumps :
      {w : World} (n : ℕ)
      → w.owed ≡ suc n
      → Reached w
      → Reached (record w { cell = bump_cell w.cell; owed = n })
  observes :
      {w : World} (v : ℕ)
      → (read true w.cell).version ≡ some v
      → Reached w
      → Reached (record w { observed = v ∷ w.observed })
  resolves :
      {w : World} (v : ℕ)
      → Memᴰ v w.observed
      → Reached w
      → Reached (record w { resolved = (v, w.truth) ∷ w.resolved })
  writes :
      {w : World} (v : ℕ) (grants : ResolvedGrants) (answered : Bool)
      → Memᴰ (v, grants) w.resolved
      → Reached w
      → Reached (record w { cell = write answered grants (some v) w.cell })
  expires :
      {w : World}
      → Reached w
      → Reached (record w { cell = record { entry = none; counter = w.cell.counter } })

-- Grants stamped with the counter have held since the last committed change, once every change is
-- announced.
abbrev IsCurrent : World → ℕ → ℕ → ResolvedGrants → Type 0
IsCurrent w c v grants = (v ≤ c) × (v ≡ c → w.owed ≡ 0 → Memᴰ grants (w.truth ∷ w.lapsed))

record IsSound (w : World) : Type 0 where
  count : ℕ
  counter : version_of w.cell.counter ≡ some count
  seen : (v : ℕ) → Memᴰ v w.observed → v ≤ count
  done :
      (v : ℕ) (grants : ResolvedGrants) → Memᴰ (v, grants) w.resolved → IsCurrent w count v grants
  entry : (e : CachedGrants) → w.cell.entry ≡ some (readable e) → IsCurrent w count e.v e.grants

version_of-incremented :
    (o : Option StoredCounter) (c : ℕ)
    → version_of o ≡ some c
    → version_of (incremented o) ≡ some (c + 1)
version_of-incremented none c h = let q : 0 ≡ c = some-injective _ _ h in ap (λ n. some (n + 1)) q
version_of-incremented (some not_finite) c h = absurd (cc)
version_of-incremented (some (number n)) c h =
    let q : n ≡ c = some-injective _ _ h in ap (λ n. some (n + 1)) q

read-version : (o : Option StoredEntry) (n : Option ℕ) → (read_at o n).version ≡ n
read-version o none = refl
read-version o (some v) = refl

seen-cons :
    (c v : ℕ) (vs : List ℕ)
    → v ≤ c
    → ((x : ℕ) → Memᴰ x vs → x ≤ c)
    → (x : ℕ) → Memᴰ x (v ∷ vs)
    → x ≤ c
seen-cons c v vs h k x (Memᴰ.head e) = omega (arith, h, e)
seen-cons c v vs h k x (Memᴰ.tail m) = k x m

observed_le :
    (c v : ℕ) (cell : Cell)
    → version_of cell.counter ≡ some c
    → (read true cell).version ≡ some v
    → v ≤ c
unfolding read
observed_le c v cell k h =
    let q : v ≡ c =
      some-injective _ _ (sym h ∙ read-version cell.entry (version_of cell.counter) ∙ k) in
    omega (arith, q)

resolved_now :
    (u : World) (c v x : ℕ) (grants : ResolvedGrants)
    → v ≤ c
    → (Memᴰ (x, grants) u.resolved → IsCurrent u c x grants)
    → Memᴰ (x, grants) ((v, u.truth) ∷ u.resolved)
    → IsCurrent u c x grants
resolved_now u c v x grants h k (Memᴰ.head e) =
    let q : x ≡ v = ap (λ p. p.0) e in
    let g : grants ≡ u.truth = ap (λ p. p.1) e in (omega (arith, h, q), λ _ _. Memᴰ.head g)
resolved_now u c v x grants h k (Memᴰ.tail m) = k m

readable_inj : {a b : CachedGrants} → readable a ≡ readable b → a ≡ b
readable_inj h = cc

Reached-IsSound : (w : World) → Reached w → IsSound w
unfolding bump_cell read write
Reached-IsSound w (start grants) = record {
  count = 0;
  counter = refl;
  seen = λ v m. elim m [ ];
  done = λ v g m. elim m [ ];
  entry = λ e h. absurd (cc);
}
Reached-IsSound w (changes {w = u} grants r) =
    let s = Reached-IsSound u r in
    record {
      count = s.count;
      counter = s.counter;
      seen = s.seen;
      done = λ v g m. ((s.done v g m).0, λ e o. absurd (ground arith));
      entry = λ e h. ((s.entry e h).0, λ q o. absurd (ground arith));
    }
Reached-IsSound w (lapses {w = u} grants r) =
    let s = Reached-IsSound u r in
    record {
      count = s.count;
      counter = s.counter;
      seen = s.seen;
      done = λ v g m. ((s.done v g m).0, λ e o. Memᴰ.tail ((s.done v g m).1 e o));
      entry = λ e h. ((s.entry e h).0, λ q o. Memᴰ.tail ((s.entry e h).1 q o));
    }
Reached-IsSound w (bumps {w = u} n h r) =
    let s = Reached-IsSound u r in
    record {
      count = s.count + 1;
      counter = version_of-incremented u.cell.counter s.count s.counter;
      seen = λ v m. omega (arith, s.seen v m);
      done = λ v g m.
          let le = (s.done v g m).0 in (omega (arith, le), λ e o. absurd (omega (arith, le, e)));
      entry = λ e k.
          let le = (s.entry e k).0 in (omega (arith, le), λ q o. absurd (omega (arith, le, q)));
    }
Reached-IsSound w (observes {w = u} v h r) =
    let s = Reached-IsSound u r in
    record {
      count = s.count;
      counter = s.counter;
      seen = seen-cons s.count v u.observed (observed_le s.count v u.cell s.counter h) s.seen;
      done = s.done;
      entry = s.entry;
    }
Reached-IsSound w (resolves {w = u} v m r) =
    let s = Reached-IsSound u r in
    record {
      count = s.count;
      counter = s.counter;
      seen = s.seen;
      done = λ x g n. resolved_now u s.count v x g (s.seen v m) (s.done x g) n;
      entry = s.entry;
    }
Reached-IsSound w (writes {w = u} v grants false m r) =
    let s = Reached-IsSound u r in
    record { count = s.count; counter = s.counter; seen = s.seen; done = s.done; entry = s.entry }
Reached-IsSound w (writes {w = u} v grants true m r) =
    let s = Reached-IsSound u r in
    record {
      count = s.count;
      counter = s.counter;
      seen = s.seen;
      done = s.done;
      entry = λ e h.
          let q : record { grants = grants; v = v } ≡ e = readable_inj (some-injective _ _ h) in
          subst (λ e. IsCurrent u s.count e.v e.grants) q (s.done v grants m);
    }
Reached-IsSound w (expires {w = u} r) =
    let s = Reached-IsSound u r in
    record {
      count = s.count;
      counter = s.counter;
      seen = s.seen;
      done = s.done;
      entry = λ e h. absurd (cc);
    }

-- A hit carries the entry of the version that the counter names.
entry_at-hit :
    (o : Option StoredEntry) (c : ℕ) (grants : ResolvedGrants)
    → entry_at o c ≡ some grants
    → (e : CachedGrants) × (o ≡ some (readable e)) × (e.v ≡ c) × (e.grants ≡ grants)
entry_at-hit none c grants h = absurd (cc)
entry_at-hit (some unreadable) c grants h = absurd (cc)
entry_at-hit (some (readable e)) c grants h = elim (Bool-cases (e.v =? c)) [
  | inl q ↦ (e, refl, (=?_iff e.v c).0 q, some-injective _ _ (rw q at h))
  | inr q ↦ let n : none ≡ some grants = rw q at h in absurd (cc)
]

hit_has_held :
    (w : World) (grants : ResolvedGrants) (answered : Bool)
    → IsSound w
    → w.owed ≡ 0
    → (read answered w.cell).grants ≡ some grants
    → Memᴰ grants (w.truth ∷ w.lapsed)
unfolding read
hit_has_held w grants false s o h = absurd (cc)
hit_has_held w grants true s o h =
    let q : (read_at w.cell.entry (some s.count)).grants ≡ some grants =
      ap (λ n. (read_at w.cell.entry n).grants) (sym s.counter) ∙ h in
    let (e, f, v, g) = entry_at-hit w.cell.entry s.count grants q in
    subst (λ x. Memᴰ x (w.truth ∷ w.lapsed)) g ((s.entry e f).1 v o)

after_read :
    (w : World) (cached : Option ResolvedGrants) (version : Option ℕ) (written : Bool)
    → ((grants : ResolvedGrants) → cached ≡ some grants → Memᴰ grants (w.truth ∷ w.lapsed))
    → Memᴰ (grants_after cached version w.truth written w.cell).0 (w.truth ∷ w.lapsed)
unfolding grants_after
after_read w none version written h = Memᴰ.head refl
after_read w (some grants) version written h = h grants refl

-- In every world that requests, changes and lapsing bindings reach, in any order of their steps,
-- once every committed change has been announced: `grantsFor` answers with the grants that
-- Postgres would resolve, or, where a binding has lapsed since the last committed change, with
-- grants that Postgres would have resolved since that change and before such a lapse; whether it
-- hits the cache, misses it or finds it unavailable.
pub grants_for-has_held :
    (w : World) (answered written : Bool)
    → Reached w
    → w.owed ≡ 0
    → Memᴰ (grants_for none (λ application. w.truth) answered written w.cell).0 (w.truth ∷ w.lapsed)
unfolding grants_for
grants_for-has_held w answered written r o =
    after_read w (read answered w.cell).grants (read answered w.cell).version written
      λ grants h. hit_has_held w grants answered (Reached-IsSound w r) o h
