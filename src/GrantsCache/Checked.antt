-- ===== src/GrantsCache/Checked.antt =====
-- When the point check is true, whatever the cache holds.
use plant_ops.Prelude.{
  ℕ, Text, Bool, true, false, Option, none, some, ◌≡◌, ◌↔◌, ◌⊎◌, refl, sym, ap, ◌∙◌, arith, inl,
  inr, Bool-cases, ◌=?◌, =?_iff,
}
use mathlib.Core.Option.{some-injective}
use plant_ops.Grants.{ResolvedGrants, covers_path}
use plant_ops.Resolver.{SubjectRef, Tables, resolve, scope_path_of}
use plant_ops.Resolver.Access.{HasAccess, covers_path-resolve}
use plant_ops.GrantsCache.{
  Cell, CachedGrants, StoredEntry, unreadable, readable, version_of, read_at, read, grants_after,
  grants_for, check,
}

-- The cache answers, and this entry stands in the cell under the version that its counter has.
pub IsHit : Bool → Cell → CachedGrants → Type 0
IsHit answered cell e =
    (answered ≡ true) × (cell.entry ≡ some (readable e)) × (version_of cell.counter ≡ some e.v)

module _ (answered : Bool) (cell : Cell) (now : ℕ) (subject : SubjectRef) (t : Tables)
    (key path : Text) where
  -- Whose grants cover the path.
  pub data Covers : Type 0 where
    by_entry :
        (e : CachedGrants) → IsHit answered cell e → covers_path e.grants key path ≡ true → Covers
    by_rows :
        ((e : CachedGrants) → ¬ IsHit answered cell e)
        → HasAccess now subject none key path t
        → Covers

readable_inj : {a b : CachedGrants} → readable a ≡ readable b → a ≡ b
readable_inj h = cc

-- An entry is read where its version is the counter's, and no other one.
read_at-cases :
    (o : Option StoredEntry) (n : Option ℕ)
    → ((e : CachedGrants) × (o ≡ some (readable e))
        × (n ≡ some e.v)
        × ((read_at o n).grants ≡ some e.grants))
      ⊎ (((e : CachedGrants) → o ≡ some (readable e) → n ≡ some e.v → ⊥)
          × ((read_at o n).grants ≡ none))
read_at-cases o none = inr ((λ e p q. absurd (cc)), refl)
read_at-cases none (some v) = inr ((λ e p q. absurd (cc)), refl)
read_at-cases (some unreadable) (some v) = inr ((λ e p q. absurd (cc)), refl)
read_at-cases (some (readable e)) (some v) = elim (Bool-cases (e.v =? v)) [
  | inl h ↦ inl (e, refl, ap some (sym ((=?_iff e.v v).0 h)), rw h refl)
  | inr h ↦ inr (
    (λ d p q.
        let same : e ≡ d = readable_inj (some-injective _ _ p) in
        let at : v ≡ d.v = some-injective _ _ q in
        absurd (ground (arith, h, (=?_iff e.v v).1 (ap CachedGrants.v same ∙ sym at)))),
    rw h refl,
  )
]

module _ (resolution : Option Text → ResolvedGrants) (written : Bool) (cell : Cell) where
  grants_for-cases :
      (answered : Bool)
      → ((e : CachedGrants) × IsHit answered cell e
          × ((grants_for none resolution answered written cell).0 ≡ e.grants))
        ⊎ (((e : CachedGrants) → ¬ IsHit answered cell e)
            × ((grants_for none resolution answered written cell).0 ≡ resolution none))
  unfolding grants_for read grants_after IsHit
  grants_for-cases false = inr ((λ e (a, _, _). absurd (ground (arith, a))), refl)
  grants_for-cases true = elim (read_at-cases cell.entry (version_of cell.counter)) [
    | inl (e, p, q, r) ↦ inl (e, (refl, p, q), answer (some e.grants) r)
    | inr (n, r) ↦ inr ((λ e (_, p, q). n e p q), answer none r)
  ]
    where
      version : Option ℕ
      version = (read_at cell.entry (version_of cell.counter)).version

      answer :
          (o : Option ResolvedGrants)
          → (read_at cell.entry (version_of cell.counter)).grants ≡ o
          → (grants_after
              (read_at cell.entry (version_of cell.counter)).grants
              version
              (resolution none)
              written
              cell).0
            ≡ (grants_after o version (resolution none) written cell).0
      answer o r = ap (λ x. (grants_after x version (resolution none) written cell).0) r

module _ (answered written : Bool) (cell : Cell) (now : ℕ) (subject : SubjectRef) (t : Tables)
    (key : Text) where
  grants_given : ResolvedGrants
  grants_given =
      (grants_for none (λ application. resolve now subject application t) answered written cell).0

  Covers_iff :
      (path : Text)
      → (covers_path grants_given key path ≡ true) ↔ Covers answered cell now subject t key path
  unfolding grants_given IsHit
  Covers_iff path =
      elim (grants_for-cases (λ application. resolve now subject application t) written cell
        answered) [
          | inl (e, hit, g) ↦ (
            (λ h. Covers.by_entry e hit (ap (λ x. covers_path x key path) (sym g) ∙ h)),
            λ c. elim c [
              | Covers.by_entry d (_, p, _) h ↦
                  let same : e ≡ d = readable_inj (some-injective _ _ (sym (entry_of e hit) ∙ p)) in
                  ap (λ x. covers_path x key path) (g ∙ ap CachedGrants.grants same) ∙ h
              | Covers.by_rows n a ↦ absurd (n e hit)
            ],
          )
          | inr (n, g) ↦ (
            (λ h. Covers.by_rows n (
                (covers_path-resolve now subject none key path t).0
                  (ap (λ x. covers_path x key path) (sym g) ∙ h))),
            λ c. elim c [
              | Covers.by_entry d hit h ↦ absurd (n d hit)
              | Covers.by_rows _ a ↦
                  ap (λ x. covers_path x key path) g
                  ∙ (covers_path-resolve now subject none key path t).1 a
            ],
          )
        ]
    where
      entry_of : (e : CachedGrants) → IsHit answered cell e → cell.entry ≡ some (readable e)
      entry_of e (_, p, _) = p

  -- The point check of a node is true exactly when the tenant has the node and, at the node's
  -- path, either the entry that stands in the cache under the version of the counter, a missing
  -- counter being zero, covers the permission, or there is no such entry, or no answer of the
  -- cache, and some stored chain of binding, node, role, permission, application and enablement
  -- rows grants the permission over the path. A node of another tenant is like one that does not
  -- exist.
  pub check_iff :
      (node_id : Text)
      → ((check answered written now subject t key node_id cell).0 ≡ true) ↔ (
          (path : Text) × (scope_path_of t.scope_nodes subject.client_id node_id ≡ some path)
          × Covers answered cell now subject t key path)
  unfolding check grants_given
  check_iff node_id = (
    go (scope_path_of t.scope_nodes subject.client_id node_id) refl,
    λ (path, e, a). rw e ((Covers_iff path).1 a),
  )
    where
      go :
          (o : Option Text)
          → scope_path_of t.scope_nodes subject.client_id node_id ≡ o
          → (check answered written now subject t key node_id cell).0 ≡ true
          → (path : Text) × (scope_path_of t.scope_nodes subject.client_id node_id ≡ some path)
            × Covers answered cell now subject t key path
      go none e h = absurd (let k : false ≡ true = rw e at h in ground (arith, k))
      go (some path) e h = (path, e, (Covers_iff path).0 (rw e at h))
