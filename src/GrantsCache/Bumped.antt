-- ===== src/GrantsCache/Bumped.antt =====
-- What `bumpMany` does to the counters.
use plant_ops.Prelude.{
  Text, ◌==◌, eq_iff, true, false, List, [], ◌∷◌, ◌≡◌, refl, sym, ap, ◌∙◌, arith, inl, inr,
  Bool-cases, if◌then◌else◌, distinct, includes, IsDistinct, distinct-IsDistinct, includes-distinct,
  map,
}
use plant_ops.Resolver.{SubjectRef}
use plant_ops.GrantsCache.{Cells, bump_cell, bump_keys, bump_many, key_for}

bump_keys-cell :
    (keys : List Text) (cells : Cells) (k : Text)
    → IsDistinct keys
    → bump_keys keys cells k ≡ (if includes keys k then bump_cell (cells k) else cells k)
unfolding bump_keys includes
bump_keys-cell [] cells k d = refl
bump_keys-cell (key ∷ keys) cells k (d, ds) =
    bump_keys-cell keys (λ j. if j == key then bump_cell (cells j) else cells j) k ds
    ∙ elim (Bool-cases (k == key)) [
      | inl e ↦
          let same : k ≡ key = (eq_iff k key).0 e in
          let n : includes keys k ≡ false = ap (includes keys) same ∙ d in
          let f : (key == k) ≡ true = (eq_iff key k).1 (sym same) in rw (n, e, f) refl
      | inr e ↦ let f : (key == k) ≡ false = other e in rw (e, f) refl
    ]
  where
    other : (k == key) ≡ false → (key == k) ≡ false
    other e = elim (Bool-cases (key == k)) [
      | inr f ↦ f
      | inl f ↦ absurd (ground (arith, (eq_iff k key).1 (sym ((eq_iff key k).0 f))))
    ]

-- An invalidation that Redis carries out moves the counter of each named subject on by one, however
-- often it is named, and touches no other cell.
pub bump_many-cell :
    (subjects : List SubjectRef) (cells : Cells) (k : Text)
    → bump_many true subjects cells k
      ≡ (if includes (map key_for subjects) k then bump_cell (cells k) else cells k)
unfolding bump_many
bump_many-cell subjects cells k =
    bump_keys-cell (distinct (map key_for subjects)) cells k
      (distinct-IsDistinct (map key_for subjects))
    ∙ ap (λ b. if b then bump_cell (cells k) else cells k)
        (includes-distinct (map key_for subjects) k)
