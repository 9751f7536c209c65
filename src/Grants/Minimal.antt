-- ===== src/Grants/Minimal.antt =====
-- `minimizePaths`: what it covers, that nothing in it is redundant, and that it is canonical.
use plant_ops.Prelude.{
  ℕ, zero, suc, ◌<◌, Text, ◌==◌, eq_iff, Bool, true, false, ◌&&◌, ◌||◌, List, ◌≡◌, sym, ap, ◌∙◌,
  inl, inr, arith, Bool-cases, Bool-ext, length, not, any, filter, includes, distinct,
  includes-filter, includes-distinct, includes-sort, any_of_includes, any-member, all-member,
  all-counterexample, IsIncreasing, IsIncreasing-ext, sort-IsIncreasing, filter-IsDistinct,
  distinct-IsDistinct,
}
use plant_ops.Scope.{is_within}
use plant_ops.Scope.Within.{
  is_within_refl, is_within_trans, is_within_antisymm, length-lt_of_is_within,
}
use plant_ops.Grants.{is_minimal, minimize_paths}

abbrev pub covers : List Text → Text → Bool
covers paths target = any (λ path. is_within target path) paths

pub includes-minimize_paths :
    (paths : List Text) (k : Text)
    → includes (minimize_paths paths) k ≡ (includes paths k && is_minimal (distinct paths) k)
unfolding minimize_paths
includes-minimize_paths paths k =
    includes-sort (filter (is_minimal (distinct paths)) (distinct paths)) k
    ∙ includes-filter (is_minimal (distinct paths)) (distinct paths) k
    ∙ ap (λ b. b && is_minimal (distinct paths) k) (includes-distinct paths k)

pub minimize_paths-IsIncreasing : (paths : List Text) → IsIncreasing (minimize_paths paths)
unfolding minimize_paths
minimize_paths-IsIncreasing paths =
    sort-IsIncreasing _ (filter-IsDistinct _ (distinct paths) (distinct-IsDistinct paths))

-- Every path of a set lies beneath a minimal one: each step to a proper ancestor is shorter.
minimal_above :
    (n : ℕ) (paths : List Text) (p : Text)
    → length p < n
    → includes paths p ≡ true
    → (m : Text) × (includes paths m ≡ true) × (is_minimal paths m ≡ true) × (is_within p m ≡ true)
minimal_above zero paths p h i = absurd (omega arith)
minimal_above (suc n) paths p h i = elim (Bool-cases (is_minimal paths p)) [
  | inl e ↦ (p, i, e, is_within_refl p)
  | inr e ↦
      let (other, listed, fails) =
        all-counterexample (λ other. other == p || not (is_within p other)) paths
          (unfold is_minimal in e) in
      let inside : is_within p other ≡ true = ground (arith, fails) in
      let differs : (p == other) ≡ false = ground (arith, fails, eq_iff p other, eq_iff other p) in
      let (m, mi, mm, mw) =
        minimal_above n paths other (omega (arith, length-lt_of_is_within p other inside differs))
          listed in
      (m, mi, mm, is_within_trans p other m inside mw)
]

pub minimize_paths-above :
    (paths : List Text) (p : Text)
    → includes paths p ≡ true
    → (m : Text) × (includes (minimize_paths paths) m ≡ true) × (is_within p m ≡ true)
minimize_paths-above paths p h =
    let (m, listed, minimal, inside) =
      minimal_above (suc (length p)) (distinct paths) p (omega arith)
        (includes-distinct paths p ∙ h) in
    (m, ground (arith, includes-minimize_paths paths m, includes-distinct paths m), inside)

pub includes_of_minimize_paths :
    (paths : List Text) (k : Text)
    → includes (minimize_paths paths) k ≡ true
    → includes paths k ≡ true
includes_of_minimize_paths paths k h = ground (arith, includes-minimize_paths paths k)

-- Minimising a set of paths changes nothing of what it covers.
pub covers-minimize_paths :
    (paths : List Text) (target : Text) → covers (minimize_paths paths) target ≡ covers paths target
covers-minimize_paths paths target = Bool-ext _ _ keeps adds
  where
    keeps : covers (minimize_paths paths) target ≡ true → covers paths target ≡ true
    keeps h =
        let (k, listed, inside) = any-member (λ p. is_within target p) (minimize_paths paths) h in
        any_of_includes (λ p. is_within target p) paths k
          (includes_of_minimize_paths paths k listed) inside

    adds : covers paths target ≡ true → covers (minimize_paths paths) target ≡ true
    adds h =
        let (k, listed, inside) = any-member (λ p. is_within target p) paths h in
        let (m, kept, above) = minimize_paths-above paths k listed in
        any_of_includes (λ p. is_within target p) (minimize_paths paths) m kept
          (is_within_trans target k m inside above)

-- No path of the result lies beneath another one.
pub minimize_paths-antichain :
    (paths : List Text) (p q : Text)
    → includes (minimize_paths paths) p ≡ true
    → includes (minimize_paths paths) q ≡ true
    → is_within p q ≡ true
    → p ≡ q
minimize_paths-antichain paths p q h k w =
    let minimal : is_minimal (distinct paths) p ≡ true =
      ground (arith, includes-minimize_paths paths p) in
    let listed : includes (distinct paths) q ≡ true =
      includes-distinct paths q ∙ includes_of_minimize_paths paths q k in
    let test : (q == p || not (is_within p q)) ≡ true =
      all-member (λ other. other == p || not (is_within p other)) (distinct paths) q
        (unfold is_minimal in minimal) listed in
    sym ((eq_iff q p).0 (ground arith))

minimize_paths-subset :
    (ps qs : List Text)
    → ((t : Text) → covers ps t ≡ covers qs t)
    → (k : Text) → includes (minimize_paths ps) k ≡ true
    → includes (minimize_paths qs) k ≡ true
minimize_paths-subset ps qs same k h =
    let within = λ (t p : Text). is_within t p in
    let covered : covers qs k ≡ true =
      sym (same k)
      ∙ any_of_includes (within k) ps k (includes_of_minimize_paths ps k h) (is_within_refl k) in
    let (m, mi, km) =
      any-member (within k) (minimize_paths qs) (covers-minimize_paths qs k ∙ covered) in
    let back : covers ps m ≡ true =
      same m
      ∙ any_of_includes (within m) qs m (includes_of_minimize_paths qs m mi) (is_within_refl m) in
    let (l, li, ml) =
      any-member (within m) (minimize_paths ps) (covers-minimize_paths ps m ∙ back) in
    let kl : k ≡ l = minimize_paths-antichain ps k l h li (is_within_trans k m l km ml) in
    let mk : m ≡ k = is_within_antisymm m k (rw kl ml) km in rw (← mk) mi

-- Two sets that cover the same paths have the same minimal list, element for element.
pub minimize_paths-canonical :
    (ps qs : List Text)
    → ((t : Text) → covers ps t ≡ covers qs t)
    → minimize_paths ps ≡ minimize_paths qs
minimize_paths-canonical ps qs same =
    IsIncreasing-ext (minimize_paths ps) (minimize_paths qs) (minimize_paths-IsIncreasing ps)
      (minimize_paths-IsIncreasing qs)
      λ k.
        Bool-ext _ _ (minimize_paths-subset ps qs same k)
          (minimize_paths-subset qs ps (λ t. sym (same t)) k)
