-- ===== src/Scope/Within.antt =====
-- `pathIsWithin` is a partial order on paths.
use mathlib.Core.List.{append_assoc}
use plant_ops.Prelude.{
  ◌<◌, Text, ◌==◌, eq_iff, eq_refl, true, false, [], ◌∷◌, ◌++◌, ◌≡◌, refl, sym, ap, ◌∙◌, ◌⊎◌, inl,
  inr, arith, Bool-cases, length, length-append, ◌≡⟨◌⟩◌, ◌∎,
}
use plant_ops.Scope.{separator, starts_with, is_within}

pub starts_with-append : (p r : Text) → starts_with (p ++ r) p ≡ true
unfolding starts_with
starts_with-append [] r = refl
starts_with-append (a ∷ p) r = ground (arith, starts_with-append p r)

starts_with_rest : (s p : Text) → starts_with s p ≡ true → (r : Text) × (s ≡ p ++ r)
unfolding starts_with
starts_with_rest s [] h = (s, refl)
starts_with_rest [] (a ∷ p) h = absurd (ground arith)
starts_with_rest (b ∷ s) (a ∷ p) h =
    let (r, e) = starts_with_rest s p (ground arith) in (r, ground (arith, e))

-- Beneath a prefix: the prefix itself, or more text after a separator.
unfoldable pub Beneath : Text → Text → Type 0
Beneath s p = (s ≡ p) ⊎ ((r : Text) × (s ≡ p ++ separator ∷ r))

pub Beneath-of_is_within : (s p : Text) → is_within s p ≡ true → Beneath s p
unfolding is_within Beneath
Beneath-of_is_within s p h = elim (Bool-cases (s == p)) [
  | inl e ↦ inl ((eq_iff s p).0 e)
  | inr e ↦
      let (r, q) = starts_with_rest s (p ++ separator ∷ []) (ground arith) in
      inr (r, q ∙ append_assoc p (separator ∷ []) r)
]

pub is_within_of_Beneath : (s p : Text) → Beneath s p → is_within s p ≡ true
unfolding is_within Beneath
is_within_of_Beneath s p (inl e) = ground (arith, (eq_iff s p).1 e)
is_within_of_Beneath s p (inr (r, e)) =
    let shape : s ≡ (p ++ separator ∷ []) ++ r = e ∙ sym (append_assoc p (separator ∷ []) r) in
    let starts : starts_with s (p ++ separator ∷ []) ≡ true =
      rw shape (starts_with-append (p ++ separator ∷ []) r) in
    ground (arith, starts)

pub is_within_refl : (s : Text) → is_within s s ≡ true
unfolding is_within
is_within_refl s = ground (arith, eq_refl s)

pub is_within_trans :
    (s p q : Text) → is_within s p ≡ true → is_within p q ≡ true → is_within s q ≡ true
unfolding Beneath
is_within_trans s p q h k = go (Beneath-of_is_within s p h) (Beneath-of_is_within p q k)
  where
    go : Beneath s p → Beneath p q → is_within s q ≡ true
    go (inl e) b = rw e k
    go (inr a) (inl e) = rw (← e) h
    go (inr (r, e)) (inr (t, f)) = is_within_of_Beneath s q (
        inr (
          t ++ separator ∷ r,
          s
              ≡⟨ e ⟩ p ++ separator ∷ r
              ≡⟨ ap (λ (x : Text). x ++ separator ∷ r) f ⟩ (q ++ separator ∷ t) ++ separator ∷ r
              ≡⟨ append_assoc q (separator ∷ t) (separator ∷ r) ⟩
                q ++ separator ∷ (t ++ separator ∷ r) ∎,
        ))

-- A path below another one is longer, unless they are the same.
pub length-lt_of_is_within :
    (s p : Text) → is_within s p ≡ true → (s == p) ≡ false → length p < length s
unfolding Beneath
length-lt_of_is_within s p h ne = go (Beneath-of_is_within s p h)
  where
    go : Beneath s p → length p < length s
    go (inl e) = absurd (ground (arith, (eq_iff s p).1 e))
    go (inr (r, e)) = rw e (omega (arith, length-append p (separator ∷ r)))

pub is_within_antisymm : (s p : Text) → is_within s p ≡ true → is_within p s ≡ true → s ≡ p
is_within_antisymm s p h k = elim (Bool-cases (s == p)) [
  | inl e ↦ (eq_iff s p).0 e
  | inr e ↦
      let f : (p == s) ≡ false = ground (arith, eq_iff s p, eq_iff p s) in
      absurd (omega (arith, length-lt_of_is_within s p h e, length-lt_of_is_within p s k f))
]
