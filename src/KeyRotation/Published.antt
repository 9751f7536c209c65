-- ===== src/KeyRotation/Published.antt =====
-- The keys that a verifier finds in JWKS: the signer's and the retained ones.
use plant_ops.Prelude.{
  Text, ◌==◌, eq_iff, true, false, [], ◌∷◌, none, some, ◌≡◌, refl, sym, ap, ◌∙◌, arith, inl, inr,
  Bool-cases, if◌then◌else◌,
}
use plant_ops.KeyRotation.{Keys, key_of, set_key, delete_key}

-- Equal texts compare alike with a third.
eq_left : (j kid k : Text) → (j == kid) ≡ true → (j == k) ≡ (kid == k)
eq_left j kid k e = ap (λ x. x == k) ((eq_iff j kid).0 e)

eq_right : (j kid k : Text) → (j == k) ≡ true → (j == kid) ≡ false → false ≡ (kid == k)
eq_right j kid k f e = elim (Bool-cases (kid == k)) [
  | inl g ↦ absurd (ground (arith, (eq_iff j kid).1 ((eq_iff j k).0 f ∙ sym ((eq_iff kid k).0 g))))
  | inr g ↦ sym g
]

pub key_of-set_key :
    (keys : Keys) (kid pem k : Text)
    → key_of (set_key keys kid pem) k ≡ (if kid == k then some pem else key_of keys k)
unfolding key_of set_key
key_of-set_key [] kid pem k = refl
key_of-set_key ((j, old) ∷ rest) kid pem k = elim (Bool-cases (j == kid)) [
  | inl e ↦ rw e (elim (Bool-cases (j == k)) [
    | inl f ↦ rw (f, sym (eq_left j kid k e) ∙ f) refl
    | inr f ↦ rw (f, sym (eq_left j kid k e) ∙ f) refl
  ])
  | inr e ↦ rw e (elim (Bool-cases (j == k)) [
    | inl f ↦ rw (f, sym (eq_right j kid k f e)) refl
    | inr f ↦ rw f (key_of-set_key rest kid pem k)
  ])
]

pub key_of-delete_key :
    (keys : Keys) (kid k : Text)
    → key_of (delete_key keys kid) k ≡ (if kid == k then none else key_of keys k)
unfolding key_of delete_key
key_of-delete_key [] kid k = elim (Bool-cases (kid == k)) [ inl e ↦ rw e refl | inr e ↦ rw e refl ]
key_of-delete_key ((j, old) ∷ rest) kid k = elim (Bool-cases (j == kid)) [
  | inl e ↦ rw e (
      key_of-delete_key rest kid k ∙ elim (Bool-cases (kid == k)) [
        | inl f ↦ rw f refl
        | inr f ↦ rw (f, eq_left j kid k e ∙ f) refl
      ])
  | inr e ↦ rw e (elim (Bool-cases (j == k)) [
    | inl f ↦ rw (f, sym (eq_right j kid k f e)) refl
    | inr f ↦ rw f (key_of-delete_key rest kid k)
  ])
]
