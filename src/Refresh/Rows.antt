-- ===== src/Refresh/Rows.antt =====
-- The row that a rotation of the session rows is about.
use plant_ops.Prelude.{
  Text, ◌==◌, eq_iff, true, false, ◌≡◌, ◌≢◌, inl, inr, refl, sym, ap, ◌∙◌, [], ◌∷◌, Option, none,
  some, Bool-cases, Option-cases, if◌then◌else◌, ℕ,
}
use mathlib.Core.Option.{some-injective}
use mathlib.Core.Path.{subst}
use plant_ops.Refresh.Rotation.{
  Session, invalid, Sessions, Rotated, rotate, rotate_row, rotated_later, rotated_at_head, for_user,
}
use plant_ops.Refresh.Safety.{rotate_row-user}

for_user-none {ℓ} :
    {A : Type ℓ} (o : Option Text) (x : A) (k : Text → A) → o ≡ none → for_user o x k ≡ x
for_user-none o x k h = ap (λ u. for_user u x k) h

for_user-some {ℓ} :
    {A : Type ℓ} (o : Option Text) (x : A) (k : Text → A) (user : Text)
    → o ≡ some user
    → for_user o x k ≡ k user
for_user-some o x k user h = ap (λ u. for_user u x k) h

-- The row of an identifier that has a user.
unfoldable pub session_of : Text → Sessions → Option Session
session_of id [] = none
session_of id ((j, s) ∷ rest) =
    let later = session_of id rest in
    if j == id then for_user s.user_id later (λ user. some s) else later

session_of-nil : (id : Text) (s : Session) → session_of id [] ≡ some s → ⊥
unfolding session_of
session_of-nil id s h = cc

session_of-skip :
    (id j : Text) (s : Session) (rest : Sessions)
    → (j == id) ≡ false
    → session_of id ((j, s) ∷ rest) ≡ session_of id rest
unfolding session_of
session_of-skip id j s rest e = rw e refl

session_of-no_user :
    (id j : Text) (s : Session) (rest : Sessions)
    → s.user_id ≡ none
    → session_of id ((j, s) ∷ rest) ≡ session_of id rest
unfolding session_of
session_of-no_user id j s rest n = elim (Bool-cases (j == id)) [
  | inr e ↦ rw e refl
  | inl e ↦ rw e (for_user-none s.user_id _ _ n)
]

session_of-here :
    (id j : Text) (s : Session) (rest : Sessions) (user : Text)
    → (j == id) ≡ true
    → s.user_id ≡ some user
    → session_of id ((j, s) ∷ rest) ≡ some s
unfolding session_of
session_of-here id j s rest user e n = rw e (for_user-some s.user_id _ _ user n)

-- A row of another identifier, or without a user, changes nothing in the lookup.
session_of-cons :
    (id j : Text) (s : Session) (xs ys : Sessions)
    → session_of id xs ≡ session_of id ys
    → session_of id ((j, s) ∷ xs) ≡ session_of id ((j, s) ∷ ys)
unfolding session_of
session_of-cons id j s xs ys h =
    ap (λ o. if j == id then for_user s.user_id o (λ user. some s) else o) h

module _ (now grace : ℕ) (id presented new : Text) where
  rotate-skip :
      (j : Text) (s : Session) (rest : Sessions)
      → (j == id) ≡ false
      → rotate now grace id presented new ((j, s) ∷ rest)
        ≡ rotated_later j s (rotate now grace id presented new rest)
  unfolding rotate
  rotate-skip j s rest e = rw e refl

  rotate-no_user :
      (j : Text) (s : Session) (rest : Sessions)
      → s.user_id ≡ none
      → rotate now grace id presented new ((j, s) ∷ rest)
        ≡ rotated_later j s (rotate now grace id presented new rest)
  unfolding rotate
  rotate-no_user j s rest n = elim (Bool-cases (j == id)) [
    | inr e ↦ rw e refl
    | inl e ↦ rw e (for_user-none s.user_id _ _ n)
  ]

  rotate-here :
      (j : Text) (s : Session) (rest : Sessions) (user : Text)
      → (j == id) ≡ true
      → s.user_id ≡ some user
      → rotate now grace id presented new ((j, s) ∷ rest)
        ≡ rotated_at_head j rest s.client_id user (rotate_row now grace presented new s)
  unfolding rotate
  rotate-here j s rest user e n = rw e (for_user-some s.user_id _ _ user n)

  rotate-nil :
      rotate now grace id presented new []
      ≡ record { sessions = []; outcome = invalid; subject = none; audited = [] }
  unfolding rotate
  rotate-nil = refl

  -- No row: `invalid`, without a subject, and the rows as they were.
  pub rotate-missing :
      (rows : Sessions)
      → session_of id rows ≡ none
      → rotate now grace id presented new rows
        ≡ record { sessions = rows; outcome = invalid; subject = none; audited = [] }
  rotate-missing [] h = rotate-nil
  rotate-missing ((j, s) ∷ rest) h = elim (Bool-cases (j == id)) [
    | inr e ↦
        rotate-skip j s rest e
        ∙ ap (rotated_later j s) (rotate-missing rest (sym (session_of-skip id j s rest e) ∙ h))
    | inl e ↦ elim (Option-cases s.user_id) [
      | inl n ↦
          rotate-no_user j s rest n
          ∙ ap (rotated_later j s)
              (rotate-missing rest (sym (session_of-no_user id j s rest n) ∙ h))
      | inr (user, n) ↦ let q = session_of-here id j s rest user e n in absurd (cc)
    ]
  ]

  -- What the rotation is where the row is `s`.
  abbrev pub IsRotationOf : Session → Rotated → Type 0
  IsRotationOf s r =
      let here = rotate_row now grace presented new s in
      (r.outcome ≡ here.outcome)
      × (session_of id r.sessions ≡ some here.session)
      × ((user : Text) × (s.user_id ≡ some user) × (r.subject ≡ some (s.client_id, user)))

  later-IsRotationOf :
      (j : Text) (t s : Session) (r : Rotated)
      → session_of id ((j, t) ∷ r.sessions) ≡ session_of id r.sessions
      → IsRotationOf s r
      → IsRotationOf s (rotated_later j t r)
  later-IsRotationOf j t s r e (o, l, u) = (o, e ∙ l, u)

  -- A row: its own decision, its subject, and its row as decided.
  pub rotate-found :
      (rows : Sessions) (s : Session)
      → session_of id rows ≡ some s
      → IsRotationOf s (rotate now grace id presented new rows)
  rotate-found [] s h = absurd (session_of-nil id s h)
  rotate-found ((j, t) ∷ rest) s h = elim (Bool-cases (j == id)) [
    | inr e ↦ rw (rotate-skip j t rest e) (
        later-IsRotationOf j t s (rotate now grace id presented new rest)
          (session_of-skip id j t _ e)
          (rotate-found rest s (sym (session_of-skip id j t rest e) ∙ h)))
    | inl e ↦ elim (Option-cases t.user_id) [
      | inl n ↦ rw (rotate-no_user j t rest n) (
          later-IsRotationOf j t s (rotate now grace id presented new rest)
            (session_of-no_user id j t _ n)
            (rotate-found rest s (sym (session_of-no_user id j t rest n) ∙ h)))
      | inr (user, n) ↦
          let q : t ≡ s = some-injective _ _ (sym (session_of-here id j t rest user e n) ∙ h) in
          rw (rotate-here j t rest user e n) (
            subst
              (λ s.
                IsRotationOf s
                  (rotated_at_head j rest t.client_id user (rotate_row now grace presented new t)))
              q
              (
                refl,
                session_of-here id j _ rest user e (rotate_row-user now grace presented new t ∙ n),
                (user, n, refl),
              ))
    ]
  ]

  -- Every other row is looked up as before.
  pub rotate-other :
      (rows : Sessions) (k : Text)
      → k ≢ id
      → session_of k (rotate now grace id presented new rows).sessions ≡ session_of k rows
  rotate-other [] k d = ap (λ r. session_of k r.sessions) rotate-nil
  rotate-other ((j, t) ∷ rest) k d = elim (Bool-cases (j == id)) [
    | inr e ↦ rw (rotate-skip j t rest e) (session_of-cons k j t _ _ (rotate-other rest k d))
    | inl e ↦ elim (Option-cases t.user_id) [
      | inl n ↦ rw (rotate-no_user j t rest n) (session_of-cons k j t _ _ (rotate-other rest k d))
      | inr (user, n) ↦
          let f : (j == k) ≡ false = elsewhere j e in
          rw (rotate-here j t rest user e n)
            (session_of-skip k j _ rest f ∙ sym (session_of-skip k j t rest f))
    ]
  ]
    where
      elsewhere : (j : Text) → (j == id) ≡ true → (j == k) ≡ false
      elsewhere j e = elim (Bool-cases (j == k)) [
        | inr f ↦ f
        | inl f ↦ absurd (d (sym ((eq_iff j k).0 f) ∙ (eq_iff j id).0 e))
      ]
