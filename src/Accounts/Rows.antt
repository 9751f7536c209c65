-- ===== src/Accounts/Rows.antt =====
-- Rows under an update.
use plant_ops.Prelude.{
  ℕ, Text, ◌==◌, eq_iff, Bool, true, false, ◌≡◌, refl, sym, ap, ◌∙◌, arith, inl, inr, List, [], ◌∷◌,
  none, some, Bool-cases, if◌then◌else◌, find, Memᴰ-map, find-Memᴰ,
}
use mathlib.Core.List.{Memᴰ}
use mathlib.Core.Option.{some-injective}
use mathlib.Core.Path.{subst}
use plant_ops.Accounts.{active, User, SessionRow, update_user, revoke_sessions, is_killed, is_unset}

-- The primary key.
abbrev pub HasUniqueIds : List User → Type 0
HasUniqueIds users = (u v : User) → Memᴰ u users → Memᴰ v users → u.id ≡ v.id → u ≡ v

-- No session of a user who is not active is live.
abbrev pub HasOnlyActive : List User → List SessionRow → Type 0
HasOnlyActive users rows =
    (u : User) (s : SessionRow)
    → Memᴰ u users
    → Memᴰ s rows
    → s.user_id ≡ u.id
    → s.revoked_at ≡ none
    → u.status ≡ active

-- A live session after a revocation was there before, and is of another user.
pub survivor :
    (now : ℕ) (id : Text) (rows : List SessionRow) (s : SessionRow)
    → Memᴰ s (revoke_sessions now id rows)
    → s.revoked_at ≡ none
    → Memᴰ s rows × ((s.user_id == id) ≡ false)
unfolding revoke_sessions
survivor now id rows s n r =
    let (t, mt, et) =
      Memᴰ-map (λ s. if is_killed id s then record s { revoked_at = some now } else s) rows n in
    let (same, other) = untouched t et in
    (subst (λ x. Memᴰ x rows) (sym same) mt, ap (λ x. x == id) (ap SessionRow.user_id same) ∙ other)
  where
    untouched :
        (t : SessionRow)
        → s ≡ (if is_killed id t then record t { revoked_at = some now } else t)
        → (s ≡ t) × ((t.user_id == id) ≡ false)
    untouched t e = elim (Bool-cases (is_killed id t)) [
      | inl k ↦
          let q : s ≡ record t { revoked_at = some now } = rw k at e in
          let bad : some now ≡ none = sym (ap SessionRow.revoked_at q) ∙ r in absurd (cc)
      | inr k ↦
          let q : s ≡ t = rw k at e in
          let unset : is_unset t.revoked_at ≡ true =
            ap is_unset (sym (ap SessionRow.revoked_at q) ∙ r) in
          (q, ground arith)
    ]

module _ (picked : User → Bool) (f : User → User) (keeps_id : (u : User) → (f u).id ≡ u.id) where
  abbrev step : User → User
  step u = if picked u then f u else u

  step-id : (u : User) → (step u).id ≡ u.id
  step-id u = elim (Bool-cases (picked u)) [ inl e ↦ rw e (keeps_id u) | inr e ↦ rw e refl ]

  pub update_user-source :
      (users : List User) (v : User)
      → Memᴰ v (update_user picked f users)
      → (w : User) × Memᴰ w users × (v ≡ step w)
  unfolding update_user
  update_user-source users v m = Memᴰ-map step users m

  pub update_user-HasUniqueIds :
      (users : List User) → HasUniqueIds users → HasUniqueIds (update_user picked f users)
  update_user-HasUniqueIds users h u v m n e =
      let (x, mx, ex) = update_user-source users u m in
      let (y, my, ey) = update_user-source users v n in
      let same : x ≡ y =
        h x y mx my (sym (step-id x) ∙ sym (ap User.id ex) ∙ e ∙ ap User.id ey ∙ step-id y) in
      ex ∙ ap step same ∙ sym ey

  -- An update that deactivates nobody.
  pub update_user-HasOnlyActive :
      (users : List User) (rows : List SessionRow)
      → ((u : User) → u.status ≡ active → (f u).status ≡ active)
      → HasOnlyActive users rows
      → HasOnlyActive (update_user picked f users) rows
  update_user-HasOnlyActive users rows keeps h u s m n e r =
      let (w, mw, ew) = update_user-source users u m in
      ap User.status ew ∙ stays w (h w s mw n (e ∙ ap User.id ew ∙ step-id w) r)
    where
      stays : (w : User) → w.status ≡ active → (step w).status ≡ active
      stays w a = elim (Bool-cases (picked w)) [ inl p ↦ rw p (keeps w a) | inr p ↦ rw p a ]

  -- An update of one user, with every session of that user revoked.
  pub update_user-revoke :
      (now : ℕ) (id : Text) (users : List User) (rows : List SessionRow)
      → ((u : User) → picked u ≡ true → u.id ≡ id)
      → HasOnlyActive users rows
      → HasOnlyActive (update_user picked f users) (revoke_sessions now id rows)
  unfolding revoke_sessions
  update_user-revoke now id users rows only h u s m n e r =
      let (w, mw, ew) = update_user-source users u m in
      let (stays, other) = survivor now id rows s n r in
      let elsewhere : (w.id == id) ≡ false =
        ap (λ x. x == id) (sym (step-id w) ∙ sym (ap User.id ew) ∙ sym e) ∙ other in
      let unpicked : picked w ≡ false = elim (Bool-cases (picked w)) [
        | inl p ↦ absurd (ground (arith, (eq_iff w.id id).1 (only w p)))
        | inr p ↦ p
      ] in
      let same : step w ≡ w = rw unpicked refl in
      let was : u ≡ w = ew ∙ same in ap User.status was ∙ h w s mw stays (e ∙ ap User.id was) r

-- An update of the row that a test finds, which the test still finds.
pub find-update :
    (p : User → Bool) (f : User → User) (u : User) (users : List User)
    → ((v : User) → Memᴰ v users → v.id ≡ u.id → v ≡ u)
    → p (f u) ≡ true
    → find p users ≡ some u
    → find p (update_user (λ v. v.id == u.id) f users) ≡ some (f u)
unfolding update_user
find-update p f u [] unique k h = absurd (cc)
find-update p f u (x ∷ xs) unique k h = elim (Bool-cases (p x)) [
  | inl e ↦
      let same : x ≡ u = some-injective _ _ (rw e at h) in
      let picked : (x.id == u.id) ≡ true = (eq_iff x.id u.id).1 (ap User.id same) in
      let there : p (f x) ≡ true = ap (λ y. p (f y)) same ∙ k in
      rw (picked, there) (ap (λ y. some (f y)) same)
  | inr e ↦
      let other : (x.id == u.id) ≡ false = elim (Bool-cases (x.id == u.id)) [
        | inr d ↦ d
        | inl d ↦
            let same : x ≡ u = unique x (Memᴰ.head refl) ((eq_iff x.id u.id).0 d) in
            absurd (ground (arith, e, (find-Memᴰ p xs u (rw e at h)).0, ap p same))
      ] in
      rw (other, e) (find-update p f u xs (λ v m. unique v (Memᴰ.tail m)) k (rw e at h))
]
