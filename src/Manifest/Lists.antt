-- ===== src/Manifest/Lists.antt =====
-- When the lists of a plan are empty.
use plant_ops.Prelude.{
  Text, eq_iff, eq_refl, Bool, true, false, not, ◌&&◌, List, [], ◌∷◌, ◌++◌, Option, none, some, ◌≡◌,
  ◌↔◌, refl, sym, ap, ◌∙◌, arith, inl, inr, Bool-cases, is_empty, map, includes, same_option,
}
use mathlib.Core.List.{Memᴰ}
use plant_ops.Navigation.{NavNodeKind, module_node, menu, sub_menu}
use mathlib.Core.Option.{some-injective}
use mathlib.Core.Path.{subst}
use plant_ops.Manifest.{push_unless, same_bool, same_kind, Update}
use plant_ops.Manifest.Plan.{
  created, updated, created_of, updated_of, update_of, deactivated, change_of,
}

pub is_empty-append {ℓ} :
    {A : Type ℓ} (xs ys : List A) → is_empty (xs ++ ys) ≡ (is_empty xs && is_empty ys)
is_empty-append [] ys = refl
is_empty-append (x ∷ xs) ys = refl

pub is_empty-map {ℓ κ} :
    {A : Type ℓ} {B : Type κ} (f : A → B) (xs : List A) → is_empty (map f xs) ≡ is_empty xs
is_empty-map f [] = refl
is_empty-map f (x ∷ xs) = refl

pub is_empty-push_unless :
    (same : Bool) (name : Text) (xs : List Text)
    → is_empty (push_unless same name xs) ≡ (same && is_empty xs)
is_empty-push_unless true name xs = refl
is_empty-push_unless false name xs = refl

-- The fields in turn: each is the same, and so are the later ones.
pub push_unless-empty_iff :
    {P Q : Type 0} (same : Bool) (name : Text) (xs : List Text)
    → ((same ≡ true) ↔ P)
    → ((is_empty xs ≡ true) ↔ Q)
    → (is_empty (push_unless same name xs) ≡ true) ↔ (P × Q)
push_unless-empty_iff true name xs (f, g) (h, k) = ((λ e. (f refl, h e)), λ e. k e.1)
push_unless-empty_iff false name xs (f, g) (h, k) = ((λ e. absurd (cc)), λ e. g e.0)

pub nothing-empty_iff : (is_empty {A = Text} [] ≡ true) ↔ Unit {0}
nothing-empty_iff = ((λ h. tt), λ h. refl)

pub is_empty_iff : (xs : List Text) → (is_empty xs ≡ true) ↔ ((k : Text) → includes xs k ≡ false)
unfolding includes
is_empty_iff [] = ((λ h k. refl), λ h. refl)
is_empty_iff (x ∷ xs) = ((λ h. absurd (cc)), λ h. absurd (ground (arith, h x, eq_refl x)))

pub is_empty-change_of : (key : Text) (ks : List Text) → is_empty (change_of key ks) ≡ is_empty ks
is_empty-change_of key [] = refl
is_empty-change_of key (k ∷ ks) = refl

pub same_option_iff : (a b : Option Text) → (same_option a b ≡ true) ↔ (a ≡ b)
same_option_iff none none = ((λ _. refl), λ _. refl)
same_option_iff none (some b) = ((λ h. cc), λ h. cc)
same_option_iff (some a) none = ((λ h. cc), λ h. cc)
same_option_iff (some a) (some b) =
    ((λ h. ap some ((eq_iff a b).0 h)), λ h. (eq_iff a b).1 (some-injective _ _ h))

pub same_bool_iff : (a b : Bool) → (same_bool a b ≡ true) ↔ (a ≡ b)
same_bool_iff true true = ((λ _. refl), λ _. refl)
same_bool_iff true false = ((λ h. cc), λ h. cc)
same_bool_iff false true = ((λ h. cc), λ h. cc)
same_bool_iff false false = ((λ _. refl), λ _. refl)

pub same_kind_iff : (a b : NavNodeKind) → (same_kind a b ≡ true) ↔ (a ≡ b)
same_kind_iff module_node module_node = ((λ _. refl), λ _. refl)
same_kind_iff module_node menu = ((λ h. cc), λ h. cc)
same_kind_iff module_node sub_menu = ((λ h. cc), λ h. cc)
same_kind_iff menu module_node = ((λ h. cc), λ h. cc)
same_kind_iff menu menu = ((λ _. refl), λ _. refl)
same_kind_iff menu sub_menu = ((λ h. cc), λ h. cc)
same_kind_iff sub_menu module_node = ((λ h. cc), λ h. cc)
same_kind_iff sub_menu menu = ((λ h. cc), λ h. cc)
same_kind_iff sub_menu sub_menu = ((λ _. refl), λ _. refl)

module _ {Desired Current : Type 0} (lookup : Desired → Option Current)
    (changes : Desired → Current → List Text) where
  -- What is declared is stored, without changes.
  abbrev pub IsSettled : Desired → Type 0
  IsSettled d = (row : Current) × (lookup d ≡ some row) × (is_empty (changes d row) ≡ true)

  IsSettled-of_lookup :
      (d : Desired) (o : Option Current)
      → lookup d ≡ o
      → is_empty (created_of d o) ≡ true
      → is_empty (updated_of changes d o) ≡ true
      → IsSettled d
  IsSettled-of_lookup d none e h k = absurd (cc)
  IsSettled-of_lookup d (some row) e h k = (row, e, no_change (changes d row) k)
    where
      no_change : (cs : List Text) → is_empty (update_of d row cs) ≡ true → is_empty cs ≡ true
      no_change [] h = refl
      no_change (c ∷ cs) h = h

  pub IsSettled-of_empty_lists :
      (ds : List Desired)
      → is_empty (created lookup changes ds) ≡ true
      → is_empty (updated lookup changes ds) ≡ true
      → (d : Desired) → Memᴰ d ds
      → IsSettled d
  unfolding created updated
  IsSettled-of_empty_lists [] h k d m = elim m [ ]
  IsSettled-of_empty_lists (x ∷ xs) h k d m =
      let a = is_empty-append (created_of x (lookup x)) (created lookup changes xs) in
      let b = is_empty-append (updated_of changes x (lookup x)) (updated lookup changes xs) in
      here_or_later m
        (IsSettled-of_lookup x (lookup x) refl (ground (arith, a, h)) (ground (arith, b, k)))
        (IsSettled-of_empty_lists xs (ground (arith, a, h)) (ground (arith, b, k)) d)
    where
      here_or_later :
          {x d : Desired} {xs : List Desired}
          → Memᴰ d (x ∷ xs)
          → IsSettled x
          → (Memᴰ d xs → IsSettled d)
          → IsSettled d
      here_or_later (Memᴰ.head e) s k = subst IsSettled (sym e) s
      here_or_later (Memᴰ.tail m) s k = k m

  pub empty_of_settled :
      (ds : List Desired)
      → ((d : Desired) → Memᴰ d ds → IsSettled d)
      → (is_empty (created lookup changes ds) ≡ true)
        × (is_empty (updated lookup changes ds) ≡ true)
  unfolding created updated
  empty_of_settled [] s = (refl, refl)
  empty_of_settled (x ∷ xs) s =
      let (row, e, n) = s x (Memᴰ.head refl) in
      let (c, u) = empty_of_settled xs (λ d m. s d (Memᴰ.tail m)) in
      (rw e c, rw e (no_update x row (changes x row) n (updated lookup changes xs) ∙ u))
    where
      no_update :
          (d : Desired) (row : Current) (cs : List Text)
          → is_empty cs ≡ true
          → (us : List (Update Desired Current)) → is_empty (update_of d row cs ++ us) ≡ is_empty us
      no_update d row [] h us = refl
      no_update d row (c ∷ cs) h us = absurd (cc)

module _ {Current : Type 0} (key_of : Current → Text) (active : Current → Bool)
    (wanted : List Text) where
  pub deactivated-empty_iff :
      (rows : List Current)
      → (is_empty (deactivated key_of active wanted rows) ≡ true) ↔ (
          (row : Current) → Memᴰ row rows → active row ≡ true → includes wanted (key_of row) ≡ true)
  unfolding deactivated
  deactivated-empty_iff [] = ((λ h row m a. elim m [ ]), λ h. refl)
  deactivated-empty_iff (x ∷ xs) =
      elim (Bool-cases (active x && not (includes wanted (key_of x)))) [
        | inl e ↦ (
          (λ h. let q : false ≡ true = rw e at h in absurd (cc)),
          λ k. absurd (ground (arith, k x (Memᴰ.head refl))),
        )
        | inr e ↦ rw e (
          (λ h row m a. here_or_later m a e ((deactivated-empty_iff xs).0 h row)),
          λ k. (deactivated-empty_iff xs).1 (λ row m. k row (Memᴰ.tail m)),
        )
      ]
    where
      here_or_later :
          {x row : Current} {xs : List Current}
          → Memᴰ row (x ∷ xs)
          → active row ≡ true
          → (active x && not (includes wanted (key_of x))) ≡ false
          → (Memᴰ row xs → active row ≡ true → includes wanted (key_of row) ≡ true)
          → includes wanted (key_of row) ≡ true
      here_or_later {x = x} {row = row} (Memᴰ.head q) a e k =
          let f : (active row && not (includes wanted (key_of row))) ≡ false =
            ap (λ y. active y && not (includes wanted (key_of y))) q ∙ e in
          ground arith
      here_or_later (Memᴰ.tail m) a e k = k m a
