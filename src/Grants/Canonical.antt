-- ===== src/Grants/Canonical.antt =====
-- Grants as a value: rows with the same effect assemble to the same grants.
use plant_ops.Prelude.{
  Text, ◌==◌, eq_iff, Bool, true, ◌||◌, List, [], ◌∷◌, ◌≡◌, refl, sym, ap, ◌∙◌, inl, inr, arith,
  Bool-cases, Bool-ext, any, includes, sort, includes-sort, IsDistinct, IsIncreasing,
  IsIncreasing-ext, sort-IsIncreasing,
}
use plant_ops.Scope.Within.{is_within_refl}
use plant_ops.Grants.{
  GrantRow, ScopeMap, lookup, minimize_paths, push_path, group_rows, keys, minimal_scopes,
  assemble_grants, holds_permission, covers_path,
}
use plant_ops.Grants.Minimal.{minimize_paths-canonical}
use plant_ops.Grants.Assembled.{
  paths_at, row_covers, covers-group_rows, covers_path-assemble_grants, permissions-assemble_grants,
}

includes-keys-push_path :
    (m : ScopeMap) (key path k : Text)
    → includes (keys (push_path m key path)) k ≡ (includes (keys m) k || key == k)
unfolding push_path includes
includes-keys-push_path [] key path k = ground arith
includes-keys-push_path ((j, v) ∷ m) key path k =
    ground (arith, eq_iff j key, eq_iff j k, eq_iff key k, includes-keys-push_path m key path k)

keys-push_path-IsDistinct :
    (m : ScopeMap) (key path : Text)
    → IsDistinct (keys m)
    → IsDistinct (keys (push_path m key path))
unfolding push_path includes
keys-push_path-IsDistinct [] key path h = (refl, tt)
keys-push_path-IsDistinct ((j, v) ∷ m) key path (h, hs) = elim (Bool-cases (j == key)) [
  | inl e ↦ rw e (h, hs)
  | inr e ↦ rw e (
    ground (arith, includes-keys-push_path m key path j, eq_iff key j, eq_iff j key),
    keys-push_path-IsDistinct m key path hs,
  )
]

keys-group_rows-IsDistinct :
    (m : ScopeMap) (rows : List GrantRow)
    → IsDistinct (keys m)
    → IsDistinct (keys (group_rows m rows))
unfolding group_rows
keys-group_rows-IsDistinct m [] h = h
keys-group_rows-IsDistinct m (row ∷ rows) h =
    let p = row.permission_key in
    let s = row.scope_path in
    keys-group_rows-IsDistinct (push_path m p s) rows (keys-push_path-IsDistinct m p s h)

abbrev pub row_names : Text → GrantRow → Bool
row_names permission row = row.permission_key == permission

includes-keys-group_rows :
    (m : ScopeMap) (rows : List GrantRow) (k : Text)
    → includes (keys (group_rows m rows)) k ≡ (includes (keys m) k || any (row_names k) rows)
unfolding group_rows
includes-keys-group_rows m [] k = ground arith
includes-keys-group_rows m (row ∷ rows) k =
    let p = row.permission_key in
    let s = row.scope_path in
    ground
      (arith, includes-keys-group_rows (push_path m p s) rows k, includes-keys-push_path m p s k)

includes-permissions :
    (rows : List GrantRow) (k : Text)
    → includes (sort (keys (group_rows [] rows))) k ≡ any (row_names k) rows
unfolding includes
includes-permissions rows k =
    includes-sort (keys (group_rows [] rows)) k ∙ includes-keys-group_rows [] rows k

-- A permission is held exactly when some row names it, whatever the row's path.
pub holds_permission-assemble_grants :
    (rows : List GrantRow) (permission : Text)
    → holds_permission (assemble_grants rows) permission ≡ any (row_names permission) rows
unfolding holds_permission
holds_permission-assemble_grants rows k =
    ap (λ l. includes l k) (permissions-assemble_grants rows) ∙ includes-permissions rows k

-- A row that names a permission covers its own path for it, and the other way round.
named_of_covered :
    (rows : List GrantRow) (k t : Text)
    → any (row_covers k t) rows ≡ true
    → any (row_names k) rows ≡ true
named_of_covered [] k t h = h
named_of_covered (row ∷ rows) k t h = ground (arith, named_of_covered rows k t)

covered_of_named :
    (rows : List GrantRow) (k : Text)
    → any (row_names k) rows ≡ true
    → (t : Text) × (any (row_covers k t) rows ≡ true)
covered_of_named [] k h = absurd (ground arith)
covered_of_named (row ∷ rows) k h = elim (Bool-cases (row_names k row)) [
  | inl e ↦ (row.scope_path, ground (arith, is_within_refl row.scope_path))
  | inr e ↦ let (t, c) = covered_of_named rows k (ground arith) in (t, ground arith)
]

minimal_scopes_cong :
    (m n : ScopeMap) (ks : List Text)
    → ((k : Text) → minimize_paths (paths_at m k) ≡ minimize_paths (paths_at n k))
    → minimal_scopes m ks ≡ minimal_scopes n ks
unfolding minimal_scopes
minimal_scopes_cong m n [] h = refl
minimal_scopes_cong m n (k ∷ ks) h = cc (h k, minimal_scopes_cong m n ks h)

module _ (rows others : List GrantRow)
    (same : (k t : Text) → any (row_covers k t) rows ≡ any (row_covers k t) others) where
  names_subset : (k : Text) → any (row_names k) rows ≡ true → any (row_names k) others ≡ true
  names_subset k h =
      let (t, c) = covered_of_named rows k h in named_of_covered others k t (sym (same k t) ∙ c)

  minimal_paths_eq :
      (k : Text)
      → minimize_paths (paths_at (group_rows [] rows) k)
        ≡ minimize_paths (paths_at (group_rows [] others) k)
  unfolding lookup
  minimal_paths_eq k =
      minimize_paths-canonical (paths_at (group_rows [] rows) k) (paths_at (group_rows [] others) k)
        λ t. covers-group_rows [] rows k t ∙ same k t ∙ sym (covers-group_rows [] others k t)

permissions_eq :
    (rows others : List GrantRow)
    → ((k t : Text) → any (row_covers k t) rows ≡ any (row_covers k t) others)
    → sort (keys (group_rows [] rows)) ≡ sort (keys (group_rows [] others))
permissions_eq rows others same = IsIncreasing-ext _ _ (increasing rows) (increasing others) λ k.
    includes-permissions rows k
    ∙ Bool-ext _ _ (names_subset rows others same k)
        (names_subset others rows (λ k t. sym (same k t)) k)
    ∙ sym (includes-permissions others k)
  where
    increasing : (l : List GrantRow) → IsIncreasing (sort (keys (group_rows [] l)))
    increasing l = sort-IsIncreasing (keys (group_rows [] l)) (keys-group_rows-IsDistinct [] l tt)

-- Two sets of rows that admit the same permissions at the same targets assemble to the same grants,
-- with the same keys and paths in the same order.
pub assemble_grants-canonical :
    (rows others : List GrantRow)
    → ((k t : Text)
        → covers_path (assemble_grants rows) k t ≡ covers_path (assemble_grants others) k t)
    → assemble_grants rows ≡ assemble_grants others
unfolding assemble_grants
assemble_grants-canonical rows others h =
    let same : (k t : Text) → any (row_covers k t) rows ≡ any (row_covers k t) others = λ k t.
      sym (covers_path-assemble_grants rows k t) ∙ h k t ∙ covers_path-assemble_grants others k t in
    let scopes_eq : minimal_scopes (group_rows [] rows) (sort (keys (group_rows [] rows)))
        ≡ minimal_scopes (group_rows [] others) (sort (keys (group_rows [] others))) =
      minimal_scopes_cong _ _ _ (minimal_paths_eq rows others same)
      ∙ ap (minimal_scopes (group_rows [] others)) (permissions_eq rows others same) in
    ap (λ (s : ScopeMap). record { permissions = keys s; scopes = s }) scopes_eq
