-- ===== src/Navigation/Depth.antt =====
-- The walk ends: with distinct ids, a trail from a root visits no node twice, so a round for each
-- node is enough.
use mathlib.Core.List.{Memᴰ}
use plant_ops.Prelude.{
  ℕ, zero, suc, ◌+◌, ◌≤◌, ◌<◌, Text, ◌==◌, eq_iff, true, false, ◌≡◌, refl, sym, ap, ◌∙◌, inl, inr,
  arith, List, [], ◌∷◌, Option, none, some, Bool-cases, length, map, includes, IsDistinct,
  length-le_of_IsDistinct,
}
use plant_ops.Navigation.{
  NavCatalogNode, NavCatalog, Forest, nil, container, push, has_children, visible_leaf, visible_all,
  visible_among, prune_nav_tree,
}
use plant_ops.Navigation.Walk.{Child, Child-of_mem}

abbrev pub ids : List NavCatalogNode → List Text
ids nodes = map (λ n. n.id) nodes

includes-ids :
    {n : NavCatalogNode} {nodes : List NavCatalogNode}
    → Memᴰ n nodes
    → includes (ids nodes) n.id ≡ true
unfolding includes
includes-ids {n} (Memᴰ.head {x = b} q) =
    let same : n.id ≡ b.id = ap (λ (m : NavCatalogNode). m.id) q in
    let e = (eq_iff b.id n.id).1 (sym same) in ground arith
includes-ids (Memᴰ.tail m) = let ih = includes-ids m in ground arith

same_node :
    (n m : NavCatalogNode) (nodes : List NavCatalogNode)
    → IsDistinct (ids nodes)
    → Memᴰ n nodes
    → Memᴰ m nodes
    → n.id ≡ m.id
    → n ≡ m
same_node n m nodes d (Memᴰ.head p) (Memᴰ.head q) e = p ∙ sym q
same_node n m nodes d (Memᴰ.head {x = b} p) (Memᴰ.tail k) e =
    let h = includes-ids k in
    let at : b.id ≡ m.id = sym (ap (λ (x : NavCatalogNode). x.id) p) ∙ e in
    absurd (ground (arith, d.0, rw (← at) at h))
same_node n m nodes d (Memᴰ.tail k) (Memᴰ.head {x = b} q) e =
    let h = includes-ids k in
    let at : b.id ≡ n.id = sym (ap (λ (x : NavCatalogNode). x.id) q) ∙ sym e in
    absurd (ground (arith, d.0, rw (← at) at h))
same_node n m nodes d (Memᴰ.tail {xs = l} k) (Memᴰ.tail j) e = same_node n m l d.1 k j e

module _ (catalog : NavCatalog) (held : List Text) (unique : IsDistinct (ids catalog.nodes)) where
  -- The ids from a node up to its root, the node's own first.
  data Trail : Option Text → List Text → Type 0 where
    start :
        {parent : Option Text} {seen : List Text} → parent ≡ none → seen ≡ [] → Trail parent seen
    step :
        {parent : Option Text} {seen : List Text} (n : NavCatalogNode) (before : List Text)
        → parent ≡ some n.id
        → seen ≡ n.id ∷ before
        → Child catalog held n.parent_id n
        → Trail n.parent_id before
        → Trail parent seen

  Trail-length :
      {parent other : Option Text} {seen others : List Text}
      → Trail parent seen
      → Trail other others
      → parent ≡ other
      → length seen ≡ length others
  Trail-length (start p s) (start q t) e = ap length (s ∙ sym t)
  Trail-length (start p s) (step m b q t c r) e = absurd (ground arith)
  Trail-length (step n a p s c l) (start q t) e = absurd (ground arith)
  Trail-length (step n a p s c l) (step m b q t d r) e =
      let same_id : n.id ≡ m.id = some_inj (sym p ∙ e ∙ q) in
      let same : n ≡ m =
        same_node n m catalog.nodes unique (unfold Child in c.0) (unfold Child in d.0) same_id in
      let ih = Trail-length l r (ap (λ (x : NavCatalogNode). x.parent_id) same) in
      ap length s ∙ ap suc ih ∙ sym (ap length t)
    where
      some_inj : {x y : Text} → some x ≡ some y → x ≡ y
      some_inj h = cc

  -- A trail to any id on a trail, which is no longer.
  Trail-back :
      {parent : Option Text} {seen : List Text} (k : Text)
      → Trail parent seen
      → includes seen k ≡ true
      → (before : List Text) × Trail (some k) before × (length before ≤ length seen)
  unfolding includes
  Trail-back k (start p s) h = absurd (ground arith)
  Trail-back {seen} k (step n a p s c l) h = elim (Bool-cases (n.id == k)) [
    | inl e ↦ (seen, step n a (ap some (sym ((eq_iff n.id k).0 e))) s c l, omega arith)
    | inr e ↦
        let deeper : includes a k ≡ true = ground (arith, ap (λ l. includes l k) s) in
        let (b, t, le) = Trail-back k l deeper in (b, t, omega (arith, le, ap length s))
  ]

  Trail-IsDistinct : {parent : Option Text} {seen : List Text} → Trail parent seen → IsDistinct seen
  Trail-IsDistinct (start p s) = rw s tt
  Trail-IsDistinct (step n a p s c l) =
      let ih = Trail-IsDistinct l in
      let fresh : includes a n.id ≡ false = elim (Bool-cases (includes a n.id)) [
        | inr e ↦ e
        | inl e ↦
            let (b, t, le) = Trail-back n.id l e in
            absurd (omega (arith, Trail-length t (step n a refl refl c l) refl))
      ] in
      rw s (fresh, ih)

  Trail-includes :
      {parent : Option Text} {seen : List Text} (k : Text)
      → Trail parent seen
      → includes seen k ≡ true
      → includes (ids catalog.nodes) k ≡ true
  unfolding includes Child
  Trail-includes k (start p s) h = absurd (ground arith)
  Trail-includes k (step n a p s c l) h = elim (Bool-cases (n.id == k)) [
    | inl e ↦ rw (← (eq_iff n.id k).0 e) (includes-ids c.0)
    | inr e ↦ Trail-includes k l (ground (arith, ap (λ l. includes l k) s))
  ]

  length-map_ids : (nodes : List NavCatalogNode) → length (ids nodes) ≡ length nodes
  length-map_ids [] = refl
  length-map_ids (n ∷ nodes) = ap suc (length-map_ids nodes)

  Trail-length-le :
      {parent : Option Text} {seen : List Text}
      → Trail parent seen
      → length seen ≤ length catalog.nodes
  Trail-length-le {seen} t = omega (
    arith,
    length-le_of_IsDistinct seen (ids catalog.nodes) (Trail-IsDistinct t)
        (λ k h. Trail-includes k t h),
    length-map_ids catalog.nodes,
  )

  Ends : Option Forest → Type 0
  Ends o = (ts : Forest) × (o ≡ some ts)

  visible_all-Ends :
      (among : Text → Option Forest) (ns : List NavCatalogNode)
      → ((n : NavCatalogNode) → Memᴰ n ns → Ends (among n.id))
      → Ends (visible_all catalog held among ns)
  unfolding visible_all Ends
  visible_all-Ends among [] h = (nil, refl)
  visible_all-Ends among (n ∷ ns) h =
      let (us, eu) = h n (Memᴰ.head refl) in
      let (rest, er) = visible_all-Ends among ns (λ m k. h m (Memᴰ.tail k)) in
      elim (Bool-cases (has_children catalog.nodes n.id)) [
        | inl e ↦ (push (container n us) rest, rw (e, eu, er))
        | inr e ↦ (push (visible_leaf catalog held n) rest, rw (e, er))
      ]

  visible_among-Ends :
      (fuel : ℕ) (parent : Option Text) (seen : List Text)
      → Trail parent seen
      → length catalog.nodes < fuel + length seen
      → Ends (visible_among catalog held fuel parent)
  unfolding visible_among
  visible_among-Ends zero parent seen t enough = absurd (omega (arith, Trail-length-le t))
  visible_among-Ends (suc fuel) parent seen t enough = visible_all-Ends _ _ λ n m.
      visible_among-Ends fuel (some n.id) (n.id ∷ seen)
        (extend n (Child-of_mem catalog held parent n m)) (omega arith)
    where
      extend : (n : NavCatalogNode) → Child catalog held parent n → Trail (some n.id) (n.id ∷ seen)
      extend n c =
          let q : n.parent_id ≡ parent = unfold Child in c.1 in
          step n seen refl refl (unfold Child in (c.0, refl)) (rw q t)

  -- The rounds suffice: on a catalog whose ids are distinct, the walk returns a menu.
  pub prune_nav_tree-total : (ts : Forest) × (prune_nav_tree catalog held ≡ some ts)
  unfolding prune_nav_tree
  prune_nav_tree-total =
      unfold Ends in
      (visible_among-Ends (suc (length catalog.nodes)) none [] (start refl refl) (omega arith))
