-- ===== src/Navigation/Walk.antt =====
-- The walk finds the visible nodes below a root, all of them and no other.
use mathlib.Core.List.{Memᴰ}
use plant_ops.Prelude.{
  ℕ, zero, suc, Text, eq_iff, eq_refl, true, false, ◌≡◌, refl, sym, ap, ◌⊎◌, inl, inr, arith, List,
  [], ◌∷◌, Option, none, some, Bool-cases, Memᴰ-filter, Memᴰ-filter_intro, any_of_Memᴰ, ◌>>=◌,
  same_option,
}
use plant_ops.Navigation.{
  NavCatalogNode, NavCatalog, NavTree, Forest, nil, cons, to_dto, container, push, children_of,
  has_children, visible_leaf, visible_node, visible_all, visible_among,
}
use plant_ops.Navigation.Visible.{
  IsVisible, by_gate, by_opt_in, by_child, Top, here, later, is_gated_open,
}

same_parent_iff : (a b : Option Text) → same_option a b ≡ true → a ≡ b
same_parent_iff none none h = refl
same_parent_iff none (some b) h = absurd (ground arith)
same_parent_iff (some a) none h = absurd (ground arith)
same_parent_iff (some a) (some b) h = ap some ((eq_iff a b).0 h)

same_parent_refl : (a b : Option Text) → a ≡ b → same_option a b ≡ true
same_parent_refl none b e = ap (same_option none) (sym e)
same_parent_refl (some a) b e = rw (← e) (eq_refl a)

pub bind-eq-some :
    {A B : Type 0} (m : Option A) (k : A → Option B) {b : B}
    → (m >>= k) ≡ some b
    → (a : A) × (m ≡ some a) × (k a ≡ some b)
bind-eq-some none k h = absurd (ground arith)
bind-eq-some (some a) k h = (a, refl, h)

push-Top :
    (kept : Option NavTree) (rest : Forest) (t : NavTree)
    → Top t (push kept rest)
    → (kept ≡ some t) ⊎ Top t rest
push-Top none rest t h = inr h
push-Top (some u) rest t here = inl refl
push-Top (some u) rest t (later h) = inr h

module _ (catalog : NavCatalog) (held : List Text) where
  unfoldable pub Child : Option Text → NavCatalogNode → Type 0
  Child parent n = Memᴰ n catalog.nodes × (n.parent_id ≡ parent)

  pub Child-of_mem :
      (parent : Option Text) (n : NavCatalogNode)
      → Memᴰ n (children_of catalog.nodes parent)
      → Child parent n
  unfolding children_of Child
  Child-of_mem parent n m =
      let (l, e) = Memᴰ-filter (λ n. same_option n.parent_id parent) catalog.nodes m in
      (l, same_parent_iff _ _ e)

  pub mem_of_child :
      (parent : Option Text) (n : NavCatalogNode)
      → Child parent n
      → Memᴰ n (children_of catalog.nodes parent)
  unfolding children_of Child
  mem_of_child parent n (l, e) =
      Memᴰ-filter_intro (λ n. same_option n.parent_id parent) l (same_parent_refl _ _ e)

  pub has_children-of_Child :
      (id : Text) (c : NavCatalogNode) → Child (some id) c → has_children catalog.nodes id ≡ true
  unfolding has_children Child
  has_children-of_Child id c (l, e) =
      any_of_Memᴰ (λ n. same_option n.parent_id (some id)) l (same_parent_refl _ _ e)

  module _ (among : Text → Option Forest) where
    pub visible_all-Top :
        (ns : List NavCatalogNode) (ts : Forest) (t : NavTree)
        → visible_all catalog held among ns ≡ some ts
        → Top t ts
        → (n : NavCatalogNode) × Memᴰ n ns × (visible_node catalog held among n ≡ some (some t))
    unfolding visible_all
    visible_all-Top [] ts t e h =
        let empty : nil ≡ ts = ground arith in elim (rw (← empty) at h) [ ]
    visible_all-Top (n ∷ ns) ts t e h =
        let (kept, ek, e') = bind-eq-some (visible_node catalog held among n) _ e in
        let (rest, er, es) = bind-eq-some (visible_all catalog held among ns) _ e' in
        let shape : push kept rest ≡ ts = ground arith in
        elim (push-Top kept rest t (rw (← shape) at h)) [
          | inl q ↦ (n, Memᴰ.head refl, rw q at ek)
          | inr later_one ↦
              let (m, l, v) = visible_all-Top ns rest t er later_one in (m, Memᴰ.tail l, v)
        ]

    pub visible_all-node :
        (ns : List NavCatalogNode) (ts : Forest) (n : NavCatalogNode)
        → visible_all catalog held among ns ≡ some ts
        → Memᴰ n ns
        → (kept : Option NavTree) × (visible_node catalog held among n ≡ some kept)
          × ((t : NavTree) → kept ≡ some t → Top t ts)
    unfolding visible_all
    visible_all-node [] ts n e m = elim m [ ]
    visible_all-node (k ∷ ns) ts n e m =
        let (kept, ek, e') = bind-eq-some (visible_node catalog held among k) _ e in
        let (rest, er, es) = bind-eq-some (visible_all catalog held among ns) _ e' in
        let shape : push kept rest ≡ ts = ground arith in
        head_or_tail k ns rest kept ek (visible_all-node ns rest n er) (λ t q. rw (← shape, q) here)
          (λ t h. rw (← shape) (push_later kept rest t h)) m
      where
        push_later :
            (kept : Option NavTree) (rest : Forest) (t : NavTree)
            → Top t rest
            → Top t (push kept rest)
        push_later none rest t h = h
        push_later (some u) rest t h = later h

        head_or_tail :
            (k : NavCatalogNode) (ns : List NavCatalogNode) (rest : Forest) (kept : Option NavTree)
            → visible_node catalog held among k ≡ some kept
            → (Memᴰ n ns
                → (kept : Option NavTree) × (visible_node catalog held among n ≡ some kept)
                  × ((t : NavTree) → kept ≡ some t → Top t rest))
            → ((t : NavTree) → kept ≡ some t → Top t ts)
            → ((t : NavTree) → Top t rest → Top t ts)
            → Memᴰ n (k ∷ ns)
            → (kept : Option NavTree) × (visible_node catalog held among n ≡ some kept)
              × ((t : NavTree) → kept ≡ some t → Top t ts)
        head_or_tail k ns rest kept ek ih first others (Memᴰ.head q) = (kept, rw q ek, first)
        head_or_tail k ns rest kept ek ih first others (Memᴰ.tail m) =
            let (kp, en, tops) = ih m in (kp, en, λ t q. others t (tops t q))

  -- What the walk knows of a node that it has kept with these children.
  unfoldable pub Expanded : ℕ → NavCatalogNode → Forest → Type 0
  Expanded fuel n children =
      ((has_children catalog.nodes n.id ≡ false) × (children ≡ nil))
      ⊎ ((has_children catalog.nodes n.id ≡ true)
          × (visible_among catalog held fuel (some n.id) ≡ some children))

  leaf-IsVisible :
      (n : NavCatalogNode) (t : NavTree)
      → has_children catalog.nodes n.id ≡ false
      → visible_leaf catalog held n ≡ some t
      → (t ≡ to_dto n nil) × IsVisible catalog held n
  unfolding visible_leaf
  leaf-IsVisible n t leaf e = elim (Bool-cases (is_gated_open catalog held n)) [
    | inl open_gate ↦ (ground arith, by_gate leaf open_gate)
    | inr shut ↦ (ground arith, by_opt_in leaf (ground arith) (ground arith))
  ]

  -- A tree is the record of a kept child of the parent, which is visible.
  unfoldable pub Kept : ℕ → Option Text → NavTree → Type 0
  Kept fuel parent t =
      (n : NavCatalogNode) × (children : Forest) × (t ≡ to_dto n children)
      × Child parent n
      × Expanded fuel n children
      × IsVisible catalog held n

  module _ (fuel : ℕ)
      (ih : (id : Text) (us : Forest) (u : NavTree)
        → visible_among catalog held fuel (some id) ≡ some us
        → Top u us
        → (c : NavCatalogNode) × Child (some id) c × IsVisible catalog held c) where
    container-Kept :
        (parent : Option Text) (n : NavCatalogNode) (children : Forest) (t : NavTree)
        → Child parent n
        → has_children catalog.nodes n.id ≡ true
        → visible_among catalog held fuel (some n.id) ≡ some children
        → container n children ≡ some t
        → Kept fuel parent t
    unfolding Kept Expanded Child
    container-Kept parent n nil t m has ek e = absurd (ground arith)
    container-Kept parent n (cons u us) t m has ek e =
        let (c, (l, q), v) = ih n.id (cons u us) u ek here in
        (n, cons u us, ground arith, m, inr (has, ek), by_child c l q v)

    node-Kept :
        (parent : Option Text) (n : NavCatalogNode) (t : NavTree)
        → Child parent n
        → visible_node catalog held (λ id. visible_among catalog held fuel (some id)) n
          ≡ some (some t)
        → Kept fuel parent t
    unfolding visible_node
    node-Kept parent n t m e = elim (Bool-cases (has_children catalog.nodes n.id)) [
      | inl has ↦
          let (children, ek, made) =
            bind-eq-some (visible_among catalog held fuel (some n.id)) (λ ts. some (container n ts))
              (rw has at e) in
          container-Kept parent n children t m has ek (some_inj made)
      | inr leaf ↦
          let (q, v) = leaf-IsVisible n t leaf (some_inj (rw leaf at e)) in
          unfold Kept Expanded in (n, nil, q, m, inl (leaf, refl), v)
    ]
      where
        some_inj : {A : Type 0} {a b : A} → some a ≡ some b → a ≡ b
        some_inj h = cc

  pub visible_among-Top :
      (fuel : ℕ) (parent : Option Text) (ts : Forest) (t : NavTree)
      → visible_among catalog held (suc fuel) parent ≡ some ts
      → Top t ts
      → Kept fuel parent t
  unfolding visible_among
  visible_among-Top zero parent ts t e h =
      let (n, m, v) = visible_all-Top (λ id. none) (children_of catalog.nodes parent) ts t e h in
      node-Kept zero (λ id us u none_left top. absurd (ground arith)) parent n t
        (Child-of_mem parent n m) v
  visible_among-Top (suc fuel) parent ts t e h =
      let among = λ (id : Text). visible_among catalog held (suc fuel) (some id) in
      let (n, m, v) = visible_all-Top among (children_of catalog.nodes parent) ts t e h in
      node-Kept (suc fuel)
        (λ id us u eu top. kept_child id u (visible_among-Top fuel (some id) us u eu top)) parent n
        t (Child-of_mem parent n m) v
    where
      kept_child :
          (id : Text) (u : NavTree)
          → Kept fuel (some id) u
          → (c : NavCatalogNode) × Child (some id) c × IsVisible catalog held c
      kept_child id u k = unfold Kept in (let (c, cs, q, m, x, v) = k in (c, m, v))
