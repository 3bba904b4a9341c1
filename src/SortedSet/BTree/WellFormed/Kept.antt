-- ===== src/SortedSet/BTree/WellFormed/Kept.antt =====
-- The invariant on the pointers after a division (splitLeaf and splitInternal of btree_index.go).
use redi_go.Prelude.{
  ℕ, suc, ◌≤◌, ◌<◌, List, ◌∷◌, ◌++◌, ◌≡◌, ◌≢◌, sym, ap, ◌∙◌, Bool, true, false, ◌⊎◌, inl, inr, none,
  some, arith, length, length-append, In, Distinct, Distinct-append_left, Distinct-append_right,
  In-inserted, Distinct-insert, in?, ℕ_discrete,
}
use mathlib.Core.Path.{transport}
use redi_go.SortedSet.BTree.{BTreeNode}
use redi_go.SortedSet.BTree.Leaves.{node}
use redi_go.SortedSet.BTree.WellFormed.Divided.{
  Divided, moved_was, inner_before, child_cases, child_stays,
}
use redi_go.SortedSet.BTree.WellFormed.{
  WellFormed, also, with_height, also-cases, also-old, also_self, with_height_self, with_height-old,
}

module _ (ns ns' : List BTreeNode) (live : ℕ → Bool) (height : ℕ → ℕ) (root p q : ℕ)
    (before after kept moved : List ℕ) (w : WellFormed ns live height root) (p_live : live p ≡ true)
    (up : (node ns p).parent ≡ some q) (d : Divided ns ns' p q before after kept moved) where
  live' : ℕ → Bool
  live' = also (length ns) live

  height' : ℕ → ℕ
  height' = with_height (length ns) (height p) height

  old_inside : (x : ℕ) → live x ≡ true → x < length ns
  old_inside x l = w.inside x l

  upper : (live q ≡ true) × ((node ns q).is_leaf ≡ false) × In p (node ns q).children
  upper = w.up p q p_live up

  above : height q ≡ suc (height p)
  above = (w.down q p upper.0 upper.1 upper.2).2

  parent_cases :
      (x : ℕ)
      → live x ≡ true
      → (In x moved × ((node ns' x).parent ≡ some (length ns)))
        ⊎ (¬ (In x moved) × ((node ns' x).parent ≡ (node ns x).parent))
  parent_cases x l = elim (in? x moved) [
    | inl i ↦ inl (i, d.moved_parent x (old_inside x l) i)
    | inr n ↦ inr (n, d.same_parent x (old_inside x l) n)
  ]

  new_top : (x : ℕ) → live' x ≡ true → (node ns' x).parent ≡ none → x ≡ root
  unfolding live'
  new_top x l e = elim (also-cases (length ns) x live l) [
    | inl f ↦ absurd (
        let s : (node ns' x).parent ≡ some q = ap (λ y. (node ns' y).parent) f ∙ d.fresh_parent in
        cc)
    | inr old ↦ elim (parent_cases x old) [
      | inl (i, to) ↦ absurd cc
      | inr (n, same) ↦ w.top x old (sym same ∙ e)
    ]
  ]

  new_top_root : (node ns' root).parent ≡ none
  new_top_root = elim (parent_cases root w.root_live) [
    | inl (i, to) ↦
        let (inner, l, was, h) =
          moved_was ns ns' live height root p q before after kept moved w p_live up d root i in
        absurd (let s : none ≡ some p = sym w.top_root ∙ was in cc)
    | inr (n, same) ↦ same ∙ w.top_root
  ]

  height-old : (x : ℕ) → live x ≡ true → height' x ≡ height x
  unfolding height'
  height-old x l = with_height-old (length ns) (height p) x height (old_inside x l)

  height-fresh : height' (length ns) ≡ height p
  unfolding height'
  height-fresh = with_height_self (length ns) (height p) height

  new_low : (x : ℕ) → live' x ≡ true → height' x ≤ height' root
  unfolding live'
  new_low x l = elim (also-cases (length ns) x live l) [
    | inl f ↦
        let s : height' x ≡ height p = ap height' f ∙ height-fresh in
        omega (arith, s, height-old root w.root_live, w.low p p_live)
    | inr old ↦ omega (arith, height-old x old, height-old root w.root_live, w.low x old)
  ]

  Hangs : ℕ → ℕ → Type 0
  Hangs x r = (live' r ≡ true) × ((node ns' r).is_leaf ≡ false) × In x (node ns' r).children

  up_old : (x r : ℕ) → live x ≡ true → ¬ (In x moved) → (node ns x).parent ≡ some r → Hangs x r
  unfolding Hangs live'
  up_old x r l n e =
      let (rl, inner, i) = w.up x r l e in
      (
        also-old (length ns) r live rl,
        d.same_leaf r (old_inside r rl) ∙ inner,
        child_stays ns ns' live height root p q before after kept moved w p_live up d r x rl inner i
            n,
      )

  new_up : (x r : ℕ) → live' x ≡ true → (node ns' x).parent ≡ some r → Hangs x r
  unfolding Hangs live'
  new_up x r l e = elim (also-cases (length ns) x live l) [
    | inl f ↦
        let s : some r ≡ some q = sym e ∙ ap (λ y. (node ns' y).parent) f ∙ d.fresh_parent in
        let t : r ≡ q = cc in
        (
          rw t (also-old (length ns) q live upper.0),
          transport (ap (λ y. (node ns' y).is_leaf ≡ false) (sym t))
              (d.same_leaf q (old_inside q upper.0) ∙ upper.1),
          transport (ap (λ y. In x (node ns' y).children) (sym t))
              (rw (f, d.upper_children) (In-inserted (length ns) before after)),
        )
    | inr old ↦ elim (parent_cases x old) [
      | inl (i, to) ↦
          let s : some r ≡ some (length ns) = sym e ∙ to in
          let t : r ≡ length ns = cc in
          (
            rw t (also_self (length ns) live),
            transport (ap (λ y. (node ns' y).is_leaf ≡ false) (sym t)) (
                d.fresh_leaf
                ∙ (moved_was ns ns' live height root p q before after kept moved w p_live up d x
                    i).0),
            transport (ap (λ y. In x (node ns' y).children) (sym t))
                (transport (ap (In x) (sym d.fresh_children)) i),
          )
      | inr (n, same) ↦ up_old x r old n (sym same ∙ e)
    ]
  ]

  Holds : ℕ → ℕ → Type 0
  Holds r c = (live' c ≡ true) × ((node ns' c).parent ≡ some r) × (height' r ≡ suc (height' c))

  down_fresh : (c : ℕ) → In c (node ns' (length ns)).children → Holds (length ns) c
  unfolding Holds live'
  down_fresh c i =
      let m : In c moved = transport (ap (In c) d.fresh_children) i in
      let (inner, l, was, h) =
        moved_was ns ns' live height root p q before after kept moved w p_live up d c m in
      (
        also-old (length ns) c live l,
        d.moved_parent c (old_inside c l) m,
        height-fresh ∙ h ∙ ap suc (sym (height-old c l)),
      )

  down_old :
      (r c : ℕ)
      → live r ≡ true
      → (node ns' r).is_leaf ≡ false
      → In c (node ns' r).children
      → Holds r c
  unfolding Holds live'
  down_old r c l inner i =
      elim (child_cases ns ns' live height root p q before after kept moved w p_live up d r c l
        inner i) [
          | inl (f, e) ↦ (
            rw f (also_self (length ns) live),
            ap (λ y. (node ns' y).parent) f ∙ d.fresh_parent ∙ ap some (sym e),
            height-old r l ∙ ap height e ∙ above ∙ ap suc (sym height-fresh ∙ ap height' (sym f)),
          )
          | inr (j, n) ↦
              let (cl, was, h) =
                w.down r c l
                  (inner_before ns ns' live height root p q before after kept moved w p_live up d r
                    l inner)
                  j in
              (
                also-old (length ns) c live cl,
                d.same_parent c (old_inside c cl) n ∙ was,
                height-old r l ∙ h ∙ ap suc (sym (height-old c cl)),
              )
        ]

  new_down :
      (r c : ℕ)
      → live' r ≡ true
      → (node ns' r).is_leaf ≡ false
      → In c (node ns' r).children
      → Holds r c
  unfolding live'
  new_down r c l inner i = elim (also-cases (length ns) r live l) [
    | inl f ↦
        transport (ap (λ y. Holds y c) (sym f))
          (down_fresh c (transport (ap (λ y. In c (node ns' y).children) f) i))
    | inr old ↦ down_old r c old inner i
  ]

  -- What holds of the fresh node, of `q`, of `p` and of a node that is none of these holds of all.
  everywhere :
      (P : BTreeNode → Type 0)
      → ((node ns' (length ns)).is_leaf ≡ false → P (node ns' (length ns)))
      → P (node ns' q)
      → ((node ns' p).is_leaf ≡ false → P (node ns' p))
      → ((r : ℕ) → live r ≡ true → (node ns' r).is_leaf ≡ false → r ≢ p → r ≢ q → P (node ns' r))
      → (r : ℕ) → live' r ≡ true
      → (node ns' r).is_leaf ≡ false
      → P (node ns' r)
  unfolding live'
  everywhere P of_fresh of_q of_p others r l inner = elim (also-cases (length ns) r live l) [
    | inl f ↦
        transport (ap (λ y. P (node ns' y)) (sym f))
          (of_fresh (transport (ap (λ y. (node ns' y).is_leaf ≡ false) f) inner))
    | inr old ↦ elim (ℕ_discrete r q) [
      | yes e ↦ transport (ap (λ y. P (node ns' y)) (sym e)) of_q
      | no ne ↦ elim (ℕ_discrete r p) [
        | yes e ↦
            transport (ap (λ y. P (node ns' y)) (sym e))
              (of_p (transport (ap (λ y. (node ns' y).is_leaf ≡ false) e) inner))
        | no other ↦ others r old inner other ne
      ]
    ]
  ]

  new_full :
      (r : ℕ)
      → live' r ≡ true
      → (node ns' r).is_leaf ≡ false
      → length (node ns' r).children ≡ suc (length (node ns' r).items)
  new_full =
      everywhere (λ n. length n.children ≡ suc (length n.items))
        (λ inner. ap length d.fresh_children ∙ d.fresh_full inner)
        (omega (
          arith,
          ap length d.upper_children,
          length-append before (length ns ∷ after),
          ap length d.around,
          length-append before after,
          d.upper_items,
          w.full q upper.0 upper.1,
        ))
        (λ inner. ap length (d.lower_children inner) ∙ d.lower_full inner)
        (λ r l inner other ne.
          ap length (d.same_children r (old_inside r l) other ne)
          ∙ w.full r l (
              inner_before ns ns' live height root p q before after kept moved w p_live up d r l
                inner)
          ∙ ap (λ is. suc (length is)) (sym (d.same_items r (old_inside r l) other ne)))

  fresh-out : ¬ (In (length ns) (before ++ after))
  fresh-out i =
      let j : In (length ns) (node ns q).children =
        transport (ap (In (length ns)) (sym d.around)) i in
      absurd (
        let lt : length ns < length ns =
          old_inside (length ns) (w.down q (length ns) upper.0 upper.1 j).0 in
        omega (arith, lt))

  divided : (inner : (node ns p).is_leaf ≡ false) → Distinct (kept ++ moved)
  divided inner = transport (ap Distinct (d.split inner)) (w.distinct p p_live inner)

  all_different :
      (r : ℕ) → live' r ≡ true → (node ns' r).is_leaf ≡ false → Distinct (node ns' r).children
  all_different =
      everywhere (λ n. Distinct n.children)
        (λ inner.
          transport (ap Distinct (sym d.fresh_children))
            (Distinct-append_right kept moved (divided (sym d.fresh_leaf ∙ inner))))
        (transport (ap Distinct (sym d.upper_children)) (
          Distinct-insert (length ns) before after
            (transport (ap Distinct d.around) (w.distinct q upper.0 upper.1)) fresh-out))
        (λ inner. transport (ap Distinct (sym (d.lower_children inner))) (
          Distinct-append_left kept moved (
            divided (
              inner_before ns ns' live height root p q before after kept moved w p_live up d p
                p_live inner))))
        (λ r l inner other ne.
          transport (ap Distinct (sym (d.same_children r (old_inside r l) other ne))) (
            w.distinct r l (
              inner_before ns ns' live height root p q before after kept moved w p_live up d r l
                inner)))

  -- A division keeps the invariant, with the fresh node as high as the divided one.
  pub Divided-WellFormed :
      WellFormed ns' (also (length ns) live) (with_height (length ns) (height p) height) root
  unfolding live' height' Hangs Holds
  Divided-WellFormed = record {
    root_live = also-old (length ns) root live w.root_live;
    inside = λ x l. elim (also-cases (length ns) x live l) [
      | inl f ↦ omega (arith, f, d.grown)
      | inr old ↦ omega (arith, old_inside x old, d.grown)
    ];
    top = new_top;
    top_root = new_top_root;
    low = new_low;
    up = new_up;
    down = new_down;
    full = new_full;
    distinct = all_different;
  }
