-- ===== src/SortedSet/BTree/Indexed/SplitNode.antt =====
-- splitNode and splitRoot of btree_index.go on an index with its invariant.
use redi_go.Prelude.{
  ℕ, zero, suc, ◌+◌, ◌≤◌, ◌<◌, List, ◌∷◌, ◌≡◌, refl, ap, ◌∙◌, Bool, true, false, Bool-cases, inl,
  inr, ◌⊎◌, Option, none, some, arith, if◌then◌else◌, leb, length,
}
use mathlib.Core.Path.{transport}
use redi_go.Go.Result.{Result, ok, ◌>>=◌}
use redi_go.SortedSet.BTree.{Tree, node_at}
use redi_go.SortedSet.BTree.Add.{grow_root, split_leaf, split_internal, split_child, split_node}
use redi_go.SortedSet.BTree.Indexed.{Indexed}
use redi_go.SortedSet.BTree.Indexed.Grown.{grown_tree, grow_root_lem, items-grown, grown-Indexed}
use redi_go.SortedSet.BTree.WellFormed.Grown.{grown-fresh, grown-root, grown-body}
use redi_go.SortedSet.BTree.Indexed.Step.{split_one_lem}
use redi_go.SortedSet.BTree.Leaves.{node, node_at-node, leaf_items}
use redi_go.SortedSet.BTree.WellFormed.{
  also, also-old, with_height, with_height_self, with_height-old,
}

-- An index `t'`, no higher than `top`, whose leaves begin at `l` and hold the items `is`.
pub record Holding (t' : Tree) (l bound degree top : ℕ) (is : List ℕ) : Type 0 where
  pub live : ℕ → Bool
  pub height : ℕ → ℕ
  pub levels : ℕ
  pub others : List ℕ
  pub index : Indexed t' live height levels l others bound
  pub items : leaf_items t'.nodes (l ∷ others) ≡ is
  pub degree_same : t'.degree ≡ degree
  pub high : height t'.root ≤ top

pub Option-cases : {A : Type 0} (o : Option A) → (o ≡ none) ⊎ ((a : A) × (o ≡ some a))
Option-cases none = inl refl
Option-cases (some a) = inr (a, refl)

-- A split of one node, and what is done with the parent.
split_child_lem :
    (again : Tree → ℕ → Result Tree) (t t' : Tree) (p q : ℕ)
    → p < length t.nodes
    → ((if (node t.nodes p).is_leaf then split_leaf t p else split_internal t p) ≡ ok (t', q))
    → q < length t'.nodes
    → split_child again t p
      ≡ (if leb t.degree (length (node t'.nodes q).items) then again t' q else ok t')
unfolding split_child
split_child_lem again t t' p q p_in e q_in = rw (node_at-node t.nodes p p_in) (
    ap
      (λ m. m >>= λ r. node_at r.0.nodes r.1 >>= λ parent.
        if leb t.degree (length parent.items) then again r.0 r.1 else ok r.0)
      e
    ∙ rw (node_at-node t'.nodes q q_in) refl)

split_node_lem_by :
    (fuel : ℕ) (t : Tree) (p : ℕ) (o : Option ℕ)
    → p < length t.nodes
    → (node t.nodes p).parent ≡ o
    → split_node (suc fuel) t p ≡ (elim o [
      | some q ↦ split_child (split_node fuel) t p
      | none ↦ grow_root t >>= λ g. split_child (split_node fuel) g t.root
    ])
unfolding split_node
split_node_lem_by fuel t p o inside e = rw (node_at-node t.nodes p inside) (
    ap
      (λ (o : Option ℕ). elim o as (λ o. Result Tree) [
        | some q ↦ split_child (split_node fuel) t p
        | none ↦ grow_root t >>= λ g. split_child (split_node fuel) g t.root
      ])
      e)

module _ (l bound : ℕ) (is : List ℕ) where
  -- The split of the root, which has no parent.
  split_root_lem :
      (again : Tree → ℕ → Result Tree) (t : Tree) (live : ℕ → Bool) (height : ℕ → ℕ) (k : ℕ)
      (ls : List ℕ)
      → Indexed t live height k l ls bound
      → leaf_items t.nodes (l ∷ ls) ≡ is
      → 2 ≤ t.degree
      → 1 ≤ length (node t.nodes t.root).items
      → (t' : Tree) × ((grow_root t >>= λ g. split_child again g t.root) ≡ ok t')
        × Holding t' l bound t.degree (suc (height t.root)) is
  split_root_lem again t live height k ls index items wide some_item =
      let grown = grown-Indexed t live height k l ls bound index in
      let root_in = index.shape.inside t.root index.shape.root_live in
      let g = grown_tree t live height k l ls bound index in
      let up = grown-root t.nodes live height t.root index.shape in
      let fresh = grown-fresh t.nodes live height t.root index.shape in
      let height1 = with_height (length t.nodes) (suc (height t.root)) height in
      let root_live = also-old (length t.nodes) t.root live index.shape.root_live in
      let (t', e, s) =
        split_one_lem g _ _ (suc k) l ls bound t.root (length t.nodes) grown root_live up (
          omega (
            arith,
            some_item,
            ap (λ b. length b.0) (grown-body t.nodes live height t.root index.shape t.root root_in),
          )) in
      let q_in : length t.nodes < length t'.nodes = s.index.shape.inside (length t.nodes) (
        also-old (length g.nodes) (length t.nodes) (also (length t.nodes) live)
          grown.shape.root_live) in
      let one : length (node t'.nodes (length t.nodes)).items ≡ 1 =
        s.upper_items ∙ ap (λ n. suc (length n.items)) fresh in
      let room : leb t.degree (length (node t'.nodes (length t.nodes)).items) ≡ false =
        ground (arith, one) in
      (
        t',
        rw (grow_root_lem t live height k l ls bound index) (
            split_child_lem again g t' t.root (length t.nodes) (grown.shape.inside t.root root_live)
              e q_in
            ∙ rw room refl),
        record {
          live = _;
          height = _;
          levels = suc k;
          others = s.new_ls;
          index = s.index;
          items = s.items ∙ items-grown t live height k l ls bound index ∙ items;
          degree_same = s.degree_same;
          high = omega (
            arith,
            ap (with_height (length g.nodes) (height1 t.root) height1) s.root_same,
            with_height-old (length g.nodes) (height1 t.root) (length t.nodes) height1
                (grown.shape.inside (length t.nodes) grown.shape.root_live),
            with_height_self (length t.nodes) (suc (height t.root)) height,
          );
        },
      )

  -- On an index with its invariant, of a degree of at least 2, with a node that has an item, and with more fuel
  -- than there are levels above the node, `splitNode` of that node returns. The new index has the invariant, is at
  -- most one level higher, and its leaves hold the same items in the same order.
  pub split_node_lem :
      (fuel : ℕ) (t : Tree) (live : ℕ → Bool) (height : ℕ → ℕ) (k : ℕ) (ls : List ℕ) (p : ℕ)
      → Indexed t live height k l ls bound
      → leaf_items t.nodes (l ∷ ls) ≡ is
      → live p ≡ true
      → 2 ≤ t.degree
      → 1 ≤ length (node t.nodes p).items
      → height t.root < fuel + height p
      → (t' : Tree) × (split_node fuel t p ≡ ok t')
        × Holding t' l bound t.degree (suc (height t.root)) is
  unfolding split_node
  split_node_lem zero t live height k ls p index items lp wide some_item enough =
      absurd (let low = index.shape.low p lp in omega (arith, low))
  split_node_lem (suc fuel) t live height k ls p index items lp wide some_item enough =
      elim (Option-cases (node t.nodes p).parent) [
        | inl top ↦
            let root : p ≡ t.root = index.shape.top p lp top in
            let (t', e, r) =
              split_root_lem (split_node fuel) t live height k ls index items wide
                (transport (ap (λ x. 1 ≤ length (node t.nodes x).items) root) some_item) in
            (t', split_node_lem_by fuel t p none (index.shape.inside p lp) top ∙ e, r)
        | inr (q, up) ↦
            let (t1, e, s) = split_one_lem t live height k l ls bound p q index lp up some_item in
            let (lq, inner, child) = index.shape.up p q lp up in
            let above : height q ≡ suc (height p) = (index.shape.down q p lq inner child).2 in
            let lq' = also-old (length t.nodes) q live lq in
            let level =
              ap (with_height (length t.nodes) (height p) height) s.root_same
              ∙ with_height-old (length t.nodes) (height p) t.root height
                  (index.shape.inside t.root index.shape.root_live) in
            let once =
              split_child_lem (split_node fuel) t t1 p q (index.shape.inside p lp) e
                (s.index.shape.inside q lq') in
            let again =
              split_node_lem fuel t1 _ _ k s.new_ls q s.index (s.items ∙ items) lq'
                (omega (arith, s.degree_same, wide)) (omega (arith, s.upper_items))
                (omega (
                  arith,
                  enough,
                  above,
                  level,
                  with_height-old (length t.nodes) (height p) q height (index.shape.inside q lq),
                )) in
            elim (Bool-cases (leb t.degree (length (node t1.nodes q).items))) [
              | inl more ↦
                  let (t', f, r) = again in
                  (
                    t',
                    split_node_lem_by fuel t p (some q) (index.shape.inside p lp) up
                        ∙ once
                        ∙ rw more f,
                    transport
                        (ap (λ d. Holding t' l bound d (suc (height t.root)) is) s.degree_same)
                        (transport (ap (λ n. Holding t' l bound t1.degree (suc n) is) level) r),
                  )
              | inr room ↦ (
                t1,
                split_node_lem_by fuel t p (some q) (index.shape.inside p lp) up
                    ∙ once
                    ∙ rw room refl,
                record {
                  live = _;
                  height = _;
                  levels = k;
                  others = s.new_ls;
                  index = s.index;
                  items = s.items ∙ items;
                  degree_same = s.degree_same;
                  high = omega (arith, level);
                },
              )
            ]
      ]
