-- ===== src/SortedSet/BTree/Indexed/Step.antt =====
-- The index after one splitLeaf or splitInternal (btree_index.go).
use redi_go.Prelude.{
  ℕ, suc, ◌+◌, ◌≤◌, ◌<◌, List, ◌∷◌, ◌++◌, ◌≡◌, ◌≢◌, refl, sym, ap, ◌∙◌, Bool, true, false,
  Bool-cases, inl, inr, some, arith, if◌then◌else◌, length, take, drop, take-drop, In,
  In-append_right, In-insert_cases, Distinct, ℕ_discrete,
}
use mathlib.Core.Path.{transport}
use redi_go.Go.Result.{ok}
use redi_go.SortedSet.BTree.{BTreeNode, Tree}
use redi_go.SortedSet.BTree.Add.{child_index, split_leaf, split_internal}
use redi_go.SortedSet.BTree.Indexed.{Indexed, cut_at, Distinct-behind, In-behind}
use redi_go.SortedSet.BTree.Leaves.{node, Chain, leaf_items}
use redi_go.SortedSet.BTree.Split.Chains.{Chain-leaf, Chain-past, Chain-cut, Leftmost-halves}
use redi_go.SortedSet.BTree.Split.Halves.{Halves, split_leaf_lem, split_internal_lem}
use redi_go.SortedSet.BTree.Split.Rewired.{leaves_stay, Rewired-Divided}
use redi_go.SortedSet.BTree.WellFormed.{WellFormed, also, with_height, also-cases}
use redi_go.SortedSet.BTree.WellFormed.Divided.{Divided}
use redi_go.SortedSet.BTree.WellFormed.Kept.{Divided-WellFormed}

-- The tree after a split of `p`, under `q`.
pub record Step (t t' : Tree) (live : ℕ → Bool) (height : ℕ → ℕ) (k l : ℕ) (ls : List ℕ)
    (bound p q : ℕ) : Type 0 where
  pub new_ls : List ℕ
  pub index :
      Indexed t'
        (also (length t.nodes) live)
        (with_height (length t.nodes) (height p) height)
        k
        l
        new_ls
        bound
  pub items : leaf_items t'.nodes (l ∷ new_ls) ≡ leaf_items t.nodes (l ∷ ls)
  pub root_same : t'.root ≡ t.root
  pub degree_same : t'.degree ≡ t.degree
  pub upper_items : length (node t'.nodes q).items ≡ suc (length (node t.nodes q).items)

module _ (t : Tree) (live : ℕ → Bool) (height : ℕ → ℕ) (k l : ℕ) (ls : List ℕ) (bound p q : ℕ)
    (index : Indexed t live height k l ls bound) (p_live : live p ≡ true)
    (up : (node t.nodes p).parent ≡ some q) (some_item : 1 ≤ length (node t.nodes p).items) where
  p_in : p < length t.nodes
  p_in = index.shape.inside p p_live

  upper : (live q ≡ true) × ((node t.nodes q).is_leaf ≡ false) × In p (node t.nodes q).children
  upper = index.shape.up p q p_live up

  q_in : q < length t.nodes
  q_in = index.shape.inside q upper.0

  apart : p ≢ q
  apart e =
      let i : height p ≡ height q = ap height e in
      absurd (omega (arith, i, (index.shape.down q p upper.0 upper.1 upper.2).2))

  module _ (ns' : List BTreeNode) (half : Halves t.nodes ns' p q) where
    divided :
        Divided t.nodes ns' p q
          (take (child_index p (node t.nodes q).children + 1) (node t.nodes q).children)
          (drop (child_index p (node t.nodes q).children + 1) (node t.nodes q).children)
          half.kept
          half.moved
    divided =
        Rewired-Divided t.nodes ns' p q half.left half.new half.promoted half.kept half.moved p_in
          q_in apart half.parts half.wired

    shape' :
        WellFormed ns'
          (also (length t.nodes) live)
          (with_height (length t.nodes) (height p) height)
          t.root
    shape' =
        Divided-WellFormed t.nodes ns' live height t.root p q _ _ half.kept half.moved index.shape
          p_live up divided

    leaf_before : (x : ℕ) → x < length t.nodes → (node ns' x).is_leaf ≡ (node t.nodes x).is_leaf
    leaf_before =
        leaves_stay t.nodes ns' p q half.left half.new half.promoted half.kept half.moved p_in q_in
          apart half.parts half.wired

    pointing_old : (x i : ℕ) → live x ≡ true → In i (node ns' x).items → i < bound
    pointing_old x i lx m = elim (ℕ_discrete x p) [
      | yes e ↦ index.pointing p i p_live (
          half.left_from i (
            transport (ap (In i) (ap (λ y. (node ns' y).items) e ∙ ap (λ b. b.0) half.wired.lower))
              m))
      | no far ↦ elim (ℕ_discrete x q) [
        | yes e ↦
            elim (In-insert_cases i half.promoted
              (take (child_index p (node t.nodes q).children) (node t.nodes q).items)
              (drop (child_index p (node t.nodes q).children) (node t.nodes q).items)
              (transport
                (ap (In i) (ap (λ y. (node ns' y).items) e ∙ ap (λ b. b.0) half.wired.upper)) m)) [
                  | inl s ↦
                      index.pointing p i p_live (
                        transport (ap (λ y. In y (node t.nodes p).items) (sym s))
                          half.promoted_from)
                  | inr old ↦ index.pointing q i upper.0 (
                      transport
                        (ap (In i) (
                          take-drop (child_index p (node t.nodes q).children)
                            (node t.nodes q).items))
                        old)
                ]
        | no other ↦ index.pointing x i lx (
            transport
              (ap (In i) (ap (λ b. b.0) (half.wired.others x (index.shape.inside x lx) far other)))
              m)
      ]
    ]

    pointing' :
        (x i : ℕ) → also (length t.nodes) live x ≡ true → In i (node ns' x).items → i < bound
    pointing' x i lx m = elim (also-cases (length t.nodes) x live lx) [
      | inl f ↦ index.pointing p i p_live (
          half.new_from i (
            transport
              (ap (In i) (ap (λ y. (node ns' y).items) f ∙ ap (λ n. n.items) half.wired.added)) m))
      | inr old ↦ pointing_old x i old m
    ]

    record Linked : Type 0 where
      pub new_leaves : List ℕ
      pub chain' : Chain ns' (some l) (l ∷ new_leaves)
      pub items' : leaf_items ns' (l ∷ new_leaves) ≡ leaf_items t.nodes (l ∷ ls)
      pub once' : Distinct (l ∷ new_leaves)
      pub all' :
          (x : ℕ)
          → also (length t.nodes) live x ≡ true
          → (node ns' x).is_leaf ≡ true
          → In x (l ∷ new_leaves)

    fresh_leaf : (x : ℕ) → x ≡ length t.nodes → (node ns' x).is_leaf ≡ (node t.nodes p).is_leaf
    fresh_leaf x f =
        ap (λ y. (node ns' y).is_leaf) f
        ∙ ap (λ n. n.is_leaf) half.wired.added
        ∙ half.parts.new_leaf

    fresh_out : ¬ (In (length t.nodes) (l ∷ ls))
    fresh_out i =
        let (lt, leaf) =
          Chain-leaf t.nodes (some l) (l ∷ ls) (length t.nodes) index.leaves.chain i in
        absurd (omega (arith, lt))

    linked_leaf : (node t.nodes p).is_leaf ≡ true → Linked
    linked_leaf leaf =
        let (xs, ys, zs, e, f) = cut_at p (length t.nodes) l ls (index.all p p_live leaf) in
        let (c, items) =
          Chain-cut t.nodes ns' p q half upper.1 (some l) xs ys
            (transport (ap Distinct e) index.once)
            (transport (ap (Chain t.nodes (some l)) e) index.leaves.chain) in
        record {
          new_leaves = zs;
          chain' = transport (ap (Chain ns' (some l)) f) c;
          items' = ap (leaf_items ns') (sym f) ∙ items ∙ ap (leaf_items t.nodes) (sym e);
          once' = transport (ap Distinct f) (
              Distinct-behind p (length t.nodes) xs ys (transport (ap Distinct e) index.once)
                (λ i. fresh_out (transport (ap (In (length t.nodes)) (sym e)) i)));
          all' = λ x lx isleaf.
              transport (ap (In x) f) (elim (also-cases (length t.nodes) x live lx) [
                | inl s ↦
                    transport (ap (λ y. In y (xs ++ p ∷ length t.nodes ∷ ys)) (sym s)) (
                      In-append_right (length t.nodes) xs (p ∷ length t.nodes ∷ ys)
                        (inr (inl refl)))
                | inr old ↦ In-behind x p (length t.nodes) xs ys (
                    transport (ap (In x) e)
                      (index.all x old (sym (leaf_before x (index.shape.inside x old)) ∙ isleaf)))
              ]);
        }

    linked_inner : (node t.nodes p).is_leaf ≡ false → Linked
    linked_inner inner =
        let out : ¬ (In p (l ∷ ls)) = λ i.
          let (lt, leaf) = Chain-leaf t.nodes (some l) (l ∷ ls) p index.leaves.chain i in
          absurd cc in
        let (c, items) =
          Chain-past t.nodes ns' p q half upper.1 (some l) (l ∷ ls) out index.leaves.chain in
        record {
          new_leaves = ls;
          chain' = c;
          items' = items;
          once' = index.once;
          all' = λ x lx isleaf. elim (also-cases (length t.nodes) x live lx) [
            | inl s ↦ absurd (let no_leaf = fresh_leaf x s in cc)
            | inr old ↦ index.all x old (sym (leaf_before x (index.shape.inside x old)) ∙ isleaf)
          ];
        }

    linked_lem : Linked
    linked_lem = elim (Bool-cases (node t.nodes p).is_leaf) [
      | inl leaf ↦ linked_leaf leaf
      | inr inner ↦ linked_inner inner
    ]

    step : Step t (record t { nodes = ns' }) live height k l ls bound p q
    step =
        let r = linked_lem in
        record {
          new_ls = r.new_leaves;
          index = record {
            shape = shape';
            leaves = record {
              first =
                  Leftmost-halves t.nodes ns' p q half p_in q_in apart upper.2 k t.root l
                    index.leaves.first;
              chain = r.chain';
            };
            once = r.once';
            all = r.all';
            pointing = pointing';
          };
          items = r.items';
          root_same = refl;
          degree_same = refl;
          upper_items = divided.upper_items;
        }

  -- The split of a leaf or of an inner node returns.
  pub split_one_lem :
      (t' : Tree) × ((if (node t.nodes p).is_leaf then split_leaf t p else split_internal t p)
        ≡ ok (t', q))
      × Step t t' live height k l ls bound p q
  split_one_lem = elim (Bool-cases (node t.nodes p).is_leaf) [
    | inl leaf ↦
        let (ns', e, half) =
          split_leaf_lem t live height t.root p q index.shape p_live up some_item leaf in
        (record t { nodes = ns' }, rw leaf e, step ns' half)
    | inr inner ↦
        let (ns', e, half) =
          split_internal_lem t live height t.root p q index.shape p_live up some_item inner in
        (record t { nodes = ns' }, rw inner e, step ns' half)
  ]
