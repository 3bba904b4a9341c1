-- ===== src/SortedSet/BTree/Indexed/Relabel.antt =====
-- An index of btree_index.go with other items in a leaf.
use redi_go.Prelude.{
  ℕ, suc, ◌≤◌, ◌<◌, List, [], ◌∷◌, ◌++◌, append_assoc, ◌≡◌, ◌≢◌, refl, sym, ap, ◌∙◌, Bool, true,
  false, inl, inr, Option, some, arith, length, length-set, get_elem?, set, In, Distinct,
  get_or-set_self, get_or-set_ne, ℕ_discrete,
}
use mathlib.Core.Path.{transport}
use redi_go.SortedSet.BTree.{BTreeNode, Tree, empty_leaf}
use redi_go.SortedSet.BTree.Add.{write}
use redi_go.SortedSet.BTree.Indexed.{Indexed}
use redi_go.SortedSet.BTree.Leaves.{node, Chain, leaf_items}
use redi_go.SortedSet.BTree.Split.Chains.{Leftmost-same}
use redi_go.SortedSet.BTree.WellFormed.{WellFormed}

abbrev frame : BTreeNode → List ℕ × Bool × Option ℕ × Option ℕ
frame n = (n.children, n.is_leaf, n.parent, n.next)

module _ (t : Tree) (live : ℕ → Bool) (height : ℕ → ℕ) (k l : ℕ) (ls : List ℕ) (bound p : ℕ)
    (js : List ℕ) (index : Indexed t live height k l ls bound) (p_live : live p ≡ true)
    (leaf : (node t.nodes p).is_leaf ≡ true) where
  abbrev relabelled : List BTreeNode
  relabelled = set t.nodes p (record (node t.nodes p) { items = js })

  at_p : node relabelled p ≡ record (node t.nodes p) { items = js }
  at_p = get_or-set_self t.nodes p _ empty_leaf (index.shape.inside p p_live)

  elsewhere : (x : ℕ) → x ≢ p → node relabelled x ≡ node t.nodes x
  elsewhere x ne = get_or-set_ne t.nodes p x _ empty_leaf (λ e. ne (sym e))

  frames : (x : ℕ) → frame (node relabelled x) ≡ frame (node t.nodes x)
  frames x = elim (ℕ_discrete x p) [
    | yes e ↦
        ap (λ y. frame (node relabelled y)) e
        ∙ ap frame at_p
        ∙ ap (λ y. frame (node t.nodes y)) (sym e)
    | no ne ↦ ap frame (elsewhere x ne)
  ]

  len : length relabelled ≡ length t.nodes
  len = length-set t.nodes p _

  inner_same :
      (x : ℕ)
      → (node relabelled x).is_leaf ≡ false
      → (node relabelled x).items ≡ (node t.nodes x).items
  inner_same x inner = elim (ℕ_discrete x p) [
    | yes e ↦ absurd (
        let no_leaf : true ≡ false =
          sym leaf
          ∙ ap (λ y. (node t.nodes y).is_leaf) (sym e)
          ∙ sym (ap (λ f. f.1) (frames x))
          ∙ inner in
        cc)
    | no ne ↦ ap (λ n. n.items) (elsewhere x ne)
  ]

  leaf_was : (x : ℕ) (b : Bool) → (node relabelled x).is_leaf ≡ b → (node t.nodes x).is_leaf ≡ b
  leaf_was x b e = sym (ap (λ f. f.1) (frames x)) ∙ e

  shape' : WellFormed relabelled live height t.root
  shape' =
      let w = index.shape in
      record {
        root_live = w.root_live;
        inside = λ x lx. omega (arith, len, w.inside x lx);
        top = λ x lx e. w.top x lx (sym (ap (λ f. f.2) (frames x)) ∙ e);
        top_root = ap (λ f. f.2) (frames t.root) ∙ w.top_root;
        low = w.low;
        up = λ x q lx e.
            let (lq, inner, i) = w.up x q lx (sym (ap (λ f. f.2) (frames x)) ∙ e) in
            (
              lq,
              ap (λ f. f.1) (frames q) ∙ inner,
              transport (ap (In x) (sym (ap (λ f. f.0) (frames q)))) i,
            );
        down = λ q c lq inner i.
            let (lc, up, h) =
              w.down q c lq (leaf_was q false inner)
                (transport (ap (In c) (ap (λ f. f.0) (frames q))) i) in
            (lc, ap (λ f. f.2) (frames c) ∙ up, h);
        full = λ q lq inner.
            ap (λ f. length f.0) (frames q)
            ∙ w.full q lq (leaf_was q false inner)
            ∙ ap (λ is. suc (length is)) (sym (inner_same q inner));
        distinct = λ q lq inner.
            transport (ap Distinct (sym (ap (λ f. f.0) (frames q))))
              (w.distinct q lq (leaf_was q false inner));
      }

  chain' : (start : Option ℕ) (ps : List ℕ) → Chain t.nodes start ps → Chain relabelled start ps
  chain' start [] c = c
  chain' start (x ∷ xs) (e, inside, isleaf, c) = (
    e,
    omega (arith, len),
    ap (λ f. f.1) (frames x) ∙ isleaf,
    transport (ap (λ n. Chain relabelled n xs) (sym (ap (λ f. f.3) (frames x))))
        (chain' (node t.nodes x).next xs c),
  )

  items_past : (ps : List ℕ) → ¬ (In p ps) → leaf_items relabelled ps ≡ leaf_items t.nodes ps
  items_past [] out = refl
  items_past (x ∷ xs) out =
      ap (λ n. n.items ++ leaf_items relabelled xs) (elsewhere x (λ e. out (inl (sym e))))
      ∙ ap (λ is. (node t.nodes x).items ++ is) (items_past xs (λ i. out (inr i)))

  -- The items before and behind those of the leaf `p`.
  items_around :
      (ps : List ℕ)
      → In p ps
      → Distinct ps
      → (before : List ℕ) × (after : List ℕ) × (leaf_items t.nodes ps
          ≡ before ++ ((node t.nodes p).items ++ after))
        × (leaf_items relabelled ps ≡ before ++ (js ++ after))
  items_around [] i d = elim i [ ]
  items_around (x ∷ xs) (inl e) (out, d) = (
    [],
    leaf_items t.nodes xs,
    ap (λ y. (node t.nodes y).items ++ leaf_items t.nodes xs) (sym e),
    ap (λ y. (node relabelled y).items ++ leaf_items relabelled xs) (sym e)
        ∙ ap (λ n. n.items ++ leaf_items relabelled xs) at_p
        ∙ ap (λ is. js ++ is) (items_past xs (λ i. out (transport (ap (λ y. In y xs) e) i))),
  )
  items_around (x ∷ xs) (inr i) (out, d) =
      let (before, after, e, f) = items_around xs i d in
      let far : x ≢ p = λ s. out (transport (ap (λ y. In y xs) (sym s)) i) in
      (
        (node t.nodes x).items ++ before,
        after,
        ap (λ is. (node t.nodes x).items ++ is) e
            ∙ sym (append_assoc (node t.nodes x).items before _),
        ap (λ n. n.items ++ leaf_items relabelled xs) (elsewhere x far)
            ∙ ap (λ is. (node t.nodes x).items ++ is) f
            ∙ sym (append_assoc (node t.nodes x).items before _),
      )

  pub relabel-Indexed :
      (bound' : ℕ)
      → bound ≤ bound'
      → ((i : ℕ) → In i js → i < bound')
      → Indexed (write t p (record (node t.nodes p) { items = js })) live height k l ls bound'
  relabel-Indexed bound' le inside = record {
    shape = shape';
    leaves = record {
      first =
          Leftmost-same t.nodes relabelled k t.root l (omega (arith, len))
            (λ x lt. ap (λ f. f.1) (frames x)) (λ x lt inner. ap (λ f. get_elem? f.0 0) (frames x))
            index.leaves.first;
      chain = chain' (some l) (l ∷ ls) index.leaves.chain;
    };
    once = index.once;
    all = λ x lx isleaf. index.all x lx (leaf_was x true isleaf);
    pointing = λ x i lx m. elim (ℕ_discrete x p) [
      | yes e ↦
          inside i (
            transport (ap (In i) (ap (λ y. (node relabelled y).items) e ∙ ap (λ n. n.items) at_p))
              m)
      | no ne ↦
          let lt =
            index.pointing x i lx (transport (ap (In i) (ap (λ n. n.items) (elsewhere x ne))) m) in
          omega (arith, le, lt)
    ];
  }

  pub relabel-items :
      (before : List ℕ) × (after : List ℕ) × (leaf_items t.nodes (l ∷ ls)
        ≡ before ++ ((node t.nodes p).items ++ after))
      × (leaf_items relabelled (l ∷ ls) ≡ before ++ (js ++ after))
  relabel-items = items_around (l ∷ ls) (index.all p p_live leaf) index.once

  pub relabel-p : node relabelled p ≡ record (node t.nodes p) { items = js }
  relabel-p = at_p
