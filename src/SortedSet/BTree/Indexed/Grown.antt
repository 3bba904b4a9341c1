-- ===== src/SortedSet/BTree/Indexed/Grown.antt =====
-- The index after the first part of splitRoot (btree_index.go), where the root gets a parent.
use redi_go.Prelude.{
  ℕ, suc, ◌≤◌, ◌<◌, List, ◌∷◌, ◌≡◌, refl, sym, ap, ◌∙◌, Bool, true, false, inl, inr, some, arith,
  length, get_elem?, In,
}
use mathlib.Core.Path.{transport}
use redi_go.Go.Result.{ok}
use redi_go.SortedSet.BTree.{Tree}
use redi_go.SortedSet.BTree.Add.{grow_root}
use redi_go.SortedSet.BTree.Indexed.{Indexed}
use redi_go.SortedSet.BTree.Leaves.{node, node_at-node, Chain, leaf_items}
use redi_go.SortedSet.BTree.Split.Chains.{Chain-leaf, Chain-same, Leftmost-same}
use redi_go.SortedSet.BTree.Split.Rewired.{body}
use redi_go.SortedSet.BTree.WellFormed.Grown.{
  new_root, grown, r_in, grown-length, grown-body, grown-fresh, grown-WellFormed,
}
use redi_go.SortedSet.BTree.WellFormed.{also, with_height, also-cases}

-- The call of `grow_root` returns.
module _ (t : Tree) (live : ℕ → Bool) (height : ℕ → ℕ) (k l : ℕ) (ls : List ℕ) (bound : ℕ)
    (index : Indexed t live height k l ls bound) where
  abbrev pub grown_tree : Tree
  grown_tree = record t { nodes = grown t.nodes t.root; root = length t.nodes }

  pub grow_root_lem : grow_root t ≡ ok grown_tree
  unfolding grow_root
  grow_root_lem =
      rw (node_at-node t.nodes t.root (r_in t.nodes live height t.root index.shape)) refl

  long : length t.nodes ≤ length (grown t.nodes t.root)
  long = omega (arith, grown-length t.nodes live height t.root index.shape)

  same : (x : ℕ) → x < length t.nodes → body (node (grown t.nodes t.root) x) ≡ body (node t.nodes x)
  same = grown-body t.nodes live height t.root index.shape

  fresh : node (grown t.nodes t.root) (length t.nodes) ≡ new_root t.root
  fresh = grown-fresh t.nodes live height t.root index.shape

  leaves_kept :
      Chain (grown t.nodes t.root) (some l) (l ∷ ls)
      × (leaf_items (grown t.nodes t.root) (l ∷ ls) ≡ leaf_items t.nodes (l ∷ ls))
  leaves_kept =
      Chain-same t.nodes (grown t.nodes t.root) (some l) (l ∷ ls) long
        (λ x i. same x (Chain-leaf t.nodes (some l) (l ∷ ls) x index.leaves.chain i).0)
        index.leaves.chain

  pub items-grown : leaf_items grown_tree.nodes (l ∷ ls) ≡ leaf_items t.nodes (l ∷ ls)
  items-grown = leaves_kept.1

  pub grown-Indexed :
      Indexed grown_tree
        (also (length t.nodes) live)
        (with_height (length t.nodes) (suc (height t.root)) height)
        (suc k)
        l
        ls
        bound
  grown-Indexed = record {
    shape = grown-WellFormed t.nodes live height t.root index.shape;
    leaves = record {
      first = (
        omega (arith, grown-length t.nodes live height t.root index.shape),
        ap (λ n. n.is_leaf) fresh,
        (
          t.root,
          ap (λ n. get_elem? n.children 0) fresh,
          Leftmost-same t.nodes (grown t.nodes t.root) k t.root l long
              (λ x lt. ap (λ b. b.2) (same x lt))
              (λ x lt inner. ap (λ b. get_elem? b.1 0) (same x lt)) index.leaves.first,
        ),
      );
      chain = leaves_kept.0;
    };
    once = index.once;
    all = λ x lx leaf. elim (also-cases (length t.nodes) x live lx) [
      | inl f ↦ absurd (
          let no_leaf : false ≡ true =
            sym (ap (λ y. (node (grown t.nodes t.root) y).is_leaf) f ∙ ap (λ n. n.is_leaf) fresh)
            ∙ leaf in
          cc)
      | inr old ↦ index.all x old (sym (ap (λ b. b.2) (same x (index.shape.inside x old))) ∙ leaf)
    ];
    pointing = λ x i lx m. elim (also-cases (length t.nodes) x live lx) [
      | inl f ↦ absurd (
          transport
            (ap (In i)
              (ap (λ y. (node (grown t.nodes t.root) y).items) f ∙ ap (λ n. n.items) fresh))
            m)
      | inr old ↦
          index.pointing x i old
            (transport (ap (In i) (ap (λ b. b.0) (same x (index.shape.inside x old)))) m)
    ];
  }
