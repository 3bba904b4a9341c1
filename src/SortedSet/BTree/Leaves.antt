-- ===== src/SortedSet/BTree/Leaves.antt =====
-- The leaves of the index of internal/data_structure/sorted_set/btree_index.go as one list of items.
use redi_go.Prelude.{
  ℕ, zero, suc, ◌<◌, List, [], ◌∷◌, ◌++◌, ◌≡◌, refl, ap, Bool, true, false, Option, none, some,
  arith, if◌then◌else◌, length, get_elem?, get_or, get_elem?-get_or,
}
use redi_go.Go.Result.{Result, ok, err, panic, hang, ◌>>=◌}
use redi_go.SortedSet.BTree.{
  BTreeNode, Tree, empty_leaf, first_leaf, visit_items, walk_leaves, walk, node_at,
}

-- The node at a pointer of the store.
abbrev pub node : List BTreeNode → ℕ → BTreeNode
node ns p = get_or ns p empty_leaf

pub node_at-node : (ns : List BTreeNode) (p : ℕ) → p < length ns → node_at ns p ≡ ok (node ns p)
node_at-node ns p lt = rw (get_elem?-get_or ns p empty_leaf lt) refl

-- The pointers `Next` lead from `start` through the leaves `ls` and end there.
abbrev pub Chain : List BTreeNode → Option ℕ → List ℕ → Type 0
Chain ns start [] = start ≡ none
Chain ns start (p ∷ ps) =
    (start ≡ some p) × (p < length ns) × ((node ns p).is_leaf ≡ true) × Chain ns (node ns p).next ps

abbrev pub leaf_items : List BTreeNode → List ℕ → List ℕ
leaf_items ns [] = []
leaf_items ns (p ∷ ps) = (node ns p).items ++ leaf_items ns ps

-- `k` steps to a first child lead from `p` to the leaf `l`.
abbrev pub Leftmost : List BTreeNode → ℕ → ℕ → ℕ → Type 0
Leftmost ns zero p l = (p ≡ l) × (p < length ns) × ((node ns p).is_leaf ≡ true)
Leftmost ns (suc k) p l =
    (p < length ns)
    × ((node ns p).is_leaf ≡ false)
    × ((c : ℕ) × (get_elem? (node ns p).children 0 ≡ some c) × Leftmost ns k c l)

-- The leaves of an index, from the first, which lies `k` levels below the root.
pub record Leaves (t : Tree) (k l : ℕ) (ls : List ℕ) : Type 0 where
  pub first : Leftmost t.nodes k t.root l
  pub chain : Chain t.nodes (some l) (l ∷ ls)

pub first_leaf-Leftmost :
    (k fuel : ℕ) (ns : List BTreeNode) (p l : ℕ)
    → Leftmost ns k p l
    → k < fuel
    → first_leaf fuel ns p ≡ ok l
unfolding first_leaf
first_leaf-Leftmost k zero ns p l m lt = elim lt [ ]
first_leaf-Leftmost zero (suc fuel) ns p l (e, inside, leaf) lt =
    rw (node_at-node ns p inside, leaf) (ap ok e)
first_leaf-Leftmost (suc k) (suc fuel) ns p l (inside, inner, (c, child, m)) lt =
    rw (node_at-node ns p inside, inner, child) (first_leaf-Leftmost k fuel ns c l m (omega arith))

module _ {S : Type 0} (visit : S → ℕ → Result (S × Bool)) where
  -- A walk that goes on after `m`, in the two ways in which the loops say so.
  go_on :
      (m : Result (S × Bool)) (rest : S → Result S) (rest' : S → Result (S × Bool))
      → ((s : S) → rest s ≡ (rest' s >>= λ r. ok r.0))
      → (m >>= λ r. if r.1 then ok r.0 else rest r.0)
        ≡ ((m >>= λ r. if r.1 then ok r else rest' r.0) >>= λ r. ok r.0)
  go_on (ok (s, true)) rest rest' h = refl
  go_on (ok (s, false)) rest rest' h = h s
  go_on (err e) rest rest' h = refl
  go_on panic rest rest' h = refl
  go_on hang rest rest' h = refl

  go_through :
      (m : Result (S × Bool)) (rest rest' after : S → Result (S × Bool))
      → ((s : S) → rest s ≡ (rest' s >>= λ r. if r.1 then ok r else after r.0))
      → (m >>= λ r. if r.1 then ok r else rest r.0)
        ≡ ((m >>= λ r. if r.1 then ok r else rest' r.0) >>= λ r. if r.1 then ok r else after r.0)
  go_through (ok (s, true)) rest rest' after h = refl
  go_through (ok (s, false)) rest rest' after h = h s
  go_through (err e) rest rest' after h = refl
  go_through panic rest rest' after h = refl
  go_through hang rest rest' after h = refl

  visit_items-append :
      (xs ys : List ℕ) (s : S)
      → visit_items visit (xs ++ ys) s
        ≡ (visit_items visit xs s >>= λ r. if r.1 then ok r else visit_items visit ys r.0)
  unfolding visit_items
  visit_items-append [] ys s = refl
  visit_items-append (x ∷ xs) ys s = go_through (visit s x) _ _ _ (visit_items-append xs ys)

  walk_leaves-Chain :
      (ls : List ℕ) (fuel : ℕ) (ns : List BTreeNode) (start : Option ℕ) (s : S)
      → Chain ns start ls
      → length ls < fuel
      → walk_leaves visit fuel ns start s ≡ (visit_items visit (leaf_items ns ls) s >>= λ r. ok r.0)
  unfolding walk_leaves
  walk_leaves-Chain ls zero ns start s c lt = elim lt [ ]
  walk_leaves-Chain [] (suc fuel) ns start s c lt = rw c (unfold visit_items in refl)
  walk_leaves-Chain (p ∷ ps) (suc fuel) ns start s (e, inside, leaf, c) lt =
      rw
        (
          e,
          walk_leaves,
          node_at-node ns p inside,
          visit_items-append (node ns p).items (leaf_items ns ps) s,
        )
        (go_on _ _ _ (λ s'. walk_leaves-Chain ps fuel ns (node ns p).next s' c (omega arith)))

  -- A walk over the leaves visits their items in order until one makes it return.
  pub walk-Leaves :
      (fuel : ℕ) (t : Tree) (k l : ℕ) (ls : List ℕ) (s : S)
      → Leaves t k l ls
      → k < fuel
      → length (l ∷ ls) < fuel
      → walk visit fuel t s ≡ (visit_items visit (leaf_items t.nodes (l ∷ ls)) s >>= λ r. ok r.0)
  unfolding walk
  walk-Leaves fuel t k l ls s v high long =
      rw (first_leaf-Leftmost k fuel t.nodes t.root l v.first high)
        (walk_leaves-Chain (l ∷ ls) fuel t.nodes (some l) s v.chain long)
