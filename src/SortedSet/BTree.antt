-- ===== src/SortedSet/BTree.antt =====
-- internal/data_structure/sorted_set/btree_index.go: the nodes, and the walks that change nothing.
--
-- Nodes and items are shared by pointers (a separator is the item of a leaf, and a node is reached from
-- its parent, its children and the leaf before it), so they stand in two stores, and a pointer is a
-- position in its store. `new` appends. No two nodes share the array of a slice: each slice is a list.
pub mod Add
pub mod Indexed
pub mod Leaves
pub mod Ranks
pub mod Remove
pub mod Siblings
pub mod Split
pub mod WellFormed
use redi_go.Prelude.{
  Bytes, ℕ, zero, suc, ◌+◌, ◌-◌, List, [], ◌∷◌, ◌++◌, Bool, true, false, not, ◌&&◌, Option, none,
  some, beq, ltb, leb, ◌==◌, if◌then◌else◌, length, get_elem?,
}
use redi_go.Prelude.Int.{ℤ, pos, negsuc}
use redi_go.Go.Result.{Result, ok, panic, hang, ◌>>=◌}
use redi_go.Go.Float.{Floats}
use redi_go.SortedSet.Item.{Item}

pub record BTreeNode : Type 0 where
  pub items : List ℕ
  pub children : List ℕ
  pub is_leaf : Bool
  pub parent : Option ℕ
  pub next : Option ℕ

-- The pointers of an index: its nodes and its root.
pub record Tree : Type 0 where
  pub nodes : List BTreeNode
  pub root : ℕ
  pub degree : ℕ

-- &BTreeNode{IsLeaf: true}
abbrev pub empty_leaf : BTreeNode
empty_leaf = record { items = []; children = []; is_leaf = true; parent = none; next = none }

-- `NewBTreeIndex`; its callers give a positive degree.
unfoldable pub new_btree : ℕ → Tree
new_btree degree = record { nodes = empty_leaf ∷ []; root = 0; degree = degree }

-- `Clear`: a new root, which is all that is left to reach.
unfoldable pub clear : Tree → Tree
clear t = record t { nodes = t.nodes ++ empty_leaf ∷ []; root = length t.nodes }

-- An element of a slice or of a store; a pointer that is none of the store's stands for nil.
abbrev pub element {ℓ} : {A : Type ℓ} → Option A → Result A
element none = panic
element (some a) = ok a

abbrev pub node_at : List BTreeNode → ℕ → Result BTreeNode
node_at ns p = element (get_elem? ns p)

-- for !node.IsLeaf { node = node.Children[0] }
unfoldable pub first_leaf : ℕ → List BTreeNode → ℕ → Result ℕ
first_leaf zero ns p = hang
first_leaf (suc fuel) ns p = do
  n ← node_at ns p
  let down = element (get_elem? n.children 0) >>= first_leaf fuel ns
  if n.is_leaf then ok p else down

-- The items of the leaves from `start` on, in the order in which the walks over `Next` meet them.
-- Each of those walks looks at the items one by one and may stop early.
module _ {S : Type 0} (visit : S → ℕ → Result (S × Bool)) where
  -- The inner loop of a walk: the state, and whether the walk has returned.
  unfoldable pub visit_items : List ℕ → S → Result (S × Bool)
  visit_items [] s = ok (s, false)
  visit_items (i ∷ is) s = do
    r ← visit s i
    let rest = visit_items is r.0
    if r.1 then ok r else rest

  unfoldable pub walk_leaves : ℕ → List BTreeNode → Option ℕ → S → Result S
  walk_leaves zero ns start s = hang
  walk_leaves (suc fuel) ns none s = ok s
  walk_leaves (suc fuel) ns (some p) s = do
    n ← node_at ns p
    r ← visit_items n.items s
    let rest = walk_leaves fuel ns n.next r.0
    if r.1 then ok r.0 else rest

  -- Find the first leaf node, and traverse all leaf nodes from there.
  unfoldable pub walk : ℕ → Tree → S → Result S
  walk fuel t s = do p ← first_leaf fuel t.nodes t.root; walk_leaves fuel t.nodes (some p) s

-- The loop of `GetByRank`: `currentRank`, and the item once it is found.
unfoldable pub by_rank_visit : ℕ → ℕ × Option ℕ → ℕ → Result ((ℕ × Option ℕ) × Bool)
by_rank_visit rank (current_rank, found) i =
    if current_rank == rank
    then ok ((current_rank, some i), true)
    else ok ((suc current_rank, none), false)

-- The loop of `GetRangeByRank`: the items collected, and `currentRank`.
unfoldable pub range_by_rank_visit : ℕ → ℕ → List ℕ × ℕ → ℕ → Result ((List ℕ × ℕ) × Bool)
range_by_rank_visit start end (result, current_rank) i =
    let result' =
      if leb start current_rank && leb current_rank end then result ++ i ∷ [] else result in
    if ltb end current_rank
    then ok ((result', current_rank), true)
    else ok ((result', suc current_rank), false)

module _ (F : Floats) where
  pub record BTreeIndex : Type 0 where
    pub tree : Tree
    pub store : List (Item F)

  abbrev pub item_at : List (Item F) → ℕ → Result (Item F)
  item_at store i = element (get_elem? store i)

  -- The loop of `GetRank`: `rank`, and the result once it is known.
  unfoldable pub rank_visit :
      List (Item F) → Bytes → ℕ × Option ℕ → ℕ → Result ((ℕ × Option ℕ) × Bool)
  rank_visit store member (rank, found) i = do
    item ← item_at store i
    if beq item.member member then ok ((rank, some rank), true) else ok ((suc rank, none), false)

  abbrev rank_result : ℕ × Option ℕ → ℤ
  rank_result (rank, none) = negsuc 0
  rank_result (rank, some r) = pos r

  unfoldable pub get_rank : ℕ → BTreeIndex → Bytes → Result ℤ
  unfolding rank_visit
  get_rank fuel t member = do
    r ← walk (rank_visit t.store member) fuel t.tree (0, none)
    ok (rank_result r)

  unfoldable pub get_by_rank : ℕ → BTreeIndex → ℤ → Result (Option ℕ)
  unfolding by_rank_visit
  get_by_rank fuel t (negsuc n) = ok none
  get_by_rank fuel t (pos rank) = do r ← walk (by_rank_visit rank) fuel t.tree (0, none); ok r.1

  -- The loop of `GetRange`: the items collected.
  unfoldable pub range_visit :
      List (Item F) → F.Float → F.Float → List ℕ → ℕ → Result (List ℕ × Bool)
  range_visit store low high result i = do
    item ← item_at store i
    let result' = if F.le low item.score && F.le item.score high then result ++ i ∷ [] else result
    ok (result', F.lt high item.score)

  unfoldable pub get_range : ℕ → BTreeIndex → F.Float → F.Float → Result (List ℕ)
  unfolding range_visit
  get_range fuel t low high = walk (range_visit t.store low high) fuel t.tree []

  -- `end < start` at two numbers that are not negative.
  unfoldable pub get_range_by_rank : ℕ → BTreeIndex → ℤ → ℤ → Result (List ℕ)
  unfolding range_by_rank_visit
  get_range_by_rank fuel t (negsuc n) end = ok []
  get_range_by_rank fuel t (pos start) (negsuc n) = ok []
  get_range_by_rank fuel t (pos start) (pos end) = elim (ltb end start) [
    | true ↦ ok []
    | false ↦ do r ← walk (range_by_rank_visit start end) fuel t.tree ([], 0); ok r.0
  ]

-- The loop of `Count`, which adds up the lengths.
unfoldable pub count_leaves : ℕ → List BTreeNode → Option ℕ → ℕ → Result ℕ
count_leaves zero ns start n = hang
count_leaves (suc fuel) ns none count = ok count
count_leaves (suc fuel) ns (some p) count = do
  n ← node_at ns p
  count_leaves fuel ns n.next (count + length n.items)

unfoldable pub count : ℕ → Tree → Result ℕ
unfolding count_leaves
count fuel t = do p ← first_leaf fuel t.nodes t.root; count_leaves fuel t.nodes (some p) 0
