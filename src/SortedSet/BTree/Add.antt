-- ===== src/SortedSet/BTree/Add.antt =====
-- `Add` of internal/data_structure/sorted_set/btree_index.go, and the splits of nodes.
use redi_go.Prelude.{
  Bytes, ℕ, zero, suc, ◌+◌, ◌/◌, List, [], ◌∷◌, ◌++◌, Bool, true, false, Option, none, some, beq,
  leb, ◌==◌, if◌then◌else◌, length, get_elem?, set, take, drop,
}
use redi_go.Prelude.Int.{ℤ, pos, negsuc}
use redi_go.Go.Result.{Result, ok, panic, hang, ◌>>=◌}
use redi_go.Go.Float.{Floats}
use redi_go.SortedSet.Item.{Item, compare_to}
use redi_go.SortedSet.BTree.{BTreeNode, Tree, BTreeIndex, element, node_at, item_at}

abbrev pub write : Tree → ℕ → BTreeNode → Tree
write t p n = record t { nodes = set t.nodes p n }

-- The position of a child among the children, or their number: the loop
-- `for childIndex < len(parent.Children)`.
unfoldable pub child_index : ℕ → List ℕ → ℕ
child_index p [] = 0
child_index p (c ∷ cs) = if c == p then 0 else suc (child_index p cs)

-- append(xs[:i], append([]T{x}, xs[i:]...)...); `xs[:i]` panics behind the elements (a slice with room
-- to spare is taken to have none).
abbrev pub insert_at : List ℕ → ℕ → ℕ → Result (List ℕ)
insert_at xs i x = if leb i (length xs) then ok (take i xs ++ x ∷ drop i xs) else panic

-- The parent gets the promoted item and, behind the child `p`, the new child.
unfoldable pub link_child : Tree → ℕ → ℕ → ℕ → ℕ → Result Tree
link_child t q p promoted fresh = do
  parent ← node_at t.nodes q
  let i = child_index p parent.children
  items ← insert_at parent.items i promoted
  children ← insert_at parent.children (i + 1) fresh
  ok (write t q (record parent { items = items; children = children }))

-- splitLeaf, up to the test of the parent. The result has the parent with it.
unfoldable pub split_leaf : Tree → ℕ → Result (Tree × ℕ)
unfolding link_child
split_leaf t p = do
  n ← node_at t.nodes p
  let median = length n.items / 2
  let new_leaf = record n { items = drop median n.items; children = []; is_leaf = true }
  let fresh = length t.nodes
  let left = record n { items = take median n.items; next = some fresh }
  let t1 = record t { nodes = set t.nodes p left ++ new_leaf ∷ [] }
  q ← element n.parent
  promoted ← element (get_elem? new_leaf.items 0)
  t2 ← link_child t1 q p promoted fresh
  ok (t2, q)

-- child.Parent = p, for the children of a list
unfoldable pub set_parents : ℕ → List ℕ → List BTreeNode → Result (List BTreeNode)
set_parents p [] ns = ok ns
set_parents p (c ∷ cs) ns = do
  n ← node_at ns c
  set_parents p cs (set ns c (record n { parent = some p }))

-- splitInternal, up to the test of the parent.
unfoldable pub split_internal : Tree → ℕ → Result (Tree × ℕ)
unfolding link_child set_parents
split_internal t p = do
  n ← node_at t.nodes p
  let median = length n.items / 2
  promoted ← element (get_elem? n.items median)
  let moved = drop (median + 1) n.children
  let new_internal : BTreeNode = record {
    items = drop (median + 1) n.items;
    children = moved;
    is_leaf = false;
    parent = n.parent;
    next = none;
  }
  let fresh = length t.nodes
  let left = record n { items = take median n.items; children = take (median + 1) n.children }
  ns ←
      if leb (median + 1) (length n.children)
      then set_parents fresh moved (set t.nodes p left ++ new_internal ∷ [])
      else panic
  q ← element n.parent
  t2 ← link_child (record t { nodes = ns }) q p promoted fresh
  ok (t2, q)

-- The root gets a parent, which is the new root.
unfoldable pub grow_root : Tree → Result Tree
grow_root t = do
  old ← node_at t.nodes t.root
  let fresh = length t.nodes
  let new_root : BTreeNode = record {
    items = [];
    children = t.root ∷ [];
    is_leaf = false;
    parent = none;
    next = none;
  }
  ok (record t {
    nodes = set t.nodes t.root (record old { parent = some fresh }) ++ new_root ∷ [];
    root = fresh;
  })

-- splitLeaf or splitInternal of a node that has a parent; `again` is the call of splitNode for a parent
-- that is over capacity, len(parent.Items) > t.Degree-1.
unfoldable pub split_child : (Tree → ℕ → Result Tree) → Tree → ℕ → Result Tree
split_child again t p = do
  n ← node_at t.nodes p
  r ← if n.is_leaf then split_leaf t p else split_internal t p
  parent ← node_at r.0.nodes r.1
  let more = again r.0 r.1
  if leb t.degree (length parent.items) then more else ok r.0

-- splitNode; a node without a parent is the root, which `splitRoot` splits.
unfoldable pub split_node : ℕ → Tree → ℕ → Result Tree
split_node zero t p = hang
split_node (suc fuel) t p = do
  n ← node_at t.nodes p
  elim n.parent [
    | some q ↦ split_child (split_node fuel) t p
    | none ↦ do t' ← grow_root t; split_child (split_node fuel) t' t.root
  ]

abbrev pub is_positive : ℤ → Bool
is_positive (pos zero) = false
is_positive (pos (suc n)) = true
is_positive (negsuc n) = false

module _ (F : Floats) where
  -- for i < len(node.Items) && score >= node.Items[i].Score { i++ }
  unfoldable pub descend_index : List (Item F) → F.Float → List ℕ → Result ℕ
  descend_index store score [] = ok 0
  descend_index store score (i ∷ is) = do
    item ← item_at F store i
    let rest = descend_index store score is >>= λ n. ok (suc n)
    if F.le item.score score then rest else ok 0

  -- Find the correct leaf.
  unfoldable pub find_leaf : ℕ → BTreeIndex F → F.Float → ℕ → Result ℕ
  find_leaf zero t score p = hang
  find_leaf (suc fuel) t score p = do
    n ← node_at t.tree.nodes p
    let down = do
      i ← descend_index t.store score n.items
      c ← element (get_elem? n.children i)
      find_leaf fuel t score c
    if n.is_leaf then ok p else down

  -- The item of a leaf that has the member, if there is one.
  unfoldable pub find_member : List (Item F) → Bytes → List ℕ → Result (Option ℕ)
  find_member store member [] = ok none
  find_member store member (i ∷ is) = do
    item ← item_at F store i
    let rest = find_member store member is
    if beq item.member member then ok (some i) else rest

  -- The items with the new one, `fresh`, in its sorted position.
  unfoldable pub insert_sorted : List (Item F) → Item F → ℕ → List ℕ → Result (List ℕ)
  insert_sorted store item fresh [] = ok (fresh ∷ [])
  insert_sorted store item fresh (i ∷ is) = do
    other ← item_at F store i
    let rest = insert_sorted store item fresh is >>= λ js. ok (i ∷ js)
    if is_positive (compare_to F item other) then rest else ok (fresh ∷ i ∷ is)

  -- The member is new to the leaf `p`.
  unfoldable pub insert_item : ℕ → BTreeIndex F → F.Float → Bytes → ℕ → Result (BTreeIndex F × ℕ)
  insert_item fuel t score member p = do
    n ← node_at t.tree.nodes p
    let item : Item F = record { score = score; member = member }
    items ← insert_sorted t.store item (length t.store) n.items
    let tree = write t.tree p (record n { items = items })
    tree' ← if leb t.tree.degree (length items) then split_node fuel tree p else ok tree
    ok (record { tree = tree'; store = t.store ++ item ∷ [] }, 1)

  -- The item that is there gets the score, wherever it is used.
  unfoldable pub update_item : BTreeIndex F → F.Float → ℕ → Result (BTreeIndex F × ℕ)
  update_item t score i = do
    item ← item_at F t.store i
    ok (record t { store = set t.store i (record item { score = score }) }, 0)

  unfoldable pub add : ℕ → BTreeIndex F → F.Float → Bytes → Result (BTreeIndex F × ℕ)
  add fuel t score [] = ok (t, 0)
  add fuel t score (b ∷ s) = do
    p ← find_leaf fuel t score t.tree.root
    n ← node_at t.tree.nodes p
    found ← find_member t.store (b ∷ s) n.items
    elim found [ some i ↦ update_item t score i | none ↦ insert_item fuel t score (b ∷ s) p ]
