-- ===== src/SortedSet/BTree/Remove.antt =====
-- `RemoveByScore` of internal/data_structure/sorted_set/btree_index.go, and the underflow of nodes.
use redi_go.Prelude.{
  Bytes, ℕ, zero, suc, ◌-◌, ◌/◌, List, [], ◌∷◌, ◌&&◌, Option, none, some, beq, ltb, leb, ◌==◌,
  if◌then◌else◌, length, get_elem?, set,
}
use redi_go.Go.Result.{Result, ok, panic, hang, ◌>>=◌}
use redi_go.Go.Float.{Floats}
use redi_go.SortedSet.Item.{Item}
use redi_go.SortedSet.BTree.{Tree, BTreeIndex, element, node_at, item_at}
use redi_go.SortedSet.BTree.Add.{write, find_leaf}
use redi_go.SortedSet.BTree.Siblings.{
  remove_at, borrow_from_left_sibling, borrow_from_right_sibling, merge_siblings,
}

-- `none` stands for -1.
unfoldable pub find_child_index : List ℕ → ℕ → Option ℕ
find_child_index [] p = none
find_child_index (c ∷ cs) p =
    if c == p then some 0 else elim (find_child_index cs p) [ none ↦ none | some i ↦ some (suc i) ]

abbrev pub min_items : Tree → ℕ
min_items t = (t.degree - 1) / 2

-- Root has no items and only one child: make the child the new root.
unfoldable pub collapse_root : Tree → ℕ → Result Tree
collapse_root t q = do
  parent ← node_at t.nodes q
  elim parent.items [
    | i ∷ is ↦ ok t
    | [] ↦ elim parent.children [
      | [] ↦ ok t
      | c ∷ [] ↦ do
        child ← node_at t.nodes c
        ok (record t { nodes = set t.nodes c (record child { parent = none }); root = c })
      | c ∷ d ∷ cs ↦ ok t
    ]
  ]

-- `again` is the call of handleUnderflow for the parent.
module _ (again : Tree → ℕ → Result Tree) where
  -- Check if parent needs handling.
  unfoldable pub after_merge : Tree → ℕ → Result Tree
  unfolding collapse_root
  after_merge t q = let up = again t q in if q == t.root then collapse_root t q else up

  -- `mergeWithLeftSibling`
  unfoldable pub merge_with_left_sibling : Tree → ℕ → ℕ → ℕ → Result Tree
  unfolding merge_siblings after_merge
  merge_with_left_sibling t p left separator_index = do
    r ← merge_siblings t p left p separator_index
    after_merge r.0 r.1

  -- `mergeWithRightSibling`
  unfoldable pub merge_with_right_sibling : Tree → ℕ → ℕ → ℕ → Result Tree
  unfolding merge_siblings after_merge
  merge_with_right_sibling t p right separator_index = do
    r ← merge_siblings t p p right separator_index
    after_merge r.0 r.1

  -- Cannot borrow, must merge: the node is the child number `i`.
  unfoldable pub merge_child : Tree → ℕ → List ℕ → ℕ → Result Tree
  unfolding merge_with_left_sibling merge_with_right_sibling
  merge_child t p children zero = elim (get_elem? children 1) [
    | none ↦ ok t
    | some right ↦ merge_with_right_sibling t p right 0
  ]
  merge_child t p children (suc i) = do
    left ← element (get_elem? children i)
    merge_with_left_sibling t p left i

  -- Try to borrow from the right sibling.
  unfoldable pub try_right : Tree → ℕ → List ℕ → ℕ → Result Tree
  unfolding merge_child
  try_right t p children i = elim (get_elem? children (suc i)) [
    | none ↦ merge_child t p children i
    | some right ↦ do
      r ← node_at t.nodes right
      if ltb (min_items t) (length r.items)
          then borrow_from_right_sibling t p right i
          else merge_child t p children i
  ]

  -- Try to borrow from the left sibling first.
  unfoldable pub rebalance : Tree → ℕ → List ℕ → ℕ → Result Tree
  unfolding try_right
  rebalance t p children zero = try_right t p children zero
  rebalance t p children (suc i) = do
    left ← element (get_elem? children i)
    l ← node_at t.nodes left
    if ltb (min_items t) (length l.items)
        then borrow_from_left_sibling t p left i
        else try_right t p children (suc i)

  -- At the index -1 the code takes the first child for the right sibling, and panics at the separator of
  -- that index in all that it does with it (an underflow says that minItems is positive).
  unfoldable pub rebalance_child : Tree → ℕ → List ℕ → Option ℕ → Result Tree
  unfolding rebalance
  rebalance_child t p children (some i) = rebalance t p children i
  rebalance_child t p [] none = ok t
  rebalance_child t p (c ∷ cs) none = panic

unfoldable pub handle_underflow : ℕ → Tree → ℕ → Result Tree
unfolding find_child_index rebalance_child
handle_underflow zero t p = hang
handle_underflow (suc fuel) t p = do
  n ← node_at t.nodes p
  elim n.parent [
    | none ↦ ok t
    | some q ↦ do
      parent ← node_at t.nodes q
      let fix =
          rebalance_child (handle_underflow fuel) t p parent.children
            (find_child_index parent.children p)
      if leb (min_items t) (length n.items) then ok t else fix
  ]

-- The item number `i` of the leaf `p` is removed.
unfoldable pub remove_item : ℕ → Tree → ℕ → ℕ → Result Tree
remove_item fuel t p i = do
  n ← node_at t.nodes p
  items ← remove_at n.items i
  let t' = write t p (record n { items = items })
  if ltb (length items) (min_items t) then handle_underflow fuel t' p else ok t'

-- The position in a list, of one in the list without its first element.
abbrev pub later : Option ℕ → Option ℕ
later none = none
later (some j) = some (suc j)

module _ (F : Floats) where
  -- The position of the item with the member and the score, if there is one.
  unfoldable pub find_item : List (Item F) → F.Float → Bytes → List ℕ → Result (Option ℕ)
  find_item store score member [] = ok none
  find_item store score member (i ∷ is) = do
    item ← item_at F store i
    let rest = find_item store score member is >>= λ r. ok (later r)
    if beq item.member member && F.eq item.score score then ok (some 0) else rest

  unfoldable pub remove_by_score : ℕ → BTreeIndex F → F.Float → Bytes → Result (BTreeIndex F × ℕ)
  remove_by_score fuel t score member = do
    p ← find_leaf F fuel t score t.tree.root
    n ← node_at t.tree.nodes p
    found ← find_item t.store score member n.items
    elim found [
      | none ↦ ok (t, 0)
      | some i ↦ do tree ← remove_item fuel t.tree p i; ok (record t { tree = tree }, 1)
    ]
