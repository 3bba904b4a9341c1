-- ===== src/SortedSet/BTree/Siblings.antt =====
-- internal/data_structure/sorted_set/btree_index.go: what a node takes from its siblings and how it is
-- merged with one of them.
--
-- The functions are called for a node that has a parent. A separator's position is that of the left one
-- of the two children.
use redi_go.Prelude.{
  ℕ, suc, ◌+◌, ◌-◌, List, [], ◌∷◌, ◌++◌, none, some, ltb, if◌then◌else◌, length, get_elem?, set,
  take, drop,
}
use redi_go.Go.Result.{Result, ok, panic, ◌>>=◌}
use redi_go.SortedSet.BTree.{Tree, element, node_at}
use redi_go.SortedSet.BTree.Add.{write, set_parents}

-- The last element, xs[len(xs)-1], and the slice before it.
abbrev pub last : List ℕ → Result ℕ
last xs = element (get_elem? xs (length xs - 1))

abbrev pub but_last : List ℕ → List ℕ
but_last xs = take (length xs - 1) xs

-- append(xs[:i], xs[i+1:]...)
abbrev pub remove_at : List ℕ → ℕ → Result (List ℕ)
remove_at xs i = if ltb i (length xs) then ok (take i xs ++ drop (suc i) xs) else panic

-- parent.Items[separatorIndex] = item
unfoldable pub put_separator : Tree → ℕ → ℕ → ℕ → Result Tree
put_separator t q separator_index item = do
  parent ← node_at t.nodes q
  if ltb separator_index (length parent.items)
      then ok (write t q (record parent { items = set parent.items separator_index item }))
      else panic

unfoldable pub borrow_leaf_left : Tree → ℕ → ℕ → ℕ → ℕ → Result Tree
unfolding put_separator
borrow_leaf_left t q p left separator_index = do
  n ← node_at t.nodes p
  l ← node_at t.nodes left
  borrowed ← last l.items
  let t1 = write t left (record l { items = but_last l.items })
  put_separator (write t1 p (record n { items = borrowed ∷ n.items })) q separator_index borrowed

unfoldable pub borrow_inner_left : Tree → ℕ → ℕ → ℕ → ℕ → Result Tree
unfolding put_separator set_parents
borrow_inner_left t q p left separator_index = do
  n ← node_at t.nodes p
  l ← node_at t.nodes left
  parent ← node_at t.nodes q
  separator ← element (get_elem? parent.items separator_index)
  borrowed ← last l.items
  child ← last l.children
  let t1 = write t left (record l { items = but_last l.items; children = but_last l.children })
  let t2 = write t1 p (record n { items = separator ∷ n.items; children = child ∷ n.children })
  ns ← set_parents p (child ∷ []) t2.nodes
  put_separator (record t2 { nodes = ns }) q separator_index borrowed

-- `borrowFromLeftSibling`
unfoldable pub borrow_from_left_sibling : Tree → ℕ → ℕ → ℕ → Result Tree
unfolding borrow_leaf_left borrow_inner_left
borrow_from_left_sibling t p left separator_index = do
  n ← node_at t.nodes p
  q ← element n.parent
  if n.is_leaf
      then borrow_leaf_left t q p left separator_index
      else borrow_inner_left t q p left separator_index

-- The separator becomes the first item that is left to the right sibling, if there is one.
unfoldable pub borrow_leaf_right : Tree → ℕ → ℕ → ℕ → ℕ → Result Tree
unfolding put_separator
borrow_leaf_right t q p right separator_index = do
  n ← node_at t.nodes p
  r ← node_at t.nodes right
  borrowed ← element (get_elem? r.items 0)
  let t1 = write t right (record r { items = drop 1 r.items })
  let t2 = write t1 p (record n { items = n.items ++ borrowed ∷ [] })
  elim (get_elem? r.items 1) [
    | none ↦ ok t2
    | some first ↦ put_separator t2 q separator_index first
  ]

unfoldable pub borrow_inner_right : Tree → ℕ → ℕ → ℕ → ℕ → Result Tree
unfolding put_separator set_parents
borrow_inner_right t q p right separator_index = do
  n ← node_at t.nodes p
  r ← node_at t.nodes right
  parent ← node_at t.nodes q
  separator ← element (get_elem? parent.items separator_index)
  borrowed ← element (get_elem? r.items 0)
  child ← element (get_elem? r.children 0)
  let t1 = write t right (record r { items = drop 1 r.items; children = drop 1 r.children })
  let n' = record n { items = n.items ++ separator ∷ []; children = n.children ++ child ∷ [] }
  let t2 = write t1 p n'
  ns ← set_parents p (child ∷ []) t2.nodes
  put_separator (record t2 { nodes = ns }) q separator_index borrowed

-- `borrowFromRightSibling`
unfoldable pub borrow_from_right_sibling : Tree → ℕ → ℕ → ℕ → Result Tree
unfolding borrow_leaf_right borrow_inner_right
borrow_from_right_sibling t p right separator_index = do
  n ← node_at t.nodes p
  q ← element n.parent
  if n.is_leaf
      then borrow_leaf_right t q p right separator_index
      else borrow_inner_right t q p right separator_index

-- The right one of two leaves goes into the left one.
unfoldable pub join_leaves : Tree → ℕ → ℕ → Result Tree
join_leaves t left right = do
  l ← node_at t.nodes left
  r ← node_at t.nodes right
  ok (write t left (record l { items = l.items ++ r.items; next = r.next }))

-- The right one of two inner nodes goes into the left one, with the separator between them.
unfoldable pub join_inner : Tree → ℕ → ℕ → ℕ → ℕ → Result Tree
unfolding set_parents
join_inner t q left right separator_index = do
  l ← node_at t.nodes left
  r ← node_at t.nodes right
  parent ← node_at t.nodes q
  separator ← element (get_elem? parent.items separator_index)
  let l' = record l { items = l.items ++ separator ∷ r.items; children = l.children ++ r.children }
  ns ← set_parents left r.children (write t left l').nodes
  ok (record t { nodes = ns })

-- Remove the separator and the child behind it from the parent.
unfoldable pub unlink_child : Tree → ℕ → ℕ → Result Tree
unlink_child t q separator_index = do
  parent ← node_at t.nodes q
  items ← remove_at parent.items separator_index
  children ← remove_at parent.children (separator_index + 1)
  ok (write t q (record parent { items = items; children = children }))

-- What both merges do: `p` is the node that underflows, `left` and `right` are it and its sibling.
-- The result has the parent with it.
unfoldable pub merge_siblings : Tree → ℕ → ℕ → ℕ → ℕ → Result (Tree × ℕ)
unfolding join_leaves join_inner unlink_child
merge_siblings t p left right separator_index = do
  n ← node_at t.nodes p
  q ← element n.parent
  t1 ← if n.is_leaf then join_leaves t left right else join_inner t q left right separator_index
  t2 ← unlink_child t1 q separator_index
  ok (t2, q)
