-- ===== src/Tests/Trees.antt =====
-- The index by a B+ tree on toy numbers.
use redi_go.Prelude.{
  zero, suc, length, ◌<◌, ◌==◌, inl, inr, beq, bytes_lt, Bytes, codes, ℕ, List, [], ◌∷◌, ◌≡◌, ◌∙◌,
  refl, Option, none, some, true, false, take, get_elem?, arith,
}
use redi_go.Prelude.Int.{pos}
use redi_go.Go.Result.{Result, ok, ◌>>=◌}
use redi_go.SortedSet.Factory.{new_ordered_index, b_tree}
use redi_go.SortedSet.Item.{Item, compare_to}
use redi_go.SortedSet.BTree.{
  BTreeNode, BTreeIndex, new_btree, get_rank, get_by_rank, get_range_by_rank, count, walk,
  first_leaf, walk_leaves, visit_items, range_by_rank_visit,
}
use redi_go.SortedSet.BTree.Add.{
  add, split_node, child_index, insert_sorted, find_member, descend_index, find_leaf, link_child,
  set_parents, split_leaf, split_internal, grow_root, split_child, insert_item,
}
use redi_go.SortedSet.BTree.Indexed.{Indexed}
use redi_go.SortedSet.BTree.Indexed.Delete.{Removed, remove_by_score-Indexed}
use redi_go.SortedSet.BTree.Indexed.Insert.{Added, add-Indexed}
use redi_go.SortedSet.BTree.Indexed.Run.{add_all, lone, lone-Indexed, count-add_all}
use redi_go.SortedSet.BTree.Leaves.{node, Leaves, leaf_items}
use redi_go.SortedSet.BTree.Ranks.{
  Enough, PointTo, rank_in, count-Leaves, get_rank-Leaves, get_by_rank-get_rank,
}
use redi_go.SortedSet.BTree.Remove.{
  min_items, remove_by_score, find_item, remove_item, handle_underflow, find_child_index,
  rebalance_child, rebalance, try_right, merge_child, merge_with_left_sibling,
  merge_with_right_sibling, after_merge, collapse_root,
}
use redi_go.SortedSet.BTree.Siblings.{
  merge_siblings, join_leaves, join_inner, unlink_child, borrow_from_left_sibling,
  borrow_from_right_sibling, borrow_leaf_left, borrow_leaf_right, borrow_inner_left,
  borrow_inner_right, put_separator,
}
use redi_go.Tests.ToyFloats.{toy}

abbrev remove_all : BTreeIndex toy → List (ℕ × Bytes) → Result (BTreeIndex toy)
remove_all t [] = ok t
remove_all t ((s, m) ∷ xs) = do r ← remove_by_score toy 9 t s m; remove_all r.0 xs

abbrev nothing : BTreeIndex toy
nothing = record { tree = new_btree 4; store = [] }

abbrev pairs : List (ℕ × Bytes)
pairs =
    (5, codes "e")
    ∷ (1, codes "a")
    ∷ (9, codes "i")
    ∷ (3, codes "c")
    ∷ (7, codes "g")
    ∷ (2, codes "b")
    ∷ (8, codes "h")
    ∷ (4, codes "d")
    ∷ (6, codes "f")
    ∷ (12, codes "l")
    ∷ (11, codes "k")
    ∷ (10, codes "j")
    ∷ []

-- The order of the leaves after twelve insertions, with splits of the root.
abbrev order_of : Result (BTreeIndex toy × ℕ) → Result (List ℕ)
order_of r = do (t, n) ← r; get_range_by_rank toy 20 t (pos 0) (pos 20)

twelve :
    order_of (add_all toy 13 nothing pairs)
    ≡ ok (1 ∷ 5 ∷ 3 ∷ 7 ∷ 0 ∷ 8 ∷ 4 ∷ 6 ∷ 2 ∷ 11 ∷ 10 ∷ 9 ∷ [])
unfolding add new_btree get_range_by_rank beq compare_to split_node child_index bytes_lt
    insert_sorted find_member descend_index find_leaf walk first_leaf walk_leaves visit_items
    link_child set_parents split_leaf split_internal grow_root split_child insert_item
    range_by_rank_visit
twelve = refl

-- What is left after five removals, which merge leaves and inner nodes.
seven :
    order_of (do
      (t, n) ← add_all toy 13 nothing pairs
      t' ←
          remove_all t (
            (3, codes "c") ∷ (4, codes "d") ∷ (2, codes "b") ∷ (1, codes "a") ∷ (9, codes "i") ∷ [])
      ok (t', 0))
    ≡ ok (0 ∷ 8 ∷ 4 ∷ 6 ∷ 11 ∷ 10 ∷ 9 ∷ [])
unfolding add new_btree get_range_by_rank beq compare_to split_node child_index bytes_lt
    insert_sorted find_member descend_index find_leaf walk first_leaf walk_leaves visit_items
    link_child set_parents split_leaf split_internal grow_root split_child insert_item
    range_by_rank_visit remove_by_score find_item remove_item handle_underflow find_child_index
    rebalance_child rebalance try_right merge_child merge_with_left_sibling merge_with_right_sibling
    after_merge collapse_root merge_siblings join_leaves join_inner unlink_child
    borrow_from_left_sibling borrow_from_right_sibling borrow_leaf_left borrow_leaf_right
    borrow_inner_left borrow_inner_right put_separator
seven = refl

abbrev leaf : List ℕ → Option ℕ → BTreeNode
leaf items next = record {
  items = items;
  children = [];
  is_leaf = true;
  parent = some 1;
  next = next;
}

abbrev four : BTreeIndex toy
four = record {
  tree = record {
    nodes =
        leaf (1 ∷ 3 ∷ []) (some 2)
        ∷ record {
          items = 0 ∷ [];
          children = 0 ∷ 2 ∷ [];
          is_leaf = false;
          parent = none;
          next = none;
        }
        ∷ leaf (0 ∷ 2 ∷ []) none
        ∷ [];
    root = 1;
    degree = 4;
  };
  store =
      record { score = 5; member = codes "e" }
      ∷ record { score = 1; member = codes "a" }
      ∷ record { score = 9; member = codes "i" }
      ∷ record { score = 3; member = codes "c" }
      ∷ [];
}

four_added : add_all toy 5 nothing (take 4 pairs) ≡ ok (four, 4)
unfolding add new_btree beq compare_to split_node child_index bytes_lt insert_sorted find_member
    descend_index find_leaf link_child split_leaf grow_root split_child insert_item
four_added = refl

four-Leaves : Leaves four.tree 1 0 (2 ∷ [])
four-Leaves = record {
  first = (omega arith, refl, (0, refl, (refl, omega arith, refl)));
  chain = (refl, omega arith, refl, (refl, omega arith, refl, refl));
}

four-Enough : Enough 5 1 (2 ∷ [])
four-Enough = record { levels = omega arith; leaves = omega arith }

abbrev four_items : List (Item toy)
four_items =
    record { score = 1; member = codes "a" }
    ∷ record { score = 3; member = codes "c" }
    ∷ record { score = 5; member = codes "e" }
    ∷ record { score = 9; member = codes "i" }
    ∷ []

four-PointTo : PointTo toy four.store (leaf_items four.tree.nodes (0 ∷ 2 ∷ [])) four_items
four-PointTo = (refl, (refl, (refl, (refl, tt))))

count-Leaves_example : count 5 four.tree ≡ ok 4
count-Leaves_example = count-Leaves 5 four.tree 1 0 (2 ∷ []) four-Leaves four-Enough

get_rank-Leaves_example :
    get_rank toy 5 four (codes "e") ≡ ok (rank_in toy (codes "e") 0 four_items)
get_rank-Leaves_example =
    get_rank-Leaves toy 5 four (codes "e") 1 0 (2 ∷ []) four_items four-Leaves four-PointTo
      four-Enough

get_by_rank-get_rank_example :
    (i : ℕ) × (x : Item toy) × (get_by_rank toy 5 four (pos 2) ≡ ok (some i))
    × (get_elem? four.store i ≡ some x)
    × (x.member ≡ codes "e")
get_by_rank-get_rank_example =
    get_by_rank-get_rank toy 5 four (codes "e") 2 1 0 (2 ∷ []) four_items four-Leaves four-PointTo
      four-Enough (get_rank-Leaves_example ∙ (unfold beq in refl))

abbrev three : BTreeIndex toy
three = record { tree = lone 4 (1 ∷ 0 ∷ 2 ∷ []); store = take 3 four.store }

three-Indexed : Indexed three.tree (λ x. x == 0) (λ x. 0) 0 0 [] 3
three-Indexed = lone-Indexed 4 (1 ∷ 0 ∷ 2 ∷ []) 3 (λ i m. elim m [
  | inl e ↦ omega (arith, e)
  | inr (inl e) ↦ omega (arith, e)
  | inr (inr (inl e)) ↦ omega (arith, e)
  | inr (inr (inr n)) ↦ absurd n
])

-- The fourth item splits the root.
add-Indexed_example :
    (t' : BTreeIndex toy) × (r : ℕ) × (add toy 2 three 3 (codes "c") ≡ ok (t', r))
    × Added toy three t' 0 1 (1 ∷ 0 ∷ 2 ∷ []) 3 (codes "c") r
add-Indexed_example =
    add-Indexed toy 2 three 3 b'c' [] (λ x. x == 0) (λ x. 0) 0 0 [] three-Indexed (omega arith)
      (omega arith)

count-add_all_example :
    (t' : BTreeIndex toy) × (n : ℕ) × (m : ℕ) × (add_all toy 13 nothing pairs ≡ ok (t', n))
    × ((fuel : ℕ) → m < fuel → count fuel t'.tree ≡ ok n)
count-add_all_example = count-add_all toy 4 pairs (omega arith)

enough_items :
    (p : ℕ) → (p == 0) ≡ true → min_items three.tree < length (node three.tree.nodes p).items
enough_items zero e = omega arith
enough_items (suc p) e = absurd (ground arith)

-- An item that no minimum holds back.
remove_by_score-Indexed_example :
    (t' : BTreeIndex toy) × (r : ℕ) × (remove_by_score toy 2 three 5 (codes "e") ≡ ok (t', r))
    × Removed toy three t' (λ x. x == 0) (λ x. 0) 0 0 [] 5 (codes "e") r
remove_by_score-Indexed_example =
    remove_by_score-Indexed toy 2 three 5 (codes "e") (λ x. x == 0) (λ x. 0) 0 0 [] three-Indexed
      (λ p lp leaf. enough_items p lp) (omega arith)

-- The factory gives a tree of the default degree.
made :
    new_ordered_index toy (record { index_type = codes "btree"; degree = pos 0; max_level = pos 0 })
    ≡ ok (b_tree nothing)
unfolding new_ordered_index beq
made = refl
