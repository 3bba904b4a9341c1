-- ===== src/Tests/SortedSets.antt =====
-- A sorted set over the B+ tree of degree 4, in toy numbers.
use redi_go.Prelude.{
  Bytes, codes, ℕ, List, [], ◌∷◌, ◌≡◌, refl, none, arith, beq, beq_iff, In, Distinct, bytes_lt, inl,
  inr,
}
use redi_go.Go.Map
use redi_go.Go.Result.{Result, ok, ◌>>=◌}
use redi_go.SortedSet.{new_sorted_set, get_score, add, remove}
use redi_go.SortedSet.Item.{compare_to}
use redi_go.SortedSet.BTree.{new_btree}
use redi_go.SortedSet.BTree.Add
use redi_go.SortedSet.BTree.Remove
use redi_go.SortedSet.Interface.{OrderedIndex}
use redi_go.SortedSet.Indexes.{btree_index}
use redi_go.SortedSet.Agreeing.{TreeSet, Agreeing}
use redi_go.SortedSet.Fresh.{add_each, members_of, given_score, add_each-Agreeing}
use redi_go.Tests.ToyFloats.{toy}

abbrev pub tree : OrderedIndex toy
tree = btree_index toy 9 4

abbrev two_members : List (ℕ × Bytes)
two_members = (2, codes "b") ∷ (1, codes "a") ∷ []

named : ¬ (In [] (members_of toy 9 4 two_members))
named (inl e) = absurd cc
named (inr (inl e)) = absurd cc
named (inr (inr i)) = elim i [ ]

apart : Distinct (members_of toy 9 4 two_members)
unfolding beq
apart = (
  λ i. elim i [
    | inl e ↦ ground (arith, (beq_iff (codes "b") (codes "a")).1 e)
    | inr m ↦ elim m [ ]
  ],
  (λ i. elim i [ ], tt),
)

add_each-Agreeing_example :
    (ss : TreeSet toy 9 4) × (add_each toy 9 4 (new_sorted_set toy tree) two_members ≡ ok (ss, 2))
    × ((j : Bytes) → get_score toy tree ss j ≡ given_score toy 9 4 two_members j none)
    × Agreeing toy 9 4 ss 0 2
add_each-Agreeing_example =
    add_each-Agreeing toy 9 4 two_members (omega arith) (omega arith) named apart

abbrev one_score : List (ℕ × Bytes)
one_score = (1, codes "a") ∷ (1, codes "b") ∷ (1, codes "c") ∷ (1, codes "d") ∷ []

abbrev removed : Result ℕ
removed = do
  r ← add_each toy 9 4 (new_sorted_set toy tree) one_score
  q ← remove toy tree r.0 (codes "a")
  ok q.1

-- Four members of one score are in two leaves, and `Remove` does not find the first of them.
remove_misses : removed ≡ ok 0
unfolding new_sorted_set add remove Add.add Add.find_leaf Add.find_member Add.insert_item
    Add.insert_sorted Add.descend_index Add.split_node new_btree Remove.remove_by_score
    Remove.find_item Remove.remove_item Add.grow_root Add.split_child Add.split_leaf Add.child_index
    Add.link_child Add.set_parents compare_to bytes_lt Map.get Map.put Map.empty Map.find
    Map.without beq
remove_misses = refl
