-- ===== src/SortedSet/Factory.antt =====
-- internal/data_structure/sorted_set/ordered_index_factory.go: the choice of an index.
use redi_go.Prelude.{Bytes, codes, ℕ, zero, suc, [], ◌++◌, beq, if◌then◌else◌}
use redi_go.Prelude.Int.{ℤ, pos, negsuc}
use redi_go.Go.Result.{Result, ok, err}
use redi_go.Go.Float.{Floats}
use redi_go.SortedSet.BTree.{BTreeIndex, new_btree}
use redi_go.SortedSet.SkipList.{SkipList, new_skip_list}

pub record IndexConfig : Type 0 where
  pub index_type : Bytes
  pub degree : ℤ
  pub max_level : ℤ

abbrev pub index_type_btree : Bytes
index_type_btree = codes "btree"

abbrev pub index_type_skip_list : Bytes
index_type_skip_list = codes "skiplist"

-- A degree of 0 or less is replaced by the default.
abbrev pub degree_of : ℤ → ℕ
degree_of (pos zero) = 4
degree_of (pos (suc n)) = suc n
degree_of (negsuc n) = 4

module _ (F : Floats) where
  pub data AnyIndex : Type 0 where
    b_tree : BTreeIndex F → AnyIndex
    skip_list : SkipList F → AnyIndex

  -- `NewOrderedIndex`. A skip list does not use `max_level`.
  unfoldable pub new_ordered_index : IndexConfig → Result AnyIndex
  new_ordered_index config =
      if beq config.index_type index_type_btree
      then ok (b_tree (record { tree = new_btree (degree_of config.degree); store = [] }))
      else if beq config.index_type index_type_skip_list
      then ok (skip_list (new_skip_list F))
      else err (codes "unsupported index type: " ++ config.index_type)
