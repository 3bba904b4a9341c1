-- ===== src/SortedSet/Indexes.antt =====
-- The indexes of internal/data_structure/sorted_set that implement its interface.
use redi_go.Prelude.{ℕ, []}
use redi_go.Go.Float.{Floats}
use redi_go.SortedSet.Interface.{OrderedIndex}
use redi_go.SortedSet.BTree
use redi_go.SortedSet.BTree.{BTreeIndex, new_btree}
use redi_go.SortedSet.BTree.Add
use redi_go.SortedSet.BTree.Remove

module _ (F : Floats) where
  -- The B+ tree of a degree, with fuel for the loops of each call.
  abbrev pub btree_index : ℕ → ℕ → OrderedIndex F
  btree_index fuel degree = record {
    Index = BTreeIndex F;
    new = record { tree = new_btree degree; store = [] };
    add = Add.add F fuel;
    get_rank = BTree.get_rank F fuel;
    remove_by_score = Remove.remove_by_score F fuel;
  }
