-- ===== src/SortedSet/Interface.antt =====
-- internal/data_structure/sorted_set/sorted_set_interfaces.go: what a sorted set asks of its index.
use redi_go.Prelude.{Bytes, ℕ}
use redi_go.Prelude.Int.{ℤ}
use redi_go.Go.Float.{Floats}
use redi_go.Go.Result.{Result}

-- A method that changes the index returns the new one beside its result. A method may panic.
pub record OrderedIndex (F : Floats) : Type 1 where
  pub Index : Type 0
  -- the index that `NewSortedSet` makes
  pub new : Index
  pub add : Index → F.Float → Bytes → Result (Index × ℕ)
  pub get_rank : Index → Bytes → Result ℤ
  pub remove_by_score : Index → F.Float → Bytes → Result (Index × ℕ)
