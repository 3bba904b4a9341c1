-- ===== src/SortedSet/Item.antt =====
-- internal/data_structure/sorted_set/item.go.
use redi_go.Prelude.{Bytes, bytes_lt, if◌then◌else◌}
use redi_go.Prelude.Int.{ℤ, pos, negsuc}
use redi_go.Go.Float.{Floats}

module _ (F : Floats) where
  pub record Item : Type 0 where
    pub score : F.Float
    pub member : Bytes

  -- `>` is `<` the other way round.
  unfoldable pub compare_to : Item → Item → ℤ
  compare_to i other =
      if F.lt i.score other.score
      then negsuc 0
      else if F.lt other.score i.score
      then pos 1
      else if bytes_lt i.member other.member
      then negsuc 0
      else if bytes_lt other.member i.member
      then pos 1
      else pos 0
