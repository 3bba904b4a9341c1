-- ===== src/SortedSet.antt =====
-- internal/data_structure/sorted_set/sorted_set.go, over the interface of sorted_set_interfaces.go.
pub mod Agreeing
pub mod BTree
pub mod Factory
pub mod Interface
pub mod Item
pub mod SkipList
pub mod Scores
pub mod Fresh
pub mod Indexes
use redi_go.Prelude.{
  Bytes, ℕ, zero, suc, [], ◌∷◌, Bool, true, false, Option, none, some, ◌==◌, if◌then◌else◌,
}
use redi_go.Prelude.Int.{ℤ}
use redi_go.Go.Map
use redi_go.Go.Map.{Map}
use redi_go.Go.Float.{Floats}
use redi_go.Go.Result.{Result, ok, ◌>>=◌}
use redi_go.SortedSet.Interface.{OrderedIndex}

module _ (F : Floats) (I : OrderedIndex F) where
  open F use {Float}
  open I use {Index}

  pub record SortedSet : Type 0 where
    pub index : Index
    pub member_score : Map Float

  unfoldable pub new_sorted_set : SortedSet
  new_sorted_set = record { index = I.new; member_score = Map.empty }

  -- The member is known, with its old score. What the two calls of the index return is not looked at.
  update_score : SortedSet → Float → Bytes → Float → Result (SortedSet × ℕ)
  update_score ss score member old_score = do
    removed ← I.remove_by_score ss.index old_score member
    added ← I.add removed.0 score member
    ok (record { index = added.0; member_score = Map.put ss.member_score member score }, 0)

  -- The member is new.
  abbrev scored : SortedSet → Float → Bytes → Index × ℕ → SortedSet × ℕ
  scored ss score member (index', result) = (
    record {
      index = index';
      member_score = if result == 1 then Map.put ss.member_score member score else ss.member_score;
    },
    result,
  )

  insert_score : SortedSet → Float → Bytes → Result (SortedSet × ℕ)
  insert_score ss score member = do r ← I.add ss.index score member; ok (scored ss score member r)

  add_known : SortedSet → Float → Bytes → Option Float → Result (SortedSet × ℕ)
  unfolding update_score insert_score
  add_known ss score member none = insert_score ss score member
  add_known ss score member (some old_score) =
      let update = update_score ss score member old_score in
      if F.eq old_score score then ok (ss, 0) else update

  unfoldable pub add : SortedSet → Float → Bytes → Result (SortedSet × ℕ)
  unfolding add_known
  add ss score [] = ok (ss, 0)
  add ss score (c ∷ s) = add_known ss score (c ∷ s) (Map.get ss.member_score (c ∷ s))

  unfoldable pub get_score : SortedSet → Bytes → Option Float
  get_score ss member = Map.get ss.member_score member

  unfoldable pub get_rank : SortedSet → Bytes → Result ℤ
  get_rank ss member = I.get_rank ss.index member

  abbrev unscored : SortedSet → Bytes → Index × ℕ → SortedSet × ℕ
  unscored ss member (index', result) = (
    record {
      index = index';
      member_score = if result == 1 then Map.delete ss.member_score member else ss.member_score;
    },
    result,
  )

  remove_known : SortedSet → Bytes → Option Float → Result (SortedSet × ℕ)
  remove_known ss member none = ok (ss, 0)
  remove_known ss member (some score) = do
    r ← I.remove_by_score ss.index score member
    ok (unscored ss member r)

  unfoldable pub remove : SortedSet → Bytes → Result (SortedSet × ℕ)
  unfolding remove_known
  remove ss [] = ok (ss, 0)
  remove ss (c ∷ s) = remove_known ss (c ∷ s) (Map.get ss.member_score (c ∷ s))
