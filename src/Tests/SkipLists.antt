-- ===== src/Tests/SkipLists.antt =====
-- The index by a skip list on toy numbers.
use redi_go.Prelude.{
  Bytes, codes, beq, bytes_lt, ℕ, List, [], ◌∷◌, ◌≡◌, refl, Option, none, some, map,
}
use redi_go.Prelude.Int.{ℤ, pos, negsuc}
use redi_go.Go.Result.{Result, ok, ◌>>=◌}
use redi_go.SortedSet.SkipList.{
  SkiplistLevel, SkiplistNode, SkipList, new_skip_list, get_rank, is_up_to,
}
use redi_go.SortedSet.SkipList.Insert.{add}
use redi_go.SortedSet.SkipList.Remove.{remove_by_score}
use redi_go.Tests.ToyFloats.{toy}

-- A score, a member and the draws for its level.
abbrev add_all : SkipList toy → List (ℕ × Bytes × ℕ) → Result (SkipList toy)
add_all sl [] = ok sl
add_all sl ((score, member, draws) ∷ xs) = do r ← add toy 9 draws sl score member; add_all r.0 xs

abbrev ranks : SkipList toy → List Bytes → Result (List ℤ)
ranks sl [] = ok []
ranks sl (m ∷ ms) = do r ← get_rank toy 9 sl m; rs ← ranks sl ms; ok (r ∷ rs)

abbrev five : Result (SkipList toy)
five = add_all (new_skip_list toy) (
    (5, codes "e", 1)
    ∷ (1, codes "a", 0)
    ∷ (5, codes "d", 3)
    ∷ (9, codes "i", 0)
    ∷ (3, codes "c", 2)
    ∷ [])

five-ranks :
    (do sl ← five; ranks sl (map codes ("a" ∷ "c" ∷ "d" ∷ "e" ∷ "i" ∷ "x" ∷ [])))
    ≡ ok (pos 0 ∷ pos 1 ∷ pos 2 ∷ pos 3 ∷ pos 4 ∷ negsuc 0 ∷ [])
unfolding add get_rank new_skip_list beq bytes_lt is_up_to
five-ranks = refl

-- The highest node is removed: the result, the level and the length, and the ranks after it.
one_removed :
    (do
      sl ← five
      r ← remove_by_score toy 9 sl 5 (codes "d")
      rs ← ranks r.0 (map codes ("a" ∷ "c" ∷ "d" ∷ "e" ∷ "i" ∷ []))
      ok (pos r.1 ∷ pos r.0.level ∷ pos r.0.size ∷ rs))
    ≡ ok (pos 1 ∷ pos 3 ∷ pos 4 ∷ pos 0 ∷ pos 1 ∷ negsuc 0 ∷ pos 2 ∷ pos 3 ∷ [])
unfolding add get_rank remove_by_score new_skip_list beq bytes_lt is_up_to
one_removed = refl

abbrev level : Option ℕ → SkiplistLevel
level next = record { forward = next; span = 1 }

abbrev ann : SkiplistNode toy
ann = record { ele = codes "ann"; score = 1; backward = none; levels = level (some 2) ∷ [] }

abbrev bob : SkiplistNode toy
bob = record { ele = codes "bob"; score = 2; backward = some 1; levels = level none ∷ [] }

abbrev two : SkipList toy
two = record {
  nodes =
      record { ele = []; score = 0; backward = none; levels = level (some 1) ∷ [] }
      ∷ ann
      ∷ bob
      ∷ [];
  tail = some 2;
  size = 2;
  level = 1;
}
