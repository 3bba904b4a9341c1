-- ===== src/SortedSet/Scores.antt =====
-- The map of scores of internal/data_structure/sorted_set/sorted_set.go, over any index.
use redi_go.Prelude.{Bytes, ℕ, [], ◌∷◌, ◌≡◌, ap, Option, none, some, ◌==◌, if_elim}
use mathlib.Core.Path.{transport}
use redi_go.Go.Map
use redi_go.Go.Map.{IsMap}
use redi_go.Go.Float.{Floats}
use redi_go.Go.Result.{Result, ok, err, panic, hang, ◌>>=◌}
use redi_go.SortedSet.{
  SortedSet, new_sorted_set, add, add_known, update_score, insert_score, scored,
}
use redi_go.SortedSet.Interface.{OrderedIndex}

module _ (F : Floats) (I : OrderedIndex F) where
  -- No member has two scores.
  abbrev pub HasScores : SortedSet F I → Type 0
  HasScores ss = IsMap ss.member_score

  abbrev Kept : Result (SortedSet F I × ℕ) → Type 0
  Kept (ok r) = HasScores r.0
  Kept (err e) = Unit {0}
  Kept panic = Unit {0}
  Kept hang = Unit {0}

  scored-Kept :
      (ss : SortedSet F I) (score : F.Float) (m : Bytes) (r : Result (I.Index × ℕ))
      → HasScores ss
      → Kept (r >>= λ q. ok (scored F I ss score m q))
  scored-Kept ss score m (ok q) k =
      if_elim (λ scores. IsMap scores) (q.1 == 1) (Map.put-IsMap ss.member_score m score k) k
  scored-Kept ss score m (err e) k = tt
  scored-Kept ss score m panic k = tt
  scored-Kept ss score m hang k = tt

  put-Kept :
      (ss : SortedSet F I) (score : F.Float) (m : Bytes) (r : Result (I.Index × ℕ))
      → HasScores ss
      → Kept (
          r >>= λ q. ok (record { index = q.0; member_score = Map.put ss.member_score m score }, 0))
  put-Kept ss score m (ok q) k = Map.put-IsMap ss.member_score m score k
  put-Kept ss score m (err e) k = tt
  put-Kept ss score m panic k = tt
  put-Kept ss score m hang k = tt

  update-Kept :
      (ss : SortedSet F I) (score : F.Float) (m : Bytes) (r : Result (I.Index × ℕ))
      → HasScores ss
      → Kept (
          r >>= λ q.
          (I.add q.0 score m >>= λ q'.
          ok (record { index = q'.0; member_score = Map.put ss.member_score m score }, 0)))
  update-Kept ss score m (ok q) k = put-Kept ss score m (I.add q.0 score m) k
  update-Kept ss score m (err e) k = tt
  update-Kept ss score m panic k = tt
  update-Kept ss score m hang k = tt

  add_known-Kept :
      (ss : SortedSet F I) (score : F.Float) (m : Bytes) (old : Option F.Float)
      → HasScores ss
      → Kept (add_known F I ss score m old)
  unfolding add_known insert_score update_score
  add_known-Kept ss score m none k = scored-Kept ss score m (I.add ss.index score m) k
  add_known-Kept ss score m (some old) k =
      if_elim Kept (F.eq old score) k (update-Kept ss score m (I.remove_by_score ss.index old m) k)

  add-Kept :
      (ss : SortedSet F I) (score : F.Float) (m : Bytes) → HasScores ss → Kept (add F I ss score m)
  unfolding add
  add-Kept ss score [] k = k
  add-Kept ss score (c ∷ s) k = add_known-Kept ss score (c ∷ s) (Map.get ss.member_score (c ∷ s)) k

  pub add-HasScores :
      (ss ss' : SortedSet F I) (score : F.Float) (m : Bytes) (n : ℕ)
      → HasScores ss
      → add F I ss score m ≡ ok (ss', n)
      → HasScores ss'
  add-HasScores ss ss' score m n k e = transport (ap Kept e) (add-Kept ss score m k)

  pub new-HasScores : HasScores (new_sorted_set F I)
  unfolding new_sorted_set
  new-HasScores = Map.empty-IsMap F.Float
