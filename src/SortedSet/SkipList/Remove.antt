-- ===== src/SortedSet/SkipList/Remove.antt =====
-- `deleteNode`, `deleteByNode` and `RemoveByScore` of internal/data_structure/sorted_set/skiplist_index.go.
use redi_go.Prelude.{
  Bytes, ℕ, zero, suc, List, [], ◌∷◌, Bool, false, ◌&&◌, Option, none, some, beq, ◌==◌,
  if◌then◌else◌, get_elem?, set,
}
use redi_go.Go.Result.{Result, ok, ◌>>=◌}
use redi_go.Go.Float.{Floats}
use redi_go.SortedSet.SkipList.{
  SkiplistNode, SkipList, add32, sub32, node_at, level_at, put_level, slot, is_before, search_path,
}

-- update[i].levels[i].forward == x
abbrev pub points_to : Option ℕ → ℕ → Bool
points_to none x = false
points_to (some y) x = y == x

module _ (F : Floats) where
  -- The node `x` is taken out at the level `i`.
  unfoldable pub unlink_level : ℕ → ℕ → ℕ → List (SkiplistNode F) → Result (List (SkiplistNode F))
  unlink_level x i u ns = do
    l ← level_at F ns u i
    let past = do
      here ← level_at F ns x i
      put_level F ns u i
          (record { forward = here.forward; span = add32 l.span (sub32 here.span 1) })
    if points_to l.forward x then past else put_level F ns u i (record l { span = sub32 l.span 1 })

  unfoldable pub unlink_levels :
      ℕ → ℕ → List (ℕ × ℕ) → List (SkiplistNode F) → Result (List (SkiplistNode F))
  unfolding unlink_level
  unlink_levels x i [] ns = ok ns
  unlink_levels x i (u ∷ us) ns = do ns' ← unlink_level x i u.0 ns; unlink_levels x (suc i) us ns'

  -- for sl.level > 1 && sl.head.levels[sl.level-1].forward == nil { sl.level-- }
  unfoldable pub lower_level : ℕ → List (SkiplistNode F) → Result ℕ
  lower_level zero ns = ok zero
  lower_level (suc zero) ns = ok 1
  lower_level (suc (suc n)) ns = do
    l ← level_at F ns 0 (suc n)
    let lower = lower_level (suc n) ns
    elim l.forward [ none ↦ lower | some y ↦ ok (suc (suc n)) ]

  -- The backward pointer behind `x`, or the tail.
  unfoldable pub unlink_back : ℕ → SkipList F → Result (SkipList F)
  unlink_back x sl = do
    n ← node_at F sl.nodes x
    l ← slot (get_elem? n.levels 0)
    elim l.forward [
      | none ↦ ok (record sl { tail = n.backward })
      | some y ↦ do
        m ← node_at F sl.nodes y
        ok (record sl { nodes = set sl.nodes y (record m { backward = n.backward }) })
    ]

  -- `deleteNode`, with `update` for the levels below `sl.level`.
  unfoldable pub delete_node : ℕ → List (ℕ × ℕ) → SkipList F → Result (SkipList F)
  unfolding unlink_levels unlink_back lower_level
  delete_node x update sl = do
    ns ← unlink_levels x 0 update sl.nodes
    sl' ← unlink_back x (record sl { nodes = ns })
    level ← lower_level sl.level sl'.nodes
    ok (record sl' { level = level; size = sub32 sl.size 1 })

  unfoldable pub delete_by_node : ℕ → ℕ → SkipList F → Result (SkipList F)
  unfolding is_before search_path delete_node
  delete_by_node fuel x sl = do
    n ← node_at F sl.nodes x
    update ← search_path F (is_before F n.score n.ele) fuel sl.nodes sl.level 0 0
    delete_node x update sl

  unfoldable pub remove_by_score : ℕ → SkipList F → F.Float → Bytes → Result (SkipList F × ℕ)
  unfolding is_before search_path delete_node
  remove_by_score fuel sl score member = do
    update ← search_path F (is_before F score member) fuel sl.nodes sl.level 0 0
    first ← slot (get_elem? update 0)
    l ← level_at F sl.nodes first.0 0
    elim l.forward [
      | none ↦ ok (sl, 0)
      | some x ↦ do
        n ← node_at F sl.nodes x
        let removed = delete_node x update sl >>= λ sl'. ok (sl', 1)
        if F.eq n.score score && beq n.ele member then removed else ok (sl, 0)
    ]
