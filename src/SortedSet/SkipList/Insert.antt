-- ===== src/SortedSet/SkipList/Insert.antt =====
-- `insert` and `Add` of internal/data_structure/sorted_set/skiplist_index.go.
use redi_go.Prelude.{
  Bytes, ℕ, zero, suc, ◌+◌, ◌-◌, List, [], ◌∷◌, ◌++◌, Option, none, some, ltb, if◌then◌else◌,
  length, get_elem?, set, replicate,
}
use redi_go.Go.Result.{Result, ok, ◌>>=◌}
use redi_go.Go.Float.{Floats}
use redi_go.SortedSet.SkipList.{
  SkiplistNode, SkipList, add32, sub32, random_level, create_node, node_at, level_at, put_level,
  slot, is_before, search_path,
}

module _ (F : Floats) where
  -- The spans of the head at the levels `i` to `i + n - 1`, which are new.
  unfoldable pub raise_head : ℕ → ℕ → ℕ → List (SkiplistNode F) → Result (List (SkiplistNode F))
  raise_head size i zero ns = ok ns
  raise_head size i (suc n) ns = do
    l ← level_at F ns 0 i
    ns' ← put_level F ns 0 i (record l { span = size })
    raise_head size (suc i) n ns'

  -- The new node `x` is put in at the level `i`; `rank0` is rank[0].
  unfoldable pub link_level :
      ℕ → ℕ → ℕ × ℕ → ℕ → List (SkiplistNode F) → Result (List (SkiplistNode F))
  link_level x i (u, rank) rank0 ns = do
    l ← level_at F ns u i
    ns1 ←
        put_level F ns x i (record { forward = l.forward; span = sub32 l.span (sub32 rank0 rank) })
    put_level F ns1 u i (record { forward = some x; span = add32 (sub32 rank0 rank) 1 })

  unfoldable pub bump_level : ℕ → ℕ → List (SkiplistNode F) → Result (List (SkiplistNode F))
  bump_level u i ns = do
    l ← level_at F ns u i
    put_level F ns u i (record l { span = add32 l.span 1 })

  -- The two loops over the levels: the new node has levels below `level`, and the others only get longer.
  unfoldable pub link_levels :
      ℕ → ℕ → ℕ → ℕ → List (ℕ × ℕ) → List (SkiplistNode F) → Result (List (SkiplistNode F))
  unfolding link_level bump_level
  link_levels x level rank0 i [] ns = ok ns
  link_levels x level rank0 i (u ∷ us) ns = do
    ns' ← if ltb i level then link_level x i u rank0 ns else bump_level u.0 i ns
    link_levels x level rank0 (suc i) us ns'

  -- update[0] is the head, or the node before the new one.
  abbrev pub backward_of : ℕ → Option ℕ
  backward_of zero = none
  backward_of (suc p) = some (suc p)

  -- The backward pointers around the new node `x`, and the tail.
  unfoldable pub link_back : ℕ → ℕ → SkipList F → Result (SkipList F)
  link_back x before sl = do
    n ← node_at F sl.nodes x
    l ← slot (get_elem? n.levels 0)
    let ns = set sl.nodes x (record n { backward = backward_of before })
    elim l.forward [
      | none ↦ ok (record sl { nodes = ns; tail = some x })
      | some y ↦ do
        m ← node_at F ns y
        ok (record sl { nodes = set ns y (record m { backward = some x }) })
    ]

  unfoldable pub insert : ℕ → ℕ → SkipList F → F.Float → Bytes → Result (SkipList F)
  unfolding is_before search_path random_level raise_head create_node link_levels link_back
  insert fuel draws sl score ele = do
    path ← search_path F (is_before F score ele) fuel sl.nodes sl.level 0 0
    let level = random_level draws
    let added = level - sl.level
    ns ← raise_head sl.size sl.level added sl.nodes
    let path' = path ++ replicate added (0, 0)
    first ← slot (get_elem? path' 0)
    let x = length ns
    ns' ← link_levels x level first.1 0 path' (ns ++ create_node F level score ele ∷ [])
    sl' ← link_back x first.0 (record sl { nodes = ns'; level = sl.level + added })
    ok (record sl' { size = add32 sl.size 1 })

  -- `Add`
  unfoldable pub add : ℕ → ℕ → SkipList F → F.Float → Bytes → Result (SkipList F × ℕ)
  unfolding insert
  add fuel draws sl score member = do sl' ← insert fuel draws sl score member; ok (sl', 1)
