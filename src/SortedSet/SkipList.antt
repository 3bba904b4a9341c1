-- ===== src/SortedSet/SkipList.antt =====
-- internal/data_structure/sorted_set/skiplist_index.go: the nodes, and the search for a member.
--
-- A pointer is a position in the store of the nodes, and the head is the node 0. A `uint32` is a
-- number with its wrap-around written out. The loops along one level have fuel.
pub mod Chain
pub mod Insert
pub mod Remove
use redi_go.Prelude.{
  Bytes, bytes_lt, ℕ, zero, suc, ◌+◌, ◌-◌, ◌%◌, ◌^◌, List, [], ◌∷◌, ◌++◌, Bool, true, false, ◌&&◌,
  ◌||◌, Option, none, some, beq, ltb, if◌then◌else◌, length, get_elem?, set, replicate,
}
use redi_go.Prelude.Int.{ℤ, pos, negsuc}
use redi_go.Go.Result.{Result, ok, panic, hang, ◌>>=◌}
use redi_go.Go.Float.{Floats}

abbrev pub skiplist_max_level : ℕ
skiplist_max_level = 32

-- `+` and `-` of `uint32`
abbrev pub add32 : ℕ → ℕ → ℕ
add32 a b = (a + b) % 2 ^ 32

abbrev pub sub32 : ℕ → ℕ → ℕ
sub32 a b = (a + 2 ^ 32 - b) % 2 ^ 32

pub record SkiplistLevel : Type 0 where
  pub forward : Option ℕ
  pub span : ℕ

abbrev pub no_level : SkiplistLevel
no_level = record { forward = none; span = 0 }

-- `randomLevel`, with the number of times that Intn(2) draws 1 in a row.
unfoldable pub random_level : ℕ → ℕ
random_level draws = if ltb skiplist_max_level (suc draws) then skiplist_max_level else suc draws

abbrev pub slot {ℓ} : {A : Type ℓ} → Option A → Result A
slot none = panic
slot (some a) = ok a

module _ (F : Floats) where
  pub record SkiplistNode : Type 0 where
    pub ele : Bytes
    pub score : F.Float
    pub backward : Option ℕ
    pub levels : List SkiplistLevel

  -- SkipListIndex; the source of its random numbers is an argument of `insert`.
  pub record SkipList : Type 0 where
    pub nodes : List SkiplistNode
    pub tail : Option ℕ
    pub size : ℕ
    pub level : ℕ

  unfoldable pub create_node : ℕ → F.Float → Bytes → SkiplistNode
  create_node level score ele = record {
    ele = ele;
    score = score;
    backward = none;
    levels = replicate level no_level;
  }

  unfoldable pub new_skip_list : SkipList
  unfolding create_node
  new_skip_list = record {
    nodes = create_node skiplist_max_level F.zero [] ∷ [];
    tail = none;
    size = 0;
    level = 1;
  }

  abbrev pub node_at : List SkiplistNode → ℕ → Result SkiplistNode
  node_at ns p = slot (get_elem? ns p)

  -- x.levels[i]
  abbrev pub level_at : List SkiplistNode → ℕ → ℕ → Result SkiplistLevel
  level_at ns p i = do n ← node_at ns p; slot (get_elem? n.levels i)

  -- x.levels[i] = v
  abbrev pub put_level : List SkiplistNode → ℕ → ℕ → SkiplistLevel → Result (List SkiplistNode)
  put_level ns p i v = do
    n ← node_at ns p
    old ← slot (get_elem? n.levels i)
    ok (set ns p (record n { levels = set n.levels i v }))

  -- The test of the loops of `insert`, `deleteByNode` and `RemoveByScore`: the node comes before.
  unfoldable pub is_before : F.Float → Bytes → SkiplistNode → Bool
  is_before score ele n = F.lt n.score score || (F.eq n.score score && bytes_lt n.ele ele)

  -- The test of `getRankByScoreAndMember`: the node comes before or is the one.
  unfoldable pub is_up_to : F.Float → Bytes → SkiplistNode → Bool
  is_up_to score ele n =
      F.lt n.score score || (F.eq n.score score && (bytes_lt n.ele ele || beq n.ele ele))

  -- The inner loop at the level `i`: from `x`, with `rank` in front of it, as far as `test` holds of the
  -- next node.
  unfoldable pub walk_level :
      (SkiplistNode → Bool) → ℕ → List SkiplistNode → ℕ → ℕ → ℕ → Result (ℕ × ℕ)
  walk_level test zero ns i x rank = hang
  walk_level test (suc fuel) ns i x rank = do
    here ← level_at ns x i
    elim here.forward [
      | none ↦ ok (x, rank)
      | some y ↦ do
        next ← node_at ns y
        let rest = walk_level test fuel ns i y (add32 rank here.span)
        if test next then rest else ok (x, rank)
    ]

  -- The loop from the highest level down, with what it writes to `update` and `rank`: element `i` is for
  -- the level `i`.
  unfoldable pub search_path :
      (SkiplistNode → Bool) → ℕ → List SkiplistNode → ℕ → ℕ → ℕ → Result (List (ℕ × ℕ))
  unfolding walk_level
  search_path test fuel ns zero x rank = ok []
  search_path test fuel ns (suc i) x rank = do
    r ← walk_level test fuel ns i x rank
    lower ← search_path test fuel ns i r.0 r.1
    ok (lower ++ r ∷ [])

  -- `findMember`, from a pointer on.
  unfoldable pub find_from : ℕ → List SkiplistNode → Bytes → Option ℕ → Result (Option ℕ)
  find_from zero ns member x = hang
  find_from (suc fuel) ns member none = ok none
  find_from (suc fuel) ns member (some p) = do
    n ← node_at ns p
    here ← level_at ns p 0
    let rest = find_from fuel ns member here.forward
    if beq n.ele member then ok (some p) else rest

  unfoldable pub find_member : ℕ → SkipList → Bytes → Result (Option ℕ)
  unfolding find_from
  find_member fuel sl member = do
    here ← level_at sl.nodes 0 0
    find_from fuel sl.nodes member here.forward

  -- The loop of `getRankByScoreAndMember` over the levels.
  unfoldable pub rank_down : ℕ → List SkiplistNode → F.Float → Bytes → ℕ → ℕ → ℕ → Result ℕ
  unfolding walk_level
  rank_down fuel ns score ele zero x rank = ok 0
  rank_down fuel ns score ele (suc i) x rank = do
    r ← walk_level (is_up_to score ele) fuel ns i x rank
    n ← node_at ns r.0
    let lower = rank_down fuel ns score ele i r.0 r.1
    if F.eq n.score score && beq n.ele ele then ok r.1 else lower

  unfoldable pub get_rank_by_score_and_member : ℕ → SkipList → F.Float → Bytes → Result ℕ
  unfolding rank_down
  get_rank_by_score_and_member fuel sl score ele = rank_down fuel sl.nodes score ele sl.level 0 0

  abbrev pub index_of_rank : ℕ → ℤ
  index_of_rank zero = negsuc 0
  index_of_rank (suc rank) = pos rank

  unfoldable pub get_rank : ℕ → SkipList → Bytes → Result ℤ
  unfolding find_member get_rank_by_score_and_member
  get_rank fuel sl member = do
    found ← find_member fuel sl member
    elim found [
      | none ↦ ok (negsuc 0)
      | some p ↦ do
        n ← node_at sl.nodes p
        rank ← get_rank_by_score_and_member fuel sl n.score member
        ok (index_of_rank rank)
    ]
