-- ===== src/Probabilistic/Cms.antt =====
-- internal/data_structure/probabilistic/cms.go: a count-min sketch. MurmurHash is a vendored package,
-- and a parameter here: `hash item seed` is what `calcHash` returns.
pub mod NoWidth
pub mod Rows
pub mod Incr
pub mod Estimate
use redi_go.Prelude.{
  Bytes, ℕ, zero, suc, ◌+◌, ◌-◌, ◌*◌, ◌%◌, ◌^◌, List, [], ◌∷◌, Option, none, some, ltb, ◌==◌,
  if◌then◌else◌, get_elem?, set, replicate,
}
use redi_go.Prelude.Int.{word_mod}
use redi_go.Go.Result.{Result, ok, panic, ◌>>=◌}

pub record Cms : Type 0 where
  pub width : ℕ
  pub depth : ℕ
  pub counter : List ℕ

-- math.MaxUint64
abbrev pub max_uint64 : ℕ
max_uint64 = word_mod - 1

-- `make([]uint64, n)` panics above 2 ^ 48 bytes, and a counter has eight.
abbrev pub max_counters : ℕ
max_counters = 2 ^ 45

unfoldable pub new_cms : ℕ → ℕ → Result Cms
new_cms w d =
    let n = (w * d) % word_mod in
    if ltb max_counters n
    then panic
    else ok (record { width = w; depth = d; counter = replicate n 0 })

-- row*c.width + col
unfoldable pub get_index : Cms → ℕ → ℕ → ℕ
get_index c row col = (row * c.width + col) % word_mod

unfoldable pub read_counter : List ℕ → ℕ → Result ℕ
read_counter xs i = elim (get_elem? xs i) [ none ↦ panic | some x ↦ ok x ]

-- An addition that stops at the largest word.
unfoldable pub bump : ℕ → ℕ → ℕ
bump value x = if ltb (max_uint64 - x) value then max_uint64 else x + value

abbrev pub lower : ℕ → ℕ → ℕ
lower x low = if ltb x low then x else low

module _ (hash : Bytes → ℕ → ℕ) where
  -- The position of an item in row `i`; `hash % c.width` panics at width 0.
  unfoldable pub position : Cms → Bytes → ℕ → Result ℕ
  unfolding get_index
  position c item i =
      if c.width == 0 then panic else ok (get_index c i (hash item (i % 2 ^ 32) % c.width))

  -- The loop of `IncrBy`: the rounds left, the row, and the minimum so far.
  unfoldable pub incr_loop : ℕ → ℕ → Cms → Bytes → ℕ → ℕ → Result (Cms × ℕ)
  incr_loop zero i c item value low = ok (c, low)
  incr_loop (suc n) i c item value low = do
    idx ← position c item i
    x ← read_counter c.counter idx
    incr_loop n (i + 1) (record c { counter = set c.counter idx (bump value x) }) item value
        (lower (bump value x) low)

  unfoldable pub incr_by : Cms → Bytes → ℕ → Result (Cms × ℕ)
  incr_by c item value = incr_loop c.depth 0 c item value max_uint64

  -- The loop of `Count`.
  unfoldable pub count_loop : ℕ → ℕ → Cms → Bytes → ℕ → Result ℕ
  count_loop zero i c item low = ok low
  count_loop (suc n) i c item low = do
    idx ← position c item i
    x ← read_counter c.counter idx
    count_loop n (i + 1) c item (lower x low)

  unfoldable pub count : Cms → Bytes → Result ℕ
  count c item = count_loop c.depth 0 c item max_uint64
