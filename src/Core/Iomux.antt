-- ===== src/Core/Iomux.antt =====
-- internal/core/iomux/io_multiplexing.go: events of a multiplexer, for epoll and kqueue.
pub mod Epoll
pub mod Kqueue
pub mod Waiting
pub mod Native
use redi_go.Prelude.{
  ℕ, suc, zero, List, [], ◌∷◌, get_elem?, set, ltb, length, if◌then◌else◌, Option, none, some, ◌+◌,
  take,
}
use redi_go.Go.Result.{Result, ok, panic, ◌>>=◌}

abbrev pub op_read : ℕ
op_read = 0

abbrev pub op_write : ℕ
op_write = 1

-- `fd` is the word of an `int`.
pub record Event : Type 0 where
  pub fd : ℕ
  pub op : ℕ

module _ {A : Type 0} where
  -- a[i]
  abbrev pub index_of : Option A → Result A
  index_of none = panic
  index_of (some a) = ok a

  -- a[i] = v
  unfoldable pub store_at : List A → ℕ → A → Result (List A)
  store_at xs i v = if ltb i (length xs) then ok (set xs i v) else panic

-- The loop of `Wait` from index `i`, with `k` rounds to go: the events of the system are converted into those of the
-- buffer.
unfoldable pub convert :
    {A : Type 0} → (A → Event) → List A → ℕ → ℕ → List Event → Result (List Event)
convert create_event natives i zero events = ok events
convert create_event natives i (suc k) events = do
  native ← index_of (get_elem? natives i)
  events' ← store_at events i (create_event native)
  convert create_event natives (suc i) k events'

-- genericEvents[:n]
unfoldable pub first_events : ℕ → List Event → Result (List Event)
first_events n events = if ltb (length events) n then panic else ok (take n events)

-- The conversion and the result of `Wait`, for `n` events.
unfoldable pub converted :
    {A : Type 0} → (A → Event) → List A → List Event → ℕ → Result (List Event × List Event)
converted create_event natives events n = do
  events' ← convert create_event natives 0 n events
  out ← first_events n events'
  ok (events', out)
