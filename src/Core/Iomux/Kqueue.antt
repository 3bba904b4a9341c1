-- ===== src/Core/Iomux/Kqueue.antt =====
-- internal/core/iomux/kqueue_macos.go and internal/core/iomux/type_macos.go. The calls of the system are arguments,
-- and so are the numbers EVFILT_READ, EVFILT_WRITE, EV_ADD and EV_DELETE, as words.
use redi_go.Prelude.{Bytes, ℕ, List, [], ◌∷◌, Option, replicate, ◌==◌, if◌then◌else◌}
use redi_go.Go.Result.{Result, ok, ◌>>=◌}
use redi_go.Core.Iomux.{Event, op_read, op_write, converted}

-- `ident` is the word of a `uint64`.
pub record KeventT : Type 0 where
  pub ident : ℕ
  pub filter : ℕ
  pub flags : ℕ

pub record KQueue : Type 0 where
  pub fd : ℕ
  pub kq_events : List KeventT
  pub generic_events : List Event

module _ (evfilt_read evfilt_write ev_add ev_delete : ℕ) where
  unfoldable pub to_native : Event → ℕ → KeventT
  to_native e flags = record {
    ident = e.fd;
    filter = if e.op == op_read then evfilt_read else evfilt_write;
    flags = flags;
  }

  unfoldable pub create_event : KeventT → Event
  create_event kq = record {
    fd = kq.ident;
    op = if kq.filter == evfilt_read then op_read else op_write;
  }

  unfoldable pub create_io_multiplexer : ℕ → ℕ → KQueue
  create_io_multiplexer max_connection fd = record {
    fd = fd;
    kq_events = replicate max_connection (record { ident = 0; filter = 0; flags = 0 });
    generic_events = replicate max_connection (record { fd = 0; op = 0 });
  }

  -- The argument is what `Kevent` gives for the descriptor and the changes.
  unfoldable pub monitor : (ℕ → List KeventT → Option Bytes) → KQueue → Event → Option Bytes
  unfolding to_native
  monitor kevent kq event = kevent kq.fd (to_native event ev_add ∷ [])

  unfoldable pub unmonitor : (ℕ → List KeventT → Option Bytes) → KQueue → Event → Option Bytes
  unfolding to_native
  unmonitor kevent kq event = kevent kq.fd (to_native event ev_delete ∷ [])

  unfoldable pub wait : Result (ℕ × List KeventT) → KQueue → Result (KQueue × List Event)
  unfolding create_event
  wait kevent kq = do
    r ← kevent
    events ← converted create_event r.1 kq.generic_events r.0
    ok (record kq { kq_events = r.1; generic_events = events.0 }, events.1)

-- The argument is what `syscall.Close` gives for the descriptor.
unfoldable pub close : (ℕ → Option Bytes) → KQueue → Option Bytes
close syscall_close kq = syscall_close kq.fd
