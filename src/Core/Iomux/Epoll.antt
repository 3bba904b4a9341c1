-- ===== src/Core/Iomux/Epoll.antt =====
-- internal/core/iomux/epoll_linux.go and internal/core/iomux/type_linux.go. The calls of the system are arguments, and
-- so are the numbers EPOLLIN and EPOLLOUT.
use redi_go.Prelude.{
  Bytes, ℕ, ◌+◌, ◌-◌, ◌%◌, ◌^◌, List, Option, replicate, ltb, ◌==◌, if◌then◌else◌,
}
use redi_go.Go.Result.{Result, ok, ◌>>=◌}
use redi_go.Core.Iomux.{Event, op_read, op_write, converted}

-- `fd` is the word of an `int32`, `events` of a `uint32`.
pub record EpollEvent : Type 0 where
  pub fd : ℕ
  pub events : ℕ

-- EPOLL_CTL_ADD with the event, or EPOLL_CTL_DEL
pub data EpollOp : Type 0 where
  ctl_add : EpollEvent → EpollOp
  ctl_del : EpollOp

pub record Epoll : Type 0 where
  pub fd : ℕ
  pub epoll_events : List EpollEvent
  pub generic_events : List Event

-- int(x) of an `int32`
abbrev int_of_int32 : ℕ → ℕ
int_of_int32 x = if ltb x (2 ^ 31) then x else x + (2 ^ 64 - 2 ^ 32)

module _ (epollin epollout : ℕ) where
  unfoldable pub to_native : Event → EpollEvent
  to_native e = record {
    fd = e.fd % 2 ^ 32;
    events = if e.op == op_write then epollout else epollin;
  }

  unfoldable pub create_event : EpollEvent → Event
  create_event ep = record {
    fd = int_of_int32 ep.fd;
    op = if ep.events == epollout then op_write else op_read;
  }

  -- `CreateIOMultiplexer`, for the descriptor that `EpollCreate1` returns; an error of it ends the program.
  unfoldable pub create_io_multiplexer : ℕ → ℕ → Epoll
  create_io_multiplexer max_connection fd = record {
    fd = fd;
    epoll_events = replicate max_connection (record { fd = 0; events = 0 });
    generic_events = replicate max_connection (record { fd = 0; op = 0 });
  }

  -- The arguments are what `EpollCtl` gives for the descriptors and the operation.
  unfoldable pub monitor : (ℕ → ℕ → EpollOp → Option Bytes) → Epoll → Event → Option Bytes
  unfolding to_native
  monitor epoll_ctl ep event = epoll_ctl ep.fd event.fd (ctl_add (to_native event))

  unfoldable pub unmonitor : (ℕ → ℕ → EpollOp → Option Bytes) → Epoll → Event → Option Bytes
  unmonitor epoll_ctl ep event = epoll_ctl ep.fd event.fd ctl_del

  -- `EpollWait` gives an error, or the number of events and the buffer with them.
  unfoldable pub wait : Result (ℕ × List EpollEvent) → Epoll → Result (Epoll × List Event)
  unfolding create_event
  wait epoll_wait ep = do
    r ← epoll_wait
    events ← converted create_event r.1 ep.generic_events r.0
    ok (record ep { epoll_events = r.1; generic_events = events.0 }, events.1)

-- The argument is what `syscall.Close` gives for the descriptor.
unfoldable pub close : (ℕ → Option Bytes) → Epoll → Option Bytes
close syscall_close ep = syscall_close ep.fd
