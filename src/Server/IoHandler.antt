-- ===== src/Server/IoHandler.antt =====
-- internal/server/io_handler.go: the connections of an I/O handler and its event loop.
--
-- A connection is known by a number. `conns` is the map from file descriptors to connections. What a
-- function asks the operating system for is a list of effects; the results of the reads, and the
-- events, are arguments.
pub mod Requests
use redi_go.Prelude.{Bytes, ℕ, List, [], ◌∷◌, ◌++◌, Option, none, some, ◌==◌, if◌then◌else◌}
use redi_go.Go.Result.{Result, ok, ◌>>=◌}
use redi_go.Core.KeyCommands.{Env}
use redi_go.Server.{Server, dispatch}
use redi_go.Server.ReadCommand.{ReadResult, Received, received, refused, read_command_conn}

pub data Effect : Type 0 where
  -- ioMultiplexer.Monitor of the descriptor, to read
  monitor : ℕ → Effect
  -- conn.Close()
  close : ℕ → Effect
  -- syscall.Write to the descriptor
  write : ℕ → Bytes → Effect
  -- ioMultiplexer.Close()
  close_multiplexer : Effect

pub record IoHandler : Type 0 where
  pub id : ℕ
  pub conns : ℕ → Option ℕ

unfoldable pub new_io_handler : ℕ → IoHandler
new_io_handler id = record { id = id; conns = λ fd. none }

-- h.conns[fd] = conn and delete(h.conns, fd)
abbrev pub put_conn : (ℕ → Option ℕ) → ℕ → Option ℕ → ℕ → Option ℕ
put_conn conns fd conn i = if i == fd then conn else conns i

-- SyscallConn and Control: an error of the former, or the descriptor and the error that the latter returns.
pub data RawConn : Type 0 where
  no_raw_conn : Bytes → RawConn
  raw_conn : ℕ → Option Bytes → RawConn

-- `AddConn`: the handler, the effects and the error. An error of `Monitor` is ignored.
unfoldable pub add_conn : IoHandler → ℕ → RawConn → IoHandler × List Effect × Option Bytes
add_conn h conn (no_raw_conn e) = (h, [], some e)
add_conn h conn (raw_conn fd e) =
    (record h { conns = put_conn h.conns fd (some conn) }, monitor fd ∷ [], e)

-- `closeConn`
unfoldable pub close_conn : IoHandler → ℕ → IoHandler × List Effect
close_conn h fd = elim (h.conns fd) [
  | none ↦ (h, [])
  | some conn ↦ (record h { conns = put_conn h.conns fd none }, close conn ∷ [])
]

-- `Stop` leaves the connections as they are.
unfoldable pub stop : IoHandler → IoHandler × List Effect
stop h = (h, close_multiplexer ∷ [])

-- An event that is ready to be read, what the read gives, and what the command meets when it runs.
pub record Ready : Type 0 where
  pub fd : ℕ
  pub read : ReadResult
  pub env : Env
  pub intn : ℕ → ℕ

module _ (upper_unicode : Bytes → Bytes) where
  -- A command is dispatched to its worker, and the reply is written when it comes back.
  unfoldable pub answer_received :
      IoHandler → Server → Ready → Received → Result (IoHandler × Server × List Effect)
  answer_received h s event (refused e) = let (h', out) = close_conn h event.fd in ok (h', s, out)
  answer_received h s event (received c) = do
    r ← dispatch event.env event.intn s c
    ok (h, r.0, write event.fd r.1 ∷ [])

  -- The body of the loop over the events.
  unfoldable pub handle_event :
      IoHandler → Server → Ready → Result (IoHandler × Server × List Effect)
  handle_event h s event = elim (h.conns event.fd) [
    | none ↦ ok (h, s, [])
    | some conn ↦ do r ← read_command_conn upper_unicode event.read; answer_received h s event r
  ]

  unfoldable pub handle_events :
      IoHandler → Server → List Ready → Result (IoHandler × Server × List Effect)
  handle_events h s [] = ok (h, s, [])
  handle_events h s (event ∷ events) = do
    r ← handle_event h s event
    rest ← handle_events r.0 r.1 events
    ok (rest.0, rest.1, r.2 ++ rest.2)

  -- `Run`, for the results of its calls of `Wait` in their order; none is an error.
  unfoldable pub run :
      IoHandler → Server → List (Option (List Ready)) → Result (IoHandler × Server × List Effect)
  run h s [] = ok (h, s, [])
  run h s (none ∷ waits) = run h s waits
  run h s (some events ∷ waits) = do
    r ← handle_events h s events
    rest ← run r.0 r.1 waits
    ok (rest.0, rest.1, r.2 ++ rest.2)
