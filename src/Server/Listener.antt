-- ===== src/Server/Listener.antt =====
-- internal/server/single_listener_server.go and internal/server/multi_listeners_server.go: how the connections that
-- are accepted are given to the I/O handlers, in turn.
--
-- What `Accept` returns and what the loads of `serverStatus` give are arguments.
pub mod Turns
use redi_go.Prelude.{
  Bytes, ℕ, zero, suc, ◌+◌, ◌-◌, ◌%◌, ◌^◌, List, [], ◌∷◌, ◌++◌, Bool, true, false, Option, none,
  some, get_elem?, set, ltb, ◌==◌, if◌then◌else◌,
}
use redi_go.Go.Result.{Result, ok, panic, ◌>>=◌}
use redi_go.Server.IoHandler.{Effect, close, IoHandler, RawConn, add_conn}

-- The I/O handlers of the server. `next_io_handler` is the word of an `int`.
pub record Listening : Type 0 where
  pub io_handlers : List IoHandler
  pub num_io_handlers : ℕ
  pub next_io_handler : ℕ

-- `a % n` as an index, for the word `a` of an `int`: it panics at 0 and if the remainder is negative.
unfoldable pub turn : ℕ → ℕ → Result ℕ
turn a zero = panic
turn a (suc n) =
    if ltb a (2 ^ 63) then ok (a % suc n) else if ((2 ^ 64 - a) % suc n) == 0 then ok 0 else panic

abbrev handler_at : Option IoHandler → Result IoHandler
handler_at none = panic
handler_at (some h) = ok h

-- A connection whose handler does not take it is closed.
abbrev refusal : ℕ → Option Bytes → List Effect
refusal conn none = []
refusal conn (some e) = close conn ∷ []

-- A connection is forwarded to the handler whose turn it is.
unfoldable pub forward : Listening → ℕ → RawConn → Result (Listening × List Effect)
unfolding turn add_conn
forward l conn raw = do
  i ← turn l.next_io_handler l.num_io_handlers
  h ← handler_at (get_elem? l.io_handlers i)
  let r = add_conn h conn raw in
      ok (
        record l {
          io_handlers = set l.io_handlers i r.0;
          next_io_handler = (l.next_io_handler + 1) % 2 ^ 64;
        },
        r.1 ++ refusal conn r.2,
      )

-- One round of the loop of `StartSingleListener`: the status is shutdown, `Accept` fails and the status is shutdown or
-- not, or `Accept` returns a connection.
pub data Round : Type 0 where
  shutdown_seen : Round
  accept_failed : Bool → Round
  accept : ℕ → RawConn → Round

-- The loop, for its first rounds: the state, the effects and whether it has returned.
unfoldable pub single_listener : Listening → List Round → Result (Listening × List Effect × Bool)
single_listener l [] = ok (l, [], false)
single_listener l (shutdown_seen ∷ rounds) = ok (l, [], true)
single_listener l (accept_failed true ∷ rounds) = ok (l, [], true)
single_listener l (accept_failed false ∷ rounds) = single_listener l rounds
single_listener l (accept conn raw ∷ rounds) = do
  r ← forward l conn raw
  rest ← single_listener r.0 rounds
  ok (rest.0, r.1 ++ rest.1, rest.2)

-- The loops of `StartMultiListeners` never return. What their `Accept`s return stands in the order in which it is
-- taken; the accesses of two loops to `nextIOHandler` at the same time are not modelled.
unfoldable pub multi_listeners :
    Listening → List (Option (ℕ × RawConn)) → Result (Listening × List Effect)
multi_listeners l [] = ok (l, [])
multi_listeners l (none ∷ accepted) = multi_listeners l accepted
multi_listeners l (some (conn, raw) ∷ accepted) = do
  r ← forward l conn raw
  rest ← multi_listeners r.0 accepted
  ok (rest.0, r.1 ++ rest.1)
