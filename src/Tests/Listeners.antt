-- ===== src/Tests/Listeners.antt =====
-- Three clients and two I/O handlers.
use redi_go.Prelude.{ℕ, ◌+◌, ◌%◌, [], ◌∷◌, List, ◌≡◌, refl, arith, Distinct, false, none}
use redi_go.Go.Result.{ok}
use redi_go.Server.IoHandler.{IoHandler}
use redi_go.Server.Listener.{Listening, single_listener}
use redi_go.Server.Listener.Turns.{Client, fds, rounds_of, monitors, Has, single_listener-turns}

abbrev handler : ℕ → IoHandler
handler id = record { id = id; conns = λ fd. none }

abbrev listening : Listening
listening = record {
  io_handlers = handler 0 ∷ handler 1 ∷ [];
  num_io_handlers = 2;
  next_io_handler = 0;
}

abbrev client : ℕ → Client
client n = record { conn = n; fd = n + 10 }

abbrev clients : List Client
clients = client 1 ∷ client 2 ∷ client 3 ∷ []

distinct : Distinct (fds clients)
distinct = ground arith

single_listener-turns_example :
    (last : Listening) × (single_listener listening (rounds_of clients)
      ≡ ok (last, monitors clients, false))
    × (last.next_io_handler ≡ 3)
    × Has last ((0 + 2) % 2) (client 3)
single_listener-turns_example =
    single_listener-turns listening clients 2 (client 3) (omega arith) refl (omega arith) distinct
      refl
