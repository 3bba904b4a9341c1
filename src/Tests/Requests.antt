-- ===== src/Tests/Requests.antt =====
-- Requests of two clients at two I/O handlers.
use redi_go.Prelude.{Bytes, codes, [], ◌∷◌, ◌≡◌, refl, arith, some}
use redi_go.Prelude.Int.{pos}
use redi_go.Go.Decimal.{digits, format_nat}
use redi_go.Go.Result.{ok}
use redi_go.Go.Text.{to_upper}
use redi_go.Resp.Encode.{encode}
use redi_go.Resp.Value.{str}
use redi_go.HashTable.Expiry.{lifetime}
use redi_go.Core.Reply.{resp_ok}
use redi_go.Core.KeyCommands.{times_1000}
use redi_go.Core.KeyCommands.Replies.{value_reply}
use redi_go.Server.{Server}
use redi_go.Server.IoHandler.{IoHandler, Ready, write, handle_event}
use redi_go.Server.IoHandler.Requests.{handle_event-set_get}
use redi_go.Server.OneMap.{set_task}
use redi_go.Server.ReadCommand.{bytes_read, received, read_command, read_command_conn}
use redi_go.Server.ReadCommand.Agreement.{request, read_command-request}
use redi_go.Tests.Servers.{env, a, b, pred, two, two-IsServer, parsed, room}

abbrev same_case : Bytes → Bytes
same_case s = s

abbrev ping : Bytes
ping = request (codes "ping" ∷ [])

read_command-request_example :
    (read_command_conn same_case (bytes_read ping)
      ≡ ok (received (record { cmd = to_upper same_case (codes "ping"); args = [] })))
    × (read_command same_case (bytes_read ping) ≡ read_command_conn same_case (bytes_read ping))
read_command-request_example =
    read_command-request same_case (codes "ping") []
      (unfold encode format_nat digits in omega arith)

abbrev first : IoHandler
first = record { id = 0; conns = λ fd. some 1 }

abbrev second : IoHandler
second = record { id = 1; conns = λ fd. some 2 }

abbrev set_event : Ready
set_event = record {
  fd = 7;
  read = bytes_read (request (codes "SET" ∷ (set_task a b (codes "1")).args));
  env = env;
  intn = pred;
}

abbrev get_event : Ready
get_event = record {
  fd = 8;
  read = bytes_read (request (codes "GET" ∷ a ∷ []));
  env = env;
  intn = pred;
}

handle_event-set_get_example :
    (s1 : Server) × (s2 : Server) × (handle_event same_case first two set_event
      ≡ ok (first, s1, write 7 resp_ok ∷ []))
    × (handle_event same_case second s1 get_event
        ≡ ok (
          second,
          s2,
          write 8 (value_reply (lifetime 1000 (times_1000 (pos 1)) 1001 (some (str b)))) ∷ [],
        ))
handle_event-set_get_example =
    handle_event-set_get same_case first second two 1 2 set_event get_event a b (codes "1") (pos 1)
      two-IsServer refl refl refl refl (unfold encode format_nat digits in omega arith)
      (unfold encode format_nat digits in omega arith) parsed room (omega arith) (omega arith)
