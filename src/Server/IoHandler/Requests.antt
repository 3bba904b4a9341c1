-- ===== src/Server/IoHandler/Requests.antt =====
-- What a client of internal/server/io_handler.go gets back for its request: from the bytes that a handler
-- reads, over the worker of the key, to the bytes that it writes.
use redi_go.Prelude.{
  Bytes, codes, ℕ, ◌≤◌, List, [], ◌∷◌, ◌≡◌, refl, ap, ◌∙◌, false, Option, none, some, length, arith,
  beq_refl,
}
use redi_go.Prelude.Int.{ℤ, int_max}
use redi_go.Go.Map
use redi_go.Go.Result.{Result, ok, ◌>>=◌}
use redi_go.Go.Decimal.{parse_int}
use redi_go.Go.Text.{to_upper, is_ascii}
use redi_go.Resp.Value.{str}
use redi_go.HashTable.Config.{ge_int}
use redi_go.HashTable.Expiry.{lifetime}
use redi_go.Core.Reply.{resp_ok}
use redi_go.Core.KeyCommands.{times_1000}
use redi_go.Core.KeyCommands.Replies.{value_reply}
use redi_go.Server.{Server, dispatch}
use redi_go.Server.IoHandler.{IoHandler, Ready, Effect, write, answer_received, handle_event}
use redi_go.Server.OneMap.{set_task, dispatch-set, dispatch-get}
use redi_go.Server.ReadCommand.{bytes_read, received, read_command_conn}
use redi_go.Server.ReadCommand.Agreement.{request, read_command-request}
use redi_go.Server.Shards.{IsServer, shard}

module _ (upper : Bytes → Bytes) where
  handle_event-conn :
      (h : IoHandler) (s : Server) (event : Ready) (conn : ℕ)
      → h.conns event.fd ≡ some conn
      → handle_event upper h s event
        ≡ (read_command_conn upper event.read >>= answer_received upper h s event)
  unfolding handle_event
  handle_event-conn h s event conn there =
      ap
        (λ (o : Option ℕ). elim o as (λ o. Result (IoHandler × Server × List Effect)) [
          | none ↦ ok (h, s, [])
          | some conn ↦ read_command_conn upper event.read >>= answer_received upper h s event
        ])
        there

  -- A request on an open connection gets the reply of its dispatch.
  pub handle_event-request :
      (h : IoHandler) (s s' : Server) (conn : ℕ) (event : Ready) (t : Bytes) (ts : List Bytes)
      (res : Bytes)
      → h.conns event.fd ≡ some conn
      → event.read ≡ bytes_read (request (t ∷ ts))
      → length (request (t ∷ ts)) ≤ 512
      → dispatch event.env event.intn s (record { cmd = to_upper upper t; args = ts })
        ≡ ok (s', res)
      → handle_event upper h s event ≡ ok (h, s', write event.fd res ∷ [])
  unfolding answer_received
  handle_event-request h s s' conn event t ts res there reads short run =
      let got : read_command_conn upper event.read
          ≡ ok (received (record { cmd = to_upper upper t; args = ts })) =
        ap (read_command_conn upper) reads ∙ (read_command-request upper t ts short).0 in
      handle_event-conn h s event conn there ∙ rw (got, run) refl

  upper-set : to_upper upper (codes "SET") ≡ codes "SET"
  unfolding to_upper is_ascii
  upper-set = refl

  upper-get : to_upper upper (codes "GET") ≡ codes "GET"
  unfolding to_upper is_ascii
  upper-get = refl

  -- `SET key value EX seconds` on an open connection is answered OK, and the next request, `GET key` on an
  -- open connection of any handler, is answered with the value until the seconds are over and with nil from
  -- then on. The value is there for ever if the milliseconds, seconds * 1000 with the wrap-around of an
  -- `int64`, are not positive. Both requests are at most 512 bytes, the server is well formed, the worker's
  -- dictionary is below its limit, the seconds are an integer for `ParseInt`, the clock of the `SET` is in an
  -- `int64`, and the clock of the `GET` does not go back.
  pub handle_event-set_get :
      (h h' : IoHandler) (s : Server) (conn conn' : ℕ) (e e' : Ready) (key value ttl : Bytes)
      (ttl_sec : ℤ)
      → IsServer s
      → h.conns e.fd ≡ some conn
      → h'.conns e'.fd ≡ some conn'
      → e.read ≡ bytes_read (request (codes "SET" ∷ (set_task key value ttl).args))
      → e'.read ≡ bytes_read (request (codes "GET" ∷ key ∷ []))
      → length (request (codes "SET" ∷ (set_task key value ttl).args)) ≤ 512
      → length (request (codes "GET" ∷ key ∷ [])) ≤ 512
      → parse_int ttl ≡ some ttl_sec
      → ge_int (Map.size (shard s key).dict_store) e.env.config.max_key_number ≡ false
      → e.env.ms0 ≤ int_max
      → e'.env.ms0 ≤ e'.env.ms1
      → (s1 : Server) × (s2 : Server) × (handle_event upper h s e
          ≡ ok (h, s1, write e.fd resp_ok ∷ []))
        × (handle_event upper h' s1 e'
            ≡ ok (
              h',
              s2,
              write e'.fd (
                    value_reply
                      (lifetime e.env.ms0 (times_1000 ttl_sec) e'.env.ms1 (some (str value))))
                  ∷ [],
            ))
  handle_event-set_get h h' s conn conn' e e' key value ttl ttl_sec k there there' reads reads'
        short short' parsed room now_fits le =
      let (s1, set_run, k1, now_seen) =
        dispatch-set e.env e.intn s key value ttl ttl_sec key e'.env.ms1 k parsed room now_fits in
      let (s2, get_run, rest, unseen) =
        dispatch-get e'.env e'.intn s1 key key e'.env.ms0 k1 le (omega arith) in
      (
        s1,
        s2,
        handle_event-request h s s1 conn e (codes "SET") _ resp_ok there reads short (
            ap
              (λ c.
                dispatch e.env e.intn s (record { cmd = c; args = (set_task key value ttl).args }))
              upper-set
            ∙ set_run),
        handle_event-request h' s1 s2 conn' e' (codes "GET") (key ∷ []) _ there' reads' short' (
              ap (λ c. dispatch e'.env e'.intn s1 (record { cmd = c; args = key ∷ [] })) upper-get
              ∙ get_run)
            ∙ ap (λ o. ok (h', s2, write e'.fd (value_reply o) ∷ []))
                (now_seen ∙ rw (beq_refl key) refl),
      )
