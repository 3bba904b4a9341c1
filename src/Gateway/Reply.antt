-- ===== src/Gateway/Reply.antt =====
-- The gateway of cmd/gateway/main.go and the server at the other end.
use redi_go.Prelude.{
  Bytes, ◌-◌, ◌≤◌, List, [], ◌∷◌, ◌++◌, append-nil, ◌≡◌, sym, ap, ◌∙◌, false, some, length,
  take-all, All, replicate,
}
use redi_go.Prelude.Int.{int_max}
use redi_go.Go.Result.{ok}
use redi_go.Go.Text.{fields, to_upper, trim_space}
use redi_go.Resp.Value.{Value, array, str_items}
use redi_go.Resp.Decode.{max_slots, decode}
use redi_go.Resp.Encode.{encode}
use redi_go.Resp.Command.{parse_cmd}
use redi_go.Resp.RoundTrip.Values.{IsWire, decode-encode}
use redi_go.Resp.RoundTrip.Commands.{parse_cmd-encode}
use redi_go.Gateway.{
  Exchange, answer, Dialled, connected, read_response, decoded_response, command_response,
  send_parts, address, on_connection, send_to_redis, json, handle_command,
}

read_response-encode :
    (v : Value)
    → IsWire v
    → length (encode v false) ≤ 512
    → read_response (answer (encode v false)) ≡ ok v
unfolding read_response
read_response-encode v wire short =
    let spare = replicate (512 - length (encode v false)) 0 in
    ap (λ s. decoded_response s (decode (record { live = s; spare = spare })))
      (take-all 512 (encode v false) short ∙ sym (append-nil (encode v false)))
    ∙ ap (decoded_response (encode v false ++ [])) (decode-encode v [] spare wire)

-- A command whose text has the tokens `t` and `ts`, sent over a connection on which the server answers
-- the request with an encoded value of at most 512 bytes: the gateway answers with that value and no
-- error, and the server's `ParseCmd` makes of the request, whatever lies in its buffer behind it, the
-- command `t` in upper case with the arguments `ts`. The tokens are at most `max_slots`, each of a
-- length that an `int` holds, and the value is one that `Decode` gives back (`IsWire`).
pub handle_command-encode :
    (dial : Bytes → Dialled) (redis_addr cmd t : Bytes) (ts : List Bytes)
    (exchange : Bytes → Exchange) (v : Value) (upper : Bytes → Bytes) (spare : Bytes)
    → dial (address redis_addr) ≡ connected exchange
    → fields (trim_space cmd) ≡ t ∷ ts
    → exchange (encode (array (str_items (t ∷ ts))) false) ≡ answer (encode v false)
    → IsWire v
    → length (encode v false) ≤ 512
    → length (t ∷ ts) ≤ max_slots
    → All (λ s. length s ≤ int_max) (t ∷ ts)
    → (handle_command dial redis_addr (some cmd) ≡ ok (json (record { output = v; error = [] })))
      × (parse_cmd upper
            (record { live = encode (array (str_items (t ∷ ts))) false ++ []; spare = spare })
          ≡ ok (record { cmd = to_upper upper t; args = ts }))
unfolding handle_command send_to_redis send_parts
handle_command-encode dial redis_addr cmd t ts exchange v upper spare up tokens reply wire short few
      small =
    (
      ap (λ d. command_response (on_connection d cmd)) up
          ∙ ap (λ ps. command_response (send_parts exchange ps)) tokens
          ∙ ap (λ x. command_response (read_response x)) reply
          ∙ ap command_response (read_response-encode v wire short),
      parse_cmd-encode upper t ts [] spare few small,
    )
