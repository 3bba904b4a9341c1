-- ===== src/Tests/Gateways.antt =====
-- The gateway in front of a server that answers every request with OK.
use redi_go.Prelude.{Bytes, codes, [], ◌∷◌, ◌++◌, ◌≡◌, refl, arith, some, false}
use redi_go.Go.Result.{ok}
use redi_go.Go.Decimal.{digits, format_nat}
use redi_go.Go.Text.{fields, to_upper, trim_space}
use redi_go.Resp.Value.{str, array, str_items}
use redi_go.Resp.Encode.{encode}
use redi_go.Resp.Command.{parse_cmd}
use redi_go.Gateway.{Exchange, answer, Dialled, connected, handle_command, json}
use redi_go.Gateway.Reply.{handle_command-encode}

abbrev says_ok : Bytes → Exchange
says_ok request = answer (encode (str (codes "OK")) false)

abbrev dial_ok : Bytes → Dialled
dial_ok addr = connected says_ok

handle_command-encode_example :
    (handle_command dial_ok [] (some (codes " set k v\n"))
      ≡ ok (json (record { output = str (codes "OK"); error = [] })))
    × (parse_cmd
          (λ s. s)
          (record {
            live =
                encode (array (str_items (codes "set" ∷ codes "k" ∷ codes "v" ∷ []))) false ++ [];
            spare = 0 ∷ [];
          })
        ≡ ok (record { cmd = to_upper (λ s. s) (codes "set"); args = codes "k" ∷ codes "v" ∷ [] }))
handle_command-encode_example =
    handle_command-encode dial_ok [] (codes " set k v\n") (codes "set") (codes "k" ∷ codes "v" ∷ [])
      says_ok (str (codes "OK")) (λ s. s) (0 ∷ []) refl (unfold fields trim_space in refl) refl
      (omega arith) (unfold encode format_nat digits in omega arith) (omega arith) (omega arith)
