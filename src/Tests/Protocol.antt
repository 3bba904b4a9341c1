-- ===== src/Tests/Protocol.antt =====
-- RESP requests and values.
use redi_go.Prelude.{codes, [], ◌∷◌, ◌++◌, ◌≡◌, refl, false, arith}
use redi_go.Prelude.Int.{negsuc}
use redi_go.Go.Result.{ok, panic}
use redi_go.Go.Slice.{Slice}
use redi_go.Go.Text.{to_upper}
use redi_go.Resp.Value.{Value, str, int, array, end, item, str_items}
use redi_go.Resp.Decode.{decode, read_int64}
use redi_go.Resp.Strict
use redi_go.Resp.Strict.Agreement.{read_int64-strict}
use redi_go.Resp.Encode.{encode}
use redi_go.Resp.Command.{parse_cmd}
use redi_go.Resp.RoundTrip.Values.{decode-encode}
use redi_go.Resp.RoundTrip.Commands.{parse_cmd-encode}
use redi_go.Resp.Total.{Ends, parse_cmd-Ends}

abbrev nested : Value
nested = array (item (str (codes "a\r\n")) (item (array (item (int (negsuc 4)) end)) end))

decode-encode_example :
    decode (record { live = encode nested false ++ codes "+x"; spare = 0 ∷ [] }) ≡ ok nested
decode-encode_example = decode-encode nested (codes "+x") (0 ∷ []) (omega arith)

parse_cmd-encode_example :
    parse_cmd
      (λ s. s)
      (record {
        live = encode (array (str_items (codes "set" ∷ codes "k" ∷ []))) false ++ [];
        spare = 0 ∷ 0 ∷ [];
      })
    ≡ ok (record { cmd = to_upper (λ s. s) (codes "set"); args = codes "k" ∷ [] })
parse_cmd-encode_example =
    parse_cmd-encode (λ s. s) (codes "set") (codes "k" ∷ []) [] (0 ∷ 0 ∷ []) (omega arith)
      (omega arith)

abbrev truncated : Slice
truncated = record { live = codes "*1\r\n$3\r\nab"; spare = [] }

parse_cmd-Ends_example : Ends (parse_cmd (λ s. s) truncated)
parse_cmd-Ends_example = parse_cmd-Ends (λ s. s) truncated

-- A request that is cut off is a panic of the handler, not an error.
truncated_panics : decode truncated ≡ panic
unfolding decode
truncated_panics = refl

-- `:-456` in both readers.
strict_reads : Strict.read_int64 (codes ":-456\r\n") ≡ ok (negsuc 455, 7)
unfolding Strict.read_int64 Strict.read_sign Strict.read_digits Strict.finish
strict_reads = refl

read_int64-strict_example :
    read_int64 (record { live = codes ":-456\r\n"; spare = [] }) ≡ ok (negsuc 455, 7)
read_int64-strict_example =
    read_int64-strict b':' (codes "-456\r\n") [] (negsuc 455, 7) strict_reads
