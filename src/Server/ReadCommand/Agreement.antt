-- ===== src/Server/ReadCommand/Agreement.antt =====
-- The two ways of reading a command in internal/server/server.go.
use redi_go.Prelude.{
  Bytes, ℕ, suc, arith, ◌-◌, ◌≤◌, List, [], ◌∷◌, ◌++◌, append-nil, ◌≡◌, sym, ap, ◌∙◌, false, length,
  length-append, take-all, All, replicate,
}
use redi_go.Prelude.Int.{int_max}
use redi_go.Go.Decimal.{format_nat}
use redi_go.Go.Result.{ok}
use redi_go.Go.Text.{to_upper}
use redi_go.Resp.Value.{array, str_items, count}
use redi_go.Resp.Decode.{max_slots}
use redi_go.Resp.Encode.{crlf, encode, encode_string, encode_items}
use redi_go.Resp.Command.{parse_cmd}
use redi_go.Resp.RoundTrip.Commands.{parse_cmd-encode}
use redi_go.Server.ReadCommand.{bytes_read, received, parsed, read_command, read_command_conn}

-- A request as a client sends it.
abbrev pub request : List Bytes → Bytes
request ts = encode (array (str_items ts)) false

length-encode_string : (s : Bytes) → suc (length s) ≤ length (encode_string s)
unfolding encode_string
length-encode_string s = omega (
  arith,
  length-append (format_nat (length s)) (crlf ++ (s ++ crlf)),
  length-append crlf (s ++ crlf),
  length-append s crlf,
)

All-weaken :
    (n m : ℕ) (ts : List Bytes) → n ≤ m → All (λ s. length s ≤ n) ts → All (λ s. length s ≤ m) ts
All-weaken n m [] le h = tt
All-weaken n m (t ∷ ts) le (h, hs) = (omega arith, All-weaken n m ts le hs)

-- The tokens are fewer and shorter than what they are encoded in.
encode_items-bounds :
    (ts : List Bytes)
    → (length ts ≤ length (encode_items (str_items ts)))
      × All (λ s. length s ≤ length (encode_items (str_items ts))) ts
unfolding encode
encode_items-bounds [] = (omega arith, tt)
encode_items-bounds (t ∷ ts) =
    let (few, small) = encode_items-bounds ts in
    let size = length-append (encode_string t) (encode_items (str_items ts)) in
    let one = length-encode_string t in
    (
      omega (arith, size),
      (
        omega (arith, size),
        All-weaken (length (encode_items (str_items ts))) _ ts (omega (arith, size)) small,
      ),
    )

pub request-bounds :
    (ts : List Bytes) (n : ℕ)
    → length (request ts) ≤ n
    → (length ts ≤ n) × All (λ s. length s ≤ n) ts
unfolding encode
request-bounds ts n le =
    let (few, small) = encode_items-bounds ts in
    let inner =
      length-append (format_nat (count (str_items ts))) (crlf ++ encode_items (str_items ts)) in
    let room : length (encode_items (str_items ts)) ≤ n =
      omega (arith, inner, length-append crlf (encode_items (str_items ts))) in
    (omega arith, All-weaken (length (encode_items (str_items ts))) n ts room small)

-- A request of at most 512 bytes is read as the same command by both functions: the first token in upper
-- case, and the others.
pub read_command-request :
    (upper : Bytes → Bytes) (t : Bytes) (ts : List Bytes)
    → length (request (t ∷ ts)) ≤ 512
    → (read_command_conn upper (bytes_read (request (t ∷ ts)))
        ≡ ok (received (record { cmd = to_upper upper t; args = ts })))
      × (read_command upper (bytes_read (request (t ∷ ts)))
          ≡ read_command_conn upper (bytes_read (request (t ∷ ts))))
unfolding read_command_conn read_command encode
read_command-request upper t ts short =
    let s = request (t ∷ ts) in
    let zeros : Bytes = replicate (512 - length s) 0 in
    let all = take-all 512 s short in
    let (few512, small512) = request-bounds (t ∷ ts) 512 short in
    let few : length (t ∷ ts) ≤ max_slots = omega arith in
    let small = All-weaken 512 int_max (t ∷ ts) (omega arith) small512 in
    let conn : read_command_conn upper (bytes_read s)
        ≡ ok (received (record { cmd = to_upper upper t; args = ts })) =
      ap (λ live. parsed (parse_cmd upper (record { live = live; spare = zeros })))
        (all ∙ sym (append-nil s))
      ∙ ap parsed (parse_cmd-encode upper t ts [] zeros few small) in
    (
      conn,
      ap (λ live. parsed (parse_cmd upper (record { live = live ++ zeros; spare = [] }))) all
          ∙ ap parsed (parse_cmd-encode upper t ts zeros [] few small)
          ∙ sym conn,
    )
