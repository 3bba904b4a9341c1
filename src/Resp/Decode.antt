-- ===== src/Resp/Decode.antt =====
-- The readers of internal/core/resp.go. A loop over `data[pos]` is a recursion on the bytes from
-- `pos` on; reading behind the last of them is the panic of the index expression.
use redi_go.Prelude.{
  Bytes, codes, ℕ, zero, suc, ◌+◌, ◌-◌, ◌*◌, ◌%◌, ◌^◌, [], ◌∷◌, ◌++◌, ◌≡◌, refl, ltb, ◌==◌,
  if◌then◌else◌, drop, length,
}
use redi_go.Prelude.Int.{ℤ, pos, negsuc, word_mod, to_int64}
use redi_go.Go.Result.{Result, ok, err, panic, hang, ◌>>=◌}
use redi_go.Go.Slice.{Slice, slice_from, slice_string}
use redi_go.Go.Text.{sprint_char}
use redi_go.Resp.Value.{Value, Items, str, int, array, end, item}

-- for data[pos] != '\r' { pos += 1 }
unfoldable pub find_cr : Bytes → ℕ → Result ℕ
find_cr [] at = panic
find_cr (c ∷ s) at = if c == b'\r' then ok at else find_cr s (at + 1)

-- The payload and the number of bytes read.
unfoldable pub read_simple_string : Slice → Result (Bytes × ℕ)
unfolding find_cr slice_string
read_simple_string d = do
  at ← find_cr (drop 1 d.live) 1
  text ← slice_string d 1 at
  ok (text, at + 2)

-- The sign as a 64-bit word: 1 or -1.
abbrev pub minus_one : ℕ
minus_one = word_mod - 1

-- Where a number stands: its sign, the position behind it and the bytes from there on.
pub record Cursor : Type 0 where
  pub sign : ℕ
  pub at : ℕ
  pub rest : Bytes

-- if data[pos] == '-'
unfoldable pub read_minus : Bytes → Result Cursor
read_minus [] = panic
read_minus (c ∷ s) =
    if c == b'-'
    then ok (record { sign = minus_one; at = 2; rest = s })
    else ok (record { sign = 1; at = 1; rest = c ∷ s })

-- if data[pos] == '+'
unfoldable pub read_plus : ℕ → ℕ → Bytes → Result Cursor
read_plus sign at [] = panic
read_plus sign at (c ∷ s) =
    if c == b'+'
    then ok (record { sign = 1; at = at + 1; rest = s })
    else ok (record { sign = sign; at = at; rest = c ∷ s })

-- `data[pos]-'0'` is computed in a byte, and `res` in a 64-bit word.
unfoldable pub read_digits : Bytes → ℕ → ℕ → Result (ℕ × ℕ)
read_digits [] res at = panic
read_digits (c ∷ s) res at =
    if c == b'\r'
    then ok (res, at)
    else read_digits s ((res * 10 + (c + 208) % 256) % word_mod) (at + 1)

unfoldable pub read_int64 : Slice → Result (ℤ × ℕ)
unfolding read_minus read_plus read_digits
read_int64 d = do
  p ← read_minus (drop 1 d.live)
  q ← read_plus p.sign p.at p.rest
  r ← read_digits q.rest 0 q.at
  ok (to_int64 ((r.0 * q.sign) % word_mod), r.1 + 2)

-- `readError` is `readSimpleString`, and `readLen` drops the error that `readInt64` never returns.
abbrev pub read_error : Slice → Result (Bytes × ℕ)
read_error = read_simple_string

abbrev pub read_len : Slice → Result (ℤ × ℕ)
read_len = read_int64

-- A length of -1 stands for the null string; the result is then two bytes further than it ends.
unfoldable pub read_payload : Slice → ℤ → ℕ → Result (Bytes × ℕ)
unfolding slice_string
read_payload d (pos n) at = do text ← slice_string d at (at + n); ok (text, at + n + 2)
read_payload d (negsuc zero) at = ok (codes "Null value", at + 2)
read_payload d (negsuc (suc n)) at = panic

unfoldable pub read_bulk_string : Slice → Result (Bytes × ℕ)
unfolding read_int64 read_payload
read_bulk_string d = do r ← read_len d; read_payload d r.0 r.1

-- `make([]interface{}, length)` panics above 2 ^ 48 bytes, and an interface has sixteen.
abbrev pub max_slots : ℕ
max_slots = 2 ^ 44

module _ (decode : Slice → Result (Value × ℕ)) where
  -- for i := range res
  unfoldable pub read_elems : ℕ → Slice → ℕ → Result (Items × ℕ)
  unfolding slice_from
  read_elems zero d at = ok (end, at)
  read_elems (suc n) d at = do
    rest ← slice_from d at
    elem ← decode rest
    more ← read_elems n d (at + elem.1)
    ok (item elem.0 more.0, more.1)

  unfoldable pub read_slots : Slice → ℤ → ℕ → Result (Value × ℕ)
  unfolding read_elems
  read_slots d (pos n) at =
      if ltb max_slots n then panic else do r ← read_elems n d at; ok (array r.0, r.1)
  read_slots d (negsuc n) at = panic

  unfoldable pub read_array : Slice → Result (Value × ℕ)
  unfolding read_int64 read_slots
  read_array d = do r ← read_len d; read_slots d r.0 r.1

abbrev as_str : Bytes × ℕ → Result (Value × ℕ)
as_str r = ok (str r.0, r.1)

abbrev as_int : ℤ × ℕ → Result (Value × ℕ)
as_int r = ok (int r.0, r.1)

-- The switch on the first byte. An unknown one is text, and takes no bytes.
unfoldable pub decode_as : (Slice → Result (Value × ℕ)) → ℕ → Slice → Result (Value × ℕ)
unfolding read_simple_string read_int64 read_bulk_string read_array sprint_char
decode_as decode c d =
    if c == b'+'
    then read_simple_string d >>= as_str
    else if c == b':'
    then read_int64 d >>= as_int
    else if c == b'-'
    then read_error d >>= as_str
    else if c == b'$'
    then read_bulk_string d >>= as_str
    else if c == b'*'
    then read_array decode d
    else ok (str (codes "unknown prefix: " ++ sprint_char c), 0)

-- `DecodeOne`. The fuel bounds the nesting of arrays; each level reads three bytes or more.
unfoldable pub decode_one : ℕ → Slice → Result (Value × ℕ)
unfolding decode_as
decode_one zero d = hang
decode_one (suc fuel) d = elim d.live [
  | [] ↦ err (codes "no data")
  | c ∷ s ↦ decode_as (decode_one fuel) c d
]

unfoldable pub decode : Slice → Result Value
unfolding decode_one
decode d = do r ← decode_one (suc (length d.live)) d; ok r.0

abbrev whole : Bytes → Slice
whole s = record { live = s; spare = [] }

decode_array :
    decode (whole (codes "*2\r\n$5\r\nhello\r\n:-42\r\n"))
    ≡ ok (array (item (str (codes "hello")) (item (int (negsuc 41)) end)))
unfolding decode
decode_array = refl
