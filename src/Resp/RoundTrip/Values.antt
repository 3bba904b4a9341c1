-- ===== src/Resp/RoundTrip/Values.antt =====
-- `DecodeOne` undoes `Encode` on strings, integers and nested arrays of them.
use redi_go.Prelude.{
  Bytes, ℕ, zero, suc, ◌+◌, ◌-◌, ◌≤◌, ◌∷◌, ◌++◌, ◌≡◌, ◌∙◌, false, length, length-append,
  append_assoc, take-length-append, drop-length-append, arith, ltb,
}
use redi_go.Prelude.Int.{pos, int_max, InInt64}
use redi_go.Go.Result.{Result, ok}
use redi_go.Go.Slice.{Slice, slice_from, slice_string}
use redi_go.Go.Decimal.{format_nat, format_int}
use redi_go.Resp.Value.{
  Value, Items, null, str, int, error, strings, string_lists, array, end, item, count,
}
use redi_go.Resp.Decode.{
  max_slots, read_int64, read_payload, read_bulk_string, read_elems, read_slots, read_array,
  decode_as, decode_one, decode,
}
use redi_go.Resp.Encode.{crlf, encode_string, encode, encode_items}
use redi_go.Resp.RoundTrip.Number.{read_int64-format_int}

abbrev mutual
  -- The values that a client sends: byte strings, 64-bit integers, and arrays of these.
  pub IsWire : Value → Type 0
  IsWire (str s) = length s ≤ int_max
  IsWire (int z) = InInt64 z
  IsWire (array vs) = (count vs ≤ max_slots) × AllWire vs
  IsWire null = ⊥
  IsWire (error _) = ⊥
  IsWire (strings _) = ⊥
  IsWire (string_lists _) = ⊥

  pub AllWire : Items → Type 0
  AllWire end = Unit
  AllWire (item v vs) = IsWire v × AllWire vs

pub slice_from-append :
    (pre post spare : Bytes)
    → slice_from (record { live = pre ++ post; spare = spare }) (length pre)
      ≡ ok (record { live = post; spare = spare })
unfolding slice_from
slice_from-append pre post spare =
    rw (drop-length-append pre post) (ground (arith, length-append pre post))

pub slice_string-append :
    (pre s post spare : Bytes)
    → slice_string
        (record { live = pre ++ (s ++ post); spare = spare })
        (length pre)
        (length pre + length s)
      ≡ ok s
unfolding slice_string
slice_string-append pre s post spare =
    let e : length pre + length s - length pre ≡ length s = omega arith in
    rw (e, append_assoc, drop-length-append pre, append_assoc, take-length-append s)
      (ground (arith, length-append pre (s ++ post), length-append s post))

-- The text of a counted frame: its first byte, the count and the line end.
abbrev header : ℕ → ℕ → Bytes
header c n = c ∷ (format_nat n ++ crlf)

length-header : (c n : ℕ) → length (header c n) ≡ length (format_nat n) + 3
length-header c n = omega (arith, length-append (format_nat n) crlf)

header-append :
    (c n : ℕ) (body rest : Bytes)
    → (c ∷ (format_nat n ++ (crlf ++ body))) ++ rest ≡ header c n ++ (body ++ rest)
header-append c n body rest = simp append_assoc

read_int64-header :
    (c n : ℕ) (tail spare : Bytes)
    → n ≤ int_max
    → read_int64 (record { live = header c n ++ tail; spare = spare })
      ≡ ok (pos n, length (header c n))
unfolding format_int
read_int64-header c n tail spare h =
    rw (length-header c n, append_assoc) (read_int64-format_int c (pos n) tail spare h)

same_pair :
    {A : Type 0} {a : A} {m n : ℕ} → m ≡ n → ◌≡◌ {A = Result (A × ℕ)} (ok (a, m)) (ok (a, n))
same_pair {a = a} p i = ok (a, p i)

read_bulk_string-encode_string :
    (s rest spare : Bytes)
    → length s ≤ int_max
    → read_bulk_string (record { live = encode_string s ++ rest; spare = spare })
      ≡ ok (s, length (encode_string s))
unfolding read_bulk_string encode_string read_payload
read_bulk_string-encode_string s rest spare h =
    rw
      (
        header-append b'$' (length s) (s ++ crlf) rest,
        append_assoc s crlf rest,
        read_int64-header b'$' (length s) _ spare h,
        slice_string-append (header b'$' (length s)) s (crlf ++ rest) spare,
      )
      (same_pair (
        omega (
          arith,
          length-append (format_nat (length s)) crlf,
          length-append (format_nat (length s)) (crlf ++ (s ++ crlf)),
          length-append s crlf,
        )))

module _ (decode_elem : Slice → Result (Value × ℕ)) where
  read_elems-item :
      (n : ℕ) (v : Value) (vs : Items) (pre text post spare : Bytes) (k : ℕ)
      → decode_elem (record { live = text ++ post; spare = spare }) ≡ ok (v, length text)
      → read_elems decode_elem n
          (record { live = (pre ++ text) ++ post; spare = spare })
          (length (pre ++ text))
        ≡ ok (vs, k)
      → read_elems decode_elem
          (suc n)
          (record { live = pre ++ (text ++ post); spare = spare })
          (length pre)
        ≡ ok (item v vs, k)
  unfolding read_elems
  read_elems-item n v vs pre text post spare k first more = rw (
    slice_from-append pre (text ++ post) spare,
    first,
    ← append_assoc pre text post,
    ← length-append pre text,
    more,
  )

  read_array-header :
      (n : ℕ) (vs : Items) (body spare : Bytes) (k : ℕ)
      → n ≤ max_slots
      → read_elems decode_elem n
          (record { live = header b'*' n ++ body; spare = spare })
          (length (header b'*' n))
        ≡ ok (vs, k)
      → read_array decode_elem (record { live = header b'*' n ++ body; spare = spare })
        ≡ ok (array vs, k)
  unfolding read_array read_slots
  read_array-header n vs body spare k fits elems =
      let small : ltb max_slots n ≡ false = ground arith in
      rw (read_int64-header b'*' n body spare (omega arith), small, elems)

mutual
  unfolding decode_one decode_as encode encode_items read_slots read_array

  -- With as much fuel as the text is long.
  decode_one-encode :
      (v : Value) (fuel : ℕ) (rest spare : Bytes)
      → IsWire v
      → length (encode v false) ≤ fuel
      → decode_one fuel (record { live = encode v false ++ rest; spare = spare })
        ≡ ok (v, length (encode v false))
  decode_one-encode null fuel rest spare h le = absurd h
  decode_one-encode (error _) fuel rest spare h le = absurd h
  decode_one-encode (strings _) fuel rest spare h le = absurd h
  decode_one-encode (string_lists _) fuel rest spare h le = absurd h
  decode_one-encode (str s) zero rest spare h le = elim le [ ]
  decode_one-encode (str s) (suc fuel) rest spare h le =
      rw (read_bulk_string-encode_string s rest spare h)
  decode_one-encode (int z) zero rest spare h le = elim le [ ]
  decode_one-encode (int z) (suc fuel) rest spare h le =
      rw (append_assoc (format_int z) crlf rest, read_int64-format_int b':' z rest spare h)
        (same_pair (omega (arith, length-append (format_int z) crlf)))
  decode_one-encode (array vs) zero rest spare h le = elim le [ ]
  decode_one-encode (array vs) (suc fuel) rest spare h le =
      rw
        (
          header-append b'*' (count vs) (encode_items vs) rest,
          read_array-header (decode_one fuel) (count vs) vs (encode_items vs ++ rest) spare _ h.0 (
              read_elems-encode_items vs fuel (header b'*' (count vs)) rest spare h.1
                (omega (arith, length-append (format_nat (count vs)) (crlf ++ encode_items vs)))),
        )
        (same_pair (
          omega (
            arith,
            length-append (format_nat (count vs)) crlf,
            length-append (format_nat (count vs)) (crlf ++ encode_items vs),
          )))

  read_elems-encode_items :
      (vs : Items) (fuel : ℕ) (pre rest spare : Bytes)
      → AllWire vs
      → length (encode_items vs) ≤ fuel
      → read_elems
          (decode_one fuel)
          (count vs)
          (record { live = pre ++ (encode_items vs ++ rest); spare = spare })
          (length pre)
        ≡ ok (vs, length pre + length (encode_items vs))
  read_elems-encode_items end fuel pre rest spare h le = same_pair (omega arith)
  read_elems-encode_items (item v vs) fuel pre rest spare h le =
      rw (append_assoc (encode v false) (encode_items vs) rest) (
        read_elems-item (decode_one fuel) (count vs) v vs pre (encode v false)
          (encode_items vs ++ rest) spare _
          (decode_one-encode v fuel (encode_items vs ++ rest) spare h.0
            (omega (arith, length-append (encode v false) (encode_items vs))))
          (read_elems-encode_items vs fuel (pre ++ encode v false) rest spare h.1
            (omega (arith, length-append (encode v false) (encode_items vs))))
        ∙ same_pair (
            omega (
              arith,
              length-append pre (encode v false),
              length-append (encode v false) (encode_items vs),
            )))

-- A value that a client sends, encoded in front of any bytes, is decoded to itself, whatever lies in
-- the buffer behind the slice. `IsWire` lists such values and bounds their lengths.
pub decode-encode :
    (v : Value) (rest spare : Bytes)
    → IsWire v
    → decode (record { live = encode v false ++ rest; spare = spare }) ≡ ok v
unfolding decode
decode-encode v rest spare h = rw (
    decode_one-encode v (suc (length (encode v false ++ rest))) rest spare h
      (omega (arith, length-append (encode v false) rest)))
