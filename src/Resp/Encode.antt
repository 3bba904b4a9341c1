-- ===== src/Resp/Encode.antt =====
-- `Encode` of internal/core/resp.go.
use redi_go.Prelude.{Bytes, codes, Bool, true, false, List, [], ◌∷◌, ◌++◌, ◌≡◌, refl, length}
use redi_go.Prelude.Int.{negsuc}
use redi_go.Go.Decimal.{digits, format_nat, format_int}
use redi_go.Resp.Value.{
  Value, Items, null, str, int, error, strings, string_lists, array, end, item, count,
}

abbrev pub crlf : Bytes
crlf = b'\r' ∷ b'\n' ∷ []

abbrev pub resp_nil : Bytes
resp_nil = codes "$-1\r\n"

unfoldable pub encode_string : Bytes → Bytes
encode_string s = b'$' ∷ (format_nat (length s) ++ (crlf ++ (s ++ crlf)))

unfoldable pub encode_strings : List Bytes → Bytes
unfolding encode_string
encode_strings [] = []
encode_strings (s ∷ ss) = encode_string s ++ encode_strings ss

unfoldable pub encode_string_array : List Bytes → Bytes
unfolding encode_strings
encode_string_array ss = b'*' ∷ (format_nat (length ss) ++ (crlf ++ encode_strings ss))

unfoldable pub encode_string_arrays : List (List Bytes) → Bytes
unfolding encode_string_array
encode_string_arrays [] = []
encode_string_arrays (ss ∷ sss) = encode_string_array ss ++ encode_string_arrays sss

unfoldable mutual
  unfolding encode_string_array encode_string_arrays encode_string

  -- Encode(value, isSimpleString)
  pub encode : Value → Bool → Bytes
  encode null simple = resp_nil
  encode (str s) true = b'+' ∷ (s ++ crlf)
  encode (str s) false = encode_string s
  encode (int z) simple = b':' ∷ (format_int z ++ crlf)
  encode (error message) simple = b'-' ∷ (message ++ crlf)
  encode (strings ss) simple = encode_string_array ss
  encode (string_lists sss) simple =
      b'*' ∷ (format_nat (length sss) ++ (crlf ++ encode_string_arrays sss))
  encode (array vs) simple = b'*' ∷ (format_nat (count vs) ++ (crlf ++ encode_items vs))

  pub encode_items : Items → Bytes
  encode_items end = []
  encode_items (item v vs) = encode v false ++ encode_items vs

encode_test :
    encode (array (item (str (codes "ab")) (item (int (negsuc 6)) end))) false
    ≡ codes "*2\r\n$2\r\nab\r\n:-7\r\n"
unfolding encode format_int format_nat digits
encode_test = refl
