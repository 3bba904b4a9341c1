-- ===== src/Core/Reply.antt =====
-- Replies: internal/constant/constant.go and the uses of `Encode` in internal/core.
use redi_go.Prelude.{Bytes, ℕ, String, codes, false}
use redi_go.Prelude.Int.{pos}
use redi_go.Resp.Value.{int, error}
use redi_go.Resp.Encode.{encode}

abbrev pub resp_ok : Bytes
resp_ok = codes "+OK\r\n"

abbrev pub ttl_key_not_exist : Bytes
ttl_key_not_exist = codes ":-2\r\n"

abbrev pub ttl_key_exist_no_expire : Bytes
ttl_key_exist_no_expire = codes ":-1\r\n"

-- Encode(errors.New(message), false)
abbrev pub fail : Bytes → Bytes
fail message = encode (error message) false

-- Encode(n, false) of a length or a count
abbrev pub int_reply : ℕ → Bytes
int_reply n = encode (int (pos n)) false

abbrev pub wrong_number : String → Bytes
wrong_number text = fail (codes text)
