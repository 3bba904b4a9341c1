-- ===== src/Resp/Strict.antt =====
-- `readInt64` of cmd/test/main.go, a second reader of RESP integers, which checks what it reads.
pub mod Agreement
use redi_go.Prelude.{
  Bytes, codes, ℕ, ◌+◌, ◌-◌, ◌*◌, ◌/◌, ◌%◌, [], ◌∷◌, Bool, true, false, ◌&&◌, ltb, leb, ◌==◌,
  if◌then◌else◌, drop, length,
}
use redi_go.Prelude.Int.{ℤ, word_mod, int_max, to_int64}
use redi_go.Go.Result.{Result, ok, err, ◌>>=◌}
use redi_go.Resp.Decode.{Cursor, minus_one}

-- The digits read so far: their value and number, the position behind them and the bytes from there.
pub record Digits : Type 0 where
  pub res : ℕ
  pub pos : ℕ
  pub digit_count : ℕ
  pub rest : Bytes

abbrev pub is_digit : ℕ → Bool
is_digit c = leb b'0' c && leb c b'9'

-- The loop over the digits; `res > (math.MaxInt64-int64(ch-'0'))/10` is the overflow.
unfoldable pub read_digits : Bytes → ℕ → ℕ → ℕ → Result Digits
read_digits [] res pos digit_count =
    ok (record { res = res; pos = pos; digit_count = digit_count; rest = [] })
read_digits (c ∷ s) res pos digit_count =
    let rest = read_digits s (res * 10 + (c - 48)) (pos + 1) (digit_count + 1) in
    if is_digit c
    then (if ltb ((int_max - (c - 48)) / 10) res then err (codes "integer overflow") else rest)
    else ok (record { res = res; pos = pos; digit_count = digit_count; rest = c ∷ s })

-- The sign and where the digits start. There is a byte, since there are four.
unfoldable pub read_sign : Bytes → Cursor
read_sign [] = record { sign = 1; at = 1; rest = [] }
read_sign (c ∷ s) =
    if c == b'-'
    then record { sign = minus_one; at = 2; rest = s }
    else if c == b'+'
    then record { sign = 1; at = 2; rest = s }
    else record { sign = 1; at = 1; rest = c ∷ s }

abbrev pub ends_line : Bytes → Bool
ends_line [] = false
ends_line (a ∷ []) = false
ends_line (a ∷ b ∷ s) = a == b'\r' && b == b'\n'

unfoldable pub finish : ℕ → Digits → Result (ℤ × ℕ)
finish sign d =
    if d.digit_count == 0
    then err (codes "no digits found")
    else if ends_line d.rest
    then ok (to_int64 ((d.res * sign) % word_mod), d.pos + 2)
    else err (codes "invalid terminator")

abbrev pub has_prefix : Bytes → Bool
has_prefix [] = false
has_prefix (c ∷ s) = c == b':'

unfoldable pub read_int64 : Bytes → Result (ℤ × ℕ)
unfolding read_sign read_digits finish
read_int64 d =
    if ltb (length d) 4
    then err (codes "input data too short")
    else if has_prefix d
    then (let p = read_sign (drop 1 d) in read_digits p.rest 0 p.at 0 >>= finish p.sign)
    else err (codes "invalid prefix: must start with ':'")
