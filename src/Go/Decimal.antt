-- ===== src/Go/Decimal.antt =====
-- `fmt.Sprintf("%d", n)` of 64-bit integers, and `strconv.ParseInt` and `ParseUint` in base 10.
use redi_go.Prelude.{
  Bytes, ◌&&◌, ℕ, zero, suc, ◌+◌, ◌-◌, ◌*◌, ◌/◌, ◌%◌, [], ◌∷◌, ◌≡◌, refl, leb, ◌==◌, if◌then◌else◌,
  Option, none, some, codes,
}
use redi_go.Prelude.Int.{ℤ, pos, negsuc, int_max, word_mod}

-- The digits of `n` before `out`, at most `rounds` of them: a `uint64` has twenty digits or fewer.
unfoldable pub digits : ℕ → ℕ → Bytes → Bytes
digits zero n out = out
digits (suc rounds) n out = if n == 0 then out else digits rounds (n / 10) ((b'0' + n % 10) ∷ out)

abbrev pub max_digits : ℕ
max_digits = 20

unfoldable pub format_nat : ℕ → Bytes
format_nat n = if n == 0 then b'0' ∷ [] else digits max_digits n []

unfoldable pub format_int : ℤ → Bytes
format_int (pos n) = format_nat n
format_int (negsuc n) = b'-' ∷ format_nat (n + 1)

-- The value that digits spell behind `n`; `none` at another byte.
unfoldable pub digits_value : Bytes → ℕ → Option ℕ
digits_value [] n = some n
digits_value (c ∷ s) n =
    if leb b'0' c && leb c b'9' then digits_value s (n * 10 + (c - b'0')) else none

abbrev within : ℕ → Option ℕ → Option ℕ
within most none = none
within most (some n) = if leb n most then some n else none

-- strconv.ParseUint(s, 10, 64); an error is `none`.
unfoldable pub parse_uint : Bytes → Option ℕ
unfolding digits_value
parse_uint [] = none
parse_uint (c ∷ s) = within (word_mod - 1) (digits_value (c ∷ s) 0)

abbrev unsigned : Bytes → ℕ → Option ℕ
unfolding digits_value
unsigned [] most = none
unsigned (c ∷ s) most = within most (digits_value (c ∷ s) 0)

abbrev negated : Option ℕ → Option ℤ
negated none = none
negated (some zero) = some (pos 0)
negated (some (suc n)) = some (negsuc n)

abbrev as_pos : Option ℕ → Option ℤ
as_pos none = none
as_pos (some n) = some (pos n)

-- strconv.ParseInt(s, 10, 64)
unfoldable pub parse_int : Bytes → Option ℤ
unfolding digits_value
parse_int [] = none
parse_int (c ∷ s) =
    if c == b'-'
    then negated (unsigned s (int_max + 1))
    else if c == b'+'
    then as_pos (unsigned s int_max)
    else as_pos (unsigned (c ∷ s) int_max)

format_int_test : format_int (negsuc 1233) ≡ codes "-1234"
unfolding format_int format_nat digits
format_int_test = refl

parse_int_test : parse_int (codes "-9223372036854775808") ≡ some (negsuc int_max)
unfolding parse_int
parse_int_test = refl

parse_int_range : parse_int (codes "9223372036854775808") ≡ none
unfolding parse_int
parse_int_range = refl
