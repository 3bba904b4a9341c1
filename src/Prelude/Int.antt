-- ===== src/Prelude/Int.antt =====
-- Signed integers over the native numbers, and the 64-bit words of Go: an `int64` is the integer that
-- a bit pattern below 2 ^ 64 stands for in two's complement.
use redi_go.Prelude.Tests.{leb, if◌then◌else◌}
use Prim.Native.Nat.{ℕ, ◌-◌, ◌%◌, ◌^◌, ◌≤◌, ◌<◌}
use mathlib.Core.Path.{◌≡◌}
use native.Mathlib.Omega.{arith}

-- `negsuc n` is -(n + 1).
pub data ℤ : Type 0 where
  pos : ℕ → ℤ
  negsuc : ℕ → ℤ

abbrev pub word_mod : ℕ
word_mod = 2 ^ 64

abbrev pub int_max : ℕ
int_max = 2 ^ 63 - 1

abbrev pub InInt64 : ℤ → Type 0
InInt64 (pos n) = n ≤ int_max
InInt64 (negsuc n) = n ≤ int_max

-- The integer of a bit pattern, `int64(w)`.
abbrev pub to_int64 : ℕ → ℤ
to_int64 w = if leb w int_max then pos w else negsuc (word_mod - 1 - w)

-- The bit pattern of an integer, `uint64(z)`.
abbrev pub to_word : ℤ → ℕ
to_word (pos n) = n % word_mod
to_word (negsuc n) = word_mod - 1 - n % word_mod

pub to_int64-to_word : (z : ℤ) → InInt64 z → to_int64 (to_word z) ≡ z
to_int64-to_word (pos n) h = ground arith
to_int64-to_word (negsuc n) h = ground arith

pub to_int64-InInt64 : (w : ℕ) → w < word_mod → InInt64 (to_int64 w)
to_int64-InInt64 w h = ground arith

-- How many rounds `for i := 0; i < n; i++` makes.
abbrev pub rounds : ℤ → ℕ
rounds (pos n) = n
rounds (negsuc n) = 0
