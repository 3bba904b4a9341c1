-- ===== src/Go/Bits.antt =====
-- `&` and `|` of words: what a test of one bit sees of an or.
use Prim.Native.Nat.{max, min, bit_and, bit_or, digits, bit_and-bitwise, bit_or-bitwise}
use redi_go.Prelude.{ℕ, zero, suc, ◌+◌, ◌*◌, ◌/◌, ◌%◌, ◌^◌, ◌≤◌, ◌≡◌, refl, sym, ap, ◌∙◌, arith}

-- Both operations go through the binary digits, lowest first, on a count of digits.
module _ (z : ℕ → ℕ) (f : ℕ → ℕ → ℕ) where
  count_free : (n m a b : ℕ) → a ≤ n → a ≤ m → digits z f n a b ≡ digits z f m a b
  count_free zero zero a b p q = refl
  count_free zero (suc m) zero b p q = refl
  count_free zero (suc m) (suc a) b p q = elim p [ ]
  count_free (suc n) zero zero b p q = refl
  count_free (suc n) zero (suc a) b p q = elim q [ ]
  count_free (suc n) (suc m) zero b p q = refl
  count_free (suc n) (suc m) (suc a) b p q =
      ap (λ t. t * 2 + f (suc a % 2) (b % 2))
        (count_free n m (suc a / 2) (b / 2) (omega arith) (omega arith))

  halve :
      (a b : ℕ)
      → z b ≡ z (b / 2) * 2 + f 0 (b % 2)
      → digits z f a a b ≡ digits z f (a / 2) (a / 2) (b / 2) * 2 + f (a % 2) (b % 2)
  halve zero b e = e
  halve (suc a) b e =
      ap (λ t. t * 2 + f (suc a % 2) (b % 2))
        (count_free a (suc a / 2) (suc a / 2) (b / 2) (omega arith) (omega arith))

and_halve : (a b : ℕ) → bit_and a b ≡ bit_and (a / 2) (b / 2) * 2 + min (a % 2) (b % 2)
and_halve a b =
    bit_and-bitwise a b
    ∙ halve (λ _. 0) min a b (omega arith)
    ∙ ap (λ t. t * 2 + min (a % 2) (b % 2)) (sym (bit_and-bitwise (a / 2) (b / 2)))

or_halve : (a b : ℕ) → bit_or a b ≡ bit_or (a / 2) (b / 2) * 2 + max (a % 2) (b % 2)
or_halve a b =
    bit_or-bitwise a b
    ∙ halve (λ x. x) max a b (omega arith)
    ∙ ap (λ t. t * 2 + max (a % 2) (b % 2)) (sym (bit_or-bitwise (a / 2) (b / 2)))

and_digits-zero : (n a : ℕ) → digits (λ _. 0) min n a 0 ≡ 0
and_digits-zero zero a = refl
and_digits-zero (suc n) zero = refl
and_digits-zero (suc n) (suc a) = omega (arith, and_digits-zero n (suc a / 2))

and-zero : (a : ℕ) → bit_and a 0 ≡ 0
and-zero a = bit_and-bitwise a 0 ∙ and_digits-zero a a

-- A test of bit `suc c` looks at bit `c` of the half.
test_half : (c x : ℕ) → bit_and x (2 ^ suc c) ≡ bit_and (x / 2) (2 ^ c) * 2
test_half c x =
    let half : 2 ^ suc c / 2 ≡ 2 ^ c = omega arith in
    let even : 2 ^ suc c % 2 ≡ 0 = omega arith in
    and_halve x (2 ^ suc c) ∙ (rw (half, even) (omega arith))

or-half : (x y : ℕ) → bit_or x y / 2 ≡ bit_or (x / 2) (y / 2)
or-half x y = omega (arith, or_halve x y)

-- A bit that is clear in an or is clear in both words.
pub clear_in_or :
    (c x y : ℕ)
    → bit_and (bit_or x y) (2 ^ c) ≡ 0
    → (bit_and x (2 ^ c) ≡ 0) × (bit_and y (2 ^ c) ≡ 0)
clear_in_or zero x y h =
    let low : bit_or x y % 2 ≡ 0 = omega (arith, h, and_halve (bit_or x y) 1) in
    (
      omega (arith, low, or_halve x y, and_halve x 1, and-zero (x / 2)),
      omega (arith, low, or_halve x y, and_halve y 1, and-zero (y / 2)),
    )
clear_in_or (suc c) x y h =
    let rest : bit_and (bit_or (x / 2) (y / 2)) (2 ^ c) ≡ 0 =
      rw (← or-half x y) (omega (arith, h, test_half c (bit_or x y))) in
    let (l, r) = clear_in_or c (x / 2) (y / 2) rest in
    (omega (arith, l, test_half c x), omega (arith, r, test_half c y))

pub power_self : (c : ℕ) → bit_and (2 ^ c) (2 ^ c) ≡ 2 ^ c
power_self zero = refl
power_self (suc c) =
    let half : 2 ^ suc c / 2 ≡ 2 ^ c = omega arith in
    test_half c (2 ^ suc c) ∙ (rw half (omega (arith, power_self c)))
