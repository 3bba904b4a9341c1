-- ===== src/Resp/RoundTrip/Number.antt =====
-- The number readers of internal/core/resp.go on what `%d` prints.
use redi_go.Prelude.{
  Bytes, ℕ, zero, suc, ◌+◌, ◌-◌, ◌*◌, ◌/◌, ◌%◌, ◌^◌, ◌≤◌, ◌<◌, [], ◌∷◌, ◌++◌, ◌≡◌, refl, ap, ◌∙◌,
  false, length, arith, ◌==◌, Bool-cases, inl, inr,
}
use native.Mathlib.Nat.{pow-suc}
use redi_go.Prelude.Int.{ℤ, pos, negsuc, word_mod, int_max, to_int64, InInt64}
use redi_go.Go.Result.{Result, ok, ◌>>=◌}
use redi_go.Go.Decimal.{digits, format_nat, format_int}
use redi_go.Resp.Decode.{read_minus, read_plus, read_digits, read_int64, minus_one}
use redi_go.Resp.Encode.{crlf}

-- A text that begins with a digit.
abbrev pub HeadDigit : Bytes → Type 0
HeadDigit s = (c : ℕ) × (t : Bytes) × (s ≡ c ∷ t) × (48 ≤ c) × (c ≤ 57)

digits-HeadDigit : (f n : ℕ) (out : Bytes) → HeadDigit out → HeadDigit (digits f n out)
unfolding digits
digits-HeadDigit zero n out h = h
digits-HeadDigit (suc f) n out h = elim (Bool-cases (n == 0)) [
  | inl e ↦ rw e h
  | inr e ↦ rw e (digits-HeadDigit f (n / 10) _ (48 + n % 10, out, refl, omega arith, omega arith))
]

digits_pos-HeadDigit : (f n : ℕ) → (n == 0) ≡ false → HeadDigit (digits (suc f) n [])
unfolding digits
digits_pos-HeadDigit f n e =
    rw e (digits-HeadDigit f (n / 10) _ (48 + n % 10, [], refl, omega arith, omega arith))

pub format_nat-HeadDigit : (n : ℕ) → HeadDigit (format_nat n)
unfolding format_nat
format_nat-HeadDigit n = elim (Bool-cases (n == 0)) [
  | inl e ↦ rw e (48, [], refl, omega arith, omega arith)
  | inr e ↦ rw e (digits_pos-HeadDigit 19 n e)
]

length-digits-ge : (f n : ℕ) (out : Bytes) → length out ≤ length (digits f n out)
unfolding digits
length-digits-ge zero n out = omega arith
length-digits-ge (suc f) n out = ground (arith, length-digits-ge f (n / 10) ((48 + n % 10) ∷ out))

-- One digit is read back.
read_digit :
    (n at : ℕ) (s : Bytes)
    → n < word_mod
    → read_digits ((48 + n % 10) ∷ s) (n / 10) at ≡ read_digits s n (at + 1)
unfolding read_digits
read_digit n at s h = ground arith

tenth_lt : (f n : ℕ) → n < 10 ^ suc f → n / 10 < 10 ^ f
tenth_lt f n h = let h' : n < 10 ^ f * 10 = rw pow-suc at h in omega arith

read_digits-digits :
    (f n at : ℕ) (out rest : Bytes)
    → n < 10 ^ f
    → n < word_mod
    → read_digits (digits f n out ++ rest) 0 at
      ≡ read_digits (out ++ rest) n (at + (length (digits f n out) - length out))
unfolding digits
read_digits-digits zero n at out rest h w =
    let e : 0 ≡ n = omega arith in
    let p : at ≡ at + (length out - length out) = omega arith in
    λ i. read_digits (out ++ rest) (e i) (p i)
read_digits-digits (suc f) n at out rest h w = elim (Bool-cases (n == 0)) [
  | inl z ↦
      let e : 0 ≡ n = ground arith in
      let p : at ≡ at + (length out - length out) = omega arith in
      rw z (λ i. read_digits (out ++ rest) (e i) (p i))
  | inr z ↦ rw z (
      read_digits-digits f (n / 10) at ((48 + n % 10) ∷ out) rest (tenth_lt f n h) (omega arith)
      ∙ read_digit n _ (out ++ rest) w
      ∙ ap (read_digits (out ++ rest) n)
          (omega (arith, length-digits-ge f (n / 10) ((48 + n % 10) ∷ out))))
]

-- A printed number is read up to the carriage return behind it.
pub read_digits-format_nat :
    (n at : ℕ) (rest : Bytes)
    → n < word_mod
    → read_digits (format_nat n ++ (crlf ++ rest)) 0 at ≡ ok (n, at + length (format_nat n))
unfolding format_nat read_digits
read_digits-format_nat n at rest w = elim (Bool-cases (n == 0)) [
  | inl z ↦ rw z (ground arith)
  | inr z ↦ rw z (read_digits-digits 20 n at [] _ (omega arith) w ∙ ground arith)
]

read_minus-HeadDigit :
    (s r : Bytes)
    → HeadDigit s
    → read_minus (s ++ r) ≡ ok (record { sign = 1; at = 1; rest = s ++ r })
unfolding read_minus
read_minus-HeadDigit s r (c, t, e, lo, hi) = rw e (ground arith)

read_plus-HeadDigit :
    (sign at : ℕ) (s r : Bytes)
    → HeadDigit s
    → read_plus sign at (s ++ r) ≡ ok (record { sign = sign; at = at; rest = s ++ r })
unfolding read_plus
read_plus-HeadDigit sign at s r (c, t, e, lo, hi) = rw e (ground arith)

-- The result of the digits, as `readInt64` gives it.
abbrev signed : ℕ → ℕ × ℕ → Result (ℤ × ℕ)
signed sign r = ok (to_int64 ((r.0 * sign) % word_mod), r.1 + 2)

-- Behind its sign a printed number is read whole.
read_tail :
    (sign at n : ℕ) (rest : Bytes)
    → n < word_mod
    → (read_plus sign at (format_nat n ++ (crlf ++ rest)) >>= λ q.
        read_digits q.rest 0 q.at >>= signed q.sign)
      ≡ ok (to_int64 ((n * sign) % word_mod), at + length (format_nat n) + 2)
read_tail sign at n rest w =
    rw (read_plus-HeadDigit sign at (format_nat n) (crlf ++ rest) (format_nat-HeadDigit n))
      (rw (read_digits-format_nat n at rest w))

to_int64_pos : (n : ℕ) → n ≤ int_max → to_int64 ((n * 1) % word_mod) ≡ pos n
to_int64_pos n h = ground arith

to_int64_neg : (n : ℕ) → n ≤ int_max → to_int64 (((n + 1) * minus_one) % word_mod) ≡ negsuc n
to_int64_neg n h =
    let e : ((n + 1) * minus_one) % word_mod ≡ word_mod - 1 - n = omega arith in rw e (ground arith)

same_result :
    {z z' : ℤ} {a b : ℕ} → z ≡ z' → a ≡ b → ◌≡◌ {A = Result (ℤ × ℕ)} (ok (z, a)) (ok (z', b))
same_result p q i = ok (p i, q i)

-- A printed `int64` is read back, behind any first byte.
pub read_int64-format_int :
    (c : ℕ) (z : ℤ) (rest spare : Bytes)
    → InInt64 z
    → read_int64 (record { live = c ∷ (format_int z ++ (crlf ++ rest)); spare = spare })
      ≡ ok (z, length (format_int z) + 3)
unfolding read_int64 format_int
read_int64-format_int c (pos n) rest spare h =
    rw (read_minus-HeadDigit (format_nat n) (crlf ++ rest) (format_nat-HeadDigit n))
      (read_tail 1 1 n rest (omega arith) ∙ same_result (to_int64_pos n h) (omega arith))
read_int64-format_int c (negsuc n) rest spare h =
    unfold read_minus in
    (read_tail minus_one 2 (n + 1) rest (omega arith)
      ∙ same_result (to_int64_neg n h) (omega arith))
