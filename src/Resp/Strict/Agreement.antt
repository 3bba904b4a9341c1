-- ===== src/Resp/Strict/Agreement.antt =====
-- The two readers of RESP integers, of internal/core/resp.go and of cmd/test/main.go, compared.
use redi_go.Prelude.{
  Bytes, codes, ℕ, ◌+◌, ◌-◌, ◌*◌, ◌/◌, ◌%◌, ◌≤◌, [], ◌∷◌, ◌≡◌, refl, true, false, arith, ltb, ◌==◌,
  Bool-cases, inl, inr, length,
}
use redi_go.Prelude.Int.{ℤ, word_mod, int_max, to_int64}
use redi_go.Go.Result.{Result, ok, err, panic, hang, ◌>>=◌}
use redi_go.Resp.Decode
use redi_go.Resp.Strict.{Digits, is_digit, read_digits, read_sign, ends_line, finish, read_int64}

ends_cr : (c : ℕ) (s : Bytes) → ends_line (c ∷ s) ≡ true → (c == b'\r') ≡ true
ends_cr c [] h = cc
ends_cr c (b ∷ s) h = ground arith

-- Up to a line end both readers take the same digits.
same_digits :
    (s : Bytes) (res pos n : ℕ) (d : Digits)
    → res ≤ int_max
    → read_digits s res pos n ≡ ok d
    → ends_line d.rest ≡ true
    → Decode.read_digits s res pos ≡ ok (d.res, d.pos)
unfolding read_digits Decode.read_digits
same_digits [] res pos n d fits e line =
    let start : Digits = record { res = res; pos = pos; digit_count = n; rest = [] } in
    let p : start ≡ d = cc in let bad : false ≡ true = rw (← p) at line in cc
same_digits (c ∷ s) res pos n d fits e line = elim (Bool-cases (is_digit c)) [
  | inl dig ↦ elim (Bool-cases (ltb ((int_max - (c - 48)) / 10) res)) [
    | inl over ↦ let bad : err (codes "integer overflow") ≡ ok d = rw (dig, over) at e in cc
    | inr small ↦
        let go : read_digits s (res * 10 + (c - 48)) (pos + 1) (n + 1) ≡ ok d =
          rw (dig, small) at e in
        let low : 48 ≤ c = ground arith in
        let high : c ≤ 57 = ground arith in
        let bound : res ≤ (int_max - (c - 48)) / 10 = ground arith in
        let more : (c == b'\r') ≡ false = ground arith in
        let exact : (res * 10 + (c + 208) % 256) % word_mod ≡ res * 10 + (c - 48) = omega arith in
        rw (more, exact)
          (same_digits s (res * 10 + (c - 48)) (pos + 1) (n + 1) d (omega arith) go line)
  ]
  | inr other ↦
      let start : Digits = record { res = res; pos = pos; digit_count = n; rest = c ∷ s } in
      let stop : ok start ≡ ok d = rw other at e in
      let p : start ≡ d = cc in
      let line' : ends_line (c ∷ s) ≡ true = rw (← p) at line in rw (← p, ends_cr c s line') refl
]

-- Without a digit there is no number, so the sign is followed by one.
first_digit :
    (c : ℕ) (s : Bytes) (pos : ℕ) (d : Digits)
    → read_digits (c ∷ s) 0 pos 0 ≡ ok d
    → (d.digit_count == 0) ≡ false
    → is_digit c ≡ true
unfolding read_digits
first_digit c s pos d e some = elim (Bool-cases (is_digit c)) [
  | inl dig ↦ dig
  | inr other ↦
      let start : Digits = record { res = 0; pos = pos; digit_count = 0; rest = c ∷ s } in
      let stop : ok start ≡ ok d = rw other at e in
      let p : start ≡ d = cc in let bad : true ≡ false = rw (← p) at some in cc
]

bind_ok {ℓ κ} :
    {A : Type ℓ} {B : Type κ} (m : Result A) (f : A → Result B) (b : B)
    → (m >>= f) ≡ ok b
    → (a : A) × (m ≡ ok a) × (f a ≡ ok b)
bind_ok (ok a) f b e = (a, refl, e)
bind_ok (err _) f b e = cc
bind_ok panic f b e = cc
bind_ok hang f b e = cc

-- What `readInt64` of resp.go makes of the digits.
abbrev signed : ℕ → ℕ × ℕ → Result (ℤ × ℕ)
signed sign r = ok (to_int64 ((r.0 * sign) % word_mod), r.1 + 2)

finish_ok :
    (sign : ℕ) (d : Digits) (r : ℤ × ℕ)
    → finish sign d ≡ ok r
    → ((d.digit_count == 0) ≡ false)
      × (ends_line d.rest ≡ true)
      × (signed sign (d.res, d.pos) ≡ ok r)
unfolding finish
finish_ok sign d r e = elim (Bool-cases (d.digit_count == 0)) [
  | inl none ↦ let bad : err (codes "no digits found") ≡ ok r = rw none at e in cc
  | inr some ↦ elim (Bool-cases (ends_line d.rest)) [
    | inl line ↦ (some, line, rw (some, line) at e)
    | inr open_ ↦ let bad : err (codes "invalid terminator") ≡ ok r = rw (some, open_) at e in cc
  ]
]

after_sign :
    (s : Bytes) (sign at : ℕ) (r : ℤ × ℕ)
    → (read_digits s 0 at 0 >>= finish sign) ≡ ok r
    → (Decode.read_digits s 0 at >>= signed sign) ≡ ok r
after_sign s sign at r e =
    let (d, digits, end) = bind_ok (read_digits s 0 at 0) (finish sign) r e in
    let (some, line, last) = finish_ok sign d r end in
    rw (same_digits s 0 at 0 d (omega arith) digits line) last

-- A digit is no sign.
no_plus :
    (s : Bytes) (sign at : ℕ) (r : ℤ × ℕ)
    → (read_digits s 0 at 0 >>= finish sign) ≡ ok r
    → Decode.read_plus sign at s ≡ ok (record { sign = sign; at = at; rest = s })
unfolding Decode.read_plus read_digits finish
no_plus [] sign at r e = cc
no_plus (c ∷ s) sign at r e =
    let (d, digits, end) = bind_ok (read_digits (c ∷ s) 0 at 0) (finish sign) r e in
    let dig = first_digit c s at d digits (finish_ok sign d r end).0 in
    let other : (c == b'+') ≡ false = ground arith in rw other refl

no_digits : (sign at : ℕ) (r : ℤ × ℕ) → ¬ ((read_digits [] 0 at 0 >>= finish sign) ≡ ok r)
unfolding read_digits finish
no_digits sign at r e = cc

read_signed :
    (s : Bytes) (r : ℤ × ℕ)
    → (read_digits (read_sign s).rest 0 (read_sign s).at 0 >>= finish (read_sign s).sign) ≡ ok r
    → (Decode.read_minus s >>= λ p. Decode.read_plus p.sign p.at p.rest >>= λ q.
        Decode.read_digits q.rest 0 q.at >>= signed q.sign)
      ≡ ok r
unfolding read_sign Decode.read_minus
read_signed [] r e = absurd (no_digits 1 1 r e)
read_signed (c ∷ s) r e = elim (Bool-cases (c == b'-')) [
  | inl minus ↦
      let e' : (read_digits s 0 2 0 >>= finish Decode.minus_one) ≡ ok r = rw minus at e in
      rw (minus, no_plus s Decode.minus_one 2 r e') (after_sign s Decode.minus_one 2 r e')
  | inr not_minus ↦ elim (Bool-cases (c == b'+')) [
    | inl plus ↦
        let e' : (read_digits s 0 2 0 >>= finish 1) ≡ ok r = rw (not_minus, plus) at e in
        unfold Decode.read_plus in rw (not_minus, plus) (after_sign s 1 2 r e')
    | inr not_plus ↦
        let e' : (read_digits (c ∷ s) 0 1 0 >>= finish 1) ≡ ok r = rw (not_minus, not_plus) at e in
        rw (not_minus, no_plus (c ∷ s) 1 1 r e') (after_sign (c ∷ s) 1 1 r e')
  ]
]

-- Whatever `readInt64` of cmd/test/main.go accepts, `readInt64` of resp.go reads as the same number of
-- the same length, whatever lies in the buffer behind the input.
pub read_int64-strict :
    (c : ℕ) (s spare : Bytes) (r : ℤ × ℕ)
    → read_int64 (c ∷ s) ≡ ok r
    → Decode.read_int64 (record { live = c ∷ s; spare = spare }) ≡ ok r
unfolding read_int64 Decode.read_int64
read_int64-strict c s spare r e = elim (Bool-cases (ltb (length (c ∷ s)) 4)) [
  | inl short ↦ let bad : err (codes "input data too short") ≡ ok r = rw short at e in cc
  | inr enough ↦ elim (Bool-cases (c == b':')) [
    | inl colon ↦ read_signed s r (rw (enough, colon) at e)
    | inr other ↦
        let bad : err (codes "invalid prefix: must start with ':'") ≡ ok r =
          rw (enough, other) at e in
        cc
  ]
]
