-- ===== src/Probabilistic/Bloom/Loops.antt =====
-- The loops of internal/data_structure/probabilistic/bloom.go, bit by bit.
use Prim.Native.Nat.{bit_and, bit_or}
use native.Mathlib.Nat.{mod-lt}
use redi_go.Prelude.{
  ℕ, zero, suc, ◌+◌, ◌*◌, ◌/◌, ◌%◌, ◌^◌, ◌≤◌, ◌<◌, ◌≡◌, ◌≢◌, refl, sym, ap, ◌∙◌, true, false, arith,
  ◌==◌, length, set, get_or, length-set, get_or-set_self, get_or-set_ne, get_elem?-get_or,
  ℕ_discrete,
}
use redi_go.Prelude.Int.{word_mod}
use redi_go.Go.Result.{ok}
use redi_go.Go.Bits.{clear_in_or, power_self}
use redi_go.Go.Float.{Floats}
use redi_go.Probabilistic.Cms.{read_counter}
use redi_go.Probabilistic.Bloom.{HashValue, Bloom, bit_of, set_bit, add_loop, exist_loop}

module _ (F : Floats) where
  -- The word that holds a bit, and the bit in it.
  abbrev word_of : Bloom F → ℕ → ℕ
  word_of b x = get_or b.bf (x / 64) 0

  abbrev mask : ℕ → ℕ
  mask x = 2 ^ (x % 64)

  abbrev pub IsOn : Bloom F → ℕ → Type 0
  IsOn b x = bit_and (word_of b x) (mask x) ≢ 0

  -- The bits fill the words, and there are some.
  pub record IsBloom (b : Bloom F) : Type 0 where
    pub filled : b.bits ≡ 64 * length b.bf
    pub some_bits : 0 < b.bits

  -- Where the hash `i` of an entry falls.
  abbrev pub spot : Bloom F → HashValue → ℕ → ℕ
  spot b h i = ((h.a + h.b * i) % word_mod) % b.bits

  abbrev with_bit : Bloom F → ℕ → Bloom F
  with_bit b x = record b { bf = set b.bf (x / 64) (bit_or (word_of b x) (mask x)) }

  bit_of-spot : (b : Bloom F) (h : HashValue) (i : ℕ) → IsBloom b → bit_of F b h i ≡ ok (spot b h i)
  unfolding bit_of
  bit_of-spot b h i k =
      let nonzero : (b.bits == 0) ≡ false = ground (arith, k.some_bits) in rw nonzero refl

  word_in_range : (b : Bloom F) (x : ℕ) → IsBloom b → x < b.bits → x / 64 < length b.bf
  word_in_range b x k lt = omega (arith, k.filled)

  read_word :
      (b : Bloom F) (x : ℕ) → IsBloom b → x < b.bits → read_counter b.bf (x / 64) ≡ ok (word_of b x)
  unfolding read_counter
  read_word b x k lt =
      rw (read_counter, get_elem?-get_or b.bf (x / 64) 0 (word_in_range b x k lt)) refl

  set_bit-with_bit :
      (b : Bloom F) (x : ℕ) → IsBloom b → x < b.bits → set_bit F b x ≡ ok (with_bit b x)
  unfolding set_bit
  set_bit-with_bit b x k lt = rw (read_word b x k lt) refl

  with_bit-IsBloom : (b : Bloom F) (x : ℕ) → IsBloom b → IsBloom (with_bit b x)
  with_bit-IsBloom b x k = record {
    filled = k.filled ∙ ap (λ n. 64 * n) (sym (length-set b.bf (x / 64) _));
    some_bits = k.some_bits;
  }

  power_pos : (c : ℕ) → 0 < 2 ^ c
  power_pos zero = omega arith
  power_pos (suc c) = omega (arith, power_pos c)

  with_bit-IsOn : (b : Bloom F) (x : ℕ) → IsBloom b → x < b.bits → IsOn (with_bit b x) x
  with_bit-IsOn b x k lt off =
      let self =
        get_or-set_self b.bf (x / 64) (bit_or (word_of b x) (mask x)) 0 (word_in_range b x k lt) in
      let (l, r) = clear_in_or (x % 64) (word_of b x) (mask x) (rw self at off) in
      omega (arith, r, power_self (x % 64), power_pos (x % 64))

  with_bit_keeps :
      (b : Bloom F) (x y : ℕ) → IsBloom b → x < b.bits → IsOn b y → IsOn (with_bit b x) y
  with_bit_keeps b x y k lt on off = elim (ℕ_discrete (x / 64) (y / 64)) [
    | yes same ↦
        let self =
          get_or-set_self b.bf (x / 64) (bit_or (word_of b x) (mask x)) 0
            (word_in_range b x k lt) in
        let (l, r) = clear_in_or (y % 64) (word_of b x) (mask x) (rw (← same, self) at off) in
        (rw (← same) at on) l
    | no ne ↦
        on (rw (get_or-set_ne b.bf (x / 64) (y / 64) (bit_or (word_of b x) (mask x)) 0 ne) at off)
  ]

  spot-lt : (b : Bloom F) (h : HashValue) (i : ℕ) → IsBloom b → spot b h i < b.bits
  spot-lt b h i k = mod-lt ((h.a + h.b * i) % word_mod) k.some_bits

  -- What the loop of an addition leaves: the rows from `i` on are set, and what was set still is.
  pub record Added (n i : ℕ) (h : HashValue) (b b' : Bloom F) : Type 0 where
    pub done : add_loop F n i h b ≡ ok b'
    pub filter : IsBloom b'
    pub same_bits : b'.bits ≡ b.bits
    pub same_hashes : b'.hashes ≡ b.hashes
    pub kept : (y : ℕ) → IsOn b y → IsOn b' y
    pub added : (r : ℕ) → i ≤ r → r < i + n → IsOn b' (spot b' h r)

  pub add_loop-Added :
      (n i : ℕ) (h : HashValue) (b : Bloom F) → IsBloom b → (b' : Bloom F) × Added n i h b b'
  unfolding add_loop
  add_loop-Added zero i h b k = (
    b,
    record {
      done = refl;
      filter = k;
      same_bits = refl;
      same_hashes = refl;
      kept = λ y on. on;
      added = λ r le lt. absurd (omega arith);
    },
  )
  add_loop-Added (suc n) i h b k =
      let x = spot b h i in
      let lt = spot-lt b h i k in
      let (b', rest) = add_loop-Added n (i + 1) h (with_bit b x) (with_bit-IsBloom b x k) in
      (
        b',
        record {
          done = rw (bit_of-spot b h i k, set_bit-with_bit b x k lt) rest.done;
          filter = rest.filter;
          same_bits = rest.same_bits;
          same_hashes = rest.same_hashes;
          kept = λ y on. rest.kept y (with_bit_keeps b x y k lt on);
          added = λ r le in_range. elim (ℕ_discrete i r) [
            | yes e ↦ rw (← e, rest.same_bits) (rest.kept x (with_bit-IsOn b x k lt))
            | no ne ↦ rest.added r (omega (arith, ne)) (omega arith)
          ];
        },
      )

  pub exist_loop-true :
      (n i : ℕ) (h : HashValue) (b : Bloom F)
      → IsBloom b
      → ((r : ℕ) → i ≤ r → r < i + n → IsOn b (spot b h r))
      → exist_loop F n i h b ≡ ok true
  unfolding exist_loop
  exist_loop-true zero i h b k on = refl
  exist_loop-true (suc n) i h b k on =
      let x = spot b h i in
      let set : (bit_and (word_of b x) (mask x) == 0) ≡ false =
        ground (arith, on i (omega arith) (omega arith)) in
      rw (bit_of-spot b h i k, read_word b x k (spot-lt b h i k), set)
        (exist_loop-true n (i + 1) h b k (λ r le lt. on r (omega arith) (omega arith)))
