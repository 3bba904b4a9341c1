-- ===== src/Probabilistic/Bloom.antt =====
-- internal/data_structure/probabilistic/bloom.go. The 128-bit hash of an entry, which murmur3 computes,
-- is a parameter.
pub mod Loops
pub mod Members
use Prim.Native.Nat.{bit_and, bit_or}
use redi_go.Prelude.{
  Bytes, codes, ℕ, zero, suc, ◌+◌, ◌*◌, ◌/◌, ◌%◌, ◌^◌, List, Bool, true, false, leb, ◌==◌,
  if◌then◌else◌, set, replicate,
}
use redi_go.Prelude.Int.{ℤ, word_mod, rounds}
use redi_go.Go.Result.{Result, ok, panic, ◌>>=◌}
use redi_go.Go.Float.{Floats}
use redi_go.Probabilistic.Cms.{max_counters, read_counter}

pub record HashValue : Type 0 where
  pub a : ℕ
  pub b : ℕ

module _ (F : Floats) where
  pub record Bloom : Type 0 where
    pub hashes : ℤ
    pub entries : ℕ
    pub error : F.Float
    pub bit_per_entry : F.Float
    pub bf : List ℕ
    pub bits : ℕ
    pub words : ℕ

  abbrev pub calc_bpe : F.Float → F.Float
  calc_bpe e = F.abs (F.neg (F.div (F.log e) (F.literal (codes "0.480453013918201"))))

  -- The number of bits rounded up to whole words.
  abbrev pub round_up : ℕ → ℕ
  round_up bits = if bits % 64 == 0 then bits else (((bits / 64 + 1) % word_mod) * 64) % word_mod

  -- The filter once its number of bits is known.
  unfoldable pub with_bits : ℕ → F.Float → ℕ → Bloom
  with_bits entries error_rate bits = record {
    hashes =
        F.to_int (F.ceil (F.mul (F.literal (codes "0.693147180559945")) (calc_bpe error_rate)));
    entries = entries;
    error = error_rate;
    bit_per_entry = calc_bpe error_rate;
    bf = replicate (bits / 64) 0;
    bits = bits;
    words = bits / 64;
  }

  unfoldable pub new_bloom_filter : ℕ → F.Float → Result Bloom
  unfolding with_bits
  new_bloom_filter entries error_rate =
      let bits = round_up (F.to_uint64 (F.mul (F.of_uint64 entries) (calc_bpe error_rate))) in
      if leb (bits / 64) max_counters then ok (with_bits entries error_rate bits) else panic

  -- (initHash.a + initHash.b*uint64(i)) % b.bits, which panics without bits
  unfoldable pub bit_of : Bloom → HashValue → ℕ → Result ℕ
  bit_of b h i = if b.bits == 0 then panic else ok (((h.a + h.b * i) % word_mod) % b.bits)

  -- `hash >> 6` is the quotient by 64 and `hash & 0x3F` the remainder; `|=` writes what it has read.
  unfoldable pub set_bit : Bloom → ℕ → Result Bloom
  set_bit b hash = do
    w ← read_counter b.bf (hash / 64)
    ok (record b { bf = set b.bf (hash / 64) (bit_or w (2 ^ (hash % 64))) })

  -- The loop of `AddHash`: the rounds left, and `i`.
  unfoldable pub add_loop : ℕ → ℕ → HashValue → Bloom → Result Bloom
  add_loop zero i h b = ok b
  add_loop (suc n) i h b = do hash ← bit_of b h i; b' ← set_bit b hash; add_loop n (i + 1) h b'

  unfoldable pub add_hash : Bloom → HashValue → Result Bloom
  add_hash b h = add_loop (rounds b.hashes) 0 h b

  unfoldable pub exist_loop : ℕ → ℕ → HashValue → Bloom → Result Bool
  exist_loop zero i h b = ok true
  exist_loop (suc n) i h b = do
    hash ← bit_of b h i
    w ← read_counter b.bf (hash / 64)
    let rest = exist_loop n (i + 1) h b
    if bit_and w (2 ^ (hash % 64)) == 0 then ok false else rest

  unfoldable pub exist_hash : Bloom → HashValue → Result Bool
  exist_hash b h = exist_loop (rounds b.hashes) 0 h b

  -- `Add` and `Exist` repeat these loops on the hash of the entry, `CalcHash`.
  module _ (calc_hash : Bytes → HashValue) where
    unfoldable pub add : Bloom → Bytes → Result Bloom
    unfolding add_hash
    add b entry = add_hash b (calc_hash entry)

    unfoldable pub exist : Bloom → Bytes → Result Bool
    unfolding exist_hash
    exist b entry = exist_hash b (calc_hash entry)
