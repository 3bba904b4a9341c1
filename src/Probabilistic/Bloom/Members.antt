-- ===== src/Probabilistic/Bloom/Members.antt =====
-- What a Bloom filter of internal/data_structure/probabilistic/bloom.go promises: it forgets nothing.
use redi_go.Prelude.{
  Bytes, ℕ, ◌/◌, ◌%◌, ◌<◌, List, [], ◌∷◌, ◌≡◌, refl, true, ◌⊎◌, arith, beq, leb, beq_iff, listed,
  Bool-cases, inl, inr, length-replicate,
}
use redi_go.Prelude.Int.{rounds}
use redi_go.Go.Result.{Result, ok, panic, ◌>>=◌}
use redi_go.Go.Float.{Floats}
use redi_go.Probabilistic.Cms.{max_counters}
use redi_go.Probabilistic.Bloom.{
  HashValue, Bloom, add_hash, exist_hash, add, exist, new_bloom_filter, round_up, calc_bpe,
  with_bits,
}
use redi_go.Probabilistic.Bloom.Loops.{IsOn, IsBloom, spot, Added, add_loop-Added, exist_loop-true}

module _ (F : Floats) where
  module _ (calc_hash : Bytes → HashValue) where
    unfoldable pub add_all : List Bytes → Bloom F → Result (Bloom F)
    add_all [] b = ok b
    add_all (e ∷ es) b = do b' ← add F calc_hash b e; add_all es b'

    -- All the bits of an entry are set.
    Holds : Bytes → Bloom F → Type 0
    Holds entry b = (r : ℕ) → r < rounds b.hashes → IsOn F b (spot F b (calc_hash entry) r)

    Holds-kept :
        (entry : Bytes) {b b' : Bloom F} {n i : ℕ} {h : HashValue}
        → Added F n i h b b'
        → Holds entry b
        → Holds entry b'
    unfolding Holds
    Holds-kept entry a on r lt = rw a.same_bits (a.kept _ (on r (rw (← a.same_hashes) lt)))

    Holds-Added :
        {e entry : Bytes} {b b' : Bloom F}
        → e ≡ entry
        → Added F (rounds b.hashes) 0 (calc_hash e) b b'
        → Holds entry b'
    unfolding Holds
    Holds-Added {b = b} p a r lt =
        let lt' : r < rounds b.hashes = rw a.same_hashes at lt in
        rw (← p) (a.added r (omega arith) (omega arith))

    add_all-Holds :
        (es : List Bytes) (entry : Bytes) (b : Bloom F)
        → IsBloom F b
        → (listed entry es ≡ true) ⊎ Holds entry b
        → (b' : Bloom F) × (add_all es b ≡ ok b') × IsBloom F b' × Holds entry b'
    unfolding add_all add add_hash
    add_all-Holds [] entry b k (inl e) = cc
    add_all-Holds [] entry b k (inr on) = (b, refl, k, on)
    add_all-Holds (e ∷ es) entry b k h =
        let (b1, a) = add_loop-Added F (rounds b.hashes) 0 (calc_hash e) b k in
        let now : (listed entry es ≡ true) ⊎ Holds entry b1 = elim h [
          | inl l ↦ elim (Bool-cases (beq e entry)) [
            | inl same ↦ inr (Holds-Added ((beq_iff e entry).0 same) a)
            | inr other ↦ inl (ground arith)
          ]
          | inr on ↦ inr (Holds-kept entry a on)
        ] in
        let (b', run, k', on) = add_all-Holds es entry b1 a.filter now in
        (b', rw a.done run, k', on)

  with_bits-IsBloom :
      (n : ℕ) (error_rate : F.Float) (m : ℕ)
      → m % 64 ≡ 0
      → 0 < m
      → IsBloom F (with_bits F n error_rate m)
  unfolding with_bits
  with_bits-IsBloom n error_rate m whole pos = record {
    filled = rw (length-replicate {A = ℕ} (m / 64) 0) (omega arith);
    some_bits = pos;
  }

  round_up_whole : (m : ℕ) → round_up F m % 64 ≡ 0
  round_up_whole m = ground arith

  bits-with_bits : (n : ℕ) (error_rate : F.Float) (m : ℕ) → (with_bits F n error_rate m).bits ≡ m
  unfolding with_bits
  bits-with_bits n error_rate m = refl

  pub new_bloom_filter-IsBloom :
      (n : ℕ) (error_rate : F.Float) (b : Bloom F)
      → new_bloom_filter F n error_rate ≡ ok b
      → 0 < b.bits
      → IsBloom F b
  unfolding new_bloom_filter
  new_bloom_filter-IsBloom n error_rate b e pos =
      let m = round_up F (F.to_uint64 (F.mul (F.of_uint64 n) (calc_bpe F error_rate))) in
      elim (Bool-cases (leb (m / 64) max_counters)) [
        | inl small ↦
            let made : ok (with_bits F n error_rate m) ≡ ok b = rw small at e in
            let p : with_bits F n error_rate m ≡ b = cc in
            let some : 0 < m = rw (← p, bits-with_bits n error_rate m) at pos in
            rw (← p) (
              with_bits-IsBloom n error_rate m
                (round_up_whole (F.to_uint64 (F.mul (F.of_uint64 n) (calc_bpe F error_rate)))) some)
        | inr large ↦ let none_made : panic ≡ ok b = rw large at e in cc
      ]

  -- A Bloom filter has no false negatives: from a new filter that has bits, every addition returns, and
  -- `Exist` is then true of each entry that was added, whatever the hash and the floating point
  -- numbers are.
  pub exist-add_all :
      (calc_hash : Bytes → HashValue) (n : ℕ) (error_rate : F.Float) (b : Bloom F) (es : List Bytes)
      (entry : Bytes)
      → new_bloom_filter F n error_rate ≡ ok b
      → 0 < b.bits
      → listed entry es ≡ true
      → (b' : Bloom F) × (add_all calc_hash es b ≡ ok b') × (exist F calc_hash b' entry ≡ ok true)
  unfolding exist exist_hash Holds
  exist-add_all calc_hash n error_rate b es entry made pos there =
      let k = new_bloom_filter-IsBloom n error_rate b made pos in
      let (b', run, k', on) = add_all-Holds calc_hash es entry b k (inl there) in
      (
        b',
        run,
        exist_loop-true F (rounds b'.hashes) 0 (calc_hash entry) b' k'
            (λ r le lt. on r (omega arith)),
      )
