-- ===== src/Tests/Filters.antt =====
-- A Bloom filter.
use redi_go.Prelude.{
  Bytes, codes, ◌*◌, ◌≡◌, ◌<◌, List, [], ◌∷◌, refl, true, arith, listed, beq, length,
}
use redi_go.Go.Result.{ok}
use redi_go.Tests.ToyFloats.{toy}
use redi_go.Probabilistic.Bloom.{Bloom, HashValue, new_bloom_filter, with_bits, exist}
use redi_go.Probabilistic.Bloom.Members.{add_all, exist-add_all}

abbrev toy_hash : Bytes → HashValue
toy_hash s = record { a = length s * 7; b = 65 }

abbrev made : Bloom toy
made = with_bits toy 100 3 320

abbrev words : List Bytes
words = codes "ab" ∷ codes "cde" ∷ []

new_filter : new_bloom_filter toy 100 3 ≡ ok made
unfolding new_bloom_filter
new_filter = refl

some_bits : 0 < made.bits
unfolding with_bits
some_bits = omega arith

is_listed : listed (codes "cde") words ≡ true
unfolding beq
is_listed = refl

exist-add_all_example :
    (b' : Bloom toy) × (add_all toy toy_hash words made ≡ ok b')
    × (exist toy toy_hash b' (codes "cde") ≡ ok true)
exist-add_all_example =
    exist-add_all toy toy_hash 100 3 made words (codes "cde") new_filter some_bits is_listed
