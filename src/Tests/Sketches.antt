-- ===== src/Tests/Sketches.antt =====
-- A sketch of two rows and four columns, over a hash that adds the seed to the length of the item.
use Prim.Native.Nat.{min}
use redi_go.Prelude.{Bytes, codes, ℕ, ◌+◌, ◌≤◌, [], ◌∷◌, ◌≡◌, arith, length}
use redi_go.Go.Result.{ok, ◌>>=◌}
use redi_go.Probabilistic.Cms.{Cms, max_uint64, new_cms, incr_by, count}
use redi_go.Probabilistic.Cms.Rows.{IsSketch}
use redi_go.Probabilistic.Cms.Incr.{count-incr_by}
use redi_go.Probabilistic.Cms.Estimate.{History, total, run, new_cms_ok, count-run_ge}

abbrev by_length : Bytes → ℕ → ℕ
by_length item seed = length item + seed

abbrev sketch : Cms
sketch = (new_cms_ok 4 2 (omega arith) (omega arith)).0

count-incr_by_example :
    (c' : Cms) × (n : ℕ) × (incr_by by_length sketch (codes "a") 5 ≡ ok (c', n))
    × (count by_length c' (codes "a") ≡ ok n)
    × IsSketch c'
count-incr_by_example =
    count-incr_by by_length (codes "a") 5 sketch (new_cms_ok 4 2 (omega arith) (omega arith)).2

abbrev history : History
history = (codes "a", 5) ∷ (codes "bb", 2) ∷ (codes "a", 1) ∷ []

count-run_ge_example :
    (c : Cms) × (n : ℕ) × ((new_cms 4 2 >>= run by_length history) ≡ ok c)
    × (count by_length c (codes "a") ≡ ok n)
    × (min max_uint64 (total (codes "a") history) ≤ n)
count-run_ge_example = count-run_ge by_length 4 2 history (codes "a") (omega arith) (omega arith)
