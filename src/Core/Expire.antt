-- ===== src/Core/Expire.antt =====
-- `ActiveDeleteExpiredKeys` of internal/core/expire.go.
pub mod Ends
pub mod Hidden
use redi_go.Prelude.{
  Bytes, ℕ, zero, suc, ◌+◌, List, [], ◌∷◌, Bool, true, Option, none, some, ltb, leb, if◌then◌else◌,
}
use redi_go.Prelude.Int.{ℤ, pos, negsuc, to_int64}
use redi_go.Go.Result.{Result, ok, hang}
use redi_go.HashTable.Dict.{Dict, del, get_expiry}

abbrev pub active_expire_sample_size : ℕ
active_expire_sample_size = 20

-- What a range over the expiry times visits: a key, and the clock as the body of the loop reads it
-- there. A key that is gone when its turn comes is not visited.
abbrev pub Visits : Type 0
Visits = List (Bytes × ℕ)

-- time.Now().UnixMilli() > int64(expiredTime)
abbrev pub is_over : ℕ → ℤ → Bool
is_over ms (pos exp) = ltb exp ms
is_over ms (negsuc exp) = true

-- The body of the inner loop: the dictionary and by how much `expiredCount` grows.
unfoldable pub expire_key : ℕ → Bytes → ℕ → Dict → Dict × ℕ
expire_key ms k exp d = if is_over ms (to_int64 exp) then ((del d k).0, 1) else (d, 0)

-- The inner loop, from the `sampleCountRemain` of its first argument.
unfoldable pub sample : ℕ → Visits → Dict → ℕ → Dict × ℕ
sample remain [] d expired_count = (d, expired_count)
sample zero ((k, ms) ∷ vs) d expired_count = (d, expired_count)
sample (suc remain) ((k, ms) ∷ vs) d expired_count = elim (get_expiry d k) [
  | none ↦ sample (suc remain) vs d expired_count
  | some exp ↦ let (d', one) = expire_key ms k exp d in sample remain vs d' (expired_count + one)
]

-- The outer loop, on fuel; `visits` are those of each round. The quotient of the count and the sample
-- size is at most the threshold 0.1 for counts up to two.
unfoldable pub active_delete_expired_keys : ℕ → (ℕ → Visits) → ℕ → Dict → Result Dict
unfolding sample
active_delete_expired_keys zero visits round d = hang
active_delete_expired_keys (suc fuel) visits round d =
    let (d', expired_count) = sample active_expire_sample_size (visits round) d 0 in
    let rest = active_delete_expired_keys fuel visits (suc round) d' in
    if leb expired_count 2 then ok d' else rest
