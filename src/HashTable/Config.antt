-- ===== src/HashTable/Config.antt =====
-- What internal/config/config.go configures of the dictionary. The values come from the environment.
use redi_go.Prelude.{Bytes, ℕ, zero, suc, Bool, true, false, ltb, leb}
use redi_go.Prelude.Int.{ℤ, pos, negsuc}

pub record Config : Type 0 where
  pub max_key_number : ℤ
  -- int64(config.EvictionRatio * float64(config.MaxKeyNumber)), which the code computes at each use
  pub evict_count : ℤ
  pub eviction_policy : Bytes
  pub epool_max_size : ℤ
  pub epool_sample_size : ℤ

-- n >= z, for a length n
abbrev pub ge_int : ℕ → ℤ → Bool
ge_int n (pos m) = leb m n
ge_int n (negsuc m) = true

-- n > z
abbrev pub gt_int : ℕ → ℤ → Bool
gt_int n (pos m) = ltb m n
gt_int n (negsuc m) = true

-- z--
abbrev pub dec : ℤ → ℤ
dec (pos zero) = negsuc 0
dec (pos (suc n)) = pos n
dec (negsuc n) = negsuc (suc n)

abbrev pub is_zero : ℤ → Bool
is_zero (pos zero) = true
is_zero (pos (suc n)) = false
is_zero (negsuc n) = false
