-- ===== src/Stats.antt =====
-- utils/system.go: the statistics of the system. What gopsutil returns is an argument, and so is the format "%.2f".
use redi_go.Prelude.{Bytes, codes, ℕ, List, [], ◌∷◌, ◌++◌, ◌≡◌}
use redi_go.Go.Float.{Floats}
use redi_go.Go.Result.{Result, ok, err, panic, hang, ◌>>=◌}

abbrev not_available : Bytes
not_available = codes "N/A"

-- The entries of the map that `GetAllStats` returns.
pub record AllStats : Type 0 where
  pub cpu_percent : Bytes
  pub memory_used_percent : Bytes
  pub memory_used_mb : Bytes
  pub memory_total_mb : Bytes

-- The entries of the map that the memory monitor returns.
pub record MemoryStats : Type 0 where
  pub used_percent : Bytes
  pub used_mb : Bytes
  pub total_mb : Bytes

module _ (F : Floats) (sprint_2f : F.Float → Bytes) where
  -- mem.VirtualMemoryStat
  pub record VirtualMemory : Type 0 where
    pub total : ℕ
    pub used : ℕ
    pub used_percent : F.Float

  -- percent[0], which panics on an empty slice.
  abbrev first_percent : List F.Float → Result Bytes
  first_percent [] = panic
  first_percent (p ∷ ps) = ok (sprint_2f p ++ codes "%")

  -- `Check` of the two monitors; the value beside an error is not used.
  unfoldable pub check_cpu : Result (List F.Float) → Result Bytes
  check_cpu percent = do ps ← percent; first_percent ps

  abbrev mega_bytes : ℕ → Bytes
  mega_bytes n =
      sprint_2f
        (F.div (F.div (F.of_uint64 n) (F.literal (codes "1024"))) (F.literal (codes "1024")))

  unfoldable pub check_memory : Result VirtualMemory → Result MemoryStats
  check_memory virtual_memory = do
    m ← virtual_memory
    ok (record {
      used_percent = sprint_2f m.used_percent ++ codes "%";
      used_mb = mega_bytes m.used;
      total_mb = mega_bytes m.total;
    })

  abbrev cpu_entry : Result Bytes → Result Bytes
  cpu_entry (ok s) = ok s
  cpu_entry (err e) = ok not_available
  cpu_entry panic = panic
  cpu_entry hang = hang

  abbrev memory_entries : Result MemoryStats → Result MemoryStats
  memory_entries (ok m) = ok m
  memory_entries (err e) =
      ok
        (record { used_percent = not_available; used_mb = not_available; total_mb = not_available })
  memory_entries panic = panic
  memory_entries hang = hang

  unfoldable pub get_all_stats : Result (List F.Float) → Result VirtualMemory → Result AllStats
  unfolding check_cpu check_memory
  get_all_stats percent virtual_memory = do
    cpu ← cpu_entry (check_cpu percent)
    m ← memory_entries (check_memory virtual_memory)
    ok (record {
      cpu_percent = cpu;
      memory_used_percent = m.used_percent;
      memory_used_mb = m.used_mb;
      memory_total_mb = m.total_mb;
    })

  -- An error of gopsutil never becomes an error of the function.
  pub get_all_stats-err :
      (percent : Result (List F.Float)) (virtual_memory : Result VirtualMemory) (e : Bytes)
      → ¬ (get_all_stats percent virtual_memory ≡ err e)
  unfolding get_all_stats check_cpu check_memory
  get_all_stats-err (ok []) m e = λ h. cc
  get_all_stats-err (ok (p ∷ ps)) (ok m) e = λ h. cc
  get_all_stats-err (ok (p ∷ ps)) (err e') e = λ h. cc
  get_all_stats-err (ok (p ∷ ps)) panic e = λ h. cc
  get_all_stats-err (ok (p ∷ ps)) hang e = λ h. cc
  get_all_stats-err (err e') (ok m) e = λ h. cc
  get_all_stats-err (err e') (err e'') e = λ h. cc
  get_all_stats-err (err e') panic e = λ h. cc
  get_all_stats-err (err e') hang e = λ h. cc
  get_all_stats-err panic m e = λ h. cc
  get_all_stats-err hang m e = λ h. cc
