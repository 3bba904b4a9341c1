-- ===== src/HashTable/EvictionLru.antt =====
-- internal/data_structure/hash_table/eviction_lru.go and eivction_lfu.go. The pool is one variable of
-- the package, whatever the number of dictionaries, so it is passed beside the dictionary.
use redi_go.Prelude.{
  Bytes, ℕ, zero, suc, List, [], ◌∷◌, ◌++◌, Bool, false, ◌||◌, Option, none, some, beq,
  if◌then◌else◌, length, take, ◌-◌,
}
use redi_go.Prelude.Int.{ℤ, rounds}
use redi_go.Go.Map
use redi_go.HashTable.Config.{Config, dec, is_zero, gt_int}
use redi_go.HashTable.Dict.{Dict, Obj, del}

pub record LruEvictionCandidate : Type 0 where
  pub key : Bytes
  pub last_access_time : ℕ

abbrev pub LruEvictionPool : Type 0
LruEvictionPool = List LruEvictionCandidate

-- `newEpool(0)`, the value of `ePool` at the start
abbrev pub new_epool : LruEvictionPool
new_epool = []

-- if p.pool[i].key == key { p.pool[i] = newItem }, for every i
unfoldable pub replace_key : LruEvictionCandidate → LruEvictionPool → LruEvictionPool
replace_key c [] = []
replace_key c (p ∷ ps) = (if beq p.key c.key then c else p) ∷ replace_key c ps

unfoldable pub has_key : Bytes → LruEvictionPool → Bool
has_key k [] = false
has_key k (p ∷ ps) = beq p.key k || has_key k ps

-- if len(p.pool) > config.EpoolMaxSize, drop the last
unfoldable pub trim : Config → LruEvictionPool → LruEvictionPool
trim c p = if gt_int (length p) c.epool_max_size then take (length p - 1) p else p

-- Pop
unfoldable pub pop : LruEvictionPool → Option LruEvictionCandidate × LruEvictionPool
pop [] = (none, [])
pop (c ∷ cs) = (some c, cs)

abbrev del_candidate : Dict → Option LruEvictionCandidate → Dict
del_candidate d none = d
del_candidate d (some c) = (del d c.key).0

-- for i := 0; i < evictCount && len(pool) > 0; i++
unfoldable pub pop_loop : ℕ → Dict → LruEvictionPool → Dict × LruEvictionPool
unfolding pop
pop_loop zero d p = (d, p)
pop_loop (suc n) d [] = (d, [])
pop_loop (suc n) d (c ∷ cs) = let (item, p) = pop (c ∷ cs) in pop_loop n (del_candidate d item) p

-- `sort.Sort(ByLastAccessTime(pool))`, whose order among equals the library leaves open.
module _ (sort : LruEvictionPool → LruEvictionPool) where
  unfoldable pub push : Config → Bytes → ℕ → LruEvictionPool → LruEvictionPool
  unfolding replace_key has_key trim
  push cfg key last_access_time p =
      let c : LruEvictionCandidate = record { key = key; last_access_time = last_access_time } in
      trim cfg (sort (if has_key key p then replace_key c p else p ++ c ∷ []))

  abbrev push_found : Config → Bytes → Option Obj → LruEvictionPool → LruEvictionPool
  push_found cfg k none p = p
  push_found cfg k (some v) p = push cfg k v.last_access_time p

  -- `order` lists the keys that the range over the dictionary visits; `remain` those left to sample.
  unfoldable pub populate_epool : Config → Dict → List Bytes → ℤ → LruEvictionPool → LruEvictionPool
  unfolding push
  populate_epool cfg d [] remain p = p
  populate_epool cfg d (k ∷ ks) remain p =
      let p' = push_found cfg k (Map.get d.dict_store k) p in
      let rest = populate_epool cfg d ks (dec remain) p' in
      if is_zero (dec remain) then p' else rest

  unfoldable pub evict_lru : Config → List Bytes → Dict → LruEvictionPool → Dict × LruEvictionPool
  unfolding populate_epool pop_loop
  evict_lru cfg order d p =
      pop_loop (rounds cfg.evict_count) d (populate_epool cfg d order cfg.epool_sample_size p)

-- eivction_lfu.go: the same loop, over the pool as it stands.
unfoldable pub evict_lfu : Config → Dict → LruEvictionPool → Dict × LruEvictionPool
unfolding pop_loop
evict_lfu cfg d p = pop_loop (rounds cfg.evict_count) d p
