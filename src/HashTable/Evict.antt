-- ===== src/HashTable/Evict.antt =====
-- `evictRandom`, `evict` and `Set` of internal/data_structure/hash_table/dict.go.
use redi_go.Prelude.{Bytes, codes, ℕ, List, [], ◌∷◌, beq, if◌then◌else◌}
use redi_go.Prelude.Int.{ℤ}
use redi_go.Go.Map
use redi_go.Resp.Value.{Value}
use redi_go.HashTable.Config.{Config, ge_int, dec, is_zero}
use redi_go.HashTable.Dict.{Dict, Obj, new_obj, del}
use redi_go.HashTable.EvictionLru.{LruEvictionPool, evict_lru}

-- `order` lists the keys in the order in which the range visits them.
unfoldable pub evict_random : List Bytes → ℤ → Dict → Dict
evict_random [] count d = d
evict_random (k ∷ ks) count d =
    let d' = (del d k).0 in
    let rest = evict_random ks (dec count) d' in if is_zero (dec count) then d' else rest

module _ (sort : LruEvictionPool → LruEvictionPool) where
  unfoldable pub evict : Config → List Bytes → Dict → LruEvictionPool → Dict × LruEvictionPool
  evict cfg order d p =
      if beq cfg.eviction_policy (codes "allkeys-random")
      then (evict_random order cfg.evict_count d, p)
      else if beq cfg.eviction_policy (codes "allkeys-lru")
      then evict_lru sort cfg order d p
      else (evict_random order cfg.evict_count d, p)

  unfoldable pub set :
      Config → List Bytes → Dict → LruEvictionPool → Bytes → Obj → Dict × LruEvictionPool
  set cfg order d p k obj =
      let (d', p') =
        if ge_int (Map.size d.dict_store) cfg.max_key_number then evict cfg order d p else (d, p) in
      (record d' { dict_store = Map.put d'.dict_store k obj }, p')

  -- dictStore.Set(key, dictStore.NewObj(key, value, ttlMs)), the only way in which the program sets
  unfoldable pub set_new :
      Config
      → List Bytes
      → Dict
      → LruEvictionPool
      → Bytes
      → Value
      → ℤ
      → ℕ
      → ℕ
      → Dict × LruEvictionPool
  set_new cfg order d p key value ttl_ms secs ms =
      let (d', obj) = new_obj d key value ttl_ms secs ms in set cfg order d' p key obj
