-- ===== src/HashTable/Bounds.antt =====
-- How many keys the eviction of internal/data_structure/hash_table/dict.go leaves.
use redi_go.Prelude.{
  Bytes, codes, ℕ, zero, suc, ◌+◌, ◌-◌, ◌≤◌, List, [], ◌∷◌, ◌≡◌, ap, Bool, true, false, arith, beq,
  leb, leb→le, Bool-cases, inl, inr,
}
use redi_go.Prelude.Int.{ℤ, pos, negsuc}
use redi_go.Go.Map
use redi_go.Go.Map.{Map, IsMap}
use redi_go.Resp.Value.{Value}
use redi_go.HashTable.Config.{Config, ge_int}
use redi_go.HashTable.Dict.{Dict, Obj, persist, set_expiry, new_obj, del, is_some}
use redi_go.HashTable.EvictionLru.{LruEvictionPool}
use redi_go.HashTable.Invariant.{IsValidBut, IsValid, only, evict-IsValidBut, new_obj-IsValidBut}
use redi_go.HashTable.Evict.{evict_random, evict, set, set_new}

-- A range over the map that visits the keys in this order: each key is there when it is visited, and
-- when all are deleted none is left.
abbrev pub Visits : List Bytes → Map Obj → Type 0
Visits [] m = Map.size m ≡ 0
Visits (k ∷ ks) m = (is_some (Map.get m k) ≡ true) × Visits ks (Map.delete m k)

size-del :
    (d : Dict) (k : Bytes)
    → IsMap d.dict_store
    → is_some (Map.get d.dict_store k) ≡ true
    → ((del d k).0.dict_store ≡ Map.delete d.dict_store k)
      × (Map.size (Map.delete d.dict_store k) + 1 ≡ Map.size d.dict_store)
unfolding del
size-del d k m h = (rw h, ground (arith, Map.size-delete d.dict_store k m))

-- A count of `suc n` ends the loop after `suc n` keys.
pub size-evict_random :
    (order : List Bytes) (n : ℕ) (d : Dict)
    → IsMap d.dict_store
    → Visits order d.dict_store
    → Map.size (evict_random order (pos (suc n)) d).dict_store ≡ Map.size d.dict_store - suc n
unfolding evict_random
size-evict_random [] n d m v = omega arith
size-evict_random (k ∷ ks) zero d m v = let (e, s) = size-del d k m v.0 in rw e (omega arith)
size-evict_random (k ∷ ks) (suc n) d m v =
    let (e, s) = size-del d k m v.0 in
    omega (
      arith,
      size-evict_random ks n (del d k).0 (rw e (Map.delete-IsMap d.dict_store k m)) (rw e v.1),
      ap Map.size e,
    )

-- A count below zero never reaches it.
clears :
    (order : List Bytes) (n : ℕ) (d : Dict)
    → IsMap d.dict_store
    → Visits order d.dict_store
    → Map.size (evict_random order (negsuc n) d).dict_store ≡ 0
unfolding evict_random
clears [] n d m v = v
clears (k ∷ ks) n d m v =
    let (e, s) = size-del d k m v.0 in
    clears ks (suc n) (del d k).0 (rw e (Map.delete-IsMap d.dict_store k m)) (rw e v.1)

abbrev pub NotPositive : ℤ → Type 0
NotPositive (pos n) = n ≡ 0
NotPositive (negsuc n) = Unit

-- With an eviction count of zero or less, random eviction deletes every key of the dictionary,
-- whatever the order of the range.
pub evict_random_clears :
    (order : List Bytes) (count : ℤ) (d : Dict)
    → IsMap d.dict_store
    → Visits order d.dict_store
    → NotPositive count
    → Map.size (evict_random order count d).dict_store ≡ 0
evict_random_clears order (pos (suc n)) d m v h = absurd (omega arith)
evict_random_clears [] (pos zero) d m v h = unfold evict_random in v
evict_random_clears (k ∷ ks) (pos zero) d m v h =
    unfold evict_random in
    (let (e, s) = size-del d k m v.0 in
      clears ks 0 (del d k).0 (rw e (Map.delete-IsMap d.dict_store k m)) (rw e v.1))
evict_random_clears order (negsuc n) d m v h = clears order n d m v

pub dict_store-new_obj :
    (d : Dict) (k : Bytes) (value : Value) (ttl_ms : ℤ) (secs ms : ℕ)
    → (new_obj d k value ttl_ms secs ms).0.dict_store ≡ d.dict_store
unfolding new_obj persist set_expiry
dict_store-new_obj d k value ttl_ms secs ms = ground arith

size-put-le :
    (m : Map Obj) (k : Bytes) (v : Obj) → IsMap m → Map.size (Map.put m k v) ≤ Map.size m + 1
size-put-le m k v h = omega (arith, Map.size-put m k v h)

-- Under any policy but LRU a full dictionary loses as many keys as configured.
pub evict_is_random :
    (sort : LruEvictionPool → LruEvictionPool) (cfg : Config) (order : List Bytes) (d : Dict)
    (p : LruEvictionPool)
    → beq cfg.eviction_policy (codes "allkeys-lru") ≡ false
    → evict sort cfg order d p ≡ (evict_random order cfg.evict_count d, p)
unfolding evict
evict_is_random sort cfg order d p h = rw h (ground arith)

module _ (sort : LruEvictionPool → LruEvictionPool) (cfg : Config) (order : List Bytes) (m n : ℕ)
    (max : cfg.max_key_number ≡ pos (suc m)) (count : cfg.evict_count ≡ pos (suc n))
    (random : beq cfg.eviction_policy (codes "allkeys-lru") ≡ false) where
  size-set :
      (but : Bytes → Bool) (d : Dict) (p : LruEvictionPool) (k : Bytes) (obj : Obj)
      → IsValidBut but d
      → Visits order d.dict_store
      → Map.size d.dict_store ≤ suc m
      → Map.size (set sort cfg order d p k obj).0.dict_store ≤ suc m
  unfolding set
  size-set but d p k obj v visits fits =
      elim (Bool-cases (ge_int (Map.size d.dict_store) cfg.max_key_number)) [
        | inl full ↦
            let w = evict-IsValidBut sort cfg order d p v in
            rw full (
              omega (
                arith,
                size-put-le (evict sort cfg order d p).0.dict_store k obj w.store_map,
                ap (λ (r : Dict × LruEvictionPool). Map.size r.0.dict_store)
                    (evict_is_random sort cfg order d p random),
                ap (λ (c : ℤ). Map.size (evict_random order c d).dict_store) count,
                size-evict_random order n d v.store_map visits,
                leb→le (suc m) (Map.size d.dict_store) (rw max at full),
              ))
        | inr room ↦
            let room' : leb (suc m) (Map.size d.dict_store) ≡ false = rw max at room in
            rw room (ground (arith, size-put-le d.dict_store k obj v.store_map))
      ]

  -- Under random eviction with a positive limit and a positive count, a set never takes the
  -- dictionary above the limit, in whatever order the eviction visits the keys.
  pub size-set_new :
      (d : Dict) (p : LruEvictionPool) (key : Bytes) (value : Value) (ttl_ms : ℤ) (secs ms : ℕ)
      → IsValid d
      → Visits order d.dict_store
      → Map.size d.dict_store ≤ suc m
      → Map.size (set_new sort cfg order d p key value ttl_ms secs ms).0.dict_store ≤ suc m
  unfolding set_new
  size-set_new d p key value ttl_ms secs ms v visits fits =
      let n' = new_obj d key value ttl_ms secs ms in
      let e = dict_store-new_obj d key value ttl_ms secs ms in
      size-set (only key) n'.0 p key n'.1 (new_obj-IsValidBut d key value ttl_ms secs ms v)
        (rw e visits) (rw e fits)
