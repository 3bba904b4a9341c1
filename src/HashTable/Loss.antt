-- ===== src/HashTable/Loss.antt =====
-- Where the eviction of internal/data_structure/hash_table/dict.go takes away what a set has just
-- written.
use redi_go.Prelude.{
  Bytes, codes, ℕ, List, [], ◌∷◌, ◌≡◌, true, false, none, arith, beq, beq_refl, if_elim,
}
use redi_go.Prelude.Int.{ℤ}
use redi_go.Go.Map
use redi_go.Resp.Value.{Value}
use redi_go.HashTable.Config.{Config, ge_int, is_zero, dec}
use redi_go.HashTable.Dict.{Dict, new_obj, del, get_expiry, is_some}
use redi_go.HashTable.EvictionLru.{LruEvictionPool}
use redi_go.HashTable.Bounds.{dict_store-new_obj, evict_is_random}
use redi_go.HashTable.Evict.{evict_random, set, set_new}

abbrev NoExpiry : Bytes → Dict → Type 0
NoExpiry k d = Map.get d.expired_dict_store k ≡ none

del_self : (d : Dict) (k : Bytes) → is_some (Map.get d.dict_store k) ≡ true → NoExpiry k (del d k).0
unfolding del
del_self d k h = rw (h, Map.get-delete d.expired_dict_store k k, beq_refl k)

del_keeps : (d : Dict) (k j : Bytes) → NoExpiry k d → NoExpiry k (del d j).0
unfolding del
del_keeps d k j h = ground (arith, Map.get-delete d.expired_dict_store j k)

evict_random_keeps :
    (order : List Bytes) (count : ℤ) (d : Dict) (k : Bytes)
    → NoExpiry k d
    → NoExpiry k (evict_random order count d)
unfolding evict_random
evict_random_keeps [] count d k h = h
evict_random_keeps (j ∷ js) count d k h =
    if_elim (NoExpiry k) (is_zero (dec count)) (del_keeps d k j h)
      (evict_random_keeps js (dec count) (del d j).0 k (del_keeps d k j h))

evict_random_first :
    (order : List Bytes) (count : ℤ) (d : Dict) (k : Bytes)
    → is_some (Map.get d.dict_store k) ≡ true
    → NoExpiry k (evict_random (k ∷ order) count d)
unfolding evict_random
evict_random_first order count d k h =
    if_elim (NoExpiry k) (is_zero (dec count)) (del_self d k h)
      (evict_random_keeps order (dec count) (del d k).0 k (del_self d k h))

-- When the dictionary is full and the eviction happens to visit first the key that is being set
-- again, the key is stored and its new expiry time is gone, whatever time to live was asked for: it
-- never expires.
pub set_new_loses_expiry :
    (sort : LruEvictionPool → LruEvictionPool) (cfg : Config) (rest : List Bytes) (d : Dict)
    (p : LruEvictionPool) (key : Bytes) (value : Value) (ttl_ms : ℤ) (secs ms : ℕ)
    → ge_int (Map.size d.dict_store) cfg.max_key_number ≡ true
    → beq cfg.eviction_policy (codes "allkeys-lru") ≡ false
    → is_some (Map.get d.dict_store key) ≡ true
    → (let d' = (set_new sort cfg (key ∷ rest) d p key value ttl_ms secs ms).0 in
        (get_expiry d' key ≡ none) × (is_some (Map.get d'.dict_store key) ≡ true))
unfolding set_new set get_expiry
set_new_loses_expiry sort cfg rest d p key value ttl_ms secs ms full random there =
    let n = new_obj d key value ttl_ms secs ms in
    let e = dict_store-new_obj d key value ttl_ms secs ms in
    let full' : ge_int (Map.size n.0.dict_store) cfg.max_key_number ≡ true = rw e full in
    let there' : is_some (Map.get n.0.dict_store key) ≡ true = rw e there in
    rw (full', evict_is_random sort cfg (key ∷ rest) n.0 p random)
      (
        evict_random_first rest cfg.evict_count n.0 key there',
        rw (
          Map.get-put (evict_random (key ∷ rest) cfg.evict_count n.0).dict_store key key n.1,
          beq_refl key,
        ),
      )
