-- ===== src/HashTable/Invariant.antt =====
-- The invariant of the dictionary of internal/data_structure/hash_table, and that every operation
-- keeps it, the evictions included.
use redi_go.Prelude.{
  Bytes, codes, ℕ, zero, suc, ◌+◌, ◌%◌, List, [], ◌∷◌, ◌≡◌, refl, Bool, true, false, Option, none,
  some, arith, beq, if_elim, Bool-cases, inl, inr,
}
use redi_go.Prelude.Int.{ℤ, to_word, word_mod, rounds}
use redi_go.Go.Map
use redi_go.Go.Map.{IsMap}
use redi_go.Resp.Value.{Value}
use redi_go.HashTable.Config.{Config, ge_int, is_zero, dec}
use redi_go.HashTable.Dict.{
  Dict, Obj, create_dict, persist, set_expiry, new_obj, has_expired, del, get_found, get, is_some,
  touch,
}
use redi_go.HashTable.EvictionLru.{LruEvictionPool, pop_loop, evict_lru, populate_epool}
use redi_go.HashTable.Evict.{evict_random, evict, set, set_new}

-- No key stands twice in a map, and a key that has an expiry time is in the dictionary, `but`
-- perhaps for one that is about to be written.
pub record IsValidBut (but : Bytes → Bool) (d : Dict) : Type 0 where
  pub store_map : IsMap d.dict_store
  pub expiry_map : IsMap d.expired_dict_store
  pub expiry_held :
      (k : Bytes)
      → but k ≡ false
      → is_some (Map.get d.expired_dict_store k) ≡ true
      → is_some (Map.get d.dict_store k) ≡ true

abbrev pub nobody : Bytes → Bool
nobody k = false

abbrev pub IsValid : Dict → Type 0
IsValid = IsValidBut nobody

pub create_dict-IsValid : IsValid create_dict
unfolding create_dict
create_dict-IsValid = record {
  store_map = Map.empty-IsMap Obj;
  expiry_map = Map.empty-IsMap ℕ;
  expiry_held = λ k _ h. ground (arith, Map.get-empty {V = ℕ} k);
}

module _ {but : Bytes → Bool} where
  pub del-IsValidBut : {d : Dict} (k : Bytes) → IsValidBut but d → IsValidBut but (del d k).0
  unfolding del
  del-IsValidBut {d} k v = elim (Bool-cases (is_some (Map.get d.dict_store k))) [
    | inl e ↦ rw e (record {
      store_map = Map.delete-IsMap d.dict_store k v.store_map;
      expiry_map = Map.delete-IsMap d.expired_dict_store k v.expiry_map;
      expiry_held = λ j b h. ground (
        arith,
        Map.get-delete d.dict_store k j,
        Map.get-delete d.expired_dict_store k j,
        v.expiry_held j b,
      );
    })
    | inr e ↦ rw e v
  ]

  pub evict_random-IsValidBut :
      (order : List Bytes) (count : ℤ) {d : Dict}
      → IsValidBut but d
      → IsValidBut but (evict_random order count d)
  unfolding evict_random
  evict_random-IsValidBut [] count v = v
  evict_random-IsValidBut (k ∷ ks) count v =
      if_elim (IsValidBut but) (is_zero (dec count)) (del-IsValidBut k v)
        (evict_random-IsValidBut ks (dec count) (del-IsValidBut k v))

  pub pop_loop-IsValidBut :
      (n : ℕ) (d : Dict) (p : LruEvictionPool)
      → IsValidBut but d
      → IsValidBut but (pop_loop n d p).0
  unfolding pop_loop
  pop_loop-IsValidBut zero d p v = v
  pop_loop-IsValidBut (suc n) d [] v = v
  pop_loop-IsValidBut (suc n) d (c ∷ cs) v =
      pop_loop-IsValidBut n (del d c.key).0 cs (del-IsValidBut c.key v)

  pub evict-IsValidBut :
      (sort : LruEvictionPool → LruEvictionPool) (cfg : Config) (order : List Bytes) (d : Dict)
      (p : LruEvictionPool)
      → IsValidBut but d
      → IsValidBut but (evict sort cfg order d p).0
  unfolding evict evict_lru
  evict-IsValidBut sort cfg order d p v =
      let random = evict_random-IsValidBut order cfg.evict_count v in
      elim (Bool-cases (beq cfg.eviction_policy (codes "allkeys-random"))) [
        | inl e ↦ rw e random
        | inr e ↦ elim (Bool-cases (beq cfg.eviction_policy (codes "allkeys-lru"))) [
          | inl f ↦
              rw (e, f)
                (pop_loop-IsValidBut (rounds cfg.evict_count) d
                  (populate_epool sort cfg d order cfg.epool_sample_size p) v)
          | inr f ↦ rw (e, f) random
        ]
      ]

-- The key that is being written.
abbrev pub only : Bytes → Bytes → Bool
only k j = beq k j

pub new_obj-IsValidBut :
    (d : Dict) (k : Bytes) (value : Value) (ttl_ms : ℤ) (secs ms : ℕ)
    → IsValid d
    → IsValidBut (only k) (new_obj d k value ttl_ms secs ms).0
unfolding new_obj persist set_expiry
new_obj-IsValidBut d k value ttl_ms secs ms v =
    if_elim (IsValidBut (only k)) _
      (record {
        store_map = v.store_map;
        expiry_map = Map.put-IsMap d.expired_dict_store k _ v.expiry_map;
        expiry_held = λ j b h. v.expiry_held j refl (
            ground
              (arith, Map.get-put d.expired_dict_store k j ((ms + to_word ttl_ms) % word_mod)));
      })
      (record {
        store_map = v.store_map;
        expiry_map = Map.delete-IsMap d.expired_dict_store k v.expiry_map;
        expiry_held =
            λ j b h. v.expiry_held j refl (ground (arith, Map.get-delete d.expired_dict_store k j));
      })

put-IsValid :
    (d : Dict) (k : Bytes) (obj : Obj)
    → IsValidBut (only k) d
    → IsValid (record d { dict_store = Map.put d.dict_store k obj })
put-IsValid d k obj v = record {
  store_map = Map.put-IsMap d.dict_store k obj v.store_map;
  expiry_map = v.expiry_map;
  expiry_held = λ j b h. ground (arith, Map.get-put d.dict_store k j obj, v.expiry_held j);
}

but_one : {d : Dict} (k : Bytes) → IsValid d → IsValidBut (only k) d
but_one k v = record {
  store_map = v.store_map;
  expiry_map = v.expiry_map;
  expiry_held = λ j b h. v.expiry_held j refl h;
}

-- If no key stands twice in a map of the dictionary and each key with an expiry time is in the dictionary, then the
-- same holds after a set, with whatever eviction it causes.
pub set_new-IsValid :
    (sort : LruEvictionPool → LruEvictionPool) (cfg : Config) (order : List Bytes) (d : Dict)
    (p : LruEvictionPool) (key : Bytes) (value : Value) (ttl_ms : ℤ) (secs ms : ℕ)
    → IsValid d
    → IsValid (set_new sort cfg order d p key value ttl_ms secs ms).0
unfolding set_new set
set_new-IsValid sort cfg order d p key value ttl_ms secs ms v =
    let n = new_obj d key value ttl_ms secs ms in
    let w = new_obj-IsValidBut d key value ttl_ms secs ms v in
    put-IsValid _ key n.1 (
      if_elim (λ (r : Dict × LruEvictionPool). IsValidBut (only key) r.0)
        (ge_int (Map.size n.0.dict_store) cfg.max_key_number)
        (evict-IsValidBut sort cfg order n.0 p w) w)

get_found-IsValid :
    (d : Dict) (k : Bytes) (o : Option Obj) (secs ms : ℕ)
    → IsValid d
    → IsValid (get_found d k o secs ms).0
unfolding get_found
get_found-IsValid d k none secs ms v = v
get_found-IsValid d k (some o) secs ms v =
    let t = put-IsValid d k (touch o secs) (but_one k v) in
    if_elim (λ (r : Dict × Option Obj). IsValid r.0) (has_expired _ k ms) (del-IsValidBut k t) t

-- Reading a key, with the deletion of an expired one, keeps the invariant.
pub get-IsValid : (d : Dict) (k : Bytes) (secs ms : ℕ) → IsValid d → IsValid (get d k secs ms).0
unfolding get
get-IsValid d k secs ms v = get_found-IsValid d k _ secs ms v
