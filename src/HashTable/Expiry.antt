-- ===== src/HashTable/Expiry.antt =====
-- What clients see of the dictionary of internal/data_structure/hash_table/dict.go at an instant.
use redi_go.Prelude.{
  Bytes, ℕ, zero, suc, ◌+◌, ◌%◌, ◌≤◌, List, ◌≡◌, refl, false, Option, none, some, arith, beq,
  beq_iff, beq_refl, leb, if◌then◌else◌,
}
use redi_go.Prelude.Int.{ℤ, pos, negsuc, word_mod, int_max, InInt64}
use redi_go.Go.Map
use redi_go.Go.Map.{Map}
use redi_go.Resp.Value.{Value}
use redi_go.HashTable.Config.{Config, ge_int}
use redi_go.HashTable.Dict.{
  Dict, Obj, persist, set_expiry, new_obj, has_expired, expired_at, del, get_found, get, touch,
}
use redi_go.HashTable.EvictionLru.{LruEvictionPool}
use redi_go.HashTable.Bounds.{dict_store-new_obj}
use redi_go.HashTable.Evict.{set, set_new}

abbrev pub value_of : Option Obj → Option Value
value_of none = none
value_of (some v) = some v.value

-- The value of a key at the instant `ms`: none, from its expiry time on.
unfoldable pub visible : Dict → Bytes → ℕ → Option Value
visible d k ms =
    if expired_at ms (Map.get d.expired_dict_store k)
    then none
    else value_of (Map.get d.dict_store k)

get_found-value :
    (d : Dict) (k : Bytes) (o : Option Obj) (secs ms : ℕ)
    → value_of (get_found d k o secs ms).1 ≡ (if has_expired d k ms then none else value_of o)
unfolding get_found has_expired
get_found-value d k none secs ms = ground arith
get_found-value d k (some v) secs ms = ground arith

-- `Get` returns the value that the key has at the instant at which it reads the clock.
pub get-visible :
    (d : Dict) (k : Bytes) (secs ms : ℕ) → value_of (get d k secs ms).1 ≡ visible d k ms
unfolding get visible has_expired
get-visible d k secs ms = get_found-value d k (Map.get d.dict_store k) secs ms

get_found-some :
    (d : Dict) (k j : Bytes) (v : Obj) (secs ms later : ℕ)
    → Map.get d.dict_store k ≡ some v
    → ms ≤ later
    → visible (get_found d k (some v) secs ms).0 j later ≡ visible d j later
unfolding get_found has_expired del visible
get_found-some d k j v secs ms later found le = ground (
  arith,
  Map.get-put d.dict_store k j (touch v secs),
  Map.get-put d.dict_store k k (touch v secs),
  Map.get-delete (Map.put d.dict_store k (touch v secs)) k j,
  Map.get-delete d.expired_dict_store k j,
  beq_iff k j,
  beq_refl k,
)

visible_found :
    (d : Dict) (k j : Bytes) (o : Option Obj) (secs ms later : ℕ)
    → Map.get d.dict_store k ≡ o
    → ms ≤ later
    → visible (get_found d k o secs ms).0 j later ≡ visible d j later
visible_found d k j none secs ms later found le = unfold get_found in refl
visible_found d k j (some v) secs ms later found le = get_found-some d k j v secs ms later found le

-- Reading a key, which deletes it if it has expired, changes what no client sees from the time of the
-- reading on.
pub visible-get :
    (d : Dict) (k j : Bytes) (secs ms later : ℕ)
    → ms ≤ later
    → visible (get d k secs ms).0 j later ≡ visible d j later
unfolding get
visible-get d k j secs ms later le =
    visible_found d k j (Map.get d.dict_store k) secs ms later refl le

-- When a key expires that is written at `ms`: never, if its time to live is not positive.
abbrev pub lifetime : ℕ → ℤ → ℕ → Option Value → Option Value
lifetime ms (pos zero) later v = v
lifetime ms (pos (suc n)) later v = if leb (ms + suc n) later then none else v
lifetime ms (negsuc n) later v = v

visible-put :
    (d : Dict) (k j : Bytes) (value : Value) (ttl_ms : ℤ) (secs ms later : ℕ)
    → ms ≤ int_max
    → InInt64 ttl_ms
    → visible
        (record (new_obj d k value ttl_ms secs ms).0 {
          dict_store = Map.put d.dict_store k (new_obj d k value ttl_ms secs ms).1;
        })
        j
        later
      ≡ (if beq k j then lifetime ms ttl_ms later (some value) else visible d j later)
unfolding visible new_obj persist set_expiry
visible-put d k j value (pos zero) secs ms later now_fits fits = ground (
  arith,
  Map.get-put d.dict_store k j (new_obj d k value (pos 0) secs ms).1,
  Map.get-delete d.expired_dict_store k j,
)
visible-put d k j value (pos (suc n)) secs ms later now_fits fits =
    let e : (ms + suc n % word_mod) % word_mod ≡ ms + suc n = omega arith in
    rw e (
      ground (
        arith,
        Map.get-put d.dict_store k j (new_obj d k value (pos (suc n)) secs ms).1,
        Map.get-put d.expired_dict_store k j (ms + suc n),
      ))
visible-put d k j value (negsuc n) secs ms later now_fits fits = ground (
  arith,
  Map.get-put d.dict_store k j (new_obj d k value (negsuc n) secs ms).1,
  Map.get-delete d.expired_dict_store k j,
)

-- While the dictionary is below its limit a set gives its key the new value for its time to live, for
-- ever if that is not positive, and changes no other key; the clock and the time to live are in an
-- `int64`.
pub visible-set_new :
    (sort : LruEvictionPool → LruEvictionPool) (cfg : Config) (order : List Bytes) (d : Dict)
    (p : LruEvictionPool) (k j : Bytes) (value : Value) (ttl_ms : ℤ) (secs ms later : ℕ)
    → ge_int (Map.size d.dict_store) cfg.max_key_number ≡ false
    → ms ≤ int_max
    → InInt64 ttl_ms
    → visible (set_new sort cfg order d p k value ttl_ms secs ms).0 j later
      ≡ (if beq k j then lifetime ms ttl_ms later (some value) else visible d j later)
unfolding set_new set
visible-set_new sort cfg order d p k j value ttl_ms secs ms later room now_fits fits =
    let n = new_obj d k value ttl_ms secs ms in
    let below : ge_int (Map.size n.0.dict_store) cfg.max_key_number ≡ false =
      rw (dict_store-new_obj d k value ttl_ms secs ms) room in
    rw (below, dict_store-new_obj d k value ttl_ms secs ms)
      (visible-put d k j value ttl_ms secs ms later now_fits fits)
