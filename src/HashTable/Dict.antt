-- ===== src/HashTable/Dict.antt =====
-- internal/data_structure/hash_table/dict.go, but for `Set` and the eviction that it calls. A reading
-- of the clock is an argument: `secs` of `time.Now().Unix()`, `ms` of `time.Now().UnixMilli()`.
use redi_go.Prelude.{
  Bytes, ℕ, zero, suc, ◌+◌, ◌-◌, ◌/◌, ◌%◌, ◌^◌, List, [], ◌∷◌, Bool, true, false, Option, none,
  some, ltb, leb, if◌then◌else◌,
}
use redi_go.Prelude.Int.{ℤ, pos, negsuc, word_mod, to_word}
use redi_go.Go.Map
use redi_go.Go.Map.{Map}
use redi_go.Resp.Value.{Value}

pub record Obj : Type 0 where
  pub value : Value
  pub last_access_time : ℕ

pub record Dict : Type 0 where
  pub dict_store : Map Obj
  pub expired_dict_store : Map ℕ

unfoldable pub create_dict : Dict
create_dict = record { dict_store = Map.empty; expired_dict_store = Map.empty }

-- now(): seconds in a `uint32`
abbrev pub now : ℕ → ℕ
now secs = secs % 2 ^ 32

unfoldable pub persist : Dict → Bytes → Dict
persist d key = record d { expired_dict_store = Map.delete d.expired_dict_store key }

unfoldable pub get_expiry : Dict → Bytes → Option ℕ
get_expiry d key = Map.get d.expired_dict_store key

unfoldable pub set_expiry : Dict → Bytes → ℤ → ℕ → Dict
set_expiry d key ttl_ms ms = record d {
  expired_dict_store = Map.put d.expired_dict_store key ((ms + to_word ttl_ms) % word_mod);
}

abbrev is_positive : ℤ → Bool
is_positive (pos zero) = false
is_positive (pos (suc n)) = true
is_positive (negsuc n) = false

-- The object is new; the expiry of its key is written before the key is.
unfoldable pub new_obj : Dict → Bytes → Value → ℤ → ℕ → ℕ → Dict × Obj
unfolding persist set_expiry
new_obj d key value ttl_ms secs ms = (
  (if is_positive ttl_ms then set_expiry d key ttl_ms ms else persist d key),
  record { value = value; last_access_time = now secs },
)

abbrev pub expired_at : ℕ → Option ℕ → Bool
expired_at ms none = false
expired_at ms (some exp) = leb exp ms

unfoldable pub has_expired : Dict → Bytes → ℕ → Bool
has_expired d key ms = expired_at ms (Map.get d.expired_dict_store key)

abbrev pub is_some {ℓ} : {A : Type ℓ} → Option A → Bool
is_some none = false
is_some (some a) = true

-- The result is whether the key was there.
unfoldable pub del : Dict → Bytes → Dict × Bool
del d k =
    if is_some (Map.get d.dict_store k)
    then (
      record {
        dict_store = Map.delete d.dict_store k;
        expired_dict_store = Map.delete d.expired_dict_store k;
      },
      true,
    )
    else (d, false)

-- v.LastAccessTime = now(), through the pointer that the map holds
abbrev pub touched : Dict → Bytes → Obj → Dict
touched d k v = record d { dict_store = Map.put d.dict_store k v }

abbrev pub touch : Obj → ℕ → Obj
touch v secs = record v { last_access_time = now secs }

unfoldable pub get_found : Dict → Bytes → Option Obj → ℕ → ℕ → Dict × Option Obj
get_found d k none secs ms = (d, none)
get_found d k (some v) secs ms =
    let v' = touch v secs in
    let d' = touched d k v' in if has_expired d' k ms then ((del d' k).0, none) else (d', some v')

unfoldable pub get : Dict → Bytes → ℕ → ℕ → Dict × Option Obj
unfolding get_found
get d k secs ms = get_found d k (Map.get d.dict_store k) secs ms

-- for _, exp := range d.expiredDictStore: the order does not matter
unfoldable pub count_after : ℕ → List ℕ → ℕ
count_after ms [] = 0
count_after ms (exp ∷ es) = (if ltb ms exp then 1 else 0) + count_after ms es

unfoldable pub expiring_keys_count : Dict → ℕ → ℕ
unfolding count_after
expiring_keys_count d ms = count_after ms (Map.values d.expired_dict_store)

-- res = res + (exp - now), in a `uint64`
unfoldable pub sum_after : ℕ → List ℕ → ℕ → ℕ
sum_after ms [] res = res
sum_after ms (exp ∷ es) res =
    sum_after ms es (if ltb ms exp then (res + (exp - ms)) % word_mod else res)

abbrev average : ℕ → ℕ → ℕ
average res zero = 0
average res (suc cnt) = res / suc cnt

unfoldable pub ttl_avg : Dict → ℕ → ℕ
unfolding count_after sum_after
ttl_avg d ms =
    let exps = Map.values d.expired_dict_store in
    average (sum_after ms exps 0) (count_after ms exps)
