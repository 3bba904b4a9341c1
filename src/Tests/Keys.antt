-- ===== src/Tests/Keys.antt =====
-- A small dictionary, under a limit of two keys.
use redi_go.Prelude.{
  Bytes, codes, beq, [], ◌∷◌, ◌≡◌, ◌≤◌, refl, true, some, none, arith, if◌then◌else◌,
}
use redi_go.Prelude.Int.{pos, negsuc}
use redi_go.Go.Map
use redi_go.Go.Decimal.{parse_int}
use redi_go.Resp.Value.{str}
use redi_go.HashTable.Config.{Config}
use redi_go.HashTable.Dict.{Dict, create_dict, new_obj, persist, set_expiry, get_expiry, is_some}
use redi_go.HashTable.EvictionLru.{LruEvictionPool}
use redi_go.HashTable.Evict.{evict_random, set, set_new}
use redi_go.HashTable.Invariant.{IsValid, create_dict-IsValid, set_new-IsValid}
use redi_go.HashTable.Bounds.{evict_random_clears, size-set_new}
use redi_go.HashTable.Expiry.{visible, lifetime}
use redi_go.HashTable.Loss.{set_new_loses_expiry}
use redi_go.Core.Reply.{resp_ok}
use redi_go.Core.KeyCommands.{Env, Keyspace, times_1000, cmd_set, cmd_get, cmd_ttl}
use redi_go.Core.KeyCommands.Replies.{value_reply, ttl_answer, cmd_get-cmd_set, cmd_ttl-answer}

abbrev two_keys : Config
two_keys = record {
  max_key_number = pos 2;
  evict_count = pos 1;
  eviction_policy = codes "allkeys-random";
  epool_max_size = pos 16;
  epool_sample_size = pos 5;
}

abbrev as_is : LruEvictionPool → LruEvictionPool
as_is p = p

abbrev k : Bytes
k = codes "k"

abbrev j : Bytes
j = codes "j"

-- What a run of the model computes through.
run : Unit {0}
unfolding set_new set new_obj persist set_expiry create_dict Map.get Map.put Map.delete Map.size
    Map.empty Map.find Map.without beq
run = tt

-- Two keys, the first of which expires at 1500.
abbrev full : Dict
full =
    (set_new as_is two_keys []
      (set_new as_is two_keys [] create_dict [] k (str k) (pos 500) 1 1000).0 [] j (str j)
      (negsuc 0) 1 1000).0

full-IsValid : IsValid full
full-IsValid = set_new-IsValid as_is two_keys [] _ [] j (str j) (negsuc 0) 1 1000 (
    set_new-IsValid as_is two_keys [] create_dict [] k (str k) (pos 500) 1 1000 create_dict-IsValid)

set_new-IsValid_example :
    IsValid (set_new as_is two_keys (k ∷ j ∷ []) full [] j (str k) (pos 1) 1 1200).0
set_new-IsValid_example =
    set_new-IsValid as_is two_keys (k ∷ j ∷ []) full [] j (str k) (pos 1) 1 1200 full-IsValid

size-set_new_example :
    Map.size
      (set_new as_is two_keys
        (k ∷ j ∷ [])
        full
        []
        (codes "n")
        (str k)
        (negsuc 0)
        1
        1200).0.dict_store
    ≤ 2
unfolding run
size-set_new_example =
    size-set_new as_is two_keys (k ∷ j ∷ []) 1 0 refl refl refl full [] (codes "n") (str k)
      (negsuc 0) 1 1200 full-IsValid (refl, (refl, refl)) (omega arith)

evict_random_clears_example : Map.size (evict_random (k ∷ j ∷ []) (pos 0) full).dict_store ≡ 0
unfolding run
evict_random_clears_example =
    evict_random_clears (k ∷ j ∷ []) (pos 0) full full-IsValid.store_map (refl, (refl, refl)) refl

set_new_loses_expiry_example :
    (let d = (set_new as_is two_keys (k ∷ j ∷ []) full [] k (str j) (pos 500) 1 1200).0 in
      (get_expiry d k ≡ none) × (is_some (Map.get d.dict_store k) ≡ true))
unfolding run
set_new_loses_expiry_example =
    set_new_loses_expiry as_is two_keys (j ∷ []) full [] k (str j) (pos 500) 1 1200 refl refl refl

abbrev at_1200 : Env
at_1200 = record {
  config = two_keys;
  sort = as_is;
  order = k ∷ j ∷ [];
  secs = 1;
  ms0 = 1200;
  ms1 = 1201;
  ms2 = 1202;
}

abbrev space : Keyspace
space = record { dict = full; epool = [] }

abbrev fresh : Keyspace
fresh = record { dict = create_dict; epool = [] }

cmd_get-cmd_set_example :
    (let r = cmd_set at_1200 fresh (k ∷ j ∷ codes "EX" ∷ codes "5" ∷ []) in
      (r.1 ≡ resp_ok)
      × ((cmd_get at_1200 r.0 (k ∷ [])).1
          ≡ value_reply (
              if beq k k
              then lifetime 1200 (times_1000 (pos 5)) 1201 (some (str j))
              else visible create_dict k 1201)))
    × (let r = cmd_set at_1200 fresh (k ∷ j ∷ []) in
        (r.1 ≡ resp_ok)
        × ((cmd_get at_1200 r.0 (k ∷ [])).1
            ≡ value_reply (if beq k k then some (str j) else visible create_dict k 1201)))
unfolding run parse_int
cmd_get-cmd_set_example =
    cmd_get-cmd_set at_1200 at_1200 fresh k k j (codes "5") (pos 5) refl refl (omega arith)
      (omega arith)

cmd_ttl-answer_example : (cmd_ttl at_1200 space (k ∷ [])).1 ≡ ttl_answer at_1200 true (some 1500)
unfolding run
cmd_ttl-answer_example =
    cmd_ttl-answer at_1200 space k (omega arith) (omega arith) (λ e h. ground arith)
