-- ===== src/Tests/Expiry.antt =====
-- The active deletion on a dictionary of one key, which expires at 1500.
use redi_go.Prelude.{Bytes, codes, ℕ, ◌≡◌, [], ◌∷◌, refl, arith, beq}
use redi_go.Prelude.Int.{pos}
use redi_go.Go.Map
use redi_go.Go.Result.{ok}
use redi_go.Resp.Value.{str}
use redi_go.HashTable.Config.{Config}
use redi_go.HashTable.Dict.{Dict, create_dict, new_obj, set_expiry, get_expiry, del}
use redi_go.HashTable.Evict.{set, set_new}
use redi_go.HashTable.Invariant.{IsValid, create_dict-IsValid, set_new-IsValid}
use redi_go.HashTable.Expiry.{visible}
use redi_go.Core.Expire.{Visits, active_delete_expired_keys, sample, expire_key}
use redi_go.Core.Expire.Ends.{expiring, active_delete-ends}
use redi_go.Core.Expire.Hidden.{InTime, visible-active_delete}

abbrev roomy : Config
roomy = record {
  max_key_number = pos 10;
  evict_count = pos 1;
  eviction_policy = codes "allkeys-random";
  epool_max_size = pos 16;
  epool_sample_size = pos 5;
}

abbrev k : Bytes
k = codes "k"

abbrev one_key : Dict
one_key = (set_new (λ p. p) roomy [] create_dict [] k (str k) (pos 500) 1 1000).0

one_key-IsValid : IsValid one_key
one_key-IsValid =
    set_new-IsValid (λ p. p) roomy [] create_dict [] k (str k) (pos 500) 1 1000 create_dict-IsValid

expiring-one_key : expiring one_key ≡ 1
unfolding set_new set new_obj set_expiry create_dict Map.put Map.size Map.empty Map.without
expiring-one_key = refl

one_key-InTime : InTime one_key
unfolding set_new set new_obj set_expiry create_dict get_expiry Map.size Map.empty
one_key-InTime j exp h =
    ground (arith, Map.get-put (Map.empty {V = ℕ}) k j 1500, Map.get-empty {V = ℕ} j)

-- Every round visits the key at 2000.
abbrev at_2000 : ℕ → Visits
at_2000 n = (k, 2000) ∷ []

abbrev emptied : Dict
emptied = record { dict_store = Map.empty; expired_dict_store = Map.empty }

deletes_the_key : active_delete_expired_keys 2 at_2000 0 one_key ≡ ok emptied
unfolding active_delete_expired_keys sample expire_key set_new set new_obj set_expiry create_dict
    get_expiry del Map.get Map.put Map.delete Map.size Map.empty Map.find Map.without beq
deletes_the_key = refl

active_delete-ends_example :
    (d' : Dict) × (active_delete_expired_keys 2 at_2000 0 one_key ≡ ok d') × IsValid d'
active_delete-ends_example =
    active_delete-ends 2 at_2000 0 one_key one_key-IsValid (rw expiring-one_key (omega arith))

visible-active_delete_example : visible emptied k 2000 ≡ visible one_key k 2000
visible-active_delete_example =
    visible-active_delete 2 at_2000 0 one_key emptied k 2000 one_key-InTime (λ n. (omega arith, tt))
      deletes_the_key
