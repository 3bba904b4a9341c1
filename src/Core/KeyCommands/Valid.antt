-- ===== src/Core/KeyCommands/Valid.antt =====
-- The dictionary after the commands of internal/core/executor.go.
use redi_go.Prelude.{Bytes, codes, List, [], ◌∷◌, Option, none, some, not, beq, if_elim}
use redi_go.Prelude.Int.{ℤ, negsuc}
use redi_go.Go.Decimal.{parse_int}
use redi_go.Resp.Value.{str}
use redi_go.HashTable.Invariant.{IsValid, set_new-IsValid, get-IsValid}
use redi_go.Core.KeyCommands.{Keyspace, Env, cmd_set, cmd_get, cmd_ttl, store_value, store_ttl}

pub store_value-IsValid :
    (env : Env) (s : Keyspace) (key value : Bytes) (ttl_ms : ℤ)
    → IsValid s.dict
    → IsValid (store_value env s key value ttl_ms).0.dict
unfolding store_value
store_value-IsValid env s key value ttl_ms v =
    set_new-IsValid env.sort env.config env.order s.dict s.epool key (str value) ttl_ms env.secs
      env.ms0 v

pub store_ttl-IsValid :
    (env : Env) (s : Keyspace) (key value : Bytes) (ttl : Option ℤ)
    → IsValid s.dict
    → IsValid (store_ttl env s key value ttl).0.dict
unfolding store_ttl
store_ttl-IsValid env s key value none v = v
store_ttl-IsValid env s key value (some t) v = store_value-IsValid env s key value _ v

pub cmd_get-IsValid :
    (env : Env) (s : Keyspace) (args : List Bytes)
    → IsValid s.dict
    → IsValid (cmd_get env s args).0.dict
unfolding cmd_get
cmd_get-IsValid env s [] v = v
cmd_get-IsValid env s (key ∷ []) v = get-IsValid s.dict key env.secs env.ms0 v
cmd_get-IsValid env s (key ∷ a ∷ args) v = v

pub cmd_ttl-IsValid :
    (env : Env) (s : Keyspace) (args : List Bytes)
    → IsValid s.dict
    → IsValid (cmd_ttl env s args).0.dict
unfolding cmd_ttl
cmd_ttl-IsValid env s [] v = v
cmd_ttl-IsValid env s (key ∷ []) v = get-IsValid s.dict key env.secs env.ms0 v
cmd_ttl-IsValid env s (key ∷ a ∷ args) v = v

pub cmd_set-IsValid :
    (env : Env) (s : Keyspace) (args : List Bytes)
    → IsValid s.dict
    → IsValid (cmd_set env s args).0.dict
unfolding cmd_set
cmd_set-IsValid env s [] v = v
cmd_set-IsValid env s (key ∷ []) v = v
cmd_set-IsValid env s (key ∷ value ∷ []) v = store_value-IsValid env s key value (negsuc 0) v
cmd_set-IsValid env s (key ∷ value ∷ option ∷ []) v = v
cmd_set-IsValid env s (key ∷ value ∷ option ∷ ttl ∷ []) v =
    if_elim (λ (r : Keyspace × Bytes). IsValid r.0.dict) (not (beq option (codes "EX"))) v
      (store_ttl-IsValid env s key value (parse_int ttl) v)
cmd_set-IsValid env s (key ∷ value ∷ option ∷ ttl ∷ a ∷ args) v = v
