-- ===== src/Server/Shards.antt =====
-- The server of internal/server/server.go against one dictionary that all its keys would share: which
-- worker has a key, and what clients see of the keys of all workers together.
use native.Mathlib.Nat.{mod-lt}
use redi_go.Prelude.{
  Bytes, codes, ℕ, zero, suc, ◌/◌, ◌%◌, length-replicate, get_or-replicate, ◌≤◌, ◌<◌, List, [], ◌∷◌,
  ◌≡◌, refl, ◌∙◌, Option, arith, beq, length, set, get_or, length-set, if_elim, get_or-set_self,
  get_or-set_ne, get_elem?-get_or, ℕ_discrete,
}
use redi_go.Prelude.Int.{negsuc}
use redi_go.Go.Result.{ok, panic}
use redi_go.Go.Decimal.{parse_int}
use redi_go.Resp.Value.{Value}
use redi_go.Resp.Command.{Command}
use redi_go.HashTable.Dict.{Dict, create_dict}
use redi_go.HashTable.Invariant.{IsValid, create_dict-IsValid}
use redi_go.HashTable.Expiry.{visible}
use redi_go.Core.KeyCommands.{Keyspace, Env}
use redi_go.Core.KeyCommands.Valid.{store_value-IsValid, store_ttl-IsValid, cmd_get-IsValid}
use redi_go.Core.Worker
use redi_go.Server.{Server, new_server, fnv32a, modulo, draw, get_partition_id, worker_id, dispatch}

-- The number of the worker that has the key.
abbrev pub owner : Server → Bytes → ℕ
owner s key = fnv32a key % s.num_workers

-- Its dictionary.
unfoldable pub shard : Server → Bytes → Dict
shard s key = get_or s.workers (owner s key) create_dict

-- The value of a key at the instant `ms`, on whatever worker it is.
unfoldable pub seen : Server → Bytes → ℕ → Option Value
seen s key ms = visible (shard s key) key ms

modulo_pos : (a n : ℕ) → 0 < n → modulo a n ≡ ok (a % n)
unfolding modulo
modulo_pos a zero lt = elim lt [ ]
modulo_pos a (suc n) lt = refl

draw_pos : (intn : ℕ → ℕ) (n : ℕ) → 0 < n → draw intn n ≡ ok (intn n)
unfolding draw
draw_pos intn zero lt = elim lt [ ]
draw_pos intn (suc n) lt = refl

-- There are workers, as many as the server says, and their dictionaries are well formed.
pub record IsServer (s : Server) : Type 0 where
  pub some_worker : 0 < s.num_workers
  pub all_workers : length s.workers ≡ s.num_workers
  pub dicts : (i : ℕ) → i < s.num_workers → IsValid (get_or s.workers i create_dict)

pub get_partition_id-owner :
    (s : Server) (key : Bytes) → 0 < s.num_workers → get_partition_id s key ≡ ok (owner s key)
unfolding get_partition_id
get_partition_id-owner s key lt = modulo_pos (fnv32a key) s.num_workers lt

pub owner-lt : (s : Server) (key : Bytes) → IsServer s → owner s key < s.num_workers
owner-lt s key k = mod-lt (fnv32a key) k.some_worker

worker_id-lt :
    (intn : ℕ → ℕ) (s : Server) (args : List Bytes)
    → ((n : ℕ) → 0 < n → intn n < n)
    → 0 < s.num_workers
    → (id : ℕ) × (worker_id intn s args ≡ ok id) × (id < s.num_workers)
unfolding worker_id
worker_id-lt intn s [] h lt =
    (intn s.num_workers, draw_pos intn s.num_workers lt, h s.num_workers lt)
worker_id-lt intn s (key ∷ args) h lt =
    (owner s key, get_partition_id-owner s key lt, mod-lt (fnv32a key) lt)

worker_id_none :
    (intn : ℕ → ℕ) (s : Server) (args : List Bytes)
    → s.num_workers ≡ 0
    → worker_id intn s args ≡ panic
unfolding worker_id get_partition_id modulo draw
worker_id_none intn s [] none_there = rw none_there refl
worker_id_none intn s (key ∷ args) none_there = rw none_there refl

-- The state after a worker has run a command: the new dictionary of that worker, and the pool.
abbrev pub after : Server → ℕ → Keyspace → Server
after s id space = record s { workers = set s.workers id space.dict; epool = space.epool }

-- A dispatch runs the command on the dictionary of its worker and leaves the others alone.
pub dispatch_run :
    (env : Env) (intn : ℕ → ℕ) (s : Server) (c : Command) (id : ℕ)
    → IsServer s
    → worker_id intn s c.args ≡ ok id
    → id < s.num_workers
    → (let r =
          Worker.execute env
            (record { dict = get_or s.workers id create_dict; epool = s.epool })
            c in
        dispatch env intn s c ≡ ok (after s id r.0, r.1))
unfolding dispatch
dispatch_run env intn s c id k e lt =
    rw (e, get_elem?-get_or s.workers id create_dict (omega (arith, k.all_workers))) refl

pub after-IsServer :
    (s : Server) (id : ℕ) (space : Keyspace)
    → IsServer s
    → id < s.num_workers
    → IsValid space.dict
    → IsServer (after s id space)
after-IsServer s id space k in_range v = record {
  some_worker = k.some_worker;
  all_workers = length-set s.workers id space.dict ∙ k.all_workers;
  dicts = λ i lt. elim (ℕ_discrete id i) [
    | yes e ↦
        let self : get_or (set s.workers id space.dict) id create_dict ≡ space.dict =
          get_or-set_self s.workers id space.dict create_dict (omega (arith, k.all_workers)) in
        rw (← e, self) v
    | no ne ↦ rw (get_or-set_ne s.workers id i space.dict create_dict ne) (k.dicts i lt)
  ];
}

cmd_set-IsValid :
    (env : Env) (s : Keyspace) (args : List Bytes)
    → IsValid s.dict
    → IsValid (Worker.cmd_set env s args).0.dict
unfolding Worker.cmd_set
cmd_set-IsValid env s [] v = v
cmd_set-IsValid env s (key ∷ []) v = v
cmd_set-IsValid env s (key ∷ value ∷ []) v = store_value-IsValid env s key value (negsuc 0) v
cmd_set-IsValid env s (key ∷ value ∷ option ∷ []) v = v
cmd_set-IsValid env s (key ∷ value ∷ option ∷ ttl ∷ []) v =
    store_ttl-IsValid env s key value (parse_int ttl) v
cmd_set-IsValid env s (key ∷ value ∷ option ∷ ttl ∷ a ∷ args) v = v

pub execute-IsValid :
    (env : Env) (s : Keyspace) (c : Command)
    → IsValid s.dict
    → IsValid (Worker.execute env s c).0.dict
unfolding Worker.execute
execute-IsValid env s c v =
    let Keeps : Keyspace × Bytes → Type 0 = λ r. IsValid r.0.dict in
    if_elim Keeps (beq c.cmd (codes "SET")) (cmd_set-IsValid env s c.args v) (
      if_elim Keeps (beq c.cmd (codes "GET")) (cmd_get-IsValid env s c.args v)
        (if_elim Keeps (beq c.cmd (codes "PING")) v v))

-- On a well-formed server every command gets a reply, whatever its arguments are, and leaves the
-- dictionaries of all workers well formed; `rand.Intn` is asked for a number below its argument only.
pub dispatch-IsServer :
    (env : Env) (intn : ℕ → ℕ) (s : Server) (c : Command)
    → ((n : ℕ) → 0 < n → intn n < n)
    → IsServer s
    → (s' : Server) × (res : Bytes) × (dispatch env intn s c ≡ ok (s', res)) × IsServer s'
dispatch-IsServer env intn s c h k =
    let (id, e, lt) = worker_id-lt intn s c.args h k.some_worker in
    let space : Keyspace = record { dict = get_or s.workers id create_dict; epool = s.epool } in
    let r = Worker.execute env space c in
    (
      after s id r.0,
      r.1,
      dispatch_run env intn s c id k e lt,
      after-IsServer s id r.0 k lt (execute-IsValid env space c (k.dicts id lt)),
    )

-- A server on two processors or more starts well formed.
pub new_server-IsServer : (num_cores : ℕ) → 2 ≤ num_cores → IsServer (new_server num_cores)
unfolding new_server
new_server-IsServer num_cores two = record {
  some_worker = omega arith;
  all_workers = length-replicate (num_cores / 2) create_dict;
  dicts = λ i lt. rw (get_or-replicate (num_cores / 2) i create_dict) create_dict-IsValid;
}

-- On a machine with a single processor the server has no worker, and the dispatch of any command, with
-- a key or without one, panics.
pub dispatch_single_core :
    (env : Env) (intn : ℕ → ℕ) (num_cores : ℕ) (c : Command)
    → num_cores < 2
    → dispatch env intn (new_server num_cores) c ≡ panic
unfolding dispatch new_server
dispatch_single_core env intn num_cores c few =
    rw (worker_id_none intn (new_server num_cores) c.args (omega arith)) refl
