-- ===== src/Server/OneMap.antt =====
-- SET and GET on the server of internal/server/server.go: the clients see one map, whatever worker
-- each key is on.
use redi_go.Prelude.{
  Bytes, codes, ℕ, ◌≤◌, List, [], ◌∷◌, ◌≡◌, refl, ap, sym, ◌∙◌, false, Option, some, arith, beq,
  beq_iff, if◌then◌else◌, Bool-cases, inl, inr, get_or, get_or-set_self, get_or-set_ne, ℕ_discrete,
}
use redi_go.Prelude.Int.{ℤ, int_max, InInt64, to_int64-InInt64}
use redi_go.Go.Map
use redi_go.Go.Result.{ok}
use redi_go.Go.Decimal.{parse_int}
use redi_go.Resp.Value.{Value, str}
use redi_go.Resp.Command.{Command}
use redi_go.HashTable.Config.{ge_int}
use redi_go.HashTable.Dict.{create_dict}
use redi_go.HashTable.Invariant.{IsValid}
use redi_go.HashTable.Expiry.{visible, lifetime, visible-get, visible-set_new}
use redi_go.Core.Reply.{resp_ok}
use redi_go.Core.KeyCommands.{Keyspace, Env, cmd_get, store_value, store_ttl, times_1000}
use redi_go.Core.KeyCommands.Replies.{value_reply, cmd_get-visible}
use redi_go.Core.KeyCommands.Valid.{store_value-IsValid, cmd_get-IsValid}
use redi_go.Core.Worker
use redi_go.Server.{Server, worker_id, dispatch}
use redi_go.Server.Shards.{
  IsServer, owner, shard, seen, after, after-IsServer, get_partition_id-owner, dispatch_run,
  owner-lt,
}

abbrev space_of : Server → Bytes → Keyspace
space_of s key = record { dict = get_or s.workers (owner s key) create_dict; epool = s.epool }

-- What a change of one key on its worker means for the keys of all workers.
seen-after :
    (s : Server) (key : Bytes) (space : Keyspace) (new : Option Value) (later : ℕ) (j : Bytes)
    → IsServer s
    → visible space.dict j later ≡ (if beq key j then new else visible (shard s key) j later)
    → seen (after s (owner s key) space) j later ≡ (if beq key j then new else seen s j later)
unfolding seen shard
seen-after s key space new later j k h = elim (ℕ_discrete (owner s key) (owner s j)) [
  | yes same ↦
      rw
        (
          ← same,
          get_or-set_self s.workers (owner s key) space.dict create_dict
              (omega (arith, k.all_workers, owner-lt s key k)),
        )
        h
  | no ne ↦
      let apart : beq key j ≡ false = elim (Bool-cases (beq key j)) [
        | inl e ↦ absurd (ne (ap (owner s) ((beq_iff key j).0 e)))
        | inr e ↦ e
      ] in
      rw (get_or-set_ne s.workers (owner s key) (owner s j) space.dict create_dict ne, apart) refl
]

abbrev pub set_task : Bytes → Bytes → Bytes → Command
set_task key value ttl = record { cmd = codes "SET"; args = key ∷ value ∷ codes "EX" ∷ ttl ∷ [] }

abbrev pub get_task : Bytes → Command
get_task key = record { cmd = codes "GET"; args = key ∷ [] }

execute-set :
    (env : Env) (space : Keyspace) (key value ttl : Bytes) (ttl_sec : ℤ)
    → parse_int ttl ≡ some ttl_sec
    → Worker.execute env space (set_task key value ttl)
      ≡ ((store_value env space key value (times_1000 ttl_sec)).0, resp_ok)
unfolding Worker.execute Worker.cmd_set store_ttl store_value beq
execute-set env space key value ttl ttl_sec parsed = rw parsed refl

visible-store_value :
    (env : Env) (space : Keyspace) (key j value : Bytes) (ttl_ms : ℤ) (later : ℕ)
    → ge_int (Map.size space.dict.dict_store) env.config.max_key_number ≡ false
    → env.ms0 ≤ int_max
    → InInt64 ttl_ms
    → visible (store_value env space key value ttl_ms).0.dict j later ≡ (
        if beq key j
        then lifetime env.ms0 ttl_ms later (some (str value))
        else visible space.dict j later)
unfolding store_value
visible-store_value env space key j value ttl_ms later room now_fits fits =
    visible-set_new env.sort env.config env.order space.dict space.epool key j (str value) ttl_ms
      env.secs env.ms0 later room now_fits fits

execute-get :
    (env : Env) (space : Keyspace) (key : Bytes)
    → Worker.execute env space (get_task key) ≡ cmd_get env space (key ∷ [])
unfolding Worker.execute beq
execute-get env space key = refl

visible-cmd_get :
    (env : Env) (space : Keyspace) (key j : Bytes) (later : ℕ)
    → env.ms0 ≤ later
    → visible (cmd_get env space (key ∷ [])).0.dict j later ≡ visible space.dict j later
unfolding cmd_get
visible-cmd_get env space key j later le = visible-get space.dict key j env.secs env.ms0 later le

same_key : (key j : Bytes) (f : Bytes → Option Value) → (if beq key j then f key else f j) ≡ f j
same_key key j f = elim (Bool-cases (beq key j)) [
  | inl e ↦ rw e (ap f ((beq_iff key j).0 e))
  | inr e ↦ rw e
]

-- A command with the key as its first argument runs on the key's worker.
dispatch-owner :
    (env : Env) (intn : ℕ → ℕ) (s : Server) (name key : Bytes) (args : List Bytes)
    (r : Keyspace × Bytes)
    → IsServer s
    → Worker.execute env (space_of s key) (record { cmd = name; args = key ∷ args }) ≡ r
    → IsValid r.0.dict
    → (dispatch env intn s (record { cmd = name; args = key ∷ args })
        ≡ ok (after s (owner s key) r.0, r.1))
      × IsServer (after s (owner s key) r.0)
unfolding worker_id
dispatch-owner env intn s name key args r k e v =
    let lt = owner-lt s key k in
    (
      dispatch_run env intn s _ (owner s key) k (get_partition_id-owner s key k.some_worker) lt
          ∙ ap (λ (q : Keyspace × Bytes). ok (after s (owner s key) q.0, q.1)) e,
      after-IsServer s (owner s key) r.0 k lt v,
    )

shard-IsValid : (s : Server) (key : Bytes) → IsServer s → IsValid (space_of s key).dict
shard-IsValid s key k = k.dicts (owner s key) (owner-lt s key k)

-- `SET key value EX seconds` is answered OK, and then the key has the value for that many seconds (for
-- ever, if their milliseconds are not positive in an `int64`) and every other key, on whatever worker,
-- has what it had. The server is well formed and stays so, the worker's dictionary is below
-- its limit, the seconds are an integer, and the clock is in an `int64`.
pub dispatch-set :
    (env : Env) (intn : ℕ → ℕ) (s : Server) (key value ttl : Bytes) (ttl_sec : ℤ) (j : Bytes)
    (later : ℕ)
    → IsServer s
    → parse_int ttl ≡ some ttl_sec
    → ge_int (Map.size (shard s key).dict_store) env.config.max_key_number ≡ false
    → env.ms0 ≤ int_max
    → (s' : Server) × (dispatch env intn s (set_task key value ttl) ≡ ok (s', resp_ok))
      × IsServer s'
      × (seen s' j later ≡ (
          if beq key j
          then lifetime env.ms0 (times_1000 ttl_sec) later (some (str value))
          else seen s j later))
unfolding shard
dispatch-set env intn s key value ttl ttl_sec j later k parsed room now_fits =
    let space = space_of s key in
    let r = store_value env space key value (times_1000 ttl_sec) in
    let (run, valid) =
      dispatch-owner env intn s (codes "SET") key _ (r.0, resp_ok) k
        (execute-set env space key value ttl ttl_sec parsed)
        (store_value-IsValid env space key value (times_1000 ttl_sec) (shard-IsValid s key k)) in
    (
      after s (owner s key) r.0,
      run,
      valid,
      seen-after s key r.0 (lifetime env.ms0 (times_1000 ttl_sec) later (some (str value))) later j
          k
          (visible-store_value env space key j value (times_1000 ttl_sec) later room now_fits
            (to_int64-InInt64 _ (omega arith))),
    )

-- `GET key` is answered with the value that the key has when the clock is read for the second time, on
-- whatever worker it is, and changes what no client sees of any key from the first reading on; the
-- clock does not go back, and the server is well formed and stays so.
pub dispatch-get :
    (env : Env) (intn : ℕ → ℕ) (s : Server) (key j : Bytes) (later : ℕ)
    → IsServer s
    → env.ms0 ≤ env.ms1
    → env.ms0 ≤ later
    → (s' : Server) × (dispatch env intn s (get_task key)
        ≡ ok (s', value_reply (seen s key env.ms1)))
      × IsServer s'
      × (seen s' j later ≡ seen s j later)
unfolding shard seen
dispatch-get env intn s key j later k le le' =
    let space = space_of s key in
    let r = cmd_get env space (key ∷ []) in
    let (run, valid) =
      dispatch-owner env intn s (codes "GET") key [] r k (execute-get env space key)
        (cmd_get-IsValid env space (key ∷ []) (shard-IsValid s key k)) in
    (
      after s (owner s key) r.0,
      run ∙ ap (λ res. ok (after s (owner s key) r.0, res)) (cmd_get-visible env space key le),
      valid,
      seen-after s key r.0 (seen s key later) later j k (
            visible-cmd_get env space key j later le'
            ∙ sym (same_key key j (λ i. visible (shard s key) i later)))
          ∙ same_key key j (λ i. seen s i later),
    )
