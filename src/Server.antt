-- ===== src/Server.antt =====
-- internal/server/server.go: how the server hands the commands to its workers. Each worker runs the
-- tasks of its channel one at a time, so a run of the server is a sequence of these dispatches.
pub mod IoHandler
pub mod Listener
pub mod Concurrent
pub mod EventLoop
pub mod ReadCommand
pub mod Shards
pub mod OneMap
use Prim.Native.Nat.{bit_xor}
use redi_go.Prelude.{
  Bytes, ℕ, zero, suc, ◌*◌, ◌/◌, ◌%◌, ◌^◌, List, [], ◌∷◌, ◌≡◌, refl, Option, none, some, get_elem?,
  set, replicate,
}
use redi_go.Go.Result.{Result, ok, panic, ◌>>=◌}
use redi_go.Resp.Command.{Command}
use redi_go.HashTable.Dict.{Dict, create_dict}
use redi_go.HashTable.EvictionLru.{LruEvictionPool, new_epool}
use redi_go.Core.KeyCommands.{Keyspace, Env}
use redi_go.Core.Worker.{execute}

-- The dictionaries of the workers, in their order, and the eviction pool that they share.
pub record Server : Type 0 where
  pub workers : List Dict
  pub num_workers : ℕ
  pub epool : LruEvictionPool

-- Half of the processors, rounded down, have a worker.
unfoldable pub new_server : ℕ → Server
new_server num_cores = record {
  workers = replicate (num_cores / 2) create_dict;
  num_workers = num_cores / 2;
  epool = new_epool;
}

-- `Write` of hash/fnv's 32-bit FNV-1a.
unfoldable pub fnv_write : ℕ → Bytes → ℕ
fnv_write h [] = h
fnv_write h (c ∷ s) = fnv_write ((bit_xor h c * 16777619) % 2 ^ 32) s

-- `New32a` starts at the offset basis.
unfoldable pub fnv32a : Bytes → ℕ
unfolding fnv_write
fnv32a s = fnv_write 2166136261 s

-- `%` of an `int`, which panics at 0.
unfoldable pub modulo : ℕ → ℕ → Result ℕ
modulo a zero = panic
modulo a (suc n) = ok (a % suc n)

unfoldable pub get_partition_id : Server → Bytes → Result ℕ
get_partition_id s key = modulo (fnv32a key) s.num_workers

-- `rand.Intn(n)`, which panics at 0.
unfoldable pub draw : (ℕ → ℕ) → ℕ → Result ℕ
draw intn zero = panic
draw intn (suc n) = ok (intn (suc n))

-- A command without arguments may go to any worker.
unfoldable pub worker_id : (ℕ → ℕ) → Server → List Bytes → Result ℕ
worker_id intn s [] = draw intn s.num_workers
worker_id intn s (key ∷ args) = get_partition_id s key

abbrev worker_at : Option Dict → Result Dict
worker_at none = panic
worker_at (some d) = ok d

-- The task is sent to the worker, executed there, and its reply sent back.
unfoldable pub dispatch : Env → (ℕ → ℕ) → Server → Command → Result (Server × Bytes)
dispatch env intn s c = do
  id ← worker_id intn s c.args
  d ← worker_at (get_elem? s.workers id)
  let (space, res) = execute env (record { dict = d; epool = s.epool }) c
  ok (record s { workers = set s.workers id space.dict; epool = space.epool }, res)

fnv32a_test : fnv32a (97 ∷ []) ≡ 3826002220
unfolding fnv32a fnv_write
fnv32a_test = refl
