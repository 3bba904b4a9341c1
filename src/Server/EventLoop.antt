-- ===== src/Server/EventLoop.antt =====
-- `RunIoMultiplexingServer` of internal/server/server.go: the event loop of the server with a single thread, next to
-- the goroutine that stores a shutdown when a signal comes.
--
-- A step is what the loop does between two accesses to `serverStatus`, which the other goroutine may write at
-- any time. What `Wait`, `Accept`, the reads and the writes give are choices of the steps.
pub mod Claims
pub mod Lost
pub mod Stored
use redi_go.Prelude.{
  Bytes, ℕ, suc, List, [], ◌∷◌, ◌++◌, ◌≡◌, Bool, true, false, Option, none, some, if◌then◌else◌,
}
use redi_go.Go.Float.{Floats}
use redi_go.Go.Result.{Result, ok, err, panic, hang, ◌>>=◌}
use redi_go.HashTable.Dict.{Dict}
use redi_go.SortedSet.Interface.{OrderedIndex}
use redi_go.Core.KeyCommands.{Env}
use redi_go.Core.Executor.{Storage, init, execute}
use redi_go.Core.Expire.{Visits, active_delete_expired_keys}
use redi_go.Server.ReadCommand.{
  ReadError, eof, conn_reset, other_error, ReadResult, Received, received, refused, read_command,
}

pub data Status : Type 0 where
  idle : Status
  shutdown : Status
  running : Status

-- An event of `Wait`: the listener, with the connection if `Accept` and `Monitor` succeed, or a connection, with
-- what is read, what the command meets and whether the write fails.
pub data Happened : Type 0 where
  accept_failed : Happened
  accepted : ℕ → Happened
  not_monitored : ℕ → Happened
  readable : ℕ → ReadResult → Env → Bool → Happened

pub data Effect : Type 0 where
  monitor : ℕ → Effect
  unmonitor : ℕ → Effect
  close : ℕ → Effect
  write : ℕ → Bytes → Effect

-- What the loop claims the status for.
pub data Work : Type 0 where
  expiry : Work
  events : List Happened → Work

-- Where the loop stands: at its condition, before a compare-and-swap, after one that failed, at its work, before
-- the swap to idle, at `Wait`, after a return, and after `log.Fatal` or a panic.
pub data Pc : Type 0 where
  top : Pc
  claiming : Work → Pc
  checking : Work → Pc
  working : Work → Pc
  done : Work → Pc
  polling : Pc
  ended : Pc
  failed : Pc

-- An error of a read: the connection is closed at its end only.
unfoldable pub read_error : ℕ → ReadError → List Effect
read_error fd (other_error e) = []
read_error fd eof = unmonitor fd ∷ close fd ∷ []
read_error fd conn_reset = unmonitor fd ∷ close fd ∷ []

module _ (F : Floats) (I : OrderedIndex F) (hash : Bytes → ℕ → ℕ) (visit : List Bytes → List Bytes)
    (upper_unicode : Bytes → Bytes) where
  pub record Loop : Type 0 where
    pub status : Status
    pub pc : Pc
    pub storage : Storage F I hash visit
    -- what was asked of the operating system
    pub out : List Effect
    -- how often the other goroutine has still to store the shutdown
    pub stores : ℕ

  unfoldable pub start : ℕ → Loop
  start stores = record {
    status = idle;
    pc = top;
    storage = init F I hash visit;
    out = [];
    stores = stores;
  }

  -- A command that was read is executed and the reply is written; the connection is closed if that fails.
  unfoldable pub answer :
      Storage F I hash visit
      → ℕ
      → Env
      → Bool
      → Received
      → Result (Storage F I hash visit × List Effect)
  answer s fd env write_fails (refused e) = ok (s, read_error fd e)
  answer s fd env write_fails (received c) = do
    r ← execute F I hash visit env s c
    ok (r.0, write fd r.1 ∷ (if write_fails then unmonitor fd ∷ close fd ∷ [] else []))

  -- An event of a connection.
  unfoldable pub handle_readable :
      Storage F I hash visit
      → ℕ
      → ReadResult
      → Env
      → Bool
      → Result (Storage F I hash visit × List Effect)
  unfolding answer
  handle_readable s fd read env write_fails = do
    r ← read_command upper_unicode read
    answer s fd env write_fails r

  abbrev next_pc : Work → Pc
  next_pc expiry = polling
  next_pc (events es) = top

  pub data LoopStep (m : Loop) : Loop → Type 0 where
    stop : m.pc ≡ top → m.status ≡ shutdown → LoopStep m (record m { pc = ended })
    -- the last expiry is more than 100 ms ago, or not
    expire_now :
        m.pc ≡ top → ¬ (m.status ≡ shutdown) → LoopStep m (record m { pc = claiming expiry })
    expire_later : m.pc ≡ top → ¬ (m.status ≡ shutdown) → LoopStep m (record m { pc = polling })
    claim :
        (w : Work)
        → m.pc ≡ claiming w
        → m.status ≡ idle
        → LoopStep m (record m { status = running; pc = working w })
    claim_fails :
        (w : Work)
        → m.pc ≡ claiming w
        → ¬ (m.status ≡ idle)
        → LoopStep m (record m { pc = checking w })
    check_stops :
        (w : Work) → m.pc ≡ checking w → m.status ≡ shutdown → LoopStep m (record m { pc = ended })
    check_goes_on :
        (w : Work)
        → m.pc ≡ checking w
        → ¬ (m.status ≡ shutdown)
        → LoopStep m (record m { pc = working w })
    expire :
        (fuel : ℕ) (visits : ℕ → Visits) (d : Dict)
        → m.pc ≡ working expiry
        → active_delete_expired_keys fuel visits 0 m.storage.keyspace.dict ≡ ok d
        → LoopStep m (record m {
          pc = done expiry;
          storage = record m.storage { keyspace = record m.storage.keyspace { dict = d } };
        })
    release : (w : Work) → m.pc ≡ done w → LoopStep m (record m { status = idle; pc = next_pc w })
    wait_fails : m.pc ≡ polling → LoopStep m (record m { pc = top })
    wait :
        (es : List Happened) → m.pc ≡ polling → LoopStep m (record m { pc = claiming (events es) })
    no_more_events : m.pc ≡ working (events []) → LoopStep m (record m { pc = done (events []) })
    accept_fails :
        (es : List Happened)
        → m.pc ≡ working (events (accept_failed ∷ es))
        → LoopStep m (record m { pc = working (events es) })
    accept :
        (fd : ℕ) (es : List Happened)
        → m.pc ≡ working (events (accepted fd ∷ es))
        → LoopStep m (record m { pc = working (events es); out = m.out ++ monitor fd ∷ [] })
    monitor_fails :
        (fd : ℕ) (es : List Happened)
        → m.pc ≡ working (events (not_monitored fd ∷ es))
        → LoopStep m (record m { pc = failed })
    stop_before_read :
        (fd : ℕ) (read : ReadResult) (env : Env) (write_fails : Bool) (es : List Happened)
        → m.pc ≡ working (events (readable fd read env write_fails ∷ es))
        → m.status ≡ shutdown
        → LoopStep m (record m { pc = ended })
    handle :
        (fd : ℕ) (read : ReadResult) (env : Env) (write_fails : Bool) (es : List Happened)
        (s : Storage F I hash visit) (out : List Effect)
        → m.pc ≡ working (events (readable fd read env write_fails ∷ es))
        → ¬ (m.status ≡ shutdown)
        → handle_readable m.storage fd read env write_fails ≡ ok (s, out)
        → LoopStep m (record m { pc = working (events es); storage = s; out = m.out ++ out })
    handle_panics :
        (fd : ℕ) (read : ReadResult) (env : Env) (write_fails : Bool) (es : List Happened)
        → m.pc ≡ working (events (readable fd read env write_fails ∷ es))
        → ¬ (m.status ≡ shutdown)
        → handle_readable m.storage fd read env write_fails ≡ panic
        → LoopStep m (record m { pc = failed })

  -- A step of the loop, or a store of the goroutine that waits for the signal.
  pub data Step (m : Loop) : Loop → Type 0 where
    loop_step : {m' : Loop} → LoopStep m m' → Step m m'
    store : (n : ℕ) → m.stores ≡ suc n → Step m (record m { status = shutdown; stores = n })

  pub data Steps : Loop → Loop → Type 0 where
    here : {m : Loop} → Steps m m
    next : {m m' m'' : Loop} → Step m m' → Steps m' m'' → Steps m m''
