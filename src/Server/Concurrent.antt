-- ===== src/Server/Concurrent.antt =====
-- The goroutines of internal/server/server.go, internal/server/io_handler.go and internal/core/worker.go
-- side by side: I/O handlers that send tasks, workers that run them, and `Stop`.
--
-- A step is what one goroutine does between two operations on a channel. Handlers and workers are numbers. A
-- handler has one request at a time, with a reply channel of its own, so the state of the handler says
-- what the channel holds. A worker's run of one command is one step: what two workers do to the shared eviction
-- pool at the same time is not modelled.
pub mod Consistent
pub mod Sequential
pub mod Replies
pub mod Shutdown
pub mod Stopping
use redi_go.Prelude.{
  Bytes, ℕ, suc, ◌<◌, List, [], ◌∷◌, ◌++◌, ◌≡◌, Bool, true, false, Option, none, some, get_elem?,
  set, length, ◌==◌, if◌then◌else◌,
}
use redi_go.Go.Result.{Result, ok, panic}
use redi_go.Resp.Command.{Command}
use redi_go.HashTable.Dict.{Dict}
use redi_go.Core.KeyCommands.{Keyspace, Env}
use redi_go.Core.Worker.{execute}
use redi_go.Server.{Server, worker_id}

pub record Task : Type 0 where
  pub handler : ℕ
  pub command : Command

-- Where a handler stands: before its next request, at the receive from the reply channel of a command that it
-- sent to a worker, and there with the reply in the channel.
pub data Phase : Type 0 where
  ready : Phase
  waiting : ℕ → Command → Phase
  answered : Command → Bytes → Phase

-- Where `Stop` stands, and at which worker.
pub data StopPhase : Type 0 where
  not_called : StopPhase
  canceling : ℕ → StopPhase
  closing : ℕ → StopPhase
  joining : ℕ → StopPhase
  workers_stopped : StopPhase

pub record Machine : Type 0 where
  pub server : Server
  -- what the channel of a worker holds, the oldest first
  pub tasks : ℕ → List Task
  pub phase : ℕ → Phase
  pub canceled : ℕ → Bool
  pub closed : ℕ → Bool
  -- the workers whose `run` has returned
  pub returned : ℕ → Bool
  pub stop : StopPhase

unfoldable pub start : Server → Machine
start s = record {
  server = s;
  tasks = λ id. [];
  phase = λ h. ready;
  canceled = λ id. false;
  closed = λ id. false;
  returned = λ id. false;
  stop = not_called;
}

abbrev pub put {ℓ} : {A : Type ℓ} → (ℕ → A) → ℕ → A → ℕ → A
put f i a j = if j == i then a else f j

unfoldable pub enqueue : Machine → ℕ → ℕ → Command → Machine
enqueue m h id c = record m {
  tasks = put m.tasks id (m.tasks id ++ record { handler = h; command = c } ∷ []);
  phase = put m.phase h (waiting id c);
}

-- `s.workers[workerID].TaskCh <- task`: a send on a closed channel panics.
unfoldable pub send : Machine → ℕ → ℕ → Command → Result Machine
unfolding enqueue
send m h id c = if m.closed id then panic else ok (enqueue m h id c)

-- `ExecuteAndResponse` of the task that the worker has received. The reply channel has room for the reply.
unfoldable pub execute_and_response : Env → Machine → ℕ → Dict → Task → List Task → Machine × Bytes
execute_and_response env m id d t rest =
    let (space, res) = execute env (record { dict = d; epool = m.server.epool }) t.command in
    (
      record m {
        server = record m.server {
          workers = set m.server.workers id space.dict;
          epool = space.epool;
        };
        tasks = put m.tasks id rest;
        phase = put m.phase t.handler (answered t.command res);
      },
      res,
    )

-- `res := <-replyCh`
unfoldable pub receive : Machine → ℕ → Machine
receive m h = record m { phase = put m.phase h ready }

pub data Event : Type 0 where
  sent : ℕ → ℕ → Command → Event
  executed : ℕ → ℕ → Command → Bytes → Event
  received : ℕ → Command → Bytes → Event
  stop_moved : Event

-- `Stop` of the server, up to its last worker, and the workers' returns.
pub data StopStep (m : Machine) : Machine → Type 0 where
  call_stop : m.stop ≡ not_called → StopStep m (record m { stop = canceling 0 })
  cancel :
      (i : ℕ)
      → m.stop ≡ canceling i
      → i < m.server.num_workers
      → StopStep m (record m { canceled = put m.canceled i true; stop = closing i })
  close :
      (i : ℕ)
      → m.stop ≡ closing i
      → StopStep m (record m { closed = put m.closed i true; stop = joining i })
  join :
      (i : ℕ)
      → m.stop ≡ joining i
      → m.returned i ≡ true
      → StopStep m (record m { stop = canceling (suc i) })
  stop_ends :
      m.stop ≡ canceling m.server.num_workers → StopStep m (record m { stop = workers_stopped })
  -- `run` of a worker returns: the context is done, whatever the channel holds,
  return_canceled :
      (id : ℕ)
      → m.returned id ≡ false
      → m.canceled id ≡ true
      → StopStep m (record m { returned = put m.returned id true })
  -- or the channel is closed and drained
  return_closed :
      (id : ℕ)
      → m.returned id ≡ false
      → m.closed id ≡ true
      → m.tasks id ≡ []
      → StopStep m (record m { returned = put m.returned id true })

pub data Step (m : Machine) : Event → Machine → Type 0 where
  -- a handler sends a command to its worker, whose buffer has room
  send_task :
      (h id : ℕ) (c : Command) (intn : ℕ → ℕ)
      → m.phase h ≡ ready
      → worker_id intn m.server c.args ≡ ok id
      → id < length m.server.workers
      → length (m.tasks id) < 1024
      → m.closed id ≡ false
      → Step m (sent id h c) (enqueue m h id c)
  -- a worker receives the oldest task of its channel and runs it
  run_task :
      (id : ℕ) (env : Env) (d : Dict) (t : Task) (rest : List Task)
      → m.returned id ≡ false
      → m.tasks id ≡ t ∷ rest
      → get_elem? m.server.workers id ≡ some d
      → Step m
          (executed id t.handler t.command (execute_and_response env m id d t rest).1)
          (execute_and_response env m id d t rest).0
  receive_reply :
      (h : ℕ) (c : Command) (res : Bytes)
      → m.phase h ≡ answered c res
      → Step m (received h c res) (receive m h)
  stop_step : {m' : Machine} → StopStep m m' → Step m stop_moved m'

pub data Steps : Machine → List Event → Machine → Type 0 where
  here : {m : Machine} → Steps m [] m
  next :
      {e : Event} {es : List Event} {m m' m'' : Machine}
      → Step m e m'
      → Steps m' es m''
      → Steps m (e ∷ es) m''

-- `Stop` and the workers' returns leave the data, the channels and the handlers alone.
pub StopStep-keeps {ℓ} :
    {m m' : Machine} (P : Server → (ℕ → List Task) → (ℕ → Phase) → Type ℓ)
    → StopStep m m'
    → P m.server m.tasks m.phase
    → P m'.server m'.tasks m'.phase
StopStep-keeps P (call_stop e) k = k
StopStep-keeps P (cancel i e lt) k = k
StopStep-keeps P (close i e) k = k
StopStep-keeps P (join i e r) k = k
StopStep-keeps P (stop_ends e) k = k
StopStep-keeps P (return_canceled id r e) k = k
StopStep-keeps P (return_closed id r e n) k = k
