-- ===== src/Server/Concurrent/Sequential.antt =====
-- A run of the goroutines of internal/server against dispatches one after the other.
use redi_go.Prelude.{
  Bytes, ℕ, List, [], ◌∷◌, ◌≡◌, refl, sym, ap, some, inl, In, get_elem?, ℕ_discrete,
}
use mathlib.Core.Path.{transport}
use redi_go.Go.Result.{ok}
use redi_go.Resp.Command.{Command}
use redi_go.HashTable.Dict.{Dict}
use redi_go.Core.KeyCommands.{Env}
use redi_go.Server.{Server, worker_id, dispatch}
use redi_go.Server.Concurrent.{
  Task, Phase, ready, waiting, answered, Machine, start, put, enqueue, execute_and_response,
  receive, Event, sent, executed, received, stop_moved, Step, send_task, run_task, receive_reply,
  StopStep, stop_step, StopStep-keeps, Steps, here, next,
}
use redi_go.Server.Concurrent.Consistent.{put_self, put_ne, AllQueued, start-AllQueued}
use redi_go.Server.Concurrent.Consistent.Keeps.{Step-AllQueued}

-- The commands that were executed, dispatched one after the other with the replies that they got, take one
-- state of the server to the other.
abbrev pub Dispatched : Server → List Event → Server → Type 0
Dispatched s [] s' = s ≡ s'
Dispatched s (sent id h c ∷ es) s' = Dispatched s es s'
Dispatched s (executed id h c res ∷ es) s' =
    (env : Env) × (intn : ℕ → ℕ) × (s1 : Server) × (dispatch env intn s c ≡ ok (s1, res))
    × Dispatched s1 es s'
Dispatched s (received h c res ∷ es) s' = Dispatched s es s'
Dispatched s (stop_moved ∷ es) s' = Dispatched s es s'

-- What one handler sees: it sends a command, which is executed then, and receives the reply of that execution,
-- before it sends the next one.
pub data Calls (h : ℕ) : Phase → List Event → Phase → Type 0 where
  no_event : {p : Phase} → Calls h p [] p
  send_call :
      {es : List Event} {q : Phase} (id : ℕ) (c : Command)
      → Calls h (waiting id c) es q
      → Calls h ready (sent id h c ∷ es) q
  execute_call :
      {es : List Event} {q : Phase} (id : ℕ) (c : Command) (res : Bytes)
      → Calls h (answered c res) es q
      → Calls h (waiting id c) (executed id h c res ∷ es) q
  receive_call :
      {es : List Event} {q : Phase} (c : Command) (res : Bytes)
      → Calls h ready es q
      → Calls h (answered c res) (received h c res ∷ es) q
  of_another_sent :
      {p q : Phase} {es : List Event} (id j : ℕ) (c : Command)
      → ¬ (h ≡ j)
      → Calls h p es q
      → Calls h p (sent id j c ∷ es) q
  of_another_executed :
      {p q : Phase} {es : List Event} (id j : ℕ) (c : Command) (res : Bytes)
      → ¬ (h ≡ j)
      → Calls h p es q
      → Calls h p (executed id j c res ∷ es) q
  of_another_received :
      {p q : Phase} {es : List Event} (j : ℕ) (c : Command) (res : Bytes)
      → ¬ (h ≡ j)
      → Calls h p es q
      → Calls h p (received j c res ∷ es) q
  of_stop : {p q : Phase} {es : List Event} → Calls h p es q → Calls h p (stop_moved ∷ es) q

-- A worker that runs the oldest task of its channel does what the dispatch of its command does.
run-dispatch :
    (m : Machine) (id : ℕ) (env : Env) (d : Dict) (t : Task) (rest : List Task) (intn : ℕ → ℕ)
    → worker_id intn m.server t.command.args ≡ ok id
    → get_elem? m.server.workers id ≡ some d
    → (let r = execute_and_response env m id d t rest in
        dispatch env intn m.server t.command ≡ ok (r.0.server, r.1))
unfolding dispatch execute_and_response
run-dispatch m id env d t rest intn to there = rw (to, there) refl

Dispatched-stop :
    {m m' : Machine} (es : List Event) (s' : Server)
    → StopStep m m'
    → Dispatched m'.server es s'
    → Dispatched m.server es s'
Dispatched-stop {m} es s' st =
    StopStep-keeps
      (λ (s : Server) (tasks : ℕ → List Task) (phase : ℕ → Phase).
        Dispatched s es s' → Dispatched m.server es s')
      st (λ d. d)

Calls-stop :
    {m m' : Machine} (h : ℕ) (es : List Event) (q : Phase)
    → StopStep m m'
    → Calls h (m'.phase h) es q
    → Calls h (m.phase h) es q
Calls-stop {m} h es q st =
    StopStep-keeps
      (λ (s : Server) (tasks : ℕ → List Task) (phase : ℕ → Phase).
        Calls h (phase h) es q → Calls h (m.phase h) es q)
      st (λ d. d)

Step-Dispatched :
    {m m' : Machine} {e : Event} (es : List Event) (s' : Server)
    → AllQueued m
    → Step m e m'
    → Dispatched m'.server es s'
    → Dispatched m.server (e ∷ es) s'
unfolding enqueue receive
Step-Dispatched es s' k (send_task h id c intn is_ready to in_range room is_open) rest = rest
Step-Dispatched {m} es s' k (run_task id env d t ts runs e there) rest =
    let q = k.queued id t (transport (ap (In t) (sym e)) (inl refl)) in
    (env, q.intn, _, run-dispatch m id env d t ts q.intn q.routed there, rest)
Step-Dispatched es s' k (receive_reply h c res e) rest = rest
Step-Dispatched es s' k (stop_step st) rest = Dispatched-stop es s' st rest

Steps-Dispatched :
    {m last : Machine} {es : List Event}
    → AllQueued m
    → Steps m es last
    → Dispatched m.server es last.server
Steps-Dispatched k here = refl
Steps-Dispatched {m} {last} k (next {es} st rest) =
    Step-Dispatched es last.server k st (Steps-Dispatched (Step-AllQueued k st) rest)

-- An event of a handler is the next one that it sees, from the phase where it was.
seen_by :
    (h j : ℕ) (phase : ℕ → Phase) (p p' q : Phase) (e : Event) (es : List Event)
    → phase j ≡ p
    → (Calls j p' es q → Calls j p (e ∷ es) q)
    → (¬ (h ≡ j) → Calls h (phase h) es q → Calls h (phase h) (e ∷ es) q)
    → Calls h (put phase j p' h) es q
    → Calls h (phase h) (e ∷ es) q
seen_by h j phase p p' q e es was mine other rest = elim (ℕ_discrete h j) [
  | yes same ↦
      let now : Calls j p' es q =
        transport (ap (λ (x : Phase). Calls j x es q) (put_self phase j p'))
          (transport (ap (λ i. Calls i (put phase j p' i) es q) same) rest) in
      transport (ap (λ i. Calls i (phase i) (e ∷ es) q) (sym same))
        (transport (ap (λ (x : Phase). Calls j x (e ∷ es) q) (sym was)) (mine now))
  | no ne ↦ other ne (transport (ap (λ (x : Phase). Calls h x es q) (put_ne phase j h p' ne)) rest)
]

Step-Calls :
    {m m' : Machine} {e : Event} (h : ℕ) (es : List Event) (q : Phase)
    → AllQueued m
    → Step m e m'
    → Calls h (m'.phase h) es q
    → Calls h (m.phase h) (e ∷ es) q
unfolding enqueue execute_and_response receive
Step-Calls {m} h es q k (send_task j id c intn is_ready to in_range room is_open) rest =
    seen_by h j m.phase ready (waiting id c) q (sent id j c) es is_ready (send_call id c)
      (of_another_sent id j c) rest
Step-Calls {m} h es q k (run_task id env d t ts runs e there) rest =
    let was = (k.queued id t (transport (ap (In t) (sym e)) (inl refl))).waits in
    let res = (execute_and_response env m id d t ts).1 in
    seen_by h t.handler m.phase (waiting id t.command) (answered t.command res) q
      (executed id t.handler t.command res) es was (execute_call id t.command res)
      (of_another_executed id t.handler t.command res) rest
Step-Calls {m} h es q k (receive_reply j c res was) rest =
    seen_by h j m.phase (answered c res) ready q (received j c res) es was (receive_call c res)
      (of_another_received j c res) rest
Step-Calls h es q k (stop_step st) rest = of_stop (Calls-stop h es q st rest)

Steps-Calls :
    {m last : Machine} {es : List Event} (h : ℕ)
    → AllQueued m
    → Steps m es last
    → Calls h (m.phase h) es (last.phase h)
Steps-Calls h k here = no_event
Steps-Calls {m} {last} h k (next {es} st rest) =
    Step-Calls h es (last.phase h) k st (Steps-Calls h (Step-AllQueued k st) rest)

-- However the goroutines of a server interleave, what is executed is a sequence of dispatches that takes the
-- state at the start to the last one, with the replies that they return; and each handler sends a command,
-- which is executed once after that, and receives the reply of that execution before it sends the next one.
pub Steps-linearizable :
    {m' : Machine} {es : List Event} (s : Server) (h : ℕ)
    → Steps (start s) es m'
    → Dispatched s es m'.server × Calls h ready es (m'.phase h)
unfolding start
Steps-linearizable s h run =
    let k = start-AllQueued s in (Steps-Dispatched k run, Steps-Calls h k run)
