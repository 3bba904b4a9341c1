-- ===== src/Server/Concurrent/Shutdown.antt =====
-- `Stop` of internal/server/server.go while I/O handlers still run: it cancels the context of a worker, closes its
-- channel and waits for its return, worker by worker, and stops the handlers after that.
use redi_go.Prelude.{
  ℕ, suc, ◌<◌, List, ◌≡◌, refl, sym, ap, ◌∙◌, Bool, true, false, inl, arith, In, ℕ_discrete,
}
use mathlib.Core.Path.{transport}
use redi_go.Go.Result.{panic}
use redi_go.Resp.Command.{Command}
use redi_go.Server.{Server}
use redi_go.Server.Concurrent.{
  Task, Phase, ready, waiting, answered, StopPhase, not_called, canceling, closing, joining,
  workers_stopped, Machine, start, put, send, enqueue, execute_and_response, receive, Event, Step,
  send_task, run_task, receive_reply, StopStep, call_stop, cancel, close, join, stop_ends,
  return_canceled, return_closed, stop_step, StopStep-keeps, Steps, here, next,
}
use redi_go.Server.Concurrent.Consistent.{put_self, put_ne, AllQueued, start-AllQueued}
use redi_go.Server.Concurrent.Consistent.Keeps.{Step-AllQueued, Steps-AllQueued}

put-true : (f : ℕ → Bool) (i j : ℕ) → f j ≡ true → put f i true j ≡ true
put-true f i j e = ground arith

returned-StopStep :
    {m m' : Machine} (id : ℕ) → StopStep m m' → m.returned id ≡ true → m'.returned id ≡ true
returned-StopStep id (call_stop e) r = r
returned-StopStep id (cancel i e lt) r = r
returned-StopStep id (close i e) r = r
returned-StopStep id (join i e there) r = r
returned-StopStep id (stop_ends e) r = r
returned-StopStep {m} id (return_canceled i runs e) r = put-true m.returned i id r
returned-StopStep {m} id (return_closed i runs e n) r = put-true m.returned i id r

abbrev IsLost : Machine → ℕ → ℕ → Command → Type 0
IsLost m id h c = (m.returned id ≡ true) × (m.phase h ≡ waiting id c)

Step-IsLost :
    {m m' : Machine} {e : Event} (id h : ℕ) (c : Command)
    → AllQueued m
    → Step m e m'
    → IsLost m id h c
    → IsLost m' id h c
unfolding enqueue execute_and_response receive
Step-IsLost {m} id h c k (send_task j i d intn is_ready to in_range room is_open) (r, w) =
    let ne : ¬ (h ≡ j) =
      λ same. let both : ready ≡ waiting id c = sym is_ready ∙ ap m.phase (sym same) ∙ w in cc in
    (r, put_ne m.phase j h _ ne ∙ w)
Step-IsLost {m} id h c k (run_task j env d t ts runs e there) (r, w) =
    let waits = (k.queued j t (transport (ap (In t) (sym e)) (inl refl))).waits in
    let ne : ¬ (h ≡ t.handler) = λ same.
      let both : waiting j t.command ≡ waiting id c = sym waits ∙ ap m.phase (sym same) ∙ w in
      let is_id : j ≡ id = cc in
      let again : false ≡ true = sym runs ∙ ap m.returned is_id ∙ r in cc in
    (r, put_ne m.phase t.handler h _ ne ∙ w)
Step-IsLost {m} id h c k (receive_reply j d res is_answered) (r, w) =
    let ne : ¬ (h ≡ j) = λ same.
      let both : answered d res ≡ waiting id c = sym is_answered ∙ ap m.phase (sym same) ∙ w in
      cc in
    (r, put_ne m.phase j h _ ne ∙ w)
Step-IsLost {m} id h c k (stop_step st) (r, w) = (
  returned-StopStep id st r,
  StopStep-keeps
      (λ (s : Server) (tasks : ℕ → List Task) (phase : ℕ → Phase). phase h ≡ waiting id c) st w,
)

Steps-IsLost :
    {m last : Machine} {later : List Event} (id h : ℕ) (c : Command)
    → AllQueued m
    → Steps m later last
    → IsLost m id h c
    → IsLost last id h c
Steps-IsLost id h c k here l = l
Steps-IsLost id h c k (next st rest) l =
    Steps-IsLost id h c (Step-AllQueued k st) rest (Step-IsLost id h c k st l)

-- In every run of a server, a handler that waits for a worker that has returned waits for ever: it is at the same
-- receive after every further run, whatever `Stop` and the other goroutines do.
pub returned_never_answers :
    {m last : Machine} {es later : List Event} (s : Server) (h id : ℕ) (c : Command)
    → Steps (start s) es m
    → m.returned id ≡ true
    → m.phase h ≡ waiting id c
    → Steps m later last
    → last.phase h ≡ waiting id c
returned_never_answers s h id c run r w go =
    (Steps-IsLost id h c (Steps-AllQueued (start-AllQueued s) run) go (r, w)).1

-- The workers whose channels `Stop` has closed are those below this number.
abbrev closed_below : ℕ → StopPhase → ℕ
closed_below n not_called = 0
closed_below n (canceling i) = i
closed_below n (closing i) = i
closed_below n (joining i) = suc i
closed_below n workers_stopped = n

record HasClosed (m : Machine) : Type 0 where
  all : (i : ℕ) → i < closed_below m.server.num_workers m.stop → m.closed i ≡ true

StopStep-HasClosed : {m m' : Machine} → StopStep m m' → HasClosed m → HasClosed m'
StopStep-HasClosed {m} (call_stop e) k = record {
  all = λ i lt. let never : ⊥ = omega (arith, lt) in elim never [ ];
}
StopStep-HasClosed {m} (cancel j e lt) k = record {
  all = λ i below.
      k.all i (transport (ap (λ p. i < closed_below m.server.num_workers p) (sym e)) below);
}
StopStep-HasClosed {m} (close j e) k = record {
  all = λ i below. elim (ℕ_discrete i j) [
    | yes same ↦ ap (put m.closed j true) same ∙ put_self m.closed j true
    | no ne ↦
        let lt : i < j = omega (arith, below, ne) in
        put_ne m.closed j i true ne
        ∙ k.all i (transport (ap (λ p. i < closed_below m.server.num_workers p) (sym e)) lt)
  ];
}
StopStep-HasClosed {m} (join j e r) k = record {
  all = λ i below.
      k.all i (transport (ap (λ p. i < closed_below m.server.num_workers p) (sym e)) below);
}
StopStep-HasClosed {m} (stop_ends e) k = record {
  all = λ i below.
      k.all i (transport (ap (λ p. i < closed_below m.server.num_workers p) (sym e)) below);
}
StopStep-HasClosed (return_canceled id runs e) k = record { all = k.all }
StopStep-HasClosed (return_closed id runs e n) k = record { all = k.all }

Step-HasClosed : {m m' : Machine} {e : Event} → Step m e m' → HasClosed m → HasClosed m'
unfolding enqueue execute_and_response receive
Step-HasClosed (send_task h id c intn is_ready to in_range room is_open) k = record { all = k.all }
Step-HasClosed (run_task id env d t rest runs e there) k = record { all = k.all }
Step-HasClosed (receive_reply h c res e) k = record { all = k.all }
Step-HasClosed (stop_step st) k = StopStep-HasClosed st k

Steps-HasClosed :
    {m last : Machine} {es : List Event} → Steps m es last → HasClosed m → HasClosed last
Steps-HasClosed here k = k
Steps-HasClosed (next st rest) k = Steps-HasClosed rest (Step-HasClosed st k)

-- In every run of a server, when `Stop` has stopped the workers and has yet to stop the handlers, a command that a
-- handler sends to any worker panics.
pub send-workers_stopped :
    {m : Machine} {es : List Event} (s : Server) (h id : ℕ) (c : Command)
    → Steps (start s) es m
    → m.stop ≡ workers_stopped
    → id < m.server.num_workers
    → send m h id c ≡ panic
unfolding send start
send-workers_stopped {m} s h id c run stopped lt =
    let none_yet : HasClosed (start s) = record {
      all = λ i below. let never : ⊥ = omega (arith, below) in elim never [ ];
    } in
    let k = Steps-HasClosed run none_yet in
    rw (k.all id (transport (ap (λ p. id < closed_below m.server.num_workers p) (sym stopped)) lt))
      refl
