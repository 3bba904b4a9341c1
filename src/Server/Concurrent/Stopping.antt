-- ===== src/Server/Concurrent/Stopping.antt =====
-- The end of `Stop` of internal/server/server.go: it waits for each worker, and each worker returns.
use redi_go.Prelude.{
  ℕ, zero, suc, ◌+◌, ◌-◌, ◌*◌, ◌<◌, ◌≤◌, List, ◌≡◌, refl, ap, ◌∙◌, Bool, true, Bool-cases, inl, inr,
  arith,
}
use mathlib.Core.Path.{transport}
use redi_go.Server.{Server}
use redi_go.Server.Concurrent.{
  StopPhase, not_called, canceling, closing, joining, workers_stopped, Machine, start, enqueue,
  execute_and_response, receive, Event, Step, send_task, run_task, receive_reply, StopStep,
  call_stop, cancel, close, join, stop_ends, return_canceled, return_closed, stop_step, Steps, here,
  next,
}
use redi_go.Server.Concurrent.Consistent.{put_self}

-- The worker at which `Stop` stands is one of the server's, and its context is canceled once `Stop` closes its channel.
abbrev Stands : ℕ → (ℕ → Bool) → StopPhase → Type 0
Stands n canceled not_called = Unit {0}
Stands n canceled (canceling i) = i ≤ n
Stands n canceled (closing i) = (i < n) × (canceled i ≡ true)
Stands n canceled (joining i) = (i < n) × (canceled i ≡ true)
Stands n canceled workers_stopped = Unit {0}

abbrev HasStop : Machine → Type 0
HasStop m = Stands m.server.num_workers m.canceled m.stop

at :
    (m : Machine) (p : StopPhase)
    → m.stop ≡ p
    → HasStop m
    → Stands m.server.num_workers m.canceled p
at m p e k = transport (ap (Stands m.server.num_workers m.canceled) e) k

StopStep-HasStop : {m m' : Machine} → StopStep m m' → HasStop m → HasStop m'
StopStep-HasStop (call_stop e) k = omega arith
StopStep-HasStop {m} (cancel i e lt) k = (lt, put_self m.canceled i true)
StopStep-HasStop {m} (close i e) k = at m (closing i) e k
StopStep-HasStop {m} (join i e r) k = let (lt, c) = at m (joining i) e k in omega (arith, lt)
StopStep-HasStop (stop_ends e) k = tt
StopStep-HasStop (return_canceled id runs e) k = k
StopStep-HasStop (return_closed id runs e n) k = k

Step-HasStop : {m m' : Machine} {e : Event} → Step m e m' → HasStop m → HasStop m'
unfolding enqueue execute_and_response receive
Step-HasStop (send_task h id c intn is_ready to in_range room is_open) k = k
Step-HasStop (run_task id env d t rest runs e there) k = k
Step-HasStop (receive_reply h c res e) k = k
Step-HasStop (stop_step st) k = StopStep-HasStop st k

Steps-HasStop : {m last : Machine} {es : List Event} → Steps m es last → HasStop m → HasStop last
Steps-HasStop here k = k
Steps-HasStop (next st rest) k = Steps-HasStop rest (Step-HasStop st k)

-- So many steps of `Stop` and of returning workers, and no others.
pub data StopSteps : ℕ → Machine → Machine → Type 0 where
  no_step : {m : Machine} → StopSteps 0 m m
  then_stop :
      {k : ℕ} {m m' m'' : Machine} → StopStep m m' → StopSteps k m' m'' → StopSteps (suc k) m m''

-- `Stop` can end within `k` steps.
abbrev pub EndsWithin : ℕ → Machine → Type 0
EndsWithin k m =
    (j : ℕ) × (last : Machine) × (j ≤ k) × StopSteps j m last × (last.stop ≡ workers_stopped)

one_more : {m m' : Machine} (k n : ℕ) → StopStep m m' → k < n → EndsWithin k m' → EndsWithin n m
one_more k n st lt (j, last, le, run, e) = (suc j, last, omega (arith, le, lt), then_stop st run, e)

more_time : {m : Machine} (k n : ℕ) → k ≤ n → EndsWithin k m → EndsWithin n m
more_time k n le (j, last, le', run, e) = (j, last, omega (arith, le, le'), run, e)

-- A worker for which `Stop` waits returns, if it has not yet, and `Stop` goes on to the next one.
join_then :
    (n : ℕ) (m : Machine) (i : ℕ)
    → m.stop ≡ joining i
    → m.canceled i ≡ true
    → ((m' : Machine) → m'.stop ≡ canceling (suc i) → m'.server ≡ m.server → EndsWithin n m')
    → EndsWithin (n + 2) m
join_then n m i e c go = elim (Bool-cases (m.returned i)) [
  | inl there ↦ one_more n (n + 2) (join i e there) (omega arith) (go _ refl refl)
  | inr runs ↦
      one_more (n + 1) (n + 2) (return_canceled i runs c) (omega arith)
        (one_more n (n + 1) (join i e (put_self m.returned i true)) (omega arith) (go _ refl refl))
]

-- `Stop` ends within the steps for the `k` workers that are left.
canceling_ends :
    (k : ℕ) (m : Machine) (i : ℕ)
    → m.stop ≡ canceling i
    → i + k ≡ m.server.num_workers
    → EndsWithin (4 * k + 1) m
canceling_ends zero m i e sum =
    let all : i ≡ m.server.num_workers = omega (arith, sum) in
    one_more 0 (4 * 0 + 1) (stop_ends (e ∙ ap canceling all)) (omega arith)
      (0, _, omega arith, no_step, refl)
canceling_ends (suc k) m i e sum =
    one_more (4 * k + 4) (4 * suc k + 1) (cancel i e (omega (arith, sum))) (omega arith) (
      one_more (4 * k + 3) (4 * k + 4) (close i refl) (omega arith) (
        more_time (4 * k + 1 + 2) (4 * k + 3) (omega arith) (
          join_then (4 * k + 1) _ i refl (put_self m.canceled i true) (λ m' at_next same.
            canceling_ends k m' (suc i) at_next (
              let n : m'.server.num_workers ≡ m.server.num_workers =
                ap (λ (s : Server). s.num_workers) same in
              omega (arith, sum, n))))))

-- Once `Stop` has been called, wherever the goroutines stand in a run of the server, it can end within four steps for each
-- worker and one more, by its own steps and the returns of the workers for which it waits, whatever the
-- channels hold: no handler is needed.
pub called-workers_stopped :
    {m : Machine} {es : List Event} (s : Server)
    → Steps (start s) es m
    → ¬ (m.stop ≡ not_called)
    → EndsWithin (4 * m.server.num_workers + 1) m
unfolding start
called-workers_stopped {m} s run called =
    let k = Steps-HasStop run tt in ends_at m m.stop refl k (λ e. called e)
  where
    ends_at :
        (m : Machine) (p : StopPhase)
        → m.stop ≡ p
        → HasStop m
        → ¬ (p ≡ not_called)
        → EndsWithin (4 * m.server.num_workers + 1) m
    ends_at m not_called e k called = absurd (called refl)
    ends_at m workers_stopped e k called = (0, m, omega arith, no_step, e)
    ends_at m (canceling i) e k called =
        let le = at m (canceling i) e k in
        more_time (4 * (m.server.num_workers - i) + 1) _ (omega (arith, le))
          (canceling_ends (m.server.num_workers - i) m i e (omega (arith, le)))
    ends_at m (closing i) e k called =
        let (lt, c) = at m (closing i) e k in
        let j = m.server.num_workers - suc i in
        one_more (4 * j + 1 + 2) _ (close i e) (omega (arith, lt)) (
          join_then (4 * j + 1) _ i refl c (λ m' at_next same. canceling_ends j m' (suc i) at_next (
            let n : m'.server.num_workers ≡ m.server.num_workers =
              ap (λ (s : Server). s.num_workers) same in
            omega (arith, lt, n))))
    ends_at m (joining i) e k called =
        let (lt, c) = at m (joining i) e k in
        let j = m.server.num_workers - suc i in
        more_time (4 * j + 1 + 2) _ (omega (arith, lt)) (
          join_then (4 * j + 1) m i e c (λ m' at_next same. canceling_ends j m' (suc i) at_next (
            let n : m'.server.num_workers ≡ m.server.num_workers =
              ap (λ (s : Server). s.num_workers) same in
            omega (arith, lt, n))))
