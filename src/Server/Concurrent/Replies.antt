-- ===== src/Server/Concurrent/Replies.antt =====
-- That a handler of internal/server/io_handler.go gets the reply that it waits for.
use redi_go.Prelude.{
  Bytes, ℕ, zero, suc, ◌+◌, ◌≤◌, ◌<◌, List, [], ◌∷◌, ◌++◌, append_assoc, ◌≡◌, refl, sym, ap, ◌∙◌,
  false, ◌⊎◌, inl, inr, arith, length, length-append, get_elem?-get_or, In, ◌==◌, if◌then◌else◌,
  ℕ_discrete,
}
use mathlib.Core.Path.{transport}
use redi_go.Resp.Command.{Command}
use redi_go.HashTable.Dict.{create_dict}
use redi_go.Core.KeyCommands.{Env}
use redi_go.Server.{Server}
use redi_go.Server.Concurrent.{
  Task, Phase, waiting, Machine, start, put, enqueue, execute_and_response, receive, Event,
  executed, Step, send_task, run_task, receive_reply, stop_step, StopStep-keeps, Steps, here, next,
}
use redi_go.Server.Concurrent.Consistent.{put_self, put_ne, start-AllQueued}
use redi_go.Server.Concurrent.Consistent.Keeps.{Steps-AllQueued}

-- How many tasks the worker runs, in one step and in all.
abbrev pub runs_in : ℕ → Event → ℕ
runs_in id (executed j h c res) = if j == id then 1 else 0
runs_in id _ = 0

abbrev pub executions : ℕ → List Event → ℕ
executions id [] = 0
executions id (e ∷ es) = runs_in id e + executions id es

-- The task of `h` and `c` is in the channel of the worker, behind `n` others.
abbrev pub Behind : (ℕ → List Task) → ℕ → ℕ → Command → ℕ → Type 0
Behind tasks id h c n =
    (front : List Task) × (back : List Task) × (tasks id
      ≡ front ++ record { handler = h; command = c } ∷ back)
    × (length front ≡ n)

In-split :
    (t : Task) (ts : List Task)
    → In t ts
    → (front : List Task) × (back : List Task) × (ts ≡ front ++ t ∷ back)
In-split t [] i = elim i [ ]
In-split t (u ∷ ts) (inl e) = ([], ts, rw e refl)
In-split t (u ∷ ts) (inr i) = let (front, back, e) = In-split t ts i in (u ∷ front, back, rw e refl)

tail_of : List Task → List Task
tail_of [] = []
tail_of (t ∷ ts) = ts

module _ (tasks : ℕ → List Task) (id h : ℕ) (c : Command) where
  -- Behind in the same channel, or in another one that changes.
  Behind-other :
      (j : ℕ) (ts : List Task) (n : ℕ)
      → ¬ (id ≡ j)
      → Behind tasks id h c n
      → Behind (put tasks j ts) id h c n
  Behind-other j ts n ne (front, back, e, l) = (front, back, put_ne tasks j id ts ne ∙ e, l)

  Behind-send :
      (j : ℕ) (t : Task) (n : ℕ)
      → Behind tasks id h c n
      → Behind (put tasks j (tasks j ++ t ∷ [])) id h c n
  Behind-send j t n (front, back, e, l) = elim (ℕ_discrete id j) [
    | yes same ↦ (
      front,
      back ++ t ∷ [],
      ap (put tasks j (tasks j ++ t ∷ [])) same
          ∙ put_self tasks j _
          ∙ ap (λ i. tasks i ++ t ∷ []) (sym same)
          ∙ ap (λ l. l ++ t ∷ []) e
          ∙ append_assoc front _ _,
      l,
    )
    | no ne ↦ Behind-other j _ n ne (front, back, e, l)
  ]

  -- The oldest task is taken out of the channel.
  Behind-run :
      (u : Task) (rest : List Task) (n : ℕ)
      → tasks id ≡ u ∷ rest
      → Behind tasks id h c (suc n)
      → Behind (put tasks id rest) id h c n
  unfolding tail_of
  Behind-run u rest n first ([], back, e, l) = let never : ⊥ = omega (arith, l) in elim never [ ]
  Behind-run u rest n first (v ∷ front, back, e, l) =
      (front, back, put_self tasks id rest ∙ ap tail_of (sym first ∙ e), omega (arith, l))

head_of : (t u : Task) (ts us : List Task) → t ∷ ts ≡ u ∷ us → t ≡ u
head_of t u ts us e = cc

runs_in_mine :
    (id j h : ℕ) (c : Command) (res : Bytes) → id ≡ j → runs_in id (executed j h c res) ≡ 1
runs_in_mine id j h c res e = ground arith

-- The worker runs the oldest task of its channel, `n` or fewer tasks before the one of `h`.
front_runs :
    (m : Machine) (id h : ℕ) (c : Command) (t : Task) (rest : List Task) (n : ℕ)
    → m.tasks id ≡ t ∷ rest
    → Behind m.tasks id h c n
    → ((n ≡ 0) × (t ≡ record { handler = h; command = c }))
      ⊎ ((k : ℕ) × (n ≡ suc k) × Behind (put m.tasks id rest) id h c k)
front_runs m id h c t rest zero e ([], back, e', l) = inl (refl, head_of _ _ _ _ (sym e ∙ e'))
front_runs m id h c t rest zero e (u ∷ front, back, e', l) =
    let never : ⊥ = omega (arith, l) in elim never [ ]
front_runs m id h c t rest (suc k) e b = inr (k, refl, Behind-run m.tasks id h c t rest k e b)

executed_as :
    (id j h : ℕ) (c : Command) (t : Task) (res : Bytes)
    → id ≡ j
    → t ≡ record { handler = h; command = c }
    → executed j t.handler t.command res ≡ executed id h c res
executed_as id j h c t res same is_t = rw (same, is_t) refl

runs_in_other :
    (id j h : ℕ) (c : Command) (res : Bytes) → ¬ (id ≡ j) → runs_in id (executed j h c res) ≡ 0
runs_in_other id j h c res ne = ground arith

-- A step runs the task, or leaves it in its channel, one place further if its worker runs another.
Step-Behind :
    {m m' : Machine} {e : Event} (id h : ℕ) (c : Command) (n : ℕ)
    → Step m e m'
    → Behind m.tasks id h c n
    → ((res : Bytes) × (e ≡ executed id h c res))
      ⊎ ((k : ℕ) × Behind m'.tasks id h c k × (runs_in id e + k ≤ n))
unfolding enqueue execute_and_response receive
Step-Behind {m} id h c n (send_task j i d intn is_ready to in_range room is_open) b =
    inr (n, Behind-send m.tasks id h c i _ n b, omega arith)
Step-Behind id h c n (receive_reply j d r e) b = inr (n, b, omega arith)
Step-Behind id h c n (stop_step st) b = inr (
  n,
  StopStep-keeps (λ (s : Server) (tasks : ℕ → List Task) (phase : ℕ → Phase). Behind tasks id h c n)
      st b,
  omega arith,
)
Step-Behind {m} id h c n (run_task j env d t ts runs e there) b = elim (ℕ_discrete id j) [
  | yes same ↦ elim (front_runs m id h c t ts n (ap m.tasks same ∙ e) b) [
    | inl (z, is_t) ↦ inl (_, executed_as id j h c t _ same is_t)
    | inr (k, is_suc, b') ↦ inr (
      k,
      transport (ap (λ i. Behind (put m.tasks i ts) id h c k) same) b',
      omega (
        arith,
        is_suc,
        runs_in_mine id j t.handler t.command (execute_and_response env m j d t ts).1 same,
      ),
    )
  ]
  | no ne ↦ inr (
    n,
    Behind-other m.tasks id h c j ts n ne b,
    omega
        (arith, runs_in_other id j t.handler t.command (execute_and_response env m j d t ts).1 ne),
  )
]

-- A task is run in every run in which its worker runs more tasks than stand before it.
Behind-executed :
    {m last : Machine} {es : List Event} (id h : ℕ) (c : Command) (n : ℕ)
    → Steps m es last
    → Behind m.tasks id h c n
    → n < executions id es
    → (res : Bytes) × In (executed id h c res) es
Behind-executed id h c n here b lt = let never : ⊥ = omega (arith, lt) in elim never [ ]
Behind-executed id h c n (next st rest) b lt = elim (Step-Behind id h c n st b) [
  | inl (res, e) ↦ (res, inl (sym e))
  | inr (k, b', le) ↦
      let (res, i) = Behind-executed id h c k rest b' (omega (arith, lt, le)) in (res, inr i)
]

front_task :
    (front : List Task) (u : Task) (back : List Task)
    → (t : Task) × (rest : List Task) × (front ++ u ∷ back ≡ t ∷ rest)
front_task [] u back = (u, back, refl)
front_task (v ∷ front) u back = (v, front ++ u ∷ back, refl)

-- In every run of a server, a handler that waits for the reply of a worker gets its command executed before the
-- worker has run all the tasks that its channel holds: in every further run in which it runs that many, the
-- execution of the handler's command is one of the events.
pub waiting-executed :
    {m last : Machine} {es later : List Event} (s : Server) (h id : ℕ) (c : Command)
    → Steps (start s) es m
    → m.phase h ≡ waiting id c
    → Steps m later last
    → length (m.tasks id) ≤ executions id later
    → (res : Bytes) × In (executed id h c res) later
waiting-executed {m} s h id c run waits go le =
    let k = Steps-AllQueued (start-AllQueued s) run in
    let (front, back, e) = In-split _ _ (k.kept h id c waits) in
    let size = length-append front (record { handler = h; command = c } ∷ back) in
    let whole : length (m.tasks id) ≡ length (front ++ record { handler = h; command = c } ∷ back) =
      ap length e in
    Behind-executed id h c (length front) go (front, back, e, refl) (omega (arith, le, size, whole))

-- As long as the worker of a handler that waits has not returned, it can run the oldest task of its channel.
pub waiting_worker_proceeds :
    {m : Machine} {es : List Event} (s : Server) (h id : ℕ) (c : Command) (env : Env)
    → Steps (start s) es m
    → m.phase h ≡ waiting id c
    → m.returned id ≡ false
    → (t : Task) × (res : Bytes) × (m' : Machine) × Step m (executed id t.handler t.command res) m'
waiting_worker_proceeds {m} s h id c env run waits runs =
    let k = Steps-AllQueued (start-AllQueued s) run in
    let there = k.kept h id c waits in
    let q = k.queued id _ there in
    let (front, back, e) = In-split _ _ there in
    let (t, rest, first) = front_task front _ back in
    (
      t,
      _,
      _,
      run_task id env _ t rest runs (e ∙ first)
          (get_elem?-get_or m.server.workers id create_dict q.in_range),
    )
