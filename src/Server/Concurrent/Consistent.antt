-- ===== src/Server/Concurrent/Consistent.antt =====
-- The tasks in the channels of internal/core/worker.go and the handlers of internal/server/io_handler.go that
-- wait for their replies.
pub mod Keeps
use redi_go.Prelude.{
  Bytes, ℕ, zero, ◌<◌, List, [], ◌∷◌, ◌++◌, map, append-nil, ◌≡◌, refl, sym, ap, ◌∙◌, Bool, true,
  false, inl, inr, arith, ◌==◌, if◌then◌else◌, ℕ_discrete, In, length, Distinct, In-append_left,
  In-append_right, In-append_cases, Distinct-insert, Bool-cases, ==_iff,
}
use mathlib.Core.Path.{transport}
use redi_go.Go.Result.{ok}
use redi_go.Resp.Command.{Command}
use redi_go.Server.{Server, worker_id, get_partition_id}
use redi_go.Server.Concurrent.{
  Task, Phase, ready, waiting, answered, Machine, start, put, enqueue, execute_and_response,
  receive, Event, Step, send_task, run_task, receive_reply, Steps,
}

pub put_self {ℓ} : {A : Type ℓ} (f : ℕ → A) (i : ℕ) (a : A) → put f i a i ≡ a
put_self f i a = ground arith

pub put_ne {ℓ} : {A : Type ℓ} (f : ℕ → A) (i j : ℕ) (a : A) → ¬ (j ≡ i) → put f i a j ≡ f j
put_ne f i j a ne = ground arith

abbrev pub handlers : List Task → List ℕ
handlers ts = map (λ t. t.handler) ts

-- The task is of the handler that waits for it, and is in the channel of a worker that its command may go to.
pub record IsQueued (s : Server) (phase : ℕ → Phase) (id : ℕ) (t : Task) : Type 0 where
  pub waits : phase t.handler ≡ waiting id t.command
  pub intn : ℕ → ℕ
  pub routed : worker_id intn s t.command.args ≡ ok id
  pub in_range : id < length s.workers

-- No channel has two tasks of a handler, and the task of each handler that waits is in its channel.
pub record IsConsistent (s : Server) (tasks : ℕ → List Task) (phase : ℕ → Phase) : Type 0 where
  pub queued : (id : ℕ) (t : Task) → In t (tasks id) → IsQueued s phase id t
  pub distinct : (id : ℕ) → Distinct (handlers (tasks id))
  pub kept :
      (h id : ℕ) (c : Command)
      → phase h ≡ waiting id c
      → In (record { handler = h; command = c }) (tasks id)

abbrev pub AllQueued : Machine → Type 0
AllQueued m = IsConsistent m.server m.tasks m.phase

pub start-AllQueued : (s : Server) → AllQueued (start s)
unfolding start
start-AllQueued s = record {
  queued = λ id t i. elim i [ ];
  distinct = λ id. tt;
  kept = λ h id c e. cc;
}

In-handlers : (t : Task) (ts : List Task) → In t ts → In t.handler (handlers ts)
In-handlers t [] i = i
In-handlers t (u ∷ ts) (inl e) = inl (ap (λ (v : Task). v.handler) e)
In-handlers t (u ∷ ts) (inr i) = inr (In-handlers t ts i)

handlers-In : (h : ℕ) (ts : List Task) → In h (handlers ts) → (t : Task) × (t.handler ≡ h) × In t ts
handlers-In h [] i = elim i [ ]
handlers-In h (u ∷ ts) (inl e) = (u, sym e, inl refl)
handlers-In h (u ∷ ts) (inr i) = let (t, e, j) = handlers-In h ts i in (t, e, inr j)

pub handlers-append : (xs ys : List Task) → handlers (xs ++ ys) ≡ handlers xs ++ handlers ys
handlers-append [] ys = refl
handlers-append (x ∷ xs) ys = rw (handlers-append xs ys) refl

-- A handler that does not wait has no task in any channel.
pub not_queued :
    {s : Server} {tasks : ℕ → List Task} {phase : ℕ → Phase} (h : ℕ)
    → IsConsistent s tasks phase
    → ((id : ℕ) (c : Command) → ¬ (phase h ≡ waiting id c))
    → (id : ℕ) → ¬ (In h (handlers (tasks id)))
not_queued {phase} h k idle id i =
    let (t, e, j) = handlers-In h _ i in
    idle id t.command (ap phase (sym e) ∙ (k.queued id t j).waits)

module _ (s : Server) (tasks : ℕ → List Task) (phase : ℕ → Phase) where
  -- The phase of a handler without tasks may change to one that does not wait.
  pub idle-IsConsistent :
      (h : ℕ) (p : Phase)
      → IsConsistent s tasks phase
      → ((id : ℕ) → ¬ (In h (handlers (tasks id))))
      → ((id : ℕ) (c : Command) → ¬ (p ≡ waiting id c))
      → IsConsistent s tasks (put phase h p)
  idle-IsConsistent h p k none_there idle = record {
    queued = λ id t i.
        let q = k.queued id t i in
        let apart : ¬ (t.handler ≡ h) = λ e.
          none_there id (transport (ap (λ x. In x (handlers (tasks id))) e) (In-handlers t _ i)) in
        record {
          waits = put_ne phase h t.handler p apart ∙ q.waits;
          intn = q.intn;
          routed = q.routed;
          in_range = q.in_range;
        };
    distinct = k.distinct;
    kept = λ j id c e. elim (ℕ_discrete j h) [
      | yes same ↦ absurd (idle id c (sym (put_self phase h p) ∙ ap (put phase h p) (sym same) ∙ e))
      | no ne ↦ k.kept j id c (sym (put_ne phase h j p ne) ∙ e)
    ];
  }
