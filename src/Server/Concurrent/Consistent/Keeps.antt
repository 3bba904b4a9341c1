-- ===== src/Server/Concurrent/Consistent/Keeps.antt =====
-- Each step of the goroutines on the tasks in the channels and the handlers that wait.
use redi_go.Prelude.{
  Bytes, ℕ, ◌<◌, List, [], ◌∷◌, ◌++◌, append-nil, ◌≡◌, refl, sym, ap, ◌∙◌, ◌⊎◌, inl, inr, arith,
  ℕ_discrete, In, length, length-set, Distinct, In-append_left, In-append_right, In-append_cases,
  Distinct-insert,
}
use mathlib.Core.Path.{transport}
use redi_go.Go.Result.{ok}
use redi_go.Resp.Command.{Command}
use redi_go.Server.{Server, worker_id, get_partition_id}
use redi_go.Server.Concurrent.{
  Task, Phase, ready, waiting, answered, Machine, put, enqueue, execute_and_response, receive,
  Event, Step, send_task, run_task, receive_reply, stop_step, StopStep-keeps, Steps, here, next,
}
use redi_go.Server.Concurrent.Consistent.{
  put_self, put_ne, handlers, IsQueued, IsConsistent, AllQueued, In-handlers, handlers-append,
  not_queued, idle-IsConsistent,
}

worker_id-num_workers :
    (intn : ℕ → ℕ) (s s' : Server) (args : List Bytes)
    → s.num_workers ≡ s'.num_workers
    → worker_id intn s args ≡ worker_id intn s' args
unfolding worker_id get_partition_id
worker_id-num_workers intn s s' [] e = rw e refl
worker_id-num_workers intn s s' (key ∷ args) e = rw e refl

pub server-IsConsistent :
    {s s' : Server} {tasks : ℕ → List Task} {phase : ℕ → Phase}
    → s.num_workers ≡ s'.num_workers
    → length s.workers ≡ length s'.workers
    → IsConsistent s tasks phase
    → IsConsistent s' tasks phase
server-IsConsistent {s} {s'} e same_length k = record {
  queued = λ id t i.
      let q = k.queued id t i in
      record {
        waits = q.waits;
        intn = q.intn;
        routed = sym (worker_id-num_workers q.intn s s' _ e) ∙ q.routed;
        in_range = omega (arith, q.in_range, same_length);
      };
  distinct = k.distinct;
  kept = k.kept;
}

module _ (tasks : ℕ → List Task) (id : ℕ) (ts : List Task) where
  In-put_cases :
      (t : Task) (j : ℕ)
      → In t (put tasks id ts j)
      → ((j ≡ id) × In t ts) ⊎ (¬ (j ≡ id) × In t (tasks j))
  In-put_cases t j i = elim (ℕ_discrete j id) [
    | yes e ↦ inl (e, transport (ap (In t) (ap (put tasks id ts) e ∙ put_self tasks id ts)) i)
    | no ne ↦ inr (ne, transport (ap (In t) (put_ne tasks id j ts ne)) i)
  ]

  In-put :
      (t : Task) (j : ℕ)
      → (j ≡ id → In t ts)
      → (¬ (j ≡ id) → In t (tasks j))
      → In t (put tasks id ts j)
  In-put t j same other = elim (ℕ_discrete j id) [
    | yes e ↦ transport (ap (In t) (sym (ap (put tasks id ts) e ∙ put_self tasks id ts))) (same e)
    | no ne ↦ transport (ap (In t) (sym (put_ne tasks id j ts ne))) (other ne)
  ]

  Distinct-put :
      ((j : ℕ) → Distinct (handlers (tasks j)))
      → Distinct (handlers ts)
      → (j : ℕ) → Distinct (handlers (put tasks id ts j))
  Distinct-put d new j = elim (ℕ_discrete j id) [
    | yes e ↦
        transport
          (ap (λ l. Distinct (handlers l)) (sym (ap (put tasks id ts) e ∙ put_self tasks id ts)))
          new
    | no ne ↦ transport (ap (λ l. Distinct (handlers l)) (sym (put_ne tasks id j ts ne))) (d j)
  ]

module _ (s : Server) (tasks : ℕ → List Task) (phase : ℕ → Phase) where
  -- The oldest task of a channel is taken out, and its handler gets its reply.
  pub run-IsConsistent :
      (id : ℕ) (t : Task) (rest : List Task) (res : Bytes)
      → tasks id ≡ t ∷ rest
      → IsConsistent s tasks phase
      → IsConsistent s (put tasks id rest) (put phase t.handler (answered t.command res))
  run-IsConsistent id t rest res e k =
      let p = answered t.command res in
      let first : In t (tasks id) = transport (ap (In t) (sym e)) (inl refl) in
      let waits = (k.queued id t first).waits in
      let d : Distinct (handlers (t ∷ rest)) =
        transport (ap (λ l. Distinct (handlers l)) e) (k.distinct id) in
      let other : (j : ℕ) (u : Task)
          → In u (put tasks id rest j)
          → In u (tasks j) × ¬ (u.handler ≡ t.handler) =
        λ j u i. elim (In-put_cases tasks id rest u j i) [
          | inl h ↦ (
            transport (ap (λ l. In u l) (sym e ∙ ap tasks (sym h.0))) (inr h.1),
            λ same. d.0 (transport (ap (λ x. In x (handlers rest)) same) (In-handlers u rest h.1)),
          )
          | inr h ↦ (
            h.1,
            λ same.
                let both : waiting j u.command ≡ waiting id t.command =
                  sym (k.queued j u h.1).waits ∙ ap phase same ∙ waits in
                h.0 cc,
          )
        ] in
      record {
        queued = λ j u i.
            let (was, ne) = other j u i in
            let q = k.queued j u was in
            record {
              waits = put_ne phase t.handler u.handler p ne ∙ q.waits;
              intn = q.intn;
              routed = q.routed;
              in_range = q.in_range;
            };
        distinct = Distinct-put tasks id rest k.distinct d.1;
        kept = λ h j c now. elim (ℕ_discrete h t.handler) [
          | yes same ↦
              let both : p ≡ waiting j c =
                sym (put_self phase t.handler p) ∙ ap (put phase t.handler p) (sym same) ∙ now in
              absurd (cc)
          | no ne ↦
              let was = k.kept h j c (sym (put_ne phase t.handler h p ne) ∙ now) in
              In-put tasks id rest (record { handler = h; command = c }) j
                (λ same.
                  elim (transport
                    (ap (λ l. In (record { handler = h; command = c }) l) (ap tasks same ∙ e))
                    was) [
                      | inl first ↦ absurd (ne (ap (λ (u : Task). u.handler) first))
                      | inr i ↦ i
                    ])
                (λ apart. was)
        ];
      }

  -- A handler that does not wait sends a task, and waits.
  pub send-IsConsistent :
      (h id : ℕ) (c : Command) (intn : ℕ → ℕ)
      → worker_id intn s c.args ≡ ok id
      → id < length s.workers
      → ((j : ℕ) (c : Command) → ¬ (phase h ≡ waiting j c))
      → IsConsistent s tasks phase
      → IsConsistent s
          (put tasks id (tasks id ++ record { handler = h; command = c } ∷ []))
          (put phase h (waiting id c))
  send-IsConsistent h id c intn to in_range idle k =
      let t : Task = record { handler = h; command = c } in
      let new : List Task = tasks id ++ t ∷ [] in
      let absent = not_queued h k idle in
      let old : (j : ℕ) (u : Task) → In u (tasks j) → IsQueued s (put phase h (waiting id c)) j u =
        λ j u i.
          let q = k.queued j u i in
          let ne : ¬ (u.handler ≡ h) =
            λ e. absent j (transport (ap (λ x. In x (handlers (tasks j))) e) (In-handlers u _ i)) in
          record {
            waits = put_ne phase h u.handler (waiting id c) ne ∙ q.waits;
            intn = q.intn;
            routed = q.routed;
            in_range = q.in_range;
          } in
      let fresh : IsQueued s (put phase h (waiting id c)) id t = record {
        waits = put_self phase h (waiting id c);
        intn = intn;
        routed = to;
        in_range = in_range;
      } in
      record {
        queued = λ j u i. elim (In-put_cases tasks id new u j i) [
          | inl (e, there) ↦ elim (In-append_cases u (tasks id) (t ∷ []) there) [
            | inl was ↦
                transport (ap (λ n. IsQueued s (put phase h (waiting id c)) n u) (sym e))
                  (old id u was)
            | inr (inl is_t) ↦
                transport (ap (λ n. IsQueued s (put phase h (waiting id c)) n u) (sym e))
                  (transport (ap (IsQueued s (put phase h (waiting id c)) id) (sym is_t)) fresh)
            | inr (inr i) ↦ elim i [ ]
          ]
          | inr (ne, was) ↦ old j u was
        ];
        distinct = Distinct-put tasks id new k.distinct (
            transport (ap Distinct (sym (handlers-append (tasks id) (t ∷ [])))) (
              Distinct-insert h (handlers (tasks id)) []
                (transport (ap Distinct (sym (append-nil (handlers (tasks id))))) (k.distinct id))
                (transport (ap (λ l. ¬ (In h l)) (sym (append-nil (handlers (tasks id)))))
                  (absent id))));
        kept = λ j i d now. elim (ℕ_discrete j h) [
          | yes same ↦
              let both : waiting id c ≡ waiting i d =
                sym (put_self phase h (waiting id c))
                ∙ ap (put phase h (waiting id c)) (sym same)
                ∙ now in
              let is_id : id ≡ i = cc in
              let is_c : c ≡ d = cc in
              let is_t : record { handler = j; command = d } ≡ t = rw (same, is_c) refl in
              transport
                (ap (λ l. In (record { handler = j; command = d }) l)
                  (sym (ap (put tasks id new) (sym is_id) ∙ put_self tasks id new)))
                (In-append_right _ (tasks id) (t ∷ []) (inl is_t))
          | no ne ↦
              let was = k.kept j i d (sym (put_ne phase h j (waiting id c) ne) ∙ now) in
              In-put tasks id new (record { handler = j; command = d }) i
                (λ same. In-append_left _ (tasks id) (t ∷ []) (
                  transport (ap (λ n. In (record { handler = j; command = d }) (tasks n)) same)
                    was))
                (λ apart. was)
        ];
      }

-- A step of any goroutine leaves the tasks and the handlers consistent.
pub Step-AllQueued : {m m' : Machine} {e : Event} → AllQueued m → Step m e m' → AllQueued m'
unfolding enqueue execute_and_response receive
Step-AllQueued {m} k (send_task h id c intn is_ready to in_range room is_open) =
    send-IsConsistent m.server m.tasks m.phase h id c intn to in_range (λ j d w. cc) k
Step-AllQueued {m} k (run_task id env d t rest runs e there) =
    server-IsConsistent refl (sym (length-set m.server.workers id _))
      (run-IsConsistent m.server m.tasks m.phase id t rest _ e k)
Step-AllQueued {m} k (receive_reply h c res e) =
    idle-IsConsistent m.server m.tasks m.phase h ready k (not_queued h k (λ id d w. cc))
      (λ id d w. cc)
Step-AllQueued k (stop_step st) = StopStep-keeps IsConsistent st k

pub Steps-AllQueued :
    {m last : Machine} {es : List Event} → AllQueued m → Steps m es last → AllQueued last
Steps-AllQueued k here = k
Steps-AllQueued k (next st rest) = Steps-AllQueued (Step-AllQueued k st) rest
