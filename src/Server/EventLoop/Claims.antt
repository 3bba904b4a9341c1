-- ===== src/Server/EventLoop/Claims.antt =====
-- `serverStatus` and where the event loop of internal/server/server.go stands.
use redi_go.Prelude.{Bytes, ℕ, List, [], ◌≡◌, refl, sym, ap, ◌∙◌}
use mathlib.Core.Path.{transport}
use redi_go.Go.Float.{Floats}
use redi_go.SortedSet.Interface.{OrderedIndex}
use redi_go.Server.EventLoop.{
  Status, idle, shutdown, running, expiry, events, Pc, top, claiming, checking, working, done,
  polling, ended, failed, Loop, start, LoopStep, stop, expire_now, expire_later, claim, claim_fails,
  check_stops, check_goes_on, expire, release, wait_fails, wait, no_more_events, accept_fails,
  accept, monitor_fails, stop_before_read, handle, handle_panics, Step, loop_step, store, Steps,
  here, next,
}

-- What the status is where the loop stands.
abbrev pub Fits : Pc → Status → Type 0
Fits top s = ¬ (s ≡ running)
Fits (claiming w) s = ¬ (s ≡ running)
Fits polling s = ¬ (s ≡ running)
Fits (checking w) s = s ≡ shutdown
Fits (working w) s = ¬ (s ≡ idle)
Fits (done w) s = ¬ (s ≡ idle)
Fits ended s = Unit {0}
Fits failed s = Unit {0}

only_shutdown : (s : Status) → ¬ (s ≡ running) → ¬ (s ≡ idle) → s ≡ shutdown
only_shutdown idle r i = absurd (i refl)
only_shutdown shutdown r i = refl
only_shutdown running r i = absurd (r refl)

Fits-shutdown : (p : Pc) → Fits p shutdown
Fits-shutdown top = λ e. cc
Fits-shutdown (claiming w) = λ e. cc
Fits-shutdown polling = λ e. cc
Fits-shutdown (checking w) = refl
Fits-shutdown (working w) = λ e. cc
Fits-shutdown (done w) = λ e. cc
Fits-shutdown ended = tt
Fits-shutdown failed = tt

module _ (F : Floats) (I : OrderedIndex F) (hash : Bytes → ℕ → ℕ) (visit : List Bytes → List Bytes)
    (upper : Bytes → Bytes) where
  abbrev pub Machine : Type 0
  Machine = Loop F I hash visit upper

  abbrev pub HasStatus : Machine → Type 0
  HasStatus m = Fits m.pc m.status

  -- What is known of the status where the loop stands.
  at : (m : Machine) (p : Pc) → m.pc ≡ p → HasStatus m → Fits p m.status
  at m p e k = transport (ap (λ q. Fits q m.status) e) k

  LoopStep-HasStatus :
      {m m' : Machine} → LoopStep F I hash visit upper m m' → HasStatus m → HasStatus m'
  LoopStep-HasStatus (stop e s) k = tt
  LoopStep-HasStatus {m} (expire_now e s) k = at m top e k
  LoopStep-HasStatus {m} (expire_later e s) k = at m top e k
  LoopStep-HasStatus (claim w e s) k = λ same. cc
  LoopStep-HasStatus {m} (claim_fails w e s) k = only_shutdown m.status (at m (claiming w) e k) s
  LoopStep-HasStatus (check_stops w e s) k = tt
  LoopStep-HasStatus {m} (check_goes_on w e s) k = absurd (s (at m (checking w) e k))
  LoopStep-HasStatus {m} (expire fuel visits d e r) k = at m (working expiry) e k
  LoopStep-HasStatus (release expiry e) k = λ same. cc
  LoopStep-HasStatus (release (events es) e) k = λ same. cc
  LoopStep-HasStatus {m} (wait_fails e) k = at m polling e k
  LoopStep-HasStatus {m} (wait es e) k = at m polling e k
  LoopStep-HasStatus {m} (no_more_events e) k = at m (working (events [])) e k
  LoopStep-HasStatus {m} (accept_fails es e) k = at m (working _) e k
  LoopStep-HasStatus {m} (accept fd es e) k = at m (working _) e k
  LoopStep-HasStatus (monitor_fails fd es e) k = tt
  LoopStep-HasStatus (stop_before_read fd read env b es e s) k = tt
  LoopStep-HasStatus {m} (handle fd read env b es s out e ne r) k = at m (working _) e k
  LoopStep-HasStatus (handle_panics fd read env b es e ne r) k = tt

  Step-HasStatus : {m m' : Machine} → Step F I hash visit upper m m' → HasStatus m → HasStatus m'
  Step-HasStatus (loop_step st) k = LoopStep-HasStatus st k
  Step-HasStatus {m} (store n e) k = Fits-shutdown m.pc

  Steps-HasStatus :
      {m last : Machine} → Steps F I hash visit upper m last → HasStatus m → HasStatus last
  Steps-HasStatus here k = k
  Steps-HasStatus (next st rest) k = Steps-HasStatus rest (Step-HasStatus st k)

  -- Wherever the loop stands in a run of the server, the status tells whether it works: it is not idle while the
  -- loop works, it is not running at the loop's condition, before a compare-and-swap and at `Wait`, and it is
  -- shutdown after a compare-and-swap that failed.
  pub start-HasStatus :
      {last : Machine} (stores : ℕ)
      → Steps F I hash visit upper (start F I hash visit upper stores) last
      → HasStatus last
  unfolding start
  start-HasStatus stores run = Steps-HasStatus run (λ same. cc)

  -- The loop is not at its work.
  abbrev pub IsWaiting : Pc → Type 0
  IsWaiting top = Unit {0}
  IsWaiting (claiming w) = Unit {0}
  IsWaiting (checking w) = Unit {0}
  IsWaiting (working w) = ⊥
  IsWaiting (done w) = ⊥
  IsWaiting polling = Unit {0}
  IsWaiting ended = Unit {0}
  IsWaiting failed = ⊥

  -- The loop has seen the shutdown, or will before its next work; the data and what was sent are as in `m`.
  record IsStopping (m later : Machine) : Type 0 where
    waits : IsWaiting later.pc
    down : later.status ≡ shutdown
    same_storage : later.storage ≡ m.storage
    same_out : later.out ≡ m.out

  moved_to :
      {m0 m : Machine} (p : Pc)
      → IsWaiting p
      → IsStopping m0 m
      → IsStopping m0 (record m { pc = p })
  moved_to p w k = record {
    waits = w;
    down = k.down;
    same_storage = k.same_storage;
    same_out = k.same_out;
  }

  not_at : {m0 m : Machine} (p : Pc) → m.pc ≡ p → ¬ (IsWaiting p) → IsStopping m0 m → ⊥
  not_at p e busy k = busy (transport (ap IsWaiting e) k.waits)

  LoopStep-IsStopping :
      {m0 m m' : Machine} → LoopStep F I hash visit upper m m' → IsStopping m0 m → IsStopping m0 m'
  LoopStep-IsStopping (stop e s) k = moved_to ended tt k
  LoopStep-IsStopping (expire_now e s) k = moved_to (claiming expiry) tt k
  LoopStep-IsStopping (expire_later e s) k = moved_to polling tt k
  LoopStep-IsStopping {m} (claim w e s) k =
      let both : shutdown ≡ idle = sym k.down ∙ s in let never : ⊥ = cc in absurd never
  LoopStep-IsStopping (claim_fails w e s) k = moved_to (checking w) tt k
  LoopStep-IsStopping (check_stops w e s) k = moved_to ended tt k
  LoopStep-IsStopping (check_goes_on w e s) k = absurd (s k.down)
  LoopStep-IsStopping (expire fuel visits d e r) k = absurd (not_at (working expiry) e (λ w. w) k)
  LoopStep-IsStopping (release w e) k = absurd (not_at (done w) e (λ w. w) k)
  LoopStep-IsStopping (wait_fails e) k = moved_to top tt k
  LoopStep-IsStopping (wait es e) k = moved_to (claiming (events es)) tt k
  LoopStep-IsStopping (no_more_events e) k = absurd (not_at (working _) e (λ w. w) k)
  LoopStep-IsStopping (accept_fails es e) k = absurd (not_at (working _) e (λ w. w) k)
  LoopStep-IsStopping (accept fd es e) k = absurd (not_at (working _) e (λ w. w) k)
  LoopStep-IsStopping (monitor_fails fd es e) k = absurd (not_at (working _) e (λ w. w) k)
  LoopStep-IsStopping (stop_before_read fd read env b es e s) k =
      absurd (not_at (working _) e (λ w. w) k)
  LoopStep-IsStopping (handle fd read env b es s out e ne r) k =
      absurd (not_at (working _) e (λ w. w) k)
  LoopStep-IsStopping (handle_panics fd read env b es e ne r) k =
      absurd (not_at (working _) e (λ w. w) k)

  Steps-IsStopping :
      {m0 m last : Machine}
      → Steps F I hash visit upper m last
      → IsStopping m0 m
      → IsStopping m0 last
  Steps-IsStopping here k = k
  Steps-IsStopping (next (loop_step st) rest) k = Steps-IsStopping rest (LoopStep-IsStopping st k)
  Steps-IsStopping (next (store n e) rest) k = Steps-IsStopping rest (record {
    waits = k.waits;
    down = refl;
    same_storage = k.same_storage;
    same_out = k.same_out;
  })

  -- A shutdown that is stored while the loop is not at its work is final: in every run from there the status stays
  -- shutdown, no work is begun, and the data and what the loop asked of the operating system stay as they are.
  pub shutdown-IsWaiting :
      {m last : Machine}
      → m.status ≡ shutdown
      → IsWaiting m.pc
      → Steps F I hash visit upper m last
      → (last.status ≡ shutdown)
        × IsWaiting last.pc
        × (last.storage ≡ m.storage)
        × (last.out ≡ m.out)
  shutdown-IsWaiting {m} s w run =
      let first : IsStopping m m = record {
        waits = w;
        down = s;
        same_storage = refl;
        same_out = refl;
      } in
      let k = Steps-IsStopping run first in (k.down, k.waits, k.same_storage, k.same_out)
