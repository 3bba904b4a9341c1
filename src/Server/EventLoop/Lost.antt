-- ===== src/Server/EventLoop/Lost.antt =====
-- A shutdown that comes while the event loop of internal/server/server.go works: the swap to idle that follows the
-- work overwrites it.
use redi_go.Prelude.{Bytes, ℕ, List, ◌≡◌, sym, ap, arith}
use mathlib.Core.Path.{transport}
use redi_go.Go.Float.{Floats}
use redi_go.SortedSet.Interface.{OrderedIndex}
use redi_go.Server.EventLoop.{
  Status, shutdown, Work, expiry, events, Pc, top, claiming, checking, working, done, polling,
  ended, failed, LoopStep, stop, expire_now, expire_later, claim, claim_fails, check_stops,
  check_goes_on, expire, release, wait_fails, wait, no_more_events, accept_fails, accept,
  monitor_fails, stop_before_read, handle, handle_panics, loop_step, store, Steps, here, next,
}
use redi_go.Server.EventLoop.Claims.{Machine}

-- With no store to come the loop has no reason to end: it has not ended, and the status is not shutdown or is about to
-- be overwritten.
abbrev GoesOn : Pc → Status → Type 0
GoesOn ended s = ⊥
GoesOn (done w) s = Unit {0}
GoesOn top s = ¬ (s ≡ shutdown)
GoesOn (claiming w) s = ¬ (s ≡ shutdown)
GoesOn (checking w) s = ¬ (s ≡ shutdown)
GoesOn (working w) s = ¬ (s ≡ shutdown)
GoesOn polling s = ¬ (s ≡ shutdown)
GoesOn failed s = ¬ (s ≡ shutdown)

module _ (F : Floats) (I : OrderedIndex F) (hash : Bytes → ℕ → ℕ) (visit : List Bytes → List Bytes)
    (upper : Bytes → Bytes) where
  abbrev CanGoOn : Machine F I hash visit upper → Type 0
  CanGoOn m = GoesOn m.pc m.status

  LoopStep-CanGoOn :
      {m m' : Machine F I hash visit upper}
      → LoopStep F I hash visit upper m m'
      → CanGoOn m
      → CanGoOn m'
  LoopStep-CanGoOn {m} (stop e s) k = absurd (transport (ap (λ p. GoesOn p m.status) e) k s)
  LoopStep-CanGoOn (expire_now e s) k = s
  LoopStep-CanGoOn (expire_later e s) k = s
  LoopStep-CanGoOn (claim w e s) k = λ same. cc
  LoopStep-CanGoOn {m} (claim_fails w e s) k = transport (ap (λ p. GoesOn p m.status) e) k
  LoopStep-CanGoOn {m} (check_stops w e s) k =
      absurd (transport (ap (λ p. GoesOn p m.status) e) k s)
  LoopStep-CanGoOn (check_goes_on w e s) k = s
  LoopStep-CanGoOn (expire fuel visits d e r) k = tt
  LoopStep-CanGoOn (release expiry e) k = λ same. cc
  LoopStep-CanGoOn (release (events es) e) k = λ same. cc
  LoopStep-CanGoOn {m} (wait_fails e) k = transport (ap (λ p. GoesOn p m.status) e) k
  LoopStep-CanGoOn {m} (wait es e) k = transport (ap (λ p. GoesOn p m.status) e) k
  LoopStep-CanGoOn (no_more_events e) k = tt
  LoopStep-CanGoOn {m} (accept_fails es e) k = transport (ap (λ p. GoesOn p m.status) e) k
  LoopStep-CanGoOn {m} (accept fd es e) k = transport (ap (λ p. GoesOn p m.status) e) k
  LoopStep-CanGoOn {m} (monitor_fails fd es e) k = transport (ap (λ p. GoesOn p m.status) e) k
  LoopStep-CanGoOn {m} (stop_before_read fd read env b es e s) k =
      absurd (transport (ap (λ p. GoesOn p m.status) e) k s)
  LoopStep-CanGoOn (handle fd read env b es s out e ne r) k = ne
  LoopStep-CanGoOn (handle_panics fd read env b es e ne r) k = ne

  LoopStep-stores :
      {m m' : Machine F I hash visit upper}
      → LoopStep F I hash visit upper m m'
      → m.stores ≡ 0
      → m'.stores ≡ 0
  LoopStep-stores (stop e s) z = z
  LoopStep-stores (expire_now e s) z = z
  LoopStep-stores (expire_later e s) z = z
  LoopStep-stores (claim w e s) z = z
  LoopStep-stores (claim_fails w e s) z = z
  LoopStep-stores (check_stops w e s) z = z
  LoopStep-stores (check_goes_on w e s) z = z
  LoopStep-stores (expire fuel visits d e r) z = z
  LoopStep-stores (release w e) z = z
  LoopStep-stores (wait_fails e) z = z
  LoopStep-stores (wait es e) z = z
  LoopStep-stores (no_more_events e) z = z
  LoopStep-stores (accept_fails es e) z = z
  LoopStep-stores (accept fd es e) z = z
  LoopStep-stores (monitor_fails fd es e) z = z
  LoopStep-stores (stop_before_read fd read env b es e s) z = z
  LoopStep-stores (handle fd read env b es s out e ne r) z = z
  LoopStep-stores (handle_panics fd read env b es e ne r) z = z

  Steps-CanGoOn :
      {m last : Machine F I hash visit upper}
      → m.stores ≡ 0
      → Steps F I hash visit upper m last
      → CanGoOn m
      → CanGoOn last
  Steps-CanGoOn z here k = k
  Steps-CanGoOn {m} z (next (loop_step st) rest) k =
      Steps-CanGoOn (LoopStep-stores st z) rest (LoopStep-CanGoOn st k)
  Steps-CanGoOn {m} z (next (store n e) rest) k =
      let never : ⊥ = omega (arith, z, e) in elim never [ ]

  -- When the loop stands before its swap to idle and every store of the shutdown is done, no further run ends the
  -- loop, although the status may be shutdown at that moment.
  pub done_never_ends :
      {m last : Machine F I hash visit upper} (w : Work)
      → m.pc ≡ done w
      → m.stores ≡ 0
      → Steps F I hash visit upper m last
      → ¬ (last.pc ≡ ended)
  done_never_ends {m} {last} w at_swap no_store run =
      let first : CanGoOn m = transport (ap (λ p. GoesOn p m.status) (sym at_swap)) tt in
      λ e. transport (ap (λ p. GoesOn p last.status) e) (Steps-CanGoOn no_store run first)
