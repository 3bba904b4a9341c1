-- ===== src/Tests/EventLoops.antt =====
-- The event loop and a shutdown, in toy numbers.
use redi_go.Prelude.{Bytes, codes, ℕ, List, [], ◌∷◌, ◌≡◌, refl}
use redi_go.Core.Executor.{Storage, init, execute}
use redi_go.Server.EventLoop.{
  Status, idle, shutdown, events, Pc, done, polling, ended, start, stop, expire_later, claim, wait,
  no_more_events, release, loop_step, store, Steps, here, next, wait_fails, running, working, write,
}
use redi_go.Server.EventLoop.Claims.{
  Machine, HasStatus, IsWaiting, start-HasStatus, shutdown-IsWaiting,
}
use redi_go.Server.EventLoop.Lost.{done_never_ends}
use redi_go.Go.Map
use redi_go.Go.Result.{Result, ok, err, panic, hang}
use redi_go.Resp.Command.{Command}
use redi_go.SortedSet.BTree.Add
use redi_go.Server.ReadCommand.{ReadResult, bytes_read}
use redi_go.Server.ReadCommand.Agreement.{request}
use redi_go.Tests.Servers.{env}
use redi_go.Tests.SortedSets.{tree}
use redi_go.Tests.ToyFloats.{toy}

abbrev hash : Bytes → ℕ → ℕ
hash s n = n

abbrev same_order : List Bytes → List Bytes
same_order xs = xs

abbrev same_case : Bytes → Bytes
same_case s = s

abbrev Toy : Type 0
Toy = Machine toy tree hash same_order same_case

abbrev at_pc : Status → Pc → ℕ → Toy
at_pc s p n = record {
  status = s;
  pc = p;
  storage = init toy tree hash same_order;
  out = [];
  stores = n;
}

-- The signal comes while the loop works.
to_swap :
    Steps toy tree hash same_order same_case
      (start toy tree hash same_order same_case 1)
      (at_pc shutdown (done (events [])) 0)
unfolding start
to_swap = next (loop_step (expire_later refl (λ e. cc))) (
    next (loop_step (wait [] refl)) (
      next (loop_step (claim (events []) refl refl))
        (next (store 0 refl) (next (loop_step (no_more_events refl)) here))))

start-HasStatus_example :
    HasStatus toy tree hash same_order same_case (at_pc shutdown (done (events [])) 0)
start-HasStatus_example = start-HasStatus toy tree hash same_order same_case 1 to_swap

-- The loop goes back to `Wait`.
after_swap :
    Steps toy tree hash same_order same_case
      (at_pc shutdown (done (events [])) 0)
      (at_pc idle polling 0)
after_swap =
    next (loop_step (release (events []) refl))
      (next (loop_step (expire_later refl (λ e. cc))) here)

done_never_ends_example : ¬ (polling ≡ ended)
done_never_ends_example =
    done_never_ends toy tree hash same_order same_case (events []) refl refl after_swap

-- The signal comes while the loop is at `Wait`.
stops : Steps toy tree hash same_order same_case (at_pc shutdown polling 0) (at_pc shutdown ended 0)
stops = next (loop_step (wait_fails refl)) (next (loop_step (stop refl refl)) here)

shutdown-IsWaiting_example :
    (shutdown ≡ shutdown)
    × IsWaiting toy tree hash same_order same_case ended
    × (init toy tree hash same_order ≡ init toy tree hash same_order)
    × ([] ≡ (at_pc shutdown polling 0).out)
shutdown-IsWaiting_example = shutdown-IsWaiting toy tree hash same_order same_case refl tt stops

-- An expiry, and a client that adds a member to a sorted set.
abbrev zadd : Command
zadd = record { cmd = codes "ZADD"; args = codes "z" ∷ codes "1" ∷ codes "ann" ∷ [] }

abbrev zadd_read : ReadResult
zadd_read = bytes_read (request (codes "ZADD" ∷ zadd.args))

abbrev Stores : Type 0
Stores = Storage toy tree hash same_order

abbrev at_start : Stores
at_start = init toy tree hash same_order

abbrev taken : Result (Stores × Bytes) → Stores × Bytes
taken (ok r) = r
taken (err e) = (at_start, e)
taken panic = (at_start, [])
taken hang = (at_start, [])

abbrev after_zadd : Stores × Bytes
after_zadd = taken (execute toy tree hash same_order env at_start zadd)

abbrev after_work : Toy
after_work = record (at_pc running (working (events [])) 1) {
  storage = after_zadd.0;
  out = write 9 after_zadd.1 ∷ [];
}
