-- ===== src/Server/EventLoop/Stored.antt =====
-- The stores of the single-threaded server in every run of the event loop of internal/server/server.go.
use redi_go.Prelude.{Bytes, ℕ, List}
use redi_go.Go.Float.{Floats}
use redi_go.Go.Result.{Result, ok, err, panic, hang}
use redi_go.SortedSet.Interface.{OrderedIndex}
use redi_go.Core.Executor.{Storage}
use redi_go.Core.Executor.Stored.{IsStorage}
use redi_go.Server.EventLoop.{Effect}
use redi_go.Server.EventLoop.Claims.{Machine}

module _ (F : Floats) (I : OrderedIndex F) (hash : Bytes → ℕ → ℕ) (visit : List Bytes → List Bytes)
    (upper : Bytes → Bytes) where
  abbrev pub HasStorage : Machine F I hash visit upper → Type 0
  HasStorage m = IsStorage F I hash visit m.storage

  -- If there is a result, its stores are well formed.
  abbrev Kept : Result (Storage F I hash visit × List Effect) → Type 0
  Kept (ok r) = IsStorage F I hash visit r.0
  Kept (err e) = Unit {0}
  Kept panic = Unit {0}
  Kept hang = Unit {0}
