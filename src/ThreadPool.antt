-- ===== src/ThreadPool.antt =====
-- ThreadPool/main.go: connections that are handed to a fixed number of threads.
--
-- A connection and a worker are numbers. The queue has no buffer, so a job passes from `AddJob` to a worker in one step.
pub mod Served
use redi_go.Prelude.{
  Bytes, codes, ℕ, ◌<◌, List, [], ◌∷◌, ◌++◌, ◌≡◌, Option, none, some, ◌==◌, if◌then◌else◌,
}

-- What `handleConnection` does to the connection, whatever its read and its write give.
pub data Effect : Type 0 where
  read : ℕ → Effect
  write : ℕ → Bytes → Effect
  close : ℕ → Effect

unfoldable pub handle_connection : ℕ → List Effect
handle_connection conn =
    read conn ∷ write conn (codes "HTTP/1.1 200 OK\r\n\r\nEngineer Pro\r\n") ∷ close conn ∷ []

pub record Pool : Type 0 where
  pub num_workers : ℕ
  -- the job of each worker, if it has one
  pub job : ℕ → Option ℕ
  -- the job at which `AddJob` waits for a worker
  pub offered : Option ℕ
  -- what was accepted and what was handled, the latest first
  pub accepted : List ℕ
  pub handled : List ℕ
  pub out : List Effect

-- `NewPool` and `Start`
unfoldable pub new_pool : ℕ → Pool
new_pool num_of_worker = record {
  num_workers = num_of_worker;
  job = λ i. none;
  offered = none;
  accepted = [];
  handled = [];
  out = [];
}

abbrev pub put_job : (ℕ → Option ℕ) → ℕ → Option ℕ → ℕ → Option ℕ
put_job job i o j = if j == i then o else job j

-- A step of the loop of `main` or of a worker.
pub data Step (p : Pool) : Pool → Type 0 where
  -- `Accept`, and then `AddJob` up to its send
  accept :
      (conn : ℕ)
      → p.offered ≡ none
      → Step p (record p { offered = some conn; accepted = conn ∷ p.accepted })
  -- a worker that has no job receives the one that is offered
  take_job :
      (i conn : ℕ)
      → i < p.num_workers
      → p.offered ≡ some conn
      → p.job i ≡ none
      → Step p (record p { offered = none; job = put_job p.job i (some conn) })
  finish :
      (i conn : ℕ)
      → p.job i ≡ some conn
      → Step p (record p {
        job = put_job p.job i none;
        handled = conn ∷ p.handled;
        out = p.out ++ handle_connection conn;
      })

pub data Steps : Pool → Pool → Type 0 where
  here : {p : Pool} → Steps p p
  next : {p p' p'' : Pool} → Step p p' → Steps p' p'' → Steps p p''
