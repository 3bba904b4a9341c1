-- ===== src/ThreadPool/Served.antt =====
-- The connections of ThreadPool/main.go from their acceptance to the end of their handling.
use redi_go.Prelude.{
  ℕ, zero, suc, ◌+◌, ◌<◌, ◌≤◌, ◌≡◌, refl, sym, ap, ◌∙◌, Option, none, some, arith, length,
  ℕ_discrete, dec_lt,
}
use redi_go.ThreadPool.{Pool, new_pool, put_job, Step, accept, take_job, finish, Steps, here, next}

abbrev one_if : Option ℕ → ℕ
one_if none = 0
one_if (some conn) = 1

-- How many of the first `n` workers have a job.
abbrev pub busy : (ℕ → Option ℕ) → ℕ → ℕ
busy job zero = 0
busy job (suc n) = busy job n + one_if (job n)

busy-put_above :
    (job : ℕ → Option ℕ) (i : ℕ) (o : Option ℕ) (n : ℕ)
    → n ≤ i
    → busy (put_job job i o) n ≡ busy job n
busy-put_above job i o zero le = refl
busy-put_above job i o (suc n) le =
    let same : put_job job i o n ≡ job n = ground arith in
    rw (same, busy-put_above job i o n (omega arith)) refl

-- One job more or less makes one busy worker more or less.
busy-put :
    (job : ℕ → Option ℕ) (i : ℕ) (o : Option ℕ) (n : ℕ)
    → i < n
    → busy (put_job job i o) n + one_if (job i) ≡ busy job n + one_if o
busy-put job i o zero lt = elim lt [ ]
busy-put job i o (suc n) lt = elim (ℕ_discrete i n) [
  | yes last ↦
      let here_now : put_job job i o n ≡ o = ground arith in
      let was : job i ≡ job n = ap job last in
      let new : one_if (put_job job i o n) ≡ one_if o = ap one_if here_now in
      let old : one_if (job i) ≡ one_if (job n) = ap one_if was in
      omega (arith, busy-put_above job i o n (omega (arith, last)), new, old)
  | no ne ↦
      let same : put_job job i o n ≡ job n = ground arith in
      let kept : one_if (put_job job i o n) ≡ one_if (job n) = ap one_if same in
      omega (arith, busy-put job i o n (omega (arith, lt, ne)), kept)
]

-- Every connection that was accepted has been handled, is at a worker or is offered to one, and no worker beyond
-- the pool's number has a job.
pub record IsAccounted (p : Pool) : Type 0 where
  pub all : length p.accepted ≡ length p.handled + busy p.job p.num_workers + one_if p.offered
  pub outside : (i : ℕ) → p.num_workers ≤ i → p.job i ≡ none

in_pool : (p : Pool) (i conn : ℕ) → IsAccounted p → p.job i ≡ some conn → i < p.num_workers
in_pool p i conn k e = elim (dec_lt i p.num_workers) [
  | yes lt ↦ lt
  | no ge ↦
      let gone : none ≡ some conn = sym (k.outside i (omega (arith, ge))) ∙ e in
      let never : ⊥ = cc in elim never [ ]
]

Step-IsAccounted : {p p' : Pool} → Step p p' → IsAccounted p → IsAccounted p'
Step-IsAccounted {p} (accept conn free) k =
    let was : one_if p.offered ≡ 0 = ap one_if free in
    record { all = omega (arith, k.all, was); outside = k.outside }
Step-IsAccounted {p} (take_job i conn lt offer idle) k =
    let was : one_if p.offered ≡ 1 = ap one_if offer in
    let no_job : one_if (p.job i) ≡ 0 = ap one_if idle in
    record {
      all = omega (arith, k.all, was, no_job, busy-put p.job i (some conn) p.num_workers lt);
      outside = λ j le.
          let same : put_job p.job i (some conn) j ≡ p.job j = ground (arith, lt, le) in
          same ∙ k.outside j le;
    }
Step-IsAccounted {p} (finish i conn e) k =
    let had : one_if (p.job i) ≡ 1 = ap one_if e in
    let lt = in_pool p i conn k e in
    record {
      all = omega (arith, k.all, had, busy-put p.job i none p.num_workers lt);
      outside = λ j le.
          let same : put_job p.job i none j ≡ p.job j = ground (arith, lt, le) in
          same ∙ k.outside j le;
    }

Steps-IsAccounted : {p last : Pool} → Steps p last → IsAccounted p → IsAccounted last
Steps-IsAccounted here k = k
Steps-IsAccounted (next st rest) k = Steps-IsAccounted rest (Step-IsAccounted st k)

busy-none : (n : ℕ) → busy (λ i. none) n ≡ 0
busy-none zero = refl
busy-none (suc n) = omega (arith, busy-none n)

-- In every run of a pool, the connections that were accepted are as many as those that were handled, those at
-- its workers and the one that is offered.
pub new_pool-IsAccounted : {last : Pool} (n : ℕ) → Steps (new_pool n) last → IsAccounted last
unfolding new_pool
new_pool-IsAccounted n run =
    Steps-IsAccounted run (record { all = omega (arith, busy-none n); outside = λ i le. refl })
