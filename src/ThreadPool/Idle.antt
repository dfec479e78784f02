-- ===== src/ThreadPool/Idle.antt =====
-- The tasks of sznet/thread/ThreadPool.cpp: which of them reach the queue.
use sznet.Base.{ℕ, ◌≡◌, refl, true, [], ◌∷◌, none, some, arith}
use sznet.ThreadPool.{
  ThreadPool, start, run, put, take, Step, starts, stops, runs, puts, takes, Reachable, created,
  follows,
}

-- No task is on its way to the threads, and they have run none.
pub record IsIdle (p : ThreadPool) : Type 0 where
  pub queue : p.queue ≡ []
  pub entered : p.entered ≡ []
  pub by_thread : p.by_thread ≡ []

start-IsIdle : (p p' : ThreadPool) (n : ℕ) → IsIdle p → start p n ≡ some p' → IsIdle p'
start-IsIdle p p' n v e = record {
  queue = ground (arith, e, v.queue, v.entered, v.by_thread);
  entered = ground (arith, e, v.queue, v.entered, v.by_thread);
  by_thread = ground (arith, e, v.queue, v.entered, v.by_thread);
}

run-IsIdle : (p : ThreadPool) (task : ℕ) → IsIdle p → IsIdle (run p task)
run-IsIdle p task v =
    rw (v.queue, run) (record { queue = v.queue; entered = v.entered; by_thread = v.by_thread })

put-IsIdle : (p p' : ThreadPool) → IsIdle p → put p ≡ some p' → IsIdle p'
put-IsIdle p p' v e = absurd (ground (arith, e, v.entered))

take-IsIdle : (p p' : ThreadPool) → IsIdle p → take p ≡ some p' → IsIdle p'
take-IsIdle p p' v e = record {
  queue = ground (arith, e, v.queue, v.entered, v.by_thread);
  entered = ground (arith, e, v.queue, v.entered, v.by_thread);
  by_thread = ground (arith, e, v.queue, v.entered, v.by_thread);
}

Step-IsIdle : (p p' : ThreadPool) → IsIdle p → Step p p' → IsIdle p'
Step-IsIdle p p' v (starts n e) = start-IsIdle p p' n v e
Step-IsIdle p _ v stops = record { queue = v.queue; entered = v.entered; by_thread = v.by_thread }
Step-IsIdle p _ v (runs task) = run-IsIdle p task v
Step-IsIdle p p' v (puts e) = put-IsIdle p p' v e
Step-IsIdle p p' v (takes e) = take-IsIdle p p' v e

Reachable-IsIdle : (n : ℕ) (p : ThreadPool) → Reachable n p → IsIdle p
Reachable-IsIdle n _ created = record { queue = refl; entered = refl; by_thread = refl }
Reachable-IsIdle n p' (follows {p} r s) = Step-IsIdle p p' (Reachable-IsIdle n p r) s

-- After every history of starts, stops, runs and takes the queue of tasks is empty, no task is on
-- its way to it and the threads have run none: a run calls the task in the thread of the caller,
-- and a thread of the pool that takes waits while the pool is running.
pub run-Reachable :
    (n : ℕ) (p : ThreadPool)
    → Reachable n p
    → IsIdle p
      × ((task : ℕ) → (run p task).by_caller ≡ task ∷ p.by_caller)
      × (p.running ≡ true → take p ≡ none)
run-Reachable n p r =
    let v = Reachable-IsIdle n p r in
    (v, λ task. rw (v.queue, run) refl, λ on. rw (v.queue, take) (rw on refl))
