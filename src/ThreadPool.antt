-- ===== src/ThreadPool.antt =====
-- sznet/thread/ThreadPool.cpp: the queue of tasks between the callers of `run` and the threads of the
-- pool, as the steps that are taken with the mutex held or, in `run`, before it is taken.
-- A task is a number. A call that waits on a condition takes no step.
pub mod Idle
mod Tests
use sznet.Base.{
  ℕ, ◌+◌, ◌≡◌, Bool, true, false, not, ◌&&◌, List, [], ◌∷◌, ◌++◌, Option, none, some, ltb, leb,
  if◌then◌else◌, length,
}

-- `entered` are the tasks whose `run` has seen a queue that is not empty; `by_caller` and `by_thread`
-- are those that were run, the latest first.
pub record ThreadPool : Type 0 where
  pub threads : ℕ
  pub max_queue_size : ℕ
  pub running : Bool
  pub queue : List ℕ
  pub entered : List ℕ
  pub by_caller : List ℕ
  pub by_thread : List ℕ

abbrev pub new : ℕ → ThreadPool
new max_queue_size = record {
  threads = 0;
  max_queue_size = max_queue_size;
  running = false;
  queue = [];
  entered = [];
  by_caller = [];
  by_thread = [];
}

-- `start` asserts that the pool has no threads yet.
abbrev pub start : ThreadPool → ℕ → Option ThreadPool
start p num_threads =
    if ltb 0 p.threads then none else some (record p { running = true; threads = num_threads })

abbrev pub stop : ThreadPool → ThreadPool
stop p = record p { running = false }

abbrev pub is_full : ThreadPool → Bool
is_full p = ltb 0 p.max_queue_size && leb p.max_queue_size (length p.queue)

-- `run` up to the mutex
abbrev pub run : ThreadPool → ℕ → ThreadPool
run p task = elim p.queue [
  | [] ↦ record p { by_caller = task ∷ p.by_caller }
  | t ∷ ts ↦ record p { entered = p.entered ++ (task ∷ []) }
]

-- `run` with the mutex, for the task that entered first; none while it waits.
abbrev pub put : ThreadPool → Option ThreadPool
put p = elim p.entered [
  | [] ↦ none
  | task ∷ rest ↦
      if is_full p then none else some (record p { queue = p.queue ++ (task ∷ []); entered = rest })
]

-- `take` and the run of the task that it returns, if any; none while it waits.
abbrev pub take : ThreadPool → Option ThreadPool
take p = elim p.queue [
  | [] ↦ if p.running then none else some p
  | task ∷ rest ↦ some (record p { queue = rest; by_thread = task ∷ p.by_thread })
]

-- A step of any thread of the program.
pub data Step : ThreadPool → ThreadPool → Type 0 where
  starts : {p p' : ThreadPool} → (num_threads : ℕ) → start p num_threads ≡ some p' → Step p p'
  stops : {p : ThreadPool} → Step p (stop p)
  runs : {p : ThreadPool} → (task : ℕ) → Step p (run p task)
  puts : {p p' : ThreadPool} → put p ≡ some p' → Step p p'
  takes : {p p' : ThreadPool} → take p ≡ some p' → Step p p'

-- A history of the pool, the latest step last.
pub data Reachable (max_queue_size : ℕ) : ThreadPool → Type 0 where
  created : Reachable max_queue_size (new max_queue_size)
  follows :
      {p p' : ThreadPool} → Reachable max_queue_size p → Step p p' → Reachable max_queue_size p'
