-- ===== src/ThreadPool/Tests.antt =====
-- The theorem about sznet/thread/ThreadPool.cpp at a concrete history.
use sznet.Base.{ℕ, ◌≡◌, refl, true, [], ◌∷◌, none}
use sznet.ThreadPool.{ThreadPool, run, take, starts, runs, Reachable, created, follows}
use sznet.ThreadPool.Idle.{IsIdle, run-Reachable}

-- A pool of four threads that was given the tasks 1 and 2.
abbrev busy : ThreadPool
busy = record {
  threads = 4;
  max_queue_size = 10;
  running = true;
  queue = [];
  entered = [];
  by_caller = 2 ∷ 1 ∷ [];
  by_thread = [];
}

busy-Reachable : Reachable 10 busy
busy-Reachable = follows (follows (follows created (starts 4 refl)) (runs 1)) (runs 2)

run-Reachable_example :
    IsIdle busy
    × ((task : ℕ) → (run busy task).by_caller ≡ task ∷ busy.by_caller)
    × (busy.running ≡ true → take busy ≡ none)
run-Reachable_example = run-Reachable 10 busy busy-Reachable
