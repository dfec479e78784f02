-- ===== src/TimerQueue/Tests.antt =====
-- The theorems about sznet/time/TimerQueue.cpp at a concrete queue, and runs.
use sznet.Base.{
  ℕ, ◌≡◌, refl, Bool, true, false, ◌&&◌, Option, none, some, arith, ◌==◌, if◌then◌else◌, List, [],
  ◌∷◌,
}
use sznet.Run.{Run, ok, ◌>>=◌, Ensures}
use sznet.MinHeap.{
  push, pop, erase, top, reserve, shift_up, shift_up_loop, shift_down, shift_down_loop, min_child,
}
use sznet.TimerQueue.{
  Timer, TimerQueue, Request, add_request, cancel_request, empty, add_timer, add_timer_in_loop,
  cancel_in_loop, erase_asserted, expire, expired_loop, expired_process, run, rearm, restart, serve,
  serve_all,
}
use sznet.TimerQueue.Invariant.{IsValid, Armed}
use sznet.TimerQueue.Requests.{
  After, dangling, new_timer, created_at, add_timer-Armed, cancel_in_loop-Cancelled,
}
use sznet.TimerQueue.Drain.{Drained, expired_process-Drained}
use sznet.TimerQueue.Faults.{Spinning}

-- A timer at the address 5 that is due at 3, once or again after `interval`.
abbrev timer_at_3 : ℕ → Bool → Timer
timer_at_3 interval repeat = record {
  callback = 1;
  expiration = 3;
  interval = interval;
  repeat = repeat;
  sequence = 0;
}

abbrev one : ℕ → Bool → TimerQueue
one interval repeat = record {
  heap = record {
    slots = λ i. 5;
    size = 1;
    capacity = 8;
    idx = λ p. if p == 5 then some 0 else none;
  };
  active = record { member = λ t s. (t == 5) && (s == 0); count = 1 };
  timers = λ t. if t == 5 then some (timer_at_3 interval repeat) else none;
  extent = 6;
  created = 1;
  ran = [];
}

one-IsValid : (interval : ℕ) (repeat : Bool) → IsValid (one interval repeat)
one-IsValid interval repeat = record {
  heap = record {
    bounded = omega arith;
    room = omega arith;
    ordered = λ c p q. ground arith;
    indexed = λ i q. ground arith;
    stored = λ p i q. ground arith;
  };
  counted = refl;
  active = λ t s. ground arith;
  live = λ t c. ground arith;
  unused = λ t p. ground arith;
}

-- Memory is never reused, and the callback 1 adds a timer that is due at 100.
abbrev bump : ℕ → (ℕ → Option Timer) → ℕ
bump extent timers = extent

abbrev later_again : ℕ → List Request
later_again c = add_request 2 100 0 false ∷ []

after : Run TimerQueue → Run (ℕ × List ℕ × Option ℕ)
after r = r >>= λ q. ok (q.heap.size, q.ran, top q.heap)

-- Of timers due at 30, 10 and 20 the second is cancelled, and at 25 the third one runs.
schedule : Run TimerQueue
schedule = do
  (a, q1) ← add_timer false 1 empty 7 30 0 false
  (b, q2) ← add_timer false 2 q1 8 10 0 false
  (c, q3) ← add_timer false 3 q2 9 20 0 false
  q4 ← cancel_in_loop false q3 b
  expired_process false bump (λ c. []) 3 q4 25

schedule_run : after schedule ≡ ok (1, 9 ∷ [], some 1)
unfolding after schedule add_timer add_timer_in_loop cancel_in_loop erase_asserted expired_process
    expired_loop expire run rearm restart serve serve_all push pop erase top reserve shift_up
    shift_up_loop shift_down shift_down_loop min_child
schedule_run = refl

-- A timer that cancels itself in its callback is armed again.
self_cancel_run :
    after (
      expired_process false bump
        (λ c. cancel_request (record { timer = 5; sequence = 0 }) ∷ [])
        3
        (one 10 true)
        4)
    ≡ ok (1, 1 ∷ [], some 5)
unfolding after schedule add_timer add_timer_in_loop cancel_in_loop erase_asserted expired_process
    expired_loop expire run rearm restart serve serve_all push pop erase top reserve shift_up
    shift_up_loop shift_down shift_down_loop min_child
self_cancel_run = refl

add_timer-Armed_example :
    Ensures
      (λ (i, q').
        (i ≡ record { timer = 9; sequence = 1 })
        × Armed (created_at (one 0 false) 9 (new_timer (one 0 false) 4 2 0 false)) 9 q')
      (add_timer false 9 (one 0 false) 4 2 0 false)
add_timer-Armed_example =
    add_timer-Armed 9 (one 0 false) 4 2 0 false (one-IsValid 0 false) refl (omega arith)

cancel_in_loop-Cancelled_example :
    Ensures
      (After (one 0 false) (record { timer = 5; sequence = 0 }))
      (cancel_in_loop false (one 0 false) (record { timer = 5; sequence = 0 }))
    × (cancel_in_loop true (one 0 false) (record { timer = 5; sequence = 0 })
        ≡ ok (dangling (one 0 false) (record { timer = 5; sequence = 0 })))
cancel_in_loop-Cancelled_example =
    cancel_in_loop-Cancelled (one 0 false) (record { timer = 5; sequence = 0 })
      (one-IsValid 0 false)

expired_process-Drained_example :
    Ensures (Drained 4) (expired_process false bump later_again 2 (one 10 true) 4)
expired_process-Drained_example =
    expired_process-Drained bump (λ extent timers unused. unused extent (omega arith)) later_again 4
      1 (λ c. refl) (λ c. omega arith) (one 10 true) (one-IsValid 10 true) (λ p. ground arith)
      (omega arith)

one-Spinning : Spinning bump (λ c. []) 4 (one 0 true) 5 (timer_at_3 0 true)
unfolding top
one-Spinning = record {
  valid = one-IsValid 0 true;
  alone = refl;
  first = refl;
  at = refl;
  repeats = refl;
  hasty = refl;
  due = omega arith;
  early = omega arith;
  idle = refl;
}
