-- ===== src/EventLoop/Tests.antt =====
-- The theorems about sznet/net/EventLoop.cpp at concrete histories.
use sznet.Base.{◌≡◌, refl, false, true, [], ◌∷◌}
use sznet.Run.{Ensures}
use sznet.EventLoop.{
  EventLoop, polling, new, begin, run_timers, poll, handle_active, take_pending, push,
  queue_in_loop, advance, advances, queues, other_pushes, Reachable, start, next,
}
use sznet.EventLoop.Order.{all_queued, advance-in_order}
use sznet.EventLoop.Quit.{drive, moves_left, Ended, drive-Ended}

-- The loop begins and runs its timers.
at_timers : Reachable false [] (run_timers (begin new))
unfolding advance
at_timers = next (next start (advances refl)) (advances refl)

-- At the poll, after another thread queued 7.
abbrev woken : EventLoop
woken = record (push (poll (run_timers (begin new))) 7) { waking = 1 }

at_poll : Reachable false (7 ∷ []) woken
unfolding advance
at_poll = next (next at_timers (advances refl)) (other_pushes 7)

-- The functor 7 is about to be called, and queues 8.
abbrev nested : EventLoop
nested = queue_in_loop true (take_pending (handle_active woken)) 8

at_nested : Reachable false (7 ∷ 8 ∷ []) nested
unfolding advance
at_nested = next (next (next at_poll (advances refl)) (advances refl)) (queues 8 refl)

advance-in_order_example :
    (all_queued nested ≡ 7 ∷ 8 ∷ []) × Ensures (λ l'. all_queued l' ≡ 7 ∷ 8 ∷ []) (advance nested)
advance-in_order_example = advance-in_order at_nested

-- The loop is told to quit while it waits.
abbrev quitting : EventLoop
quitting = record woken { quit = true }

drive-Ended_example : Ensures (Ended quitting) (drive (moves_left polling 1) quitting)
drive-Ended_example = drive-Ended quitting refl refl
