-- ===== src/EventLoop/Quit.antt =====
-- How `loop` of sznet/net/EventLoop.cpp ends.
use sznet.Base.{
  ℕ, zero, suc, ◌≡◌, refl, ap, ◌∙◌, true, false, List, [], ◌∷◌, ◌++◌, length, append-nil,
  append_assoc,
}
use sznet.Run.{Run, ok, ◌>>=◌, Ensures, returned, Ensures-weaken}
use sznet.EventLoop.{
  Phase, outside, testing, in_timers, polling, handling, calling_left, EventLoop, advance, destroy,
  is_outside, finish, take_pending, handle_active, poll,
}
use sznet.EventLoop.Order.{all_queued}

-- The thread of the loop makes so many moves.
unfoldable pub drive : ℕ → EventLoop → Run EventLoop
drive zero l = ok l
drive (suc n) l = advance l >>= λ l'. drive n l'

-- How many moves it is from the end, if nothing is queued.
abbrev pub moves_left : Phase → ℕ → ℕ
moves_left outside waiting = 0
moves_left testing waiting = 1
moves_left in_timers waiting = suc (suc (suc (suc (suc waiting))))
moves_left polling waiting = suc (suc (suc (suc waiting)))
moves_left handling waiting = suc (suc (suc waiting))
moves_left (calling_left fs) waiting = suc (suc (length fs))

-- What is not called any more: the functors that wait behind the point where they are taken.
abbrev pub left_over : Phase → List ℕ → List ℕ
left_over outside pending = pending
left_over testing pending = pending
left_over (calling_left fs) pending = pending
left_over in_timers pending = []
left_over polling pending = []
left_over handling pending = []

pub record Ended (l l' : EventLoop) : Type 0 where
  pub outside : is_outside l'.phase ≡ true
  pub looping : l'.looping ≡ false
  pub in_order : destroy l' ≡ all_queued l
  pub pending : l'.pending ≡ left_over l.phase l.pending

testing-Ended :
    (l : EventLoop)
    → l.quit ≡ true
    → Ensures (Ended (record l { phase = testing })) (drive 1 (record l { phase = testing }))
unfolding drive advance
testing-Ended l quitting = rw quitting (
    returned {a = finish (record l { quit = true })}
      (record { outside = refl; looping = refl; in_order = refl; pending = refl }))

calling-Ended :
    (fs : List ℕ) (l : EventLoop)
    → l.quit ≡ true
    → Ensures
        (Ended (record l { phase = calling_left fs }))
        (drive (suc (suc (length fs))) (record l { phase = calling_left fs }))
unfolding drive advance
calling-Ended [] l quitting =
    Ensures-weaken (testing-Ended (record l { calling = false }) quitting) λ l' e. record {
      outside = e.outside;
      looping = e.looping;
      pending = e.pending;
      in_order = e.in_order;
    }
calling-Ended (f ∷ fs) l quitting =
    Ensures-weaken (calling-Ended fs (record l { executed = l.executed ++ f ∷ [] }) quitting)
      λ l' e. record {
        outside = e.outside;
        looping = e.looping;
        pending = e.pending;
        in_order = e.in_order ∙ append_assoc l.executed (f ∷ []) (fs ++ l.pending);
      }

handling-Ended :
    (l : EventLoop)
    → l.quit ≡ true
    → Ensures
        (Ended (record l { phase = handling }))
        (drive (suc (suc (suc (length l.pending)))) (record l { phase = handling }))
unfolding drive advance
handling-Ended l quitting =
    Ensures-weaken (calling-Ended l.pending (take_pending l) quitting) λ l' e. record {
      outside = e.outside;
      looping = e.looping;
      pending = e.pending;
      in_order = e.in_order ∙ ap (◌++◌ l.executed) (append-nil l.pending);
    }

polling-Ended :
    (l : EventLoop)
    → l.quit ≡ true
    → Ensures
        (Ended (record l { phase = polling }))
        (drive (suc (suc (suc (suc (length l.pending))))) (record l { phase = polling }))
unfolding drive advance
polling-Ended l quitting = Ensures-weaken (handling-Ended (handle_active l) quitting) λ l' e.
    record { outside = e.outside; looping = e.looping; pending = e.pending; in_order = e.in_order }

drive_at-Ended :
    (l : EventLoop) (p : Phase)
    → l.quit ≡ true
    → is_outside p ≡ false
    → Ensures
        (Ended (record l { phase = p }))
        (drive (moves_left p (length l.pending)) (record l { phase = p }))
unfolding drive advance
drive_at-Ended l outside quitting inside = cc
drive_at-Ended l testing quitting inside = testing-Ended l quitting
drive_at-Ended l in_timers quitting inside =
    Ensures-weaken (polling-Ended (poll l) quitting) λ l' e. record {
      outside = e.outside;
      looping = e.looping;
      pending = e.pending;
      in_order = e.in_order;
    }
drive_at-Ended l polling quitting inside = polling-Ended l quitting
drive_at-Ended l handling quitting inside = handling-Ended l quitting
drive_at-Ended l (calling_left fs) quitting inside = calling-Ended fs l quitting

-- If quit is set while the loop runs, its thread, to which nothing more is queued, leaves the
-- loop after at most as many moves as there are functors that wait or are being called, and five:
-- what was queued before it took the functors for the last time has been called, in order, and
-- the destructor calls the rest, in order.
pub drive-Ended :
    (l : EventLoop)
    → l.quit ≡ true
    → is_outside l.phase ≡ false
    → Ensures (Ended l) (drive (moves_left l.phase (length l.pending)) l)
drive-Ended l quitting inside = drive_at-Ended l l.phase quitting inside
