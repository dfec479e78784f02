-- ===== src/EventLoop.antt =====
-- sznet/net/EventLoop.h and EventLoop.cpp: the loop's thread, and the functors that it and other threads
-- queue. A functor is a number. What a callback does to the loop is a step of its own.
pub mod Order
pub mod Wakeup
pub mod Quit
mod Tests
use sznet.Base.{ℕ, suc, ◌+◌, ◌≡◌, Bool, true, false, not, ◌||◌, List, [], ◌∷◌, ◌++◌, if◌then◌else◌}
use sznet.Run.{Run, ok, ◌>>=◌, ◌>>◌, assert}

-- Where the loop's thread stands: not in `loop`, at the test of `m_quit`, in the callbacks of timers, in
-- the poll, in the callbacks of channels, or with functors of `doPendingFunctors` left to call.
pub data Phase : Type 0 where
  outside testing in_timers polling handling : Phase
  calling_left : (functors : List ℕ) → Phase

-- `wake` is the counter of the event descriptor, `waking` the number of other threads that have still to
-- write to it, and `executed` are the functors that were called, in their order.
pub record EventLoop : Type 0 where
  pub looping : Bool
  pub quit : Bool
  pub event_handling : Bool
  pub calling : Bool
  pub iteration : ℕ
  pub pending : List ℕ
  pub wake : ℕ
  pub waking : ℕ
  pub phase : Phase
  pub executed : List ℕ

abbrev pub new : EventLoop
new = record {
  looping = false;
  quit = false;
  event_handling = false;
  calling = false;
  iteration = 0;
  pending = [];
  wake = 0;
  waking = 0;
  phase = outside;
  executed = [];
}

pub wakeup : EventLoop → EventLoop
wakeup l = record l { wake = suc l.wake }

-- A read takes the whole counter.
pub handle_read : EventLoop → EventLoop
handle_read l = record l { wake = 0 }

pub set_quit : Bool → EventLoop → EventLoop
set_quit in_loop_thread l =
    let quitting = record l { quit = true } in if in_loop_thread then quitting else wakeup quitting

-- The part of `queueInLoop` with the mutex.
abbrev pub push : EventLoop → ℕ → EventLoop
push l f = record l { pending = l.pending ++ f ∷ [] }

pub queue_in_loop : Bool → EventLoop → ℕ → EventLoop
queue_in_loop in_loop_thread l f =
    let queued = push l f in if not in_loop_thread || queued.calling then wakeup queued else queued

-- The functors that are called at once, and the loop.
pub run_in_loop : Bool → EventLoop → ℕ → List ℕ × EventLoop
run_in_loop in_loop_thread l f =
    if in_loop_thread then (f ∷ [], l) else ([], queue_in_loop in_loop_thread l f)

-- What the thread does in `loop`, from one phase to the next.
abbrev pub begin : EventLoop → EventLoop
begin l = record l { looping = true; quit = false; phase = testing }

abbrev pub finish : EventLoop → EventLoop
finish l = record l { looping = false; phase = outside }

abbrev pub run_timers : EventLoop → EventLoop
run_timers l = record l { phase = in_timers }

abbrev pub poll : EventLoop → EventLoop
poll l = record l { phase = polling }

abbrev pub handle_active : EventLoop → EventLoop
handle_active l = record l { iteration = suc l.iteration; event_handling = true; phase = handling }

-- `doPendingFunctors`: the functors that wait are taken, then called one by one.
abbrev pub take_pending : EventLoop → EventLoop
take_pending l = record l {
  event_handling = false;
  calling = true;
  pending = [];
  phase = calling_left l.pending;
}

abbrev pub call_functor : EventLoop → ℕ → List ℕ → EventLoop
call_functor l f fs = record l { executed = l.executed ++ f ∷ []; phase = calling_left fs }

abbrev pub end_calling : EventLoop → EventLoop
end_calling l = record l { calling = false; phase = testing }

-- The next thing that the thread of the loop does.
pub advance : EventLoop → Run EventLoop
advance l = elim l.phase [
  | outside ↦ assert (not l.looping) >> ok (begin l)
  | testing ↦ ok (if l.quit then finish l else run_timers l)
  | in_timers ↦ ok (poll l)
  | polling ↦ ok (handle_active l)
  | handling ↦ ok (take_pending l)
  | calling_left [] ↦ ok (end_calling l)
  | calling_left (f ∷ fs) ↦ ok (call_functor l f fs)
]

-- The destructor calls the functors that wait still: all that were called in the end.
abbrev pub destroy : EventLoop → List ℕ
destroy l = l.executed ++ l.pending

abbrev pub is_outside : Phase → Bool
is_outside outside = true
is_outside _ = false

abbrev pub is_handling : Phase → Bool
is_handling handling = true
is_handling _ = false

abbrev pub is_calling : Phase → Bool
is_calling (calling_left fs) = true
is_calling _ = false

abbrev pub left : Phase → List ℕ
left (calling_left fs) = fs
left _ = []

-- A step of any thread, and the functors that it queues. The thread of the loop may queue one before the
-- poll, that is from the callback of a timer or when it does not loop, only if `early` allows it.
pub data Step (early : Bool) : EventLoop → List ℕ → EventLoop → Type 0 where
  advances : {l l' : EventLoop} → advance l ≡ ok l' → Step early l [] l'
  reads : {l : EventLoop} → is_handling l.phase ≡ true → Step early l [] (handle_read l)
  queues :
      {l : EventLoop} (f : ℕ)
      → (early || (is_handling l.phase || is_calling l.phase)) ≡ true
      → Step early l (f ∷ []) (queue_in_loop true l f)
  quits : {l : EventLoop} → Step early l [] (set_quit true l)
  other_pushes :
      {l : EventLoop} (f : ℕ) → Step early l (f ∷ []) (record (push l f) { waking = suc l.waking })
  other_quits : {l : EventLoop} → Step early l [] (record l { quit = true; waking = suc l.waking })
  other_wakes :
      {l : EventLoop} (n : ℕ)
      → l.waking ≡ suc n
      → Step early l [] (record (wakeup l) { waking = n })

-- The steps from a new loop on, with all that they queued.
pub data Reachable (early : Bool) : List ℕ → EventLoop → Type 0 where
  start : Reachable early [] new
  next :
      {queued more : List ℕ} {l l' : EventLoop}
      → Reachable early queued l
      → Step early l more l'
      → Reachable early (queued ++ more) l'
