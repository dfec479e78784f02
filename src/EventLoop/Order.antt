-- ===== src/EventLoop/Order.antt =====
-- The order in which the functors of sznet/net/EventLoop.cpp are called.
use sznet.Base.{
  ℕ, ◌≡◌, refl, ap, ◌∙◌, sym, Bool, true, false, not, List, [], ◌∷◌, ◌++◌, inl, inr, Bool-cases,
  arith, append-nil, append_assoc,
}
use sznet.Run.{ok, Ensures, returned, Ensures-assert, Ensures-weaken, Ensures_of_ok}
use sznet.EventLoop.{
  Phase, outside, testing, in_timers, polling, handling, calling_left, EventLoop, wakeup,
  handle_read, set_quit, queue_in_loop, begin, finish, run_timers, poll, handle_active,
  take_pending, call_functor, end_calling, advance, is_outside, is_handling, is_calling, left, Step,
  advances, reads, queues, quits, other_pushes, other_quits, other_wakes, Reachable, start, next,
}

-- All that was queued, in this order: what was called, what is left of the functors that are being called,
-- and what waits.
abbrev pub all_queued : EventLoop → List ℕ
all_queued l = l.executed ++ (left l.phase ++ l.pending)

-- The flags tell where the thread is.
pub record IsValid (l : EventLoop) : Type 0 where
  pub looping : l.looping ≡ not (is_outside l.phase)
  pub event_handling : l.event_handling ≡ is_handling l.phase
  pub calling : l.calling ≡ is_calling l.phase

pub record Kept (queued : List ℕ) (l l' : EventLoop) : Type 0 where
  pub valid : IsValid l'
  pub in_order : all_queued l' ≡ all_queued l ++ queued

moves :
    {l : EventLoop} (l' : EventLoop)
    → IsValid l'
    → all_queued l' ≡ all_queued l
    → Ensures (Kept [] l) (ok l')
moves {l} l' v same =
    returned (record { valid = v; in_order = same ∙ sym (append-nil (all_queued l)) })

-- The phase shown as a constructor decides what `advance` does.
advance_at-Kept :
    (l : EventLoop) (p : Phase)
    → IsValid (record l { phase = p })
    → Ensures (Kept [] (record l { phase = p })) (advance (record l { phase = p }))
unfolding advance
advance_at-Kept l outside v = Ensures-assert (not l.looping) (rw v.looping refl) (
    moves (begin l)
      (record { looping = refl; event_handling = v.event_handling; calling = v.calling }) refl)
advance_at-Kept l testing v = elim (Bool-cases l.quit) [
  | inl quitting ↦ rw quitting (
      moves (finish (record l { quit = true }))
        (record { looping = refl; event_handling = v.event_handling; calling = v.calling }) refl)
  | inr going ↦ rw going (
      moves (run_timers (record l { quit = false }))
        (record { looping = v.looping; event_handling = v.event_handling; calling = v.calling })
        refl)
]
advance_at-Kept l in_timers v =
    moves (poll l)
      (record { looping = v.looping; event_handling = v.event_handling; calling = v.calling }) refl
advance_at-Kept l polling v =
    moves (handle_active l)
      (record { looping = v.looping; event_handling = refl; calling = v.calling }) refl
advance_at-Kept l handling v =
    moves (take_pending l) (record { looping = v.looping; event_handling = refl; calling = refl })
      (ap (◌++◌ l.executed) (append-nil l.pending))
advance_at-Kept l (calling_left []) v =
    moves (end_calling l)
      (record { looping = v.looping; event_handling = v.event_handling; calling = refl }) refl
advance_at-Kept l (calling_left (f ∷ fs)) v =
    moves (call_functor l f fs)
      (record { looping = v.looping; event_handling = v.event_handling; calling = v.calling })
      (append_assoc l.executed (f ∷ []) (fs ++ l.pending))

pub advance-Kept : (l : EventLoop) → IsValid l → Ensures (Kept [] l) (advance l)
advance-Kept l v = advance_at-Kept l l.phase v

push-Kept :
    (l l' : EventLoop) (f : ℕ)
    → IsValid l'
    → l'.executed ≡ l.executed
    → l'.phase ≡ l.phase
    → l'.pending ≡ l.pending ++ f ∷ []
    → Kept (f ∷ []) l l'
push-Kept l l' f v e p q = record {
  valid = v;
  in_order =
      rw (e, p, q)
        (ap (◌++◌ l.executed) (sym (append_assoc (left l.phase) l.pending (f ∷ [])))
          ∙ sym (append_assoc l.executed (left l.phase ++ l.pending) (f ∷ [])));
}

still :
    (l l' : EventLoop)
    → l'.executed ≡ l.executed
    → l'.phase ≡ l.phase
    → l'.pending ≡ l.pending
    → IsValid l'
    → Kept [] l l'
still l l' e p q v = record { valid = v; in_order = rw (e, p, q) (sym (append-nil (all_queued l))) }

same_flags :
    (l l' : EventLoop)
    → l'.looping ≡ l.looping
    → l'.event_handling ≡ l.event_handling
    → l'.calling ≡ l.calling
    → l'.phase ≡ l.phase
    → IsValid l
    → IsValid l'
same_flags l l' a b c d v = record {
  looping = a ∙ v.looping ∙ rw d refl;
  event_handling = b ∙ v.event_handling ∙ rw d refl;
  calling = c ∙ v.calling ∙ rw d refl;
}

Step-Kept :
    {early : Bool} {queued : List ℕ} {l l' : EventLoop}
    → Step early l queued l'
    → IsValid l
    → Kept queued l l'
unfolding handle_read set_quit queue_in_loop wakeup
Step-Kept (advances {l} e) v = Ensures_of_ok e (advance-Kept l v)
Step-Kept (reads {l} at) v = still l _ refl refl refl (same_flags l _ refl refl refl refl v)
Step-Kept (queues {l} f h) v =
    push-Kept l _ f (same_flags l _ (ground arith) (ground arith) (ground arith) (ground arith) v)
      (ground arith) (ground arith) (ground arith)
Step-Kept (quits {l}) v = still l _ refl refl refl (same_flags l _ refl refl refl refl v)
Step-Kept (other_pushes {l} f) v =
    push-Kept l _ f (same_flags l _ refl refl refl refl v) refl refl refl
Step-Kept (other_quits {l}) v = still l _ refl refl refl (same_flags l _ refl refl refl refl v)
Step-Kept (other_wakes {l} n h) v = still l _ refl refl refl (same_flags l _ refl refl refl refl v)

pub Reachable-Kept :
    {early : Bool} {queued : List ℕ} {l : EventLoop}
    → Reachable early queued l
    → IsValid l × (all_queued l ≡ queued)
Reachable-Kept start = (record { looping = refl; event_handling = refl; calling = refl }, refl)
Reachable-Kept (next {more = more} r s) =
    let (v, same) = Reachable-Kept r in
    let k = Step-Kept s v in (k.valid, k.in_order ∙ ap (λ q. q ++ more) same)

-- After every history of an event loop, with any number of other threads, what was called, what
-- is being called and what waits are together, in this order, the functors in the order in which
-- they were queued, and the next thing that the thread of the loop does returns and keeps this.
pub advance-in_order :
    {early : Bool} {queued : List ℕ} {l : EventLoop}
    → Reachable early queued l
    → (all_queued l ≡ queued) × Ensures (λ l'. all_queued l' ≡ queued) (advance l)
advance-in_order {l = l} r =
    let (v, same) = Reachable-Kept r in
    (same, Ensures-weaken (advance-Kept l v) λ l' k. k.in_order ∙ append-nil (all_queued l) ∙ same)
