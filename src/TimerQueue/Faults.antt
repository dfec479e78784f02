-- ===== src/TimerQueue/Faults.antt =====
-- sznet/time/TimerQueue.cpp: a cancelled timer in a build with NDEBUG, and a repeating
-- timer with an interval below a microsecond.
use sznet.Base.{
  ℕ, zero, suc, ◌≤◌, ◌<◌, ◌^◌, ◌≡◌, refl, ap, true, false, Option, some, arith, eq_self, ltb, List,
  [], ◌∷◌,
}
use sznet.Run.{
  fault, out_of_fuel, ◌>>=◌, Ensures, Ensures-bind, Ensures-if, Ensures-weaken, Ensures-assert,
  Ensures-value,
}
use sznet.MinHeap.{MinHeap, update, top}
use sznet.MinHeap.Laws.{IsHeap, contains, pop-Removed, Removed}
use sznet.TimerQueue.{
  Timer, TimerQueue, TimerId, Request, expiration_of, event_greater, restarted, remove, rearm, run,
  serve_all, erase_asserted, cancel_in_loop, expire, expired_loop, expired_process,
}
use sznet.TimerQueue.Invariant.{IsValid, IsValid-write, add_timer_in_loop-Armed}
use sznet.TimerQueue.Requests.{IsValid-Removed, active_inside}
use sznet.TimerQueue.Expiry.{restart-ok}
use sznet.TimerQueue.Drain.{element_at}

top_alone :
    (h : MinHeap) (t : ℕ) (key : ℕ → ℕ)
    → IsHeap key h
    → h.size ≡ 1
    → contains h t ≡ true
    → top h ≡ some t
unfolding top
top_alone h t key v alone c =
    let (i, below, here) = element_at key h t v c in
    let zeroth : i ≡ 0 = omega arith in rw alone (ap some (rw zeroth at here))

module _ (alloc : ℕ → (ℕ → Option Timer) → ℕ) (acts : ℕ → List Request) (now : ℕ) where
  -- Compiled with NDEBUG, if the timer at the top of the heap is cancelled by its id, the next
  -- expiredProcess reads freed memory.
  pub expired_process-fault :
      (q : TimerQueue) (i : TimerId) (fuel : ℕ)
      → q.active.member i.timer i.sequence ≡ true
      → top q.heap ≡ some i.timer
      → (cancel_in_loop true q i >>= λ q'. expired_process true alloc acts (suc fuel) q' now)
        ≡ fault
  unfolding cancel_in_loop erase_asserted expired_process expired_loop
  expired_process-fault q i fuel known first =
      rw known (rw (first, expired_process, expired_loop, eq_self i.timer) refl)

  -- The only timer of the queue repeats every 0 microseconds, and is due at a time below 2^63.
  pub record Spinning (q : TimerQueue) (t : ℕ) (timer : Timer) : Type 0 where
    pub valid : IsValid q
    pub alone : q.heap.size ≡ 1
    pub first : top q.heap ≡ some t
    pub at : q.timers t ≡ some timer
    pub repeats : timer.repeat ≡ true
    pub hasty : timer.interval ≡ 0
    pub due : timer.expiration ≤ now
    pub early : now < 2 ^ 63
    pub idle : acts timer.callback ≡ []

  expire-Spinning :
      (q : TimerQueue) (t : ℕ) (timer : Timer)
      → Spinning q t timer
      → Ensures (λ q'. Spinning q' t (restarted timer now)) (expire false alloc acts q t timer now)
  unfolding expire run rearm top serve_all
  expire-Spinning q t timer s =
      Ensures-bind
        (pop-Removed (expiration_of q.timers) (event_greater q.timers) (λ p r. refl) q.heap
          s.valid.heap (omega (arith, s.alone)))
        λ (o, heap) (e, same, highest, member, least, gone).
          let here : e ≡ t = ground (arith, s.first, highest) in
          let gone_t : Removed (expiration_of q.timers) q.heap t heap = rw here at gone in
          let known : q.active.member t timer.sequence ≡ true =
            ground (
              arith,
              s.valid.active t timer.sequence,
              eq_self timer.sequence,
              s.at,
              here,
              member,
            ) in
          let out : contains heap t ≡ false = ground (arith, gone_t.members t) in
          let w =
            IsValid-write (record q { heap = heap; active = (remove q.active t timer.sequence).1 })
              t (some (restarted timer now)) q.extent q.created
              (IsValid-Removed q t timer.sequence heap s.valid known gone_t) out (omega arith)
              (active_inside q t s.valid (rw s.at refl)) in
          Ensures-assert ((remove q.active t timer.sequence).0) (rw known refl) (
            rw (s.idle, s.at, serve_all, rearm)
              (Ensures-if timer.repeat
                (λ again. rw (restart-ok timer now (ground (arith, s.hasty, s.early))) (
                  Ensures-weaken
                    (add_timer_in_loop-Armed
                      (record q {
                        heap = heap;
                        active = (remove q.active t timer.sequence).1;
                        timers = update q.timers t (some (restarted timer now));
                        ran = timer.callback ∷ q.ran;
                      })
                      t (restarted timer now)
                      (record {
                        heap = w.heap;
                        counted = w.counted;
                        active = w.active;
                        live = w.live;
                        unused = w.unused;
                      })
                      (rw (eq_self t) refl) out (omega (arith, gone_t.size, s.alone)))
                    λ q' armed. record {
                      valid = armed.valid;
                      alone = omega (arith, armed.size, gone_t.size, s.alone);
                      first =
                          top_alone q'.heap t (expiration_of q'.timers) armed.valid.heap
                            (omega (arith, armed.size, gone_t.size, s.alone))
                            (ground (arith, armed.members t, eq_self t));
                      at = rw (armed.timers, eq_self t) refl;
                      repeats = rw again refl;
                      hasty = rw again s.hasty;
                      due = rw again (omega (arith, s.hasty));
                      early = s.early;
                      idle = rw again s.idle;
                    }))
                λ once. absurd (ground (arith, once, s.repeats))))

  -- If the only timer of a valid queue is due, at a time below 2^63, repeats with an interval below a
  -- microsecond, and its callback asks for nothing, no number of rounds is enough for expiredProcess.
  pub expired_loop-out_of_fuel :
      (fuel : ℕ) (q : TimerQueue) (t : ℕ) (timer : Timer)
      → Spinning q t timer
      → expired_loop false alloc acts fuel q now ≡ out_of_fuel
  unfolding expired_loop
  expired_loop-out_of_fuel zero q t timer s = refl
  expired_loop-out_of_fuel (suc fuel) q t timer s =
      let (q', round, s') = Ensures-value (expire-Spinning q t timer s) in
      let due : ltb now timer.expiration ≡ false = ground (arith, s.due) in
      rw (s.first, s.at, due, round, expired_loop)
        (expired_loop-out_of_fuel fuel q' t (restarted timer now) s')
