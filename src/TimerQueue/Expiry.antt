-- ===== src/TimerQueue/Expiry.antt =====
-- `expiredProcess` of sznet/time/TimerQueue.cpp.
use sznet.Base.{
  ℕ, suc, ◌+◌, ◌^◌, ◌≤◌, ◌<◌, ◌≡◌, ◌≢◌, refl, true, false, Option, none, some, arith, eq_self, leb,
  ltb, Bool, if◌then◌else◌, List, ◌∷◌,
}
use sznet.Run.{Run, ok, Ensures, returned, Ensures-bind, Ensures-if, Ensures-weaken, Ensures-assert}
use sznet.MinHeap.{MinHeap, update, top}
use sznet.MinHeap.Laws.{contains, pop-Removed, Removed}
use sznet.TimerQueue.{
  Timer, TimerQueue, Request, expiration_of, event_greater, restart, restarted, remove, rearm, run,
  expire,
}
use sznet.TimerQueue.Invariant.{IsValid, IsValid-write, add_timer_in_loop-Armed}
use sznet.TimerQueue.Requests.{IsValid-Removed, active_inside}
use sznet.TimerQueue.Calm.{
  advances, expired, expired_write, all_calm, length, Serving, serve_all-Serving,
}

pub restart-ok :
    (timer : Timer) (now : ℕ)
    → ltb (now + timer.interval) (2 ^ 63) ≡ true
    → restart timer now ≡ ok (restarted timer now)
unfolding restart
restart-ok timer now sound = rw sound (if_same timer.repeat (ok (restarted timer now)))
  where
    if_same : (b : Bool) (r : Run Timer) → (if b then r else r) ≡ r
    if_same true r = refl
    if_same false r = refl

-- A round for the timer at `t`: it has run and is not expired any more, and no other timer has
-- become expired. `k` bounds what a callback adds.
pub record Round (now k t : ℕ) (q q' : TimerQueue) : Type 0 where
  pub valid : IsValid q'
  pub size : q'.heap.size ≤ q.heap.size + k
  pub advancing : (p : ℕ) → advances now (q'.timers p) ≡ true
  pub fewer : (p : ℕ) → expired q' now p ≡ true → (p ≢ t) × (expired q now p ≡ true)

-- The timer at the top out of the heap and of the active set, and its callback noted.
abbrev popped : TimerQueue → ℕ → Timer → MinHeap → TimerQueue
popped q t timer heap = record q {
  heap = heap;
  active = (remove q.active t timer.sequence).1;
  ran = timer.callback ∷ q.ran;
}

module _ (alloc : ℕ → (ℕ → Option Timer) → ℕ)
    (fresh : (extent : ℕ) (timers : ℕ → Option Timer)
      → ((p : ℕ) → extent ≤ p → timers p ≡ none)
      → timers (alloc extent timers) ≡ none)
    (acts : ℕ → List Request) (now k : ℕ) (calm_acts : (c : ℕ) → all_calm now (acts c) ≡ true)
    (few_acts : (c : ℕ) → length (acts c) ≤ k) where
  rearm-Round :
      (q q1 : TimerQueue) (t n : ℕ) (timer : Timer)
      → Serving now t timer q n q1
      → contains q.heap t ≡ false
      → suc (q.heap.size + n) < 2 ^ 31
      → Ensures (Round now (suc n) t q) (rearm false alloc acts q1 t now)
  unfolding rearm
  rearm-Round q q1 t n timer s gone small =
      rw (s.own, rearm)
        (Ensures-if timer.repeat
          (λ again.
            let sound : ltb (now + timer.interval) (2 ^ 63) ≡ true =
              ground (arith, s.advancing t, s.own, again) in
            rw (restart-ok timer now sound) (
              Ensures-weaken
                (add_timer_in_loop-Armed
                  (record q1 { timers = update q1.timers t (some (restarted timer now)) }) t
                  (restarted timer now)
                  (IsValid-write q1 t (some (restarted timer now)) q1.extent q1.created s.valid
                    s.out (omega arith) inside)
                  (rw (eq_self t) refl) s.out (omega (arith, s.size, small)))
                λ q2 armed. record {
                  valid = armed.valid;
                  size = omega (arith, armed.size, s.size);
                  advancing =
                      λ p. rw armed.timers (ground (arith, s.advancing p, s.advancing t, s.own));
                  fewer = λ p e. apart p (
                      s.fewer p (
                        expired_write q1 q2 now t (some (restarted timer now)) p armed.timers
                          (λ c. later again) (λ other c. ground (arith, armed.members p)) e));
                }))
          λ once. returned (record {
            valid = IsValid-write q1 t none q1.extent q1.created s.valid s.out (omega arith) inside;
            size = omega (arith, s.size);
            advancing = λ p. ground (arith, s.advancing p);
            fewer = λ p e. apart p (
                s.fewer p (
                  expired_write q1 (record q1 { timers = update q1.timers t none }) now t none p
                    refl (λ c. absurd (ground (arith, s.out, c))) (λ other c. c) e));
          }))
    where
      inside : t < q1.extent
      inside = active_inside q1 t s.valid (rw s.own refl)

      apart : (p : ℕ) → expired q now p ≡ true → (p ≢ t) × (expired q now p ≡ true)
      apart p e = ((λ same. ground (arith, gone, e, same)), e)

      later : timer.repeat ≡ true → leb (restarted timer now).expiration now ≡ false
      later again = rw again (ground (arith, s.advancing t, s.own))

  popped-Serving :
      (q : TimerQueue) (t : ℕ) (timer : Timer) (heap : MinHeap)
      → IsValid q
      → ((p : ℕ) → advances now (q.timers p) ≡ true)
      → q.timers t ≡ some timer
      → q.active.member t timer.sequence ≡ true
      → Removed (expiration_of q.timers) q.heap t heap
      → Serving now t timer (popped q t timer heap) 0 (popped q t timer heap)
  popped-Serving q t timer heap v advancing at known gone =
      let w = IsValid-Removed q t timer.sequence heap v known gone in
      record {
        valid = record {
          heap = w.heap;
          counted = w.counted;
          active = w.active;
          live = w.live;
          unused = w.unused;
        };
        own = at;
        out = ground (arith, gone.members t);
        size = omega arith;
        advancing = advancing;
        fewer = λ p e. e;
      }

  pub expire-Round :
      (q : TimerQueue) (t : ℕ) (timer : Timer)
      → IsValid q
      → ((p : ℕ) → advances now (q.timers p) ≡ true)
      → top q.heap ≡ some t
      → q.timers t ≡ some timer
      → q.heap.size + k < 2 ^ 31
      → Ensures (Round now k t q) (expire false alloc acts q t timer now)
  unfolding expire run top
  expire-Round q t timer v advancing first at small =
      Ensures-bind
        (pop-Removed (expiration_of q.timers) (event_greater q.timers) (λ p r. refl) q.heap v.heap
          (ground (arith, first)))
        λ (o, heap) (e, same, highest, member, least, gone).
          let here : e ≡ t = ground (arith, first, highest) in
          let gone_t : Removed (expiration_of q.timers) q.heap t heap = rw here at gone in
          let known : q.active.member t timer.sequence ≡ true =
            ground (arith, v.active t timer.sequence, eq_self timer.sequence, at, here, member) in
          Ensures-assert ((remove q.active t timer.sequence).0) (rw known refl) (
            Ensures-bind
              (serve_all-Serving alloc fresh acts now t timer (popped q t timer heap)
                (acts timer.callback) 0 (popped q t timer heap)
                (popped-Serving q t timer heap v advancing at known gone_t)
                (calm_acts timer.callback) (omega (arith, gone.size, few_acts timer.callback)))
              λ q1 s.
                Ensures-weaken
                  (rearm-Round (popped q t timer heap) q1 t (0 + length (acts timer.callback)) timer
                    s (ground (arith, gone_t.members t))
                    (omega (arith, gone.size, few_acts timer.callback)))
                  λ q2 r. record {
                    valid = r.valid;
                    size = omega (arith, r.size, gone.size, few_acts timer.callback);
                    advancing = r.advancing;
                    fewer = λ p e.
                        let (other, before) = r.fewer p e in
                        (other, ground (arith, gone_t.members p, before));
                  })
