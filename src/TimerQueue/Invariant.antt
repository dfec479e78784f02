-- ===== src/TimerQueue/Invariant.antt =====
-- The heap, the active set and the timers in memory agree, and `addTimer` and `cancel` keep them so.
use sznet.Base.{
  ℕ, suc, ◌^◌, ◌≤◌, ◌<◌, ◌≡◌, refl, ap, ◌∙◌, inl, inr, Bool, true, false, ◌&&◌, ◌||◌, Option, none,
  some, arith, Bool-cases, eq_self, ◌==◌, if◌then◌else◌,
}
use sznet.Run.{Ensures, returned, Ensures-bind, Ensures-assert}
use sznet.MinHeap.{update}
use sznet.MinHeap.Linked.{is_some}
use sznet.MinHeap.Laws.{IsHeap, IsHeap-congr, contains, push-Added}
use sznet.TimerQueue.{Timer, TimerQueue, expiration_of, event_greater, add_timer_in_loop, same_size}

abbrev pub has_sequence : Option Timer → ℕ → Bool
has_sequence none s = false
has_sequence (some timer) s = timer.sequence == s

-- The heap is in order, its elements are timers in memory, and the active set holds exactly these,
-- each with its own sequence number.
pub record IsValid (q : TimerQueue) : Type 0 where
  pub heap : IsHeap (expiration_of q.timers) q.heap
  pub counted : q.active.count ≡ q.heap.size
  pub active : (t s : ℕ) → q.active.member t s ≡ (contains q.heap t && has_sequence (q.timers t) s)
  pub live : (t : ℕ) → contains q.heap t ≡ true → is_some (q.timers t) ≡ true
  pub unused : (t : ℕ) → q.extent ≤ t → q.timers t ≡ none

-- A write to memory that no element of the heap stands in does not matter.
pub IsValid-write :
    (q : TimerQueue) (t : ℕ) (o : Option Timer) (extent created : ℕ)
    → IsValid q
    → contains q.heap t ≡ false
    → q.extent ≤ extent
    → t < extent
    → IsValid (record q { timers = update q.timers t o; extent = extent; created = created })
IsValid-write q t o extent created v out wider inside = record {
  heap =
      IsHeap-congr (expiration_of q.timers) (expiration_of (update q.timers t o)) q.heap
        (λ p c.
          ap (λ b. elim (if b then o else q.timers p) [ none ↦ 0 | some timer ↦ timer.expiration ])
            (apart p c))
        v.heap;
  counted = v.counted;
  active = λ u s. v.active u s ∙ elim (Bool-cases (contains q.heap u)) [
    | inl c ↦ rw (c, apart u c) refl
    | inr c ↦ rw (c) refl
  ];
  live = λ u c. rw (apart u c) (v.live u c);
  unused = λ u p. rw (beyond u p) (v.unused u (omega (arith, wider)));
}
  where
    beyond : (u : ℕ) → extent ≤ u → (t == u) ≡ false
    beyond u p = ground (arith, inside)

    apart : (u : ℕ) → contains q.heap u ≡ true → (t == u) ≡ false
    apart u c = ground (arith, out, c)

-- `q'` is `q` with the timer at `t` in the heap as well.
pub record Armed (q : TimerQueue) (t : ℕ) (q' : TimerQueue) : Type 0 where
  pub valid : IsValid q'
  pub size : q'.heap.size ≡ suc q.heap.size
  pub members : (p : ℕ) → contains q'.heap p ≡ ((p == t) || contains q.heap p)
  pub timers : q'.timers ≡ q.timers
  pub ran : q'.ran ≡ q.ran

pub add_timer_in_loop-Armed :
    (q : TimerQueue) (t : ℕ) (timer : Timer)
    → IsValid q
    → q.timers t ≡ some timer
    → contains q.heap t ≡ false
    → suc q.heap.size < 2 ^ 31
    → Ensures (Armed q t) (add_timer_in_loop false q t timer)
unfolding add_timer_in_loop
add_timer_in_loop-Armed q t timer v at out small =
    Ensures-assert (same_size q) (rw (v.counted) (eq_self q.heap.size)) (
      Ensures-bind
        (push-Added (expiration_of q.timers) (event_greater q.timers) (λ p r. refl) q.heap t v.heap
          out small)
        λ heap added. rw unknown (
          Ensures-assert (heap.size == suc q.active.count)
            (rw (added.size, v.counted) (eq_self (suc q.heap.size)))
            (returned (record {
              valid = record {
                heap = added.valid;
                counted = omega (arith, v.counted, added.size);
                active = λ u s. ground (arith, v.active u s, added.members u, at);
                live = λ u c. ground (arith, v.live u, added.members u, at);
                unused = v.unused;
              };
              size = added.size;
              members = added.members;
              timers = refl;
              ran = refl;
            }))))
  where
    unknown : q.active.member t timer.sequence ≡ false
    unknown = ground (arith, v.active t timer.sequence, out)
