-- ===== src/TimerQueue/Drain.antt =====
-- The loop of `expiredProcess` in sznet/time/TimerQueue.cpp, and the expired timers that it has left.
use sznet.Base.{
  ℕ, zero, suc, ◌+◌, ◌*◌, ◌^◌, ◌≤◌, ◌<◌, ◌≡◌, ◌≢◌, refl, inl, inr, Bool, true, false, Option, none,
  some, arith, Bool-cases, Option-cases, eq_self, ltb, ◌==◌, if◌then◌else◌, List,
}
use sznet.Run.{Ensures, returned, Ensures-bind, Ensures-if, Ensures-assert}
use sznet.MinHeap.{MinHeap, top}
use sznet.MinHeap.Laws.{IsHeap, contains, root_least}
use sznet.TimerQueue.{
  Timer, TimerQueue, Request, expiration_of, expired_loop, expired_process, same_size,
}
use sznet.TimerQueue.Invariant.{IsValid}
use sznet.TimerQueue.Calm.{advances, expired, all_calm, length}
use sznet.TimerQueue.Expiry.{Round, expire-Round}

-- How many of the slots below `n` hold what passes `f`.
abbrev count : (ℕ → Bool) → (ℕ → ℕ) → ℕ → ℕ
count f slots zero = 0
count f slots (suc n) = (if f (slots n) then 1 else 0) + count f slots n

count_le :
    (f g : ℕ → Bool) (slots : ℕ → ℕ) (n : ℕ)
    → ((p : ℕ) → f p ≡ true → g p ≡ true)
    → count f slots n ≤ count g slots n
count_le f g slots zero fewer = omega arith
count_le f g slots (suc n) fewer = ground (arith, count_le f g slots n fewer, fewer (slots n))

count_lt :
    (f g : ℕ → Bool) (slots : ℕ → ℕ) (n i : ℕ)
    → ((p : ℕ) → f p ≡ true → g p ≡ true)
    → i < n
    → f (slots i) ≡ false
    → g (slots i) ≡ true
    → count f slots n < count g slots n
count_lt f g slots zero i fewer below off on = absurd (omega arith)
count_lt f g slots (suc n) i fewer below off on = elim (Bool-cases (i == n)) [
  | inl last ↦ ground (arith, count_le f g slots n fewer, last, off, on)
  | inr before ↦ ground (arith, count_lt f g slots n i fewer, fewer (slots n), before)
]

count_bound : (f : ℕ → Bool) (slots : ℕ → ℕ) (n : ℕ) → count f slots n ≤ n
count_bound f slots zero = omega arith
count_bound f slots (suc n) = ground (arith, count_bound f slots n)

pub element_at :
    (key : ℕ → ℕ) (h : MinHeap) (p : ℕ)
    → IsHeap key h
    → contains h p ≡ true
    → (i : ℕ) × (i < h.size) × (h.slots i ≡ p)
element_at key h p v c = elim (Option-cases (h.idx p)) [
  | inl out ↦ absurd (ground (arith, c, out))
  | inr (i, at) ↦ let (below, here) = v.stored p i at in (i, below, here)
]

top-none : (h : MinHeap) → top h ≡ none → h.size ≡ 0
unfolding top
top-none h bare = ground (arith, bare)

top_root : (h : MinHeap) (t : ℕ) → top h ≡ some t → (0 < h.size) × (h.slots 0 ≡ t)
unfolding top
top_root h t first = (ground (arith, first), ground (arith, first))

-- The timer at the top is an active one, and none is due earlier.
top_active :
    (q : TimerQueue) (t : ℕ)
    → IsValid q
    → top q.heap ≡ some t
    → (contains q.heap t ≡ true)
      × ((p : ℕ) → contains q.heap p ≡ true → expiration_of q.timers t ≤ expiration_of q.timers p)
top_active q t v first =
    let (busy, root) = top_root q.heap t first in
    let member : contains q.heap (q.heap.slots 0) ≡ true = ground (arith, v.heap.indexed 0 busy) in
    let least : (p : ℕ)
        → contains q.heap p ≡ true
        → expiration_of q.timers (q.heap.slots 0) ≤ expiration_of q.timers p =
      λ p c. root_least (expiration_of q.timers) q.heap p v.heap c in
    (rw root at member, λ p c. rw root at (least p c))

-- A round leaves fewer expired timers.
Round-fewer :
    (now k t : ℕ) (q q1 : TimerQueue) (slots : ℕ → ℕ) (n : ℕ)
    → Round now k t q q1
    → expired q now t ≡ true
    → (i : ℕ) × (i < n) × (slots i ≡ t)
    → count (expired q1 now) slots n < count (expired q now) slots n
Round-fewer now k t q q1 slots n r due (i, below, here) =
    count_lt (expired q1 now) (expired q now) slots n i (λ p e. (r.fewer p e).1) below (rw here off)
      (rw here due)
  where
    off : expired q1 now t ≡ false
    off = elim (Bool-cases (expired q1 now t)) [ inl e ↦ absurd ((r.fewer t e).0 refl) | inr e ↦ e ]

-- No timer of the queue is expired.
pub record Drained (now : ℕ) (q : TimerQueue) : Type 0 where
  pub valid : IsValid q
  pub advancing : (p : ℕ) → advances now (q.timers p) ≡ true
  pub later : (p : ℕ) → contains q.heap p ≡ true → now < expiration_of q.timers p

module _ (alloc : ℕ → (ℕ → Option Timer) → ℕ)
    (fresh : (extent : ℕ) (timers : ℕ → Option Timer)
      → ((p : ℕ) → extent ≤ p → timers p ≡ none)
      → timers (alloc extent timers) ≡ none)
    (acts : ℕ → List Request) (now k : ℕ) (calm_acts : (c : ℕ) → all_calm now (acts c) ≡ true)
    (few_acts : (c : ℕ) → length (acts c) ≤ k) where
  expired_loop-Drained :
      (slots : ℕ → ℕ) (n fuel : ℕ) (q : TimerQueue)
      → IsValid q
      → ((p : ℕ) → advances now (q.timers p) ≡ true)
      → ((p : ℕ) → expired q now p ≡ true → (i : ℕ) × (i < n) × (slots i ≡ p))
      → count (expired q now) slots n < fuel
      → q.heap.size + fuel * k < 2 ^ 31
      → Ensures (Drained now) (expired_loop false alloc acts fuel q now)
  unfolding expired_loop
  expired_loop-Drained slots n zero q v advancing listed enough small = absurd (omega arith)
  expired_loop-Drained slots n (suc fuel) q v advancing listed enough small =
      elim (Option-cases (top q.heap)) [
        | inl bare ↦
            rw (bare, expired_loop)
              (returned (record {
                valid = v;
                advancing = advancing;
                later = λ p c. absurd (nothing bare p c);
              }))
        | inr (t, first) ↦ elim (Option-cases (q.timers t)) [
          | inl missing ↦ absurd (ground (arith, v.live t (top_active q t v first).0, missing))
          | inr (timer, at) ↦
              rw (first, at, expired_loop)
                (Ensures-if (ltb now timer.expiration)
                  (λ later. returned (record {
                    valid = v;
                    advancing = advancing;
                    later = λ p c. ground (arith, later, at, (top_active q t v first).1 p c);
                  }))
                  λ due.
                    Ensures-bind
                      (expire-Round alloc fresh acts now k calm_acts few_acts q t timer v advancing
                        first at (omega arith))
                      λ q1 r.
                        expired_loop-Drained slots n fuel q1 r.valid r.advancing
                          (λ p e. listed p (r.fewer p e).1)
                          (omega (
                            arith,
                            enough,
                            Round-fewer now k t q q1 slots n r (due_now t timer first at due)
                                (listed t (due_now t timer first at due)),
                          ))
                          (omega (arith, r.size, small)))
        ]
      ]
    where
      nothing : top q.heap ≡ none → (p : ℕ) → contains q.heap p ≢ true
      nothing bare p c =
          let (i, below, at) = element_at (expiration_of q.timers) q.heap p v.heap c in
          ground (arith, top-none q.heap bare, below)

      due_now :
          (t : ℕ) (timer : Timer)
          → top q.heap ≡ some t
          → q.timers t ≡ some timer
          → ltb now timer.expiration ≡ false
          → expired q now t ≡ true
      due_now t timer first at due = ground (arith, (top_active q t v first).0, at, due)

  -- In a build whose assertions are evaluated, on a valid queue, if no callback leaves an expired
  -- timer behind or asks for more than k things, every repeating timer has an interval of a
  -- microsecond at least that, added to the time now, stays below 2^63, the allocator returns
  -- unused addresses and the heap stays below 2^31 elements, expiredProcess returns after at most
  -- one round a timer, and the result is valid and has no expired timer.
  pub expired_process-Drained :
      (q : TimerQueue)
      → IsValid q
      → ((p : ℕ) → advances now (q.timers p) ≡ true)
      → q.heap.size + suc q.heap.size * k < 2 ^ 31
      → Ensures (Drained now) (expired_process false alloc acts (suc q.heap.size) q now)
  unfolding expired_process
  expired_process-Drained q v advancing small =
      Ensures-assert (same_size q) (rw v.counted (eq_self q.heap.size)) (
        Ensures-bind
          (expired_loop-Drained q.heap.slots q.heap.size (suc q.heap.size) q v advancing
            (λ p e. element_at (expiration_of q.timers) q.heap p v.heap (ground (arith, e)))
            (omega (arith, count_bound (expired q now) q.heap.slots q.heap.size)) small)
          λ q1 d.
            Ensures-assert (same_size q1) (rw d.valid.counted (eq_self q1.heap.size)) (returned d))
