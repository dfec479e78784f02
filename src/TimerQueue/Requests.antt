-- ===== src/TimerQueue/Requests.antt =====
-- `addTimer` and `cancel` of sznet/time/TimerQueue.cpp.
use sznet.Base.{
  ℕ, suc, ◌^◌, ◌<◌, ◌≡◌, ◌⊎◌, refl, inl, inr, Bool, true, false, not, ◌&&◌, none, some, arith,
  Bool-cases, eq_self, ltb, ◌==◌, if◌then◌else◌,
}
use sznet.Run.{Run, ok, ◌>>=◌, Ensures, returned, Ensures-bind, Ensures-assert}
use sznet.MinHeap.{MinHeap, update}
use sznet.MinHeap.Linked.{is_some}
use sznet.MinHeap.Laws.{Removed, contains, erase-Removed}
use sznet.TimerQueue.{
  Timer, TimerQueue, TimerId, remove, expiration_of, event_greater, add_timer, erase_asserted,
  cancel_in_loop, same_size,
}
use sznet.TimerQueue.Invariant.{IsValid, IsValid-write, Armed, add_timer_in_loop-Armed}

-- `q'` is `q` without the timer at `t`, which is deleted.
pub record Cancelled (q : TimerQueue) (t : ℕ) (q' : TimerQueue) : Type 0 where
  pub valid : IsValid q'
  pub size : suc q'.heap.size ≡ q.heap.size
  pub members : (p : ℕ) → contains q'.heap p ≡ (not (p == t) && contains q.heap p)
  pub timers : q'.timers ≡ update q.timers t none
  pub ran : q'.ran ≡ q.ran

-- The timer that the id is of is gone, or there is none.
abbrev pub After : TimerQueue → TimerId → TimerQueue → Type 0
After q i q' =
    ((q.active.member i.timer i.sequence ≡ true) × Cancelled q i.timer q')
    ⊎ ((q.active.member i.timer i.sequence ≡ false) × (q' ≡ q))

-- The heap without `t` and the active set without it go together.
pub IsValid-Removed :
    (q : TimerQueue) (t s : ℕ) (heap : MinHeap)
    → IsValid q
    → q.active.member t s ≡ true
    → Removed (expiration_of q.timers) q.heap t heap
    → IsValid (record q { heap = heap; active = (remove q.active t s).1 })
IsValid-Removed q t s heap v known gone = rw known (record {
  heap = gone.valid;
  counted = omega (arith, v.counted, gone.size);
  active = λ u r. ground (arith, v.active u r, v.active t r, v.active t s, gone.members u);
  live = λ u c. v.live u (ground (arith, gone.members u));
  unused = v.unused;
})

-- An active timer stands below the extent of the memory.
pub active_inside :
    (q : TimerQueue) (t : ℕ) → IsValid q → is_some (q.timers t) ≡ true → t < q.extent
active_inside q t v some_at = ground (arith, v.unused t)

Cancelled-Removed :
    (q : TimerQueue) (t s : ℕ) (heap : MinHeap)
    → IsValid q
    → q.active.member t s ≡ true
    → Removed (expiration_of q.timers) q.heap t heap
    → Cancelled q t (record q {
      heap = heap;
      timers = update q.timers t none;
      active = (remove q.active t s).1;
    })
Cancelled-Removed q t s heap v known gone = record {
  valid =
      IsValid-write (record q { heap = heap; active = (remove q.active t s).1 }) t none q.extent
        q.created (IsValid-Removed q t s heap v known gone) (ground (arith, gone.members t))
        (omega arith) (active_inside q t v (v.live t (ground (arith, v.active t s))));
  size = gone.size;
  members = gone.members;
  timers = refl;
  ran = refl;
}

erase_asserted-Removed :
    (q : TimerQueue) (t : ℕ)
    → IsValid q
    → contains q.heap t ≡ true
    → Ensures (Removed (expiration_of q.timers) q.heap t) (erase_asserted false q t)
unfolding erase_asserted
erase_asserted-Removed q t v c =
    Ensures-bind
      (erase-Removed (expiration_of q.timers) (event_greater q.timers) (λ p r. refl) q.heap v.heap
        t)
      λ (done, heap) removed. elim removed [
        | inl (e, member, gone) ↦ Ensures-assert done e (returned gone)
        | inr (e, absent, same) ↦ absurd (ground (arith, c, absent))
      ]

-- The part of `cancelInLoop` for an active timer.
abbrev erase_known : TimerQueue → TimerId → Run TimerQueue
erase_known q i = do
  heap ← erase_asserted false q i.timer
  ok (record q {
    heap = heap;
    timers = update q.timers i.timer none;
    active = (remove q.active i.timer i.sequence).1;
  })

erase_known-Cancelled :
    (q : TimerQueue) (i : TimerId)
    → IsValid q
    → q.active.member i.timer i.sequence ≡ true
    → Ensures (Cancelled q i.timer) (erase_known q i)
erase_known-Cancelled q i v known =
    Ensures-bind
      (erase_asserted-Removed q i.timer v (ground (arith, v.active i.timer i.sequence, known)))
      λ heap gone. returned (Cancelled-Removed q i.timer i.sequence heap v known gone)

cancel_in_loop-checked :
    (q : TimerQueue) (i : TimerId) → IsValid q → Ensures (After q i) (cancel_in_loop false q i)
unfolding cancel_in_loop
cancel_in_loop-checked q i v =
    let same : same_size q ≡ true = rw (v.counted) (eq_self q.heap.size) in
    Ensures-assert (same_size q) same (elim (Bool-cases (q.active.member i.timer i.sequence)) [
      | inr absent ↦ rw absent (Ensures-assert (same_size q) same (returned (inr (absent, refl))))
      | inl known ↦
          let removed : (remove q.active i.timer i.sequence).0 ≡ true = rw known refl in
          rw removed (
            Ensures-bind (erase_known-Cancelled q i v known) λ q' gone.
              Ensures-assert (same_size q') (rw (gone.valid.counted) (eq_self q'.heap.size))
                (returned (inl (known, gone))))
    ])

-- The timer is deleted and stays in the heap.
abbrev pub dangling : TimerQueue → TimerId → TimerQueue
dangling q i = record q {
  timers = update q.timers i.timer none;
  active = (remove q.active i.timer i.sequence).1;
}

cancel_in_loop-unchecked :
    (q : TimerQueue) (i : TimerId)
    → cancel_in_loop true q i ≡ ok (if q.active.member i.timer i.sequence then dangling q i else q)
unfolding cancel_in_loop erase_asserted
cancel_in_loop-unchecked q i = elim (Bool-cases (q.active.member i.timer i.sequence)) [
  | inl known ↦ rw known refl
  | inr absent ↦ rw absent refl
]

-- On a valid queue, in a build whose assertions are evaluated, cancel returns: the timer that the
-- id is of leaves the heap and the active set and is deleted, and no other; an id that no active
-- timer has changes nothing. Compiled with NDEBUG, cancel returns too, but the timer that leaves
-- the active set and is deleted stays in the heap.
pub cancel_in_loop-Cancelled :
    (q : TimerQueue) (i : TimerId)
    → IsValid q
    → Ensures (After q i) (cancel_in_loop false q i)
      × (cancel_in_loop true q i
          ≡ ok (if q.active.member i.timer i.sequence then dangling q i else q))
cancel_in_loop-Cancelled q i v = (cancel_in_loop-checked q i v, cancel_in_loop-unchecked q i)

-- The timer that `addTimer` creates, and the queue with it in memory at `address`.
abbrev pub new_timer : TimerQueue → ℕ → ℕ → ℕ → Bool → Timer
new_timer q callback when interval repeat = record {
  callback = callback;
  expiration = when;
  interval = interval;
  repeat = repeat;
  sequence = q.created;
}

abbrev pub created_at : TimerQueue → ℕ → Timer → TimerQueue
created_at q address timer = record q {
  timers = update q.timers address (some timer);
  extent = if ltb address q.extent then q.extent else suc address;
  created = suc q.created;
}

-- On a valid queue with room below 2^31, addTimer at an unused address returns the id of the new
-- timer, and the result is a valid queue of the old timers and the new one, which stands in
-- memory as it was asked for.
pub add_timer-Armed :
    (address : ℕ) (q : TimerQueue) (callback when interval : ℕ) (repeat : Bool)
    → IsValid q
    → q.timers address ≡ none
    → suc q.heap.size < 2 ^ 31
    → Ensures
        (λ (i, q').
          (i ≡ record { timer = address; sequence = q.created })
          × Armed (created_at q address (new_timer q callback when interval repeat)) address q')
        (add_timer false address q callback when interval repeat)
unfolding add_timer
add_timer-Armed address q callback when interval repeat v free small =
    let out : contains q.heap address ≡ false = ground (arith, v.live address, free) in
    let timer = new_timer q callback when interval repeat in
    let extent = if ltb address q.extent then q.extent else suc address in
    Ensures-bind
      (add_timer_in_loop-Armed (created_at q address (new_timer q callback when interval repeat))
        address timer
        (IsValid-write q address (some timer) extent (suc q.created) v out (ground arith)
          (ground arith))
        (rw (eq_self address) refl) out small)
      λ q' armed. returned (refl, armed)
