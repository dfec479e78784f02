-- ===== src/TimerQueue.antt =====
-- sznet/time/Timer.h, Timer.cpp, TimerId.h, TimerQueue.h and TimerQueue.cpp, as run in the thread of
-- their event loop, where `runInLoop` is a call.
-- A time is its microseconds since the epoch. Timers stand in memory under their address; what the
-- allocator returns and what a callback does to the queue are parameters.
pub mod Invariant
pub mod Requests
pub mod Calm
pub mod Expiry
pub mod Drain
pub mod Faults
mod Tests
use sznet.Base.{
  ℕ, zero, suc, ◌+◌, ◌-◌, ◌^◌, Bool, true, false, not, ◌&&◌, ◌||◌, List, [], ◌∷◌, ◌++◌, Option,
  none, some, Ordering, compare, ltb, leb, ◌==◌, if◌then◌else◌,
}
use sznet.Run.{Run, ok, fault, out_of_fuel, ◌>>=◌, ◌>>◌, assert, within}
use sznet.MinHeap.{MinHeap, update}
use sznet.MinHeap

-- `m_interval` is used as `m_interval > 0.0` and as its whole microseconds.
pub record Timer : Type 0 where
  pub callback : ℕ
  pub expiration : ℕ
  pub interval : ℕ
  pub repeat : Bool
  pub sequence : ℕ

-- `std::set<std::pair<Timer*, int64_t>>`
pub record ActiveTimerSet : Type 0 where
  pub member : ℕ → ℕ → Bool
  pub count : ℕ

abbrev pub insert : ActiveTimerSet → ℕ → ℕ → Bool × ActiveTimerSet
insert a t s = if a.member t s then (false, a) else (
  true,
  record {
    member = λ u r. if (u == t) && (r == s) then true else a.member u r;
    count = suc a.count;
  },
)

abbrev pub remove : ActiveTimerSet → ℕ → ℕ → Bool × ActiveTimerSet
remove a t s =
    if a.member t s
    then (
      true,
      record {
        member = λ u r. if (u == t) && (r == s) then false else a.member u r;
        count = a.count - 1;
      },
    )
    else (false, a)

-- `ran` lists the callbacks that were run, the latest first; `created` is `m_s_numCreated`. No timer was
-- allocated at `extent` or above.
pub record TimerQueue : Type 0 where
  pub heap : MinHeap
  pub active : ActiveTimerSet
  pub timers : ℕ → Option Timer
  pub extent : ℕ
  pub created : ℕ
  pub ran : List ℕ

pub record TimerId : Type 0 where
  pub timer : ℕ
  pub sequence : ℕ

-- What a callback asks of the queue.
pub data Request : Type 0 where
  add_request : (callback when interval : ℕ) → (repeat : Bool) → Request
  cancel_request : TimerId → Request

abbrev pub expiration_of : (ℕ → Option Timer) → ℕ → ℕ
expiration_of timers t = elim (timers t) [ none ↦ 0 | some timer ↦ timer.expiration ]

-- `event_greater`
abbrev pub event_greater : (ℕ → Option Timer) → ℕ → ℕ → Ordering
event_greater timers p q = compare (expiration_of timers p) (expiration_of timers q)

abbrev pub restarted : Timer → ℕ → Timer
restarted timer now =
    if timer.repeat
    then record timer { expiration = now + timer.interval }
    else record timer { expiration = 0 }

-- `addTime` adds numbers of type int64_t: an overflow is undefined.
pub restart : Timer → ℕ → Run Timer
restart timer now =
    if timer.repeat
    then within (ltb (now + timer.interval) (2 ^ 63)) >> ok (restarted timer now)
    else ok (restarted timer now)

abbrev pub empty : TimerQueue
empty = record {
  heap = MinHeap.empty;
  active = record { member = λ t s. false; count = 0 };
  timers = λ t. none;
  extent = 0;
  created = 0;
  ran = [];
}

-- `earliestExpiredTime`, as compiled
pub earliest_expired_time : TimerQueue → ℕ → ℕ
earliest_expired_time q default_ms = if ltb 0 q.active.count then 0 else default_ms

-- `assert(m_timerMinHeap.size() == m_activeTimers.size())`
abbrev pub same_size : TimerQueue → Bool
same_size q = q.heap.size == q.active.count

-- `ndebug`: the library is compiled with NDEBUG, and no `assert` is evaluated.
module _ (ndebug : Bool) where
  abbrev pub check : Bool → Run (Unit {0})
  check b = assert (ndebug || b)

  pub add_timer_in_loop : TimerQueue → ℕ → Timer → Run TimerQueue
  add_timer_in_loop q t timer = do
    check (same_size q)
    heap ← MinHeap.push (event_greater q.timers) q.heap t
    let (inserted, active) = insert q.active t timer.sequence
    check inserted
    let added = record q { heap = heap; active = active }
    check (same_size added)
    ok added

  -- `new Timer` at an address that the allocator gives.
  pub add_timer : ℕ → TimerQueue → ℕ → ℕ → ℕ → Bool → Run (TimerId × TimerQueue)
  add_timer address q callback when interval repeat = do
    let timer : Timer = record {
      callback = callback;
      expiration = when;
      interval = interval;
      repeat = repeat;
      sequence = q.created;
    }
    let allocated = record q {
      timers = update q.timers address (some timer);
      extent = if ltb address q.extent then q.extent else suc address;
      created = suc q.created;
    }
    added ← add_timer_in_loop allocated address timer
    ok (record { timer = address; sequence = timer.sequence }, added)

  -- `assert(m_timerMinHeap.erase(timer) == 0)`
  pub erase_asserted : TimerQueue → ℕ → Run MinHeap
  erase_asserted q t =
      let erased : Run MinHeap = do
        (done, heap) ← MinHeap.erase (event_greater q.timers) q.heap t
        assert done
        ok heap
      in if ndebug then ok q.heap else erased

  pub cancel_in_loop : TimerQueue → TimerId → Run TimerQueue
  cancel_in_loop q i =
      let (found, active) = remove q.active i.timer i.sequence in
      let erase : Run TimerQueue = do
        heap ← erase_asserted q i.timer
        ok (record q { heap = heap; timers = update q.timers i.timer none; active = active })
      in do
        check (same_size q)
        cancelled ← if found then erase else ok q
        check (same_size cancelled)
        ok cancelled

  module _ (alloc : ℕ → (ℕ → Option Timer) → ℕ) (acts : ℕ → List Request) where
    pub serve : TimerQueue → Request → Run TimerQueue
    serve q (add_request callback when interval repeat) = do
      (i, added) ← add_timer (alloc q.extent q.timers) q callback when interval repeat
      ok added
    serve q (cancel_request i) = cancel_in_loop q i

    pub serve_all : TimerQueue → List Request → Run TimerQueue
    serve_all q [] = ok q
    serve_all q (r ∷ rs) = serve q r >>= λ served. serve_all served rs

    -- `timer->run()`
    pub run : TimerQueue → Timer → Run TimerQueue
    run q timer = serve_all (record q { ran = timer.callback ∷ q.ran }) (acts timer.callback)

    -- The end of a round: a repeating timer starts anew, another is deleted.
    pub rearm : TimerQueue → ℕ → ℕ → Run TimerQueue
    rearm q t now = elim (q.timers t) [
      | none ↦ fault
      | some timer ↦
          let put_back : Run TimerQueue = do
            again ← restart timer now
            add_timer_in_loop (record q { timers = update q.timers t (some again) }) t again
          in if timer.repeat then put_back else ok (record q { timers = update q.timers t none })
    ]

    -- A round for the timer at the top, which has expired.
    pub expire : TimerQueue → ℕ → Timer → ℕ → Run TimerQueue
    expire q t timer now = do
      (top, heap) ← MinHeap.pop (event_greater q.timers) q.heap
      let (erased, active) = remove q.active t timer.sequence
      check erased
      ran ← run (record q { heap = heap; active = active }) timer
      rearm ran t now

    pub expired_loop : ℕ → TimerQueue → ℕ → Run TimerQueue
    expired_loop zero q now = out_of_fuel
    expired_loop (suc fuel) q now = elim (MinHeap.top q.heap) [
      | none ↦ ok q
      | some t ↦ elim (q.timers t) [
        | none ↦ fault
        | some timer ↦
            let next = expire q t timer now >>= λ q'. expired_loop fuel q' now in
            if ltb now timer.expiration then ok q else next
      ]
    ]

    pub expired_process : ℕ → TimerQueue → ℕ → Run TimerQueue
    expired_process fuel q now = do
      check (same_size q)
      done ← expired_loop fuel q now
      check (same_size done)
      ok done
