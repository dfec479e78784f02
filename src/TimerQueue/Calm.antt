-- ===== src/TimerQueue/Calm.antt =====
-- The callback of an expired timer in sznet/time/TimerQueue.cpp: what it may ask of the queue, and what
-- the queue is when it has returned.
use sznet.Base.{
  ℕ, suc, ◌+◌, ◌^◌, ◌≤◌, ◌<◌, ◌≡◌, refl, inl, inr, Bool, true, false, not, ◌&&◌, ◌||◌, Option, none,
  some, arith, ltb, leb, ◌==◌, if◌then◌else◌, List, [], ◌∷◌,
}
use sznet.Run.{Ensures, returned, Ensures-bind, Ensures-weaken}
use sznet.MinHeap.{update}
use sznet.MinHeap.Laws.{contains}
use sznet.TimerQueue.{
  Timer, TimerQueue, TimerId, Request, add_request, cancel_request, expiration_of, serve, serve_all,
}
use sznet.TimerQueue.Invariant.{IsValid}
use sznet.TimerQueue.Requests.{new_timer, add_timer-Armed, cancel_in_loop-Cancelled}

-- An interval of a microsecond at least, after which the time is a number of type int64_t still.
abbrev pub is_sound : ℕ → ℕ → Bool
is_sound now interval = ltb 0 interval && ltb (now + interval) (2 ^ 63)

-- A timer that repeats does so after such an interval.
abbrev pub advances : ℕ → Option Timer → Bool
advances now none = true
advances now (some timer) = not timer.repeat || is_sound now timer.interval

abbrev pub expired : TimerQueue → ℕ → ℕ → Bool
expired q now p = contains q.heap p && leb (expiration_of q.timers p) now

-- A request that leaves no expired timer behind, and none that is due too soon or too late again.
abbrev pub calm : ℕ → Request → Bool
calm now (add_request callback when interval repeat) =
    ltb now when && (not repeat || is_sound now interval)
calm now (cancel_request i) = true

abbrev pub all_calm : ℕ → List Request → Bool
all_calm now [] = true
all_calm now (r ∷ rs) = calm now r && all_calm now rs

abbrev pub length : List Request → ℕ
length [] = 0
length (r ∷ rs) = suc (length rs)

-- `q'` follows `q` while the callback of `timer`, which stands at `t`, runs: `n` requests were served at most.
pub record Serving (now t : ℕ) (timer : Timer) (q : TimerQueue) (n : ℕ) (q' : TimerQueue)
    : Type 0 where
  pub valid : IsValid q'
  pub own : q'.timers t ≡ some timer
  pub out : contains q'.heap t ≡ false
  pub size : q'.heap.size ≤ q.heap.size + n
  pub advancing : (p : ℕ) → advances now (q'.timers p) ≡ true
  pub fewer : (p : ℕ) → expired q' now p ≡ true → expired q now p ≡ true

expiration_of-update :
    (timers : ℕ → Option Timer) (t : ℕ) (o : Option Timer) (p : ℕ)
    → expiration_of (update timers t o) p
      ≡ (if t == p then expiration_of (λ _. o) p else expiration_of timers p)
expiration_of-update timers t o p = go (t == p)
  where
    go :
        (b : Bool)
        → elim (if b then o else timers p) [ none ↦ 0 | some timer ↦ timer.expiration ]
          ≡ (if b then expiration_of (λ _. o) p else expiration_of timers p)
    go true = refl
    go false = refl

-- After a write to memory, a timer is expired as before, unless it is the one written.
pub expired_write :
    (q q' : TimerQueue) (now t : ℕ) (o : Option Timer) (p : ℕ)
    → q'.timers ≡ update q.timers t o
    → (contains q'.heap t ≡ true → leb (expiration_of (λ _. o) t) now ≡ false)
    → ((t == p) ≡ false → contains q'.heap p ≡ true → contains q.heap p ≡ true)
    → expired q' now p ≡ true
    → expired q now p ≡ true
expired_write q q' now t o p write gone kept e =
    let apart : (t == p) ≡ false = ground (arith, gone, e, at) in
    ground (arith, at, apart, kept apart, e)
  where
    at :
        expiration_of q'.timers p
        ≡ (if t == p then expiration_of (λ _. o) p else expiration_of q.timers p)
    at = rw write (expiration_of-update q.timers t o p)

module _ (alloc : ℕ → (ℕ → Option Timer) → ℕ)
    (fresh : (extent : ℕ) (timers : ℕ → Option Timer)
      → ((p : ℕ) → extent ≤ p → timers p ≡ none)
      → timers (alloc extent timers) ≡ none)
    (acts : ℕ → List Request) (now t : ℕ) (timer : Timer) (q : TimerQueue) where
  serve_add :
      (n : ℕ) (q1 : TimerQueue) (callback when interval : ℕ) (repeat : Bool)
      → Serving now t timer q n q1
      → now < when
      → (not repeat || is_sound now interval) ≡ true
      → suc (q.heap.size + n) < 2 ^ 31
      → Ensures
          (Serving now t timer q (suc n))
          (serve false alloc acts q1 (add_request callback when interval repeat))
  unfolding serve
  serve_add n q1 callback when interval repeat s later positive small =
      let address = alloc q1.extent q1.timers in
      let free : q1.timers address ≡ none = fresh q1.extent q1.timers s.valid.unused in
      Ensures-bind
        (add_timer-Armed address q1 callback when interval repeat s.valid free
          (omega (arith, s.size, small)))
        λ (i, q2) (same, armed). returned (record {
          valid = armed.valid;
          own = rw armed.timers (ground (arith, s.own, free));
          out = ground (arith, armed.members t, s.out, s.own, free);
          size = omega (arith, armed.size, s.size);
          advancing = λ p. rw armed.timers (ground (arith, s.advancing p, positive));
          fewer = λ p e. s.fewer p (
              expired_write q1 q2 now address (some (new_timer q1 callback when interval repeat)) p
                armed.timers (λ c. ground (arith, later))
                (λ apart c. ground (arith, armed.members p)) e);
        })

  serve_cancel :
      (n : ℕ) (q1 : TimerQueue) (i : TimerId)
      → Serving now t timer q n q1
      → Ensures (Serving now t timer q (suc n)) (serve false alloc acts q1 (cancel_request i))
  unfolding serve
  serve_cancel n q1 i s = Ensures-weaken ((cancel_in_loop-Cancelled q1 i s.valid).0) λ q2 r.
      elim r [
        | inr (absent, same) ↦ record {
          valid = rw same s.valid;
          own = rw same s.own;
          out = rw same s.out;
          size = rw same (omega (arith, s.size));
          advancing = λ p. rw same (s.advancing p);
          fewer = λ p e. s.fewer p (rw same at e);
        }
        | inl (known, gone) ↦ record {
          valid = gone.valid;
          own =
              rw gone.timers
                (ground (arith, s.own, s.out, s.valid.active i.timer i.sequence, known));
          out = ground (arith, gone.members t, s.out);
          size = omega (arith, gone.size, s.size);
          advancing = λ p. rw gone.timers (ground (arith, s.advancing p));
          fewer = λ p e. s.fewer p (
              expired_write q1 q2 now i.timer none p gone.timers
                (λ c. absurd (ground (arith, gone.members i.timer, c)))
                (λ apart c. ground (arith, gone.members p)) e);
        }
      ]

  serve-Serving :
      (r : Request) (n : ℕ) (q1 : TimerQueue)
      → Serving now t timer q n q1
      → calm now r ≡ true
      → suc (q.heap.size + n) < 2 ^ 31
      → Ensures (Serving now t timer q (suc n)) (serve false alloc acts q1 r)
  serve-Serving (add_request callback when interval repeat) n q1 s c small =
      serve_add n q1 callback when interval repeat s (ground (arith, c)) (ground (arith, c)) small
  serve-Serving (cancel_request i) n q1 s c small = serve_cancel n q1 i s

  Serving-more :
      (m n : ℕ) (q1 : TimerQueue) → Serving now t timer q m q1 → m ≤ n → Serving now t timer q n q1
  Serving-more m n q1 s more = record {
    valid = s.valid;
    own = s.own;
    out = s.out;
    size = omega (arith, s.size);
    advancing = s.advancing;
    fewer = s.fewer;
  }

  pub serve_all-Serving :
      (rs : List Request) (n : ℕ) (q1 : TimerQueue)
      → Serving now t timer q n q1
      → all_calm now rs ≡ true
      → q.heap.size + n + length rs < 2 ^ 31
      → Ensures (Serving now t timer q (n + length rs)) (serve_all false alloc acts q1 rs)
  unfolding serve_all
  serve_all-Serving [] n q1 s c small = returned (Serving-more n (n + 0) q1 s (omega arith))
  serve_all-Serving (r ∷ rs) n q1 s c small =
      Ensures-bind (serve-Serving r n q1 s (ground (arith, c)) (omega arith)) λ q2 s2.
        Ensures-weaken (serve_all-Serving rs (suc n) q2 s2 (ground (arith, c)) (omega arith))
          λ q3 s3. Serving-more (suc n + length rs) (n + suc (length rs)) q3 s3 (omega arith)
