-- ===== src/EventLoopThreadPool.antt =====
-- sznet/net/EventLoopThreadPool.h and EventLoopThreadPool.cpp: which loop a new connection gets. A loop is
-- its number.
pub mod Rounds
mod Tests
use sznet.Base.{
  ℕ, zero, suc, ◌+◌, ◌%◌, Bool, true, false, not, List, [], ◌∷◌, ◌++◌, leb, ltb, if◌then◌else◌,
  length, take,
}
use sznet.Run.{Run, ok, fault, ◌>>=◌, ◌>>◌, assert}

pub record EventLoopThreadPool : Type 0 where
  pub base_loop : ℕ
  pub started : Bool
  pub num_threads : ℕ
  pub next : ℕ
  pub loops : List ℕ

abbrev pub new : ℕ → EventLoopThreadPool
new base_loop = record {
  base_loop = base_loop;
  started = false;
  num_threads = 0;
  next = 0;
  loops = [];
}

-- An element of a vector; a place behind its end is not its memory.
unfoldable pub element : List ℕ → ℕ → Run ℕ
element [] i = fault
element (x ∷ xs) zero = ok x
element (x ∷ xs) (suc i) = element xs i

-- `made` gives the loop that each new thread starts.
pub start_loops : (ℕ → ℕ) → ℕ → ℕ → List ℕ
start_loops made i zero = []
start_loops made i (suc n) = made i ∷ start_loops made (suc i) n

pub start : (ℕ → ℕ) → EventLoopThreadPool → Run EventLoopThreadPool
start made p = do
  assert (not p.started)
  ok (record p { started = true; loops = p.loops ++ start_loops made 0 p.num_threads })

abbrev pub is_empty : List ℕ → Bool
is_empty [] = true
is_empty (x ∷ xs) = false

unfoldable pub get_next_loop : EventLoopThreadPool → Run (ℕ × EventLoopThreadPool)
get_next_loop p = do
  assert p.started
  let turn : Run (ℕ × EventLoopThreadPool) = do
    loop ← element p.loops p.next
    ok (loop, record p { next = if leb (length p.loops) (suc p.next) then 0 else suc p.next })
  if is_empty p.loops then ok (p.base_loop, p) else turn

pub get_loop_for_hash : EventLoopThreadPool → ℕ → Run ℕ
get_loop_for_hash p hash_code =
    let chosen = element p.loops (hash_code % length p.loops) in
    if is_empty p.loops then ok p.base_loop else chosen

pub get_all_loops : EventLoopThreadPool → Run (List ℕ)
get_all_loops p = do assert p.started; ok (if is_empty p.loops then p.base_loop ∷ [] else p.loops)
