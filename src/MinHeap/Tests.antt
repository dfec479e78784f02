-- ===== src/MinHeap/Tests.antt =====
-- The theorems about sznet/ds/MinHeap.h at a concrete heap, and a run. The address of an element is
-- its key here.
use sznet.Base.{
  ℕ, ◌≤◌, ◌≡◌, refl, Bool, true, Option, none, some, if◌then◌else◌, arith, compare, ◌==◌,
}
use sznet.Run.{Run, ok, ◌>>=◌, Ensures}
use sznet.MinHeap.{
  MinHeap, empty, push, pop, erase, top, reserve, shift_up, shift_up_loop, shift_down,
  shift_down_loop, min_child,
}
use sznet.MinHeap.Laws.{IsHeap, Added, Removed, contains, push-Added, pop-Removed}

-- 4, 7 and 9, pushed in the order 7, 9, 4.
three : Run MinHeap
three = do a ← push compare empty 7; b ← push compare a 9; push compare b 4

drained : Run (Option ℕ × Bool × Option ℕ × ℕ)
unfolding three
drained = do
  h ← three
  (a, h1) ← pop compare h
  (found, h2) ← erase compare h1 9
  (b, h3) ← pop compare h2
  ok (a, found, b, h3.size)

drain_run : drained ≡ ok (some 4, true, some 7, 0)
unfolding drained push pop erase reserve shift_up shift_up_loop shift_down shift_down_loop min_child
drain_run = refl

-- The heap of 2 and 5.
abbrev pair : MinHeap
pair = record {
  slots = λ i. if i == 0 then 2 else 5;
  size = 2;
  capacity = 8;
  idx = λ p. if p == 2 then some 0 else if p == 5 then some 1 else none;
}

pair-IsHeap : IsHeap (λ p. p) pair
pair-IsHeap = record {
  bounded = omega arith;
  room = omega arith;
  ordered = λ c p q. ground arith;
  indexed = λ i q. ground arith;
  stored = λ p i q. ground arith;
}

push-Added_example : Ensures (Added (λ p. p) pair 3) (push compare pair 3)
push-Added_example = push-Added (λ p. p) compare (λ p q. refl) pair 3 pair-IsHeap refl (omega arith)

pop-Removed_example :
    Ensures
      (λ (o, h').
        (e : ℕ) × (o ≡ some e)
        × (top pair ≡ some e)
        × (contains pair e ≡ true)
        × ((p : ℕ) → contains pair p ≡ true → e ≤ p)
        × Removed (λ p. p) pair e h')
      (pop compare pair)
pop-Removed_example = pop-Removed (λ p. p) compare (λ p q. refl) pair pair-IsHeap (omega arith)
