-- ===== src/MinHeap.antt =====
-- sznet/ds/MinHeap.h: a binary heap of pointers, each of which knows its position in it.
-- A pointer is its address, a number. `slots` is the allocated array: a cell that was not written
-- is an arbitrary number, and the invariant keeps every access below `capacity`.
pub mod Linked
pub mod Up
pub mod Down
pub mod Laws
mod Tests
use sznet.Base.{
  ℕ, zero, suc, ◌+◌, ◌-◌, ◌*◌, ◌/◌, ◌%◌, ◌^◌, Bool, true, false, ◌&&◌, ◌||◌, Option, none, some,
  Ordering, ltb, leb, ◌==◌, if◌then◌else◌,
}
use sznet.Run.{Run, ok, out_of_fuel, ◌>>=◌}

-- `idx` is the `min_heap_idx` of each element, `none` for -1.
pub record MinHeap : Type 0 where
  pub slots : ℕ → ℕ
  pub size : ℕ
  pub capacity : ℕ
  pub idx : ℕ → Option ℕ

abbrev pub update {ℓ} : {A : Type ℓ} → (ℕ → A) → ℕ → A → ℕ → A
update f i v j = if i == j then v else f j

abbrev pub empty : MinHeap
empty = record { slots = λ i. 0; size = 0; capacity = 0; idx = λ p. none }

abbrev pub parent : ℕ → ℕ
parent n = if n == 0 then 0 else (n - 1) / 2

-- `uint32_t` arithmetic
abbrev pub right_child : ℕ → ℕ
right_child n = (n + 1) * 2 % 2 ^ 32

abbrev pub decrement : ℕ → ℕ
decrement n = (n + 2 ^ 32 - 1) % 2 ^ 32

-- `realloc` succeeds.
unfoldable pub reserve : MinHeap → ℕ → MinHeap
reserve h n =
    let doubled = if h.capacity == 0 then 8 else h.capacity * 2 % 2 ^ 32 in
    if ltb h.capacity n then record h { capacity = if ltb doubled n then n else doubled } else h

-- `m_ptrArr[hole] = e; m_ptrArr[hole]->min_heap_idx = hole`
abbrev pub place : MinHeap → ℕ → ℕ → MinHeap
place h hole e = record h { slots = update h.slots hole e; idx = update h.idx e (some hole) }

abbrev pub is_empty : MinHeap → Bool
is_empty h = h.size == 0

unfoldable pub top : MinHeap → Option ℕ
top h = if h.size == 0 then none else some (h.slots 0)

-- `m_pCmpFunc`: `gt` for 1, `eq` for 0, `lt` for -1
module _ (cmp : ℕ → ℕ → Ordering) where
  abbrev pub greater : ℕ → ℕ → Bool
  greater p q = elim (cmp p q) [ Ordering.gt ↦ true | _ ↦ false ]

  abbrev pub less : ℕ → ℕ → Bool
  less p q = elim (cmp p q) [ Ordering.lt ↦ true | _ ↦ false ]

  unfoldable pub shift_up_loop : ℕ → MinHeap → ℕ → ℕ → Run MinHeap
  shift_up_loop zero h hole e = out_of_fuel
  shift_up_loop (suc fuel) h hole e =
      let above = h.slots (parent hole) in
      let rise = shift_up_loop fuel (place h hole above) (parent hole) e in
      if ltb 0 hole && greater above e then rise else ok (place h hole e)

  -- The hole rises by one position a round at least.
  unfoldable pub shift_up : MinHeap → ℕ → ℕ → Run MinHeap
  shift_up h hole e = shift_up_loop (suc hole) h hole e

  -- The smaller child, counted from the right one.
  unfoldable pub min_child : MinHeap → ℕ → ℕ
  min_child h right =
      if right == h.size || greater (h.slots right) (h.slots (decrement right))
      then decrement right
      else right

  unfoldable pub shift_down_loop : ℕ → MinHeap → ℕ → ℕ → Run MinHeap
  shift_down_loop zero h hole e = out_of_fuel
  shift_down_loop (suc fuel) h hole e =
      let child = min_child h (right_child hole) in
      let sink = shift_down_loop fuel (place h hole (h.slots child)) child e in
      let step = if less e (h.slots child) then ok (place h hole e) else sink in
      if leb (right_child hole) h.size then step else ok (place h hole e)

  -- The hole sinks by one position a round at least.
  unfoldable pub shift_down : MinHeap → ℕ → ℕ → Run MinHeap
  shift_down h hole e = shift_down_loop (suc h.size) h hole e

  unfoldable pub push : MinHeap → ℕ → Run MinHeap
  push h e =
      let roomy = reserve h ((h.size + 1) % 2 ^ 32) in
      shift_up (record roomy { size = (h.size + 1) % 2 ^ 32 }) h.size e

  -- The Boolean is `true` for the result 0, and `false` for -1.
  unfoldable pub erase : MinHeap → ℕ → Run (Bool × MinHeap)
  erase h e = elim (h.idx e) [
    | none ↦ ok (false, h)
    | some i ↦ do
      let shorter = record h { size = decrement h.size }
      let last = h.slots (decrement h.size)
      moved ←
          if ltb 0 i && greater (h.slots (parent i)) last
          then shift_up shorter i last
          else shift_down shorter i last
      ok (true, record moved { idx = update moved.idx e none })
  ]

  unfoldable pub pop : MinHeap → Run (Option ℕ × MinHeap)
  pop h = if h.size == 0 then ok (none, h) else do
    let e = h.slots 0
    let shorter = record h { size = decrement h.size }
    moved ← shift_down shorter 0 (h.slots (decrement h.size))
    ok (some e, record moved { idx = update moved.idx e none })
