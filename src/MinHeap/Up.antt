-- ===== src/MinHeap/Up.antt =====
-- `shiftUp_` puts an element in order above the hole.
use sznet.Base.{ℕ, zero, suc, ◌≤◌, ◌<◌, ◌≡◌, ◌≢◌, refl, ◌&&◌, Option, arith, Ordering, compare, ltb}
use sznet.Run.{Ensures, returned, Ensures-if}
use sznet.MinHeap.{MinHeap, update, place, parent, greater, shift_up_loop}
use sznet.MinHeap.Linked.{Linked, Linked-move, Whole, Linked-place}

module _ (key : ℕ → ℕ) where
  -- Each of the first `size` slots but the root is no smaller than its parent.
  abbrev pub IsOrdered : ℕ → (ℕ → ℕ) → Type 0
  IsOrdered size slots = (c : ℕ) → 0 < c → c < size → key (slots (parent c)) ≤ key (slots c)

  -- The edges past the hole, from its parent to its children, are in order.
  abbrev pub IsBridged : ℕ → ℕ → (ℕ → ℕ) → Type 0
  IsBridged size hole slots =
      (c : ℕ)
      → 0 < c
      → c < size
      → parent c ≡ hole
      → 0 < hole
      → key (slots (parent hole)) ≤ key (slots c)

  -- What a shift leaves, of a heap with these start positions.
  pub record Settled (start : ℕ → Option ℕ) (size capacity e gone : ℕ) (h : MinHeap) : Type 0 where
    pub whole : Whole start size e gone h.slots h.idx
    pub ordered : IsOrdered size h.slots
    pub same_size : h.size ≡ size
    pub same_capacity : h.capacity ≡ capacity

  -- With `e` in the hole, only the edge above it may be out of order.
  pub record Rising (size hole e : ℕ) (slots : ℕ → ℕ) : Type 0 where
    pub edges :
        (c : ℕ)
        → 0 < c
        → c < size
        → c ≢ hole
        → key (update slots hole e (parent c)) ≤ key (update slots hole e c)
    pub bridged : IsBridged size hole slots

  Rising-move :
      (size hole e : ℕ) (slots : ℕ → ℕ)
      → Rising size hole e slots
      → hole < size
      → 0 < hole
      → key e < key (slots (parent hole))
      → Rising size (parent hole) e (update slots hole (slots (parent hole)))
  Rising-move size hole e slots r inside pos above = record {
    edges = λ c p q k. ground (arith, r.edges c, r.bridged c);
    bridged = λ c p q k o. ground (arith, r.edges c, r.edges (parent hole), r.bridged c);
  }

  module _ (cmp : ℕ → ℕ → Ordering) (by_key : (p q : ℕ) → cmp p q ≡ compare (key p) (key q)) where
    pub shift_up_loop-Settled :
        (fuel : ℕ) (h : MinHeap) (hole e gone : ℕ) (start : ℕ → Option ℕ)
        → hole < fuel
        → Linked start h.size hole e gone h.slots h.idx
        → Rising h.size hole e h.slots
        → Ensures (Settled start h.size h.capacity e gone) (shift_up_loop cmp fuel h hole e)
    unfolding shift_up_loop
    shift_up_loop-Settled zero h hole e gone start f l r = absurd (omega arith)
    shift_up_loop-Settled (suc fuel) h hole e gone start f l r =
        Ensures-if (ltb 0 hole && greater cmp (h.slots (parent hole)) e)
          (λ up.
            let above : (0 < hole) × (key e < key (h.slots (parent hole))) =
              ground (arith, by_key (h.slots (parent hole)) e) in
            let pos = above.0 in
            shift_up_loop-Settled fuel (place h hole (h.slots (parent hole))) (parent hole) e gone
              start (ground arith)
              (Linked-move l (parent hole) (ground (arith, l.inside)) (λ same. ground arith))
              (Rising-move h.size hole e h.slots r l.inside above.0 above.1))
          λ stay. returned (record {
            whole = Linked-place l;
            ordered = λ c p q. ground (arith, r.edges c, by_key (h.slots (parent hole)) e);
            same_size = refl;
            same_capacity = refl;
          })
