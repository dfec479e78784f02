-- ===== src/MinHeap/Down.antt =====
-- `shiftDown_` puts an element in order below the hole.
use sznet.Base.{
  ℕ, zero, suc, ◌+◌, ◌-◌, ◌*◌, ◌^◌, ◌≤◌, ◌<◌, ◌≡◌, ◌≢◌, ◌⊎◌, refl, Option, arith, Ordering, compare,
  leb,
}
use sznet.Run.{Ensures, returned, Ensures-if}
use sznet.MinHeap.{
  MinHeap, update, place, parent, right_child, decrement, less, min_child, shift_down_loop,
}
use sznet.MinHeap.Linked.{Linked, Linked-move, Linked-place}
use sznet.MinHeap.Up.{IsBridged, Settled}

module _ (key : ℕ → ℕ) where
  -- With `e` in the hole, only the edges below it may be out of order.
  pub record Sinking (size hole e : ℕ) (slots : ℕ → ℕ) : Type 0 where
    pub edges :
        (c : ℕ)
        → 0 < c
        → c < size
        → parent c ≢ hole
        → key (update slots hole e (parent c)) ≤ key (update slots hole e c)
    pub bridged : IsBridged key size hole slots

  -- `m` is a child of the hole, and no child is smaller.
  record IsLeast (size hole m : ℕ) (slots : ℕ → ℕ) : Type 0 where
    below : m < size
    child : (m ≡ 2 * hole + 1) ⊎ (m ≡ 2 * hole + 2)
    least : (c : ℕ) → 0 < c → c < size → parent c ≡ hole → key (slots m) ≤ key (slots c)

  Sinking-move :
      (size hole e m : ℕ) (slots : ℕ → ℕ)
      → Sinking size hole e slots
      → hole < size
      → IsLeast size hole m slots
      → key (slots m) ≤ key e
      → Sinking size m e (update slots hole (slots m))
  Sinking-move size hole e m slots s inside l small = record {
    edges = λ c p q k. ground (arith, s.edges c, s.bridged m, l.least c, l.child, l.below);
    bridged = λ c p q k o. ground (arith, s.edges c, l.child, l.below);
  }

  module _ (cmp : ℕ → ℕ → Ordering) (by_key : (p q : ℕ) → cmp p q ≡ compare (key p) (key q)) where
    min_child-IsLeast :
        (h : MinHeap) (hole : ℕ)
        → hole < h.size
        → h.size < 2 ^ 31
        → right_child hole ≤ h.size
        → IsLeast h.size hole (min_child cmp h (right_child hole)) h.slots
    unfolding min_child
    min_child-IsLeast h hole inside bound has =
        let right : right_child hole ≡ 2 * hole + 2 = omega arith in
        let left : decrement (right_child hole) ≡ 2 * hole + 1 = omega arith in
        rw (left, right)
          (record {
            below = ground (arith, has);
            child = ground arith;
            least = λ c p q k.
                ground (arith, by_key (h.slots (2 * hole + 2)) (h.slots (2 * hole + 1)), has);
          })

    pub shift_down_loop-Settled :
        (fuel : ℕ) (h : MinHeap) (hole e gone : ℕ) (start : ℕ → Option ℕ)
        → h.size - hole < fuel
        → h.size < 2 ^ 31
        → Linked start h.size hole e gone h.slots h.idx
        → Sinking h.size hole e h.slots
        → Ensures (Settled key start h.size h.capacity e gone) (shift_down_loop cmp fuel h hole e)
    unfolding shift_down_loop
    shift_down_loop-Settled zero h hole e gone start f bound l s = absurd (omega arith)
    shift_down_loop-Settled (suc fuel) h hole e gone start f bound l s =
        Ensures-if (leb (right_child hole) h.size)
          (λ has.
            let child = min_child cmp h (right_child hole) in
            let m = min_child-IsLeast h hole l.inside bound (ground arith) in
            Ensures-if (less cmp e (h.slots child))
              (λ stop. returned (record {
                whole = Linked-place l;
                ordered = λ c p q. ground (arith, s.edges c, m.least c, by_key e (h.slots child));
                same_size = refl;
                same_capacity = refl;
              }))
              λ sink.
                shift_down_loop-Settled fuel (place h hole (h.slots child)) child e gone start
                  (omega (arith, m.child, m.below, l.inside, f)) bound
                  (Linked-move l child m.below (λ same. omega (arith, m.child)))
                  (Sinking-move h.size hole e child h.slots s l.inside m
                    (ground (arith, by_key e (h.slots child)))))
          λ none_below. returned (record {
            whole = Linked-place l;
            ordered = λ c p q. ground (arith, s.edges c, l.inside);
            same_size = refl;
            same_capacity = refl;
          })
