-- ===== src/MinHeap/Laws.antt =====
-- What a client of the heap may rely on: a set of elements, from which `pop` takes a least one.
use sznet.Base.{
  ℕ, zero, suc, ◌+◌, ◌*◌, ◌%◌, ◌^◌, ◌≤◌, ◌<◌, ◌≡◌, ◌≢◌, ◌⊎◌, refl, Bool, true, false, not, ◌&&◌,
  ◌||◌, none, some, arith, Ordering, compare, inl, inr, Bool-cases, Option-cases, gt→leb, ltb, ◌==◌,
  if◌then◌else◌,
}
use native.Mathlib.Decide.{ℕ_discrete}
use sznet.Run.{ok, Ensures, returned, Ensures-bind, Ensures-if, Ensures-weaken}
use sznet.MinHeap.{
  MinHeap, update, place, parent, right_child, decrement, greater, reserve, shift_up, shift_down,
  shift_down_loop, push, erase, pop, top,
}
use sznet.MinHeap.Linked.{is_some, Linked}
use sznet.MinHeap.Up.{IsOrdered, Settled, Rising, shift_up_loop-Settled}
use sznet.MinHeap.Down.{Sinking, shift_down_loop-Settled}

abbrev pub contains : MinHeap → ℕ → Bool
contains h p = is_some (h.idx p)

module _ (key : ℕ → ℕ) where
  -- The slots in use are allocated and in heap order, and an element's position is its slot, or -1
  -- if it has none.
  pub record IsHeap (h : MinHeap) : Type 0 where
    pub bounded : h.size < 2 ^ 31
    pub room : h.size ≤ h.capacity
    pub ordered : IsOrdered key h.size h.slots
    pub indexed : (i : ℕ) → i < h.size → h.idx (h.slots i) ≡ some i
    pub stored : (p i : ℕ) → h.idx p ≡ some i → (i < h.size) × (h.slots i ≡ p)

  -- `h'` is a heap of the elements of `h` and of `e`.
  pub record Added (h : MinHeap) (e : ℕ) (h' : MinHeap) : Type 0 where
    pub valid : IsHeap h'
    pub size : h'.size ≡ suc h.size
    pub members : (p : ℕ) → contains h' p ≡ ((p == e) || contains h p)

  -- `h'` is a heap of the elements of `h` but `e`.
  pub record Removed (h : MinHeap) (e : ℕ) (h' : MinHeap) : Type 0 where
    pub valid : IsHeap h'
    pub size : suc h'.size ≡ h.size
    pub members : (p : ℕ) → contains h' p ≡ (not (p == e) && contains h p)

  root_least_below :
      (h : MinHeap) → IsHeap h → (k i : ℕ) → i < k → i < h.size → key (h.slots 0) ≤ key (h.slots i)
  root_least_below h v zero i f p = absurd (omega arith)
  root_least_below h v (suc k) i f p =
      ground (arith, v.ordered i, root_least_below h v k (parent i))

  pub root_least : (h : MinHeap) (p : ℕ) → IsHeap h → contains h p ≡ true → key (h.slots 0) ≤ key p
  root_least h p v c = elim (Option-cases (h.idx p)) [
    | inl e ↦ absurd (ground arith)
    | inr (i, e) ↦
        let at = v.stored p i e in rw at.1 at (root_least_below h v (suc i) i (omega arith) at.0)
  ]

  module _ (h : MinHeap) (v : IsHeap h) (i e : ℕ) (at : h.idx e ≡ some i) where
    abbrev last : ℕ
    last = h.slots (decrement h.size)

    abbrev shorter : MinHeap
    shorter = record h { size = decrement h.size }

    less_one : suc (decrement h.size) ≡ h.size
    less_one = ground (arith, v.bounded, v.stored e i at)

    here : (i < h.size) × (h.slots i ≡ e)
    here = v.stored e i at

    last_in : h.idx last ≡ some (decrement h.size)
    last_in = v.indexed (decrement h.size) (omega (arith, less_one))

    abbrev reset : MinHeap → MinHeap
    reset moved = record moved { idx = update moved.idx e none }

    -- A shift of the last element, then the reset of the position of `e`.
    finish :
        (moved : MinHeap)
        → last ≢ e
        → Settled key h.idx (decrement h.size) h.capacity last e moved
        → Removed h e (reset moved)
    finish moved apart s = record {
      valid = record {
        bounded = omega (arith, s.same_size, less_one, v.bounded);
        room = omega (arith, s.same_size, s.same_capacity, less_one, v.room);
        ordered = λ c p q. s.ordered c p (omega (arith, s.same_size));
        indexed = λ j q. ground (arith, s.whole.indexed j, s.whole.others j, s.same_size);
        stored = λ p j q. ground (arith, s.whole.stored p j, s.same_size);
      };
      size = omega (arith, s.same_size, less_one);
      members = λ p. ground (arith, s.whole.kept p, s.whole.held, last_in, at);
    }

    hole-Linked : i ≢ decrement h.size → Linked h.idx (decrement h.size) i last e h.slots h.idx
    hole-Linked before = record {
      inside = omega (arith, here, less_one);
      indexed = λ j q k. v.indexed j (omega (arith, less_one));
      stored = λ p j a b q. ground (arith, v.stored p j q, here, less_one);
      others = λ j q k. ground (arith, v.indexed j, last_in, at, less_one);
      kept = λ p a b. refl;
    }

    last-Rising :
        0 < i → key last < key (h.slots (parent i)) → Rising key (decrement h.size) i last h.slots
    last-Rising pos above = record {
      edges = λ c p q k. ground (arith, v.ordered c, v.ordered i, here, less_one);
      bridged = λ c p q k o. ground (arith, v.ordered c, v.ordered i, less_one);
    }

    last-Sinking :
        (0 < i → key (h.slots (parent i)) ≤ key last)
        → Sinking key (decrement h.size) i last h.slots
    last-Sinking below = record {
      edges = λ c p q k. ground (arith, v.ordered c, below, less_one);
      bridged = λ c p q k o. ground (arith, v.ordered c, v.ordered i, less_one);
    }

    -- The last slot needs no shift: it is the one given up.
    reset-last : i ≡ decrement h.size → Removed h e (reset (place shorter i last))
    reset-last end = record {
      valid = record {
        bounded = omega (arith, less_one, v.bounded);
        room = omega (arith, less_one, v.room);
        ordered = λ c p q. ground (arith, v.ordered c, less_one);
        indexed = λ j q. ground (arith, v.indexed j, at, here, last_in, less_one);
        stored = λ p j q. ground (arith, v.stored p j, at, here, last_in, less_one);
      };
      size = less_one;
      members = λ p. ground (arith, at, here);
    }

  module _ (cmp : ℕ → ℕ → Ordering) (by_key : (p q : ℕ) → cmp p q ≡ compare (key p) (key q)) where
    reserve_capacity :
        (h : MinHeap) (n : ℕ) → (c : ℕ) × (reserve h n ≡ record h { capacity = c }) × (n ≤ c)
    unfolding reserve
    reserve_capacity h n =
        let doubled = if h.capacity == 0 then 8 else h.capacity * 2 % 2 ^ 32 in
        elim (Bool-cases (ltb h.capacity n)) [
          | inl small ↦ (if ltb doubled n then n else doubled, rw small, ground arith)
          | inr large ↦ (h.capacity, rw large, ground arith)
        ]

    -- On a heap in order with room for another element below 2^31, for a comparison by keys, push
    -- of a new element returns a heap in order of the old elements and the new one.
    pub push-Added :
        (h : MinHeap) (e : ℕ)
        → IsHeap h
        → contains h e ≡ false
        → suc h.size < 2 ^ 31
        → Ensures (Added h e) (push cmp h e)
    unfolding push shift_up
    push-Added h e v new small =
        let n : (h.size + 1) % 2 ^ 32 ≡ suc h.size = omega arith in
        let (c, same, enough) = reserve_capacity h (suc h.size) in
        rw (n, same)
          (Ensures-weaken
            (shift_up_loop-Settled key cmp by_key (suc h.size)
              (record h { size = suc h.size; capacity = c }) h.size e e h.idx (omega arith) linked
              rising)
            λ h' s. record {
              valid = record {
                bounded = omega (arith, s.same_size);
                room = omega (arith, s.same_size, s.same_capacity, enough);
                ordered = λ c p q. s.ordered c p (omega (arith, s.same_size));
                indexed = λ j q. s.whole.indexed j (omega (arith, s.same_size));
                stored = λ p j q. ground (arith, s.whole.stored p j, s.same_size);
              };
              size = s.same_size;
              members = λ p. ground (arith, s.whole.kept p, s.whole.held);
            })
      where
        linked : Linked h.idx (suc h.size) h.size e e h.slots h.idx
        linked = record {
          inside = omega arith;
          indexed = λ j q k. v.indexed j (omega arith);
          stored = λ p j a b q. ground (arith, v.stored p j q);
          others = λ j q k. ground (arith, v.indexed j, new);
          kept = λ p a b. refl;
        }

        rising : Rising key (suc h.size) h.size e h.slots
        rising = record {
          edges = λ c p q k. ground (arith, v.ordered c);
          bridged = λ c p q k o. absurd (ground arith);
        }

    shift_down_past :
        (h : MinHeap) (hole e : ℕ)
        → suc hole < 2 ^ 31
        → h.size ≤ hole
        → shift_down cmp h hole e ≡ ok (place h hole e)
    unfolding shift_down shift_down_loop
    shift_down_past h hole e small past =
        let right : right_child hole ≡ 2 * hole + 2 = omega arith in
        rw (right, gt→leb (2 * hole + 2) h.size (omega arith))

    module _ (h : MinHeap) (v : IsHeap h) (i e : ℕ) (at : h.idx e ≡ some i) where
      last_apart : i ≢ decrement h.size → last h v i e at ≢ e
      last_apart before same = ground (arith, last_in h v i e at)

      sink_last :
          (0 < i → key (h.slots (parent i)) ≤ key (last h v i e at))
          → Ensures
              (λ moved. Removed h e (reset h v i e at moved))
              (shift_down cmp (shorter h v i e at) i (last h v i e at))
      unfolding shift_down
      sink_last below = elim (ℕ_discrete i (decrement h.size)) [
        | yes end ↦
            rw
              (shift_down_past (shorter h v i e at) i (last h v i e at)
                (omega (arith, here h v i e at, v.bounded)) (omega arith))
              (returned (reset-last h v i e at end))
        | no before ↦
            Ensures-weaken
              (shift_down_loop-Settled key cmp by_key (suc (decrement h.size)) (shorter h v i e at)
                i (last h v i e at) e h.idx (omega arith)
                (omega (arith, less_one h v i e at, v.bounded)) (hole-Linked h v i e at before)
                (last-Sinking h v i e at below))
              λ moved s. finish h v i e at moved (last_apart before) s
      ]

      rise_last :
          0 < i
          → key (last h v i e at) < key (h.slots (parent i))
          → Ensures
              (λ moved. Removed h e (reset h v i e at moved))
              (shift_up cmp (shorter h v i e at) i (last h v i e at))
      unfolding shift_up
      rise_last pos above =
          let before : i ≢ decrement h.size =
            λ end. ground (arith, here h v i e at, v.ordered i, end) in
          Ensures-weaken
            (shift_up_loop-Settled key cmp by_key (suc i) (shorter h v i e at) i (last h v i e at) e
              h.idx (omega arith) (hole-Linked h v i e at before)
              (last-Rising h v i e at pos above))
            λ moved s. finish h v i e at moved (last_apart before) s

    module _ (h : MinHeap) (v : IsHeap h) where
      -- On a heap in order, for a comparison by keys, erase returns: an element is taken out and
      -- the result is a heap in order of all the others; of what is no element it says so and
      -- changes nothing.
      pub erase-Removed :
          (e : ℕ)
          → Ensures
              (λ (done, h').
                ((done ≡ true) × (contains h e ≡ true) × Removed h e h')
                ⊎ ((done ≡ false) × (contains h e ≡ false) × (h' ≡ h)))
              (erase cmp h e)
      unfolding erase
      erase-Removed e = elim (Option-cases (h.idx e)) [
        | inl out ↦ rw (out, erase) (returned (inr (refl, (ground (arith, out)), refl)))
        | inr (i, at) ↦
            rw (at, erase)
              (Ensures-bind
                (Ensures-if
                  (ltb 0 i && greater cmp (h.slots (parent i)) (h.slots (decrement h.size)))
                  (λ up.
                    rise_last h v i e at (ground arith)
                      (ground (arith, by_key (h.slots (parent i)) (h.slots (decrement h.size)))))
                  λ down.
                    sink_last h v i e at λ pos.
                      ground (arith, by_key (h.slots (parent i)) (h.slots (decrement h.size))))
                λ moved gone. returned (inl (refl, (ground (arith, at)), gone)))
      ]

      -- On a heap in order that is not empty, for a comparison by keys, pop returns the element
      -- at the top, no element has a smaller key, and the result is a heap in order of all the
      -- others.
      pub pop-Removed :
          0 < h.size
          → Ensures
              (λ (o, h').
                (e : ℕ) × (o ≡ some e)
                × (top h ≡ some e)
                × (contains h e ≡ true)
                × ((p : ℕ) → contains h p ≡ true → key e ≤ key p)
                × Removed h e h')
              (pop cmp h)
      unfolding pop top
      pop-Removed some_left =
          let at : h.idx (h.slots 0) ≡ some 0 = v.indexed 0 some_left in
          let busy : (h.size == 0) ≡ false = ground arith in
          rw busy (
            Ensures-bind (sink_last h v 0 (h.slots 0) at (λ pos. absurd (omega arith)))
              λ moved gone.
                returned
                  (h.slots 0, refl, refl, (ground (arith, at)), (λ p c. root_least h p v c), gone))

-- The order matters for the elements only.
pub IsHeap-congr :
    (key key' : ℕ → ℕ) (h : MinHeap)
    → ((p : ℕ) → contains h p ≡ true → key' p ≡ key p)
    → IsHeap key h
    → IsHeap key' h
IsHeap-congr key key' h same v = record {
  bounded = v.bounded;
  room = v.room;
  ordered = λ c p q. ground (
    arith,
    v.ordered c,
    same (h.slots c),
    same (h.slots (parent c)),
    v.indexed c,
    v.indexed (parent c),
  );
  indexed = v.indexed;
  stored = v.stored;
}
