-- ===== src/MinHeap/Linked.antt =====
-- The positions that the elements keep, while one slot is open.
use sznet.Base.{ℕ, ◌<◌, ◌≡◌, ◌≢◌, ◌⊎◌, Bool, true, false, Option, none, some, arith}
use sznet.MinHeap.{update}

abbrev pub is_some {ℓ} : {A : Type ℓ} → Option A → Bool
is_some none = false
is_some (some a) = true

-- Slot `hole` of the first `size` waits for `e`, and `gone` is on its way out; every other slot
-- and its element name each other, and `start` tells what the heap held at first.
pub record Linked (start : ℕ → Option ℕ) (size hole e gone : ℕ) (slots : ℕ → ℕ) (idx : ℕ → Option ℕ)
    : Type 0 where
  pub inside : hole < size
  pub indexed : (i : ℕ) → i < size → i ≢ hole → idx (slots i) ≡ some i
  pub stored :
      (p i : ℕ) → p ≢ e → p ≢ gone → idx p ≡ some i → (i < size) × (i ≢ hole) × (slots i ≡ p)
  pub others : (i : ℕ) → i < size → i ≢ hole → (slots i ≢ e) × (slots i ≢ gone)
  pub kept : (p : ℕ) → p ≢ e → p ≢ gone → is_some (idx p) ≡ is_some (start p)

module _ {start : ℕ → Option ℕ} {size hole e gone : ℕ} {slots : ℕ → ℕ} {idx : ℕ → Option ℕ}
    (l : Linked start size hole e gone slots idx) where
  -- The element of slot `j` moves into the hole, and `j` is the new hole.
  pub Linked-move :
      (j : ℕ)
      → j < size
      → j ≢ hole
      → Linked start size j e gone (update slots hole (slots j)) (update idx (slots j) (some hole))
  Linked-move j inside apart = record {
    inside = inside;
    indexed = λ i h k. ground (arith, l.indexed i, l.indexed j);
    stored = λ p i a b h. ground (arith, l.stored p i, l.inside);
    others = λ i h k. ground (arith, l.others i, l.others j);
    kept = λ p a b. ground (arith, l.kept p, l.indexed j, l.others j);
  }

-- No slot is open any more: the first `size` slots and their elements name each other. `gone`,
-- unless it is `e` itself, is in no slot, and its position is still to be reset.
pub record Whole (start : ℕ → Option ℕ) (size e gone : ℕ) (slots : ℕ → ℕ) (idx : ℕ → Option ℕ)
    : Type 0 where
  pub indexed : (i : ℕ) → i < size → idx (slots i) ≡ some i
  pub stored : (p i : ℕ) → (p ≡ e) ⊎ (p ≢ gone) → idx p ≡ some i → (i < size) × (slots i ≡ p)
  pub others : (i : ℕ) → i < size → (slots i ≡ e) ⊎ (slots i ≢ gone)
  pub kept : (p : ℕ) → p ≢ e → p ≢ gone → is_some (idx p) ≡ is_some (start p)
  pub held : is_some (idx e) ≡ true

module _ {start : ℕ → Option ℕ} {size hole e gone : ℕ} {slots : ℕ → ℕ} {idx : ℕ → Option ℕ}
    (l : Linked start size hole e gone slots idx) where
  -- The hole takes `e`.
  pub Linked-place : Whole start size e gone (update slots hole e) (update idx e (some hole))
  Linked-place = record {
    indexed = λ i h. ground (arith, l.indexed i, l.others i);
    stored = λ p i a h. ground (arith, l.stored p i, l.inside);
    others = λ i h. ground (arith, l.others i);
    kept = λ p a b. ground (arith, l.kept p);
    held = ground arith;
  }
