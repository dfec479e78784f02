-- ===== src/StringPiece.antt =====
-- StringPiece of sznet/string/StringPiece.h: bytes in memory that it does not own. Bytes are unsigned, as
-- memcmp compares them, and lengths are not negative. Of what memcmp returns and of what compare
-- returns, the sign is kept.
pub mod Ordered
mod Tests
use sznet.Base.{
  ℕ, ◌-◌, Bool, true, false, not, ◌&&◌, ◌||◌, List, [], ◌∷◌, ltb, leb, ◌==◌, if◌then◌else◌, length,
  take, drop, compare, Ordering,
}
use sznet.Run.{Run, ok, ◌>>=◌, ◌>>◌, within}

-- `memory` is what stands from `m_ptr` on.
pub record StringPiece : Type 0 where
  pub memory : List ℕ
  pub size : ℕ

abbrev pub bytes_of : StringPiece → List ℕ
bytes_of p = take p.size p.memory

abbrev pub then_by : Ordering → Ordering → Ordering
then_by Ordering.eq o = o
then_by Ordering.lt o = Ordering.lt
then_by Ordering.gt o = Ordering.gt

-- The sign of the first difference.
abbrev pub difference : List ℕ → List ℕ → Ordering
difference [] ys = Ordering.eq
difference (x ∷ xs) [] = Ordering.eq
difference (x ∷ xs) (y ∷ ys) = then_by (compare x y) (difference xs ys)

-- The sign of what `memcmp` returns for `n` bytes, all of which may be read.
pub memcmp : List ℕ → List ℕ → ℕ → Run Ordering
memcmp xs ys n = do
  within (leb n (length xs))
  within (leb n (length ys))
  ok (difference (take n xs) (take n ys))

abbrev pub is_lt : Ordering → Bool
is_lt Ordering.lt = true
is_lt _ = false

abbrev pub is_gt : Ordering → Bool
is_gt Ordering.gt = true
is_gt _ = false

abbrev pub is_eq : Ordering → Bool
is_eq Ordering.eq = true
is_eq _ = false

abbrev pub shorter : StringPiece → StringPiece → ℕ
shorter p q = if ltb p.size q.size then p.size else q.size

-- `operator cmp`, by a test of the result of memcmp and one of the lengths
pub binary_predicate : (Ordering → Bool) → (ℕ → ℕ → Bool) → StringPiece → StringPiece → Run Bool
binary_predicate auxcmp cmp p q = do
  r ← memcmp p.memory q.memory (shorter p q)
  ok (auxcmp r || (is_eq r && cmp p.size q.size))

abbrev pub less : StringPiece → StringPiece → Run Bool
less = binary_predicate is_lt ltb

abbrev pub less_equal : StringPiece → StringPiece → Run Bool
less_equal = binary_predicate is_lt leb

abbrev pub greater_equal : StringPiece → StringPiece → Run Bool
greater_equal = binary_predicate is_gt λ a b. leb b a

abbrev pub greater : StringPiece → StringPiece → Run Bool
greater = binary_predicate is_gt λ a b. ltb b a

-- The sign of `compare`.
pub compare_pieces : StringPiece → StringPiece → Run Ordering
compare_pieces p q = do
  r ← memcmp p.memory q.memory (shorter p q)
  ok (then_by r (compare p.size q.size))

pub equal : StringPiece → StringPiece → Run Bool
equal p q =
    let same : Run Bool = memcmp p.memory q.memory p.size >>= λ r. ok (is_eq r) in
    if p.size == q.size then same else ok false

-- `operator!=`
pub unequal : StringPiece → StringPiece → Run Bool
unequal p q = do same ← equal p q; ok (not same)

pub starts_with : StringPiece → StringPiece → Run Bool
starts_with p q =
    let same : Run Bool = memcmp p.memory q.memory q.size >>= λ r. ok (is_eq r) in
    if leb q.size p.size then same else ok false
