-- ===== src/Buffer/Bytes.antt =====
-- The memory behind `std::vector<char>`: `memcpy`, `resize`, and the bytes at an offset.
use sznet.Base.{
  ℕ, ◌+◌, ◌-◌, ◌≤◌, ◌≡◌, sym, ap, ◌∙◌, List, ◌++◌, append-nil, arith, length, take, drop, replicate,
  length-append, length-take, length-drop, length-replicate, take_all, take-append_left,
  take-append_right, drop-append_left, drop-append_right, take-drop,
}

-- `memcpy` of `ys` over the bytes at an offset
abbrev pub overwrite : List ℕ → ℕ → List ℕ → List ℕ
overwrite xs at ys = take at xs ++ (ys ++ drop (at + length ys) xs)

-- `std::vector::resize`: cut off, or filled up with zero bytes
abbrev pub resize : List ℕ → ℕ → List ℕ
resize xs n = take n xs ++ replicate (n - length xs) 0

pub length-overwrite :
    (xs : List ℕ) (at : ℕ) (ys : List ℕ)
    → at + length ys ≤ length xs
    → length (overwrite xs at ys) ≡ length xs
length-overwrite xs at ys h = omega (
  arith,
  length-append (take at xs) (ys ++ drop (at + length ys) xs),
  length-append ys (drop (at + length ys) xs),
  length-take at xs,
  length-drop (at + length ys) xs,
)

pub length-resize : (xs : List ℕ) (n : ℕ) → length (resize xs n) ≡ n
length-resize xs n = omega (
  arith,
  length-append (take n xs) (replicate (n - length xs) 0),
  length-take n xs,
  length-replicate {A = ℕ} (n - length xs) 0,
)

pub length-slice : (xs : List ℕ) (at n : ℕ) → at + n ≤ length xs → length (take n (drop at xs)) ≡ n
length-slice xs at n h = omega (arith, length-take n (drop at xs), length-drop at xs)

-- A range that starts at `at` or before it sees the bytes written there after its own.
pub slice-overwrite_after :
    (xs : List ℕ) (r at : ℕ) (ys : List ℕ)
    → r ≤ at
    → at ≤ length xs
    → take (at - r + length ys) (drop r (overwrite xs at ys)) ≡ take (at - r) (drop r xs) ++ ys
slice-overwrite_after xs r at ys h k =
    ap (take (at - r + length ys)) (drop-append_left r (take at xs) rest (omega (arith, size)))
    ∙ take-append_right (at - r + length ys) front rest (omega (arith, front_size))
    ∙ ap (λ n. front ++ take n rest) (omega (arith, front_size))
    ∙ ap (◌++◌ front) (
        take-append_left (length ys) ys (drop (at + length ys) xs) (omega arith)
        ∙ take_all (length ys) ys (omega arith))
    ∙ ap (λ l. l ++ ys) before
  where
    rest : List ℕ
    rest = ys ++ drop (at + length ys) xs

    front : List ℕ
    front = drop r (take at xs)

    size : length (take at xs) ≡ at
    size = omega (arith, length-take at xs)

    front_size : length front ≡ at - r
    front_size = omega (arith, size, length-drop r (take at xs))

    before : front ≡ take (at - r) (drop r xs)
    before = sym (take-drop r (at - r) xs ∙ ap (λ n. drop r (take n xs)) (omega arith))

-- A range that starts where the bytes were written sees them first, then the old ones.
pub slice-overwrite :
    (xs : List ℕ) (at : ℕ) (ys : List ℕ) (n : ℕ)
    → at ≤ length xs
    → take (length ys + n) (drop at (overwrite xs at ys)) ≡ ys ++ take n (drop (at + length ys) xs)
slice-overwrite xs at ys n h =
    let start : at - length (take at xs) ≡ 0 = omega (arith, size) in
    let left : length ys + n - length ys ≡ n = omega arith in
    ap (take (length ys + n))
      (drop-append_right at (take at xs) rest (omega (arith, size)) ∙ ap (λ k. drop k rest) start)
    ∙ take-append_right (length ys + n) ys (drop (at + length ys) xs) (omega arith)
    ∙ ap (λ k. ys ++ take k (drop (at + length ys) xs)) left
  where
    rest : List ℕ
    rest = ys ++ drop (at + length ys) xs

    size : length (take at xs) ≡ at
    size = omega (arith, length-take at xs)

-- `resize` to a larger size keeps what was there.
pub slice-resize :
    (xs : List ℕ) (r n m : ℕ)
    → r + n ≤ length xs
    → length xs ≤ m
    → take n (drop r (resize xs m)) ≡ take n (drop r xs)
slice-resize xs r n m h k =
    ap (λ l. take n (drop r (l ++ padding))) (take_all m xs k)
    ∙ ap (take n) (drop-append_left r xs padding (omega arith))
    ∙ take-append_left n (drop r xs) padding (omega (arith, length-drop r xs))
  where
    padding : List ℕ
    padding = replicate (m - length xs) 0

pub slice-overwrite_self :
    (xs : List ℕ) (at : ℕ) (ys : List ℕ)
    → at ≤ length xs
    → take (length ys) (drop at (overwrite xs at ys)) ≡ ys
slice-overwrite_self xs at ys h =
    let e : length ys ≡ length ys + 0 = omega arith in
    ap (λ n. take n (drop at (overwrite xs at ys))) e ∙ slice-overwrite xs at ys 0 h ∙ append-nil ys
