-- ===== src/StringPiece/Ordered.antt =====
-- The comparisons of sznet/string/StringPiece.h, and orders of lists of bytes.
use sznet.Base.{
  ℕ, zero, suc, ◌≤◌, ◌≡◌, refl, subst, sym, ap, ◌∙◌, Bool, true, false, not, ◌&&◌, ◌||◌, List, [],
  ◌∷◌, ltb, leb, ◌==◌, if◌then◌else◌, length, take, compare, Ordering, arith, le→leb, Bool-cases,
  inl, inr,
}
use Prim.Native.Nat.compare
use sznet.Run.{ok}
use sznet.StringPiece.{
  StringPiece, bytes_of, then_by, difference, memcmp, is_lt, is_gt, is_eq, shorter,
  binary_predicate, less, less_equal, greater_equal, greater, compare_pieces, equal, unequal,
  starts_with,
}

-- The lexicographic order, in which a beginning comes first.
abbrev pub lexicographic : List ℕ → List ℕ → Ordering
lexicographic [] [] = Ordering.eq
lexicographic [] (y ∷ ys) = Ordering.lt
lexicographic (x ∷ xs) [] = Ordering.gt
lexicographic (x ∷ xs) (y ∷ ys) = then_by (compare x y) (lexicographic xs ys)

-- Whether the second list is a beginning of the first.
abbrev pub begins : List ℕ → List ℕ → Bool
begins xs [] = true
begins [] (y ∷ ys) = false
begins (x ∷ xs) (y ∷ ys) = (x == y) && begins xs ys

-- Its bytes are all in memory.
abbrev pub IsReadable : StringPiece → Type 0
IsReadable p = p.size ≤ length p.memory

then_by_assoc : (a b c : Ordering) → then_by (then_by a b) c ≡ then_by a (then_by b c)
then_by_assoc Ordering.lt b c = refl
then_by_assoc Ordering.eq b c = refl
then_by_assoc Ordering.gt b c = refl

-- What is read of two pieces, and then their lengths.
by_parts :
    (m n : ℕ) (xs ys : List ℕ)
    → m ≤ length xs
    → n ≤ length ys
    → then_by
        (difference (take (if ltb m n then m else n) xs) (take (if ltb m n then m else n) ys))
        (compare m n)
      ≡ lexicographic (take m xs) (take n ys)
by_parts zero zero xs ys h k = refl
by_parts zero (suc n) xs [] h k = absurd (omega (arith, k))
by_parts zero (suc n) xs (y ∷ ys) h k =
    let least : (if ltb zero (suc n) then zero else suc n) ≡ zero = ground arith in
    let o : compare zero (suc n) ≡ Ordering.lt = ground arith in rw (least, o) refl
by_parts (suc m) zero [] ys h k = absurd (omega (arith, h))
by_parts (suc m) zero (x ∷ xs) ys h k =
    let least : (if ltb (suc m) zero then suc m else zero) ≡ zero = ground arith in
    let o : compare (suc m) zero ≡ Ordering.gt = ground arith in rw (least, o) refl
by_parts (suc m) (suc n) [] ys h k = absurd (omega (arith, h))
by_parts (suc m) (suc n) (x ∷ xs) [] h k = absurd (omega (arith, k))
by_parts (suc m) (suc n) (x ∷ xs) (y ∷ ys) h k =
    let least : (if ltb (suc m) (suc n) then suc m else suc n) ≡ suc (if ltb m n then m else n) =
      ground arith in
    rw (least, compare.suc-suc m n)
      (then_by_assoc (compare x y) _ _
        ∙ ap (then_by (compare x y)) (by_parts m n xs ys (omega (arith, h)) (omega (arith, k))))

memcmp-ok :
    (xs ys : List ℕ) (n : ℕ)
    → n ≤ length xs
    → n ≤ length ys
    → memcmp xs ys n ≡ ok (difference (take n xs) (take n ys))
unfolding memcmp
memcmp-ok xs ys n h k = rw (le→leb _ _ h, le→leb _ _ k) refl

-- The tests of the operators, on the result of memcmp and the lengths.
is_lt-then_by :
    (r : Ordering) (a b : ℕ) → (is_lt r || (is_eq r && ltb a b)) ≡ is_lt (then_by r (compare a b))
is_lt-then_by Ordering.lt a b = refl
is_lt-then_by Ordering.eq a b = refl
is_lt-then_by Ordering.gt a b = refl

not_gt-then_by :
    (r : Ordering) (a b : ℕ)
    → (is_lt r || (is_eq r && leb a b)) ≡ not (is_gt (then_by r (compare a b)))
not_gt-then_by Ordering.lt a b = refl
not_gt-then_by Ordering.eq a b = ground arith
not_gt-then_by Ordering.gt a b = refl

not_lt-then_by :
    (r : Ordering) (a b : ℕ)
    → (is_gt r || (is_eq r && leb b a)) ≡ not (is_lt (then_by r (compare a b)))
not_lt-then_by Ordering.lt a b = refl
not_lt-then_by Ordering.eq a b = ground arith
not_lt-then_by Ordering.gt a b = refl

is_gt-then_by :
    (r : Ordering) (a b : ℕ) → (is_gt r || (is_eq r && ltb b a)) ≡ is_gt (then_by r (compare a b))
is_gt-then_by Ordering.lt a b = refl
is_gt-then_by Ordering.eq a b = ground arith
is_gt-then_by Ordering.gt a b = refl

is_eq-then_by : (r : Ordering) (a b : ℕ) → (is_eq r && (a == b)) ≡ is_eq (then_by r (compare a b))
is_eq-then_by Ordering.lt a b = refl
is_eq-then_by Ordering.eq a b = ground arith
is_eq-then_by Ordering.gt a b = refl

and_true : (b : Bool) → (b && true) ≡ b
and_true true = refl
and_true false = refl

and_false : (b : Bool) → (b && false) ≡ false
and_false true = refl
and_false false = refl

is_eq-first : (x y : ℕ) (d : Ordering) → is_eq (then_by (compare x y) d) ≡ ((x == y) && is_eq d)
is_eq-first x y Ordering.lt = ground arith
is_eq-first x y Ordering.eq = ground arith
is_eq-first x y Ordering.gt = ground arith

and_swap : (a b c : Bool) → (a && (b && c)) ≡ (b && (a && c))
and_swap true b c = refl
and_swap false true c = refl
and_swap false false c = refl

begins-parts :
    (m n : ℕ) (xs ys : List ℕ)
    → m ≤ length xs
    → n ≤ length ys
    → (leb n m && is_eq (difference (take n xs) (take n ys))) ≡ begins (take m xs) (take n ys)
begins-parts m zero xs ys h k = let l : leb zero m ≡ true = ground arith in rw l refl
begins-parts m (suc n) xs [] h k = absurd (omega (arith, k))
begins-parts (suc m) (suc n) [] (y ∷ ys) h k = absurd (omega (arith, h))
begins-parts zero (suc n) xs (y ∷ ys) h k =
    let l : leb (suc n) zero ≡ false = ground arith in rw l refl
begins-parts (suc m) (suc n) (x ∷ xs) (y ∷ ys) h k =
    let l : leb (suc n) (suc m) ≡ leb n m = ground arith in
    rw (l, is_eq-first x y (difference (take n xs) (take n ys)))
      (and_swap (leb n m) (x == y) _
        ∙ ap (λ b. (x == y) && b) (begins-parts m n xs ys (omega (arith, h)) (omega (arith, k))))

module _ (p q : StringPiece) (h : IsReadable p) (k : IsReadable q) where
  abbrev order : Ordering
  order = lexicographic (bytes_of p) (bytes_of q)

  abbrev first_difference : Ordering
  first_difference = difference (take (shorter p q) p.memory) (take (shorter p q) q.memory)

  parts : then_by first_difference (compare p.size q.size) ≡ order
  parts = by_parts p.size q.size p.memory q.memory h k

  read-ok : memcmp p.memory q.memory (shorter p q) ≡ ok first_difference
  read-ok = memcmp-ok p.memory q.memory (shorter p q) (ground (arith, h, k)) (ground (arith, h, k))

  predicate-ok :
      (auxcmp : Ordering → Bool) (cmp : ℕ → ℕ → Bool) (test : Ordering → Bool)
      → ((r : Ordering) (a b : ℕ)
          → (auxcmp r || (is_eq r && cmp a b)) ≡ test (then_by r (compare a b)))
      → binary_predicate auxcmp cmp p q ≡ ok (test order)
  unfolding binary_predicate
  predicate-ok auxcmp cmp test e =
      rw read-ok (ap ok (e first_difference p.size q.size ∙ ap test parts))

  compare-ok : compare_pieces p q ≡ ok order
  unfolding compare_pieces
  compare-ok = rw read-ok (ap ok parts)

  equal-ok : equal p q ≡ ok (is_eq order)
  unfolding equal
  equal-ok = elim (Bool-cases (p.size == q.size)) [
    | inl e ↦
        let least : shorter p q ≡ p.size = ground (arith, e) in
        let read = subst (λ n. memcmp p.memory q.memory n ≡ ok first_difference) least read-ok in
        rw (e, read)
          (ap ok (
            sym (and_true _)
            ∙ sym (ap (λ b. is_eq first_difference && b) e)
            ∙ is_eq-then_by first_difference p.size q.size
            ∙ ap is_eq parts))
    | inr e ↦ rw e (
        ap ok (
          sym (and_false _)
          ∙ sym (ap (λ b. is_eq first_difference && b) e)
          ∙ is_eq-then_by first_difference p.size q.size
          ∙ ap is_eq parts))
  ]

  unequal-ok : unequal p q ≡ ok (not (is_eq order))
  unfolding unequal
  unequal-ok = rw equal-ok refl

  starts_with-ok : starts_with p q ≡ ok (begins (bytes_of p) (bytes_of q))
  unfolding starts_with
  starts_with-ok =
      let e = begins-parts p.size q.size p.memory q.memory h k in
      elim (Bool-cases (leb q.size p.size)) [
        | inl l ↦
            let read = memcmp-ok p.memory q.memory q.size (ground (arith, l, h)) k in
            rw (l, read)
              (ap ok (
                subst
                  (λ b.
                    (b && is_eq (difference (take q.size p.memory) (take q.size q.memory)))
                    ≡ begins (bytes_of p) (bytes_of q))
                  l e))
        | inr l ↦ rw l (
            ap ok (
              subst
                (λ b.
                  (b && is_eq (difference (take q.size p.memory) (take q.size q.memory)))
                  ≡ begins (bytes_of p) (bytes_of q))
                l e))
      ]

  -- On two pieces whose bytes are all in memory, compare returns the sign of the lexicographic
  -- order of their bytes, in which a beginning comes first; <, <=, >=, >, == and != answer by
  -- this order; and starts_with tells whether the second is a beginning of the first. All return.
  pub compare-lexicographic :
      (compare_pieces p q ≡ ok (lexicographic (bytes_of p) (bytes_of q)))
      × (less p q ≡ ok (is_lt (lexicographic (bytes_of p) (bytes_of q))))
      × (less_equal p q ≡ ok (not (is_gt (lexicographic (bytes_of p) (bytes_of q)))))
      × (greater_equal p q ≡ ok (not (is_lt (lexicographic (bytes_of p) (bytes_of q)))))
      × (greater p q ≡ ok (is_gt (lexicographic (bytes_of p) (bytes_of q))))
      × (equal p q ≡ ok (is_eq (lexicographic (bytes_of p) (bytes_of q))))
      × (unequal p q ≡ ok (not (is_eq (lexicographic (bytes_of p) (bytes_of q)))))
      × (starts_with p q ≡ ok (begins (bytes_of p) (bytes_of q)))
  compare-lexicographic = (
    compare-ok,
    predicate-ok is_lt ltb is_lt is_lt-then_by,
    predicate-ok is_lt leb (λ o. not (is_gt o)) not_gt-then_by,
    predicate-ok is_gt (λ a b. leb b a) (λ o. not (is_lt o)) not_lt-then_by,
    predicate-ok is_gt (λ a b. ltb b a) is_gt is_gt-then_by,
    equal-ok,
    unequal-ok,
    starts_with-ok,
  )
