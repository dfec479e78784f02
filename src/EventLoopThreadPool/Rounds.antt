-- ===== src/EventLoopThreadPool/Rounds.antt =====
-- The rounds of sznet/net/EventLoopThreadPool.cpp.
use sznet.Base.{
  ℕ, zero, suc, ◌<◌, ◌≤◌, ◌≡◌, refl, ap, ◌∙◌, sym, true, false, List, [], ◌∷◌, ◌++◌, leb,
  if◌then◌else◌, length, take, drop, take_all, drop_all, append-nil, append_assoc, length-append,
  take-append_left, length-take, length-drop, arith, Bool-cases, inl, inr,
}
use sznet.Run.{
  Run, ok, ◌>>=◌, Ensures, returned, Ensures-bind, Ensures-weaken, Ensures-if, Ensures-assert,
}
use sznet.EventLoopThreadPool.{EventLoopThreadPool, element, is_empty, get_next_loop}

-- So many calls of `getNextLoop`, and what they return.
pub get_next_loops : ℕ → EventLoopThreadPool → Run (List ℕ × EventLoopThreadPool)
get_next_loops zero p = ok ([], p)
get_next_loops (suc k) p = do
  (loop, p1) ← get_next_loop p
  (loops, p2) ← get_next_loops k p1
  ok (loop ∷ loops, p2)

-- The pool runs, and its next loop is one of those that it has.
pub record IsValid (p : EventLoopThreadPool) : Type 0 where
  pub started : p.started ≡ true
  pub inside : p.next < length p.loops

-- The loops in the order in which their turns come.
abbrev pub rotation : EventLoopThreadPool → List ℕ
rotation p = drop p.next p.loops ++ take p.next p.loops

-- `x` is the element at `i`.
record At (xs : List ℕ) (i x : ℕ) : Type 0 where
  dropped : drop i xs ≡ x ∷ drop (suc i) xs
  taken : take (suc i) xs ≡ take i xs ++ x ∷ []

element-At : (xs : List ℕ) (i : ℕ) → i < length xs → Ensures (At xs i) (element xs i)
unfolding element
element-At [] i h = absurd (omega arith)
element-At (x ∷ xs) zero h = returned (record { dropped = refl; taken = refl })
element-At (x ∷ xs) (suc i) h =
    Ensures-weaken (element-At xs i (omega arith))
      λ y at. record { dropped = at.dropped; taken = ap (◌∷◌ x) at.taken }

some-is_empty : (xs : List ℕ) → 0 < length xs → is_empty xs ≡ false
some-is_empty [] h = absurd (omega arith)
some-is_empty (x ∷ xs) h = refl

-- What one call does: the first of the rotation comes last.
record Turn (p : EventLoopThreadPool) (x : ℕ) (p' : EventLoopThreadPool) : Type 0 where
  valid : IsValid p'
  loops : p'.loops ≡ p.loops
  others : List ℕ
  before : rotation p ≡ x ∷ others
  after : rotation p' ≡ others ++ x ∷ []

abbrev next_loop : EventLoopThreadPool → EventLoopThreadPool
next_loop p = record p { next = if leb (length p.loops) (suc p.next) then 0 else suc p.next }

turned :
    (p : EventLoopThreadPool) (x : ℕ) → IsValid p → At p.loops p.next x → Turn p x (next_loop p)
turned p x v at = elim (Bool-cases (leb (length p.loops) (suc p.next))) [
  | inl last ↦ rw last (record {
    valid = record { started = v.started; inside = omega (arith, v.inside) };
    loops = refl;
    others = drop (suc p.next) p.loops ++ take p.next p.loops;
    before = ap (λ l. l ++ take p.next p.loops) at.dropped;
    after =
        append-nil p.loops
        ∙ sym (take_all (suc p.next) p.loops (ground (arith, last)))
        ∙ at.taken
        ∙ ap (λ l. (l ++ take p.next p.loops) ++ x ∷ [])
            (sym (drop_all (suc p.next) p.loops (ground (arith, last))));
  })
  | inr more ↦ rw more (record {
    valid = record { started = v.started; inside = ground (arith, more) };
    loops = refl;
    others = drop (suc p.next) p.loops ++ take p.next p.loops;
    before = ap (λ l. l ++ take p.next p.loops) at.dropped;
    after =
        ap (◌++◌ (drop (suc p.next) p.loops)) at.taken
        ∙ sym (append_assoc (drop (suc p.next) p.loops) (take p.next p.loops) (x ∷ []));
  })
]

get_next_loop-Turn :
    (p : EventLoopThreadPool) → IsValid p → Ensures (λ (x, p'). Turn p x p') (get_next_loop p)
unfolding get_next_loop
get_next_loop-Turn p v = Ensures-assert p.started v.started (
    Ensures-if (is_empty p.loops)
      (λ none. absurd (ground (arith, none, some-is_empty p.loops (omega (arith, v.inside)))))
      λ some. Ensures-bind (element-At p.loops p.next v.inside) λ x at. returned (turned p x v at))

length-rotation : (p : EventLoopThreadPool) → IsValid p → length (rotation p) ≡ length p.loops
length-rotation p v = omega (
  arith,
  v.inside,
  length-append (drop p.next p.loops) (take p.next p.loops),
  length-drop p.next p.loops,
  length-take p.next p.loops,
)

-- On a started pool with loops whose next index is inside, as many calls of getNextLoop as there
-- are loops, or fewer, return, with the loops in turn from the next one on, round the end of the
-- vector, so that as many calls as there are loops give each loop once; the pool stays such a
-- pool with the same loops.
pub get_next_loops-rotation :
    (k : ℕ) (p : EventLoopThreadPool)
    → IsValid p
    → k ≤ length p.loops
    → Ensures
        (λ (xs, p'). (xs ≡ take k (rotation p)) × (IsValid p' × (p'.loops ≡ p.loops)))
        (get_next_loops k p)
unfolding get_next_loops
get_next_loops-rotation zero p v h = returned (refl, (v, refl))
get_next_loops-rotation (suc k) p v h = Ensures-bind (get_next_loop-Turn p v) λ (x, p1) t.
    Ensures-bind (get_next_loops-rotation k p1 t.valid (rw t.loops (omega arith)))
      λ (xs, p2) (same, (w, kept)).
        let room : k ≤ length t.others =
          omega (arith, h, ap length t.before, length-rotation p v) in
        let rest : xs ≡ take k t.others =
          same ∙ ap (take k) t.after ∙ take-append_left k t.others (x ∷ []) room in
        returned (ap (◌∷◌ x) rest ∙ ap (take (suc k)) (sym t.before), (w, kept ∙ t.loops))
