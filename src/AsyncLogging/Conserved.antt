-- ===== src/AsyncLogging/Conserved.antt =====
-- What becomes of the lines that sznet/log/AsyncLogging.cpp is given.
use sznet.Base.{
  ℕ, ◌-◌, min, ◌≤◌, ◌≡◌, refl, ap, ◌∙◌, sym, Bool, true, false, not, ◌||◌, List, [], ◌∷◌, ◌++◌, ltb,
  leb, if◌then◌else◌, length, inl, inr, Bool-cases, arith, append-nil, append_assoc, length-append,
}
use sznet.Run.{ok, Ensures, returned, Ensures-assert, Ensures-weaken, Ensures_of_ok, assert_ok}
use sznet.AsyncLogging.{
  Phase, testing, waiting, writing, ended, AsyncLogging, fill, change_buffer, append, stop, concat,
  take_buffers, write_batch, advance, Step, logs, advances, stops, Reachable, start, next,
}

abbrev pub batch_of : Phase → List (List ℕ)
batch_of (writing s batch) = batch
batch_of _ = []

-- All that was logged: in the file, in the hands of the thread, and in the buffers.
abbrev pub all_logged : AsyncLogging → List ℕ
all_logged a = a.file ++ (concat (batch_of a.phase) ++ (concat a.buffers ++ a.current))

-- The thread has a batch that gives its buffers back.
abbrev pub HasBuffers : Phase → Type 0
HasBuffers (writing spare_taken batch) = (if spare_taken then 2 else 1) ≤ length batch
HasBuffers _ = Unit

pub record IsValid (size : ℕ) (a : AsyncLogging) : Type 0 where
  pub fits : length a.current ≤ size
  pub spare : (if a.spare then 0 else 1) ≤ length a.buffers
  pub batch : HasBuffers a.phase

concat-append : (xs : List (List ℕ)) (b : List ℕ) → concat (xs ++ b ∷ []) ≡ concat xs ++ b
unfolding concat
concat-append [] b = append-nil b
concat-append (x ∷ xs) b = ap (◌++◌ x) (concat-append xs b) ∙ sym (append_assoc x (concat xs) b)

pub record Kept (size : ℕ) (a : AsyncLogging) (line : List ℕ) (a' : AsyncLogging) : Type 0 where
  pub valid : IsValid size a'
  pub more : a.dropped ≤ a'.dropped
  pub in_order : (a'.dropped ≡ a.dropped) → all_logged a' ≡ all_logged a ++ line

-- What a line adds.
abbrev pub taken : ℕ → List ℕ → List ℕ
taken size line = if ltb (length line) size then line else []

put_aside :
    (a : AsyncLogging) (l : List ℕ)
    → a.file ++ (concat (batch_of a.phase) ++ (concat (a.buffers ++ a.current ∷ []) ++ l))
      ≡ all_logged a ++ l
put_aside a l = rw (concat-append a.buffers a.current) (simp append_assoc)

module _ (size : ℕ) where
  fits-Kept :
      (a : AsyncLogging) (line : List ℕ)
      → IsValid size a
      → ltb (length line) (size - length a.current) ≡ true
      → Kept size a (taken size line) (record a { current = fill size a.current line })
  fits-Kept a line v room =
      let short : ltb (length line) size ≡ true = ground (arith, room) in
      rw (room, short)
        (record {
          valid = record {
            fits = ground (arith, room, length-append a.current line);
            spare = v.spare;
            batch = v.batch;
          };
          more = omega arith;
          in_order =
              λ none. regroup a.file (concat (batch_of a.phase)) (concat a.buffers) a.current line;
        })
    where
      regroup : (f b c d l : List ℕ) → f ++ (b ++ (c ++ (d ++ l))) ≡ (f ++ (b ++ (c ++ d))) ++ l
      regroup f b c d l = simp append_assoc

  change-Kept :
      (a : AsyncLogging) (line : List ℕ)
      → IsValid size a
      → Kept size a (taken size line) (change_buffer size a line)
  change-Kept a line v = elim (Bool-cases (ltb (length line) size)) [
    | inl short ↦
        let here : ltb (length line) (size - 0) ≡ true = ground (arith, short) in
        rw (here, short)
          (record {
            valid = record {
              fits = ground (arith, short);
              spare = omega (arith, length-append a.buffers (a.current ∷ []));
              batch = v.batch;
            };
            more = omega arith;
            in_order = λ none. put_aside a line;
          })
    | inr long ↦
        let here : ltb (length line) (size - 0) ≡ false = ground (arith, long) in
        rw (here, long)
          (record {
            valid = record {
              fits = omega arith;
              spare = omega (arith, length-append a.buffers (a.current ∷ []));
              batch = v.batch;
            };
            more = omega arith;
            in_order = λ none. put_aside a [];
          })
  ]

  append-Kept :
      (a a' : AsyncLogging) (line : List ℕ)
      → IsValid size a
      → append size a line ≡ ok a'
      → Kept size a (taken size line) a'
  unfolding append
  append-Kept a a' line v e =
      let (small, done) = assert_ok (leb (length line) size) e in
      let put = record a { current = fill size a.current line } in
      let changed = change_buffer size a line in
      elim (Bool-cases (ltb (length line) (size - length a.current))) [
        | inl room ↦
            Ensures_of_ok {P = Kept size a (taken size line)}
              (ap (λ b. ok (if b then put else changed)) (sym room) ∙ done)
              (returned (fits-Kept a line v room))
        | inr full ↦
            Ensures_of_ok {P = Kept size a (taken size line)}
              (ap (λ b. ok (if b then put else changed)) (sym full) ∙ done)
              (returned (change-Kept a line v))
      ]

  module _ (notice : ℕ → List ℕ) where
    still :
        (a a' : AsyncLogging)
        → IsValid size a'
        → a'.dropped ≡ a.dropped
        → all_logged a' ≡ all_logged a
        → Kept size a [] a'
    still a a' v d same = record {
      valid = v;
      more = omega (arith, d);
      in_order = λ none. same ∙ sym (append-nil (all_logged a));
    }

    write-Kept :
        (a : AsyncLogging) (taken_spare : Bool) (batch : List (List ℕ))
        → IsValid size (record a { phase = writing taken_spare batch })
        → Kept size
            (record a { phase = writing taken_spare batch })
            []
            (record (write_batch notice (record a { phase = writing taken_spare batch }) batch) {
              phase = testing;
            })
    unfolding write_batch concat
    write-Kept a s batch v = elim (Bool-cases (ltb 25 (length batch))) [
      | inl many ↦ rw many (record {
        valid = record { fits = v.fits; spare = v.spare; batch = tt };
        more = omega arith;
        in_order = λ none. absurd (ground (arith, none, many));
      })
      | inr few ↦ rw few (
          still (record a { phase = writing s batch })
            (record a { file = a.file ++ concat batch; phase = testing })
            (record { fits = v.fits; spare = v.spare; batch = tt }) refl
            (append_assoc a.file (concat batch) (concat a.buffers ++ a.current)))
    ]

    advance_at-Kept :
        (a : AsyncLogging) (p : Phase)
        → IsValid size (record a { phase = p })
        → Ensures (Kept size (record a { phase = p }) []) (advance notice (record a { phase = p }))
    unfolding advance concat
    advance_at-Kept a testing v = elim (Bool-cases a.running) [
      | inl on ↦ rw on (
          returned (
            still _ (record a { running = true; phase = waiting })
              (record { fits = v.fits; spare = v.spare; batch = tt }) refl refl))
      | inr off ↦ rw off (
          returned (
            still _ (record a { running = false; phase = ended })
              (record { fits = v.fits; spare = v.spare; batch = tt }) refl refl))
    ]
    advance_at-Kept a waiting v = returned {a = take_buffers a} (
        still (record a { phase = waiting }) (take_buffers a)
          (record {
            fits = omega arith;
            spare = omega arith;
            batch = ground (arith, v.spare, length-append a.buffers (a.current ∷ []));
          })
          refl
          (ap (◌++◌ a.file) (
            append-nil (concat (a.buffers ++ a.current ∷ [])) ∙ concat-append a.buffers a.current)))
    advance_at-Kept a (writing s batch) v =
        Ensures-assert (ltb 0 (length batch)) (ground (arith, v.batch)) (
          Ensures-assert (ltb 0 (min 2 (length batch))) (ground (arith, v.batch)) (
            Ensures-assert (not s || ltb 0 (min 2 (length batch) - 1)) (ground (arith, v.batch))
              (returned (write-Kept a s batch v))))
    advance_at-Kept a ended v = returned (still _ (record a { phase = ended }) v refl refl)

    Step-Kept :
        {a a' : AsyncLogging} {line : List ℕ}
        → Step notice size a line a'
        → IsValid size a
        → Kept size a line a'
    Step-Kept {a} {a'} (logs line e) v = append-Kept a a' line v e
    Step-Kept {a} (advances e) v = Ensures_of_ok e (advance_at-Kept a a.phase v)
    Step-Kept {a} stops v =
        still a (stop a) (record { fits = v.fits; spare = v.spare; batch = v.batch }) refl refl

    pub Reachable-IsValid :
        {logged : List ℕ} {a : AsyncLogging} → Reachable notice size logged a → IsValid size a
    Reachable-IsValid start = record { fits = omega arith; spare = omega arith; batch = tt }
    Reachable-IsValid (next r s) = (Step-Kept s (Reachable-IsValid r)).valid

    pub Reachable-in_order :
        {logged : List ℕ} {a : AsyncLogging}
        → Reachable notice size logged a
        → a.dropped ≡ 0
        → all_logged a ≡ logged
    unfolding concat
    Reachable-in_order start none = refl
    Reachable-in_order (next {more = more} r s) none =
        let k = Step-Kept s (Reachable-IsValid r) in
        let same = Reachable-in_order r (omega (arith, k.more, none)) in
        k.in_order (omega (arith, k.more, none)) ∙ ap (λ l. l ++ more) same

    -- After every history of a started logger in which no batch had more than 25 buffers, the
    -- file, the batch of the thread, the buffers that wait and the one in use hold together, in
    -- this order, all lines shorter than a buffer in the order in which they were logged, and the
    -- next thing that the thread does returns: it never lacks a buffer to give away.
    pub advance-all_logged :
        {logged : List ℕ} {a : AsyncLogging}
        → Reachable notice size logged a
        → a.dropped ≡ 0
        → (all_logged a ≡ logged) × Ensures (IsValid size) (advance notice a)
    advance-all_logged {a = a} r none = (
      Reachable-in_order r none,
      Ensures-weaken (advance_at-Kept a a.phase (Reachable-IsValid r)) λ a' k. k.valid,
    )
