-- ===== src/Codec/Stream.antt =====
-- The format on the stream, without buffers: what a sequence of bytes decodes to.
use sznet.Base.{
  subst, ℕ, ◌+◌, ◌^◌, ◌≤◌, ◌<◌, ◌≡◌, refl, sym, ap, ◌∙◌, Bool, true, false, List, [], ◌∷◌, ◌++◌,
  append_assoc, arith, length, take, drop, length-append, length-drop, take-append_left, take_all,
  drop-append_left, drop_all,
}
use sznet.Buffer.Words.{Host, IsDocumented}

module _ (h : Host) where
  -- The length that the first four bytes give.
  abbrev pub header : List ℕ → ℕ
  header bs = h.value (take 4 bs)

  -- `bs` decodes to the messages `ms` and leaves `rest`; `closed` if `rest` begins with a negative
  -- length.
  pub data Decodes : List ℕ → List (List ℕ) → Bool → List ℕ → Type 0 where
    short : {bs : List ℕ} → length bs < 4 → Decodes bs [] false bs
    partial :
        {bs : List ℕ}
        → 4 ≤ length bs
        → header bs < 2 ^ 31
        → length bs < header bs + 4
        → Decodes bs [] false bs
    negative : {bs : List ℕ} → 4 ≤ length bs → 2 ^ 31 ≤ header bs → Decodes bs [] true bs
    message :
        {bs : List ℕ} {ms : List (List ℕ)} {closed : Bool} {rest : List ℕ}
        → header bs < 2 ^ 31
        → header bs + 4 ≤ length bs
        → Decodes (drop (header bs) (drop 4 bs)) ms closed rest
        → Decodes bs (take (header bs) (drop 4 bs) ∷ ms) closed rest

  header-append : (xs ys : List ℕ) → 4 ≤ length xs → header (xs ++ ys) ≡ header xs
  header-append xs ys l = ap h.value (take-append_left 4 xs ys l)

  -- The `message` rule, with the two parts of the stream named.
  pub Decodes-parts :
      {bs m tail : List ℕ} {ms : List (List ℕ)} {closed : Bool} {rest : List ℕ}
      → header bs < 2 ^ 31
      → header bs + 4 ≤ length bs
      → take (header bs) (drop 4 bs) ≡ m
      → drop (header bs) (drop 4 bs) ≡ tail
      → Decodes tail ms closed rest
      → Decodes bs (m ∷ ms) closed rest
  Decodes-parts {bs} {m} {tail} {ms} {closed} {rest} small l front back later =
      subst (λ k. Decodes bs (k ∷ ms) closed rest) front
        (message small l (subst (λ t. Decodes t ms closed rest) (sym back) later))

  -- Bytes that arrive later go on where the earlier ones left off: the split of the stream into
  -- reads does not show in the messages.
  pub Decodes-append :
      {xs : List ℕ} {ms : List (List ℕ)} {closed : Bool} {rest : List ℕ} (ys : List ℕ)
      {ns : List (List ℕ)} {closed' : Bool} {rest' : List ℕ}
      → Decodes xs ms closed rest
      → closed ≡ false
      → Decodes (rest ++ ys) ns closed' rest'
      → Decodes (xs ++ ys) (ms ++ ns) closed' rest'
  Decodes-append ys (short l) e later = later
  Decodes-append ys (partial l n p) e later = later
  Decodes-append ys (negative l n) e later = cc
  Decodes-append {xs} {ms = m ∷ ms} ys (message n l first) e later =
      let same : header (xs ++ ys) ≡ header xs = header-append xs ys (omega arith) in
      let body : drop 4 (xs ++ ys) ≡ drop 4 xs ++ ys = drop-append_left 4 xs ys (omega arith) in
      let size : header xs ≤ length (drop 4 xs) = omega (arith, length-drop 4 xs) in
      Decodes-parts (rw same n) (rw same (omega (arith, length-append xs ys)))
        (rw (same, body) (take-append_left (header xs) (drop 4 xs) ys size))
        (rw (same, body) (drop-append_left (header xs) (drop 4 xs) ys size))
        (Decodes-append ys first e later)

  -- Bytes decode in one way only.
  pub Decodes-unique :
      {bs : List ℕ} {ms ns : List (List ℕ)} {c c' : Bool} {rest rest' : List ℕ}
      → Decodes bs ms c rest
      → Decodes bs ns c' rest'
      → (ms ≡ ns) × (c ≡ c') × (rest ≡ rest')
  Decodes-unique (short l) (short _) = (refl, refl, refl)
  Decodes-unique (short l) (partial k _ _) = absurd (omega arith)
  Decodes-unique (short l) (negative k _) = absurd (omega arith)
  Decodes-unique (short l) (message _ k _) = absurd (omega arith)
  Decodes-unique (partial l n p) (short k) = absurd (omega arith)
  Decodes-unique (partial l n p) (partial _ _ _) = (refl, refl, refl)
  Decodes-unique (partial l n p) (negative _ k) = absurd (omega arith)
  Decodes-unique (partial l n p) (message _ k _) = absurd (omega arith)
  Decodes-unique (negative l n) (short k) = absurd (omega arith)
  Decodes-unique (negative l n) (partial _ k _) = absurd (omega arith)
  Decodes-unique (negative l n) (negative _ _) = (refl, refl, refl)
  Decodes-unique (negative l n) (message k _ _) = absurd (omega arith)
  Decodes-unique (message n l d) (short k) = absurd (omega arith)
  Decodes-unique (message n l d) (partial _ _ k) = absurd (omega arith)
  Decodes-unique (message n l d) (negative _ k) = absurd (omega arith)
  Decodes-unique {bs} (message n l d) (message _ _ e) =
      let (ms, c, rest) = Decodes-unique d e in
      (ap (◌∷◌ (take (header bs) (drop 4 bs))) ms, c, rest)

  -- A message as `send` frames it.
  abbrev pub frame : List ℕ → List ℕ
  frame m = h.image 4 (length m) ++ m

  abbrev pub frames : List (List ℕ) → List ℕ
  frames [] = []
  frames (m ∷ ms) = frame m ++ frames ms

  -- Each message is shorter than 2 GiB, so that its length is a positive `int32_t`.
  abbrev pub IsSendable : List (List ℕ) → Type 0
  IsSendable [] = Unit
  IsSendable (m ∷ ms) = (length m < 2 ^ 31) × IsSendable ms

  module _ (d : IsDocumented h) where
    -- What was framed decodes to the messages, in order, and to what follows them.
    pub Decodes-frames :
        (ms : List (List ℕ)) {tail : List ℕ} {ns : List (List ℕ)} {closed : Bool} {rest : List ℕ}
        → IsSendable ms
        → Decodes tail ns closed rest
        → Decodes (frames ms ++ tail) (ms ++ ns) closed rest
    Decodes-frames [] small later = later
    Decodes-frames (m ∷ ms) {tail} small later =
        let regroup : (frame m ++ frames ms) ++ tail
            ≡ h.image 4 (length m) ++ (m ++ (frames ms ++ tail)) =
          append_assoc (frame m) (frames ms) tail
          ∙ append_assoc (h.image 4 (length m)) m (frames ms ++ tail) in
        let size = d.length-image 4 (length m) in
        let first : header (h.image 4 (length m) ++ (m ++ (frames ms ++ tail))) ≡ length m =
          ap h.value (
            take-append_left 4 (h.image 4 (length m)) (m ++ (frames ms ++ tail))
              (omega (arith, size))
            ∙ take_all 4 (h.image 4 (length m)) (omega (arith, size)))
          ∙ d.value-image 4 (length m) (omega (arith, small.0)) in
        let body : drop 4 (h.image 4 (length m) ++ (m ++ (frames ms ++ tail)))
            ≡ m ++ (frames ms ++ tail) =
          drop-append_left 4 (h.image 4 (length m)) (m ++ (frames ms ++ tail)) (omega (arith, size))
          ∙ ap (λ l. l ++ (m ++ (frames ms ++ tail)))
              (drop_all 4 (h.image 4 (length m)) (omega (arith, size))) in
        rw regroup (
          Decodes-parts (rw first small.0)
            (rw first (
              omega (
                arith,
                size,
                length-append (h.image 4 (length m)) (m ++ (frames ms ++ tail)),
                length-append m (frames ms ++ tail),
              )))
            (rw (first, body)
              (take-append_left (length m) m (frames ms ++ tail) (omega arith)
                ∙ take_all (length m) m (omega arith)))
            (rw (first, body)
              (drop-append_left (length m) m (frames ms ++ tail) (omega arith)
                ∙ ap (λ l. l ++ (frames ms ++ tail)) (drop_all (length m) m (omega arith))))
            (Decodes-frames ms small.1 later))
