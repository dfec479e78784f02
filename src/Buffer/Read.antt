-- ===== src/Buffer/Read.antt =====
-- sznet/net/Buffer.cpp: reading from a socket into the buffer. What the system call does is a
-- parameter: a function from the room that it is given to what it returns.
pub mod Placed
use sznet.Base.{
  ℕ, ◌+◌, ◌%◌, ◌^◌, ◌≤◌, ◌<◌, ◌≡◌, refl, ap, ◌∙◌, List, [], ◌∷◌, ◌++◌, append_assoc, arith, ltb,
  leb, le→leb, gt→leb, lt→ltb, false, ◌==◌, if◌then◌else◌, length, take, drop, take-append-drop,
  length-take, length-drop,
}
use sznet.Run.{
  Run, ok, fault, ◌>>=◌, ◌>>◌, within, Ensures, returned, Ensures-bind, Ensures-if, Ensures-within,
  Ensures-weaken, Ensures-value,
}
use sznet.Buffer.{Buffer, readable_bytes, writable_bytes, contents, write_at, wrap_buffer, append}
use sznet.Buffer.Room.{
  IsValid, Same, readable-eq, writable-eq, length-contents, wrap_buffer-Same, Appended, filled,
  filled-Appended, append-Appended, write_at-ok,
}

-- The bytes that arrived (their number is the returned `n`), or the error code behind `n < 0`.
pub data Received : Type 0 where
  bytes : List ℕ → Received
  failed : ℕ → Received

abbrev pub extra_size : ℕ
extra_size = 65536

-- The fold back that every read begins with.
pub wrap_if_late : Buffer → Run Buffer
wrap_if_late b = if leb b.wrap_size b.writer_index then wrap_buffer b else ok b

-- The kernel stores what it received behind the bytes of the buffer.
pub received_into : Buffer → List ℕ → Run Buffer
received_into b xs = do
  c ← write_at b b.writer_index xs
  ok (record c { writer_index = c.writer_index + length xs })

abbrev pub vector_lengths : ℕ → List ℕ
vector_lengths writable =
    if ltb writable extra_size then writable ∷ extra_size ∷ [] else writable ∷ []

-- `extrabuf` takes what the buffer has no room for, and is appended.
pub store_scattered : (ℕ → ℕ → ℕ) → Buffer → List ℕ → Run Buffer
store_scattered grow b xs = if leb (length xs) (writable_bytes b) then received_into b xs else do
  let extra = drop (writable_bytes b) xs
  full ← received_into b (take (writable_bytes b) xs)
  within (leb (length extra) extra_size)
  append grow full extra

pub readv_fd : (ℕ → ℕ → ℕ) → (List ℕ → Received) → Buffer → Run (Received × Buffer)
readv_fd grow readv b = do
  c ← wrap_if_late b
  elim (readv (vector_lengths (writable_bytes c))) [
    | failed e ↦ ok (failed e, c)
    | bytes xs ↦ store_scattered grow c xs >>= λ d. ok (bytes xs, d)
  ]

-- The room as the `int` that the call is given; a negative one would be past all memory.
pub int_room : Buffer → Run ℕ
int_room c = do let room = writable_bytes c % 2 ^ 32; within (ltb room (2 ^ 31)); ok room

-- `readFd`; `recvFrom` is the same with another system call, and a datagram's sender beside it.
pub read_fd : (ℕ → Received) → Buffer → Run (Received × Buffer)
read_fd read b = do
  c ← wrap_if_late b
  room ← int_room c
  elim (read room) [
    | failed e ↦ ok (failed e, c)
    | bytes xs ↦ received_into c xs >>= λ d. ok (bytes xs, d)
  ]

pub recv_from {ℓ} :
    {Address : Type ℓ} → (ℕ → Received × Address) → Buffer → Run ((Received × Address) × Buffer)
recv_from recv b = do
  c ← wrap_if_late b
  room ← int_room c
  let (result, from) = recv room
  elim result [
    | failed e ↦ ok ((failed e, from), c)
    | bytes xs ↦ received_into c xs >>= λ d. ok ((bytes xs, from), d)
  ]

abbrev pub sum : List ℕ → ℕ
sum [] = 0
sum (x ∷ xs) = x + sum xs

-- What a system call promises: it returns no more bytes than it was given room for.
abbrev pub Bounded : ℕ → Received → Type 0
Bounded room (bytes xs) = length xs ≤ room
Bounded room (failed e) = Unit

-- After a read the buffer holds what arrived behind what it held; after an error, what it held.
abbrev pub ReadInto : Buffer → Received → Buffer → Type 0
ReadInto b (bytes xs) c = Appended b xs c
ReadInto b (failed e) c = Same b c

-- The read of `readv` into a buffer that is folded back first, if it is late: what is reported is the
-- answer of `readv` to the room that is there then, and the buffer holds what it says.
pub record ReadBy (readv : List ℕ → Received) (b : Buffer) (r : Received) (d : Buffer)
    : Type 0 where
  pub start : Buffer
  pub folded : wrap_if_late b ≡ ok start
  pub answer : r ≡ readv (vector_lengths (writable_bytes start))
  pub into : ReadInto b r d

pub wrap_if_late-Same :
    (b : Buffer)
    → IsValid b
    → b.cheap_prepend + readable_bytes b ≤ length b.buffer
    → Ensures (λ c. Same b c × (length c.buffer ≡ length b.buffer)) (wrap_if_late b)
unfolding wrap_if_late
wrap_if_late-Same b v h =
    Ensures-if (leb b.wrap_size b.writer_index)
      (λ late. Ensures-weaken (wrap_buffer-Same b v h) λ c (same, front, size). (same, size))
      λ early. returned (record { valid = v; bytes = refl; reserve = refl }, refl)

pub received_into-ok :
    (b : Buffer) (xs : List ℕ)
    → IsValid b
    → length xs ≤ writable_bytes b
    → received_into b xs ≡ ok (filled b xs)
unfolding received_into
received_into-ok b xs v h = rw (write_at-ok b b.writer_index xs (omega (arith, writable-eq v)))

module _ (grow : ℕ → ℕ → ℕ) (enough : (c n : ℕ) → n ≤ grow c n) where
  store_scattered-Appended :
      (b : Buffer) (xs : List ℕ)
      → IsValid b
      → length xs ≤ sum (vector_lengths (writable_bytes b))
      → Ensures (Appended b xs) (store_scattered grow b xs)
  unfolding store_scattered
  store_scattered-Appended b xs v h =
      Ensures-if (leb (length xs) (writable_bytes b))
        (λ fits.
          let small : length xs ≤ writable_bytes b = ground arith in
          rw (received_into-ok b xs v small) (returned (filled-Appended b xs v small)))
        λ more.
          let front_size : length front ≤ writable_bytes b =
            omega (arith, length-take (writable_bytes b) xs) in
          let start = filled-Appended b front v front_size in
          let big : writable_bytes b < length xs = ground arith in
          let extra : length back ≤ extra_size =
            ground (arith, length-drop (writable_bytes b) xs) in
          rw (received_into-ok b front v front_size) (
            Ensures-within _ (le→leb _ _ extra) (
              Ensures-weaken (append-Appended grow enough (filled b front) back start.valid)
                λ c done. record {
                  valid = done.valid;
                  bytes =
                      done.bytes
                      ∙ ap (λ l. l ++ back) start.bytes
                      ∙ append_assoc (contents b) front back
                      ∙ ap (◌++◌ (contents b)) (take-append-drop (writable_bytes b) xs);
                  reserve = done.reserve ∙ start.reserve;
                }))
    where
      front : List ℕ
      front = take (writable_bytes b) xs

      back : List ℕ
      back = drop (writable_bytes b) xs

Appended-Same : {b c d : Buffer} {xs : List ℕ} → Same b c → Appended c xs d → Appended b xs d
Appended-Same {xs = xs} same done = record {
  valid = done.valid;
  bytes = done.bytes ∙ ap (λ l. l ++ xs) same.bytes;
  reserve = done.reserve ∙ same.reserve;
}

module _ (b : Buffer) (v : IsValid b)
    (fits : b.cheap_prepend + readable_bytes b ≤ length b.buffer) where
  -- On a well-formed buffer whose reserve and readable bytes fit its vector, readvFd returns for
  -- every readv that keeps to the room given. It reports what readv answers for the room that is
  -- there after the buffer is folded back, if it is late, and for the spare block; the bytes of
  -- this answer, those in the spare block among them, are appended to the readable ones, and
  -- after an error the readable bytes are the same.
  pub readv_fd-ReadInto :
      (grow : ℕ → ℕ → ℕ)
      → ((c n : ℕ) → n ≤ grow c n)
      → (readv : List ℕ → Received)
      → ((room : ℕ) → Bounded (sum (vector_lengths room)) (readv (vector_lengths room)))
      → Ensures (λ (r, d). ReadBy readv b r d) (readv_fd grow readv b)
  unfolding readv_fd
  readv_fd-ReadInto grow enough readv bounded =
      let (c, e, (same, _)) = Ensures-value (wrap_if_late-Same b v fits) in
      rw e (
        Ensures-weaken
          (after c same (readv (vector_lengths (writable_bytes c))) (bounded (writable_bytes c)))
          λ (r, d) (answer, into). record { start = c; folded = e; answer = answer; into = into })
    where
      after :
          (c : Buffer)
          → Same b c
          → (r : Received) → Bounded (sum (vector_lengths (writable_bytes c))) r
          → Ensures
              (λ (r', d). (r' ≡ r) × ReadInto b r' d)
              (elim r [
                | failed e ↦ ok (failed e, c)
                | bytes xs ↦ store_scattered grow c xs >>= λ d. ok (bytes xs, d)
              ])
      after c same (bytes xs) h =
          Ensures-bind (store_scattered-Appended grow enough c xs same.valid h)
            λ d done. returned (refl, Appended-Same same done)
      after c same (failed e) h = returned (refl, same)

  module _ (small : length b.buffer < 2 ^ 31) where
    int_room-ok :
        (c : Buffer)
        → Same b c
        → length c.buffer ≡ length b.buffer
        → int_room c ≡ ok (writable_bytes c)
    unfolding int_room
    int_room-ok c same size =
        let room : writable_bytes c % 2 ^ 32 ≡ writable_bytes c =
          omega (arith, small, size, writable-eq same.valid) in
        rw (
          room,
          lt→ltb (writable_bytes c) (2 ^ 31) (omega (arith, small, size, writable-eq same.valid)),
        )

    -- `readFd` likewise, into the room at the end alone.
    pub read_fd-ReadInto :
        (read : ℕ → Received)
        → ((room : ℕ) → Bounded room (read room))
        → Ensures (λ (r, d). ReadInto b r d) (read_fd read b)
    unfolding read_fd
    read_fd-ReadInto read bounded = Ensures-bind (wrap_if_late-Same b v fits) λ c (same, size).
        rw (int_room-ok c same size)
          (after c same (read (writable_bytes c)) (bounded (writable_bytes c)))
      where
        after :
            (c : Buffer)
            → Same b c
            → (r : Received) → Bounded (writable_bytes c) r
            → Ensures
                (λ (r, d). ReadInto b r d)
                (elim r [
                  | failed e ↦ ok (failed e, c)
                  | bytes xs ↦ received_into c xs >>= λ d. ok (bytes xs, d)
                ])
        after c same (bytes xs) h =
            rw (received_into-ok c xs same.valid h)
              (returned (Appended-Same same (filled-Appended c xs same.valid h)))
        after c same (failed e) h = returned same

-- On a well-formed buffer that is filled to its wrap mark, and whose reserve and readable bytes
-- together are longer than its vector, readvFd writes past the end of the vector.
pub readv_fd-fault :
    (grow : ℕ → ℕ → ℕ) (readv : List ℕ → Received) (b : Buffer)
    → IsValid b
    → b.wrap_size ≤ b.writer_index
    → length b.buffer < b.cheap_prepend + readable_bytes b
    → readv_fd grow readv b ≡ fault
unfolding readv_fd wrap_if_late wrap_buffer write_at contents
readv_fd-fault grow readv b v late h =
    let moved : (b.reader_index == b.cheap_prepend) ≡ false =
      ground (arith, readable-eq v, v.inside, v.ordered) in
    let size = length-contents v in
    rw (
      le→leb _ _ late,
      moved,
      gt→leb (b.cheap_prepend + length (contents b)) (length b.buffer) (omega (arith, size)),
    )
