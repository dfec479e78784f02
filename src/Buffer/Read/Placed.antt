-- ===== src/Buffer/Read/Placed.antt =====
-- Where the readable bytes stand after a `readvFd` of sznet/net/Buffer.cpp.
use sznet.Base.{
  ℕ, ◌+◌, ◌≤◌, ◌≡◌, refl, subst, List, length, take, drop, leb, le→leb, arith, length-take,
  length-drop,
}
use sznet.Run.{
  ok, ◌>>=◌, Ensures, returned, Ensures-bind, Ensures-if, Ensures-within, Ensures-weaken,
  Ensures-both,
}
use sznet.Buffer.{Buffer, readable_bytes, writable_bytes}
use sznet.Buffer.Room.{
  IsValid, readable-eq, wrap_buffer-Same, filled, filled-Appended, append-place,
}
use sznet.Buffer.Read.{
  Received, bytes, failed, Bounded, ReadInto, sum, vector_lengths, extra_size, wrap_if_late,
  wrap_if_late-Same, received_into-ok, store_scattered, readv_fd, readv_fd-ReadInto,
}

-- No byte to read stands in the reserve.
abbrev pub IsPlaced : Buffer → Type 0
IsPlaced b = b.cheap_prepend ≤ b.reader_index

pub fits_of :
    (b : Buffer) → IsValid b → IsPlaced b → b.cheap_prepend + readable_bytes b ≤ length b.buffer
fits_of b v place = omega (arith, readable-eq v, v.inside, v.ordered)

wrap_if_late-IsPlaced : (b : Buffer) → IsValid b → IsPlaced b → Ensures IsPlaced (wrap_if_late b)
unfolding wrap_if_late
wrap_if_late-IsPlaced b v place =
    Ensures-if (leb b.wrap_size b.writer_index)
      (λ late.
        Ensures-weaken (wrap_buffer-Same b v (fits_of b v place))
          λ c (same, front, size). omega (arith, front, same.reserve))
      λ early. returned place

module _ (grow : ℕ → ℕ → ℕ) (enough : (c n : ℕ) → n ≤ grow c n) where
  store_scattered-IsPlaced :
      (b : Buffer) (xs : List ℕ)
      → IsValid b
      → IsPlaced b
      → length xs ≤ sum (vector_lengths (writable_bytes b))
      → Ensures IsPlaced (store_scattered grow b xs)
  unfolding store_scattered
  store_scattered-IsPlaced b xs v place h =
      Ensures-if (leb (length xs) (writable_bytes b))
        (λ fits. rw (received_into-ok b xs v (ground arith)) (returned place))
        λ more.
          let front = take (writable_bytes b) xs in
          let front_size : length front ≤ writable_bytes b =
            omega (arith, length-take (writable_bytes b) xs) in
          let start = filled-Appended b front v front_size in
          rw (received_into-ok b front v front_size) (
            Ensures-within _ (le→leb _ _ (ground (arith, length-drop (writable_bytes b) xs))) (
              Ensures-weaken
                (append-place grow enough (filled b front) (drop (writable_bytes b) xs) start.valid)
                λ c (done, at). ground (arith, done.reserve)))

  -- A `readvFd` keeps the bytes that it adds out of the reserve too, and hands on the answer of the
  -- system call.
  pub readv_fd-IsPlaced :
      (b : Buffer) (readv : List ℕ → Received)
      → IsValid b
      → IsPlaced b
      → ((room : ℕ) → Bounded (sum (vector_lengths room)) (readv (vector_lengths room)))
      → Ensures
          (λ (r, d). ReadInto b r d × (IsPlaced d × ((lens : List ℕ) × (r ≡ readv lens))))
          (readv_fd grow readv b)
  unfolding readv_fd
  readv_fd-IsPlaced b readv v place bounded =
      Ensures-both
        (Ensures-weaken (readv_fd-ReadInto b v (fits_of b v place) grow enough readv bounded)
          λ (r, d) read. read.into)
        (Ensures-bind
          (Ensures-both (wrap_if_late-Same b v (fits_of b v place))
            (wrap_if_late-IsPlaced b v place))
          λ c ((same, size), here).
            Ensures-weaken (after c same.valid here (readv (lens c)) (bounded (writable_bytes c)))
              λ (r, d) (at, e). (at, (lens c, e)))
    where
      lens : Buffer → List ℕ
      lens c = vector_lengths (writable_bytes c)

      after :
          (c : Buffer)
          → IsValid c
          → IsPlaced c
          → (r : Received) → Bounded (sum (vector_lengths (writable_bytes c))) r
          → Ensures
              (λ (s, d). IsPlaced d × (s ≡ r))
              (elim r [
                | failed e ↦ ok (failed e, c)
                | bytes xs ↦ store_scattered grow c xs >>= λ d. ok (bytes xs, d)
              ])
      after c w here (bytes xs) h =
          Ensures-bind (store_scattered-IsPlaced c xs w here h) λ d at. returned (at, refl)
      after c w here (failed e) h = returned (here, refl)

  -- Every `readvFd` gives at least the room of the spare block.
  pub readv_fd-constant :
      (b : Buffer) (r : Received)
      → IsValid b
      → IsPlaced b
      → Bounded extra_size r
      → Ensures (λ (s, d). (s ≡ r) × (ReadInto b r d × IsPlaced d)) (readv_fd grow (λ lens. r) b)
  readv_fd-constant b r v place bounded =
      Ensures-weaken (readv_fd-IsPlaced b (λ lens. r) v place λ room. more room r bounded)
        λ (s, d) (into, (at, (lens, e))). (e, (subst (λ q. ReadInto b q d) e into, at))
    where
      more :
          (room : ℕ) (q : Received) → Bounded extra_size q → Bounded (sum (vector_lengths room)) q
      more room (bytes xs) fits = ground arith
      more room (failed e) fits = tt
