-- ===== src/Buffer/Room.antt =====
-- Making room: the well-formed buffers, `wrapBuffer`, `makeSpace` and `append`.
use sznet.Base.{
  ◌⊎◌, ℕ, ◌+◌, ◌-◌, ◌≤◌, ◌<◌, ◌≡◌, refl, sym, ap, ◌∙◌, List, ◌++◌, arith, false, ltb, ◌==◌, le→leb,
  lt→ltb, ge→ltb, eq_self, Bool-cases, inl, inr, sub_size, sub_size-eq, length, take, drop,
}
use sznet.Run.{
  ok, ◌>>=◌, Ensures, returned, Ensures-bind, Ensures-if, Ensures-assert, Ensures-weaken,
}
use sznet.Buffer.Bytes.{
  overwrite, resize, length-overwrite, length-resize, length-slice, slice-overwrite_after,
  slice-overwrite_self, slice-resize,
}
use sznet.Buffer.{
  Buffer, readable_bytes, writable_bytes, prependable_bytes, contents, write_at, has_written,
  wrap_buffer, three_quarters, make_space, ensure_writable_bytes, append,
}

-- The indices are ordered and stay inside the vector.
pub record IsValid (b : Buffer) : Type 0 where
  pub ordered : b.reader_index ≤ b.writer_index
  pub inside : b.writer_index ≤ length b.buffer
  pub reserved : length b.buffer ≤ b.capacity
  pub marked : b.wrap_size ≡ three_quarters b.capacity
  pub front : b.cheap_prepend ≤ length b.buffer

module _ {b : Buffer} (v : IsValid b) where
  pub readable-eq : readable_bytes b ≡ b.writer_index - b.reader_index
  unfolding readable_bytes
  readable-eq = sub_size-eq b.writer_index b.reader_index v.ordered

  pub writable-eq : writable_bytes b ≡ length b.buffer - b.writer_index
  unfolding writable_bytes
  writable-eq = sub_size-eq (length b.buffer) b.writer_index v.inside

  pub contents-eq :
      contents b ≡ take (b.writer_index - b.reader_index) (drop b.reader_index b.buffer)
  unfolding contents
  contents-eq = ap (λ n. take n (drop b.reader_index b.buffer)) readable-eq

  pub length-contents : length (contents b) ≡ readable_bytes b
  length-contents =
      ap length contents-eq
      ∙ length-slice b.buffer b.reader_index (b.writer_index - b.reader_index) (omega arith)
      ∙ sym readable-eq

-- `c` is `b` with the same bytes to read and the same reserve in front.
pub record Same (b c : Buffer) : Type 0 where
  pub valid : IsValid c
  pub bytes : contents c ≡ contents b
  pub reserve : c.cheap_prepend ≡ b.cheap_prepend

pub write_at-ok :
    (b : Buffer) (at : ℕ) (ys : List ℕ)
    → at + length ys ≤ length b.buffer
    → write_at b at ys ≡ ok (record b { buffer = overwrite b.buffer at ys })
unfolding write_at
write_at-ok b at ys h = rw (le→leb _ _ h)

-- The buffer with its readable bytes moved to the front.
abbrev wrapped : Buffer → Buffer
wrapped b = record b {
  buffer = overwrite b.buffer b.cheap_prepend (contents b);
  reader_index = b.cheap_prepend;
  writer_index = b.cheap_prepend + readable_bytes b;
}

module _ {b : Buffer} (v : IsValid b)
    (fits : b.cheap_prepend + readable_bytes b ≤ length b.buffer) where
  wrapped-IsValid : IsValid (wrapped b)
  wrapped-IsValid =
      let size =
        length-overwrite b.buffer b.cheap_prepend (contents b) (omega (arith, length-contents v)) in
      record {
        ordered = omega arith;
        inside = omega (arith, size);
        reserved = omega (arith, size, v.reserved);
        marked = v.marked;
        front = omega (arith, size);
      }

  readable-wrapped : readable_bytes (wrapped b) ≡ readable_bytes b
  readable-wrapped = readable-eq wrapped-IsValid ∙ (omega arith)

  wrapped-Same : Same b (wrapped b)
  wrapped-Same = record {
    valid = wrapped-IsValid;
    bytes =
        contents-eq wrapped-IsValid
        ∙ ap (λ n. take n (drop b.cheap_prepend (wrapped b).buffer)) all
        ∙ slice-overwrite_self b.buffer b.cheap_prepend (contents b) (omega arith);
    reserve = refl;
  }
    where
      all : b.cheap_prepend + readable_bytes b - b.cheap_prepend ≡ length (contents b)
      all = omega (arith, length-contents v)

  wrap_buffer-ok : (b.reader_index == b.cheap_prepend) ≡ false → wrap_buffer b ≡ ok (wrapped b)
  unfolding wrap_buffer contents
  wrap_buffer-ok e = rw (
    e,
    write_at-ok b b.cheap_prepend (contents b) (omega (arith, length-contents v)),
    readable-wrapped,
    eq_self (readable_bytes b),
  )

-- Where the front reserve and the readable bytes fit, they are moved there, unchanged.
pub wrap_buffer-Same :
    (b : Buffer)
    → IsValid b
    → b.cheap_prepend + readable_bytes b ≤ length b.buffer
    → Ensures
        (λ c. Same b c × (c.reader_index ≡ b.cheap_prepend) × (length c.buffer ≡ length b.buffer))
        (wrap_buffer b)
unfolding wrap_buffer
wrap_buffer-Same b v h = elim (Bool-cases (b.reader_index == b.cheap_prepend)) [
  | inl e ↦
      rw e (returned (record { valid = v; bytes = refl; reserve = refl }, (ground arith), refl))
  | inr e ↦
      let size =
        length-overwrite b.buffer b.cheap_prepend (contents b) (omega (arith, length-contents v)) in
      rw (wrap_buffer-ok v h e) (returned (wrapped-Same v h, refl, size))
]

-- What `append` leaves: the bytes of `b`, then those of `ys`.
pub record Appended (b : Buffer) (ys : List ℕ) (c : Buffer) : Type 0 where
  pub valid : IsValid c
  pub bytes : contents c ≡ contents b ++ ys
  pub reserve : c.cheap_prepend ≡ b.cheap_prepend

-- The buffer once `ys` is copied behind its bytes and counted.
abbrev pub filled : Buffer → List ℕ → Buffer
filled b ys = record b {
  buffer = overwrite b.buffer b.writer_index ys;
  writer_index = b.writer_index + length ys;
}

module _ (b : Buffer) (ys : List ℕ) (v : IsValid b) (room : length ys ≤ writable_bytes b) where
  pub filled_size : length (filled b ys).buffer ≡ length b.buffer
  filled_size = length-overwrite b.buffer b.writer_index ys (omega (arith, writable-eq v))

  filled-IsValid : IsValid (filled b ys)
  filled-IsValid = record {
    ordered = omega (arith, v.ordered);
    inside = omega (arith, filled_size, writable-eq v);
    reserved = omega (arith, filled_size, v.reserved);
    marked = v.marked;
    front = omega (arith, filled_size, v.front);
  }

  pub filled-Appended : Appended b ys (filled b ys)
  filled-Appended = record {
    valid = filled-IsValid;
    bytes =
        contents-eq filled-IsValid
        ∙ ap (λ n. take n (drop b.reader_index (filled b ys).buffer)) more
        ∙ slice-overwrite_after b.buffer b.reader_index b.writer_index ys v.ordered v.inside
        ∙ ap (λ l. l ++ ys) (sym (contents-eq v));
    reserve = refl;
  }
    where
      more :
          b.writer_index + length ys - b.reader_index ≡ b.writer_index - b.reader_index + length ys
      more = omega (arith, v.ordered)

  -- `memcpy` behind the bytes, then `hasWritten`
  pub filled-ok :
      (write_at b b.writer_index ys >>= λ c. has_written c (length ys)) ≡ ok (filled b ys)
  unfolding has_written writable_bytes
  filled-ok = rw (
    write_at-ok b b.writer_index ys (omega (arith, writable-eq v)),
    filled_size,
    le→leb (length ys) (sub_size (length b.buffer) b.writer_index) room,
  )

  pub writable-filled : writable_bytes (filled b ys) ≡ writable_bytes b - length ys
  writable-filled = omega (arith, writable-eq v, writable-eq filled-IsValid, filled_size)

-- What `makeSpace` leaves: the bytes of `b`, in a vector no smaller, with room for `len` more, and
-- the first of them where it was or at the end of the reserve.
pub record Roomy (b : Buffer) (len : ℕ) (c : Buffer) : Type 0 where
  pub same : Same b c
  pub room : len ≤ writable_bytes c
  pub place : (c.reader_index ≡ b.reader_index) ⊎ (c.reader_index ≡ b.cheap_prepend)
  pub larger : length b.buffer ≤ length c.buffer

module _ (grow : ℕ → ℕ → ℕ) (enough : (c n : ℕ) → n ≤ grow c n) where
  abbrev grown : Buffer → ℕ → Buffer
  grown b len = record b {
    buffer = resize b.buffer (b.writer_index + len);
    capacity = grow b.capacity (b.writer_index + len);
    wrap_size = three_quarters (grow b.capacity (b.writer_index + len));
  }

  grown-Roomy :
      (b : Buffer) (len : ℕ) → IsValid b → writable_bytes b < len → Roomy b len (grown b len)
  grown-Roomy b len v h =
      let size = length-resize b.buffer (b.writer_index + len) in
      let valid : IsValid (grown b len) = record {
        ordered = v.ordered;
        inside = omega (arith, size);
        reserved = omega (arith, size, enough b.capacity (b.writer_index + len));
        marked = refl;
        front = omega (arith, size, h, writable-eq v, v.front);
      } in
      record {
        same = record {
          valid = valid;
          bytes =
              contents-eq valid
              ∙ slice-resize b.buffer b.reader_index (b.writer_index - b.reader_index)
                  (b.writer_index + len) (omega (arith, v.ordered, v.inside))
                  (omega (arith, h, writable-eq v))
              ∙ sym (contents-eq v);
          reserve = refl;
        };
        room = omega (arith, size, writable-eq valid);
        place = inl refl;
        larger = omega (arith, size, h, writable-eq v);
      }

  make_space-Roomy :
      (b : Buffer) (len : ℕ)
      → IsValid b
      → writable_bytes b < len
      → Ensures (Roomy b len) (make_space grow b len)
  unfolding make_space
  make_space-Roomy b len v h =
      Ensures-if (ltb (writable_bytes b + prependable_bytes b) (len + b.cheap_prepend))
        (λ short. returned (grown-Roomy b len v h))
        λ room.
          let far : len + b.cheap_prepend ≤ writable_bytes b + b.reader_index = ground arith in
          Ensures-assert _ (lt→ltb b.cheap_prepend b.reader_index (omega arith)) (
            Ensures-weaken (wrap_buffer-Same b v (omega (arith, readable-eq v, writable-eq v)))
              λ c (same, front, size). record {
                same = same;
                room = omega (
                  arith,
                  readable-eq v,
                  writable-eq v,
                  writable-eq same.valid,
                  length-contents same.valid,
                  length-contents v,
                  readable-eq same.valid,
                  ap length same.bytes,
                );
                place = inr front;
                larger = omega (arith, size);
              })

  pub ensure_writable_bytes-Roomy :
      (b : Buffer) (len : ℕ) → IsValid b → Ensures (Roomy b len) (ensure_writable_bytes grow b len)
  unfolding ensure_writable_bytes
  ensure_writable_bytes-Roomy b len v =
      Ensures-bind {P = Roomy b len}
        (Ensures-if (ltb (writable_bytes b) len) (λ short. make_space-Roomy b len v (ground arith))
          λ room. returned (record {
            same = record { valid = v; bytes = refl; reserve = refl };
            room = ground arith;
            place = inl refl;
            larger = omega arith;
          }))
        λ c fit. Ensures-assert _ (le→leb _ _ fit.room) (returned fit)

  -- The first byte stays where it was, or stands at the end of the reserve.
  pub append-place :
      (b : Buffer) (ys : List ℕ)
      → IsValid b
      → Ensures
          (λ c.
            Appended b ys c
            × ((c.reader_index ≡ b.reader_index) ⊎ (c.reader_index ≡ b.cheap_prepend)))
          (append grow b ys)
  unfolding append
  append-place b ys v = Ensures-bind (ensure_writable_bytes-Roomy b (length ys) v) λ c fit.
      let done = filled-Appended c ys fit.same.valid fit.room in
      rw (filled-ok c ys fit.same.valid fit.room) (
        returned (
          record {
            valid = done.valid;
            bytes = done.bytes ∙ ap (λ l. l ++ ys) fit.same.bytes;
            reserve = done.reserve ∙ fit.same.reserve;
          },
          fit.place,
        ))

  -- On a well-formed buffer append(data) returns, whatever room there is: the result is well
  -- formed, its readable bytes are the old ones and then data, and the reserve is kept.
  pub append-Appended :
      (b : Buffer) (ys : List ℕ) → IsValid b → Ensures (Appended b ys) (append grow b ys)
  append-Appended b ys v = Ensures-weaken (append-place b ys v) λ c (done, place). done

  -- With room at the end, `append` copies and does nothing else.
  pub append-ok :
      (b : Buffer) (ys : List ℕ)
      → IsValid b
      → length ys ≤ writable_bytes b
      → append grow b ys ≡ ok (filled b ys)
  unfolding append ensure_writable_bytes
  append-ok b ys v room = rw (ge→ltb _ _ room, le→leb _ _ room) (filled-ok b ys v room)
