-- ===== src/Buffer/Shrink.antt =====
-- The constructor and `shrink`.
use sznet.Base.{
  ℕ, ◌+◌, ◌^◌, ◌%◌, ◌≤◌, ◌<◌, ◌≡◌, refl, sym, ap, ◌∙◌, [], ◌++◌, arith, eq_self, lt→ltb, length,
  replicate, length-replicate, take_all, inl, inr,
}
use sznet.Run.{ok, Ensures, returned, Ensures-bind}
use sznet.Buffer.{
  Buffer, readable_bytes, writable_bytes, prependable_bytes, contents, to_string_piece, new,
  three_quarters, shrink, swap,
}
use sznet.Buffer.Room.{
  IsValid, Roomy, readable-eq, writable-eq, contents-eq, length-contents,
  ensure_writable_bytes-Roomy, append-ok, filled, filled-Appended, filled_size, writable-filled,
}
use sznet.Buffer.Ends.{Holds, bytes_at-take}

-- Below 2 GiB the `int` of a `StringPiece` holds the length.
to_string_piece-ok :
    (b : Buffer) → IsValid b → readable_bytes b < 2 ^ 31 → to_string_piece b ≡ ok (contents b)
unfolding to_string_piece
to_string_piece-ok b v h =
    let size : readable_bytes b % 2 ^ 32 ≡ readable_bytes b = omega arith in
    rw (
      size,
      lt→ltb _ _ h,
      bytes_at-take v (readable_bytes b) (omega arith),
      take_all (readable_bytes b) (contents b) (omega (arith, length-contents v)),
    )

module _ (grow : ℕ → ℕ → ℕ) (enough : (c n : ℕ) → n ≤ grow c n) where
  abbrev blank : ℕ → ℕ → Buffer
  blank cheap initial = record {
    cheap_prepend = cheap;
    buffer = replicate (cheap + initial) 0;
    capacity = grow 0 (cheap + initial);
    reader_index = cheap;
    writer_index = cheap;
    wrap_size = three_quarters (grow 0 (cheap + initial));
  }

  blank-IsValid : (cheap initial : ℕ) → IsValid (blank cheap initial)
  blank-IsValid cheap initial =
      let size = length-replicate {A = ℕ} (cheap + initial) 0 in
      record {
        ordered = omega arith;
        inside = omega (arith, size);
        reserved = omega (arith, size, enough 0 (cheap + initial));
        marked = refl;
        front = omega (arith, size);
      }

  blank-empty : (cheap initial : ℕ) → contents (blank cheap initial) ≡ []
  blank-empty cheap initial =
      let v = blank-IsValid cheap initial in
      let none : readable_bytes (blank cheap initial) ≡ 0 = omega (arith, readable-eq v) in
      sym (bytes_at-take v 0 (omega arith) ∙ take_all 0 _ (omega (arith, length-contents v, none)))

  new-ok : (cheap initial : ℕ) → 0 < initial → new grow cheap initial ≡ ok (blank cheap initial)
  unfolding new
  new-ok cheap initial h =
      let v = blank-IsValid cheap initial in
      let size = length-replicate {A = ℕ} (cheap + initial) 0 in
      let none : readable_bytes (blank cheap initial) ≡ 0 = omega (arith, readable-eq v) in
      let room : writable_bytes (blank cheap initial) ≡ initial =
        omega (arith, writable-eq v, size) in
      rw (lt→ltb _ _ h, none, room, eq_self initial, eq_self cheap)

  -- A new buffer is well formed and empty.
  pub new-empty :
      (cheap initial : ℕ)
      → 0 < initial
      → Ensures
          (λ c.
            IsValid c
            × (contents c ≡ [])
            × (c.cheap_prepend ≡ cheap)
            × (prependable_bytes c ≡ cheap))
          (new grow cheap initial)
  new-empty cheap initial h =
      rw (new-ok cheap initial h)
        (returned (blank-IsValid cheap initial, blank-empty cheap initial, refl, refl))

  -- What `shrink(reserve)` leaves: the bytes of `b`, room for `reserve` more, and 4 bytes in front.
  pub record Shrunk (b : Buffer) (reserve : ℕ) (c : Buffer) : Type 0 where
    pub holds : Holds b (contents b) c
    pub room : reserve ≤ writable_bytes c
    pub front : prependable_bytes c ≡ 4

  abbrev swapped : Buffer → Buffer → Buffer
  swapped b other = record b {
    buffer = other.buffer;
    capacity = other.capacity;
    reader_index = other.reader_index;
    writer_index = other.writer_index;
    wrap_size = three_quarters other.capacity;
  }

  module _ (b : Buffer) (reserve : ℕ) (v : IsValid b) (small : b.cheap_prepend ≤ 1028) where
    swapped-Shrunk :
        (other : Buffer)
        → Roomy (blank 4 1024) (readable_bytes b + reserve) other
        → length (contents b) ≤ writable_bytes other
        → Shrunk b reserve (swapped b (filled other (contents b)))
    swapped-Shrunk other fit room =
        let done = filled-Appended other (contents b) fit.same.valid room in
        let valid : IsValid (swapped b (filled other (contents b))) = record {
          ordered = done.valid.ordered;
          inside = done.valid.inside;
          reserved = done.valid.reserved;
          marked = refl;
          front = omega (
            arith,
            small,
            fit.larger,
            filled_size other (contents b) fit.same.valid room,
            length-replicate {A = ℕ} 1028 0,
          );
        } in
        record {
          holds = record {
            valid = valid;
            bytes =
                contents-eq valid
                ∙ sym (contents-eq done.valid)
                ∙ done.bytes
                ∙ ap (λ l. l ++ contents b) (fit.same.bytes ∙ blank-empty 4 1024);
            reserve = refl;
          };
          room = omega (
            arith,
            fit.room,
            writable-eq valid,
            writable-eq done.valid,
            writable-filled other (contents b) fit.same.valid room,
            length-contents v,
          );
          front = elim fit.place [ inl e ↦ e | inr e ↦ e ];
        }

    -- On a well-formed buffer with a reserve of at most 1028 bytes and less than 2 GiB to read,
    -- shrink(reserve) returns: the readable bytes and the reserve are kept, the result is well
    -- formed with at least the room asked for, and the bytes stand 4 behind the front.
    pub shrink-Shrunk :
        readable_bytes b < 2 ^ 31 → Ensures (Shrunk b reserve) (shrink grow b reserve)
    unfolding shrink swap
    shrink-Shrunk h = rw (new-ok 4 1024 (omega arith)) (
        Ensures-bind
          (ensure_writable_bytes-Roomy grow enough (blank 4 1024) (readable_bytes b + reserve)
            (blank-IsValid 4 1024))
          λ other fit.
            let room : length (contents b) ≤ writable_bytes other =
              omega (arith, fit.room, length-contents v) in
            rw
              (
                to_string_piece-ok b v h,
                append-ok grow enough other (contents b) fit.same.valid room,
              )
              (returned (swapped-Shrunk other fit room)))
