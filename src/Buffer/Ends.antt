-- ===== src/Buffer/Ends.antt =====
-- Taking bytes from the front, putting bytes before them, and taking back the last ones.
use sznet.Base.{
  ℕ, ◌+◌, ◌-◌, ◌≤◌, ◌<◌, ◌≡◌, refl, sym, ap, ◌∙◌, List, [], ◌++◌, arith, ltb, le→leb, gt→leb,
  Bool-cases, inl, inr, sub_size-eq, length, take, drop, take_all, drop_all, drop-drop, take-take,
  take-drop,
}
use sznet.Run.{abort, Ensures, returned, Ensures-bind, Ensures-assert, Ensures-weaken}
use sznet.Buffer.Bytes.{overwrite, length-overwrite, slice-overwrite}
use sznet.Buffer.{
  Buffer, readable_bytes, prependable_bytes, contents, bytes_at, retrieve, retrieve_all,
  retrieve_as_string, retrieve_all_as_string, unwrite, prepend,
}
use sznet.Buffer.Room.{IsValid, readable-eq, contents-eq, length-contents, write_at-ok}

-- `c` is well formed, keeps the reserve of `b`, and has the bytes `ys` to read.
pub record Holds (b : Buffer) (ys : List ℕ) (c : Buffer) : Type 0 where
  pub valid : IsValid c
  pub bytes : contents c ≡ ys
  pub reserve : c.cheap_prepend ≡ b.cheap_prepend

module _ {b : Buffer} (v : IsValid b) where
  -- The first bytes to read, where they stand in the vector.
  pub bytes_at-take :
      (len : ℕ) → len ≤ readable_bytes b → bytes_at b b.reader_index len ≡ take len (contents b)
  bytes_at-take len h = sym (
      ap (take len) (contents-eq v)
      ∙ take-take (b.writer_index - b.reader_index) len (drop b.reader_index b.buffer)
          (omega (arith, readable-eq v)))

  retrieve_all-Holds : Holds b [] (retrieve_all b)
  unfolding retrieve_all
  retrieve_all-Holds =
      let valid : IsValid (retrieve_all b) = record {
        ordered = omega arith;
        inside = v.front;
        reserved = v.reserved;
        marked = v.marked;
        front = v.front;
      } in
      record {
        valid = valid;
        bytes = contents-eq valid ∙ ap (λ n. take n (drop b.cheap_prepend b.buffer)) none_left;
        reserve = refl;
      }
    where
      none_left : b.cheap_prepend - b.cheap_prepend ≡ 0
      none_left = omega arith

  skipped-Holds :
      (len : ℕ)
      → len ≤ readable_bytes b
      → Holds b (drop len (contents b)) (record b { reader_index = b.reader_index + len })
  skipped-Holds len h =
      let valid : IsValid (record b { reader_index = b.reader_index + len }) = record {
        ordered = omega (arith, readable-eq v, v.ordered);
        inside = v.inside;
        reserved = v.reserved;
        marked = v.marked;
        front = v.front;
      } in
      let size : len + (b.writer_index - (b.reader_index + len)) ≡ b.writer_index - b.reader_index =
        omega (arith, readable-eq v) in
      record {
        valid = valid;
        bytes =
            contents-eq valid
            ∙ ap (take (b.writer_index - (b.reader_index + len)))
                (sym (drop-drop b.reader_index len b.buffer))
            ∙ take-drop len (b.writer_index - (b.reader_index + len)) (drop b.reader_index b.buffer)
            ∙ ap (λ n. drop len (take n (drop b.reader_index b.buffer))) size
            ∙ ap (drop len) (sym (contents-eq v));
        reserve = refl;
      }

-- `retrieve(len)` takes the first `len` bytes away, whether or not they are all of them.
pub retrieve-Holds :
    (b : Buffer) (len : ℕ)
    → IsValid b
    → len ≤ readable_bytes b
    → Ensures (Holds b (drop len (contents b))) (retrieve b len)
unfolding retrieve
retrieve-Holds b len v h =
    Ensures-assert _ (le→leb _ _ h) (elim (Bool-cases (ltb len (readable_bytes b))) [
      | inl some_left ↦ rw some_left (returned (skipped-Holds v len h))
      | inr none_left ↦
          let none : drop len (contents b) ≡ [] =
            drop_all len (contents b) (ground (arith, length-contents v)) in
          rw (none_left, none) (returned (retrieve_all-Holds v))
    ])

-- It fails exactly on a longer length.
pub retrieve-abort : (b : Buffer) (len : ℕ) → readable_bytes b < len → retrieve b len ≡ abort
unfolding retrieve
retrieve-abort b len h = rw (gt→leb _ _ h)

-- On a well-formed buffer with at least len readable bytes, retrieveAsString(len) returns the
-- first len of them, and the result is well formed and holds the others.
pub retrieve_as_string-splits :
    (b : Buffer) (len : ℕ)
    → IsValid b
    → len ≤ readable_bytes b
    → Ensures
        (λ (s, c). (s ≡ take len (contents b)) × Holds b (drop len (contents b)) c)
        (retrieve_as_string b len)
unfolding retrieve_as_string
retrieve_as_string-splits b len v h =
    Ensures-assert _ (le→leb _ _ h)
      (Ensures-bind (retrieve-Holds b len v h) λ c held. returned (bytes_at-take v len h, held))

pub retrieve_all_as_string-empties :
    (b : Buffer)
    → IsValid b
    → Ensures (λ (s, c). (s ≡ contents b) × Holds b [] c) (retrieve_all_as_string b)
unfolding retrieve_all_as_string
retrieve_all_as_string-empties b v =
    Ensures-weaken (retrieve_as_string-splits b (readable_bytes b) v (omega arith))
      λ (s, c) (e, held). (
        e ∙ take_all (readable_bytes b) (contents b) (omega (arith, length-contents v)),
        rw (drop_all (readable_bytes b) (contents b) (omega (arith, length-contents v))) at held,
      )

-- Bytes put in front are read first.
pub prepend-Holds :
    (b : Buffer) (ys : List ℕ)
    → IsValid b
    → length ys ≤ prependable_bytes b
    → Ensures (Holds b (ys ++ contents b)) (prepend b ys)
unfolding prepend
prepend-Holds b ys v h = Ensures-assert _ (le→leb _ _ h) (
    rw
      (
        sub_size-eq b.reader_index (length ys) h,
        write_at-ok (record b { reader_index = at }) at ys (omega (arith, v.ordered, v.inside)),
      )
      (returned (record { valid = valid; bytes = contents-eq valid ∙ front; reserve = refl })))
  where
    at : ℕ
    at = b.reader_index - length ys

    size : length (overwrite b.buffer at ys) ≡ length b.buffer
    size = length-overwrite b.buffer at ys (omega (arith, v.ordered, v.inside))

    valid : IsValid (record b { buffer = overwrite b.buffer at ys; reader_index = at })
    valid = record {
      ordered = omega (arith, v.ordered);
      inside = omega (arith, size, v.inside);
      reserved = omega (arith, size, v.reserved);
      marked = v.marked;
      front = omega (arith, size, v.front);
    }

    front : take (b.writer_index - at) (drop at (overwrite b.buffer at ys)) ≡ ys ++ contents b
    front =
        let n : b.writer_index - at ≡ length ys + (b.writer_index - b.reader_index) =
          omega (arith, v.ordered) in
        let m : at + length ys ≡ b.reader_index = omega arith in
        ap (λ k. take k (drop at (overwrite b.buffer at ys))) n
        ∙ slice-overwrite b.buffer at ys (b.writer_index - b.reader_index)
            (omega (arith, v.ordered, v.inside))
        ∙ ap (λ k. ys ++ take (b.writer_index - b.reader_index) (drop k b.buffer)) m
        ∙ ap (◌++◌ ys) (sym (contents-eq v))

-- `unwrite(len)` takes the last `len` bytes back.
pub unwrite-Holds :
    (b : Buffer) (len : ℕ)
    → IsValid b
    → len ≤ readable_bytes b
    → Ensures (Holds b (take (readable_bytes b - len) (contents b))) (unwrite b len)
unfolding unwrite
unwrite-Holds b len v h = Ensures-assert _ (le→leb _ _ h) (
    rw (sub_size-eq b.writer_index len (omega (arith, readable-eq v)))
      (returned (record { valid = valid; bytes = contents-eq valid ∙ kept; reserve = refl })))
  where
    valid : IsValid (record b { writer_index = b.writer_index - len })
    valid = record {
      ordered = omega (arith, readable-eq v, v.ordered);
      inside = omega (arith, v.inside);
      reserved = v.reserved;
      marked = v.marked;
      front = v.front;
    }

    kept :
        take (b.writer_index - len - b.reader_index) (drop b.reader_index b.buffer)
        ≡ take (readable_bytes b - len) (contents b)
    kept =
        let n : b.writer_index - len - b.reader_index ≡ readable_bytes b - len =
          omega (arith, readable-eq v) in
        ap (λ k. take k (drop b.reader_index b.buffer)) n
        ∙ bytes_at-take v (readable_bytes b - len) (omega arith)
