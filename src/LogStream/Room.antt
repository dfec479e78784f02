-- ===== src/LogStream/Room.antt =====
-- `FixedBuffer` of sznet/log/LogStream.h and the `operator<<` of LogStream.cpp: what ends up in the buffer.
use sznet.Base.{
  ℕ, ◌+◌, ◌^◌, ◌≤◌, ◌<◌, ◌≡◌, ◌⊎◌, refl, ap, ◌∙◌, List, [], ◌∷◌, ◌++◌, ltb, leb, inl, inr, length,
  length-append, take, drop, arith, take_all, take-append_left, take-append_right, length-take,
  append_assoc, append-nil,
}
use sznet.Run.{Ensures, returned, Ensures-bind, Ensures-if, Ensures-within}
use sznet.Buffer.Bytes.{overwrite, length-overwrite}
use sznet.LogStream.{
  ℤ, FixedBuffer, avail, to_string, write_current, add, append, format_integer, max_numeric_size,
}
use sznet.LogStream.Digits.{magnitude, read, convert-read}

-- The text stays inside the buffer.
abbrev pub IsInside : FixedBuffer → Type 0
IsInside b = b.cur ≤ length b.chars

-- `b'` is `b` with `cs` appended.
pub record Appended (b : FixedBuffer) (cs : List ℕ) (b' : FixedBuffer) : Type 0 where
  pub inside : IsInside b'
  pub size : length b'.chars ≡ length b.chars
  pub text : to_string b' ≡ to_string b ++ cs

take-overwrite :
    (xs : List ℕ) (at : ℕ) (cs ds : List ℕ)
    → at ≤ length xs
    → take (at + length cs) (overwrite xs at (cs ++ ds)) ≡ take at xs ++ cs
take-overwrite xs at cs ds h =
    take-append_right (at + length cs) (take at xs) rest (omega (arith, size))
    ∙ ap (λ n. take at xs ++ take n rest) (omega (arith, size))
    ∙ ap (◌++◌ (take at xs)) (
        ap (take (length cs)) (append_assoc cs ds (drop (at + length (cs ++ ds)) xs))
        ∙ take-append_left (length cs) cs (ds ++ drop (at + length (cs ++ ds)) xs) (omega arith)
        ∙ take_all (length cs) cs (omega arith))
  where
    rest : List ℕ
    rest = (cs ++ ds) ++ drop (at + length (cs ++ ds)) xs

    size : length (take at xs) ≡ at
    size = omega (arith, length-take at xs)

-- `b'` is `b` with `cs` written `offset` behind the end of its text, which is where it was.
pub record Written (b : FixedBuffer) (offset : ℕ) (cs : List ℕ) (b' : FixedBuffer) : Type 0 where
  pub cur : b'.cur ≡ b.cur
  pub size : length b'.chars ≡ length b.chars
  pub text : take (b.cur + offset + length cs) b'.chars ≡ take (b.cur + offset) b.chars ++ cs

-- What follows `cs` in the write, `ds`, is no part of the text.
pub write_current-Written :
    (b : FixedBuffer) (offset : ℕ) (cs ds : List ℕ)
    → b.cur + offset + (length cs + length ds) ≤ length b.chars
    → Ensures (Written b offset cs) (write_current b offset (cs ++ ds))
unfolding write_current
write_current-Written b offset cs ds room =
    let whole : length (cs ++ ds) ≡ length cs + length ds = length-append cs ds in
    Ensures-within (leb (b.cur + offset + length (cs ++ ds)) (length b.chars))
      (ground (arith, whole))
      (returned (record {
        cur = refl;
        size = length-overwrite b.chars (b.cur + offset) (cs ++ ds) (omega (arith, whole));
        text = take-overwrite b.chars (b.cur + offset) cs ds (omega arith);
      }))

-- A write at the end of the text, and the advance past it.
pub Written-Appended :
    (b b' : FixedBuffer) (cs : List ℕ)
    → b.cur + length cs ≤ length b.chars
    → Written b 0 cs b'
    → Appended b cs (add b' (length cs))
Written-Appended b b' cs room w =
    let start : b.cur + 0 ≡ b.cur = omega arith in
    record {
      inside = omega (arith, w.cur, w.size);
      size = w.size;
      text = rw w.cur (rw start at w.text);
    }

-- On a buffer whose text stays inside it, append returns: it appends all of a text that is
-- shorter than the room left, and nothing of any other.
pub append_whole :
    (b : FixedBuffer) (cs : List ℕ)
    → IsInside b
    → Ensures
        (λ b'. ((length cs < avail b) × Appended b cs b') ⊎ ((avail b ≤ length cs) × (b' ≡ b)))
        (append b cs)
unfolding append
append_whole b cs inside =
    Ensures-if (ltb (length cs) (avail b))
      (λ fits.
        Ensures-bind
          (rw (append-nil cs) at (write_current-Written b 0 cs [] (ground (arith, fits))))
          λ stored w.
            returned
              (inl (ground (arith, fits), Written-Appended b stored cs (ground (arith, fits)) w)))
      λ full. returned (inr (ground (arith, full), refl))

-- On a buffer whose text stays inside it, operator<< of an integer of 64 bits, signed or not,
-- returns and never writes behind the buffer: with 32 bytes of room at least it appends a text
-- that reads back as the number, with less it changes nothing.
pub format_integer-Appended :
    (b : FixedBuffer) (v : ℤ)
    → IsInside b
    → magnitude v < 2 ^ 64
    → Ensures
        (λ b'.
          ((max_numeric_size ≤ avail b) × (cs : List ℕ) × (read cs ≡ v) × Appended b cs b')
          ⊎ ((avail b < max_numeric_size) × (b' ≡ b)))
        (format_integer b v)
unfolding format_integer
format_integer-Appended b v inside small =
    Ensures-if (leb max_numeric_size (avail b))
      (λ fits. Ensures-bind (convert-read v small) λ cs (same, few).
        Ensures-bind (write_current-Written b 0 cs (0 ∷ []) (ground (arith, fits, few))) λ stored w.
          returned (
            inl (
              ground (arith, fits),
              cs,
              same,
              Written-Appended b stored cs (ground (arith, fits, few)) w,
            )))
      λ full. returned (inr (ground (arith, full), refl))
