-- ===== src/AsyncLogging/Filled.antt =====
-- The buffers of sznet/log/AsyncLogging.cpp and FixedBuffer of sznet/log/LogStream.h.
use sznet.Base.{ℕ, ◌-◌, ◌≡◌, refl, List, ltb, length, inl, inr, true, false, arith, length-take}
use sznet.Run.{Ensures, Ensures-weaken}
use sznet.LogStream.{FixedBuffer, avail, to_string}
use sznet.LogStream
use sznet.LogStream.Room.{IsInside, append_whole}
use sznet.AsyncLogging.{fill}

-- `b'` is `b` with this text.
pub record Holds (b : FixedBuffer) (cs : List ℕ) (b' : FixedBuffer) : Type 0 where
  pub inside : IsInside b'
  pub size : length b'.chars ≡ length b.chars
  pub text : to_string b' ≡ cs

-- What `fill` says of the text holds of the buffer.
pub append-fill :
    (b : FixedBuffer) (line : List ℕ)
    → IsInside b
    → Ensures (Holds b (fill (length b.chars) (to_string b) line)) (LogStream.append b line)
append-fill b line inside =
    let size : length (to_string b) ≡ b.cur = ground (arith, length-take b.cur b.chars, inside) in
    Ensures-weaken (append_whole b line inside) λ b' result. elim result [
      | inl (room, done) ↦
          let fits : ltb (length line) (length b.chars - length (to_string b)) ≡ true =
            ground (arith, room, size) in
          rw fits (record { inside = done.inside; size = done.size; text = done.text })
      | inr (full, same) ↦
          let long : ltb (length line) (length b.chars - length (to_string b)) ≡ false =
            ground (arith, full, size) in
          rw (same, long) (record { inside = inside; size = refl; text = refl })
    ]
