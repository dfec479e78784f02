-- ===== src/Codec/Refine.antt =====
-- `onMessage` and `send` over a buffer do what the format says.
use sznet.Base.{
  ℕ, zero, suc, ◌+◌, ◌-◌, ◌%◌, ◌^◌, ◌≤◌, ◌<◌, ◌≡◌, sym, ap, ◌∙◌, false, List, ◌++◌, arith, inl, inr,
  leb, length, take, drop, length-drop, append-nil,
}
use sznet.Run.{
  ok, ◌>>=◌, Ensures, returned, Ensures-bind, Ensures-if, Ensures-weaken, Ensures_of_ok,
}
use sznet.Buffer.{Buffer, readable_bytes, contents, prependable_bytes, append}
use sznet.Buffer.Room.{IsValid, length-contents, append-place, append-Appended}
use sznet.Buffer.Shrink.{new-empty}
use sznet.Buffer.Ends.{bytes_at-take, retrieve-Holds, prepend-Holds}
use sznet.Buffer.Words.{Host, IsDocumented}
use sznet.Codec.{Outcome, peek_len, on_message_loop, on_message, send, send_buffer}
use sznet.Codec.Stream.{
  header, Decodes, short, partial, negative, Decodes-parts, Decodes-append, Decodes-unique,
  Decodes-frames, frame, frames, IsSendable,
}

module _ (h : Host) where
  -- The outcome is what the format makes of the bytes that the buffer held.
  pub record Follows (b : Buffer) (o : Outcome) : Type 0 where
    pub decodes : Decodes h (contents b) o.messages o.closed (contents o.buffer)
    pub valid : IsValid o.buffer

  module _ {b : Buffer} (v : IsValid b) (room : 4 ≤ readable_bytes b) where
    peek_len-header : peek_len h b ≡ header h (contents b)
    unfolding peek_len
    peek_len-header = ap h.value (bytes_at-take v 4 room)

  -- More fuel than bytes is enough.
  on_message_loop-Follows :
      (fuel : ℕ) (b : Buffer)
      → IsValid b
      → readable_bytes b < fuel
      → Ensures (Follows b) (on_message_loop h fuel b)
  unfolding on_message_loop
  on_message_loop-Follows zero b v f = absurd (omega arith)
  on_message_loop-Follows (suc fuel) b v f =
      Ensures-if (leb 4 (readable_bytes b))
        (λ long.
          let room : 4 ≤ readable_bytes b = ground arith in
          let size = length-contents v in
          let e = peek_len-header v room in
          Ensures-if (leb (2 ^ 31) (peek_len h b))
            (λ bad.
              returned (record {
                decodes = negative (omega (arith, size)) (ground (arith, e));
                valid = v;
              }))
            λ good.
              Ensures-if (leb (peek_len h b + 4) (readable_bytes b))
                (λ whole. Ensures-bind (retrieve-Holds b 4 v room) λ c held.
                  let left : readable_bytes c ≡ readable_bytes b - 4 = omega (
                    arith,
                    size,
                    length-contents held.valid,
                    ap length held.bytes,
                    length-drop 4 (contents b),
                  ) in
                  let fits : peek_len h b ≤ readable_bytes c = ground (arith, left) in
                  Ensures-bind (retrieve-Holds c (peek_len h b) held.valid fits) λ d taken.
                    let fewer : readable_bytes d < fuel = omega (
                      arith,
                      left,
                      f,
                      length-contents taken.valid,
                      ap length taken.bytes,
                      length-drop (peek_len h b) (contents c),
                      length-contents held.valid,
                    ) in
                    Ensures-bind (on_message_loop-Follows fuel d taken.valid fewer) λ o done.
                      returned (record {
                        decodes =
                            Decodes-parts h (ground (arith, e)) (ground (arith, e, size))
                              (rw (← e) (
                                sym (
                                  bytes_at-take held.valid (peek_len h b) fits
                                  ∙ ap (take (peek_len h b)) held.bytes)))
                              (rw (← e) (sym (taken.bytes ∙ ap (drop (peek_len h b)) held.bytes)))
                              done.decodes;
                        valid = done.valid;
                      }))
                λ cut. returned (record {
                  decodes =
                      partial (omega (arith, size)) (ground (arith, e)) (ground (arith, e, size));
                  valid = v;
                }))
        λ few. returned (record { decodes = short (ground (arith, length-contents v)); valid = v })

  -- `onMessage` ends, without a failed assertion, and does to the bytes of the buffer what the
  -- format says: the complete messages are passed on in order, the rest stays.
  pub on_message-Follows : (b : Buffer) → IsValid b → Ensures (Follows b) (on_message h b)
  unfolding on_message
  on_message-Follows b v = on_message_loop-Follows (suc (readable_bytes b)) b v (omega arith)

  -- send of a message shorter than 2 GiB returns and hands over its frame: the length in four
  -- bytes of the host order, then the message.
  pub send-frame :
      (grow : ℕ → ℕ → ℕ)
      → ((c n : ℕ) → n ≤ grow c n)
      → (m : List ℕ) → IsDocumented h
      → length m < 2 ^ 31
      → Ensures (λ bs. bs ≡ frame h m) (send h grow m)
  unfolding send
  send-frame grow enough m d small =
      let size : length m % 2 ^ 32 ≡ length m = omega arith in
      let image = h.image 4 (length m) in
      let header_size : length image ≡ 4 = d.length-image 4 (length m) in
      Ensures-bind (new-empty grow enough 4 1024 (omega arith))
        λ empty (valid, none, reserve, front).
          Ensures-bind (append-place grow enough empty m valid) λ body (done, place).
            let room : prependable_bytes body ≡ 4 = elim place [
              | inl e ↦ e ∙ front
              | inr e ↦ e ∙ reserve
            ] in
            rw size (
              Ensures-bind (prepend-Holds body image done.valid (omega (arith, room, header_size)))
                λ framed held.
                  returned (held.bytes ∙ ap (◌++◌ image) (done.bytes ∙ ap (λ l. l ++ m) none)))

  -- So is a buffer with room for the header in front, where the size that is given is its own.
  pub send_buffer-frame :
      (b : Buffer)
      → IsDocumented h
      → IsValid b
      → readable_bytes b < 2 ^ 31
      → 4 ≤ prependable_bytes b
      → Ensures (λ bs. bs ≡ frame h (contents b)) (send_buffer h b (readable_bytes b))
  unfolding send_buffer
  send_buffer-frame b d v small room =
      let size : readable_bytes b % 2 ^ 32 ≡ length (contents b) =
        omega (arith, length-contents v) in
      let header_size = d.length-image 4 (length (contents b)) in
      rw size (
        Ensures-bind
          (prepend-Holds b (h.image 4 (length (contents b))) v (omega (arith, header_size)))
          λ framed held. returned held.bytes)

  module _ (d : IsDocumented h) where
    -- On a well-formed buffer of the frames of messages shorter than 2 GiB and then fewer than
    -- four bytes, onMessage returns with exactly these messages in order, leaves the last bytes
    -- in the buffer and keeps the connection open, on a platform that stores and loads integers
    -- as documented.
    pub on_message-frames :
        (b : Buffer) (ms : List (List ℕ)) (rest : List ℕ)
        → IsValid b
        → IsSendable h ms
        → length rest < 4
        → contents b ≡ frames h ms ++ rest
        → Ensures
            (λ o. (o.messages ≡ ms) × (o.closed ≡ false) × (contents o.buffer ≡ rest))
            (on_message h b)
    on_message-frames b ms rest v small few e = Ensures-weaken (on_message-Follows b v) λ o follows.
        let given = rw (append-nil ms) at (Decodes-frames h d ms small (short few)) in
        Decodes-unique h (rw e at follows.decodes) given

  -- If a first onMessage on a well-formed buffer did not close the connection and more bytes are
  -- appended to what it left, a second onMessage returns, and one onMessage on a well-formed
  -- buffer of all the bytes passes on the messages of both calls in order, closes if the second
  -- does, and leaves the same bytes.
  pub on_message_split :
      (grow : ℕ → ℕ → ℕ)
      → ((c n : ℕ) → n ≤ grow c n)
      → (b whole : Buffer) (ys : List ℕ) (o : Outcome) → IsValid b
      → IsValid whole
      → contents whole ≡ contents b ++ ys
      → on_message h b ≡ ok o
      → o.closed ≡ false
      → Ensures
          (λ p.
            Ensures
              (λ all.
                (all.messages ≡ o.messages ++ p.messages)
                × (all.closed ≡ p.closed)
                × (contents all.buffer ≡ contents p.buffer))
              (on_message h whole))
          (append grow o.buffer ys >>= on_message h)
  on_message_split grow enough b whole ys o v w e run open_still =
      let first = Ensures_of_ok run (on_message-Follows b v) in
      Ensures-bind (append-Appended grow enough o.buffer ys first.valid) λ c done.
        Ensures-weaken (on_message-Follows c done.valid) λ p second.
          Ensures-weaken (on_message-Follows whole w) λ all total.
            Decodes-unique h (rw e at total.decodes)
              (Decodes-append h ys first.decodes open_still (rw done.bytes at second.decodes))
