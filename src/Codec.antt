-- ===== src/Codec.antt =====
-- sznet/net/Codec.h: messages with their length in four bytes before them, in the byte order of the
-- host. `m_messageCallback` is the list of the messages in the order in which it gets them.
pub mod Stream
pub mod Refine
mod Tests
use sznet.Base.{
  ℕ, zero, suc, ◌+◌, ◌%◌, ◌^◌, Bool, true, false, List, [], ◌∷◌, leb, if◌then◌else◌, length,
}
use sznet.Run.{Run, ok, out_of_fuel, ◌>>=◌}
use sznet.Buffer.{
  Buffer, readable_bytes, contents, bytes_at, retrieve, new, append, prepend, cheap_prepend_size,
  initial_size,
}
use sznet.Buffer.Words.{Host}

abbrev pub header_len : ℕ
header_len = 4

-- What `onMessage` did: the messages that it passed on, whether it closed the connection, and what
-- it left in the buffer.
pub record Outcome : Type 0 where
  pub messages : List (List ℕ)
  pub closed : Bool
  pub buffer : Buffer

module _ (h : Host) where
  -- The bit pattern of the `int32_t` at the front.
  pub peek_len : Buffer → ℕ
  peek_len b = h.value (bytes_at b b.reader_index header_len)

  pub on_message_loop : ℕ → Buffer → Run Outcome
  on_message_loop zero b = out_of_fuel
  on_message_loop (suc fuel) b =
      let len = peek_len b in
      let stop : Run Outcome = ok (record { messages = []; closed = false; buffer = b }) in
      let deliver : Run Outcome = do
        c ← retrieve b header_len
        let message = bytes_at c c.reader_index len
        d ← retrieve c len
        o ← on_message_loop fuel d
        ok (record o { messages = message ∷ o.messages })
      in if leb header_len (readable_bytes b)
        then (if leb (2 ^ 31) len
            then ok (record { messages = []; closed = true; buffer = b })
            else (if leb (len + header_len) (readable_bytes b) then deliver else stop))
        else stop

  -- Each round takes four bytes at least.
  pub on_message : Buffer → Run Outcome
  on_message b = on_message_loop (suc (readable_bytes b)) b

  -- The bytes that `send` hands to the connection.
  pub send : (ℕ → ℕ → ℕ) → List ℕ → Run (List ℕ)
  send grow message = do
    empty ← new grow cheap_prepend_size initial_size
    body ← append grow empty message
    framed ← prepend body (h.image header_len (length message % 2 ^ 32))
    ok (contents framed)

  -- `send` of a buffer that holds the message, with the size that it is said to have.
  pub send_buffer : Buffer → ℕ → Run (List ℕ)
  send_buffer b size = do
    framed ← prepend b (h.image header_len (size % 2 ^ 32))
    ok (contents framed)
