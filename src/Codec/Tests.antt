-- ===== src/Codec/Tests.antt =====
-- The theorems about sznet/net/Codec.h at concrete streams, and a run.
use sznet.Base.{◌≡◌, refl, false, [], ◌∷◌, arith, sub_size}
use sznet.Run.{ok, ◌>>=◌, Ensures}
use sznet.Buffer.{Buffer, readable_bytes, contents, append, retrieve, retrieve_all}
use sznet.Buffer.Words.{network}
use sznet.Buffer.Sample.{exact, exact_enough, from_digits, big_host, big_host-IsDocumented}
use sznet.Codec.{Outcome, on_message, on_message_loop, peek_len}
use sznet.Codec.Refine.{on_message-frames, on_message_split}

-- Two messages, "AB" and an empty one, and a byte of the next header.
abbrev stream : Buffer
stream = record {
  cheap_prepend = 1;
  buffer = 0 ∷ 0 ∷ 0 ∷ 0 ∷ 2 ∷ 65 ∷ 66 ∷ 0 ∷ 0 ∷ 0 ∷ 0 ∷ 7 ∷ [];
  capacity = 12;
  reader_index = 1;
  writer_index = 12;
  wrap_size = 9;
}

-- The same without the last four bytes.
abbrev first_read : Buffer
first_read = record stream { writer_index = 8 }

after_first : Outcome
after_first = record {
  messages = (65 ∷ 66 ∷ []) ∷ [];
  closed = false;
  buffer = record first_read { reader_index = 7 };
}

first_read_run : on_message big_host first_read ≡ ok after_first
unfolding on_message on_message_loop peek_len retrieve retrieve_all readable_bytes sub_size
    from_digits after_first
first_read_run = refl

on_message-frames_example :
    Ensures
      (λ o.
        (o.messages ≡ (65 ∷ 66 ∷ []) ∷ [] ∷ []) × (o.closed ≡ false) × (contents o.buffer ≡ 7 ∷ []))
      (on_message big_host stream)
unfolding contents readable_bytes sub_size network
on_message-frames_example =
    on_message-frames big_host big_host-IsDocumented stream ((65 ∷ 66 ∷ []) ∷ [] ∷ []) (7 ∷ [])
      (omega arith) (omega arith) (omega arith) refl

on_message_split_example :
    Ensures
      (λ p.
        Ensures
          (λ all.
            (all.messages ≡ (65 ∷ 66 ∷ []) ∷ p.messages)
            × (all.closed ≡ p.closed)
            × (contents all.buffer ≡ contents p.buffer))
          (on_message big_host stream))
      (append exact after_first.buffer (0 ∷ 0 ∷ 0 ∷ 7 ∷ []) >>= on_message big_host)
unfolding contents readable_bytes sub_size after_first
on_message_split_example =
    on_message_split big_host exact exact_enough first_read stream (0 ∷ 0 ∷ 0 ∷ 7 ∷ []) after_first
      (omega arith) (omega arith) refl first_read_run refl
