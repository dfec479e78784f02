-- ===== src/Buffer/Tests.antt =====
-- The theorems about sznet/net/Buffer.h at concrete buffers, and runs of its operations.
use sznet.Base.{ℕ, ◌≡◌, refl, List, [], ◌∷◌, some, arith, take, sub_size, length-take}
use sznet.Run.{ok, fault, ◌>>=◌, Ensures}
use sznet.Buffer.{
  Buffer, readable_bytes, contents, append, shrink, make_space, ensure_writable_bytes, wrap_buffer,
  write_at, has_written, writable_bytes,
}
use sznet.Buffer.Room.{Appended, append-Appended}
use sznet.Buffer.Shrink.{Shrunk, shrink-Shrunk}
use sznet.Buffer.Search.{find_crlf, crlf_index}
use sznet.Buffer.Read.{
  Received, bytes, readv_fd, ReadBy, readv_fd-ReadInto, readv_fd-fault, sum, vector_lengths,
}
use sznet.Buffer.Words.{read_int-prepend_int, prepend_int, read_int}
use sznet.Buffer.Sample.{
  exact, exact_enough, sample, sample-IsValid, big_host, big_host-IsDocumented,
}

abbrev tail : List ℕ
tail = 1 ∷ 2 ∷ 3 ∷ []

append_run : (append exact sample tail >>= λ b. ok (contents b)) ≡ ok (71 ∷ 13 ∷ 10 ∷ 72 ∷ tail)
unfolding append ensure_writable_bytes make_space write_at has_written wrap_buffer writable_bytes
    readable_bytes contents sub_size
append_run = refl

find_crlf_run : find_crlf sample ≡ some 3
unfolding find_crlf crlf_index contents readable_bytes sub_size
find_crlf_run = refl

append-Appended_example : Ensures (Appended sample tail) (append exact sample tail)
append-Appended_example = append-Appended exact exact_enough sample tail sample-IsValid

shrink-Shrunk_example : Ensures (Shrunk exact exact_enough sample 5) (shrink exact sample 5)
unfolding readable_bytes sub_size
shrink-Shrunk_example =
    shrink-Shrunk exact exact_enough sample 5 sample-IsValid (omega arith) (omega arith)

-- A kernel with three bytes to deliver, whatever the room for them.
abbrev three_ready : List ℕ → Received
three_ready lens = bytes (take (sum lens) tail)

readv_fd-ReadInto_example :
    Ensures (λ (r, d). ReadBy three_ready sample r d) (readv_fd exact three_ready sample)
unfolding readable_bytes sub_size
readv_fd-ReadInto_example =
    readv_fd-ReadInto sample sample-IsValid (omega arith) exact exact_enough three_ready
      λ room. omega (arith, length-take (sum (vector_lengths room)) tail)

-- A header of two bytes was put in front and is still there; the vector is full.
abbrev full : Buffer
full = record sample { reader_index = 0; writer_index = 8 }

readv_fd-fault_example : readv_fd exact three_ready full ≡ fault
unfolding readable_bytes sub_size
readv_fd-fault_example =
    readv_fd-fault exact three_ready full (omega arith) (omega arith) (omega arith)

read_int-prepend_int_example :
    Ensures
      (λ (y, c). (y ≡ 258) × (contents c ≡ contents sample))
      (prepend_int big_host 2 sample 258 >>= read_int big_host 2)
read_int-prepend_int_example =
    read_int-prepend_int big_host 2 258 sample big_host-IsDocumented (omega arith) sample-IsValid
      (omega arith)
