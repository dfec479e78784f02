-- ===== src/Buffer.antt =====
-- sznet/net/Buffer.h and Buffer.cpp: the byte buffer of a connection.
-- A pointer into the buffer is its offset from `begin()`. `size_t` sums are exact, since the sizes
-- are those of memory that exists; differences wrap.
pub mod Bytes
pub mod Room
pub mod Ends
pub mod Shrink
pub mod Search
pub mod Read
pub mod Words
pub mod Sample
mod Tests
use sznet.Base.{
  ℕ, ◌+◌, ◌*◌, ◌/◌, ◌%◌, ◌^◌, List, ltb, leb, ◌==◌, if◌then◌else◌, sub_size, length, take, drop,
  replicate,
}
use sznet.Run.{Run, ok, ◌>>=◌, ◌>>◌, assert, within}
use Bytes.{overwrite, resize}

pub record Buffer : Type 0 where
  pub cheap_prepend : ℕ
  pub buffer : List ℕ
  pub capacity : ℕ
  pub reader_index : ℕ
  pub writer_index : ℕ
  pub wrap_size : ℕ

abbrev pub cheap_prepend_size : ℕ
cheap_prepend_size = 4

abbrev pub initial_size : ℕ
initial_size = 1024

unfoldable pub readable_bytes : Buffer → ℕ
readable_bytes b = sub_size b.writer_index b.reader_index

unfoldable pub writable_bytes : Buffer → ℕ
writable_bytes b = sub_size (length b.buffer) b.writer_index

abbrev pub prependable_bytes : Buffer → ℕ
prependable_bytes b = b.reader_index

-- The `n` bytes at an offset.
abbrev pub bytes_at : Buffer → ℕ → ℕ → List ℕ
bytes_at b at n = take n (drop at b.buffer)

-- The readable bytes: what a client of the buffer sees.
unfoldable pub contents : Buffer → List ℕ
contents b = bytes_at b b.reader_index (readable_bytes b)

pub write_at : Buffer → ℕ → List ℕ → Run Buffer
write_at b at ys =
    within (leb (at + length ys) (length b.buffer))
    >> ok (record b { buffer = overwrite b.buffer at ys })

abbrev pub three_quarters : ℕ → ℕ
three_quarters capacity = capacity * 3 / 4

unfoldable pub retrieve_all : Buffer → Buffer
retrieve_all b = record b { reader_index = b.cheap_prepend; writer_index = b.cheap_prepend }

unfoldable pub retrieve : Buffer → ℕ → Run Buffer
retrieve b len =
    assert (leb len (readable_bytes b))
    >> ok (
        if ltb len (readable_bytes b)
        then record b { reader_index = b.reader_index + len }
        else retrieve_all b)

pub retrieve_until : Buffer → ℕ → Run Buffer
retrieve_until b end = do
  assert (leb b.reader_index end)
  assert (leb end b.writer_index)
  retrieve b (sub_size end b.reader_index)

pub retrieve_as_string : Buffer → ℕ → Run (List ℕ × Buffer)
retrieve_as_string b len = do
  assert (leb len (readable_bytes b))
  let result = bytes_at b b.reader_index len
  b' ← retrieve b len
  ok (result, b')

pub retrieve_all_as_string : Buffer → Run (List ℕ × Buffer)
retrieve_all_as_string b = retrieve_as_string b (readable_bytes b)

pub has_written : Buffer → ℕ → Run Buffer
has_written b len =
    assert (leb len (writable_bytes b)) >> ok (record b { writer_index = b.writer_index + len })

pub unwrite : Buffer → ℕ → Run Buffer
unwrite b len =
    assert (leb len (readable_bytes b))
    >> ok (record b { writer_index = sub_size b.writer_index len })

-- `memmove` of the readable bytes to the front
pub wrap_buffer : Buffer → Run Buffer
wrap_buffer b = if b.reader_index == b.cheap_prepend then ok b else do
  let readable = readable_bytes b
  moved ← write_at b b.cheap_prepend (bytes_at b b.reader_index (readable_bytes b))
  let wrapped = record moved {
    reader_index = b.cheap_prepend;
    writer_index = b.cheap_prepend + readable;
  }
  assert (readable == readable_bytes wrapped)
  ok wrapped

pub prepend : Buffer → List ℕ → Run Buffer
prepend b ys = do
  assert (leb (length ys) (prependable_bytes b))
  let at = sub_size b.reader_index (length ys)
  write_at (record b { reader_index = at }) at ys

-- `StringPiece` keeps its length in an `int`. A negative one is, as a `size_t`, past all memory.
pub to_string_piece : Buffer → Run (List ℕ)
to_string_piece b = do
  let size = readable_bytes b % 2 ^ 32
  within (ltb size (2 ^ 31))
  ok (bytes_at b b.reader_index size)

-- `swap` exchanges the vectors and the two indices, and leaves `m_nCheapPrepend` and `m_wrapSize`.
unfoldable pub swap : Buffer → Buffer → Buffer × Buffer
swap b rhs = (
  record b {
    buffer = rhs.buffer;
    capacity = rhs.capacity;
    reader_index = rhs.reader_index;
    writer_index = rhs.writer_index;
  },
  record rhs {
    buffer = b.buffer;
    capacity = b.capacity;
    reader_index = b.reader_index;
    writer_index = b.writer_index;
  },
)

-- `grow c n` is the capacity of a vector of capacity `c` after `resize(n)`.
module _ (grow : ℕ → ℕ → ℕ) where
  pub new : ℕ → ℕ → Run Buffer
  new cheap initial = do
    let capacity = grow 0 (cheap + initial)
    let b : Buffer = record {
      cheap_prepend = cheap;
      buffer = replicate (cheap + initial) 0;
      capacity = capacity;
      reader_index = cheap;
      writer_index = cheap;
      wrap_size = three_quarters capacity;
    }
    assert (ltb 0 initial)
    assert (readable_bytes b == 0)
    assert (writable_bytes b == initial)
    assert (prependable_bytes b == cheap)
    ok b

  pub make_space : Buffer → ℕ → Run Buffer
  make_space b len =
      if ltb (writable_bytes b + prependable_bytes b) (len + b.cheap_prepend)
      then (let capacity = grow b.capacity (b.writer_index + len) in
          ok (record b {
            buffer = resize b.buffer (b.writer_index + len);
            capacity = capacity;
            wrap_size = three_quarters capacity;
          }))
      else (assert (ltb b.cheap_prepend b.reader_index) >> wrap_buffer b)

  pub ensure_writable_bytes : Buffer → ℕ → Run Buffer
  ensure_writable_bytes b len = do
    b' ← if ltb (writable_bytes b) len then make_space b len else ok b
    assert (leb len (writable_bytes b'))
    ok b'

  pub append : Buffer → List ℕ → Run Buffer
  append b ys = do
    roomy ← ensure_writable_bytes b (length ys)
    filled ← write_at roomy roomy.writer_index ys
    has_written filled (length ys)

  pub shrink : Buffer → ℕ → Run Buffer
  shrink b reserve = do
    fresh ← new cheap_prepend_size initial_size
    roomy ← ensure_writable_bytes fresh (readable_bytes b + reserve)
    piece ← to_string_piece b
    other ← append roomy piece
    let exchanged = (swap b other).0
    ok (record exchanged { wrap_size = three_quarters exchanged.capacity })
