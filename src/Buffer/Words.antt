-- ===== src/Buffer/Words.antt =====
-- Integers in the buffer: `appendInt8` to `peekInt64` and `prependInt8` to `prependInt64` of
-- sznet/net/Buffer.h, over the conversions of sznet/net/Endian.h. An integer of `w` bytes is its bit
-- pattern, a number below `256 ^ w`.
use sznet.Base.{
  ℕ, zero, suc, ◌/◌, ◌%◌, ◌^◌, ◌≤◌, ◌<◌, ◌≡◌, refl, ap, ◌∙◌, List, [], ◌∷◌, ◌++◌, arith, leb,
  le→leb, length, take, drop, take-append_left, take_all, drop-append_left, drop_all, length-append,
}
use sznet.Run.{Run, ok, ◌>>=◌, ◌>>◌, assert, Ensures, returned, Ensures-bind, Ensures-weaken}
use sznet.Buffer.{
  Buffer, readable_bytes, prependable_bytes, contents, bytes_at, append, retrieve, prepend,
}
use sznet.Buffer.Room.{IsValid, Appended, append-Appended, length-contents}
use sznet.Buffer.Ends.{Holds, bytes_at-take, retrieve-Holds, prepend-Holds}

-- The platform: how an integer of `w` bytes stands in memory, and the conversions `htobe`, `betoh`
-- of that width.
pub record Host : Type 0 where
  pub image : ℕ → ℕ → List ℕ
  pub value : List ℕ → ℕ
  pub htobe : ℕ → ℕ → ℕ
  pub betoh : ℕ → ℕ → ℕ

-- Big-endian digits, the order on the network.
unfoldable pub network : ℕ → ℕ → List ℕ
network zero x = []
network (suc w) x = network w (x / 256) ++ (x % 256) ∷ []

-- What the platform documents.
pub record IsDocumented (h : Host) : Type 0 where
  pub length-image : (w x : ℕ) → length (h.image w x) ≡ w
  pub value-image : (w x : ℕ) → x < 256 ^ w → h.value (h.image w x) ≡ x
  pub image-htobe : (w x : ℕ) → x < 256 ^ w → h.image w (h.htobe w x) ≡ network w x
  pub betoh-network : (w x : ℕ) → x < 256 ^ w → h.betoh w (h.value (network w x)) ≡ x

module _ (h : Host) where
  -- `appendInt64`, `appendInt32`, `appendInt16`; for one byte there is nothing to convert.
  pub append_int : (ℕ → ℕ → ℕ) → ℕ → Buffer → ℕ → Run Buffer
  append_int grow w b x = append grow b (h.image w (h.htobe w x))

  pub prepend_int : ℕ → Buffer → ℕ → Run Buffer
  prepend_int w b x = prepend b (h.image w (h.htobe w x))

  pub peek_int : ℕ → Buffer → Run ℕ
  peek_int w b = do
    assert (leb w (readable_bytes b))
    ok (h.betoh w (h.value (bytes_at b b.reader_index w)))

  pub retrieve_int : ℕ → Buffer → Run Buffer
  retrieve_int w b = retrieve b w

  pub read_int : ℕ → Buffer → Run (ℕ × Buffer)
  read_int w b = do result ← peek_int w b; c ← retrieve_int w b; ok (result, c)

-- A byte has no order to convert.
pub append_int8 : (ℕ → ℕ → ℕ) → Buffer → ℕ → Run Buffer
append_int8 grow b x = append grow b (x ∷ [])

pub prepend_int8 : Buffer → ℕ → Run Buffer
prepend_int8 b x = prepend b (x ∷ [])

pub peek_int8 : Buffer → Run (List ℕ)
peek_int8 b = do assert (leb 1 (readable_bytes b)); ok (bytes_at b b.reader_index 1)

pub read_int8 : Buffer → Run (List ℕ × Buffer)
read_int8 b = do result ← peek_int8 b; c ← retrieve b 1; ok (result, c)

pub length-network : (w x : ℕ) → length (network w x) ≡ w
unfolding network
length-network zero x = refl
length-network (suc w) x =
    omega (arith, length-append (network w (x / 256)) ((x % 256) ∷ []), length-network w (x / 256))

module _ (h : Host) (d : IsDocumented h) (w x : ℕ) (fits : x < 256 ^ w) where
  -- An integer is appended, and put in front, in network order.
  pub append_int-Appended :
      (grow : ℕ → ℕ → ℕ)
      → ((c n : ℕ) → n ≤ grow c n)
      → (b : Buffer) → IsValid b
      → Ensures (Appended b (network w x)) (append_int h grow w b x)
  unfolding append_int
  append_int-Appended grow enough b v =
      rw (d.image-htobe w x fits) (append-Appended grow enough b (network w x) v)

  pub prepend_int-Holds :
      (b : Buffer)
      → IsValid b
      → w ≤ prependable_bytes b
      → Ensures (Holds b (network w x ++ contents b)) (prepend_int h w b x)
  unfolding prepend_int
  prepend_int-Holds b v room =
      rw (d.image-htobe w x fits)
        (prepend-Holds b (network w x) v (omega (arith, length-network w x)))

  -- What stands in front in network order is read back, and the bytes behind it are left.
  pub read_int-network :
      (b : Buffer) (rest : List ℕ)
      → IsValid b
      → contents b ≡ network w x ++ rest
      → Ensures (λ (y, c). (y ≡ x) × Holds b rest c) (read_int h w b)
  unfolding read_int peek_int retrieve_int
  read_int-network b rest v e =
      let size = length-network w x in
      let room : w ≤ readable_bytes b =
        omega (arith, size, length-contents v, ap length e, length-append (network w x) rest) in
      let front : bytes_at b b.reader_index w ≡ network w x =
        bytes_at-take v w room
        ∙ ap (take w) e
        ∙ take-append_left w (network w x) rest (omega (arith, size))
        ∙ take_all w (network w x) (omega (arith, size)) in
      let back : drop w (contents b) ≡ rest =
        ap (drop w) e
        ∙ drop-append_left w (network w x) rest (omega (arith, size))
        ∙ ap (λ l. l ++ rest) (drop_all w (network w x) (omega (arith, size))) in
      rw (le→leb w (readable_bytes b) room, front, d.betoh-network w x fits)
        (Ensures-bind (retrieve-Holds b w v room) λ c held. returned (refl, (rw back at held)))

-- On a well-formed buffer with w bytes of room in front, prependInt of an integer of w bytes and
-- then readInt return that integer and leave the readable bytes as they were, on a platform whose
-- conversions are those documented.
pub read_int-prepend_int :
    (h : Host) (w x : ℕ) (b : Buffer)
    → IsDocumented h
    → x < 256 ^ w
    → IsValid b
    → w ≤ prependable_bytes b
    → Ensures (λ (y, c). (y ≡ x) × (contents c ≡ contents b)) (prepend_int h w b x >>= read_int h w)
read_int-prepend_int h w x b d fits v room =
    Ensures-bind (prepend_int-Holds h d w x fits b v room) λ c held.
      Ensures-weaken (read_int-network h d w x fits c (contents b) held.valid held.bytes)
        λ (y, e) (same, last). (same, last.bytes)

-- A byte put in front is read back, and the buffer holds what it held.
pub read_int8-prepend_int8 :
    (x : ℕ) (b : Buffer)
    → IsValid b
    → 1 ≤ prependable_bytes b
    → Ensures (λ (y, c). (y ≡ x ∷ []) × (contents c ≡ contents b)) (prepend_int8 b x >>= read_int8)
unfolding prepend_int8 read_int8 peek_int8
read_int8-prepend_int8 x b v room =
    Ensures-bind (prepend-Holds b (x ∷ []) v (omega arith)) λ c held.
      let size : 1 ≤ readable_bytes c =
        omega (arith, length-contents held.valid, ap length held.bytes) in
      let front : bytes_at c c.reader_index 1 ≡ x ∷ [] =
        bytes_at-take held.valid 1 size ∙ ap (take 1) held.bytes in
      rw (le→leb 1 (readable_bytes c) size, front)
        (Ensures-bind (retrieve-Holds c 1 held.valid size)
          λ e last. returned (refl, last.bytes ∙ ap (drop 1) held.bytes))
