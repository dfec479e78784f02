-- ===== src/AsyncLogging.antt =====
-- sznet/log/AsyncLogging.h and AsyncLogging.cpp: what threads log, and the thread that writes it. A buffer
-- is the text in it, as FixedBuffer keeps it; what goes to the file is in its order.
pub mod Conserved
pub mod Stopped
pub mod Filled
mod Tests
use sznet.Base.{
  ℕ, ◌+◌, ◌-◌, min, Bool, true, false, not, ◌||◌, List, [], ◌∷◌, ◌++◌, ltb, leb, ◌==◌,
  if◌then◌else◌, length, take, ◌≡◌,
}
use sznet.Run.{Run, ok, ◌>>=◌, ◌>>◌, assert}

-- The thread is at the test of `m_running`, waits for buffers, has a batch to write, or has ended.
pub data Phase : Type 0 where
  testing waiting : Phase
  writing : (spare_taken : Bool) (batch : List (List ℕ)) → Phase
  ended : Phase

-- `spare` tells whether `m_nextBuffer` is there; `dropped` counts the buffers that were not written.
pub record AsyncLogging : Type 0 where
  pub running : Bool
  pub current : List ℕ
  pub spare : Bool
  pub buffers : List (List ℕ)
  pub phase : Phase
  pub file : List ℕ
  pub dropped : ℕ

abbrev pub new : AsyncLogging
new = record {
  running = true;
  current = [];
  spare = true;
  buffers = [];
  phase = testing;
  file = [];
  dropped = 0;
}

-- `FixedBuffer::append` of a buffer of `size` bytes: it takes all or nothing.
abbrev pub fill : ℕ → List ℕ → List ℕ → List ℕ
fill size text line = if ltb (length line) (size - length text) then text ++ line else text

-- A full buffer is put aside for the thread, and the line goes to a fresh one.
abbrev pub change_buffer : ℕ → AsyncLogging → List ℕ → AsyncLogging
change_buffer size a line = record a {
  buffers = a.buffers ++ a.current ∷ [];
  spare = false;
  current = fill size [] line;
}

pub append : ℕ → AsyncLogging → List ℕ → Run AsyncLogging
append size a line = do
  assert (leb (length line) size)
  ok (
      if ltb (length line) (size - length a.current)
      then record a { current = fill size a.current line }
      else change_buffer size a line)

abbrev pub stop : AsyncLogging → AsyncLogging
stop a = record a { running = false }

pub concat : List (List ℕ) → List ℕ
concat [] = []
concat (b ∷ bs) = b ++ concat bs

-- What the thread takes with the mutex held: all buffers, the one in use among them. It leaves one of its
-- own, and another if the spare one is gone.
abbrev pub take_buffers : AsyncLogging → AsyncLogging
take_buffers a = record a {
  phase = writing (not a.spare) (a.buffers ++ a.current ∷ []);
  buffers = [];
  current = [];
  spare = true;
}

module _ (notice : ℕ → List ℕ) where
  -- With more than 25 buffers only a notice and the first two are written.
  pub write_batch : AsyncLogging → List (List ℕ) → AsyncLogging
  write_batch a batch =
      if ltb 25 (length batch)
      then record a {
        file = a.file ++ (notice (length batch - 2) ++ concat (take 2 batch));
        dropped = a.dropped + (length batch - 2);
      }
      else record a { file = a.file ++ concat batch }

  -- The next thing that the thread does. It keeps two of the buffers that it wrote, and gets back from
  -- them those that it gave away.
  pub advance : AsyncLogging → Run AsyncLogging
  advance a = elim a.phase [
    | testing ↦ ok (record a { phase = if a.running then waiting else ended })
    | waiting ↦ ok (take_buffers a)
    | writing spare_taken batch ↦ do
      assert (ltb 0 (length batch))
      assert (ltb 0 (min 2 (length batch)))
      assert (not spare_taken || ltb 0 (min 2 (length batch) - 1))
      ok (record (write_batch a batch) { phase = testing })
    | ended ↦ ok a
  ]

  -- A step of any thread, and the lines that it logs.
  pub data Step (size : ℕ) : AsyncLogging → List ℕ → AsyncLogging → Type 0 where
    logs :
        {a a' : AsyncLogging} (line : List ℕ)
        → append size a line ≡ ok a'
        → Step size a (if ltb (length line) size then line else []) a'
    advances : {a a' : AsyncLogging} → advance a ≡ ok a' → Step size a [] a'
    stops : {a : AsyncLogging} → Step size a [] (stop a)

  pub data Reachable (size : ℕ) : List ℕ → AsyncLogging → Type 0 where
    start : Reachable size [] new
    next :
        {logged more : List ℕ} {a a' : AsyncLogging}
        → Reachable size logged a
        → Step size a more a'
        → Reachable size (logged ++ more) a'
