-- ===== src/AsyncLogging/Stopped.antt =====
-- The end of the thread of sznet/log/AsyncLogging.cpp.
use sznet.Base.{ℕ, ◌≡◌, refl, ap, ◌∙◌, sym, subst, false, List, ◌++◌}
use sznet.Run.{Ensures, returned}
use sznet.AsyncLogging.{testing, ended, AsyncLogging, concat, advance, Reachable}
use sznet.AsyncLogging.Conserved.{batch_of, Reachable-in_order}

-- The thread has ended, and these bytes are in no file.
pub record Lost (a : AsyncLogging) (bytes : List ℕ) (a' : AsyncLogging) : Type 0 where
  pub phase : a'.phase ≡ ended
  pub file : a'.file ≡ a.file
  pub unwritten : concat a'.buffers ++ a'.current ≡ bytes

module _ (notice : ℕ → List ℕ) (size : ℕ) where
  ends :
      (a : AsyncLogging)
      → a.running ≡ false
      → Ensures
          (Lost a (concat a.buffers ++ a.current))
          (advance notice (record a { phase = testing }))
  unfolding advance
  ends a off = rw off (
      returned {a = record a { running = false; phase = ended }}
        (record { phase = refl; file = refl; unwritten = refl }))

  -- After every history in which no batch had more than 25 buffers, if the thread tests m_running
  -- after a stop, it ends and writes nothing more: the lines that were logged after it last took
  -- the buffers are in no file.
  pub advance-Lost :
      {logged : List ℕ} {a : AsyncLogging}
      → Reachable notice size logged a
      → a.dropped ≡ 0
      → a.phase ≡ testing
      → a.running ≡ false
      → (logged ≡ a.file ++ (concat a.buffers ++ a.current))
        × Ensures (Lost a (concat a.buffers ++ a.current)) (advance notice a)
  unfolding concat
  advance-Lost {a = a} r none at off = (
    sym (Reachable-in_order size notice r none)
        ∙ ap (λ p. a.file ++ (concat (batch_of p) ++ (concat a.buffers ++ a.current))) at,
    subst
        (λ p.
          Ensures (Lost a (concat a.buffers ++ a.current))
            (advance notice (record a { phase = p })))
        (sym at) (ends a off),
  )
