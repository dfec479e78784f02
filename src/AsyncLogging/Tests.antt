-- ===== src/AsyncLogging/Tests.antt =====
-- The theorems about sznet/log/AsyncLogging.cpp at a concrete history.
use sznet.Base.{ℕ, ◌≡◌, refl, false, List, [], ◌∷◌}
use sznet.Run.{Ensures}
use sznet.AsyncLogging.{
  AsyncLogging, new, append, concat, write_batch, advance, logs, advances, stops, Reachable, start,
  next,
}
use sznet.AsyncLogging.Conserved.{IsValid, all_logged, advance-all_logged}

abbrev no_notice : ℕ → List ℕ
no_notice n = []

-- The thread was told to stop while it wrote "12", and "3" came after that.
abbrev stopped : AsyncLogging
stopped = record new { running = false; file = 1 ∷ 2 ∷ []; current = 3 ∷ [] }

at_stopped : Reachable no_notice 4 (1 ∷ 2 ∷ 3 ∷ []) stopped
unfolding append advance write_batch concat
at_stopped =
    next
      (next
        (next (next (next (next start (logs (1 ∷ 2 ∷ []) refl)) (advances refl)) (advances refl))
          stops)
        (logs (3 ∷ []) refl))
      (advances refl)

advance-all_logged_example :
    (all_logged stopped ≡ 1 ∷ 2 ∷ 3 ∷ []) × Ensures (IsValid 4) (advance no_notice stopped)
advance-all_logged_example = advance-all_logged 4 no_notice at_stopped refl
