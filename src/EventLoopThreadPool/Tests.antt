-- ===== src/EventLoopThreadPool/Tests.antt =====
-- The theorem about sznet/net/EventLoopThreadPool.cpp at a pool of three loops.
use sznet.Base.{◌≡◌, refl, true, [], ◌∷◌, take, arith}
use sznet.Run.{Ensures}
use sznet.EventLoopThreadPool.{EventLoopThreadPool}
use sznet.EventLoopThreadPool.Rounds.{IsValid, rotation, get_next_loops, get_next_loops-rotation}

-- The second loop is next.
abbrev three : EventLoopThreadPool
three = record {
  base_loop = 0;
  started = true;
  num_threads = 3;
  next = 1;
  loops = 11 ∷ 12 ∷ 13 ∷ [];
}

rotation_run : rotation three ≡ 12 ∷ 13 ∷ 11 ∷ []
rotation_run = refl

get_next_loops-rotation_example :
    Ensures
      (λ (xs, p). (xs ≡ take 3 (rotation three)) × (IsValid p × (p.loops ≡ three.loops)))
      (get_next_loops 3 three)
get_next_loops-rotation_example =
    get_next_loops-rotation 3 three (record { started = refl; inside = omega arith }) (omega arith)
