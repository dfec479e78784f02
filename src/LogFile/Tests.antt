-- ===== src/LogFile/Tests.antt =====
-- The theorem about sznet/log/LogFile.cpp at a concrete history.
use sznet.Base.{◌+◌, ◌≡◌, refl, List, [], ◌∷◌, ◌++◌, arith}
use sznet.Run.{ok, ◌>>=◌, Ensures}
use sznet.LogFile.{
  new, append, append_unlocked, write_rest, roll_if_due, roll_file, open_file, flush_if_due, flush,
}
use sznet.LogFile.Rolled.{
  joined, AllSized, Line, AllWritable, AllLater, append_lines, append_lines-Logged, texts,
}

-- Three bytes in two pieces; three more, for which a file is opened; and two for which it is opened again
-- in the same second.
abbrev three_lines : List Line
three_lines =
    record { now = 100; roll_now = 100; ws = 2 ∷ 4 ∷ 4 ∷ []; text = 7 ∷ 8 ∷ 9 ∷ [] }
    ∷ record { now = 101; roll_now = 101; ws = 9 ∷ 9 ∷ 9 ∷ []; text = 1 ∷ 2 ∷ 3 ∷ [] }
    ∷ record { now = 101; roll_now = 101; ws = 9 ∷ 9 ∷ []; text = 5 ∷ 6 ∷ [] }
    ∷ []

-- The second file is longer than the roll size and the limit together.
files_run :
    (append_lines (λ t. t) three_lines (new (λ t. t) 1 3 100) >>= λ l. ok (l.closed ++ l.file ∷ []))
    ≡ ok (
        record { name = 100; contents = 7 ∷ 8 ∷ 9 ∷ []; earlier = 0; times = 0; written_bytes = 3 }
        ∷ record {
          name = 101;
          contents = 1 ∷ 2 ∷ 3 ∷ 5 ∷ 6 ∷ [];
          earlier = 3;
          times = 1;
          written_bytes = 2;
        }
        ∷ [])
unfolding append append_unlocked write_rest roll_if_due roll_file open_file flush_if_due flush
files_run = refl

three_lines-AllWritable : AllWritable 3 three_lines
three_lines-AllWritable = (
  record {
    positive = (omega arith, (omega arith, (omega arith, tt)));
    enough = omega arith;
    short = omega arith;
  },
  (
    record {
      positive = (omega arith, (omega arith, (omega arith, tt)));
      enough = omega arith;
      short = omega arith;
    },
    (
      record {
        positive = (omega arith, (omega arith, tt));
        enough = omega arith;
        short = omega arith;
      },
      tt,
    ),
  ),
)

three_lines-AllLater : AllLater 100 three_lines
three_lines-AllLater = (omega arith, (omega arith, (omega arith, tt)))

append_lines-Logged_example :
    Ensures
      (λ l.
        (joined (l.closed ++ l.file ∷ []) ≡ texts three_lines)
        × AllSized (1 + 3) (l.closed ++ l.file ∷ []))
      (append_lines (λ t. t) three_lines (new (λ t. t) 1 3 100))
append_lines-Logged_example =
    append_lines-Logged (λ t. t) (λ s t h. h) 1 3 100 3 three_lines three_lines-AllWritable
      three_lines-AllLater
