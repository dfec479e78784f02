-- ===== src/LogFile.antt =====
-- sznet/log/LogFile.h and LogFile.cpp, and AppendFile of sznet/io/FileUtil.cpp. Times are seconds since
-- 1970, and each call of time is a parameter; `fwrite` answers by how many bytes it takes at most.
pub mod Written
pub mod Rolled
mod Tests
use sznet.Base.{
  ℕ, suc, ◌+◌, ◌*◌, ◌/◌, min, Bool, true, false, not, List, [], ◌∷◌, ◌++◌, ltb, ◌==◌, if◌then◌else◌,
  length, take, drop,
}
use sznet.Run.{Run, ok, out_of_fuel, ◌>>=◌, ◌>>◌}

-- A file under its name. `contents` is what went to it, `earlier` the length that it had when it was
-- last opened, and `times` how often it was opened before that. `written_bytes` is what the object
-- counts.
pub record AppendFile : Type 0 where
  pub name : ℕ
  pub contents : List ℕ
  pub earlier : ℕ
  pub times : ℕ
  pub written_bytes : ℕ

abbrev pub new_file : ℕ → AppendFile
new_file name = record { name = name; contents = []; earlier = 0; times = 0; written_bytes = 0 }

abbrev pub reopened : AppendFile → AppendFile
reopened f = record f { earlier = length f.contents; times = suc f.times; written_bytes = 0 }

-- A file that is opened for appending, out of those that are there. What the stream of the file before
-- keeps back is written when that is closed, before anything else is written.
pub open_file : ℕ → List AppendFile → AppendFile × List AppendFile
open_file name [] = (new_file name, [])
open_file name (f ∷ fs) =
    let (found, others) = open_file name fs in
    if f.name == name then (reopened f, fs) else (found, f ∷ others)

abbrev pub write : AppendFile → ℕ → List ℕ → ℕ × AppendFile
write f room line =
    let n = min room (length line) in (n, record f { contents = f.contents ++ take n line })

-- The loop of `append`, until all is written or nothing is taken.
pub write_rest : List ℕ → AppendFile → List ℕ → Run AppendFile
write_rest ws f [] = ok f
write_rest [] f (b ∷ bs) = out_of_fuel
write_rest (w ∷ ws) f (b ∷ bs) =
    let (x, taken) = write f w (b ∷ bs) in
    let rest = write_rest ws taken (drop x (b ∷ bs)) in if x == 0 then ok f else rest

-- All bytes are counted, whether they were written or not.
pub append : List ℕ → AppendFile → List ℕ → Run AppendFile
append [] f line = out_of_fuel
append (w ∷ ws) f line = do
  let (n, taken) = write f w line
  done ← write_rest ws taken (drop n line)
  ok (record done { written_bytes = done.written_bytes + length line })

abbrev pub roll_per_seconds : ℕ
roll_per_seconds = 60 * 60 * 24

-- The start of the day that a time is in.
abbrev pub period : ℕ → ℕ
period now = now / roll_per_seconds * roll_per_seconds

-- `closed` are the other files, in the order of their last lines, and `flushes` counts the flushes.
pub record LogFile : Type 0 where
  pub roll_size : ℕ
  pub flush_interval : ℕ
  pub count : ℕ
  pub start_of_period : ℕ
  pub last_roll : ℕ
  pub last_flush : ℕ
  pub file : AppendFile
  pub closed : List AppendFile
  pub flushes : ℕ

pub flush : LogFile → LogFile
flush l = record l { flushes = suc l.flushes }

pub flush_if_due : LogFile → ℕ → LogFile
flush_if_due l now =
    if ltb (l.last_flush + l.flush_interval) now then flush (record l { last_flush = now }) else l

-- `name` gives the name of the file for a second: its local time, the host and the process. At first
-- no such file is there.
module _ (name : ℕ → ℕ) where
  abbrev pub new : (roll_size flush_interval now : ℕ) → LogFile
  new roll_size flush_interval now = record {
    roll_size = roll_size;
    flush_interval = flush_interval;
    count = 0;
    start_of_period = period now;
    last_roll = now;
    last_flush = now;
    file = new_file (name now);
    closed = [];
    flushes = 0;
  }

  -- `now` is the time that getLogFileName asks for.
  pub roll_file : LogFile → ℕ → LogFile
  roll_file l now =
      let (file, closed) = open_file (name now) (l.closed ++ l.file ∷ []) in
      record l {
        count = 0;
        start_of_period = period now;
        last_roll = now;
        last_flush = now;
        file = file;
        closed = closed;
      }

  -- A new day, or a file that is too long, brings a new file.
  pub roll_if_due : LogFile → (now roll_now : ℕ) → LogFile
  roll_if_due l now roll_now =
      if not (period now == l.start_of_period)
      then roll_file l roll_now
      else (if ltb l.roll_size l.file.written_bytes then roll_file l roll_now else l)

  pub append_unlocked : LogFile → (now roll_now : ℕ) → List ℕ → List ℕ → Run LogFile
  append_unlocked l now roll_now ws line = do
    let due = roll_if_due l now roll_now
    let counted = record due { count = suc due.count }
    file ← if ltb 0 (length line) then append ws counted.file line else ok counted.file
    ok (flush_if_due (record counted { file = file }) now)
