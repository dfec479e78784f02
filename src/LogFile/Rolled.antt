-- ===== src/LogFile/Rolled.antt =====
-- The files of sznet/log/LogFile.cpp.
use sznet.Base.{
  ℕ, suc, ◌+◌, ◌*◌, ◌≤◌, ◌<◌, if◌then◌else◌, ◌≡◌, refl, subst, sym, ap, ◌∙◌, not, false, List, [],
  ◌∷◌, ◌++◌, ltb, ◌==◌, length, length-append, append_assoc, append-nil, arith, Bool-cases, inl,
  inr,
}
use sznet.Run.{Run, ok, ◌>>=◌, Ensures, returned, Ensures-bind, Ensures-weaken, Ensures-if}
use sznet.LogFile.{
  AppendFile, LogFile, new, new_file, reopened, open_file, period, roll_file, flush, roll_if_due,
  flush_if_due, append_unlocked,
}
use sznet.LogFile.Written.{AllPositive, label, append-Written}

-- All that the files hold, in order.
abbrev pub joined : List AppendFile → List ℕ
joined [] = []
joined (f ∷ fs) = f.contents ++ joined fs

joined-last :
    (fs : List AppendFile) (f : AppendFile) → joined (fs ++ f ∷ []) ≡ joined fs ++ f.contents
joined-last [] f = append-nil f.contents
joined-last (g ∷ fs) f =
    ap (◌++◌ g.contents) (joined-last fs f) ∙ sym (append_assoc g.contents (joined fs) f.contents)

joined-reopened :
    (fs : List AppendFile) (f : AppendFile) → joined (fs ++ reopened f ∷ []) ≡ joined (fs ++ f ∷ [])
joined-reopened [] f = refl
joined-reopened (g ∷ fs) f = ap (◌++◌ g.contents) (joined-reopened fs f)

-- The file counts its bytes since it was opened, at most so many, and as many were there at most for
-- each earlier opening.
pub record Sized (bound : ℕ) (f : AppendFile) : Type 0 where
  pub counted : length f.contents ≡ f.earlier + f.written_bytes
  pub small : f.written_bytes ≤ bound
  pub old : f.earlier ≤ f.times * bound

abbrev pub AllSized : ℕ → List AppendFile → Type 0
AllSized bound [] = Unit
AllSized bound (f ∷ fs) = Sized bound f × AllSized bound fs

AllSized-last :
    (bound : ℕ) (fs : List AppendFile) (f : AppendFile)
    → AllSized bound fs
    → Sized bound f
    → AllSized bound (fs ++ f ∷ [])
AllSized-last bound [] f a s = (s, tt)
AllSized-last bound (g ∷ fs) f (h, a) s = (h, AllSized-last bound fs f a s)

-- The names of the files are below this one.
abbrev AllBelow : ℕ → List AppendFile → Type 0
AllBelow n [] = Unit
AllBelow n (f ∷ fs) = (f.name < n) × AllBelow n fs

AllBelow-weaken : (m n : ℕ) (fs : List AppendFile) → m ≤ n → AllBelow m fs → AllBelow n fs
AllBelow-weaken m n [] h b = tt
AllBelow-weaken m n (f ∷ fs) h (below, b) = (omega (arith, below, h), AllBelow-weaken m n fs h b)

AllBelow-last :
    (n : ℕ) (fs : List AppendFile) (f : AppendFile)
    → AllBelow n fs
    → f.name < n
    → AllBelow n (fs ++ f ∷ [])
AllBelow-last n [] f b h = (h, tt)
AllBelow-last n (g ∷ fs) f (below, b) h = (below, AllBelow-last n fs f b h)

-- The file in use is the only one that may have a name that is not below it.
open_file-last :
    (n : ℕ) (fs : List AppendFile) (f : AppendFile)
    → AllBelow f.name fs
    → f.name ≤ n
    → open_file n (fs ++ f ∷ [])
      ≡ (if f.name == n then (reopened f, fs) else (new_file n, fs ++ f ∷ []))
unfolding open_file
open_file-last n [] f b h = refl
open_file-last n (g ∷ fs) f (below, b) h =
    let apart : (g.name == n) ≡ false = ground (arith, below, h) in
    rw (apart, open_file-last n fs f b h, open_file)
      (elim (Bool-cases (f.name == n)) [ inl e ↦ rw e refl | inr e ↦ rw e refl ])

-- The files hold these bytes, each opening at most `bound` of them, and the names have grown up to `top`.
pub record Logged (bound top : ℕ) (bytes : List ℕ) (l : LogFile) : Type 0 where
  pub all_bytes : joined (l.closed ++ l.file ∷ []) ≡ bytes
  pub before : AllSized bound l.closed
  pub now : Sized bound l.file
  pub below : AllBelow l.file.name l.closed
  pub named : l.file.name ≤ top

-- A new file is there, or the one in use is not too long.
record IsReady (bound top : ℕ) (bytes : List ℕ) (l0 l : LogFile) : Type 0 where
  pub logged : Logged bound top bytes l
  pub room : l.file.written_bytes ≤ l0.roll_size
  pub size : l.roll_size ≡ l0.roll_size

Logged-weaken :
    (bound top later : ℕ) (bytes : List ℕ) (l : LogFile)
    → top ≤ later
    → Logged bound top bytes l
    → Logged bound later bytes l
Logged-weaken bound top later bytes l h g = record {
  all_bytes = g.all_bytes;
  before = g.before;
  now = g.now;
  below = g.below;
  named = omega (arith, g.named, h);
}

Sized-reopened : (bound : ℕ) (f : AppendFile) → Sized bound f → Sized bound (reopened f)
Sized-reopened bound f s = record {
  counted = omega arith;
  small = omega arith;
  old = omega (arith, s.counted, s.small, s.old);
}

Sized-new : (bound n : ℕ) → Sized bound (new_file n)
Sized-new bound n = record { counted = refl; small = omega arith; old = omega arith }

-- A flush changes neither the files nor their bound.
flush_if_due-Logged :
    (bound top : ℕ) (bytes : List ℕ) (l : LogFile) (now : ℕ)
    → Logged bound top bytes l
    → Logged bound top bytes (flush_if_due l now) × ((flush_if_due l now).roll_size ≡ l.roll_size)
unfolding flush_if_due flush
flush_if_due-Logged bound top bytes l now g =
    elim (Bool-cases (ltb (l.last_flush + l.flush_interval) now)) [
      | inl e ↦ rw e (
        record {
          all_bytes = g.all_bytes;
          before = g.before;
          now = g.now;
          below = g.below;
          named = g.named;
        },
        refl,
      )
      | inr e ↦ rw e (g, refl)
    ]

-- A line that is appended, with the answers of fwrite for it.
pub record Line : Type 0 where
  pub now : ℕ
  pub roll_now : ℕ
  pub ws : List ℕ
  pub text : List ℕ

-- fwrite takes a byte at least each time, often enough for the line.
pub record IsWritable (limit : ℕ) (line : Line) : Type 0 where
  pub positive : AllPositive line.ws
  pub enough : length line.text ≤ length line.ws
  pub short : length line.text ≤ limit

abbrev pub AllWritable : ℕ → List Line → Type 0
AllWritable limit [] = Unit
AllWritable limit (line ∷ lines) = IsWritable limit line × AllWritable limit lines

-- The times at which files may be opened do not go back.
abbrev pub AllLater : ℕ → List Line → Type 0
AllLater start [] = Unit
AllLater start (line ∷ lines) = (start ≤ line.roll_now) × AllLater line.roll_now lines

abbrev pub texts : List Line → List ℕ
texts [] = []
texts (line ∷ lines) = line.text ++ texts lines

module _ (name : ℕ → ℕ) where
  abbrev pub append_lines : List Line → LogFile → Run LogFile
  append_lines [] l = ok l
  append_lines (line ∷ lines) l =
      append_unlocked name l line.now line.roll_now line.ws line.text >>= append_lines lines

  roll_file-IsReady :
      (bound : ℕ) (bytes : List ℕ) (l : LogFile) (now : ℕ)
      → Logged bound (name now) bytes l
      → IsReady bound (name now) bytes l (roll_file name l now)
  unfolding roll_file
  roll_file-IsReady bound bytes l now g =
      let opened = open_file-last (name now) l.closed l.file g.below g.named in
      elim (Bool-cases (l.file.name == name now)) [
        | inl e ↦
            rw (opened, e)
              (record {
                logged = record {
                  all_bytes = joined-reopened l.closed l.file ∙ g.all_bytes;
                  before = g.before;
                  now = Sized-reopened bound l.file g.now;
                  below = g.below;
                  named = g.named;
                };
                room = omega arith;
                size = refl;
              })
        | inr e ↦
            rw (opened, e)
              (record {
                logged = record {
                  all_bytes =
                      joined-last (l.closed ++ l.file ∷ []) (new_file (name now))
                      ∙ append-nil (joined (l.closed ++ l.file ∷ []))
                      ∙ g.all_bytes;
                  before = AllSized-last bound l.closed l.file g.before g.now;
                  now = Sized-new bound (name now);
                  below =
                      AllBelow-last (name now) l.closed l.file
                        (AllBelow-weaken l.file.name (name now) l.closed g.named g.below)
                        (ground (arith, e, g.named));
                  named = omega arith;
                };
                room = omega arith;
                size = refl;
              })
      ]

  roll_if_due-IsReady :
      (bound : ℕ) (bytes : List ℕ) (l : LogFile) (now roll_now : ℕ)
      → Logged bound (name roll_now) bytes l
      → IsReady bound (name roll_now) bytes l (roll_if_due name l now roll_now)
  unfolding roll_if_due
  roll_if_due-IsReady bound bytes l now roll_now g =
      elim (Bool-cases (not (period now == l.start_of_period))) [
        | inl e ↦ rw e (roll_file-IsReady bound bytes l roll_now g)
        | inr e ↦ elim (Bool-cases (ltb l.roll_size l.file.written_bytes)) [
          | inl long ↦ rw (e, long) (roll_file-IsReady bound bytes l roll_now g)
          | inr short ↦
              rw (e, short) (record { logged = g; room = ground (arith, short); size = refl })
        ]
      ]

  append_unlocked-Logged :
      (limit : ℕ) (bytes : List ℕ) (l : LogFile) (line : Line)
      → Logged (l.roll_size + limit) (name line.roll_now) bytes l
      → IsWritable limit line
      → Ensures
          (λ l'.
            Logged (l.roll_size + limit) (name line.roll_now) (bytes ++ line.text) l'
            × (l'.roll_size ≡ l.roll_size))
          (append_unlocked name l line.now line.roll_now line.ws line.text)
  unfolding append_unlocked
  append_unlocked-Logged limit bytes l line g w =
      let due = roll_if_due name l line.now line.roll_now in
      let r = roll_if_due-IsReady (l.roll_size + limit) bytes l line.now line.roll_now g in
      Ensures-bind
        (Ensures-if
          {P = λ f.
            (f.contents ≡ due.file.contents ++ line.text)
            × (f.written_bytes ≡ due.file.written_bytes + length line.text)
            × (label f ≡ label due.file)}
          (ltb 0 (length line.text))
          (λ some.
            append-Written line.ws due.file line.text w.positive (ground (arith, some)) w.enough)
          λ none.
            let nothing = no_text line.text none in
            returned (rw nothing (sym (append-nil due.file.contents)), ground (arith, none), refl))
        λ file (contents, counted, same).
          let written = record due { count = suc due.count; file = file } in
          let logged : Logged (l.roll_size + limit) (name line.roll_now) (bytes ++ line.text)
              written =
            record {
              all_bytes =
                  joined-last due.closed file
                  ∙ ap (◌++◌ (joined due.closed)) contents
                  ∙ sym (append_assoc (joined due.closed) due.file.contents line.text)
                  ∙ ap (λ b. b ++ line.text)
                      (sym (joined-last due.closed due.file) ∙ r.logged.all_bytes);
              before = r.logged.before;
              now = record {
                counted =
                    ap length contents
                    ∙ length-append due.file.contents line.text
                    ∙ omega (arith, r.logged.now.counted, counted, ap (λ x. x.1) same);
                small = omega (arith, counted, r.room, w.short);
                old = rw (ap (λ x. x.1) same, ap (λ x. x.2) same) r.logged.now.old;
              };
              below = rw (ap (λ x. x.0) same) r.logged.below;
              named = rw (ap (λ x. x.0) same) r.logged.named;
            } in
          let (kept, size) =
            flush_if_due-Logged (l.roll_size + limit) (name line.roll_now) (bytes ++ line.text)
              written line.now logged in
          returned (kept, size ∙ r.size)
    where
      no_text : (text : List ℕ) → ltb 0 (length text) ≡ false → text ≡ []
      no_text [] e = refl
      no_text (b ∷ bs) e = absurd (ground (arith, e))

  module _ (monotone : (s t : ℕ) → s ≤ t → name s ≤ name t) where
    append_lines-from :
        (limit roll_size start : ℕ) (lines : List Line) (bytes : List ℕ) (l : LogFile)
        → l.roll_size ≡ roll_size
        → Logged (roll_size + limit) (name start) bytes l
        → AllWritable limit lines
        → AllLater start lines
        → Ensures
            (λ l'. (top : ℕ) × Logged (roll_size + limit) top (bytes ++ texts lines) l')
            (append_lines lines l)
    append_lines-from limit roll_size start [] bytes l size g w later =
        returned (name start, rw (append-nil bytes) g)
    append_lines-from limit roll_size start (line ∷ lines) bytes l size g (now, w) (next, later) =
        let g' =
          Logged-weaken (roll_size + limit) (name start) (name line.roll_now) bytes l
            (monotone start line.roll_now next) g in
        Ensures-bind
          (append_unlocked-Logged limit bytes l line
            (subst (λ k. Logged (k + limit) (name line.roll_now) bytes l) (sym size) g') now)
          λ l' (g2, same).
            Ensures-weaken
              (append_lines-from limit roll_size line.roll_now lines (bytes ++ line.text) l'
                (same ∙ size)
                (subst (λ k. Logged (k + limit) (name line.roll_now) (bytes ++ line.text) l') size
                  g2)
                w later)
              λ l'' (top, g3). (top, rw⁻¹ (append_assoc bytes line.text (texts lines)) g3)

    -- If fwrite takes a byte at least each time and is asked often enough, no line is longer than
    -- a limit, the times of opening a file and the names for them do not go back, and no file
    -- with such a name is there at first, any number of appends returns: the files hold all
    -- lines, in order; each file counts its bytes since it was last opened, and they are at most
    -- the roll size and this limit; and what it held then is at most as many for each earlier
    -- opening of it.
    pub append_lines-Logged :
        (roll_size flush_interval start limit : ℕ) (lines : List Line)
        → AllWritable limit lines
        → AllLater start lines
        → Ensures
            (λ l.
              (joined (l.closed ++ l.file ∷ []) ≡ texts lines)
              × AllSized (roll_size + limit) (l.closed ++ l.file ∷ []))
            (append_lines lines (new name roll_size flush_interval start))
    append_lines-Logged roll_size flush_interval start limit lines w later =
        Ensures-weaken
          (append_lines-from limit roll_size start lines []
            (new name roll_size flush_interval start) refl
            (record {
              all_bytes = refl;
              before = tt;
              now = Sized-new (roll_size + limit) (name start);
              below = tt;
              named = omega arith;
            })
            w later)
          λ l (top, g).
            (g.all_bytes, AllSized-last (roll_size + limit) l.closed l.file g.before g.now)
