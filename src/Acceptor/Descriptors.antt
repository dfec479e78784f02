-- ===== src/Acceptor/Descriptors.antt =====
-- The system calls that sznet/net/Acceptor.cpp makes, and their documented behaviour.
use sznet.Base.{ℕ, suc, zero, ◌<◌, ◌≡◌, ◌==◌, Bool, true, false, Option, some}

-- A descriptor, the error that there is no descriptor left, or another one.
pub data Answer : Type 0 where
  accepted : ℕ → Answer
  emfile other_error : Answer

-- `S` is the state of the system.
pub record Calls (S : Type 0) : Type 0 where
  pub accept : S → Answer × S
  pub open_null : S → Option ℕ × S
  pub close : ℕ → S → S

-- What an observer sees of a state: the clients that wait, the descriptors that are left, and whether
-- one is open.
pub record View (S : Type 0) : Type 0 where
  pub waiting : S → ℕ
  pub room : S → ℕ
  pub is_open : S → ℕ → Bool

module _ {S : Type 0} (v : View S) where
  -- What is open stays open.
  abbrev pub KeepsOpen : S → S → Type 0
  KeepsOpen s s' = (g : ℕ) → v.is_open s g ≡ true → v.is_open s' g ≡ true

  -- `accept` with room: a descriptor that was not open.
  pub record Accepts (s : S) (r : Answer × S) : Type 0 where
    pub fd : ℕ
    pub after : S
    pub answer : r ≡ (accepted fd, after)
    pub served : v.waiting s ≡ suc (v.waiting after)
    pub taken : v.room s ≡ suc (v.room after)
    pub new : v.is_open s fd ≡ false
    pub opened : v.is_open after fd ≡ true
    pub keeps : KeepsOpen s after

  -- `accept` without room
  pub record Refuses (s : S) (r : Answer × S) : Type 0 where
    pub after : S
    pub answer : r ≡ (emfile, after)
    pub same_waiting : v.waiting after ≡ v.waiting s
    pub same_room : v.room after ≡ v.room s
    pub keeps : KeepsOpen s after

  pub record Opens (s : S) (r : Option ℕ × S) : Type 0 where
    pub fd : ℕ
    pub after : S
    pub answer : r ≡ (some fd, after)
    pub same_waiting : v.waiting after ≡ v.waiting s
    pub taken : v.room s ≡ suc (v.room after)
    pub opened : v.is_open after fd ≡ true

  -- `close` of a descriptor that is open
  pub record Closes (fd : ℕ) (s s' : S) : Type 0 where
    pub same_waiting : v.waiting s' ≡ v.waiting s
    pub given : v.room s' ≡ suc (v.room s)
    pub keeps : (g : ℕ) → (g == fd) ≡ false → v.is_open s g ≡ true → v.is_open s' g ≡ true

  pub record IsDocumented (sys : Calls S) : Type 0 where
    pub accepts : (s : S) → zero < v.waiting s → zero < v.room s → Accepts s (sys.accept s)
    pub refuses : (s : S) → zero < v.waiting s → v.room s ≡ zero → Refuses s (sys.accept s)
    pub opens : (s : S) → zero < v.room s → Opens s (sys.open_null s)
    pub closes : (s : S) (fd : ℕ) → v.is_open s fd ≡ true → Closes fd s (sys.close fd s)
