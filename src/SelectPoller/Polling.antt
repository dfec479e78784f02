-- ===== src/SelectPoller/Polling.antt =====
-- `poll` and `fillActiveChannels` of sznet/net/SelectPoller.cpp. What `select` does is a parameter.
pub mod Reported
use sznet.Base.{
  ℕ, zero, suc, ◌+◌, ◌-◌, Bool, true, false, Option, none, some, List, [], ◌∷◌, ◌++◌, ltb, ◌==◌,
  if◌then◌else◌,
}
use sznet.Run.{Run, ok, abort, ◌>>=◌, ◌>>◌, assert, within}
use sznet.Channel.{has, read_event, write_event, error_event}
use sznet.SelectPoller.{Event, SelectPoller}

-- The number that `select` returns, and what is left in its sets.
pub data Selected : Type 0 where
  ready : (num_events : ℕ) (rfds wfds efds : ℕ → Bool) → Selected
  timed_out select_error : Selected

-- What the loop over the entries sets: the descriptors in the sets of `select`, in the order of the
-- entries, and the greatest one.
pub record Sets : Type 0 where
  pub reads : List ℕ
  pub writes : List ℕ
  pub errors : List ℕ
  pub maxfd : ℕ

abbrev pub no_sets : Sets
no_sets = record { reads = []; writes = []; errors = []; maxfd = 0 }

-- `FD_SET`, of a set with `setsize` places: nothing else is inside it.
pub fd_set : ℕ → ℕ → List ℕ → Run (List ℕ)
fd_set setsize fd fds = within (ltb fd setsize) >> ok (fds ++ fd ∷ [])

-- Errors are watched for every descriptor: the test for no events never holds.
pub add_entry : ℕ → Event → Sets → Run Sets
add_entry setsize e s = do
  reads ← if has e.ev read_event then fd_set setsize e.fd s.reads else ok s.reads
  writes ← if has e.ev write_event then fd_set setsize e.fd s.writes else ok s.writes
  errors ← fd_set setsize e.fd s.errors
  ok (record {
    reads = reads;
    writes = writes;
    errors = errors;
    maxfd = if ltb s.maxfd e.fd then e.fd else s.maxfd;
  })

-- The loop over `k` entries from `i` on.
pub fill_sets : ℕ → (ℕ → Event) → ℕ → ℕ → Sets → Run Sets
fill_sets setsize pollfds i zero s = ok s
fill_sets setsize pollfds i (suc k) s =
    add_entry setsize (pollfds i) s >>= fill_sets setsize pollfds (suc i) k

module _ (p : SelectPoller) (rfds wfds efds : ℕ → Bool) where
  abbrev pub revents_of : ℕ → ℕ
  revents_of fd =
      (if rfds fd then read_event else 0)
      + (if wfds fd then write_event else 0)
      + (if efds fd then error_event else 0)

  -- The channels of `k` entries from `i` on, each with its events, while `num_events` is positive.
  pub fill_active_channels : ℕ → ℕ → ℕ → Run (List (ℕ × ℕ))
  fill_active_channels i zero num_events = ok []
  fill_active_channels i (suc k) num_events =
      let fd = (p.pollfds i).fd in
      let revents = revents_of fd in
      let passed = fill_active_channels (suc i) k num_events in
      let rest = fill_active_channels (suc i) k (num_events - 1) in
      let active : Run (List (ℕ × ℕ)) = elim (p.channels fd) [
        | none ↦ abort
        | some c ↦ assert ((p.memory c).fd == fd) >> (rest >>= λ cs. ok ((c, revents) ∷ cs))
      ] in
      if num_events == 0 then ok [] else (if ltb 0 revents then active else passed)

-- `select` is given how many descriptors to look at and the sets; `setsize` is FD_SETSIZE.
pub poll : ℕ → (ℕ → List ℕ → List ℕ → List ℕ → Selected) → SelectPoller → Run (List (ℕ × ℕ))
poll setsize select p =
    let selected : Run (List (ℕ × ℕ)) = do
      s ← fill_sets setsize p.pollfds 0 p.size no_sets
      elim (select (suc s.maxfd) s.reads s.writes s.errors) [
        | ready n rfds wfds efds ↦ fill_active_channels p rfds wfds efds 0 p.size n
        | timed_out ↦ ok []
        | select_error ↦ ok []
      ]
    in if p.size == 0 then ok [] else selected
