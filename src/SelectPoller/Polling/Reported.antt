-- ===== src/SelectPoller/Polling/Reported.antt =====
-- What a `poll` of sznet/net/SelectPoller.cpp reports.
use sznet.Base.{ℕ, zero, suc, Bool, true, List, [], ◌∷◌, ◌++◌, map, ltb, if◌then◌else◌}
use sznet.Channel.{has, read_event, write_event}
use sznet.SelectPoller.{Event, SelectPoller}
use Prim.Native.Nat.{max}
use sznet.SelectPoller.Polling.{Sets, revents_of}

-- The descriptors of the channels.
abbrev pub named : SelectPoller → List (ℕ × ℕ) → List (ℕ × ℕ)
named p cs = map (λ (c, revents). ((p.memory c).fd, revents)) cs

module _ (p : SelectPoller) (rfds wfds efds : ℕ → Bool) where
  -- The descriptors of `k` entries from `i` on that are in a set, in their order, with what they are
  -- ready for.
  abbrev pub events_from : ℕ → ℕ → List (ℕ × ℕ)
  events_from i zero = []
  events_from i (suc k) =
      let fd = (p.pollfds i).fd in
      let rest = events_from (suc i) k in
      let revents = revents_of p rfds wfds efds fd in
      if ltb 0 revents then (fd, revents) ∷ rest else rest

-- The descriptors of `k` entries from `i` on that a test lets in.
abbrev pub asked : (Event → Bool) → (ℕ → Event) → ℕ → ℕ → List ℕ
asked wants pollfds i zero = []
asked wants pollfds i (suc k) =
    let rest = asked wants pollfds (suc i) k in
    if wants (pollfds i) then (pollfds i).fd ∷ rest else rest

-- The greatest descriptor of `k` entries from `i` on, or `least` if that is greater.
abbrev pub greatest : (ℕ → Event) → ℕ → ℕ → ℕ → ℕ
greatest pollfds i zero least = least
greatest pollfds i (suc k) least = greatest pollfds (suc i) k (max least (pollfds i).fd)

-- What an entry adds.
abbrev with_entry : Event → Sets → Sets
with_entry e s = record {
  reads = if has e.ev read_event then s.reads ++ e.fd ∷ [] else s.reads;
  writes = if has e.ev write_event then s.writes ++ e.fd ∷ [] else s.writes;
  errors = s.errors ++ e.fd ∷ [];
  maxfd = if ltb s.maxfd e.fd then e.fd else s.maxfd;
}

-- The sets of the entries behind what was there.
abbrev asked_sets : (ℕ → Event) → ℕ → ℕ → Sets → Sets
asked_sets pollfds i k s = record {
  reads = s.reads ++ asked (λ e. has e.ev read_event) pollfds i k;
  writes = s.writes ++ asked (λ e. has e.ev write_event) pollfds i k;
  errors = s.errors ++ asked (λ e. true) pollfds i k;
  maxfd = greatest pollfds i k s.maxfd;
}
