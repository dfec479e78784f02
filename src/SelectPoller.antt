-- ===== src/SelectPoller.antt =====
-- sznet/net/SelectPoller.cpp: the descriptors that the poller watches, and the index that each
-- channel keeps of its own.
-- A channel stands in memory under its address. `pollfds` is the memory of the vector `m_pollfds`,
-- `index` is `none` for -1, and `channels` is `m_channels`.
pub mod Watched
pub mod Polling
mod Tests
use sznet.Base.{
  ℕ, suc, ◌+◌, ◌-◌, Bool, true, false, not, Option, none, some, ltb, ◌==◌, if◌then◌else◌,
}
use sznet.Run.{Run, ok, abort, fault, ◌>>=◌, ◌>>◌, assert}
use sznet.MinHeap.{update}

pub record Channel : Type 0 where
  pub fd : ℕ
  pub events : ℕ
  pub index : Option ℕ

-- `Channel::Event_t`
pub record Event : Type 0 where
  pub fd : ℕ
  pub ev : ℕ

pub record SelectPoller : Type 0 where
  pub pollfds : ℕ → Event
  pub size : ℕ
  pub channels : ℕ → Option ℕ
  pub memory : ℕ → Channel

abbrev pub is_found : Option ℕ → Bool
is_found none = false
is_found (some d) = true

abbrev pub is_channel : Option ℕ → ℕ → Bool
is_channel none c = false
is_channel (some d) c = d == c

abbrev pub set_index : (ℕ → Channel) → ℕ → ℕ → ℕ → Channel
set_index memory c i = update memory c (record (memory c) { index = some i })

abbrev pub has_channel : SelectPoller → ℕ → Bool
has_channel p c = is_channel (p.channels (p.memory c).fd) c

pub update_channel : SelectPoller → ℕ → Run SelectPoller
update_channel p c =
    let channel = p.memory c in
    let event : Event = record { fd = channel.fd; ev = channel.events } in
    elim channel.index [
      | none ↦
          assert (not (is_found (p.channels channel.fd)))
          >> ok (record p {
            pollfds = update p.pollfds p.size event;
            size = suc p.size;
            channels = update p.channels channel.fd (some c);
            memory = set_index p.memory c p.size;
          })
      | some i ↦ do
        assert (is_found (p.channels channel.fd))
        assert (is_channel (p.channels channel.fd) c)
        assert (ltb i p.size)
        assert ((p.pollfds i).fd == channel.fd)
        ok (record p { pollfds = update p.pollfds i event })
    ]

-- The index of a channel that is removed stays as it is.
pub remove_channel : SelectPoller → ℕ → Run SelectPoller
remove_channel p c =
    let channel = p.memory c in
    let erased = update p.channels channel.fd none in
    let at_end = p.pollfds (p.size - 1) in
    elim channel.index [
      | none ↦ abort
      | some i ↦
          let popped : Run SelectPoller = ok (record p { channels = erased; size = p.size - 1 }) in
          let swapped : Run SelectPoller = elim (erased at_end.fd) [
            | none ↦ fault
            | some d ↦ ok (record p {
              pollfds = update p.pollfds i at_end;
              channels = erased;
              size = p.size - 1;
              memory = set_index p.memory d i;
            })
          ] in
          do
            assert (is_found (p.channels channel.fd))
            assert (is_channel (p.channels channel.fd) c)
            assert (channel.events == 0)
            assert (ltb i p.size)
            assert ((p.pollfds i).ev == channel.events)
            if i == p.size - 1 then popped else swapped
    ]
