-- ===== src/Channel.antt =====
-- sznet/net/Channel.h and Channel.cpp: the events that a channel asks for, and the callbacks that it
-- calls for the events that came. A set of events is its number, with a bit for each event.
pub mod Interest
pub mod Order
mod Tests
use sznet.Base.{
  ℕ, ◌+◌, ◌-◌, ◌/◌, ◌%◌, Bool, true, false, not, ◌&&◌, ◌||◌, List, [], ◌∷◌, ◌++◌, ◌==◌,
  if◌then◌else◌,
}

abbrev pub none_event : ℕ
none_event = 0

abbrev pub read_event : ℕ
read_event = 1

abbrev pub pri_event : ℕ
pri_event = 2

abbrev pub rd_hup_event : ℕ
rd_hup_event = 4

abbrev pub write_event : ℕ
write_event = 8

abbrev pub error_event : ℕ
error_event = 16

abbrev pub hup_event : ℕ
hup_event = 32

abbrev pub nval_event : ℕ
nval_event = 64

-- `events & event`, `events |= event` and `events &= ~event`, for an event with one bit
abbrev pub has : ℕ → ℕ → Bool
has events event = events / event % 2 == 1

abbrev pub set : ℕ → ℕ → ℕ
set events event = if has events event then events else events + event

abbrev pub clear : ℕ → ℕ → ℕ
clear events event = if has events event then events - event else events

-- A change of the events; each is followed by an update of the poller.
pub data Change : Type 0 where
  enable_reading disable_reading enable_writing disable_writing disable_all : Change

abbrev pub change : ℕ → Change → ℕ
change events enable_reading = set events read_event
change events disable_reading = clear events read_event
change events enable_writing = set events write_event
change events disable_writing = clear events write_event
change events disable_all = none_event

abbrev pub change_all : ℕ → List Change → ℕ
change_all events [] = events
change_all events (c ∷ cs) = change_all (change events c) cs

abbrev pub is_reading : ℕ → Bool
is_reading events = has events read_event

abbrev pub is_writing : ℕ → Bool
is_writing events = has events write_event

abbrev pub is_none_event : ℕ → Bool
is_none_event events = events == none_event

pub data Callback : Type 0 where
  close_callback error_callback read_callback write_callback : Callback

-- Which callbacks are set.
pub record Callbacks : Type 0 where
  pub close : Bool
  pub error : Bool
  pub read : Bool
  pub write : Bool

abbrev pub call_if : Bool → Callback → List Callback
call_if b c = if b then c ∷ [] else []

pub handle_event_with_guard : Callbacks → ℕ → List Callback
handle_event_with_guard handlers revents =
    call_if ((has revents hup_event && not (has revents read_event)) && handlers.close)
      close_callback
    ++ (call_if ((has revents error_event || has revents nval_event) && handlers.error)
          error_callback
        ++ (call_if
              ((has revents read_event || (has revents pri_event || has revents rd_hup_event))
                && handlers.read)
              read_callback
            ++ call_if (has revents write_event && handlers.write) write_callback))

-- `tied` is `m_tied`, and `alive` tells whether the object that the channel is tied to exists still.
pub handle_event : Bool → Bool → Callbacks → ℕ → List Callback
handle_event tied alive handlers revents =
    if tied
    then (if alive then handle_event_with_guard handlers revents else [])
    else handle_event_with_guard handlers revents
