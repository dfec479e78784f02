-- ===== src/Channel/Tests.antt =====
-- Runs of sznet/net/Channel.cpp.
use sznet.Base.{◌≡◌, refl, true, false, [], ◌∷◌}
use sznet.Channel.{
  Callbacks, close_callback, read_callback, write_callback, handle_event, handle_event_with_guard,
}

abbrev all_set : Callbacks
all_set = record { close = true; error = true; read = true; write = true }

-- A peer that hung up: with bytes left to read it is not closed yet.
hup_run :
    (handle_event true true all_set 32 ≡ close_callback ∷ [])
    × ((handle_event true true all_set 41 ≡ read_callback ∷ write_callback ∷ [])
        × (handle_event true false all_set 41 ≡ []))
unfolding handle_event handle_event_with_guard
hup_run = (refl, (refl, refl))
