-- ===== src/Connector/Tests.antt =====
-- The theorems about sznet/net/Connector.cpp at a concrete history.
use sznet.Base.{◌≡◌, refl, true, false}
use sznet.Run.{abort, ◌>>=◌}
use sznet.Connector.{
  connecting, goes_on, try_later, Connector, new, start, start_in_loop, connect_socket,
  start_connecting, retry, stop, run_next, Reachable, first, next, starts, fires,
}
use sznet.Connector.Invariant.{IsValid}
use sznet.Connector.Sockets.{Reachable-IsValid}
use sznet.Connector.Races.{stop-start}

-- The first attempt fails.
abbrev refused : Connector
refused = record new { connect = true; retry_delay_ms = 1000; timers = 1; created = 1; closed = 1 }

-- The timer makes another one.
abbrev trying : Connector
trying = record refused { state = connecting; channel = true; timers = 0; created = 2 }

at_trying : Reachable trying
unfolding start start_in_loop connect_socket start_connecting retry
at_trying = next (next first (starts true try_later refl)) (fires 0 goes_on refl refl)

Reachable-IsValid_example : IsValid trying
Reachable-IsValid_example = Reachable-IsValid at_trying

stop-start_example :
    (start false (stop trying) goes_on >>= λ d. run_next d goes_on >>= λ e. run_next e goes_on)
    ≡ abort
stop-start_example = stop-start trying goes_on at_trying refl refl
