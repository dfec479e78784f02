-- ===== src/Connector/Races.antt =====
-- A stop and a start of sznet/net/Connector.cpp, one after the other.
use sznet.Base.{◌≡◌, refl, true, false, []}
use sznet.Run.{abort, ◌>>=◌}
use sznet.Connector.{
  Attempt, goes_on, Connector, is_connecting, retry, start_connecting, remove_and_reset_channel,
  connect_socket, start_in_loop, stop_in_loop, start, stop, run_task, run_next, Reachable,
}
use sznet.Connector.Sockets.{Reachable-IsValid}

-- If a connector is connecting, after whatever history, and no functor waits, then a stop and a
-- start of another thread lead to a failed assertion in the second functor, if its connect goes
-- on.
pub stop-start :
    (c : Connector) (a : Attempt)
    → Reachable c
    → is_connecting c.state ≡ true
    → c.tasks ≡ []
    → (start false (stop c) a >>= λ d. run_next d a >>= λ e. run_next e goes_on) ≡ abort
unfolding start stop run_next run_task stop_in_loop start_in_loop connect_socket start_connecting
    remove_and_reset_channel retry
stop-start c a r up none = rw (none, (Reachable-IsValid r).channel up, up) refl
