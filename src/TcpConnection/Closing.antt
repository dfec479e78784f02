-- ===== src/TcpConnection/Closing.antt =====
-- The end of a connection of sznet/net/TcpConnection.cpp.
use sznet.Base.{◌≡◌, refl, Bool, true, false, inl, inr, Bool-cases, arith}
use sznet.Run.{abort}
use sznet.Channel.{is_reading, is_writing, is_none_event}
use sznet.TcpConnection.{
  TcpConnection, Handlers, is_connected, connect_destroyed, shutdown, shutdown_in_loop,
}

module _ (h : Handlers) (c : TcpConnection) where
  -- If a connected connection that reads was shut down, by whatever thread, connectDestroyed
  -- fails an assertion, whatever callbacks are set.
  connect_destroyed-shutdown :
      (in_loop_thread : Bool)
      → is_connected c.state ≡ true
      → is_reading c.events ≡ true
      → connect_destroyed h (shutdown in_loop_thread c) ≡ abort
  unfolding connect_destroyed shutdown shutdown_in_loop
  connect_destroyed-shutdown true up reading =
      let asks : is_none_event c.events ≡ false = ground (arith, reading) in
      elim (Bool-cases (is_writing c.events)) [
        | inl writing ↦ rw (up, writing, asks) refl
        | inr idle ↦ rw (up, idle, asks) refl
      ]
  connect_destroyed-shutdown false up reading =
      let asks : is_none_event c.events ≡ false = ground (arith, reading) in rw (up, asks) refl
