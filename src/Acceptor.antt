-- ===== src/Acceptor.antt =====
-- sznet/net/Acceptor.cpp: the connections that clients ask for, with accept of sznet/net/SocketsOps.cpp. The system calls on descriptors are a
-- parameter.
pub mod Descriptors
mod Drained
mod Tests
use sznet.Base.{
  ℕ, zero, suc, Bool, true, false, Option, some, none, List, [], ◌∷◌, ◌++◌, if◌then◌else◌,
}
use sznet.Run.{Run, ok, abort, ◌>>=◌}
use sznet.Acceptor.Descriptors.{Answer, accepted, emfile, other_error, Calls}

-- `idle` is the descriptor of /dev/null, if it could be opened. `handed` is what the callback was
-- given.
pub record Acceptor : Type 0 where
  pub idle : Option ℕ
  pub handed : List ℕ

module _ {S : Type 0} (sys : Calls S) where
  -- There is nothing to close under -1.
  abbrev pub close_socket : Option ℕ → S → S
  close_socket none s = s
  close_socket (some fd) s = sys.close fd s

  -- What `accept` returns.
  abbrev pub returned : Answer → Option ℕ
  returned (accepted fd) = some fd
  returned emfile = none
  returned other_error = none

  -- The branch for EMFILE: the client is turned away.
  abbrev pub turn_away : Acceptor → S → Acceptor × S
  turn_away a s =
      let (answer, s1) = sys.accept (close_socket a.idle s) in
      let (idle, s2) = sys.open_null (close_socket (returned answer) s1) in
      (record a { idle = idle }, s2)

  abbrev pub after_accept : Bool → Acceptor → Answer × S → Acceptor × S
  after_accept callback a (accepted fd, s) =
      if callback then (record a { handed = a.handed ++ fd ∷ [] }, s) else (a, sys.close fd s)
  after_accept callback a (emfile, s) = turn_away a s
  after_accept callback a (other_error, s) = (a, s)

  -- LOG_FATAL ends the program.
  abbrev pub checked : Answer × S → Run (Answer × S)
  checked (accepted fd, s) = ok (accepted fd, s)
  checked (emfile, s) = abort
  checked (other_error, s) = abort

  abbrev pub sz_accept : S → Run (Answer × S)
  sz_accept s = checked (sys.accept s)

  -- `callback` tells whether the callback is set.
  unfoldable pub handle_read : Bool → Acceptor × S → Run (Acceptor × S)
  handle_read callback (a, s) = do r ← sz_accept s; ok (after_accept callback a r)

  -- The loop reports the socket n times.
  abbrev pub handle_reads : Bool → ℕ → Acceptor × S → Run (Acceptor × S)
  handle_reads callback zero x = ok x
  handle_reads callback (suc n) x = do y ← handle_read callback x; handle_reads callback n y
