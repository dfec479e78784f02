-- ===== src/TcpConnection/Invariant.antt =====
-- What holds of a connection of sznet/net/TcpConnection.cpp between two operations.
use sznet.Base.{refl, ℕ, true, ◌≤◌, ◌≡◌, not, ◌&&◌, List, ◌++◌, ltb}
use sznet.Buffer.{Buffer, readable_bytes, contents}
use sznet.Buffer.Room
use sznet.Channel.{is_writing}
use sznet.TcpConnection.{TcpConnection, new, is_disconnected, is_connecting}

-- The buffers are well formed, and the connection waits to write exactly while it is alive and has
-- output left.
pub record IsValid (c : TcpConnection) : Type 0 where
  pub output : Room.IsValid c.output
  pub input : Room.IsValid c.input
  pub place : c.input.cheap_prepend ≤ c.input.reader_index
  pub writes :
      is_writing c.events ≡ (not (is_disconnected c.state) && ltb 0 (readable_bytes c.output))
  pub early : is_connecting c.state ≡ true → readable_bytes c.output ≡ 0

-- What was taken over for sending: the bytes that went out, and then those that wait.
abbrev pub stream : TcpConnection → List ℕ
stream c = c.sent ++ contents c.output

-- `c'` is `c`, in the same state and with the same input, after it has taken over `bytes`.
pub record Sent (c : TcpConnection) (bytes : List ℕ) (c' : TcpConnection) : Type 0 where
  pub valid : IsValid c'
  pub bytes_in_order : stream c' ≡ stream c ++ bytes
  pub state : c'.state ≡ c.state
  pub input : c'.input ≡ c.input

-- A new connection is valid, if its buffers are and its output is empty.
pub new-IsValid :
    (input output : Buffer)
    → Room.IsValid input
    → input.cheap_prepend ≤ input.reader_index
    → Room.IsValid output
    → readable_bytes output ≡ 0
    → IsValid (new input output)
new-IsValid input output i place o none = record {
  output = o;
  input = i;
  place = place;
  writes = rw none refl;
  early = λ e. none;
}
