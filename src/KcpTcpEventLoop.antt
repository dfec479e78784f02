-- ===== src/KcpTcpEventLoop.antt =====
-- sznet/net/KcpTcpEventLoop.h and KcpTcpEventLoop.cpp, and the entry of a connection into its tables in
-- KcpWithTcpServer.cpp: the tables of connections, in the thread of the loop. A TCP connection is its id
-- and its number; whether it is connected is a parameter.
pub mod Table
pub mod Handshake
pub mod Authentic
pub mod Registered
pub mod Removal
pub mod Entered
pub mod History
pub mod Vessels
mod Tests
use sznet.Base.{
  ℕ, suc, ◌+◌, ◌*◌, Bool, true, false, not, ◌&&◌, ◌||◌, Option, none, some, List, [], ◌∷◌, ◌++◌,
  ltb, ◌==◌, if◌then◌else◌, length,
}
use sznet.Run.{Run, ok, fault, out_of_fuel, ◌>>=◌, ◌>>◌, assert}
use sznet.Buffer.{Buffer, readable_bytes, contents, retrieve_all}
use sznet.Buffer.Read.{Received, bytes, failed, recv_from}
use sznet.Buffer.Words.{Host, read_int}
use sznet.TcpConnection.{Failure, eintr, eagain, other}
use sznet.KcpConnection.{
  State, connecting, KcpConnection, Handlers, is_connecting, is_ending, is_none, new, set_state,
  set_peer_addr, connect_established, force_close_in_loop,
}
use sznet.KcpConnection.Library.{Kcp}
use sznet.KcpConnection.Transfer.{overhead_size, new_kcp}
use sznet.KcpConnection.Transfer
use sznet.KcpTcpEventLoop.Table.{find, erase, assign}

-- A pointer to a TCP connection, with its `m_id`.
pub record TcpRef : Type 0 where
  pub id : ℕ
  pub serial : ℕ

-- What the loop starts for a connection. An invitation is the port of the loop, the id and the secret.
pub data Task (Cb : Type 0) : Type 0 where
  tcp_connect_destroyed tcp_force_close : TcpRef → Task Cb
  tcp_invite : TcpRef → (secret : ℕ) → Task Cb
  kcp_connect_destroyed : KcpConnection Cb → Task Cb

-- Of the connection behind an address only its id is used. `responses` are the answers to handshakes.
pub record KcpTcpEventLoop (Cb : Type 0) : Type 0 where
  pub tcp_connections : List (ℕ × TcpRef)
  pub kcp_connections : List (ℕ × KcpConnection Cb)
  pub addr_conns : List (ℕ × ℕ)
  pub crypts : List (ℕ × ℕ)
  pub input : Buffer
  pub recv_bytes : ℕ
  pub tasks : List (Task Cb)
  pub responses : List (ℕ × Bool)

abbrev pub follow {ℓ} : {A : Type ℓ} → Option A → Run A
follow none = fault
follow (some a) = ok a

-- `peerAddress()`: without a peer it is the address of a default InetAddress.
abbrev pub peer_or_any : Option ℕ → ℕ
peer_or_any none = 0
peer_or_any (some peer) = peer

-- `assert(iter != end)`, and what the iterator refers to.
abbrev pub found {ℓ} : {A : Type ℓ} → Option A → Run A
found o = assert (not (is_none o)) >> follow o

module _ {Cb : Type 0} where
  pub assert_vessels : KcpTcpEventLoop Cb → Run (Unit {0})
  assert_vessels s = do
    assert (length s.tcp_connections == length s.kcp_connections)
    assert (length s.tcp_connections == length s.addr_conns)
    assert (length s.tcp_connections == length s.crypts)

  abbrev pub start : KcpTcpEventLoop Cb → Task Cb → KcpTcpEventLoop Cb
  start s t = record s { tasks = s.tasks ++ t ∷ [] }

  abbrev pub check_response : KcpTcpEventLoop Cb → ℕ → Bool → KcpTcpEventLoop Cb
  check_response s from success = record s { responses = s.responses ++ (from, success) ∷ [] }

  -- A KCP connection is gone: its TCP connection is closed too, if there is one still.
  pub drop_kcp : KcpTcpEventLoop Cb → KcpConnection Cb → Option TcpRef → Run (KcpTcpEventLoop Cb)
  drop_kcp s conn none = do
    let without = record s { kcp_connections = erase conn.id s.kcp_connections }
    assert_vessels without
    ok without
  drop_kcp s conn (some tcp) = do
    let peer = peer_or_any conn.peer
    let without = record s {
      kcp_connections = erase conn.id s.kcp_connections;
      crypts = erase conn.id s.crypts;
      addr_conns = erase peer s.addr_conns;
    }
    ok (start (start without (kcp_connect_destroyed conn)) (tcp_force_close tcp))

  -- The close callback of a KCP connection. The second assertion of the code, that the table has this
  -- object and not another one under the id, is left out: connections have no addresses here.
  pub remove_kcp_connection_in_loop :
      KcpTcpEventLoop Cb → KcpConnection Cb → Run (KcpTcpEventLoop Cb)
  remove_kcp_connection_in_loop s conn = do
    known ← found (find conn.id s.kcp_connections)
    drop_kcp s conn (find conn.id s.tcp_connections)

  module _ (h : Handlers) where
    -- `forceCloseInLoop` of a KCP connection of this loop calls the close callback at its end.
    pub close_kcp : KcpTcpEventLoop Cb → KcpConnection Cb → Run (KcpTcpEventLoop Cb)
    close_kcp s conn = do
      closed ← force_close_in_loop h conn
      if is_ending conn.state then remove_kcp_connection_in_loop s closed else ok s

    -- A TCP connection is gone, with the secret: its KCP connection is closed too, if there is one.
    pub drop_tcp :
        KcpTcpEventLoop Cb → TcpRef → Option (KcpConnection Cb) → Run (KcpTcpEventLoop Cb)
    drop_tcp s tcp none = do
      let without = record s {
        tcp_connections = erase tcp.id s.tcp_connections;
        crypts = erase tcp.id s.crypts;
      }
      assert_vessels without
      ok (start without (tcp_connect_destroyed tcp))
    drop_tcp s tcp (some conn) = do
      let peer = peer_or_any conn.peer
      let without = record s {
        tcp_connections = erase tcp.id s.tcp_connections;
        crypts = erase tcp.id s.crypts;
        addr_conns = erase peer s.addr_conns;
      }
      close_kcp (start without (tcp_connect_destroyed tcp)) conn

    pub remove_tcp_connection_in_loop : KcpTcpEventLoop Cb → TcpRef → Run (KcpTcpEventLoop Cb)
    remove_tcp_connection_in_loop s tcp = do
      known ← found (find tcp.id s.tcp_connections)
      assert (known.serial == tcp.serial)
      drop_tcp s tcp (find tcp.id s.kcp_connections)
