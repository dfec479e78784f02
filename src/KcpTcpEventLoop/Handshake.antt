-- ===== src/KcpTcpEventLoop/Handshake.antt =====
-- The datagrams of sznet/net/KcpTcpEventLoop.cpp, and `tcpConnection` of KcpWithTcpServer.cpp, which
-- invites a client. `fresh` is the buffers that a new connection begins with, `up` tells which TCP connections
-- are connected.
use sznet.Base.{
  ℕ, ◌+◌, Bool, true, false, not, ◌&&◌, Option, none, some, List, [], ◌∷◌, ltb, ◌==◌, if◌then◌else◌,
  length,
}
use sznet.Run.{Run, ok, out_of_fuel, ◌>>=◌, ◌>>◌, assert}
use sznet.Buffer.{Buffer, readable_bytes, contents, retrieve_all}
use sznet.Buffer.Read.{Received, bytes, failed, recv_from}
use sznet.Buffer.Words.{Host, read_int}
use sznet.TcpConnection.{Failure, eintr, eagain, other}
use sznet.KcpConnection.{
  connecting, KcpConnection, Handlers, is_connecting, is_none, new, set_state, set_peer_addr,
  connect_established,
}
use sznet.KcpConnection.Library.{Kcp}
use sznet.KcpConnection.Transfer.{overhead_size, new_kcp}
use sznet.KcpConnection.Transfer
use sznet.KcpTcpEventLoop.{TcpRef, KcpTcpEventLoop, start, tcp_invite, check_response, found}
use sznet.KcpTcpEventLoop.Table.{find, assign}

module _ {Cb : Type 0} where
  -- A client whose TCP connection is up is told `secret` and may shake hands.
  unfoldable pub tcp_connection : KcpTcpEventLoop Cb → TcpRef → Bool → ℕ → Run (KcpTcpEventLoop Cb)
  tcp_connection s tcp is_up secret = if not is_up then ok s else do
    assert (is_none (find tcp.id s.tcp_connections))
    assert (is_none (find tcp.id s.kcp_connections))
    ok (record (start s (tcp_invite tcp secret)) {
      tcp_connections = assign tcp.id tcp s.tcp_connections;
      crypts = assign tcp.id secret s.crypts;
    })

  module _ (kcp : Kcp Cb) (kcp_mode : ℕ) (fresh : Buffer) (up : TcpRef → Bool) (host : Host) where
    abbrev pub is_same : ℕ → Option ℕ → Bool
    is_same secret none = false
    is_same secret (some known) = known == secret

    abbrev pub is_up : Option TcpRef → Bool
    is_up none = false
    is_up (some tcp) = up tcp

    -- The tests on the id and the secret of a handshake, in their order.
    abbrev pub is_authentic : KcpTcpEventLoop Cb → (conv secret : ℕ) → Bool
    is_authentic s conv secret =
        is_up (find conv s.tcp_connections) && is_same secret (find conv s.crypts)

    -- A connection whose client shook hands.
    abbrev pub make_kcp : (conv secret from : ℕ) → KcpConnection Cb
    make_kcp conv secret from =
        let made = new false conv secret kcp_mode fresh fresh in
        new_kcp kcp (set_peer_addr (set_state made connecting) from)

    abbrev pub enter : KcpTcpEventLoop Cb → (conv secret from : ℕ) → KcpTcpEventLoop Cb
    enter s conv secret from = record s {
      kcp_connections = assign conv (make_kcp conv secret from) s.kcp_connections;
      addr_conns = assign from conv s.addr_conns;
    }

    unfoldable pub accept_handshake :
        KcpTcpEventLoop Cb → (conv secret from : ℕ) → KcpTcpEventLoop Cb
    accept_handshake s conv secret from =
        let entered =
          if is_none (find conv s.kcp_connections) then enter s conv secret from else s in
        if is_authentic s conv secret
        then check_response entered from true
        else check_response s from false

    unfoldable pub handle_new_udp_message : KcpTcpEventLoop Cb → ℕ → Run (KcpTcpEventLoop Cb)
    handle_new_udp_message s from = if not (readable_bytes s.input == 4 + 4) then ok s else do
      (conv, rest) ← read_int host 4 s.input
      (secret, left) ← read_int host 4 rest
      ok (accept_handshake (record s { input = left }) conv secret from)

    module _ (h : Handlers) (now : ℕ) where
      unfoldable pub handle_kcp_message :
          KcpTcpEventLoop Cb → KcpConnection Cb → Run (KcpTcpEventLoop Cb)
      handle_kcp_message s conn = do
        ready ← if is_connecting conn.state then connect_established h conn else ok conn
        done ← Transfer.handle_kcp_message kcp h now ready (contents s.input)
        ok (record s { kcp_connections = assign conn.id done s.kcp_connections })

      -- A datagram in the input, from an address that may be known.
      unfoldable pub dispatch : KcpTcpEventLoop Cb → ℕ → Option ℕ → Run (KcpTcpEventLoop Cb)
      dispatch s from none = handle_new_udp_message s from
      dispatch s from (some conv) =
          let newcomer = handle_new_udp_message s from in
          let known : Run (KcpTcpEventLoop Cb) = do
            conn ← found (find conv s.kcp_connections)
            tcp ← found (find conv s.tcp_connections)
            assert (up tcp)
            handle_kcp_message s conn
          in if ltb (readable_bytes s.input) overhead_size then newcomer else known

      -- Nothing may have come.
      unfoldable pub handle_received : KcpTcpEventLoop Cb → ℕ → Run (KcpTcpEventLoop Cb)
      handle_received s from =
          let handled : Run (KcpTcpEventLoop Cb) = do
            done ← dispatch s from (find from s.addr_conns)
            ok (record done { input = retrieve_all done.input })
          in if readable_bytes s.input == 0 then ok s else handled

      unfoldable pub handle_udp_read :
          (ℕ → Failure) → List (ℕ → Received × ℕ) → KcpTcpEventLoop Cb → Run (KcpTcpEventLoop Cb)
      handle_udp_read kind [] s = out_of_fuel
      handle_udp_read kind (recv ∷ rs) s = do
        ((result, from), b) ← recv_from recv s.input
        let got = record s { input = b }
        let again = handle_udp_read kind rs got
        elim result [
          | bytes xs ↦ handle_received (record got { recv_bytes = got.recv_bytes + length xs }) from
          | failed e ↦ elim (kind e) [
            | eintr ↦ again
            | eagain ↦ handle_received got from
            | other ↦ ok got
          ]
        ]
