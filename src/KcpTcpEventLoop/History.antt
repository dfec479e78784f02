-- ===== src/KcpTcpEventLoop/History.antt =====
-- The tables of sznet/net/KcpTcpEventLoop.cpp in every history.
use sznet.Base.{ℕ, ◌≡◌, refl, Bool, some, List, [], ◌∷◌, ◌==◌, length, ◌+◌}
use sznet.Run.{Run, ok, IfOk, settled, exhausted, IfOk-bind, IfOk-if, IfOk-any, IfOk_of_ok}
use sznet.Buffer.{Buffer, readable_bytes, retrieve_all}
use sznet.Buffer.Read.{Received, bytes, failed, recv_from}
use sznet.Buffer.Words.{Host}
use sznet.TcpConnection.{Failure, eintr, eagain, other}
use sznet.KcpConnection.{KcpConnection, Handlers}
use sznet.KcpConnection.Core.{fixed}
use sznet.KcpConnection.Library.{Kcp}
use sznet.KcpTcpEventLoop.{TcpRef, KcpTcpEventLoop, close_kcp, remove_tcp_connection_in_loop}
use sznet.KcpTcpEventLoop.Table.{find, assign}
use sznet.KcpTcpEventLoop.Handshake.{tcp_connection, handle_received, handle_udp_read}
use sznet.KcpTcpEventLoop.Removal.{close_kcp-Registered, remove_tcp-Registered}
use sznet.KcpTcpEventLoop.Entered.{
  updated-Registered, tcp_connection-Registered, dispatch-Registered,
}
use sznet.KcpTcpEventLoop.Registered.{tables-Registered, Registered}

module _ {Cb : Type 0} (h : Handlers) (kcp : Kcp Cb) (kcp_mode : ℕ) (fresh : Buffer) (host : Host)
    (kind : ℕ → Failure) where
  -- A call that returned. What a connection of KCP does by itself, a send or a timer, keeps its id and
  -- its peer.
  pub data Step (s : KcpTcpEventLoop Cb) : KcpTcpEventLoop Cb → Type 0 where
    enters :
        {s' : KcpTcpEventLoop Cb} (tcp : TcpRef) (is_up : Bool) (secret : ℕ)
        → tcp_connection s tcp is_up secret ≡ ok s'
        → Step s s'
    reads :
        {s' : KcpTcpEventLoop Cb} (up : TcpRef → Bool) (now : ℕ) (answers : List (ℕ → Received × ℕ))
        → handle_udp_read kcp kcp_mode fresh up host h now kind answers s ≡ ok s'
        → Step s s'
    tcp_ends :
        {s' : KcpTcpEventLoop Cb} (tcp : TcpRef)
        → remove_tcp_connection_in_loop h s tcp ≡ ok s'
        → Step s s'
    kcp_closes :
        {s' : KcpTcpEventLoop Cb} (conn : KcpConnection Cb)
        → find conn.id s.kcp_connections ≡ some conn
        → close_kcp h s conn ≡ ok s'
        → Step s s'
    kcp_goes_on :
        (conv : ℕ) (old conn : KcpConnection Cb)
        → find conv s.kcp_connections ≡ some old
        → fixed conn ≡ fixed old
        → Step s (record s { kcp_connections = assign conv conn s.kcp_connections })

  pub data Reachable : KcpTcpEventLoop Cb → Type 0 where
    first :
        (input : Buffer)
        → Reachable (record {
          tcp_connections = [];
          kcp_connections = [];
          addr_conns = [];
          crypts = [];
          input = input;
          recv_bytes = 0;
          tasks = [];
          responses = [];
        })
    next : {s s' : KcpTcpEventLoop Cb} → Reachable s → Step s s' → Reachable s'

  module _ (up : TcpRef → Bool) (now : ℕ) where
    received-Registered :
        (s : KcpTcpEventLoop Cb) (from : ℕ)
        → Registered s
        → IfOk Registered (handle_received kcp kcp_mode fresh up host h now s from)
    unfolding handle_received
    received-Registered s from r =
        IfOk-if (readable_bytes s.input == 0) (λ none. settled r)
          λ some.
            IfOk-bind
              (dispatch-Registered kcp kcp_mode fresh up host h now s from (find from s.addr_conns)
                r)
              λ done r'.
                settled {a = record done { input = retrieve_all done.input }}
                  (tables-Registered done _ refl refl refl r')

    reads-Registered :
        (answers : List (ℕ → Received × ℕ)) (s : KcpTcpEventLoop Cb)
        → Registered s
        → IfOk Registered (handle_udp_read kcp kcp_mode fresh up host h now kind answers s)
    unfolding handle_udp_read
    reads-Registered [] s r = exhausted
    reads-Registered (recv ∷ rs) s r =
        IfOk-bind (IfOk-any (recv_from recv s.input)) λ ((result, from), b) e.
          let got : Registered (record s { input = b }) = tables-Registered s _ refl refl refl r in
          by_result (λ c. handle_received kcp kcp_mode fresh up host h now c from) result
            (λ c r'. received-Registered c from r')
            (reads-Registered rs (record s { input = b }) got) got
      where
        by_failure :
            {done again stop : Run (KcpTcpEventLoop Cb)} (f : Failure)
            → IfOk Registered done
            → IfOk Registered again
            → IfOk Registered stop
            → IfOk Registered (elim f [ eintr ↦ again | eagain ↦ done | other ↦ stop ])
        by_failure eintr d a s = a
        by_failure eagain d a s = d
        by_failure other d a s = s

        by_result :
            {got : KcpTcpEventLoop Cb} {again : Run (KcpTcpEventLoop Cb)}
            (done : KcpTcpEventLoop Cb → Run (KcpTcpEventLoop Cb)) (result : Received)
            → ((counted : KcpTcpEventLoop Cb) → Registered counted → IfOk Registered (done counted))
            → IfOk Registered again
            → Registered got
            → IfOk Registered (elim result [
              | bytes xs ↦ done (record got { recv_bytes = got.recv_bytes + length xs })
              | failed e ↦ elim (kind e) [ eintr ↦ again | eagain ↦ done got | other ↦ ok got ]
            ])
        by_result {got} done (bytes xs) d a r = d _ (tables-Registered got _ refl refl refl r)
        by_result {got} done (failed e) d a r = by_failure (kind e) (d got r) a (settled r)

  Step-Registered : {s s' : KcpTcpEventLoop Cb} → Step s s' → Registered s → Registered s'
  Step-Registered {s} (enters tcp is_up secret e) r =
      IfOk_of_ok e (tcp_connection-Registered s tcp is_up secret r)
  Step-Registered {s} (reads up now answers e) r =
      IfOk_of_ok e (reads-Registered up now answers s r)
  Step-Registered {s} (tcp_ends tcp e) r = IfOk_of_ok e (remove_tcp-Registered h s tcp r)
  Step-Registered {s} (kcp_closes conn f e) r = IfOk_of_ok e (close_kcp-Registered h s conn r f)
  Step-Registered {s} (kcp_goes_on conv old conn f e) r = updated-Registered s conv old conn r f e

  -- In every history of the loop, in which connections enter, shake hands, get datagrams, close
  -- and end, an address that is known belongs to a KCP connection that stands in its table under
  -- the id of the address and has this address as its peer, with a TCP connection of the same id;
  -- and every KCP connection stands under its own id.
  pub Reachable-Registered : {s : KcpTcpEventLoop Cb} → Reachable s → Registered s
  Reachable-Registered (first input) = record {
    entry = λ from conv e. cc;
    keyed = λ conv conn e. cc;
  }
  Reachable-Registered (next r s) = Step-Registered s (Reachable-Registered r)
