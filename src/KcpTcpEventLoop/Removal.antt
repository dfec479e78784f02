-- ===== src/KcpTcpEventLoop/Removal.antt =====
-- A connection leaves the tables of sznet/net/KcpTcpEventLoop.cpp.
use sznet.Base.{◌≡◌, refl, sym, ap, ◌∙◌, not, Option, none, some, ◌==◌}
use sznet.Run.{IfOk, settled, IfOk-bind, IfOk-assert, IfOk-if, IfOk-weaken, IfOk-any}
use sznet.KcpConnection.{KcpConnection, Handlers, is_ending, is_none}
use sznet.KcpConnection.Closing.{force_close_in_loop-Kept}
use sznet.KcpTcpEventLoop.{
  TcpRef, KcpTcpEventLoop, follow, peer_or_any, found, assert_vessels, drop_tcp,
  remove_kcp_connection_in_loop, close_kcp, remove_tcp_connection_in_loop,
}
use sznet.KcpTcpEventLoop.Table.{find, find-erase_other, missing}
use sznet.KcpTcpEventLoop.Registered.{Registered, forgets-Registered, drop_kcp-Registered, followed}

pub found-some {ℓ} : {A : Type ℓ} (o : Option A) → IfOk (λ a. o ≡ some a) (found o)
found-some o =
    IfOk-assert (not (is_none o)) λ there. IfOk-weaken (IfOk-any (follow o)) λ a e. followed o a e

module _ {Cb : Type 0} where
  remove_kcp-Registered :
      (s : KcpTcpEventLoop Cb) (conn known : KcpConnection Cb)
      → Registered s
      → find conn.id s.kcp_connections ≡ some known
      → known.peer ≡ conn.peer
      → IfOk Registered (remove_kcp_connection_in_loop s conn)
  unfolding remove_kcp_connection_in_loop
  remove_kcp-Registered s conn known r f same =
      IfOk-bind (found-some (find conn.id s.kcp_connections))
        λ k e. drop_kcp-Registered s conn known (find conn.id s.tcp_connections) refl r f same

  module _ (h : Handlers) where
    pub close_kcp-Registered :
        (s : KcpTcpEventLoop Cb) (conn : KcpConnection Cb)
        → Registered s
        → find conn.id s.kcp_connections ≡ some conn
        → IfOk Registered (close_kcp h s conn)
    unfolding close_kcp
    close_kcp-Registered s conn r f = IfOk-bind (force_close_in_loop-Kept h conn) λ closed k.
        IfOk-if (is_ending conn.state)
          (λ ending.
            let same = sym k.settings in
            remove_kcp-Registered s closed conn r
              (ap (λ i. find i s.kcp_connections) (ap (λ x. x.1) k.settings) ∙ f)
              (ap (λ x. x.2) same))
          λ gone. settled r

    drop_tcp-Registered :
        (s : KcpTcpEventLoop Cb) (tcp : TcpRef) (o : Option (KcpConnection Cb))
        → find tcp.id s.kcp_connections ≡ o
        → Registered s
        → IfOk Registered (drop_tcp h s tcp o)
    unfolding drop_tcp
    drop_tcp-Registered s tcp none e r = IfOk-bind (IfOk-any (assert_vessels _)) λ passed p.
        settled (record {
          entry = λ from c a.
              let i = r.entry from c a in
              record {
                conn = i.conn;
                kcp = i.kcp;
                peer = i.peer;
                tcp_ref = i.tcp_ref;
                tcp =
                    find-erase_other c tcp.id s.tcp_connections
                      (missing c tcp.id s.kcp_connections i.conn e i.kcp)
                    ∙ i.tcp;
              };
          keyed = r.keyed;
        })
    drop_tcp-Registered s tcp (some conn) e r =
        close_kcp-Registered _ conn
          (forgets-Registered s tcp.id (peer_or_any conn.peer) conn r e refl _ refl
            (λ c apart. refl) (λ c apart. find-erase_other c tcp.id s.tcp_connections apart)
            r.keyed)
          (ap (λ i. find i s.kcp_connections) (r.keyed tcp.id conn e) ∙ e)

    pub remove_tcp-Registered :
        (s : KcpTcpEventLoop Cb) (tcp : TcpRef)
        → Registered s
        → IfOk Registered (remove_tcp_connection_in_loop h s tcp)
    unfolding remove_tcp_connection_in_loop
    remove_tcp-Registered s tcp r =
        IfOk-bind (found-some (find tcp.id s.tcp_connections)) λ known f.
          IfOk-assert (known.serial == tcp.serial)
            λ own. drop_tcp-Registered s tcp (find tcp.id s.kcp_connections) refl r
