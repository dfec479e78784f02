-- ===== src/KcpTcpEventLoop/Entered.antt =====
-- A connection enters the tables of sznet/net/KcpTcpEventLoop.cpp.
use sznet.Base.{
  ℕ, ◌≡◌, refl, sym, ap, subst, ◌∙◌, not, Bool, Option, none, some, ◌==◌, ltb, Bool-cases,
  Option-cases, inl, inr, arith, ◌+◌,
}
use sznet.Run.{IfOk, settled, IfOk-bind, IfOk-assert, IfOk-if, IfOk-weaken, IfOk-any}
use sznet.Buffer.{Buffer, readable_bytes, contents}
use sznet.Buffer.Words.{Host, read_int}
use sznet.KcpConnection.{KcpConnection, Handlers, is_connecting, is_none}
use sznet.KcpConnection.Core.{fixed, handle_kcp_message-Alike}
use sznet.KcpConnection.Library.{Kcp}
use sznet.KcpConnection.Closing.{connect_established-Kept}
use sznet.KcpConnection.Transfer.{overhead_size}
use sznet.KcpTcpEventLoop.{TcpRef, KcpTcpEventLoop}
use sznet.KcpTcpEventLoop.Table.{
  find, assign, find-assign_same, find-assign_other, some-injective, missing, assigned, found_still,
}
use sznet.KcpTcpEventLoop.Handshake.{
  tcp_connection, is_authentic, make_kcp, enter, accept_handshake, handle_new_udp_message,
  handle_kcp_message, dispatch,
}
use sznet.KcpTcpEventLoop.Authentic.{true-IsInvited}
use sznet.KcpTcpEventLoop.Removal.{found-some}
use sznet.KcpTcpEventLoop.Registered.{tables-Registered, Entry, Registered}

module _ {Cb : Type 0} where
  -- Another value under a key that is there is entered.
  pub updated-Registered :
      (s : KcpTcpEventLoop Cb) (conv : ℕ) (old conn : KcpConnection Cb)
      → Registered s
      → find conv s.kcp_connections ≡ some old
      → fixed conn ≡ fixed old
      → Registered (record s { kcp_connections = assign conv conn s.kcp_connections })
  updated-Registered s conv old conn r f e0 = record {
    entry = λ from c a.
        let i = r.entry from c a in
        elim (Bool-cases (c == conv)) [
          | inl e ↦
              let key : c ≡ conv = ground (arith, e) in
              let same =
                some-injective old i.conn
                  (sym f ∙ ap (λ k. find k s.kcp_connections) (sym key) ∙ i.kcp) in
              record {
                conn = conn;
                kcp =
                    ap (λ k. find k (assign conv conn s.kcp_connections)) key
                    ∙ find-assign_same conv conn s.kcp_connections;
                peer = ap (λ x. x.2) e0 ∙ ap (λ k. k.peer) same ∙ i.peer;
                tcp_ref = i.tcp_ref;
                tcp = i.tcp;
              }
          | inr e ↦ record {
            conn = i.conn;
            kcp = find-assign_other c conv conn s.kcp_connections e ∙ i.kcp;
            peer = i.peer;
            tcp_ref = i.tcp_ref;
            tcp = i.tcp;
          }
        ];
    keyed = λ c k a.
        assigned c conv conn s.kcp_connections k a
          (λ key same. ap (λ k. k.id) (sym same) ∙ ap (λ x. x.1) e0 ∙ r.keyed conv old f ∙ sym key)
          λ other f'. r.keyed c k f';
  }

  -- A TCP connection that is entered.
  pub tcp_connection-Registered :
      (s : KcpTcpEventLoop Cb) (tcp : TcpRef) (is_up : Bool) (secret : ℕ)
      → Registered s
      → IfOk Registered (tcp_connection s tcp is_up secret)
  unfolding tcp_connection
  tcp_connection-Registered s tcp is_up secret r =
      IfOk-if (not is_up) (λ down. settled r)
        λ live. IfOk-assert (is_none (find tcp.id s.tcp_connections)) λ new.
          IfOk-assert (is_none (find tcp.id s.kcp_connections)) λ new'. settled (record {
            entry = λ from c a.
                let i = r.entry from c a in
                let (t, f) = found_still c tcp.id tcp i.tcp_ref s.tcp_connections i.tcp in
                record { conn = i.conn; kcp = i.kcp; peer = i.peer; tcp_ref = t; tcp = f };
            keyed = r.keyed;
          })

  module _ (kcp : Kcp Cb) (kcp_mode : ℕ) (fresh : Buffer) (up : TcpRef → Bool) (host : Host) where
    -- A KCP connection that is entered under a new id.
    enter-Registered :
        (s : KcpTcpEventLoop Cb) (conv secret from : ℕ) (t : TcpRef)
        → find conv s.tcp_connections ≡ some t
        → find conv s.kcp_connections ≡ none
        → Registered s
        → Registered (enter kcp kcp_mode fresh up host s conv secret from)
    enter-Registered s conv secret from t f n r = record {
      entry = λ from' c a.
          assigned from' from conv s.addr_conns c a
            (λ key same.
              subst (λ i. Entry s' from' i) same (subst (λ i. Entry s' i conv) (sym key) new))
            λ other a'.
              let i = r.entry from' c a' in
              record {
                conn = i.conn;
                kcp =
                    find-assign_other c conv made s.kcp_connections
                      (missing c conv s.kcp_connections i.conn n i.kcp)
                    ∙ i.kcp;
                peer = i.peer;
                tcp_ref = i.tcp_ref;
                tcp = i.tcp;
              };
      keyed = λ c k a.
          assigned c conv made s.kcp_connections k a
            (λ key same. ap (λ k. k.id) (sym same) ∙ sym key) λ other f'. r.keyed c k f';
    }
      where
        s' : KcpTcpEventLoop Cb
        s' = enter kcp kcp_mode fresh up host s conv secret from

        made : KcpConnection Cb
        made = make_kcp kcp kcp_mode fresh up host conv secret from

        new : Entry s' from conv
        new = record {
          conn = made;
          kcp = find-assign_same conv made s.kcp_connections;
          peer = refl;
          tcp_ref = t;
          tcp = f;
        }

    accept-Registered :
        (s : KcpTcpEventLoop Cb) (conv secret from : ℕ)
        → Registered s
        → Registered (accept_handshake kcp kcp_mode fresh up host s conv secret from)
    unfolding accept_handshake
    accept-Registered s conv secret from r =
        elim (Bool-cases (is_authentic kcp kcp_mode fresh up host s conv secret)) [
          | inr e ↦ rw e (tables-Registered s _ refl refl refl r)
          | inl e ↦
              let i = true-IsInvited kcp kcp_mode fresh up host s conv secret e in
              elim (Option-cases (find conv s.kcp_connections)) [
                | inr (k, known) ↦ rw (e, known) (tables-Registered s _ refl refl refl r)
                | inl free ↦
                    rw (e, free)
                      (tables-Registered (enter kcp kcp_mode fresh up host s conv secret from) _
                        refl refl refl (enter-Registered s conv secret from i.tcp i.known free r))
              ]
        ]

    handle_new_udp_message-Registered :
        (s : KcpTcpEventLoop Cb) (from : ℕ)
        → Registered s
        → IfOk Registered (handle_new_udp_message kcp kcp_mode fresh up host s from)
    unfolding handle_new_udp_message
    handle_new_udp_message-Registered s from r =
        IfOk-if (not (readable_bytes s.input == 4 + 4)) (λ strange. settled r)
          λ sized. IfOk-bind (IfOk-any (read_int host 4 s.input)) λ (conv, rest) e.
            IfOk-bind (IfOk-any (read_int host 4 rest)) λ (secret, left) e'. settled (
              accept-Registered (record s { input = left }) conv secret from
                (tables-Registered s _ refl refl refl r))

    module _ (h : Handlers) (now : ℕ) where
      handle_kcp_message-Registered :
          (s : KcpTcpEventLoop Cb) (conv : ℕ) (conn : KcpConnection Cb)
          → Registered s
          → find conv s.kcp_connections ≡ some conn
          → IfOk Registered (handle_kcp_message kcp kcp_mode fresh up host h now s conn)
      unfolding handle_kcp_message
      handle_kcp_message-Registered s conv conn r f =
          IfOk-bind
            (IfOk-if {P = λ k. fixed k ≡ fixed conn} (is_connecting conn.state)
              (λ starting. IfOk-weaken (connect_established-Kept h conn) λ k kept. kept.settings)
              λ live. settled refl)
            λ ready same.
              IfOk-bind (handle_kcp_message-Alike kcp h now ready (contents s.input)) λ done a.
                settled (
                  updated-Registered s conn.id conn done r
                    (ap (λ i. find i s.kcp_connections) (r.keyed conv conn f) ∙ f)
                    (a.settings ∙ same))

      pub dispatch-Registered :
          (s : KcpTcpEventLoop Cb) (from : ℕ) (o : Option ℕ)
          → Registered s
          → IfOk Registered (dispatch kcp kcp_mode fresh up host h now s from o)
      unfolding dispatch
      dispatch-Registered s from none r = handle_new_udp_message-Registered s from r
      dispatch-Registered s from (some conv) r =
          IfOk-if (ltb (readable_bytes s.input) overhead_size)
            (λ short. handle_new_udp_message-Registered s from r)
            λ long. IfOk-bind (found-some (find conv s.kcp_connections)) λ conn f.
              IfOk-bind (found-some (find conv s.tcp_connections))
                λ tcp f'. IfOk-assert (up tcp) λ live. handle_kcp_message-Registered s conv conn r f
