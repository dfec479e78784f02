-- ===== src/KcpTcpEventLoop/Authentic.antt =====
-- Who may shake hands with sznet/net/KcpTcpEventLoop.cpp.
use sznet.Base.{
  Option, eq_self, inl, inr, Bool-cases, ℕ, ◌<◌, ◌^◌, ◌≡◌, refl, sym, ap, ◌∙◌, true, false, [], ◌∷◌,
  ◌++◌, length, length-append, append-nil, arith, if◌then◌else◌, none, some, Bool, ◌&&◌,
}
use sznet.Run.{Ensures, returned, Ensures-bind}
use sznet.Buffer.{Buffer, readable_bytes, contents}
use sznet.Buffer.Room.{length-contents}
use sznet.Buffer.Room
use sznet.Buffer.Words.{Host, IsDocumented, network, length-network, read_int-network}
use sznet.KcpConnection.{is_none}
use sznet.KcpConnection.Library.{Kcp}
use sznet.KcpTcpEventLoop.{TcpRef, KcpTcpEventLoop}
use sznet.KcpTcpEventLoop.Table.{find, assign}
use sznet.KcpTcpEventLoop.Handshake.{
  is_up, is_same, make_kcp, is_authentic, accept_handshake, handle_new_udp_message,
}

module _ {Cb : Type 0} (kcp : Kcp Cb) (kcp_mode : ℕ) (fresh : Buffer) (up : TcpRef → Bool)
    (host : Host) where
  -- A datagram of an id and a secret is one that a connected TCP connection was given.
  pub record IsInvited (s : KcpTcpEventLoop Cb) (conv secret : ℕ) : Type 0 where
    pub tcp : TcpRef
    pub known : find conv s.tcp_connections ≡ some tcp
    pub connected : up tcp ≡ true
    pub same_secret : find conv s.crypts ≡ some secret

  authentic-true :
      (s : KcpTcpEventLoop Cb) (conv secret : ℕ)
      → IsInvited s conv secret
      → is_authentic kcp kcp_mode fresh up host s conv secret ≡ true
  authentic-true s conv secret i = rw (i.known, i.same_secret, i.connected) (eq_self secret)

  pub true-IsInvited :
      (s : KcpTcpEventLoop Cb) (conv secret : ℕ)
      → is_authentic kcp kcp_mode fresh up host s conv secret ≡ true
      → IsInvited s conv secret
  true-IsInvited s conv secret e =
      both (find conv s.tcp_connections) (find conv s.crypts) refl refl e
    where
      both :
          (t : Option TcpRef) (k : Option ℕ)
          → find conv s.tcp_connections ≡ t
          → find conv s.crypts ≡ k
          → (is_up kcp kcp_mode fresh up host t && is_same kcp kcp_mode fresh up host secret k)
            ≡ true
          → IsInvited s conv secret
      both none k e1 e2 e = cc
      both (some t) none e1 e2 e = absurd (ground (arith, e))
      both (some t) (some x) e1 e2 e = record {
        tcp = t;
        known = e1;
        connected = ground (arith, e);
        same_secret = e2 ∙ ap some (ground (arith, e));
      }

  -- What becomes of the tables and what is answered.
  pub data Answered (s : KcpTcpEventLoop Cb) (conv secret from : ℕ) (s' : KcpTcpEventLoop Cb)
      : Type 0 where
    accepted :
        IsInvited s conv secret
        → s'.responses ≡ s.responses ++ (from, true) ∷ []
        → s'.tcp_connections ≡ s.tcp_connections
        → s'.crypts ≡ s.crypts
        → s'.kcp_connections ≡ (
            if is_none (find conv s.kcp_connections)
            then assign conv
                (make_kcp kcp kcp_mode fresh up host conv secret from)
                s.kcp_connections
            else s.kcp_connections)
        → s'.addr_conns ≡ (
            if is_none (find conv s.kcp_connections)
            then assign from conv s.addr_conns
            else s.addr_conns)
        → Answered s conv secret from s'
    refused :
        ¬ IsInvited s conv secret
        → s'.responses ≡ s.responses ++ (from, false) ∷ []
        → s'.tcp_connections ≡ s.tcp_connections
        → s'.crypts ≡ s.crypts
        → s'.kcp_connections ≡ s.kcp_connections
        → s'.addr_conns ≡ s.addr_conns
        → Answered s conv secret from s'

  accept-Answered :
      (s : KcpTcpEventLoop Cb) (left : Buffer) (conv secret from : ℕ)
      → Answered s conv secret from
          (accept_handshake kcp kcp_mode fresh up host (record s { input = left }) conv secret from)
  unfolding accept_handshake
  accept-Answered s left conv secret from =
      elim (Bool-cases (is_authentic kcp kcp_mode fresh up host s conv secret)) [
        | inl e ↦ elim (Bool-cases (is_none (find conv s.kcp_connections))) [
          | inl free ↦
              rw (e, free)
                (accepted (true-IsInvited s conv secret e) refl refl refl (rw free refl)
                  (rw free refl))
          | inr known ↦
              rw (e, known)
                (accepted (true-IsInvited s conv secret e) refl refl refl (rw known refl)
                  (rw known refl))
        ]
        | inr e ↦ rw e (
            refused (λ i. absurd (true_not_false (sym (authentic-true s conv secret i) ∙ e))) refl
              refl refl refl refl)
      ]
    where
      true_not_false : true ≡ false → ⊥
      true_not_false e = cc

  -- A datagram that is the bytes of an id and a secret, in network order, is answered, and the
  -- call returns. It is accepted exactly if its id is the one of a TCP connection of the loop
  -- that is connected and its secret is the one that this connection was given; then the
  -- connection of KCP is entered under the id, and the address with it, unless the id is there
  -- already. Otherwise it is refused and the tables are kept.
  pub handle_new_udp_message-Answered :
      (s : KcpTcpEventLoop Cb) (conv secret from : ℕ)
      → IsDocumented host
      → conv < 256 ^ 4
      → secret < 256 ^ 4
      → Room.IsValid s.input
      → contents s.input ≡ network 4 conv ++ network 4 secret
      → Ensures
          (Answered s conv secret from)
          (handle_new_udp_message kcp kcp_mode fresh up host s from)
  unfolding handle_new_udp_message
  handle_new_udp_message-Answered s conv secret from d small small' v e =
      let size : readable_bytes s.input ≡ 8 =
        sym (length-contents v)
        ∙ ap length e
        ∙ length-append (network 4 conv) (network 4 secret)
        ∙ (omega (arith, length-network 4 conv, length-network 4 secret)) in
      rw size (
        Ensures-bind (read_int-network host d 4 conv small s.input (network 4 secret) v e)
          λ (y, rest) (same, held).
            Ensures-bind
              (read_int-network host d 4 secret small' rest [] held.valid
                (held.bytes ∙ sym (append-nil (network 4 secret))))
              λ (z, left) (same', held').
                rw (same, same') (returned (accept-Answered s left conv secret from)))
