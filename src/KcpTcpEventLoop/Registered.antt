-- ===== src/KcpTcpEventLoop/Registered.antt =====
-- What the tables of sznet/net/KcpTcpEventLoop.cpp promise about an address.
use sznet.Base.{
  ℕ, ◌≡◌, refl, sym, ap, ◌∙◌, false, Option, none, some, ◌==◌, Bool-cases, inl, inr, arith,
}
use sznet.Run.{ok, IfOk, settled, IfOk-bind, IfOk-any, IfOk_of_ok}
use sznet.KcpConnection.{KcpConnection}
use sznet.KcpTcpEventLoop.{TcpRef, KcpTcpEventLoop, follow, peer_or_any, assert_vessels, drop_kcp}
use sznet.KcpTcpEventLoop.Table.{find, erase, erased, some-injective, missing, find-erase_other}

-- A pointer that could be followed.
pub followed {ℓ} : {A : Type ℓ} (o : Option A) (a : A) → follow o ≡ ok a → o ≡ some a
followed none a e = cc
followed (some b) a e = ap some (IfOk_of_ok {P = λ x. b ≡ x} e (settled refl))

module _ {Cb : Type 0} where
  -- Behind the address `from` stands a connection of KCP to it, beside its TCP connection.
  pub record Entry (s : KcpTcpEventLoop Cb) (from conv : ℕ) : Type 0 where
    pub conn : KcpConnection Cb
    pub kcp : find conv s.kcp_connections ≡ some conn
    pub peer : conn.peer ≡ some from
    pub tcp_ref : TcpRef
    pub tcp : find conv s.tcp_connections ≡ some tcp_ref

  pub record Registered (s : KcpTcpEventLoop Cb) : Type 0 where
    pub entry : (from conv : ℕ) → find from s.addr_conns ≡ some conv → Entry s from conv
    pub keyed :
        (conv : ℕ) (conn : KcpConnection Cb)
        → find conv s.kcp_connections ≡ some conn
        → conn.id ≡ conv

  -- Only three of the tables matter.
  pub tables-Registered :
      (s s' : KcpTcpEventLoop Cb)
      → s'.addr_conns ≡ s.addr_conns
      → s'.kcp_connections ≡ s.kcp_connections
      → s'.tcp_connections ≡ s.tcp_connections
      → Registered s
      → Registered s'
  tables-Registered s s' a k t r = record {
    entry = λ from conv f.
        let i = r.entry from conv (ap (find from) (sym a) ∙ f) in
        record {
          conn = i.conn;
          kcp = ap (find conv) k ∙ i.kcp;
          peer = i.peer;
          tcp_ref = i.tcp_ref;
          tcp = ap (find conv) t ∙ i.tcp;
        };
    keyed = λ conv conn f. r.keyed conv conn (ap (find conv) (sym k) ∙ f);
  }

  -- An entry is not of a connection whose peer is another address.
  distinct :
      (s : KcpTcpEventLoop Cb) (conv peer from c : ℕ) (conn : KcpConnection Cb)
      → find conv s.kcp_connections ≡ some conn
      → peer_or_any conn.peer ≡ peer
      → Entry s from c
      → (from == peer) ≡ false
      → (c == conv) ≡ false
  distinct s conv peer from c conn e e' i other = elim (Bool-cases (c == conv)) [
    | inr apart ↦ apart
    | inl both ↦
        let key : c ≡ conv = ground (arith, both) in
        let conns =
          some-injective i.conn conn (sym i.kcp ∙ ap (λ k. find k s.kcp_connections) key ∙ e) in
        let froms : from ≡ peer =
          sym (ap peer_or_any i.peer) ∙ ap (λ k. peer_or_any k.peer) conns ∙ e' in
        absurd (ground (arith, froms, other))
  ]

  -- The connection of `conv` leaves a table, and its address is forgotten.
  pub forgets-Registered :
      (s : KcpTcpEventLoop Cb) (conv peer : ℕ) (conn : KcpConnection Cb)
      → Registered s
      → find conv s.kcp_connections ≡ some conn
      → peer_or_any conn.peer ≡ peer
      → (s' : KcpTcpEventLoop Cb) → s'.addr_conns ≡ erase peer s.addr_conns
      → ((c : ℕ) → (c == conv) ≡ false → find c s'.kcp_connections ≡ find c s.kcp_connections)
      → ((c : ℕ) → (c == conv) ≡ false → find c s'.tcp_connections ≡ find c s.tcp_connections)
      → ((c : ℕ) (k : KcpConnection Cb) → find c s'.kcp_connections ≡ some k → k.id ≡ c)
      → Registered s'
  forgets-Registered s conv peer conn r e e' s' a kcps tcps keys = record {
    entry = λ from c f. erased from peer s.addr_conns c (rw⁻¹ a f) λ other f'.
        let i = r.entry from c f' in
        let apart = distinct s conv peer from c conn e e' i other in
        record {
          conn = i.conn;
          kcp = kcps c apart ∙ i.kcp;
          peer = i.peer;
          tcp_ref = i.tcp_ref;
          tcp = tcps c apart ∙ i.tcp;
        };
    keyed = keys;
  }

  erased-keyed :
      (s : KcpTcpEventLoop Cb) (conv : ℕ)
      → Registered s
      → (c : ℕ) (k : KcpConnection Cb) → find c (erase conv s.kcp_connections) ≡ some k
      → k.id ≡ c
  erased-keyed s conv r c k f = erased c conv s.kcp_connections k f λ other f'. r.keyed c k f'

  pub drop_kcp-Registered :
      (s : KcpTcpEventLoop Cb) (conn known : KcpConnection Cb) (o : Option TcpRef)
      → find conn.id s.tcp_connections ≡ o
      → Registered s
      → find conn.id s.kcp_connections ≡ some known
      → known.peer ≡ conn.peer
      → IfOk Registered (drop_kcp s conn o)
  unfolding drop_kcp
  drop_kcp-Registered s conn known none e r f same =
      IfOk-bind (IfOk-any (assert_vessels _)) λ passed p. settled (record {
        entry = λ from c f'.
            let i = r.entry from c f' in
            record {
              conn = i.conn;
              kcp =
                  find-erase_other c conn.id s.kcp_connections
                    (missing c conn.id s.tcp_connections i.tcp_ref e i.tcp)
                  ∙ i.kcp;
              peer = i.peer;
              tcp_ref = i.tcp_ref;
              tcp = i.tcp;
            };
        keyed = erased-keyed s conn.id r;
      })
  drop_kcp-Registered s conn known (some tcp) e r f same = settled (
      forgets-Registered s conn.id (peer_or_any conn.peer) known r f (ap peer_or_any same) _ refl
        (λ c apart. find-erase_other c conn.id s.kcp_connections apart) (λ c apart. refl)
        (erased-keyed s conn.id r))
