-- ===== src/KcpTcpEventLoop/Vessels.antt =====
-- The assertion on the sizes of the tables in sznet/net/KcpTcpEventLoop.h.
use sznet.Base.{
  ℕ, suc, ◌≡◌, refl, ap, ◌∙◌, true, false, none, some, List, [], ◌∷◌, ◌==◌, length, Bool-cases, inl,
  inr, arith, eq_self,
}
use sznet.Run.{ok, abort, ◌>>=◌}
use sznet.KcpConnection.{Handlers}
use sznet.KcpTcpEventLoop.{
  TcpRef, KcpTcpEventLoop, assert_vessels, drop_tcp, remove_tcp_connection_in_loop, start,
  tcp_invite,
}
use sznet.KcpTcpEventLoop.Table.{find, erase, assign, find-assign_same, find-assign_other}
use sznet.KcpTcpEventLoop.Handshake.{tcp_connection}

-- What is not there is not erased.
erase-missing : {A : Type 0} (k : ℕ) (t : List (ℕ × A)) → find k t ≡ none → erase k t ≡ t
erase-missing k [] n = refl
erase-missing k ((key, a) ∷ rest) n = elim (Bool-cases (key == k)) [
  | inl e ↦ absurd (some_none a (rw e at n))
  | inr e ↦ rw e (ap (◌∷◌ (key, a)) (erase-missing k rest (rw e at n)))
]
  where
    some_none : {A : Type 0} (a : A) → some a ≡ none → ⊥
    some_none a e = cc

module _ {Cb : Type 0} (s : KcpTcpEventLoop Cb) (t u : TcpRef) (apart : (u.id == t.id) ≡ false)
    (new : find t.id s.tcp_connections ≡ none) (new' : find t.id s.kcp_connections ≡ none)
    (free : find u.id s.tcp_connections ≡ none) (free' : find u.id s.kcp_connections ≡ none) where
  abbrev with_one : ℕ → KcpTcpEventLoop Cb
  with_one x = record (start s (tcp_invite t x)) {
    tcp_connections = assign t.id t s.tcp_connections;
    crypts = assign t.id x s.crypts;
  }

  abbrev with_two : ℕ → ℕ → KcpTcpEventLoop Cb
  with_two x y = record (start (with_one x) (tcp_invite u y)) {
    tcp_connections = assign u.id u (with_one x).tcp_connections;
    crypts = assign u.id y (with_one x).crypts;
  }

  two_left :
      length (erase t.id (assign u.id u (assign t.id t s.tcp_connections)))
      ≡ suc (length s.tcp_connections)
  two_left =
      let other : (t.id == u.id) ≡ false = ground (arith, apart) in
      rw
        (
          erase-missing t.id s.tcp_connections new,
          other,
          erase-missing u.id s.tcp_connections free,
          apart,
          eq_self t.id,
          erase-missing t.id s.tcp_connections new,
        )
        refl

  one-ok : (x : ℕ) → tcp_connection s t true x ≡ ok (with_one x)
  unfolding tcp_connection
  one-ok x = rw (new, new') refl

  two-ok : (x y : ℕ) → tcp_connection (with_one x) u true y ≡ ok (with_two x y)
  unfolding tcp_connection
  two-ok x y =
      let unknown : find u.id (assign t.id t s.tcp_connections) ≡ none =
        find-assign_other u.id t.id t s.tcp_connections apart ∙ free in
      rw (unknown, free') refl

  drop-abort :
      (h : Handlers) (x y : ℕ)
      → length s.kcp_connections ≡ length s.tcp_connections
      → drop_tcp h (with_two x y) t none ≡ abort
  unfolding drop_tcp assert_vessels
  drop-abort h x y sizes =
      let differ : (suc (length s.tcp_connections) == length s.kcp_connections) ≡ false =
        ground (arith, sizes) in
      rw (two_left, differ) refl

  -- If as many KCP connections as TCP connections are there, and two clients with different new
  -- ids are invited, the first of them that leaves before it shakes hands fails an assertion.
  pub remove_tcp_connection_in_loop-abort :
      (h : Handlers) (x y : ℕ)
      → length s.kcp_connections ≡ length s.tcp_connections
      → (do
        one ← tcp_connection s t true x
        two ← tcp_connection one u true y
        remove_tcp_connection_in_loop h two t)
        ≡ abort
  unfolding remove_tcp_connection_in_loop
  remove_tcp_connection_in_loop-abort h x y sizes =
      let there : find t.id (assign u.id u (assign t.id t s.tcp_connections)) ≡ some t =
        find-assign_other t.id u.id u (assign t.id t s.tcp_connections) (ground (arith, apart))
        ∙ find-assign_same t.id t s.tcp_connections in
      rw (one-ok x, two-ok x y, there, eq_self t.serial, new') (drop-abort h x y sizes)
