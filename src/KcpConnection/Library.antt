-- ===== src/KcpConnection/Library.antt =====
-- The calls of sznet/net/KcpConnection.cpp into 3rd/kcp/ikcp.h. KCP is another project's code.
use sznet.Base.{ℕ, Bool, List}

-- What `ikcp_recv` returns: a negative number that asks for patience or for more room, or the bytes of a
-- message.
pub data Recv : Type 0 where
  again too_small : Recv
  received : List ℕ → Recv

-- The calls, on a control block of KCP. `send` returns also whether its result is negative. `flush` and
-- `update` return the packets that they give to the output function, in order. `recv` is given the bit
-- pattern of an `int`.
pub record Kcp (Cb : Type 0) : Type 0 where
  pub create : (conv : ℕ) → Cb
  pub nodelay : (enable interval resend no_flow_control : ℕ) → Cb → Cb
  pub wndsize : (snd_wnd rcv_wnd : ℕ) → Cb → Cb
  pub set_stream : ℕ → Cb → Cb
  pub set_min_rto : ℕ → Cb → Cb
  pub wait_snd : Cb → ℕ
  pub send : Cb → List ℕ → Bool × Cb
  pub flush : Cb → List (List ℕ) × Cb
  pub update : Cb → ℕ → List (List ℕ) × Cb
  pub check : Cb → ℕ → ℕ
  pub input : Cb → List ℕ → Cb
  pub recv : Cb → ℕ → Recv × Cb
