-- ===== src/KcpConnection/Answer.antt =====
-- The answer to the handshake of a client in sznet/net/KcpConnection.cpp.
use sznet.Base.{
  ℕ, ◌<◌, ◌^◌, ◌≡◌, refl, sym, ap, append-nil, ◌∙◌, true, [], ◌==◌, length, arith, Bool-cases, inl,
  inr, if◌then◌else◌,
}
use sznet.Run.{ok, Ensures, returned, Ensures-bind, Ensures-assert}
use sznet.Buffer.{Buffer, readable_bytes, contents}
use sznet.Buffer.Room.{length-contents}
use sznet.Buffer.Words.{Host, IsDocumented, network, length-network, read_int-network}
use sznet.Buffer.Room
use sznet.KcpConnection.{
  KcpConnection, Handlers, is_connecting, cancel, connect_established, connected, set_state, call,
  connection_callback, run_at, update_manual,
}
use sznet.KcpConnection.Library.{Kcp}
use sznet.KcpConnection.Transfer.{handle_answer}

module _ {Cb : Type 0} (kcp : Kcp Cb) (h : Handlers) (host : Host) where
  -- A client that was accepted for the first time is up.
  abbrev pub accepted : KcpConnection Cb → KcpConnection Cb
  accepted c =
      let up = call (set_state c connected) (connection_callback connected) in
      run_at (cancel up up.update_timer) update_manual

  -- What becomes of a client that is answered `x`.
  abbrev pub answered : KcpConnection Cb → ℕ → KcpConnection Cb
  answered c x =
      let settled = if x == 0 then c else (if is_connecting c.state then accepted c else c) in
      cancel settled c.verify_timer

  settle-ok :
      (c : KcpConnection Cb) (x : ℕ)
      → h.connection ≡ true
      → (if x == 0 then ok c else (if is_connecting c.state then connect_established h c else ok c))
        ≡ ok (if x == 0 then c else (if is_connecting c.state then accepted c else c))
  unfolding connect_established
  settle-ok c x set = elim (Bool-cases (x == 0)) [
    | inl refused ↦ rw refused refl
    | inr more ↦ elim (Bool-cases (is_connecting c.state)) [
      | inl starting ↦ rw (more, starting, set) refl
      | inr up ↦ rw (more, up) refl
    ]
  ]

  same_timer :
      (c : KcpConnection Cb) (x : ℕ)
      → (if x == 0 then c else (if is_connecting c.state then accepted c else c)).verify_timer
        ≡ c.verify_timer
  same_timer c x = ground arith

  -- If the callback is set, the answer of four bytes in network order is handled and the call
  -- returns: the timer of the handshake is cancelled in any case; a client that is connecting and
  -- is accepted is up; one that is refused or is up already keeps its state.
  pub handle_answer-answered :
      (c : KcpConnection Cb) (b : Buffer) (x : ℕ)
      → h.connection ≡ true
      → IsDocumented host
      → x < 256 ^ 4
      → Room.IsValid b
      → contents b ≡ network 4 x
      → Ensures (λ c'. c' ≡ answered c x) (handle_answer kcp h host c b)
  unfolding handle_answer connect_established
  handle_answer-answered c b x set d fits v e =
      let size : readable_bytes b ≡ 4 =
        sym (length-contents v) ∙ ap length e ∙ length-network 4 x in
      Ensures-assert (readable_bytes b == 4) (rw size refl) (
        Ensures-bind (read_int-network host d 4 x fits b [] v (e ∙ sym (append-nil (network 4 x))))
          λ (y, rest) (same, last). rw (same, settle-ok c x set, same_timer c x) (returned refl))
