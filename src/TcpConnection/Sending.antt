-- ===== src/TcpConnection/Sending.antt =====
-- `sendInLoop` of sznet/net/TcpConnection.cpp.
use sznet.Base.{
  ℕ, suc, ◌+◌, min, ◌≤◌, ◌<◌, ◌≡◌, refl, ap, ◌∙◌, sym, Bool, true, false, not, ◌&&◌, List, [], ◌∷◌,
  ◌++◌, ltb, ◌==◌, if◌then◌else◌, length, take, drop, inl, inr, Bool-cases, arith, append-nil,
  append_assoc, take-append-drop, length-append, length-drop, take_all,
}
use sznet.Run.{Ensures, returned, Ensures-bind, Ensures-if, Ensures-weaken}
use sznet.Buffer.{Buffer, readable_bytes, contents}
use sznet.Buffer.Room
use sznet.Buffer.Room.{append-Appended, length-contents}
use sznet.Channel.{is_writing}
use sznet.TcpConnection.{
  TcpConnection, Written, accepts, interrupted, would_block, broken, Handlers, is_disconnected,
  is_connecting, write_direct, keep_rest, finish_send, send_in_loop,
}
use sznet.TcpConnection.Invariant.{IsValid, stream, Sent}

no_bytes : (b : Buffer) → Room.IsValid b → readable_bytes b ≡ 0 → contents b ≡ []
no_bytes b v none = empty (contents b) (length-contents v ∙ none)
  where
    empty : (xs : List ℕ) → length xs ≡ 0 → xs ≡ []
    empty [] e = refl
    empty (x ∷ xs) e = absurd (omega arith)

abbrev pub is_broken : Written → Bool
is_broken broken = true
is_broken _ = false

-- The bytes of a message that a call takes over: all, but if the connection is closed or the first
-- write finds it broken.
abbrev pub taken_over : TcpConnection → Written → List ℕ → List ℕ
taken_over c w message =
    let direct = not (is_writing c.events) && readable_bytes c.output == 0 in
    if is_disconnected c.state then [] else (if direct && is_broken w then [] else message)

module _ (h : Handlers) (grow : ℕ → ℕ → ℕ) (enough : (c n : ℕ) → n ≤ grow c n) where
  keep_rest-Sent :
      (c : TcpConnection) (rest : List ℕ)
      → IsValid c
      → is_disconnected c.state ≡ false
      → is_connecting c.state ≡ false
      → 0 < length rest
      → Ensures (Sent c rest) (keep_rest h grow c rest)
  unfolding keep_rest
  keep_rest-Sent c rest v alive up some_rest =
      Ensures-bind (append-Appended grow enough c.output rest v.output) λ output done.
        let grown : readable_bytes output ≡ readable_bytes c.output + length rest = omega (
          arith,
          length-contents done.valid,
          length-contents v.output,
          ap length done.bytes,
          length-append (contents c.output) rest,
        ) in
        let bytes : c.sent ++ contents output ≡ (c.sent ++ contents c.output) ++ rest =
          ap (◌++◌ c.sent) done.bytes ∙ sym (append_assoc c.sent (contents c.output) rest) in
        elim (Bool-cases (is_writing c.events)) [
          | inl writing ↦ rw writing (
              returned (record {
                valid = record {
                  output = done.valid;
                  input = v.input;
                  place = v.place;
                  writes = ground (arith, v.writes, writing, grown);
                  early = λ e. absurd (ground (arith, e, up));
                };
                bytes_in_order = bytes;
                state = refl;
                input = refl;
              }))
          | inr idle ↦ rw idle (
              returned (record {
                valid = record {
                  output = done.valid;
                  input = v.input;
                  place = v.place;
                  writes = ground (arith, v.writes, grown, idle, alive);
                  early = λ e. absurd (ground (arith, e, up));
                };
                bytes_in_order = bytes;
                state = refl;
                input = refl;
              }))
        ]

  finish_send-Sent :
      (c c1 : TcpConnection) (n : ℕ) (message : List ℕ)
      → IsValid c1
      → is_disconnected c.state ≡ false
      → is_connecting c.state ≡ false
      → c1.state ≡ c.state
      → c1.input ≡ c.input
      → stream c1 ≡ stream c ++ take n message
      → Ensures (Sent c message) (finish_send h grow message (n, false, c1))
  unfolding finish_send
  finish_send-Sent c c1 n message v alive up state input bytes =
      Ensures-if (ltb 0 (length (drop n message)))
        (λ more.
          Ensures-weaken
            (keep_rest-Sent c1 (drop n message) v (rw state alive) (rw state up)
              (ground (arith, more)))
            λ c2 s. record {
              valid = s.valid;
              bytes_in_order =
                  s.bytes_in_order
                  ∙ ap (λ l. l ++ drop n message) bytes
                  ∙ append_assoc (stream c) (take n message) (drop n message)
                  ∙ ap (◌++◌ (stream c)) (take-append-drop n message);
              state = s.state ∙ state;
              input = s.input ∙ input;
            })
        λ none. returned (record {
          valid = v;
          bytes_in_order =
              bytes
              ∙ ap (◌++◌ (stream c))
                  (take_all n message (ground (arith, none, length-drop n message)));
          state = state;
          input = input;
        })

  direct-Sent :
      (c : TcpConnection) (w : Written) (message : List ℕ)
      → IsValid c
      → is_disconnected c.state ≡ false
      → is_connecting c.state ≡ false
      → readable_bytes c.output ≡ 0
      → Ensures
          (Sent c (if is_broken w then [] else message))
          (finish_send h grow message (write_direct h c w message))
  unfolding write_direct finish_send
  direct-Sent c (accepts more) message v alive up bare =
      finish_send-Sent c _ (min (suc more) (length message)) message
        (record {
          output = v.output;
          input = v.input;
          place = v.place;
          writes = v.writes;
          early = v.early;
        })
        alive up refl refl (rw (no_bytes c.output v.output bare) (simp append-nil))
  direct-Sent c interrupted message v alive up bare =
      finish_send-Sent c c 0 message v alive up refl refl (sym (append-nil (stream c)))
  direct-Sent c would_block message v alive up bare =
      finish_send-Sent c c 0 message v alive up refl refl (sym (append-nil (stream c)))
  direct-Sent c broken message v alive up bare = returned (record {
    valid = v;
    bytes_in_order = sym (append-nil (stream c));
    state = refl;
    input = refl;
  })

  -- On a valid connection that is not connecting, sendInLoop returns, whatever the first write
  -- does: the connection stays valid and keeps its state and its input, and the bytes that went
  -- out followed by those that wait are the old ones followed by the message, but by nothing if
  -- the connection is closed or a first write finds it broken.
  pub send_in_loop-Sent :
      (c : TcpConnection) (w : Written) (message : List ℕ)
      → IsValid c
      → is_connecting c.state ≡ false
      → Ensures (Sent c (taken_over c w message)) (send_in_loop h grow c w message)
  unfolding send_in_loop
  send_in_loop-Sent c w message v up = elim (Bool-cases (is_disconnected c.state)) [
    | inl down ↦ rw down (
        returned (record {
          valid = v;
          bytes_in_order = sym (append-nil (stream c));
          state = refl;
          input = refl;
        }))
    | inr alive ↦ elim (Bool-cases (not (is_writing c.events) && readable_bytes c.output == 0)) [
      | inl direct ↦
          rw (alive, direct) (direct-Sent c w message v alive up (ground (arith, direct)))
      | inr later ↦
          rw (alive, later)
            (finish_send-Sent c c 0 message v alive up refl refl (sym (append-nil (stream c))))
    ]
  ]
