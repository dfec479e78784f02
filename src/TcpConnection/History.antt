-- ===== src/TcpConnection/History.antt =====
-- The life of a connection of sznet/net/TcpConnection.cpp: the operations in any order.
use sznet.Base.{
  ℕ, ◌≤◌, ◌≡◌, refl, ap, ◌∙◌, sym, Bool, true, false, List, [], ◌∷◌, ◌++◌, inl, inr, Bool-cases,
  arith, append-nil, append_assoc,
}
use sznet.Run.{ok, Ensures_of_ok, assert_ok}
use sznet.Buffer.Read.{Received}
use sznet.TcpConnection.{
  TcpConnection, Written, would_block, Failure, eagain, Handlers, is_disconnected, is_connecting,
  is_open, connect_established, connect_destroyed, send_in_loop, handle_write, handle_read,
  force_close_in_loop, shutdown, shutdown_in_loop, force_close, force_close_with_delay,
  start_read_in_loop, stop_read_in_loop,
}
use sznet.TcpConnection.Invariant.{IsValid, stream}
use sznet.TcpConnection.Sending.{taken_over, send_in_loop-Sent}
use sznet.TcpConnection.Writing.{handle_write-Flushed}
use sznet.TcpConnection.Answers.{AllBounded, calls, ending}
use sznet.TcpConnection.Reading.{handle_read-Read}
use sznet.TcpConnection.Forward.{
  Kept, quiet-Kept, leave-Kept, stays-Kept, same_or_last, state_after-same, closes-Kept,
  established-Kept, destroyed-Kept, shuts-Kept,
}

module _ (h : Handlers) (grow : ℕ → ℕ → ℕ) (enough : (c n : ℕ) → n ≤ grow c n) (kind : ℕ → Failure)
    (blocked : ℕ) (blocks : kind blocked ≡ eagain) where
  -- An operation that returned, and the bytes that it took over for sending.
  pub data Step : TcpConnection → List ℕ → TcpConnection → Type 0 where
    established : {c c' : TcpConnection} → connect_established h c ≡ ok c' → Step c [] c'
    sends :
        {c c' : TcpConnection} (w : Written) (message : List ℕ)
        → is_connecting c.state ≡ false
        → send_in_loop h grow c w message ≡ ok c'
        → Step c (taken_over c w message) c'
    writes :
        {c c' : TcpConnection} (ws : List Written)
        → handle_write h c (ws ++ would_block ∷ []) ≡ ok c'
        → Step c [] c'
    reads :
        {c c' : TcpConnection} (answers : List Received)
        → is_open c.state ≡ true
        → AllBounded answers
        → handle_read h grow kind (calls answers blocked) c ≡ ok c'
        → Step c [] c'
    force_closed : {c c' : TcpConnection} → force_close_in_loop h c ≡ ok c' → Step c [] c'
    destroyed : {c c' : TcpConnection} → connect_destroyed h c ≡ ok c' → Step c [] c'
    shuts : {c : TcpConnection} (in_loop_thread : Bool) → Step c [] (shutdown in_loop_thread c)
    shuts_in_loop : {c : TcpConnection} → Step c [] (shutdown_in_loop c)
    force_closes : {c : TcpConnection} → Step c [] (force_close c)
    delays : {c : TcpConnection} → Step c [] (force_close_with_delay c)
    starts : {c : TcpConnection} → Step c [] (start_read_in_loop c)
    stops : {c : TcpConnection} → Step c [] (stop_read_in_loop c)

  -- The steps from `c`, with all that they took over, in order.
  pub data Reach (c : TcpConnection) : List ℕ → TcpConnection → Type 0 where
    here : Reach c [] c
    next :
        {bytes more : List ℕ} {d e : TcpConnection}
        → Reach c bytes d
        → Step d more e
        → Reach c (bytes ++ more) e

  Step-Kept :
      {c c' : TcpConnection} {bytes : List ℕ} → Step c bytes c' → IsValid c → Kept c bytes c'
  unfolding shutdown_in_loop force_close force_close_with_delay start_read_in_loop stop_read_in_loop
      connect_established
  Step-Kept {c} {c'} (established e) v =
      let (starting, done) = assert_ok _ e in Ensures_of_ok e (established-Kept h c v starting)
  Step-Kept {c} {c'} (sends w message up e) v =
      let s = Ensures_of_ok e (send_in_loop-Sent h grow enough c w message v up) in
      record {
        valid = s.valid;
        bytes_in_order = s.bytes_in_order;
        forward = rw s.state (omega arith);
      }
  Step-Kept {c} {c'} (writes ws e) v =
      let f = Ensures_of_ok e (handle_write-Flushed h ws c v) in
      record {
        valid = f.valid;
        bytes_in_order = f.bytes_in_order ∙ sym (append-nil (stream c));
        forward = same_or_last c c' f.state;
      }
  Step-Kept {c} {c'} (reads answers open_ bounded e) v =
      let r =
        Ensures_of_ok e
          (handle_read-Read h grow enough kind blocked blocks answers c v open_ bounded) in
      record {
        valid = r.valid;
        bytes_in_order = r.kept ∙ sym (append-nil (stream c));
        forward = same_or_last c c' λ alive.
            r.state
            ∙ state_after-same (ending kind answers) c.state
                (ap is_disconnected (sym r.state) ∙ alive);
      }
  Step-Kept {c} {c'} (force_closed e) v = Ensures_of_ok e (closes-Kept h c v)
  Step-Kept {c} {c'} (destroyed e) v = destroyed-Kept h c c' v e
  Step-Kept {c} {c'} (shuts b) v = shuts-Kept b c v
  Step-Kept {c} shuts_in_loop v =
      quiet-Kept c _ v (ground arith) (ground arith) (ground arith) (ground arith) (ground arith)
        (ground arith) (ground arith)
  Step-Kept {c} force_closes v = elim (Bool-cases (is_open c.state)) [
    | inl up ↦ rw up (leave-Kept c _ v up refl refl refl refl refl)
    | inr other ↦ rw other (stays-Kept c v)
  ]
  Step-Kept {c} delays v = elim (Bool-cases (is_open c.state)) [
    | inl up ↦ rw up (leave-Kept c _ v up refl refl refl refl refl)
    | inr other ↦ rw other (stays-Kept c v)
  ]
  Step-Kept {c} starts v =
      quiet-Kept c _ v (ground arith) (ground arith) (ground arith) (ground arith) (ground arith)
        (ground arith) (ground arith)
  Step-Kept {c} stops v =
      quiet-Kept c _ v (ground arith) (ground arith) (ground arith) (ground arith) (ground arith)
        (ground arith) (ground arith)

  -- After every history of calls on a valid connection that returned (sends when it is not
  -- connecting, reads when it is open, with answers of at most 64 KiB each, writes, shutdowns,
  -- forced closes, starts and stops of reading, its begin and its end), the connection is valid,
  -- the bytes that went out followed by those that wait are the old ones followed by all that was
  -- taken over, in order, and the state has not gone back.
  pub Reach-Kept :
      {c c' : TcpConnection} {bytes : List ℕ} → Reach c bytes c' → IsValid c → Kept c bytes c'
  Reach-Kept here v = stays-Kept _ v
  Reach-Kept {c} (next {bytes} {more} r s) v =
      let k = Reach-Kept r v in
      let k' = Step-Kept s k.valid in
      record {
        valid = k'.valid;
        bytes_in_order =
            k'.bytes_in_order
            ∙ ap (λ l. l ++ more) k.bytes_in_order
            ∙ append_assoc (stream c) bytes more;
        forward = omega (arith, k.forward, k'.forward);
      }
