-- ===== src/TcpConnection/Reading.antt =====
-- `handleRead` of sznet/net/TcpConnection.cpp.
use sznet.Base.{
  ℕ, ◌+◌, ◌≤◌, ◌≡◌, refl, ap, ◌∙◌, sym, true, List, [], ◌∷◌, ◌++◌, length, inl, inr, Bool-cases,
  arith, append-nil, append_assoc, length-append,
}
use sznet.Run.{ok, ◌>>=◌, Ensures, returned, Ensures-bind, Ensures-weaken, Ensures-assert}
use sznet.Buffer.{Buffer, contents}
use sznet.Buffer.Room
use sznet.Buffer.Read.{Received, bytes, failed}
use sznet.Buffer.Read.Placed.{IsPlaced, readv_fd-constant}
use sznet.TcpConnection.{
  TcpConnection, disconnected, Failure, eagain, Handlers, is_open, connection_callback,
  message_callback, close_callback, handle_close, after_read, handle_read, deliver,
}
use sznet.TcpConnection.Invariant.{IsValid, stream}
use sznet.TcpConnection.Answers.{
  Ending, waits, ended, broke, arrived, ending, calls, AllBounded, on_close, told, state_after,
  Read, Failure-cases,
}

module _ (h : Handlers) where
  handle_close-Read :
      (c : TcpConnection)
      → IsValid c
      → is_open c.state ≡ true
      → Ensures (Read h c [] ended) (handle_close h c)
  unfolding handle_close
  handle_close-Read c v open_ = Ensures-assert _ open_ (
      returned (record {
        valid = record {
          output = v.output;
          input = v.input;
          place = v.place;
          writes = refl;
          early = λ e. absurd (ground (arith, e));
        };
        input = sym (append-nil (contents c.input));
        counted = omega arith;
        kept = refl;
        state = refl;
        upcalls = elim (Bool-cases h.connection) [
          | inl set ↦
              rw set (
                append_assoc c.upcalls (connection_callback disconnected ∷ [])
                  (close_callback ∷ []))
          | inr bare ↦ rw bare refl
        ];
      }))

  -- The input took in `xs`; the rest of the round follows.
  after_input :
      (c got : TcpConnection) (xs ys : List ℕ) (e : Ending)
      → contents got.input ≡ contents c.input ++ xs
      → got.recv_bytes ≡ c.recv_bytes + length xs
      → stream got ≡ stream c
      → got.state ≡ c.state
      → got.upcalls ≡ c.upcalls
      → (c' : TcpConnection) → Read h got ys e c'
      → Read h c (xs ++ ys) e c'
  after_input c got xs ys e input counted kept state upcalls c' r = record {
    valid = r.valid;
    input = r.input ∙ ap (λ l. l ++ ys) input ∙ append_assoc (contents c.input) xs ys;
    counted = omega (arith, r.counted, counted, length-append xs ys);
    kept = r.kept ∙ kept;
    state = r.state ∙ ap (state_after e) state;
    upcalls =
        r.upcalls
        ∙ ap (λ l. l ++ told h e (contents got.input ++ ys)) upcalls
        ∙ ap (λ l. c.upcalls ++ told h e l)
            (ap (λ l. l ++ ys) input ∙ append_assoc (contents c.input) xs ys);
  }

  module _ (grow : ℕ → ℕ → ℕ) (enough : (c n : ℕ) → n ≤ grow c n) (kind : ℕ → Failure) (blocked : ℕ)
      (blocks : kind blocked ≡ eagain) where
    with_input :
        (c : TcpConnection) (d : Buffer)
        → IsValid c
        → Room.IsValid d
        → IsPlaced d
        → IsValid (record c { input = d })
    with_input c d v valid place = record {
      output = v.output;
      input = valid;
      place = place;
      writes = v.writes;
      early = v.early;
    }

    wait-Read :
        (c : TcpConnection) (d : Buffer)
        → IsValid c
        → Room.Same c.input d
        → IsPlaced d
        → Read h c [] waits (deliver (record c { input = d }))
    wait-Read c d v same at = record {
      valid =
          let w = with_input c d v same.valid at in
          record {
            output = w.output;
            input = w.input;
            place = w.place;
            writes = w.writes;
            early = w.early;
          };
      input = same.bytes ∙ sym (append-nil (contents c.input));
      counted = omega arith;
      kept = refl;
      state = refl;
      upcalls = rw same.bytes (simp append-nil);
    }

    close_then_deliver-Read :
        (c : TcpConnection)
        → IsValid c
        → is_open c.state ≡ true
        → Ensures (Read h c [] broke) (handle_close h c >>= λ closed. ok (deliver closed))
    close_then_deliver-Read c v open_ = Ensures-bind (handle_close-Read c v open_) λ closed r.
        returned (record {
          valid = record {
            output = r.valid.output;
            input = r.valid.input;
            place = r.valid.place;
            writes = r.valid.writes;
            early = r.valid.early;
          };
          input = r.input;
          counted = r.counted;
          kept = r.kept;
          state = r.state;
          upcalls =
              ap (λ l. l ++ message_callback (contents closed.input) ∷ []) r.upcalls
              ∙ append_assoc c.upcalls (on_close h) (message_callback (contents closed.input) ∷ [])
              ∙ ap (λ l. c.upcalls ++ (on_close h ++ message_callback l ∷ [])) r.input;
        })

    -- On a valid open connection handleRead returns, for every sequence of answers of at most 64
    -- KiB each and then one that would block: the input gets exactly the bytes that came before
    -- the answer that ends the round, and they are counted; if no more has come the message
    -- callback gets the whole input; at the end of the stream the connection is closed and the
    -- message callback is not called for these bytes; after an error the connection is closed and
    -- then the message callback is called.
    pub handle_read-Read :
        (answers : List Received) (c : TcpConnection)
        → IsValid c
        → is_open c.state ≡ true
        → AllBounded answers
        → Ensures
            (Read h c (arrived kind answers) (ending kind answers))
            (handle_read h grow kind (calls answers blocked) c)
    unfolding handle_read after_read
    handle_read-Read [] c v open_ bounded =
        Ensures-bind (readv_fd-constant grow enough c.input (failed blocked) v.input v.place tt)
          λ (s, d) (e, (same, at)). rw (e, blocks, after_read) (returned (wait-Read c d v same at))
    handle_read-Read (bytes [] ∷ rs) c v open_ (bounded, more) =
        Ensures-bind (readv_fd-constant grow enough c.input (bytes []) v.input v.place bounded)
          λ (s, d) (e, (done, at)). rw e (
            Ensures-weaken (handle_close-Read _ (with_input c d v done.valid at) open_) (
              after_input c (record c { input = d }) [] [] ended done.bytes (omega arith) refl refl
                refl))
    handle_read-Read (bytes (x ∷ xs) ∷ rs) c v open_ (bounded, more) =
        Ensures-bind
          (readv_fd-constant grow enough c.input (bytes (x ∷ xs)) v.input v.place bounded)
          λ (s, d) (e, (done, at)).
            let got = record c { input = d; recv_bytes = c.recv_bytes + length (x ∷ xs) } in
            let w : IsValid got = record {
              output = v.output;
              input = done.valid;
              place = at;
              writes = v.writes;
              early = v.early;
            } in
            rw e (
              Ensures-weaken (handle_read-Read rs got w open_ more) (
                after_input c got (x ∷ xs) (arrived kind rs) (ending kind rs) done.bytes refl refl
                  refl refl))
    handle_read-Read (failed e ∷ rs) c v open_ (bounded, more) =
        Ensures-bind (readv_fd-constant grow enough c.input (failed e) v.input v.place bounded)
          λ (s, d) (same_result, (same, at)).
            let got = record c { input = d } in
            let w = with_input c d v same.valid at in
            rw same_result (elim (Failure-cases (kind e)) [
              | inl is ↦
                  rw (is, arrived, ending, after_read)
                    (Ensures-weaken (handle_read-Read rs got w open_ more) (
                      after_input c got [] (arrived kind rs) (ending kind rs)
                        (same.bytes ∙ sym (append-nil (contents c.input))) (omega arith) refl refl
                        refl))
              | inr (inl is) ↦
                  rw (is, arrived, ending, after_read) (returned (wait-Read c d v same at))
              | inr (inr is) ↦
                  rw (is, arrived, ending, after_read)
                    (Ensures-weaken (close_then_deliver-Read got w open_) (
                      after_input c got [] [] broke
                        (same.bytes ∙ sym (append-nil (contents c.input))) (omega arith) refl refl
                        refl))
            ])
