-- ===== src/TcpConnection/Writing.antt =====
-- `handleWrite` of sznet/net/TcpConnection.cpp.
use sznet.Base.{
  suc, ◌+◌, min, ◌<◌, ◌≡◌, refl, ap, ◌∙◌, sym, subst, true, false, List, [], ◌∷◌, ◌++◌, ◌==◌, take,
  drop, inl, inr, Bool-cases, arith, append_assoc, take-append-drop,
}
use sznet.Run.{ok, Ensures, returned, Ensures-bind, Ensures-if, Ensures-weaken, Ensures-assert}
use sznet.Buffer.{readable_bytes, contents}
use sznet.Buffer.Room
use sznet.Buffer.Room.{length-contents}
use sznet.Buffer.Ends.{retrieve-Holds}
use sznet.Channel.{clear, is_writing, write_event}
use sznet.TcpConnection.{
  TcpConnection, State, disconnected, connecting, connected, disconnecting, Written, accepts,
  interrupted, would_block, broken, Handlers, is_disconnected, is_connecting, is_disconnecting,
  is_open, queue, ask, write_complete, drained, shutdown_in_loop, handle_close, handle_write_loop,
  handle_write,
}
use sznet.TcpConnection.Invariant.{IsValid, stream}

-- After `handleWrite` with all that was taken over kept in order: all of it went out, or some waits
-- still, or the connection was closed.
pub record Flushed (c c' : TcpConnection) : Type 0 where
  pub valid : IsValid c'
  pub bytes_in_order : stream c' ≡ stream c
  pub input : c'.input ≡ c.input
  pub state : is_disconnected c'.state ≡ false → c'.state ≡ c.state
  pub shut :
      is_disconnecting c'.state ≡ true
      → is_writing c.events ≡ true
      → readable_bytes c'.output ≡ 0
      → c'.write_shut ≡ true
  pub kept : 0 < readable_bytes c'.output → c'.write_shut ≡ c.write_shut

open_of : (s : State) → is_disconnected s ≡ false → is_connecting s ≡ false → is_open s ≡ true
open_of disconnected d c = cc
open_of connecting d c = cc
open_of connected d c = refl
open_of disconnecting d c = refl

writing-open : (c : TcpConnection) → IsValid c → is_writing c.events ≡ true → is_open c.state ≡ true
writing-open c v writing =
    open_of c.state (ground (arith, v.writes, writing)) (ground (arith, v.writes, v.early, writing))

module _ (h : Handlers) where
  pub handle_close-IsValid :
      (c : TcpConnection)
      → IsValid c
      → is_open c.state ≡ true
      → Ensures
          (λ c'.
            IsValid c'
            × (c'.state ≡ disconnected)
            × (stream c' ≡ stream c)
            × (c'.input ≡ c.input)
            × (c'.write_shut ≡ c.write_shut))
          (handle_close h c)
  unfolding handle_close
  handle_close-IsValid c v open_ = Ensures-assert _ open_ (
      returned (
        record {
          output = v.output;
          input = v.input;
          place = v.place;
          writes = refl;
          early = λ e. absurd (ground (arith, e));
        },
        refl,
        refl,
        refl,
        refl,
      ))

  -- Nothing left to write ends the loop.
  handle_write_loop-ok :
      (ws : List Written) (c : TcpConnection)
      → readable_bytes c.output ≡ 0
      → handle_write_loop h ws c ≡ ok c
  unfolding handle_write_loop
  handle_write_loop-ok [] c none = rw none refl
  handle_write_loop-ok (accepts more ∷ ws) c none = rw none refl
  handle_write_loop-ok (interrupted ∷ ws) c none = rw none refl
  handle_write_loop-ok (would_block ∷ ws) c none = refl
  handle_write_loop-ok (broken ∷ ws) c none = rw none refl

  drained-output : (d : TcpConnection) → (drained h d).output ≡ d.output
  unfolding drained shutdown_in_loop
  drained-output d = ground arith

  handle_write_loop-drained :
      (ws : List Written) (d : TcpConnection)
      → readable_bytes d.output ≡ 0
      → handle_write_loop h ws (drained h d) ≡ ok (drained h d)
  handle_write_loop-drained ws d none =
      handle_write_loop-ok ws (drained h d) (rw (drained-output d) none)

  waiting-Flushed : (c : TcpConnection) → IsValid c → is_writing c.events ≡ true → Flushed c c
  waiting-Flushed c v writing = record {
    valid = v;
    bytes_in_order = refl;
    input = refl;
    state = λ alive. refl;
    shut = λ s w none. absurd (ground (arith, v.writes, writing, none));
    kept = λ more. refl;
  }

  drained-Flushed :
      (c d : TcpConnection)
      → IsValid c
      → Room.IsValid d.output
      → is_open c.state ≡ true
      → stream d ≡ stream c
      → d.state ≡ c.state
      → d.input ≡ c.input
      → d.write_shut ≡ c.write_shut
      → readable_bytes d.output ≡ 0
      → Flushed c (drained h d)
  unfolding drained shutdown_in_loop
  drained-Flushed c d v o open_ bytes state input shut none =
      let off : is_writing (clear d.events write_event) ≡ false = ground arith in
      let alive : is_disconnected d.state ≡ false = rw state (ground (arith, open_)) in
      let here : IsValid (queue (ask d (clear d.events write_event)) h.complete write_complete) =
        record {
          output = o;
          input = rw input v.input;
          place = rw input v.place;
          writes = rw (off, none) (ground (arith, alive));
          early = λ e. none;
        } in
      elim (Bool-cases (is_disconnecting d.state)) [
        | inl leaving ↦
            rw (leaving, off)
              (record {
                valid = record {
                  output = here.output;
                  input = here.input;
                  place = here.place;
                  writes = here.writes;
                  early = here.early;
                };
                bytes_in_order = bytes;
                input = input;
                state = λ a. state;
                shut = λ s w n. refl;
                kept = λ more. absurd (omega (arith, more, none));
              })
        | inr staying ↦ rw staying (record {
          valid = here;
          bytes_in_order = bytes;
          input = input;
          state = λ a. state;
          shut = λ s w n. absurd (ground (arith, s, staying));
          kept = λ more. shut;
        })
      ]

  handle_write_loop-Flushed :
      (ws : List Written) (c : TcpConnection)
      → IsValid c
      → is_open c.state ≡ true
      → is_writing c.events ≡ true
      → Ensures (Flushed c) (handle_write_loop h (ws ++ would_block ∷ []) c)
  unfolding handle_write_loop
  handle_write_loop-Flushed [] c v open_ writing = returned (waiting-Flushed c v writing)
  handle_write_loop-Flushed (interrupted ∷ ws) c v open_ writing =
      let more : (readable_bytes c.output == 0) ≡ false = ground (arith, v.writes, writing) in
      rw more (handle_write_loop-Flushed ws c v open_ writing)
  handle_write_loop-Flushed (would_block ∷ ws) c v open_ writing =
      returned (waiting-Flushed c v writing)
  handle_write_loop-Flushed (broken ∷ ws) c v open_ writing =
      let more : (readable_bytes c.output == 0) ≡ false = ground (arith, v.writes, writing) in
      rw more (
        Ensures-weaken (handle_close-IsValid c v open_) λ c' (valid, state, bytes, input, shut).
          record {
            valid = valid;
            bytes_in_order = bytes;
            input = input;
            state = λ alive. absurd (ground (arith, alive, state));
            shut = λ s w none. absurd (ground (arith, s, state));
            kept = λ more. shut;
          })
  handle_write_loop-Flushed (accepts more ∷ ws) c v open_ writing =
      let some_left : (readable_bytes c.output == 0) ≡ false = ground (arith, v.writes, writing) in
      let n = min (suc more) (readable_bytes c.output) in
      rw some_left (
        Ensures-bind (retrieve-Holds c.output n v.output (omega arith)) λ output held.
          let taken = record c {
            output = output;
            sent = c.sent ++ take n (contents c.output);
            sent_bytes = c.sent_bytes + n;
          } in
          let bytes : (c.sent ++ take n (contents c.output)) ++ contents output
              ≡ c.sent ++ contents c.output =
            rw held.bytes (
              append_assoc c.sent (take n (contents c.output)) (drop n (contents c.output))
              ∙ ap (◌++◌ c.sent) (take-append-drop n (contents c.output))) in
          elim (Bool-cases (readable_bytes output == 0)) [
            | inl none ↦
                let nothing : readable_bytes output ≡ 0 = ground (arith, none) in
                rw none (
                  subst (λ r. Ensures (Flushed c) r)
                    (sym (handle_write_loop-drained (ws ++ would_block ∷ []) taken nothing))
                    (returned
                      (drained-Flushed c taken v held.valid open_ bytes refl refl refl nothing)))
            | inr rest ↦ rw rest (
                Ensures-weaken
                  (handle_write_loop-Flushed ws taken
                    (record {
                      output = held.valid;
                      input = v.input;
                      place = v.place;
                      writes = ground (arith, v.writes, writing, rest);
                      early = λ e. absurd (ground (arith, e, open_));
                    })
                    open_ writing)
                  λ c' f. record {
                    valid = f.valid;
                    bytes_in_order = f.bytes_in_order ∙ bytes;
                    input = f.input;
                    state = f.state;
                    shut = f.shut;
                    kept = f.kept;
                  })
          ])

  -- On a valid connection handleWrite returns for every sequence of results of write that ends
  -- with one that would block: the connection stays valid, no byte that was taken over is lost,
  -- repeated or reordered, the state changes at most to disconnected, a disconnecting connection
  -- whose output became empty is shut for writing, and one that has output left is not shut by
  -- it.
  pub handle_write-Flushed :
      (ws : List Written) (c : TcpConnection)
      → IsValid c
      → Ensures (Flushed c) (handle_write h c (ws ++ would_block ∷ []))
  unfolding handle_write
  handle_write-Flushed ws c v =
      Ensures-if (is_writing c.events)
        (λ writing. handle_write_loop-Flushed ws c v (writing-open c v writing) writing)
        λ idle. returned (record {
          valid = v;
          bytes_in_order = refl;
          input = refl;
          state = λ alive. refl;
          shut = λ s w none. absurd (ground (arith, w, idle));
          kept = λ more. refl;
        })
