-- ===== src/KcpConnection/Sending.antt =====
-- What `sendInLoop` of sznet/net/KcpConnection.cpp does with the output.
use sznet.Base.{
  false, sym, ap, ◌<◌, append-nil, ◌+◌, ◌≤◌, refl, ◌∙◌, Bool, some, List, [], ◌++◌, leb, length,
  arith, ltb, ◌≡◌, ◌^◌, Bool-cases, inl, inr, ℕ,
}
use sznet.Run.{
  Run, IfOk, settled, aborted, faulted, Ensures, returned, IfOk-bind, IfOk-if, IfOk-any,
}
use sznet.Buffer.{readable_bytes, contents}
use sznet.Buffer.Room.{length-contents, append-Appended}
use sznet.Buffer.Room
use sznet.KcpConnection.{KcpConnection, Handlers, is_connected, is_down, follow, threshold}
use sznet.KcpConnection.Library.{Kcp}
use sznet.KcpConnection.Transfer.{int_of_size, checked_int, keep_back, give, send_in_loop, send}
use sznet.KcpConnection.Core.{same, Alike-trans, kcp_output_all-Alike, kcp_update_manual-Alike}
use sznet.KcpConnection.Life.{Kept, Alike-Kept, quiet-Held}

-- What always returns does so if it does.
Ensures-IfOk {ℓ κ} : {A : Type ℓ} {P : A → Type κ} {r : Run A} → Ensures P r → IfOk P r
Ensures-IfOk (returned p) = settled p

checked_int-IfOk : (i : ℕ) → IfOk (λ n. (n ≡ i) × (i < 2 ^ 32)) (checked_int i)
checked_int-IfOk i = elim (Bool-cases (ltb i (2 ^ 32))) [
  | inl e ↦ rw e (settled (refl, ground (arith, e)))
  | inr e ↦ rw e faulted
]

-- A waiting sum below the bound, for an output whose length is an `int`.
below :
    (len bound readable i j wait more : ℕ)
    → len < 2 ^ 31
    → len ≡ readable
    → j ≡ int_of_size readable + wait + more
    → i ≡ bound + 2 ^ 31
    → leb i j ≡ false
    → len < bound
below len bound readable i j wait more small same sum e room =
    let big : j < i = ground (arith, room) in omega (arith, big, small, same, sum, e)

module _ {Cb : Type 0} (kcp : Kcp Cb) (h : Handlers) (grow : ℕ → ℕ → ℕ)
    (enough : (c n : ℕ) → n ≤ grow c n) where
  keep_back-Kept :
      (c : KcpConnection Cb) (message : List ℕ)
      → Room.IsValid c.output
      → IfOk (Kept c) (keep_back kcp h grow c message)
  unfolding keep_back
  keep_back-Kept c message v =
      IfOk-bind (Ensures-IfOk (append-Appended grow enough c.output message v)) λ output a.
        settled (record {
          life = λ l. l;
          settings = refl;
          held = λ v'. record {
            valid = a.valid;
            rest = message;
            bytes = a.bytes;
            given = λ stuck small. refl;
          };
        })

  give-Kept :
      (now : ℕ) (c : KcpConnection Cb) (block : Cb) (message : List ℕ)
      → (length (contents c.output) < 2 ^ 31 → length (contents c.output) < threshold c.settings)
      → IfOk (Kept c) (give kcp h grow now c block message)
  unfolding give
  give-Kept now c block message room =
      let taken = (kcp.send block message).1 in
      let given = record c { kcp = some (kcp.flush taken).1; given = c.given ++ message } in
      IfOk-if (kcp.send block message).0 (λ refused. aborted)
        λ accepted. IfOk-bind (kcp_output_all-Alike (kcp.flush taken).0 given) λ sent a.
          IfOk-bind (kcp_update_manual-Alike kcp now sent) λ updated b.
            let both = Alike-trans a b in
            settled (record {
              life = λ l. rw (both.state, both.told) l;
              settings = both.settings;
              held = λ v. record {
                valid = rw both.output v;
                rest = [];
                bytes = ap contents both.output ∙ sym (append-nil (contents c.output));
                given =
                    λ stuck small. absurd (omega (arith, stuck, room (rw both.output at small)));
              };
            })

  pub send_in_loop-Kept :
      (now : ℕ) (c : KcpConnection Cb) (message : List ℕ)
      → Room.IsValid c.output
      → IfOk (Kept c) (send_in_loop kcp h grow now c message)
  unfolding send_in_loop
  send_in_loop-Kept now c message v =
      IfOk-if (is_down c.state) (λ down. settled (Alike-Kept same))
        λ up. IfOk-bind (IfOk-any (follow c.kcp)) λ block found.
          IfOk-bind
            (checked_int-IfOk
              (int_of_size (readable_bytes c.output) + kcp.wait_snd block + length message))
            λ waiting (sum, _).
              IfOk-bind (checked_int-IfOk (threshold c.settings + 2 ^ 31)) λ bound (e, _).
                IfOk-if (leb bound waiting) (λ full. keep_back-Kept c message v)
                  λ room. give-Kept now c block message λ small.
                    below (length (contents c.output)) (threshold c.settings)
                      (readable_bytes c.output) bound waiting (kcp.wait_snd block) (length message)
                      small (length-contents v) sum e room

  pub send-Kept :
      (in_loop_thread : Bool) (now : ℕ) (c : KcpConnection Cb) (message : List ℕ)
      → Room.IsValid c.output
      → IfOk (Kept c) (send kcp h grow in_loop_thread now c message)
  unfolding send
  send-Kept in_loop_thread now c message v =
      IfOk-if (is_connected c.state)
        (λ up.
          IfOk-if in_loop_thread (λ here. send_in_loop-Kept now c message v)
            λ away.
              settled (record { life = λ l. l; settings = refl; held = quiet-Held refl refl }))
        λ down. settled (Alike-Kept same)
