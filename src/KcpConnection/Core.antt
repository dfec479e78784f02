-- ===== src/KcpConnection/Core.antt =====
-- What the transfers of sznet/net/KcpConnection.cpp leave as it was.
use sznet.Base.{
  append-nil, not, ◌++◌, ℕ, ◌+◌, ◌-◌, ◌*◌, ◌%◌, ◌^◌, ◌≡◌, refl, ap, ◌∙◌, Option, some, List, [],
  ◌∷◌, ltb, leb, length,
}
use sznet.Run.{IfOk, settled, IfOk-bind, IfOk-assert, IfOk-weaken, IfOk-any}
use sznet.Buffer.{write_at, has_written}
use sznet.KcpConnection.{
  KcpSettings, Upcall, connection_callback, message_callback, close_callback, KcpConnection,
  milliseconds, arm_update, Handlers, is_connected, follow, kcp_output, is_none, transmit,
  kcp_output_all, cancel,
}
use sznet.KcpConnection.Library.{Kcp, Recv, again, too_small, received}
use sznet.KcpConnection.Transfer.{schedule, kcp_update_manual, take_in, handle_kcp_message}

-- The callbacks of a connection, but for its messages.
abbrev pub changes : List Upcall → List Upcall
changes [] = []
changes (message_callback xs ∷ us) = changes us
changes (connection_callback s ∷ us) = connection_callback s ∷ changes us
changes (close_callback s ∷ us) = close_callback s ∷ changes us

pub changes-append : (us vs : List Upcall) → changes (us ++ vs) ≡ changes us ++ changes vs
changes-append [] vs = refl
changes-append (message_callback xs ∷ us) vs = changes-append us vs
changes-append (connection_callback s ∷ us) vs =
    ap (◌∷◌ (connection_callback s)) (changes-append us vs)
changes-append (close_callback s ∷ us) vs = ap (◌∷◌ (close_callback s)) (changes-append us vs)

-- What a connection never changes.
abbrev pub fixed : {Cb : Type 0} → KcpConnection Cb → KcpSettings × ℕ × Option ℕ
fixed c = (c.settings, c.id, c.peer)

-- `c'` has the state, the settings, the output and the callbacks of `c`, and KCP was given nothing
-- more by the connection.
pub record Alike {Cb : Type 0} (c c' : KcpConnection Cb) : Type 0 where
  pub state : c'.state ≡ c.state
  pub settings : fixed c' ≡ fixed c
  pub output : c'.output ≡ c.output
  pub given : c'.given ≡ c.given
  pub told : changes c'.upcalls ≡ changes c.upcalls

module _ {Cb : Type 0} where
  pub same : {c : KcpConnection Cb} → Alike c c
  same = record { state = refl; settings = refl; output = refl; given = refl; told = refl }

  pub Alike-trans : {c d e : KcpConnection Cb} → Alike c d → Alike d e → Alike c e
  Alike-trans a b = record {
    state = b.state ∙ a.state;
    settings = b.settings ∙ a.settings;
    output = b.output ∙ a.output;
    given = b.given ∙ a.given;
    told = b.told ∙ a.told;
  }

  pub cancel-Alike : (c : KcpConnection Cb) (t : Option ℕ) → Alike c (cancel c t)
  cancel-Alike c timer = record {
    state = refl;
    settings = refl;
    output = refl;
    given = refl;
    told = refl;
  }

  pub kcp_output_all-Alike :
      (packets : List (List ℕ)) (c : KcpConnection Cb) → IfOk (Alike c) (kcp_output_all c packets)
  unfolding kcp_output_all kcp_output
  kcp_output_all-Alike [] c = settled same
  kcp_output_all-Alike (p ∷ ps) c =
      IfOk-bind {P = Alike c}
        (IfOk-assert (is_connected c.state) λ up. IfOk-assert (not (is_none c.peer)) λ there.
          settled {a = transmit c p}
            (record { state = refl; settings = refl; output = refl; given = refl; told = refl }))
        λ d a. IfOk-weaken (kcp_output_all-Alike ps d) λ e b. Alike-trans a b

  module _ (kcp : Kcp Cb) where
    schedule-Alike : (now next : ℕ) (c : KcpConnection Cb) → IfOk (Alike c) (schedule now next c)
    unfolding schedule
    schedule-Alike now next c = IfOk-assert (leb (milliseconds now) next) λ later.
        IfOk-assert (ltb 0 (now + (next - milliseconds now) * 1000 % 2 ^ 32)) λ valid.
          let b = cancel-Alike c c.update_timer in
          settled {a = arm_update (cancel c c.update_timer)} (record {
            state = b.state;
            settings = b.settings;
            output = b.output;
            given = b.given;
            told = b.told;
          })

    pub kcp_update_manual-Alike :
        (now : ℕ) (c : KcpConnection Cb) → IfOk (Alike c) (kcp_update_manual kcp now c)
    unfolding kcp_update_manual
    kcp_update_manual-Alike now c = IfOk-assert (is_connected c.state) λ up.
        IfOk-bind (IfOk-any (follow c.kcp)) λ block found.
          IfOk-bind (kcp_output_all-Alike _ _) λ sent a.
            IfOk-weaken (schedule-Alike now _ sent) λ d b. record {
              state = b.state ∙ a.state;
              settings = b.settings ∙ a.settings;
              output = b.output ∙ a.output;
              given = b.given ∙ a.given;
              told = b.told ∙ a.told;
            }

    module _ (h : Handlers) where
      take_in-Alike : (c : KcpConnection Cb) (r : Recv × Cb) → IfOk (Alike c) (take_in kcp h c r)
      unfolding take_in
      take_in-Alike c (again, block) =
          settled
            (record { state = refl; settings = refl; output = refl; given = refl; told = refl })
      take_in-Alike c (too_small, block) =
          settled
            (record { state = refl; settings = refl; output = refl; given = refl; told = refl })
      take_in-Alike c (received xs, block) =
          IfOk-bind (IfOk-any (write_at c.input c.input.writer_index xs)) λ stored e.
            IfOk-bind (IfOk-any (has_written stored (length xs))) λ input e'.
              IfOk-assert h.message λ set. settled (record {
                state = refl;
                settings = refl;
                output = refl;
                given = refl;
                told = changes-append c.upcalls _ ∙ append-nil (changes c.upcalls);
              })

      pub handle_kcp_message-Alike :
          (now : ℕ) (c : KcpConnection Cb) (datagram : List ℕ)
          → IfOk (Alike c) (handle_kcp_message kcp h now c datagram)
      unfolding handle_kcp_message
      handle_kcp_message-Alike now c datagram = IfOk-bind (IfOk-any (follow c.kcp)) λ block found.
          IfOk-bind
            (kcp_update_manual-Alike now (record c { kcp = some (kcp.input block datagram) }))
            λ d a. IfOk-bind (IfOk-any (follow d.kcp)) λ block' found'.
              IfOk-weaken (take_in-Alike d _) λ e b. record {
                state = b.state ∙ a.state;
                settings = b.settings ∙ a.settings;
                output = b.output ∙ a.output;
                given = b.given ∙ a.given;
                told = b.told ∙ a.told;
              }
