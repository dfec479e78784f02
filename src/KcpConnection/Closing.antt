-- ===== src/KcpConnection/Closing.antt =====
-- The operations of sznet/net/KcpConnection.cpp that change the state.
use sznet.Base.{◌≡◌, refl, ap, ◌∙◌, true, List, [], ◌∷◌, ◌++◌, inl, inr, Bool-cases, append_assoc}
use sznet.Run.{IfOk, settled, IfOk-bind, IfOk-assert, IfOk-if, IfOk-weaken}
use sznet.KcpConnection.{
  State, disconnected, delay_disconnecting, disconnecting, connecting, connected, KcpConnection,
  Upcall, connection_callback, close_callback, Handlers, is_connected, is_connecting, is_ending,
  is_closable, is_alive, set_state, cancel, run_at, update_manual, call, force_close,
  force_close_with_delay, notify, connect_established, handle_kcp_close, force_close_in_loop,
  connect_destroyed,
}
use sznet.KcpConnection.Core.{fixed, changes, changes-append, same, cancel-Alike, Alike-trans}
use sznet.KcpConnection.Life.{
  Life, ending-Begun, closable-Begun, alive-Begun, Kept, quiet-Held, Alike-Kept,
}

-- The first report that a connection is up.
first-Life :
    (s : State) (us : List Upcall)
    → is_connecting s ≡ true
    → Life s us
    → us ++ connection_callback connected ∷ [] ≡ connection_callback connected ∷ []
first-Life connecting us e l = rw l refl
first-Life connected us e l = cc
first-Life delay_disconnecting us e l = cc
first-Life disconnecting us e l = cc
first-Life disconnected us e l = cc

up-Life :
    (s : State) (us : List Upcall)
    → is_connected s ≡ true
    → Life s us
    → us ≡ connection_callback connected ∷ []
up-Life connecting us e l = cc
up-Life connected us e l = l
up-Life delay_disconnecting us e l = cc
up-Life disconnecting us e l = cc
up-Life disconnected us e l = cc

module _ {Cb : Type 0} where
  pub force_close-Kept : (c : KcpConnection Cb) → Kept c (force_close c)
  unfolding force_close
  force_close-Kept c = elim (Bool-cases (is_closable c.state)) [
    | inl e ↦ rw e (record {
      life = λ l. closable-Begun c.state (changes c.upcalls) e l;
      settings = refl;
      held = quiet-Held refl refl;
    })
    | inr e ↦ rw e (Alike-Kept same)
  ]

  pub force_close_with_delay-Kept : (c : KcpConnection Cb) → Kept c (force_close_with_delay c)
  unfolding force_close_with_delay
  force_close_with_delay-Kept c = elim (Bool-cases (is_alive c.state)) [
    | inl e ↦ rw e (record {
      life = λ l. alive-Begun c.state (changes c.upcalls) e l;
      settings = refl;
      held = quiet-Held refl refl;
    })
    | inr e ↦ rw e (Alike-Kept same)
  ]

  -- `c'` is `c` after its state was reported.
  record Notified (c c' : KcpConnection Cb) : Type 0 where
    pub state : c'.state ≡ c.state
    pub settings : fixed c' ≡ fixed c
    pub output : c'.output ≡ c.output
    pub given : c'.given ≡ c.given
    pub told : changes c'.upcalls ≡ changes c.upcalls ++ connection_callback c.state ∷ []

  module _ (h : Handlers) where
    notify-Notified : (c : KcpConnection Cb) → IfOk (Notified c) (notify h c)
    notify-Notified c = IfOk-assert h.connection λ set.
        settled {a = call c (connection_callback c.state)} (record {
          state = refl;
          settings = refl;
          output = refl;
          given = refl;
          told = changes-append c.upcalls _;
        })

    pub connect_established-Kept : (c : KcpConnection Cb) → IfOk (Kept c) (connect_established h c)
    unfolding connect_established
    connect_established-Kept c = IfOk-assert (is_connecting c.state) λ e.
        IfOk-bind (notify-Notified (set_state c connected)) λ d n.
          let a = cancel-Alike d d.update_timer in
          settled {a = run_at (cancel d d.update_timer) update_manual} (record {
            life = λ l.
                rw (a.state, a.told, n.state, n.told) (first-Life c.state (changes c.upcalls) e l);
            settings = a.settings ∙ n.settings;
            held = quiet-Held (a.output ∙ n.output) (a.given ∙ n.given);
          })

    handle_kcp_close-Kept : (c : KcpConnection Cb) → IfOk (Kept c) (handle_kcp_close h c)
    unfolding handle_kcp_close
    handle_kcp_close-Kept c = IfOk-assert (is_ending c.state) λ e.
        let closed = set_state c disconnected in
        let a1 = cancel-Alike closed closed.update_timer in
        let a2 = cancel-Alike (cancel closed closed.update_timer) closed.verify_timer in
        let a = Alike-trans a1 a2 in
        let quiet = cancel (cancel closed closed.update_timer) closed.verify_timer in
        IfOk-bind (notify-Notified _) λ d n. settled {a = call d (close_callback c.state)} (record {
          life = λ l.
              rw (n.state, a.state)
                (
                  changes c.upcalls,
                  ending-Begun c.state (changes c.upcalls) e l,
                  inr (
                    c.state,
                    changes-append d.upcalls _
                        ∙ ap (λ us. us ++ close_callback c.state ∷ [])
                            (n.told ∙ reported c quiet a.state a.told)
                        ∙ append_assoc (changes c.upcalls) _ _,
                  ),
                );
          settings = n.settings ∙ a.settings;
          held = quiet-Held (n.output ∙ a.output) (n.given ∙ a.given);
        })
      where
        reported :
            (c d : KcpConnection Cb)
            → d.state ≡ disconnected
            → changes d.upcalls ≡ changes c.upcalls
            → changes d.upcalls ++ connection_callback d.state ∷ []
              ≡ changes c.upcalls ++ connection_callback disconnected ∷ []
        reported c d e e' = rw (e, e') refl

    pub force_close_in_loop-Kept : (c : KcpConnection Cb) → IfOk (Kept c) (force_close_in_loop h c)
    unfolding force_close_in_loop
    force_close_in_loop-Kept c =
        IfOk-if (is_ending c.state) (λ e. handle_kcp_close-Kept c) λ e. settled (Alike-Kept same)

    pub connect_destroyed-Kept : (c : KcpConnection Cb) → IfOk (Kept c) (connect_destroyed h c)
    unfolding connect_destroyed
    connect_destroyed-Kept c =
        IfOk-if (is_connected c.state)
          (λ e. IfOk-weaken (notify-Notified (set_state c disconnected)) λ d n. record {
            life = λ l.
                rw n.state
                  (changes c.upcalls, inr (up-Life c.state (changes c.upcalls) e l), inl n.told);
            settings = n.settings;
            held = quiet-Held n.output n.given;
          })
          λ e. settled (Alike-Kept same)
