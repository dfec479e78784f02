-- ===== src/KcpConnection/Life.antt =====
-- The callbacks about the state of a connection of sznet/net/KcpConnection.cpp, and its output.
use sznet.Base.{
  ◌<◌, ◌^◌, ℕ, ◌≤◌, ◌≡◌, sym, ap, ◌∙◌, true, List, [], ◌∷◌, ◌++◌, ◌⊎◌, inl, inr, length, append-nil,
  append_assoc, length-append, arith,
}
use sznet.Buffer.{contents}
use sznet.Buffer.Room
use sznet.KcpConnection.{
  State, disconnected, delay_disconnecting, disconnecting, connecting, connected, Upcall, threshold,
  connection_callback, close_callback, KcpConnection, is_alive, is_closable, is_ending,
}
use sznet.KcpConnection.Core.{fixed, changes, Alike}

-- It was told at most that it is up.
abbrev pub Begun : List Upcall → Type 0
Begun us = (us ≡ []) ⊎ (us ≡ connection_callback connected ∷ [])

-- It was told that it is down, and maybe its owner then that it was closed.
abbrev pub Ended : List Upcall → Type 0
Ended us =
    (before : List Upcall) × Begun before
    × ((us ≡ before ++ connection_callback disconnected ∷ [])
        ⊎ ((s : State) × (us ≡ before ++ connection_callback disconnected ∷ close_callback s ∷ [])))

-- What was told about a connection in a state.
abbrev pub Life : State → List Upcall → Type 0
Life connecting us = us ≡ []
Life connected us = us ≡ connection_callback connected ∷ []
Life delay_disconnecting us = Begun us
Life disconnecting us = Begun us
Life disconnected us = Ended us

pub ending-Begun : (s : State) (us : List Upcall) → is_ending s ≡ true → Life s us → Begun us
ending-Begun connecting us e l = inl l
ending-Begun connected us e l = inr l
ending-Begun delay_disconnecting us e l = l
ending-Begun disconnecting us e l = l
ending-Begun disconnected us e l = cc

pub closable-Begun : (s : State) (us : List Upcall) → is_closable s ≡ true → Life s us → Begun us
closable-Begun connecting us e l = inl l
closable-Begun connected us e l = inr l
closable-Begun delay_disconnecting us e l = l
closable-Begun disconnecting us e l = l
closable-Begun disconnected us e l = cc

pub alive-Begun : (s : State) (us : List Upcall) → is_alive s ≡ true → Life s us → Begun us
alive-Begun connecting us e l = inl l
alive-Begun connected us e l = inr l
alive-Begun delay_disconnecting us e l = l
alive-Begun disconnecting us e l = l
alive-Begun disconnected us e l = cc

module _ {Cb : Type 0} where
  -- The output keeps its bytes and gets `rest` behind them; if it held the threshold, and its length
  -- is an `int` still, KCP was given nothing.
  pub record Held (c c' : KcpConnection Cb) : Type 0 where
    pub valid : Room.IsValid c'.output
    pub rest : List ℕ
    pub bytes : contents c'.output ≡ contents c.output ++ rest
    pub given :
        threshold c.settings ≤ length (contents c.output)
        → length (contents c'.output) < 2 ^ 31
        → c'.given ≡ c.given

  -- An operation brings `c` to `c'`.
  pub record Kept (c c' : KcpConnection Cb) : Type 0 where
    pub life : Life c.state (changes c.upcalls) → Life c'.state (changes c'.upcalls)
    pub settings : fixed c' ≡ fixed c
    pub held : Room.IsValid c.output → Held c c'

  pub quiet-Held :
      {c c' : KcpConnection Cb}
      → c'.output ≡ c.output
      → c'.given ≡ c.given
      → Room.IsValid c.output
      → Held c c'
  quiet-Held {c} e g v = record {
    valid = rw e v;
    rest = [];
    bytes = ap contents e ∙ sym (append-nil (contents c.output));
    given = λ stuck small. g;
  }

  pub Alike-Kept : {c c' : KcpConnection Cb} → Alike c c' → Kept c c'
  Alike-Kept a = record {
    life = λ l. rw (a.state, a.told) l;
    settings = a.settings;
    held = quiet-Held a.output a.given;
  }

  pub Kept-trans : {c d e : KcpConnection Cb} → Kept c d → Kept d e → Kept c e
  Kept-trans {c} {d} {e} a b = record {
    life = λ l. b.life (a.life l);
    settings = b.settings ∙ a.settings;
    held = λ v.
        let first = a.held v in
        let second = b.held first.valid in
        record {
          valid = second.valid;
          rest = first.rest ++ second.rest;
          bytes =
              second.bytes
              ∙ ap (λ l. l ++ second.rest) first.bytes
              ∙ append_assoc (contents c.output) first.rest second.rest;
          given = λ stuck small.
              let grown : threshold d.settings ≤ length (contents d.output) =
                rw (ap (λ f. f.0) a.settings, first.bytes)
                  (omega (arith, stuck, length-append (contents c.output) first.rest)) in
              let longer = ap length second.bytes ∙ length-append (contents d.output) second.rest in
              second.given grown small ∙ first.given stuck (omega (arith, small, longer));
        };
  }
