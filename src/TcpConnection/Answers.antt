-- ===== src/TcpConnection/Answers.antt =====
-- What a round of reading of sznet/net/TcpConnection.cpp is to do with the answers of the system call.
use sznet.Base.{◌⊎◌, ℕ, ◌+◌, ◌≡◌, refl, List, [], ◌∷◌, ◌++◌, if◌then◌else◌, length, inl, inr}
use sznet.Buffer.{contents}
use sznet.Buffer.Read.{Received, bytes, failed, Bounded, extra_size}
use sznet.TcpConnection.{
  TcpConnection, State, disconnected, Failure, eintr, eagain, other, Handlers, Upcall,
  connection_callback, message_callback, close_callback,
}
use sznet.TcpConnection.Invariant.{IsValid, stream}

-- How a round of reading ends: no more has arrived, the peer shut its side, or a call failed.
pub data Ending : Type 0 where
  waits ended broke : Ending

module _ (kind : ℕ → Failure) where
  -- The bytes that the answers of the system call bring, up to the one that ends the round.
  abbrev pub arrived : List Received → List ℕ
  arrived [] = []
  arrived (bytes [] ∷ rs) = []
  arrived (bytes (x ∷ xs) ∷ rs) = (x ∷ xs) ++ arrived rs
  arrived (failed e ∷ rs) =
      let rest = arrived rs in elim (kind e) [ eintr ↦ rest | eagain ↦ [] | other ↦ [] ]

  abbrev pub ending : List Received → Ending
  ending [] = waits
  ending (bytes [] ∷ rs) = ended
  ending (bytes (x ∷ xs) ∷ rs) = ending rs
  ending (failed e ∷ rs) =
      let rest = ending rs in elim (kind e) [ eintr ↦ rest | eagain ↦ waits | other ↦ broke ]

pub Failure-cases : (f : Failure) → (f ≡ eintr) ⊎ ((f ≡ eagain) ⊎ (f ≡ other))
Failure-cases eintr = inl refl
Failure-cases eagain = inr (inl refl)
Failure-cases other = inr (inr refl)

-- The answers as system calls, and a last one that would block.
abbrev pub calls : List Received → ℕ → List (List ℕ → Received)
calls [] blocked = (λ lens. failed blocked) ∷ []
calls (r ∷ rs) blocked = (λ lens. r) ∷ calls rs blocked

-- No answer brings more than the room that every `readvFd` gives.
abbrev pub AllBounded : List Received → Type 0
AllBounded [] = Unit
AllBounded (r ∷ rs) = Bounded extra_size r × AllBounded rs

abbrev pub on_close : Handlers → List Upcall
on_close h =
    if h.connection
    then connection_callback disconnected ∷ close_callback ∷ []
    else close_callback ∷ []

-- Who is called at the end of a round, with these bytes in the input.
abbrev pub told : Handlers → Ending → List ℕ → List Upcall
told h waits input = message_callback input ∷ []
told h ended input = on_close h
told h broke input = on_close h ++ message_callback input ∷ []

abbrev pub state_after : Ending → State → State
state_after waits s = s
state_after ended s = disconnected
state_after broke s = disconnected

-- `c'` is `c` after a round of reading that brought `xs` and ended in this way.
pub record Read (h : Handlers) (c : TcpConnection) (xs : List ℕ) (e : Ending) (c' : TcpConnection)
    : Type 0 where
  pub valid : IsValid c'
  pub input : contents c'.input ≡ contents c.input ++ xs
  pub counted : c'.recv_bytes ≡ c.recv_bytes + length xs
  pub kept : stream c' ≡ stream c
  pub state : c'.state ≡ state_after e c.state
  pub upcalls : c'.upcalls ≡ c.upcalls ++ told h e (contents c.input ++ xs)
