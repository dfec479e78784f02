-- ===== src/Connector/Invariant.antt =====
-- What holds of a connector of sznet/net/Connector.cpp between two operations, and while a socket is
-- given up.
use sznet.Base.{
  ℕ, suc, ◌+◌, ◌≤◌, ◌≡◌, ◌∙◌, Bool, true, false, not, ◌&&◌, List, [], ◌∷◌, ◌++◌, if◌then◌else◌, inl,
  inr, Bool-cases, arith,
}
use sznet.Run.{Ensures, returned, Ensures-within}
use sznet.Connector.{
  State, Outcome, socket_error, self_connect, established, Task, reset_task, Connector,
  is_connecting, retry, remove_and_reset_channel, settle,
}

abbrev pub is_reset : Task → Bool
is_reset reset_task = true
is_reset _ = false

-- How many tasks will reset the channel.
abbrev pub resets : List Task → ℕ
resets [] = 0
resets (t ∷ ts) = (if is_reset t then 1 else 0) + resets ts

pub resets-append :
    (ts : List Task) (t : Task) → resets (ts ++ t ∷ []) ≡ resets ts + (if is_reset t then 1 else 0)
resets-append [] t = omega arith
resets-append (s ∷ ts) t = omega (arith, resets-append ts t)

-- Every socket was closed or handed over, but for the one that is connecting. A channel is there while
-- it connects, and then until its task has run. The delay keeps to its bounds.
pub record IsValid (c : Connector) : Type 0 where
  pub sockets : c.created ≡ c.closed + c.handed_over + (if is_connecting c.state then 1 else 0)
  pub channel : is_connecting c.state ≡ true → c.channel ≡ true
  pub resets : resets c.tasks ≡ (if c.channel && not (is_connecting c.state) then 1 else 0)
  pub low : 500 ≤ c.retry_delay_ms
  pub high : c.retry_delay_ms ≤ 30000

-- The socket in use was not counted yet.
pub record IsOpen (c : Connector) : Type 0 where
  pub sockets : c.created ≡ suc (c.closed + c.handed_over)
  pub resets : resets c.tasks ≡ (if c.channel then 1 else 0)
  pub low : 500 ≤ c.retry_delay_ms
  pub high : c.retry_delay_ms ≤ 30000

pub retry-IsValid : (c : Connector) → IsOpen c → IsValid (retry c)
unfolding retry
retry-IsValid c o = elim (Bool-cases c.connect) [
  | inl wanted ↦ rw wanted (record {
    sockets = omega (arith, o.sockets);
    channel = λ e. absurd (ground (arith, e));
    resets = ground (arith, o.resets);
    low = omega (arith, o.low);
    high = omega arith;
  })
  | inr alone ↦ rw alone (record {
    sockets = omega (arith, o.sockets);
    channel = λ e. absurd (ground (arith, e));
    resets = ground (arith, o.resets);
    low = o.low;
    high = o.high;
  })
]

pub settle-IsValid : (c : Connector) (o : Outcome) → IsOpen c → IsValid (settle c o)
settle-IsValid c socket_error o = retry-IsValid c o
settle-IsValid c self_connect o = retry-IsValid c o
settle-IsValid c established o = elim (Bool-cases c.connect) [
  | inl wanted ↦ rw wanted (record {
    sockets = omega (arith, o.sockets);
    channel = λ e. absurd (ground (arith, e));
    resets = ground (arith, o.resets);
    low = o.low;
    high = o.high;
  })
  | inr alone ↦ rw alone (record {
    sockets = omega (arith, o.sockets);
    channel = λ e. absurd (ground (arith, e));
    resets = ground (arith, o.resets);
    low = o.low;
    high = o.high;
  })
]

-- A channel of a socket that was connecting is taken away: its task is queued.
pub removed-IsOpen :
    (c : Connector) (s : State)
    → IsValid c
    → is_connecting c.state ≡ true
    → Ensures IsOpen (remove_and_reset_channel (record c { state = s }))
unfolding remove_and_reset_channel
removed-IsOpen c s v up = Ensures-within c.channel (v.channel up) (
    returned (record {
      sockets = ground (arith, v.sockets, up);
      resets = resets-append c.tasks reset_task ∙ ground (arith, v.resets, v.channel up, up);
      low = v.low;
      high = v.high;
    }))
