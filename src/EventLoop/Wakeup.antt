-- ===== src/EventLoop/Wakeup.antt =====
-- The wakeups of sznet/net/EventLoop.cpp: when the thread of the loop waits while functors wait.
use sznet.Base.{
  ℕ, ◌+◌, ◌<◌, ◌≡◌, refl, ap, ◌∙◌, sym, subst, Bool, true, false, List, [], ◌∷◌, ◌++◌,
  if◌then◌else◌, length,
}
use sznet.Run.{ok, Ensures, returned}
use sznet.EventLoop.{
  in_timers, polling, EventLoop, wakeup, queue_in_loop, push, poll, advance, is_handling,
  is_calling, Reachable,
}
use sznet.EventLoop.Order.{Reachable-Kept}

-- While functors wait, the event descriptor is readable or soon will be, or the thread is on its way to
-- take them.
abbrev pub IsAwake : EventLoop → Type 0
IsAwake l = is_handling l.phase ≡ false → 0 < length l.pending → 0 < l.wake + l.waking

-- `l'` is `l` at the poll, with another functor and no other wakeup.
pub record Waits (l : EventLoop) (f : ℕ) (l' : EventLoop) : Type 0 where
  pub phase : l'.phase ≡ polling
  pub pending : l'.pending ≡ l.pending ++ f ∷ []
  pub wake : l'.wake ≡ l.wake
  pub waking : l'.waking ≡ l.waking

queued_idle : (l : EventLoop) (f : ℕ) → l.calling ≡ false → queue_in_loop true l f ≡ push l f
unfolding queue_in_loop
queued_idle l f idle = ap (λ b. if b then wakeup (push l f) else push l f) idle

timers-Waits :
    (l : EventLoop) (f : ℕ) → l.phase ≡ in_timers → Ensures (Waits l f) (advance (push l f))
unfolding advance
timers-Waits l f at =
    subst (λ r. Ensures (Waits l f) r) (sym polls)
      (returned (record { phase = refl; pending = refl; wake = refl; waking = refl }))
  where
    polls : advance (push l f) ≡ ok (poll (push l f))
    polls = rw at refl

-- If the callback of a timer queues a functor, then after whatever history the thread of the loop
-- can go to the poll with this functor waiting and no wakeup more than there was before.
pub queue_in_loop-Waits :
    {early : Bool} {queued : List ℕ} {l : EventLoop} (f : ℕ)
    → Reachable early queued l
    → l.phase ≡ in_timers
    → Ensures (Waits l f) (advance (queue_in_loop true l f))
queue_in_loop-Waits {l = l} f r at =
    subst (λ m. Ensures (Waits l f) (advance m))
      (sym (queued_idle l f ((Reachable-Kept r).0.calling ∙ ap is_calling at)))
      (timers-Waits l f at)
