-- ===== src/Channel/Order.antt =====
-- The order of the callbacks in sznet/net/Channel.cpp.
use sznet.Base.{ℕ, ◌≡◌, refl, Bool, true, false, ◌&&◌, not, ◌||◌, List, [], ◌∷◌, ◌++◌, ltb}
use sznet.Channel.{
  Callback, close_callback, error_callback, read_callback, write_callback, Callbacks, call_if, has,
  handle_event, handle_event_with_guard, hup_event, read_event, error_event, nval_event, pri_event,
  rd_hup_event, write_event,
}

-- Close, error, read, write.
abbrev pub rank : Callback → ℕ
rank close_callback = 0
rank error_callback = 1
rank read_callback = 2
rank write_callback = 3

-- Each callback comes behind all those before it in the order, so none comes twice.
abbrev pub ascending : List Callback → Bool
ascending [] = true
ascending (c ∷ []) = true
ascending (c ∷ d ∷ cs) = ltb (rank c) (rank d) && ascending (d ∷ cs)

ascending-call_if :
    (a b c d : Bool)
    → ascending (
        call_if a close_callback
        ++ (call_if b error_callback ++ (call_if c read_callback ++ call_if d write_callback)))
      ≡ true
ascending-call_if true true true true = refl
ascending-call_if true true true false = refl
ascending-call_if true true false true = refl
ascending-call_if true true false false = refl
ascending-call_if true false true true = refl
ascending-call_if true false true false = refl
ascending-call_if true false false true = refl
ascending-call_if true false false false = refl
ascending-call_if false true true true = refl
ascending-call_if false true true false = refl
ascending-call_if false true false true = refl
ascending-call_if false true false false = refl
ascending-call_if false false true true = refl
ascending-call_if false false true false = refl
ascending-call_if false false false true = refl
ascending-call_if false false false false = refl

ascending-handle_event_with_guard :
    (handlers : Callbacks) (revents : ℕ)
    → ascending (handle_event_with_guard handlers revents) ≡ true
unfolding handle_event_with_guard
ascending-handle_event_with_guard handlers revents =
    ascending-call_if ((has revents hup_event && not (has revents read_event)) && handlers.close)
      ((has revents error_event || has revents nval_event) && handlers.error)
      ((has revents read_event || (has revents pri_event || has revents rd_hup_event))
        && handlers.read)
      (has revents write_event && handlers.write)

-- Whatever events came and whatever callbacks are set, handleEvent calls each callback at most
-- once, in the order close, error, read, write.
pub ascending-handle_event :
    (tied alive : Bool) (handlers : Callbacks) (revents : ℕ)
    → ascending (handle_event tied alive handlers revents) ≡ true
unfolding handle_event
ascending-handle_event true true handlers revents =
    ascending-handle_event_with_guard handlers revents
ascending-handle_event true false handlers revents = refl
ascending-handle_event false alive handlers revents =
    ascending-handle_event_with_guard handlers revents
