-- ===== src/SelectPoller/Tests.antt =====
-- The theorems about sznet/net/SelectPoller.cpp at a concrete poller.
use sznet.Base.{ℕ, ◌≡◌, ◌≢◌, refl, false, List, Option, none, some, ◌==◌, if◌then◌else◌, arith}
use sznet.Run.{Run, ok, ◌>>=◌, Ensures}
use sznet.SelectPoller.{SelectPoller, update_channel, remove_channel}
use sznet.SelectPoller.Polling.{Selected, ready, select_error}
use sznet.SelectPoller.Watched.{IsValid, watched, update_channel-watched}

-- The channels at 7 and 8, of the descriptors 3 and 4; the first one has no events any more, and the
-- second one asks for reads and writes from now on.
abbrev two : SelectPoller
two = record {
  pollfds = λ i. if i == 0 then record { fd = 3; ev = 0 } else record { fd = 4; ev = 1 };
  size = 2;
  channels = λ f. if f == 3 then some 7 else if f == 4 then some 8 else none;
  memory = λ c.
      if c == 7
      then record { fd = 3; events = 0; index = some 0 }
      else record { fd = 4; events = 9; index = some 1 };
}

two-IsValid : IsValid two
two-IsValid = record {
  present = λ i h. ground arith;
  own = λ f c h. ground arith;
  indexed = λ f c h. ground arith;
  located = λ f c i h k. ground arith;
  alone = λ f c i h k s. ground arith;
}

-- The last channel takes the place of the removed one.
places : Run SelectPoller → Run (ℕ × ℕ × Option ℕ × Option ℕ)
places r = r >>= λ p. ok (p.size, (p.pollfds 0).fd, (p.memory 8).index, (p.memory 7).index)

remove_run : places (remove_channel two 7) ≡ ok (1, 4, some 0, some 0)
unfolding places remove_channel
remove_run = refl

update_channel-watched_example :
    Ensures
      (λ p'.
        IsValid p' × (watched p' 4 ≡ some 9) × ((f : ℕ) → f ≢ 4 → watched p' f ≡ watched two f))
      (update_channel two 8)
update_channel-watched_example =
    update_channel-watched two 8 two-IsValid (λ e. absurd (ground arith)) (λ e. refl)

-- Of the descriptors up to 4, the second one is ready for reading.
abbrev select : ℕ → List ℕ → List ℕ → List ℕ → Selected
select nfds reads writes errors =
    if nfds == 5 then ready 1 (λ f. f == 4) (λ f. false) (λ f. false) else select_error
