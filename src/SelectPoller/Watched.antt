-- ===== src/SelectPoller/Watched.antt =====
-- What sznet/net/SelectPoller.cpp watches: a map from descriptors to events.
use sznet.Base.{
  ℕ, suc, ◌-◌, ◌<◌, ◌≡◌, ◌≢◌, refl, true, false, not, Option, none, some, ltb, ◌==◌, Option-cases,
  inl, inr, eq_self, arith,
}
use sznet.Run.{abort, ◌>>=◌, Ensures, returned, Ensures-if, Ensures-assert, Ensures-value}
use sznet.MinHeap.{update}
use sznet.SelectPoller.{
  Event, SelectPoller, is_found, is_channel, set_index, update_channel, remove_channel,
}

-- Every channel in the map has the place of its descriptor as its index, and every place is taken
-- by such a channel.
pub record IsValid (p : SelectPoller) : Type 0 where
  pub present : (i : ℕ) → i < p.size → is_found (p.channels (p.pollfds i).fd) ≡ true
  pub own : (f c : ℕ) → p.channels f ≡ some c → (p.memory c).fd ≡ f
  pub indexed : (f c : ℕ) → p.channels f ≡ some c → is_found (p.memory c).index ≡ true
  pub located :
      (f c i : ℕ)
      → p.channels f ≡ some c
      → (p.memory c).index ≡ some i
      → (i < p.size) × ((p.pollfds i).fd ≡ f)
  pub alone :
      (f c i : ℕ)
      → p.channels f ≡ some c
      → i < p.size
      → (p.pollfds i).fd ≡ f
      → (p.memory c).index ≡ some i

abbrev pub event_at : (ℕ → Event) → Option ℕ → Option ℕ
event_at pollfds none = none
event_at pollfds (some i) = some (pollfds i).ev

-- The events that a descriptor is watched for.
abbrev pub watched : SelectPoller → ℕ → Option ℕ
watched p f = elim (p.channels f) [ none ↦ none | some c ↦ event_at p.pollfds (p.memory c).index ]

-- What is watched of `f` is a matter of its channel, the index of that, and the events there.
watched_congr :
    (p p' : SelectPoller) (f : ℕ)
    → IsValid p
    → p'.channels f ≡ p.channels f
    → ((d i : ℕ)
        → p.channels f ≡ some d
        → (p.memory d).index ≡ some i
        → event_at p'.pollfds (p'.memory d).index ≡ some (p.pollfds i).ev)
    → watched p' f ≡ watched p f
watched_congr p p' f v same events = elim (Option-cases (p.channels f)) [
  | inl out ↦ rw (watched, same, out) refl
  | inr (d, held) ↦ elim (Option-cases (p.memory d).index) [
    | inl loose ↦ absurd (ground (arith, v.indexed f d held, loose))
    | inr (i, at) ↦ rw (watched, same, held, at) (events d i held at)
  ]
]

abbrev added : SelectPoller → ℕ → SelectPoller
added p c = record p {
  pollfds = update p.pollfds p.size (record { fd = (p.memory c).fd; ev = (p.memory c).events });
  size = suc p.size;
  channels = update p.channels (p.memory c).fd (some c);
  memory = set_index p.memory c p.size;
}

added-IsValid :
    (p : SelectPoller) (c : ℕ)
    → IsValid p
    → (p.memory c).index ≡ none
    → p.channels (p.memory c).fd ≡ none
    → IsValid (added p c)
added-IsValid p c v loose free = record {
  present = λ i h. ground (arith, v.present i);
  own = λ f d h. ground (arith, v.own f d, h);
  indexed = λ f d h. ground (arith, v.indexed f d, h);
  located = λ f d i h k. ground (arith, v.located f d i, v.indexed f d, loose, h, k);
  alone = λ f d i h k s.
      ground (arith, v.alone f d i, v.indexed f d, v.present i, loose, free, h, k, s);
}

abbrev changed : SelectPoller → ℕ → ℕ → SelectPoller
changed p c i = record p {
  pollfds = update p.pollfds i (record { fd = (p.memory c).fd; ev = (p.memory c).events });
}

changed-IsValid :
    (p : SelectPoller) (c i : ℕ)
    → IsValid p
    → p.channels (p.memory c).fd ≡ some c
    → (p.memory c).index ≡ some i
    → IsValid (changed p c i)
changed-IsValid p c i v held at = record {
  present = λ j h. ground (arith, v.present j, held, h);
  own = v.own;
  indexed = v.indexed;
  located =
      λ f d j h k. ground (arith, v.located f d j, v.located (p.memory c).fd c i held at, h, k);
  alone =
      λ f d j h k s. ground (arith, v.alone f d j, v.located (p.memory c).fd c i held at, h, k, s);
}

-- On a valid poller, for a channel that has no index and whose descriptor is unknown, or that has
-- an index and is the one of its descriptor, updateChannel returns: the poller stays valid, the
-- descriptor of the channel is watched for the events of the channel, and every other one for
-- what it was watched for.
pub update_channel-watched :
    (p : SelectPoller) (c : ℕ)
    → IsValid p
    → ((p.memory c).index ≡ none → p.channels (p.memory c).fd ≡ none)
    → (is_found (p.memory c).index ≡ true → p.channels (p.memory c).fd ≡ some c)
    → Ensures
        (λ p'.
          IsValid p'
          × (watched p' (p.memory c).fd ≡ some (p.memory c).events)
          × ((f : ℕ) → f ≢ (p.memory c).fd → watched p' f ≡ watched p f))
        (update_channel p c)
unfolding update_channel
update_channel-watched p c v fresh kept = elim (Option-cases (p.memory c).index) [
  | inl loose ↦
      let free = fresh loose in
      rw (loose, update_channel)
        (Ensures-assert (not (is_found (p.channels (p.memory c).fd))) (rw free refl) (
          returned (
            added-IsValid p c v loose free,
            rw (watched, eq_self (p.memory c).fd) (rw (eq_self c) (rw (eq_self p.size) refl)),
            λ f other.
                watched_congr p (added p c) f v (ground (arith, other))
                  λ d j h k. ground (arith, v.indexed f d h, v.located f d j h k, loose, k),
          )))
  | inr (i, at) ↦
      let held = kept (rw at refl) in
      let place = v.located (p.memory c).fd c i held at in
      rw (at, update_channel)
        (Ensures-assert (is_found (p.channels (p.memory c).fd)) (rw held refl) (
          Ensures-assert (is_channel (p.channels (p.memory c).fd) c) (rw held (eq_self c)) (
            Ensures-assert (ltb i p.size) (ground (arith, place)) (
              Ensures-assert ((p.pollfds i).fd == (p.memory c).fd)
                (rw place.1 (eq_self (p.memory c).fd))
                (returned (
                  changed-IsValid p c i v held at,
                  rw (watched, held, at) (rw (eq_self i) refl),
                  λ f other.
                      watched_congr p (changed p c i) f v refl
                        λ d j h k. ground (arith, v.located f d j h k, place, other, k),
                ))))))
]

abbrev shrunk : SelectPoller → ℕ → SelectPoller
shrunk p c = record p { channels = update p.channels (p.memory c).fd none; size = p.size - 1 }

removed-IsValid :
    (p : SelectPoller) (c : ℕ)
    → IsValid p
    → p.channels (p.memory c).fd ≡ some c
    → (p.memory c).index ≡ some (p.size - 1)
    → IsValid (shrunk p c)
removed-IsValid p c v held at = record {
  present = λ i h. ground (arith, v.present i, v.alone (p.memory c).fd c i held, at, h);
  own = λ f d h. ground (arith, v.own f d, h);
  indexed = λ f d h. ground (arith, v.indexed f d, h);
  located = λ f d i h k.
      ground (arith, v.located f d i, v.located (p.memory c).fd c (p.size - 1), held, at, h, k);
  alone = λ f d i h k s. ground (arith, v.alone f d i, h, k, s);
}

abbrev moved : SelectPoller → ℕ → ℕ → ℕ → SelectPoller
moved p c i d = record p {
  pollfds = update p.pollfds i (p.pollfds (p.size - 1));
  channels = update p.channels (p.memory c).fd none;
  size = p.size - 1;
  memory = set_index p.memory d i;
}

moved-IsValid :
    (p : SelectPoller) (c i d : ℕ)
    → IsValid p
    → p.channels (p.memory c).fd ≡ some c
    → (p.memory c).index ≡ some i
    → i ≢ p.size - 1
    → p.channels (p.pollfds (p.size - 1)).fd ≡ some d
    → IsValid (moved p c i d)
moved-IsValid p c i d v held at before last = record {
  present = λ j h. ground (
    arith,
    v.present j,
    v.alone (p.memory c).fd c j held,
    v.present (p.size - 1),
    v.alone (p.memory c).fd c (p.size - 1) held,
    at,
    before,
    h,
  );
  own = λ f e h. ground (arith, v.own f e, h);
  indexed = λ f e h. ground (arith, v.indexed f e, h);
  located = λ f e j h k. ground (
    arith,
    v.located f e j,
    v.own f e,
    v.own (p.pollfds (p.size - 1)).fd d last,
    v.located (p.memory c).fd c i held at,
    before,
    h,
    k,
  );
  alone = λ f e j h k s. ground (
    arith,
    v.alone f e j,
    v.alone (p.pollfds (p.size - 1)).fd d (p.size - 1) last,
    last,
    h,
    k,
    s,
  );
}

-- `p'` is `p` without the channel at `c`, which keeps an index.
pub record Unwatched (p : SelectPoller) (c : ℕ) (p' : SelectPoller) : Type 0 where
  pub valid : IsValid p'
  pub gone : p'.channels (p.memory c).fd ≡ none
  pub fd : (p'.memory c).fd ≡ (p.memory c).fd
  pub stale : is_found (p'.memory c).index ≡ true
  pub others : (f : ℕ) → f ≢ (p.memory c).fd → watched p' f ≡ watched p f

-- On a valid poller, for the channel of a descriptor that is watched for no events and has none
-- itself, removeChannel returns: the poller stays valid, the descriptor is unknown, the channel
-- keeps its descriptor and has an index still, and every other descriptor is watched for what it
-- was watched for.
pub remove_channel-watched :
    (p : SelectPoller) (c : ℕ)
    → IsValid p
    → p.channels (p.memory c).fd ≡ some c
    → watched p (p.memory c).fd ≡ some 0
    → (p.memory c).events ≡ 0
    → Ensures (Unwatched p c) (remove_channel p c)
unfolding remove_channel
remove_channel-watched p c v held idle silent = elim (Option-cases (p.memory c).index) [
  | inl loose ↦ absurd (ground (arith, v.indexed (p.memory c).fd c held, loose))
  | inr (i, at) ↦
      let place = v.located (p.memory c).fd c i held at in
      let quiet : (p.pollfds i).ev ≡ 0 = ground (arith, idle, held, at) in
      rw (at, remove_channel)
        (Ensures-assert (is_found (p.channels (p.memory c).fd)) (rw held refl) (
          Ensures-assert (is_channel (p.channels (p.memory c).fd) c) (rw held (eq_self c)) (
            Ensures-assert ((p.memory c).events == 0) (rw silent refl) (
              Ensures-assert (ltb i p.size) (ground (arith, place)) (
                Ensures-assert ((p.pollfds i).ev == (p.memory c).events) (rw (quiet, silent) refl) (
                  Ensures-if (i == p.size - 1)
                    (λ end. returned (record {
                      valid = removed-IsValid p c v held (ground (arith, at, end));
                      gone = rw (eq_self (p.memory c).fd) refl;
                      fd = refl;
                      stale = rw at refl;
                      others = λ f other.
                          watched_congr p (shrunk p c) f v (ground (arith, other))
                            λ d j h k. rw k refl;
                    }))
                    λ before. elim (Option-cases (p.channels (p.pollfds (p.size - 1)).fd)) [
                      | inl out ↦ absurd (ground (arith, v.present (p.size - 1), place, out))
                      | inr (d, last) ↦
                          let apart : ((p.memory c).fd == (p.pollfds (p.size - 1)).fd) ≡ false =
                            ground (
                              arith,
                              v.alone (p.memory c).fd c (p.size - 1) held,
                              place,
                              at,
                              before,
                            ) in
                          rw (apart, last)
                            (returned (record {
                              valid = moved-IsValid p c i d v held at (ground (arith, before)) last;
                              gone = rw (eq_self (p.memory c).fd) refl;
                              fd = ground (arith, at);
                              stale = ground (arith, at);
                              others = λ f other.
                                  watched_congr p (moved p c i d) f v (ground (arith, other))
                                    λ e j h k. ground (
                                      arith,
                                      k,
                                      v.located f e j h k,
                                      v.alone (p.pollfds (p.size - 1)).fd d (p.size - 1) last,
                                      place,
                                      other,
                                    );
                            }))
                    ]))))))
]

again-abort :
    (p : SelectPoller) (c : ℕ)
    → p.channels (p.memory c).fd ≡ none
    → is_found (p.memory c).index ≡ true
    → update_channel p c ≡ abort
unfolding update_channel
again-abort p c gone stale = elim (Option-cases (p.memory c).index) [
  | inl loose ↦ absurd (ground (arith, stale, loose))
  | inr (i, at) ↦ rw (at, update_channel) (rw gone refl)
]

-- On a valid poller, if the channel of a descriptor, without events and watched for none, is
-- removed and then updated again, an assertion fails.
pub update_channel-remove_channel :
    (p : SelectPoller) (c : ℕ)
    → IsValid p
    → p.channels (p.memory c).fd ≡ some c
    → watched p (p.memory c).fd ≡ some 0
    → (p.memory c).events ≡ 0
    → (remove_channel p c >>= λ p'. update_channel p' c) ≡ abort
update_channel-remove_channel p c v held idle silent =
    let (p', removed, u) = Ensures-value (remove_channel-watched p c v held idle silent) in
    rw removed (again-abort p' c (rw u.fd u.gone) u.stale)
