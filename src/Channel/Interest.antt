-- ===== src/Channel/Interest.antt =====
-- The events that a channel of sznet/net/Channel.h asks for after a sequence of changes.
use sznet.Base.{
  ℕ, ◌+◌, ◌≡◌, refl, ap, ◌∙◌, Bool, true, false, not, ◌&&◌, List, [], ◌∷◌, if◌then◌else◌,
}
use sznet.Channel.{
  Change, enable_reading, disable_reading, enable_writing, disable_writing, disable_all, change,
  change_all, is_reading, is_writing, is_none_event, read_event, write_event, none_event,
}

-- What the client wants: reads and writes.
abbrev pub wants : Bool × Bool → Change → Bool × Bool
wants (r, w) enable_reading = (true, w)
wants (r, w) disable_reading = (false, w)
wants (r, w) enable_writing = (r, true)
wants (r, w) disable_writing = (r, false)
wants (r, w) disable_all = (false, false)

abbrev pub wants_all : Bool × Bool → List Change → Bool × Bool
wants_all b [] = b
wants_all b (c ∷ cs) = wants_all (wants b c) cs

-- The events of reads and writes, and no other.
abbrev pub number_of : Bool × Bool → ℕ
number_of (r, w) = (if r then read_event else 0) + (if w then write_event else 0)

change-number_of :
    (r w : Bool) (c : Change) → change (number_of (r, w)) c ≡ number_of (wants (r, w) c)
change-number_of true true enable_reading = refl
change-number_of true false enable_reading = refl
change-number_of false true enable_reading = refl
change-number_of false false enable_reading = refl
change-number_of true true disable_reading = refl
change-number_of true false disable_reading = refl
change-number_of false true disable_reading = refl
change-number_of false false disable_reading = refl
change-number_of true true enable_writing = refl
change-number_of true false enable_writing = refl
change-number_of false true enable_writing = refl
change-number_of false false enable_writing = refl
change-number_of true true disable_writing = refl
change-number_of true false disable_writing = refl
change-number_of false true disable_writing = refl
change-number_of false false disable_writing = refl
change-number_of true true disable_all = refl
change-number_of true false disable_all = refl
change-number_of false true disable_all = refl
change-number_of false false disable_all = refl

change_all-number_of :
    (cs : List Change) (b : Bool × Bool) → change_all (number_of b) cs ≡ number_of (wants_all b cs)
change_all-number_of [] b = refl
change_all-number_of (c ∷ cs) (r, w) =
    ap (λ e. change_all e cs) (change-number_of r w c) ∙ change_all-number_of cs (wants (r, w) c)

tests-number_of :
    (r w : Bool)
    → (is_reading (number_of (r, w)) ≡ r)
      × (is_writing (number_of (r, w)) ≡ w)
      × (is_none_event (number_of (r, w)) ≡ (not r && not w))
tests-number_of true true = (refl, refl, refl)
tests-number_of true false = (refl, refl, refl)
tests-number_of false true = (refl, refl, refl)
tests-number_of false false = (refl, refl, refl)

-- After every sequence of enableReading, disableReading, enableWriting, disableWriting and
-- disableAll on a new channel, isReading and isWriting tell what the latest of them asked for,
-- and isNoneEvent holds exactly when neither does.
pub change_all-wants_all :
    (cs : List Change)
    → let b = wants_all (false, false) cs in
      (is_reading (change_all none_event cs) ≡ b.0)
      × (is_writing (change_all none_event cs) ≡ b.1)
      × (is_none_event (change_all none_event cs) ≡ (not b.0 && not b.1))
change_all-wants_all cs =
    let b = wants_all (false, false) cs in
    rw (change_all-number_of cs (false, false)) (tests-number_of b.0 b.1)
