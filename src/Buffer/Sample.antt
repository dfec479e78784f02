-- ===== src/Buffer/Sample.antt =====
-- Concrete values for the tests: a platform, an allocator and a buffer.
use sznet.Base.{
  ℕ, zero, suc, ◌+◌, ◌*◌, ◌/◌, ◌%◌, ◌^◌, ◌≤◌, ◌<◌, ◌≡◌, refl, ap, ◌∙◌, List, [], ◌∷◌, ◌++◌, arith,
  leb, if◌then◌else◌,
}
use native.Mathlib.Nat.{pow-suc}
use sznet.Buffer.{Buffer}
use sznet.Buffer.Room.{IsValid}
use sznet.Buffer.Words.{Host, IsDocumented, network, length-network}

-- The capacity stays while it is enough.
abbrev pub exact : ℕ → ℕ → ℕ
exact c n = if leb n c then c else n

pub exact_enough : (c n : ℕ) → n ≤ exact c n
exact_enough c n = ground arith

abbrev pub sample : Buffer
sample = record {
  cheap_prepend = 2;
  buffer = 0 ∷ 0 ∷ 71 ∷ 13 ∷ 10 ∷ 72 ∷ 0 ∷ 0 ∷ [];
  capacity = 8;
  reader_index = 2;
  writer_index = 6;
  wrap_size = 6;
}

pub sample-IsValid : IsValid sample
sample-IsValid = omega arith

-- The number that big-endian digits stand for, after a number for those before them.
unfoldable pub from_digits : ℕ → List ℕ → ℕ
from_digits acc [] = acc
from_digits acc (x ∷ xs) = from_digits (acc * 256 + x) xs

from_digits-append :
    (acc : ℕ) (xs : List ℕ) (y : ℕ) → from_digits acc (xs ++ y ∷ []) ≡ from_digits acc xs * 256 + y
unfolding from_digits
from_digits-append acc [] y = refl
from_digits-append acc (x ∷ xs) y = from_digits-append (acc * 256 + x) xs y

from_digits-network : (w x : ℕ) → x < 256 ^ w → from_digits 0 (network w x) ≡ x
unfolding network from_digits
from_digits-network zero x h = omega arith
from_digits-network (suc w) x h =
    from_digits-append 0 (network w (x / 256)) (x % 256)
    ∙ ap (λ n. n * 256 + x % 256) (from_digits-network w (x / 256) (omega (arith, pow-suc 256 w)))
    ∙ (omega arith)

-- A big-endian machine: there is nothing to convert.
abbrev pub big_host : Host
big_host = record { image = network; value = from_digits 0; htobe = λ w x. x; betoh = λ w x. x }

pub big_host-IsDocumented : IsDocumented big_host
big_host-IsDocumented = record {
  length-image = length-network;
  value-image = from_digits-network;
  image-htobe = λ w x h. refl;
  betoh-network = from_digits-network;
}
