-- ===== src/Run.antt =====
-- How a call of the program ends.
use sznet.Base.{◌≡◌, refl, ap, Bool, true, false, if◌then◌else◌}

-- A returned value; a failed `assert`, LOG_FATAL or the call of an empty `std::function`; an access
-- outside the memory that the code owns, or an overflow of signed integers; the fuel of the model
-- running out.
pub data Run {ℓ} (A : Type ℓ) : Type ℓ where
  ok : A → Run A
  abort fault out_of_fuel : Run A

infixl 5 ◌>>=◌ ◌>>◌
abbrev pub ◌>>=◌ {ℓ κ} : {A : Type ℓ} {B : Type κ} → Run A → (A → Run B) → Run B
ok a >>= f = f a
abort >>= f = abort
fault >>= f = fault
out_of_fuel >>= f = out_of_fuel

abbrev pub ◌>>◌ {ℓ} : {B : Type ℓ} → Run (Unit {0}) → Run B → Run B
m >> k = m >>= λ _. k

-- `assert(b)` of a build without NDEBUG
abbrev pub assert : Bool → Run (Unit {0})
assert true = ok tt
assert false = abort

-- The condition under which an access stays inside the memory that it may touch.
abbrev pub within : Bool → Run (Unit {0})
within true = ok tt
within false = fault

-- The call returns, with a value for which `P` holds.
pub data Ensures {ℓ κ} {A : Type ℓ} (P : A → Type κ) : Run A → Type (ℓ ⊔ κ) where
  returned : {a : A} → P a → Ensures P (ok a)

module _ {ℓ κ} {A : Type ℓ} {P : A → Type κ} where
  pub Ensures-bind {ℓ' κ'} :
      {B : Type ℓ'} {Q : B → Type κ'} {r : Run A} {f : A → Run B}
      → Ensures P r
      → ((a : A) → P a → Ensures Q (f a))
      → Ensures Q (r >>= f)
  Ensures-bind (returned p) next = next _ p

  pub Ensures-weaken {κ'} :
      {Q : A → Type κ'} {r : Run A} → Ensures P r → ((a : A) → P a → Q a) → Ensures Q r
  Ensures-weaken (returned p) imply = returned (imply _ p)

  pub Ensures-if :
      {x y : Run A} (b : Bool)
      → (b ≡ true → Ensures P x)
      → (b ≡ false → Ensures P y)
      → Ensures P (if b then x else y)
  Ensures-if true p q = p refl
  Ensures-if false p q = q refl

  -- What ensures a property has a value.
  pub Ensures-value : {r : Run A} → Ensures P r → (a : A) × (r ≡ ok a) × P a
  Ensures-value (returned p) = (_, refl, p)

  pub Ensures_of_ok : {r : Run A} {a : A} → r ≡ ok a → Ensures P r → P a
  Ensures_of_ok e (returned p) = rw (ok-injective e) at p
    where
      value : A → Run A → A
      value d (ok a) = a
      value d abort = d
      value d fault = d
      value d out_of_fuel = d

      ok-injective : {a c : A} → ok a ≡ ok c → a ≡ c
      ok-injective {a} e = ap (value a) e

  -- A test that passes does not show in the run.
  pub Ensures-assert : {r : Run A} (b : Bool) → b ≡ true → Ensures P r → Ensures P (assert b >> r)
  Ensures-assert true e h = h
  Ensures-assert false e h = cc

  pub Ensures-within : {r : Run A} (b : Bool) → b ≡ true → Ensures P r → Ensures P (within b >> r)
  Ensures-within true e h = h
  Ensures-within false e h = cc

-- A call behind an `assert` that returned has passed it.
pub assert_ok {ℓ} :
    {A : Type ℓ} {r : Run A} {a : A} (b : Bool) → (assert b >> r) ≡ ok a → (b ≡ true) × (r ≡ ok a)
assert_ok true e = (refl, e)
assert_ok false e = cc

-- A sequence of calls that returned has passed its first.
pub bind_ok {ℓ κ} :
    {A : Type ℓ} {B : Type κ} {b : B} (r : Run A) (f : A → Run B)
    → (r >>= f) ≡ ok b
    → (a : A) × (r ≡ ok a) × (f a ≡ ok b)
bind_ok (ok a) f e = (a, refl, e)
bind_ok abort f e = cc
bind_ok fault f e = cc
bind_ok out_of_fuel f e = cc

-- What two theorems ensure of the same call.
pub Ensures-both {ℓ κ κ'} :
    {A : Type ℓ} {P : A → Type κ} {Q : A → Type κ'} {r : Run A}
    → Ensures P r
    → Ensures Q r
    → Ensures (λ a. P a × Q a) r
Ensures-both (returned p) q = returned (p, Ensures_of_ok refl q)

-- If the call returns, then with a value for which `P` holds.
pub data IfOk {ℓ κ} {A : Type ℓ} (P : A → Type κ) : Run A → Type (ℓ ⊔ κ) where
  settled : {a : A} → P a → IfOk P (ok a)
  aborted : IfOk P abort
  faulted : IfOk P fault
  exhausted : IfOk P out_of_fuel

module _ {ℓ κ} {A : Type ℓ} {P : A → Type κ} where
  pub IfOk-bind {ℓ' κ'} :
      {B : Type ℓ'} {Q : B → Type κ'} {r : Run A} {f : A → Run B}
      → IfOk P r
      → ((a : A) → P a → IfOk Q (f a))
      → IfOk Q (r >>= f)
  IfOk-bind (settled p) next = next _ p
  IfOk-bind aborted next = aborted
  IfOk-bind faulted next = faulted
  IfOk-bind exhausted next = exhausted

  pub IfOk-assert : {r : Run A} (b : Bool) → (b ≡ true → IfOk P r) → IfOk P (assert b >> r)
  IfOk-assert true p = p refl
  IfOk-assert false p = aborted

  pub IfOk-if :
      {x y : Run A} (b : Bool)
      → (b ≡ true → IfOk P x)
      → (b ≡ false → IfOk P y)
      → IfOk P (if b then x else y)
  IfOk-if true p q = p refl
  IfOk-if false p q = q refl

  pub IfOk-weaken {κ'} : {Q : A → Type κ'} {r : Run A} → IfOk P r → ((a : A) → P a → Q a) → IfOk Q r
  IfOk-weaken (settled p) imply = settled (imply _ p)
  IfOk-weaken aborted imply = aborted
  IfOk-weaken faulted imply = faulted
  IfOk-weaken exhausted imply = exhausted

  -- A call that returned did so with such a value.
  pub IfOk_of_ok : {r : Run A} {a : A} → r ≡ ok a → IfOk P r → P a
  IfOk_of_ok e (settled p) = Ensures_of_ok {P = P} e (returned p)
  IfOk_of_ok e aborted = cc
  IfOk_of_ok e faulted = cc
  IfOk_of_ok e exhausted = cc

-- Nothing is known of a value.
pub IfOk-any {ℓ} : {A : Type ℓ} (r : Run A) → IfOk (λ a. r ≡ ok a) r
IfOk-any (ok a) = settled refl
IfOk-any abort = aborted
IfOk-any fault = faulted
IfOk-any out_of_fuel = exhausted
