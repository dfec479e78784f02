-- ===== src/LogStream.antt =====
-- sznet/log/LogStream.h and LogStream.cpp: numbers and text formatted into a buffer of fixed size.
-- A number is what it is, whatever its type: the types differ in their range alone, and no operation
-- here leaves it.
pub mod Digits
pub mod Room
pub mod Pointer
mod Tests
use sznet.Base.{
  ℕ, zero, suc, ◌+◌, ◌-◌, ◌*◌, ◌/◌, ◌%◌, Bool, true, false, not, List, [], ◌∷◌, ◌++◌, Option, none,
  some, ltb, leb, ◌==◌, if◌then◌else◌, length, take, reverse, get_elem?,
}
use sznet.Run.{Run, ok, fault, out_of_fuel, ◌>>=◌, ◌>>◌, within}
use sznet.Buffer.Bytes.{overwrite}

-- `negsuc n` is `-(n + 1)`.
pub data ℤ : Type 0 where
  pos negsuc : ℕ → ℤ

abbrev pub is_negative : ℤ → Bool
is_negative (pos n) = false
is_negative (negsuc n) = true

-- `zero`: the middle of "9876543210123456789", as characters.
abbrev pub digits : List ℕ
digits =
    57 ∷ 56 ∷ 55 ∷ 54 ∷ 53 ∷ 52 ∷ 51 ∷ 50 ∷ 49 ∷ 48 ∷ 49 ∷ 50 ∷ 51 ∷ 52 ∷ 53 ∷ 54 ∷ 55 ∷ 56 ∷ 57
    ∷ []

-- "0123456789ABCDEF"
abbrev pub digits_hex : List ℕ
digits_hex = 48 ∷ 49 ∷ 50 ∷ 51 ∷ 52 ∷ 53 ∷ 54 ∷ 55 ∷ 56 ∷ 57 ∷ 65 ∷ 66 ∷ 67 ∷ 68 ∷ 69 ∷ 70 ∷ []

abbrev pub char_of : List ℕ → ℕ → Run ℕ
char_of table i = elim (get_elem? table i) [ none ↦ fault | some c ↦ ok c ]

-- `zero[i % 10]`, with the sign of `i`
abbrev pub last_digit : ℤ → Run ℕ
last_digit (pos n) = char_of digits (9 + n % 10)
last_digit (negsuc n) = char_of digits (9 - suc n % 10)

-- `i / 10`, towards 0
abbrev pub without_last : ℤ → ℤ
without_last (pos n) = pos (n / 10)
without_last (negsuc n) = if suc n / 10 == 0 then pos 0 else negsuc (suc n / 10 - 1)

abbrev pub is_zero : ℤ → Bool
is_zero (pos n) = n == 0
is_zero (negsuc n) = false

-- The characters before the reversal.
pub convert_loop : ℕ → ℤ → Run (List ℕ)
convert_loop zero i = out_of_fuel
convert_loop (suc fuel) i = do
  c ← last_digit i
  cs ← if is_zero (without_last i) then ok [] else convert_loop fuel (without_last i)
  ok (c ∷ cs)

-- A `uint64_t` and an `int64_t` have 20 digits at most.
abbrev pub max_digits : ℕ
max_digits = 20

pub convert : ℤ → Run (List ℕ)
convert value = do
  cs ← convert_loop max_digits value
  ok (reverse (if is_negative value then cs ++ (45 ∷ []) else cs))

pub convert_hex_loop : ℕ → ℕ → Run (List ℕ)
convert_hex_loop zero i = out_of_fuel
convert_hex_loop (suc fuel) i = do
  c ← char_of digits_hex (i % 16)
  cs ← if i / 16 == 0 then ok [] else convert_hex_loop fuel (i / 16)
  ok (c ∷ cs)

-- A `uintptr_t` has 16 digits at most.
pub convert_hex : ℕ → Run (List ℕ)
convert_hex value = do cs ← convert_hex_loop 16 value; ok (reverse cs)

-- `chars` is all of `m_data`, and `cur` is `m_cur - m_data`.
pub record FixedBuffer : Type 0 where
  pub chars : List ℕ
  pub cur : ℕ

abbrev pub avail : FixedBuffer → ℕ
avail b = length b.chars - b.cur

abbrev pub to_string : FixedBuffer → List ℕ
to_string b = take b.cur b.chars

-- A write of `cs` and of the NUL behind them from `offset` after `current()` on.
pub write_current : FixedBuffer → ℕ → List ℕ → Run FixedBuffer
write_current b offset cs =
    within (leb (b.cur + offset + length cs) (length b.chars))
    >> ok (record b { chars = overwrite b.chars (b.cur + offset) cs })

abbrev pub add : FixedBuffer → ℕ → FixedBuffer
add b len = record b { cur = b.cur + len }

abbrev pub reset : FixedBuffer → FixedBuffer
reset b = record b { cur = 0 }

pub append : FixedBuffer → List ℕ → Run FixedBuffer
append b cs =
    let store : Run FixedBuffer = do stored ← write_current b 0 cs; ok (add stored (length cs))
    in if ltb (length cs) (avail b) then store else ok b

abbrev pub max_numeric_size : ℕ
max_numeric_size = 32

pub format_integer : FixedBuffer → ℤ → Run FixedBuffer
format_integer b v =
    let store : Run FixedBuffer = do
      cs ← convert v
      stored ← write_current b 0 (cs ++ (0 ∷ []))
      ok (add stored (length cs))
    in if leb max_numeric_size (avail b) then store else ok b

pub format_bool : FixedBuffer → Bool → Run FixedBuffer
format_bool b v = append b (if v then 49 ∷ [] else 48 ∷ [])

-- A C string, or none for a null pointer.
pub format_chars : FixedBuffer → Option (List ℕ) → Run FixedBuffer
format_chars b none = append b (40 ∷ 110 ∷ 117 ∷ 108 ∷ 108 ∷ 41 ∷ [])
format_chars b (some cs) = append b cs

-- `operator<<(const void*)`: `convertHex` returns the number of the digits without the prefix.
pub format_pointer : FixedBuffer → ℕ → Run FixedBuffer
format_pointer b p =
    let store : Run FixedBuffer = do
      prefixed ← write_current b 0 (48 ∷ 120 ∷ [])
      cs ← convert_hex p
      stored ← write_current prefixed 2 (cs ++ (0 ∷ []))
      ok (add stored (length cs))
    in if ltb max_numeric_size (avail b) then store else ok b
