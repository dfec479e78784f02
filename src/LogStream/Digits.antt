-- ===== src/LogStream/Digits.antt =====
-- `convert` of sznet/log/LogStream.cpp, and a reader of what it prints.
use sznet.Base.{
  ℕ, zero, suc, ◌+◌, ◌-◌, ◌*◌, ◌/◌, ◌%◌, ◌^◌, ◌≤◌, ◌<◌, ◌≡◌, refl, ap, ◌∙◌, Bool, true, false, ◌&&◌,
  List, [], ◌∷◌, ◌++◌, leb, ◌==◌, Bool-cases, inl, inr, if◌then◌else◌, length, length-append,
  reverse, arith,
}
use mathlib.Core.List.{reverse-cons, reverse-append}
use sznet.Run.{ok, Ensures, returned, Ensures-bind, Ensures-if, Ensures-weaken}
use sznet.LogStream.{
  ℤ, pos, negsuc, is_negative, digits, char_of, last_digit, without_last, is_zero, convert_loop,
  convert,
}

abbrev pub magnitude : ℤ → ℕ
magnitude (pos n) = n
magnitude (negsuc n) = suc n

abbrev pub read_digits : ℕ → List ℕ → ℕ
read_digits n [] = n
read_digits n (c ∷ cs) = read_digits (n * 10 + (c - 48)) cs

abbrev pub minus : ℕ → ℤ
minus zero = pos 0
minus (suc n) = negsuc n

-- The number that a text is of: digits, with a minus sign before them or not.
abbrev pub read : List ℕ → ℤ
read [] = pos 0
read (c ∷ cs) = if c == 45 then minus (read_digits 0 cs) else pos (read_digits 0 (c ∷ cs))

abbrev pub all_digits : List ℕ → Bool
all_digits [] = true
all_digits (c ∷ cs) = leb 48 c && (leb c 57 && all_digits cs)

read_digits-append :
    (n : ℕ) (xs ys : List ℕ) → read_digits n (xs ++ ys) ≡ read_digits (read_digits n xs) ys
read_digits-append n [] ys = refl
read_digits-append n (x ∷ xs) ys = read_digits-append (n * 10 + (x - 48)) xs ys

all_digits-append : (xs ys : List ℕ) → all_digits (xs ++ ys) ≡ (all_digits xs && all_digits ys)
all_digits-append [] ys = refl
all_digits-append (x ∷ xs) ys = ground (arith, all_digits-append xs ys)

pub length-reverse : (xs : List ℕ) → length (reverse xs) ≡ length xs
length-reverse [] = refl
length-reverse (x ∷ xs) =
    ap length (reverse-cons x xs)
    ∙ omega (arith, length-append (reverse xs) (x ∷ []), length-reverse xs)

char_up : (d : ℕ) → d < 10 → char_of digits (9 + d) ≡ ok (48 + d)
char_up zero h = refl
char_up (suc zero) h = refl
char_up (suc (suc zero)) h = refl
char_up (suc (suc (suc zero))) h = refl
char_up (suc (suc (suc (suc zero)))) h = refl
char_up (suc (suc (suc (suc (suc zero))))) h = refl
char_up (suc (suc (suc (suc (suc (suc zero)))))) h = refl
char_up (suc (suc (suc (suc (suc (suc (suc zero))))))) h = refl
char_up (suc (suc (suc (suc (suc (suc (suc (suc zero)))))))) h = refl
char_up (suc (suc (suc (suc (suc (suc (suc (suc (suc zero))))))))) h = refl
char_up (suc (suc (suc (suc (suc (suc (suc (suc (suc (suc d)))))))))) h = absurd (omega arith)

char_down : (d : ℕ) → d < 10 → char_of digits (9 - d) ≡ ok (48 + d)
char_down zero h = refl
char_down (suc zero) h = refl
char_down (suc (suc zero)) h = refl
char_down (suc (suc (suc zero))) h = refl
char_down (suc (suc (suc (suc zero)))) h = refl
char_down (suc (suc (suc (suc (suc zero))))) h = refl
char_down (suc (suc (suc (suc (suc (suc zero)))))) h = refl
char_down (suc (suc (suc (suc (suc (suc (suc zero))))))) h = refl
char_down (suc (suc (suc (suc (suc (suc (suc (suc zero)))))))) h = refl
char_down (suc (suc (suc (suc (suc (suc (suc (suc (suc zero))))))))) h = refl
char_down (suc (suc (suc (suc (suc (suc (suc (suc (suc (suc d)))))))))) h = absurd (omega arith)

last_digit_lem : (i : ℤ) → last_digit i ≡ ok (48 + magnitude i % 10)
last_digit_lem (pos n) = char_up (n % 10) (omega arith)
last_digit_lem (negsuc n) = char_down (suc n % 10) (omega arith)

magnitude-without_last : (i : ℤ) → magnitude (without_last i) ≡ magnitude i / 10
magnitude-without_last (pos n) = refl
magnitude-without_last (negsuc n) = ground arith

is_zero_lem : (i : ℤ) → is_zero i ≡ (magnitude i == 0)
is_zero_lem (pos n) = refl
is_zero_lem (negsuc n) = ground arith

-- The digits of `n`, the last one first: `fuel` of them at most.
pub record IsDigits (n fuel : ℕ) (cs : List ℕ) : Type 0 where
  pub value : read_digits 0 (reverse cs) ≡ n
  pub digits : all_digits (reverse cs) ≡ true
  pub present : 0 < length cs
  pub few : length cs ≤ fuel

IsDigits-cons :
    (n fuel : ℕ) (cs : List ℕ)
    → read_digits 0 (reverse cs) ≡ n / 10
    → all_digits (reverse cs) ≡ true
    → length cs ≤ fuel
    → IsDigits n (suc fuel) ((48 + n % 10) ∷ cs)
IsDigits-cons n fuel cs v a f = record {
  value =
      ap (read_digits 0) (reverse-cons (48 + n % 10) cs)
      ∙ read_digits-append 0 (reverse cs) ((48 + n % 10) ∷ [])
      ∙ omega (arith, v);
  digits =
      ap all_digits (reverse-cons (48 + n % 10) cs)
      ∙ all_digits-append (reverse cs) ((48 + n % 10) ∷ [])
      ∙ ground (arith, a);
  present = omega arith;
  few = omega (arith, f);
}

more_digits : (fuel n : ℕ) → n < 10 ^ suc fuel → 0 < n / 10 → 0 < fuel
more_digits zero n h more = absurd (omega arith)
more_digits (suc fuel) n h more = omega arith

convert_loop-IsDigits :
    (fuel : ℕ) (i : ℤ)
    → magnitude i < 10 ^ fuel
    → 0 < fuel
    → Ensures (IsDigits (magnitude i) fuel) (convert_loop fuel i)
unfolding convert_loop
convert_loop-IsDigits zero i h p = absurd (omega arith)
convert_loop-IsDigits (suc fuel) i h p =
    let power : 10 ^ suc fuel ≡ 10 * 10 ^ fuel = omega arith in
    let size = magnitude-without_last i in
    rw (last_digit_lem i) (
      Ensures-bind
        {P = λ cs.
          (read_digits 0 (reverse cs) ≡ magnitude i / 10)
          × (all_digits (reverse cs) ≡ true)
          × (length cs ≤ fuel)}
        (Ensures-if (is_zero (without_last i))
          (λ last.
            returned (ground (arith, is_zero_lem (without_last i), last, size), refl, omega arith))
          λ more.
            Ensures-weaken
              (convert_loop-IsDigits fuel (without_last i) (omega (arith, size, power)) (
                more_digits fuel (magnitude i) (omega (arith, h))
                  (ground (arith, is_zero_lem (without_last i), more, size))))
              λ cs d. (d.value ∙ size, d.digits, d.few))
        λ cs (v, a, f). returned (IsDigits-cons (magnitude i) fuel cs v a f))

read-plain : (cs : List ℕ) → 0 < length cs → all_digits cs ≡ true → read cs ≡ pos (read_digits 0 cs)
read-plain [] p a = absurd (omega arith)
read-plain (c ∷ cs) p a = let digit : (c == 45) ≡ false = ground (arith, a) in rw digit refl

minus_lem : (v : ℤ) → is_negative v ≡ true → minus (magnitude v) ≡ v
minus_lem (pos n) e = absurd (ground arith)
minus_lem (negsuc n) e = refl

pos_lem : (v : ℤ) → is_negative v ≡ false → pos (magnitude v) ≡ v
pos_lem (pos n) e = refl
pos_lem (negsuc n) e = absurd (ground arith)

-- convert of a number of 64 bits, signed or not, returns at most 21 characters, and they read
-- back as this number.
pub convert-read :
    (v : ℤ) → magnitude v < 2 ^ 64 → Ensures (λ cs. (read cs ≡ v) × (length cs ≤ 21)) (convert v)
unfolding convert
convert-read v h = Ensures-bind (convert_loop-IsDigits 20 v (omega arith) (omega arith)) λ cs d.
    elim (Bool-cases (is_negative v)) [
      | inl neg ↦ rw neg (
          returned (
            (ap read (reverse-append cs (45 ∷ [])) ∙ ap minus d.value ∙ minus_lem v neg),
            omega (arith, length-reverse (cs ++ (45 ∷ [])), length-append cs (45 ∷ []), d.few),
          ))
      | inr plain ↦ rw plain (
          returned (
            (read-plain (reverse cs) (omega (arith, length-reverse cs, d.present)) d.digits
                ∙ ap pos d.value
                ∙ pos_lem v plain),
            omega (arith, length-reverse cs, d.few),
          ))
    ]
