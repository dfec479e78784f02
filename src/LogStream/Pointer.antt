-- ===== src/LogStream/Pointer.antt =====
-- `convertHex` and `operator<<` of a pointer in sznet/log/LogStream.cpp.
use sznet.Base.{
  ℕ, zero, suc, ◌+◌, ◌-◌, ◌*◌, ◌/◌, ◌%◌, ◌^◌, ◌≤◌, ◌<◌, ◌≡◌, refl, ap, sym, ◌∙◌, List, [], ◌∷◌,
  ◌++◌, leb, ◌==◌, lt→ltb, if◌then◌else◌, length, take, take-take, arith, reverse, length-take,
  append_assoc, take-append_right,
}
use mathlib.Core.List.{reverse-cons}
use sznet.Run.{ok, Ensures, returned, Ensures-bind, Ensures-if, Ensures-weaken}
use sznet.LogStream.{
  digits_hex, char_of, convert_hex_loop, convert_hex, FixedBuffer, avail, to_string, format_pointer,
  max_numeric_size,
}
use sznet.LogStream.Digits.{length-reverse}
use sznet.LogStream.Room.{IsInside, Appended, Written, write_current-Written}

abbrev pub digit_value : ℕ → ℕ
digit_value c = if leb c 57 then c - 48 else c - 55

abbrev pub read_hex : ℕ → List ℕ → ℕ
read_hex n [] = n
read_hex n (c ∷ cs) = read_hex (n * 16 + digit_value c) cs

read_hex-append : (n : ℕ) (xs ys : List ℕ) → read_hex n (xs ++ ys) ≡ read_hex (read_hex n xs) ys
read_hex-append n [] ys = refl
read_hex-append n (x ∷ xs) ys = read_hex-append (n * 16 + digit_value x) xs ys

char_of_lem : (d : ℕ) → d < 16 → (c : ℕ) × (char_of digits_hex d ≡ ok c) × (digit_value c ≡ d)
char_of_lem zero h = (_, refl, refl)
char_of_lem (suc zero) h = (_, refl, refl)
char_of_lem (suc (suc zero)) h = (_, refl, refl)
char_of_lem (suc (suc (suc zero))) h = (_, refl, refl)
char_of_lem (suc (suc (suc (suc zero)))) h = (_, refl, refl)
char_of_lem (suc (suc (suc (suc (suc zero))))) h = (_, refl, refl)
char_of_lem (suc (suc (suc (suc (suc (suc zero)))))) h = (_, refl, refl)
char_of_lem (suc (suc (suc (suc (suc (suc (suc zero))))))) h = (_, refl, refl)
char_of_lem (suc (suc (suc (suc (suc (suc (suc (suc zero)))))))) h = (_, refl, refl)
char_of_lem (suc (suc (suc (suc (suc (suc (suc (suc (suc zero))))))))) h = (_, refl, refl)
char_of_lem (suc (suc (suc (suc (suc (suc (suc (suc (suc (suc zero)))))))))) h = (_, refl, refl)
char_of_lem (suc (suc (suc (suc (suc (suc (suc (suc (suc (suc (suc zero))))))))))) h =
    (_, refl, refl)
char_of_lem (suc (suc (suc (suc (suc (suc (suc (suc (suc (suc (suc (suc zero)))))))))))) h =
    (_, refl, refl)
char_of_lem (suc (suc (suc (suc (suc (suc (suc (suc (suc (suc (suc (suc (suc zero))))))))))))) h =
    (_, refl, refl)
char_of_lem (suc (suc (suc (suc (suc (suc (suc (suc (suc (suc (suc (suc (suc (suc zero))))))))))))))
      h =
    (_, refl, refl)
char_of_lem
      (suc (suc (suc (suc (suc (suc (suc (suc (suc (suc (suc (suc (suc (suc (suc zero)))))))))))))))
      h =
    (_, refl, refl)
char_of_lem
      (suc
        (suc (suc (suc (suc (suc (suc (suc (suc (suc (suc (suc (suc (suc (suc (suc d))))))))))))))))
      h =
    absurd (omega arith)

more_digits : (fuel n : ℕ) → n < 16 ^ suc fuel → 0 < n / 16 → 0 < fuel
more_digits zero n h more = absurd (omega arith)
more_digits (suc fuel) n h more = omega arith

-- The digits of `n`, the last one first: `fuel` of them at most.
record IsHex (n fuel : ℕ) (cs : List ℕ) : Type 0 where
  pub value : read_hex 0 (reverse cs) ≡ n
  pub present : 0 < length cs
  pub few : length cs ≤ fuel

IsHex-cons :
    (n fuel c : ℕ) (cs : List ℕ)
    → digit_value c ≡ n % 16
    → read_hex 0 (reverse cs) ≡ n / 16
    → length cs ≤ fuel
    → IsHex n (suc fuel) (c ∷ cs)
IsHex-cons n fuel c cs d v f = record {
  value =
      ap (read_hex 0) (reverse-cons c cs)
      ∙ read_hex-append 0 (reverse cs) (c ∷ [])
      ∙ omega (arith, v, d);
  present = omega arith;
  few = omega (arith, f);
}

convert_hex_loop-IsHex :
    (fuel i : ℕ) → i < 16 ^ fuel → 0 < fuel → Ensures (IsHex i fuel) (convert_hex_loop fuel i)
unfolding convert_hex_loop
convert_hex_loop-IsHex zero i h p = absurd (omega arith)
convert_hex_loop-IsHex (suc fuel) i h p =
    let power : 16 ^ suc fuel ≡ 16 * 16 ^ fuel = omega arith in
    let (c, char, digit) = char_of_lem (i % 16) (omega arith) in
    rw char (
      Ensures-bind {P = λ cs. (read_hex 0 (reverse cs) ≡ i / 16) × (length cs ≤ fuel)}
        (Ensures-if (i / 16 == 0) (λ last. returned (ground (arith, last), omega arith))
          λ more.
            Ensures-weaken
              (convert_hex_loop-IsHex fuel (i / 16) (omega (arith, power))
                (more_digits fuel i (omega (arith, h)) (ground (arith, more))))
              λ cs d. (d.value, d.few))
        λ cs (v, f). returned (IsHex-cons i fuel c cs digit v f))

convert_hex_read :
    (v : ℕ)
    → v < 2 ^ 64
    → Ensures (λ cs. (read_hex 0 cs ≡ v) × (0 < length cs) × (length cs ≤ 16)) (convert_hex v)
unfolding convert_hex
convert_hex_read v h =
    Ensures-bind (convert_hex_loop-IsHex 16 v (omega arith) (omega arith)) λ cs d. returned (
      d.value,
      omega (arith, length-reverse cs, d.present),
      omega (arith, length-reverse cs, d.few),
    )

abbrev pub prefix : List ℕ
prefix = 48 ∷ 120 ∷ []

cut :
    (b b1 b2 : FixedBuffer) (cs : List ℕ)
    → IsInside b
    → Written b 0 prefix b1
    → Written b1 2 cs b2
    → take (b2.cur + length cs) b2.chars ≡ to_string b ++ take (length cs) (prefix ++ cs)
cut b b1 b2 cs inside first second =
    sym
      (take-take (b1.cur + 2 + length cs) (b2.cur + length cs) b2.chars (omega (arith, second.cur)))
    ∙ ap (take (b2.cur + length cs))
        (second.text ∙ ap (λ xs. xs ++ cs) before ∙ append_assoc (to_string b) prefix cs)
    ∙ take-append_right (b2.cur + length cs) (to_string b) (prefix ++ cs)
        (omega (arith, size, first.cur, second.cur))
    ∙ ap (λ n. to_string b ++ take n (prefix ++ cs)) (omega (arith, size, first.cur, second.cur))
  where
    size : length (to_string b) ≡ b.cur
    size = omega (arith, length-take b.cur b.chars)

    before : take (b1.cur + 2) b1.chars ≡ to_string b ++ prefix
    before =
        ap (λ n. take n b1.chars) (omega (arith, first.cur))
        ∙ first.text
        ∙ ap (λ n. take n b.chars ++ prefix) (omega arith)

-- On a buffer whose text stays inside it, with more than 32 bytes of room, operator<< of a
-- pointer of 64 bits appends "0x" and the hexadecimal digits but for the last two characters.
pub format_pointer_cut :
    (b : FixedBuffer) (p : ℕ)
    → IsInside b
    → p < 2 ^ 64
    → max_numeric_size < avail b
    → Ensures
        (λ b'.
          (cs : List ℕ) × (read_hex 0 cs ≡ p)
          × (0 < length cs)
          × Appended b (take (length cs) (prefix ++ cs)) b')
        (format_pointer b p)
unfolding format_pointer
format_pointer_cut b p inside small fits = rw (lt→ltb max_numeric_size (avail b) fits) (
    Ensures-bind (write_current-Written b 0 prefix [] (omega arith)) λ b1 first.
      Ensures-bind (convert_hex_read p small) λ cs (same, present, few).
        Ensures-bind
          (write_current-Written b1 2 cs (0 ∷ []) (omega (arith, first.cur, first.size, few)))
          λ b2 second. returned (
            cs,
            same,
            present,
            record {
              inside = omega (arith, first.cur, first.size, second.cur, second.size, few);
              size = second.size ∙ first.size;
              text = cut b b1 b2 cs inside first second;
            },
          ))
