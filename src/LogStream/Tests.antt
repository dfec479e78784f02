-- ===== src/LogStream/Tests.antt =====
-- The theorems about sznet/log/LogStream.cpp at a concrete buffer, and runs.
use sznet.Base.{
  ℕ, ◌-◌, ◌^◌, ◌≤◌, ◌<◌, ◌≡◌, ◌⊎◌, refl, List, [], ◌∷◌, length, replicate, arith, none, true,
}
use sznet.Run.{Run, ok, ◌>>=◌, Ensures}
use sznet.LogStream.{
  pos, negsuc, convert, convert_loop, convert_hex, convert_hex_loop, FixedBuffer, avail, to_string,
  write_current, append, format_integer, format_bool, format_chars, format_pointer,
  max_numeric_size, reset,
}
use sznet.LogStream.Digits.{read, convert-read}
use sznet.LogStream.Room.{Appended, format_integer-Appended}

-- `-120`, and the least `int64_t`
convert_run :
    (convert (negsuc 119) ≡ ok (45 ∷ 49 ∷ 50 ∷ 48 ∷ []))
    × ((convert (negsuc (2 ^ 63 - 1)) >>= λ cs. ok (length cs)) ≡ ok 20)
unfolding convert convert_loop
convert_run = (refl, refl)

-- 64 bytes, of which 2 are text: "ok".
abbrev buffer : FixedBuffer
buffer = record { chars = 111 ∷ 107 ∷ replicate 62 0; cur = 2 }

text_of : Run FixedBuffer → Run (List ℕ)
text_of r = r >>= λ b. ok (to_string b)

-- "ok1(null)7"
text_run :
    text_of (do b ← format_bool buffer true; c ← format_chars b none; format_integer c (pos 7))
    ≡ ok (111 ∷ 107 ∷ 49 ∷ 40 ∷ 110 ∷ 117 ∷ 108 ∷ 108 ∷ 41 ∷ 55 ∷ [])
unfolding text_of format_bool format_chars append format_integer write_current convert convert_loop
text_run = refl

-- 0xBEEF is printed as "0xBE".
pointer_run : text_of (format_pointer (reset buffer) 48879) ≡ ok (48 ∷ 120 ∷ 66 ∷ 69 ∷ [])
unfolding text_of format_pointer write_current convert_hex convert_hex_loop
pointer_run = refl

convert-read_example :
    Ensures (λ cs. (read cs ≡ negsuc 119) × (length cs ≤ 21)) (convert (negsuc 119))
convert-read_example = convert-read (negsuc 119) (omega arith)

format_integer-Appended_example :
    Ensures
      (λ b'.
        ((max_numeric_size ≤ avail buffer)
          × (cs : List ℕ) × (read cs ≡ negsuc 119)
          × Appended buffer cs b')
        ⊎ ((avail buffer < max_numeric_size) × (b' ≡ buffer)))
      (format_integer buffer (negsuc 119))
format_integer-Appended_example =
    format_integer-Appended buffer (negsuc 119) (omega arith) (omega arith)
