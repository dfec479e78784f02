-- ===== src/LogFile/Written.antt =====
-- What AppendFile of sznet/io/FileUtil.cpp writes.
use sznet.Base.{
  ℕ, suc, ◌+◌, ◌≤◌, ◌<◌, ◌≡◌, refl, sym, ap, ◌∙◌, min, false, List, [], ◌∷◌, ◌++◌, ◌==◌, length,
  take, drop, length-drop, take-append-drop, append_assoc, append-nil, arith,
}
use sznet.Run.{Ensures, returned, Ensures-bind, Ensures-weaken}
use sznet.LogFile.{AppendFile, write_rest, append}

-- Every answer of `fwrite` is at least a byte.
abbrev pub AllPositive : List ℕ → Type 0
AllPositive [] = Unit
AllPositive (w ∷ ws) = (0 < w) × AllPositive ws

-- What does not change while a file is open.
abbrev pub label : AppendFile → ℕ × ℕ × ℕ
label f = (f.name, f.earlier, f.times)

-- `line` went to the file.
pub record Written (f : AppendFile) (line : List ℕ) (f' : AppendFile) : Type 0 where
  pub contents : f'.contents ≡ f.contents ++ line
  pub counted : f'.written_bytes ≡ f.written_bytes
  pub same : label f' ≡ label f

write_rest-Written :
    (ws : List ℕ) (f : AppendFile) (line : List ℕ)
    → AllPositive ws
    → length line ≤ length ws
    → Ensures (Written f line) (write_rest ws f line)
unfolding write_rest
write_rest-Written ws f [] p enough =
    returned (record { contents = sym (append-nil f.contents); counted = refl; same = refl })
write_rest-Written [] f (b ∷ bs) p enough = absurd (omega (arith, enough))
write_rest-Written (w ∷ ws) f (b ∷ bs) (positive, p) enough =
    let n : ℕ = min w (length (b ∷ bs)) in
    let some_taken : (min w (suc (length bs)) == 0) ≡ false = ground (arith, positive) in
    rw some_taken (
      Ensures-weaken
        (write_rest-Written ws _ (drop n (b ∷ bs)) p
          (ground (arith, positive, enough, length-drop n (b ∷ bs))))
        λ f' d. record {
          contents =
              d.contents
              ∙ append_assoc f.contents (take n (b ∷ bs)) (drop n (b ∷ bs))
              ∙ ap (◌++◌ f.contents) (take-append-drop n (b ∷ bs));
          counted = d.counted;
          same = d.same;
        })

-- If every answer of fwrite is at least a byte, and there are as many of them as bytes, the call
-- returns, and the whole line is written and counted.
pub append-Written :
    (ws : List ℕ) (f : AppendFile) (line : List ℕ)
    → AllPositive ws
    → 0 < length line
    → length line ≤ length ws
    → Ensures
        (λ f'.
          (f'.contents ≡ f.contents ++ line)
          × (f'.written_bytes ≡ f.written_bytes + length line)
          × (label f' ≡ label f))
        (append ws f line)
unfolding append
append-Written [] f line p some enough = absurd (omega (arith, some, enough))
append-Written (w ∷ ws) f line (positive, p) some enough =
    let n : ℕ = min w (length line) in
    Ensures-bind
      (write_rest-Written ws _ (drop n line) p
        (ground (arith, positive, some, enough, length-drop n line)))
      λ done d. returned (
        d.contents
            ∙ append_assoc f.contents (take n line) (drop n line)
            ∙ ap (◌++◌ f.contents) (take-append-drop n line),
        ap (λ k. k + length line) d.counted,
        d.same,
      )
