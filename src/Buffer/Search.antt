-- ===== src/Buffer/Search.antt =====
-- `findCRLF` and `findEOL` of sznet/net/Buffer.h. A null pointer is `none`; another is its offset
-- from `begin()`.
use mathlib.Core.Option
use sznet.Base.{
  ℕ, zero, suc, ◌+◌, ◌-◌, ◌≤◌, ◌<◌, ◌≡◌, refl, sym, ap, ◌∙◌, inl, inr, List, [], ◌∷◌, Option, none,
  some, ◌&&◌, arith, leb, le→leb, ◌==◌, if◌then◌else◌, sub_size, sub_size-eq, get_elem?, take, drop,
  drop-drop, take-drop, Bool-cases,
}
use sznet.Run.{Run, ok, ◌>>◌, assert, Ensures, returned}
use sznet.Buffer.{Buffer, contents, bytes_at, retrieve_until}
use sznet.Buffer.Room.{IsValid, readable-eq, contents-eq}
use sznet.Buffer.Ends.{Holds, retrieve-Holds}

-- `std::search` for "\r\n"
unfoldable pub crlf_index : List ℕ → Option ℕ
crlf_index [] = none
crlf_index (x ∷ []) = none
crlf_index (x ∷ y ∷ xs) =
    if (x == b'\r') && (y == b'\n') then some 0 else Option.map suc (crlf_index (y ∷ xs))

-- `memchr` for '\n'
pub eol_index : List ℕ → Option ℕ
eol_index [] = none
eol_index (x ∷ xs) = if x == b'\n' then some 0 else Option.map suc (eol_index xs)

unfoldable pub find_crlf : Buffer → Option ℕ
find_crlf b = Option.map (λ i. b.reader_index + i) (crlf_index (contents b))

pub find_crlf_from : Buffer → ℕ → Run (Option ℕ)
find_crlf_from b start = do
  assert (leb b.reader_index start)
  assert (leb start b.writer_index)
  ok (Option.map (λ i. start + i) (crlf_index (bytes_at b start (sub_size b.writer_index start))))

pub find_eol : Buffer → Option ℕ
find_eol b = Option.map (λ i. b.reader_index + i) (eol_index (contents b))

pub find_eol_from : Buffer → ℕ → Run (Option ℕ)
find_eol_from b start = do
  assert (leb b.reader_index start)
  assert (leb start b.writer_index)
  ok (Option.map (λ i. start + i) (eol_index (bytes_at b start (sub_size b.writer_index start))))

-- The index, if any, is the first one at which `P` holds.
abbrev pub IsFirst {ℓ} : (ℕ → Type ℓ) → Option ℕ → Type ℓ
IsFirst P none = (i : ℕ) → ¬ P i
IsFirst P (some i) = P i × ((j : ℕ) → j < i → ¬ P j)

abbrev pub CrlfAt : List ℕ → ℕ → Type 0
CrlfAt xs i = (get_elem? xs i ≡ some b'\r') × (get_elem? xs (suc i) ≡ some b'\n')

abbrev pub EolAt : List ℕ → ℕ → Type 0
EolAt xs i = get_elem? xs i ≡ some b'\n'

-- The first index in a list is 0, or the first one in its tail.
IsFirst-suc {ℓ} :
    (P : ℕ → Type ℓ) (o : Option ℕ)
    → ¬ P 0
    → IsFirst (λ i. P (suc i)) o
    → IsFirst P (Option.map suc o)
IsFirst-suc P none here first = later
  where
    later : (i : ℕ) → ¬ P i
    later zero h = here h
    later (suc i) h = first i h
IsFirst-suc P (some k) here first = (first.0, later)
  where
    later : (j : ℕ) → j < suc k → ¬ P j
    later zero l h = here h
    later (suc j) l h = first.1 j (omega arith) h

eol_index-IsFirst : (xs : List ℕ) → IsFirst (EolAt xs) (eol_index xs)
unfolding eol_index
eol_index-IsFirst [] = λ i h. cc
eol_index-IsFirst (x ∷ xs) = elim (Bool-cases (x == b'\n')) [
  | inl hit ↦ rw hit ((ground arith), (λ j h. absurd (omega arith)))
  | inr miss ↦
      rw miss
        (IsFirst-suc (EolAt (x ∷ xs)) (eol_index xs) (λ h. ground arith) (eol_index-IsFirst xs))
]

crlf_index-IsFirst : (xs : List ℕ) → IsFirst (CrlfAt xs) (crlf_index xs)
unfolding crlf_index
crlf_index-IsFirst [] = λ i h. cc (h.0)
crlf_index-IsFirst (x ∷ []) = λ i h. cc (h.1)
crlf_index-IsFirst (x ∷ y ∷ xs) = elim (Bool-cases ((x == b'\r') && (y == b'\n'))) [
  | inl hit ↦ rw hit (((ground arith), (ground arith)), (λ j h. absurd (omega arith)))
  | inr miss ↦ rw miss (
      IsFirst-suc (CrlfAt (x ∷ y ∷ xs)) (crlf_index (y ∷ xs)) (λ h. ground arith)
        (crlf_index-IsFirst (y ∷ xs)))
]

-- A position in the buffer, as one among the readable bytes.
abbrev pub relative : ℕ → Option ℕ → Option ℕ
relative start = Option.map (λ p. p - start)

relative-shifted : (start : ℕ) (o : Option ℕ) → relative start (Option.map (λ i. start + i) o) ≡ o
relative-shifted start none = refl
relative-shifted start (some i) = ap some (omega arith)

-- `findCRLF` and `findEOL` return the first such place among the readable bytes, and null exactly
-- when there is none.
pub find-IsFirst :
    (b : Buffer)
    → IsFirst (CrlfAt (contents b)) (relative b.reader_index (find_crlf b))
      × IsFirst (EolAt (contents b)) (relative b.reader_index (find_eol b))
unfolding find_crlf find_eol
find-IsFirst b = (
  rw (relative-shifted b.reader_index (crlf_index (contents b))) (crlf_index-IsFirst (contents b)),
  rw (relative-shifted b.reader_index (eol_index (contents b))) (eol_index-IsFirst (contents b)),
)

-- The bytes from a position on are the readable ones without those before it.
bytes_at-drop :
    (b : Buffer) (start : ℕ)
    → IsValid b
    → b.reader_index ≤ start
    → start ≤ b.writer_index
    → bytes_at b start (sub_size b.writer_index start) ≡ drop (start - b.reader_index) (contents b)
bytes_at-drop b start v h k =
    let n : sub_size b.writer_index start ≡ b.writer_index - start =
      sub_size-eq b.writer_index start k in
    let at : b.reader_index + (start - b.reader_index) ≡ start = omega arith in
    let size : start - b.reader_index + (b.writer_index - start) ≡ b.writer_index - b.reader_index =
      omega arith in
    ap (λ n. take n (drop start b.buffer)) n
    ∙ ap (λ s. take (b.writer_index - start) (drop s b.buffer)) (sym at)
    ∙ ap (take (b.writer_index - start))
        (sym (drop-drop b.reader_index (start - b.reader_index) b.buffer))
    ∙ take-drop (start - b.reader_index) (b.writer_index - start) (drop b.reader_index b.buffer)
    ∙ ap (λ n. drop (start - b.reader_index) (take n (drop b.reader_index b.buffer))) size
    ∙ ap (drop (start - b.reader_index)) (sym (contents-eq v))

module _ (b : Buffer) (start : ℕ) (v : IsValid b) (h : b.reader_index ≤ start)
    (k : start ≤ b.writer_index) where
  -- On a well-formed buffer, from a position among the readable bytes on, findCRLF and findEOL
  -- return, with the first place of CR LF, or of LF, at or behind it, and null exactly when there
  -- is none.
  pub find-IsFirst_from :
      Ensures
        (λ o. IsFirst (CrlfAt (drop (start - b.reader_index) (contents b))) (relative start o))
        (find_crlf_from b start)
      × Ensures
          (λ o. IsFirst (EolAt (drop (start - b.reader_index) (contents b))) (relative start o))
          (find_eol_from b start)
  unfolding find_crlf_from find_eol_from
  find-IsFirst_from =
      rw (le→leb _ _ h, le→leb _ _ k, bytes_at-drop b start v h k)
        (
          returned (rw (relative-shifted start (crlf_index rest)) (crlf_index-IsFirst rest)),
          returned (rw (relative-shifted start (eol_index rest)) (eol_index-IsFirst rest)),
        )
    where
      rest : List ℕ
      rest = drop (start - b.reader_index) (contents b)

  -- `retrieveUntil(end)` takes away the bytes before `end`.
  pub retrieve_until-Holds :
      Ensures (Holds b (drop (start - b.reader_index) (contents b))) (retrieve_until b start)
  unfolding retrieve_until
  retrieve_until-Holds =
      rw (le→leb _ _ h, le→leb _ _ k, sub_size-eq start b.reader_index h)
        (retrieve-Holds b (start - b.reader_index) v (omega (arith, readable-eq v)))
