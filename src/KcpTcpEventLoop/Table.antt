-- ===== src/KcpTcpEventLoop/Table.antt =====
-- The maps of sznet/net/KcpTcpEventLoop.h, as lists of keys and values with the newest first.
use sznet.Base.{
  ℕ, ◌≡◌, refl, sym, ap, subst, ◌∙◌, false, Option, none, some, List, [], ◌∷◌, ◌==◌, if◌then◌else◌,
  Bool-cases, inl, inr, arith, eq_self,
}

module _ {A : Type 0} where
  abbrev pub find : ℕ → List (ℕ × A) → Option A
  find k [] = none
  find k ((key, a) ∷ rest) = let later = find k rest in if key == k then some a else later

  abbrev pub erase : ℕ → List (ℕ × A) → List (ℕ × A)
  erase k [] = []
  erase k ((key, a) ∷ rest) = let kept = erase k rest in if key == k then kept else (key, a) ∷ kept

  -- `map[k] = a`
  abbrev pub assign : ℕ → A → List (ℕ × A) → List (ℕ × A)
  assign k a rest = (k, a) ∷ erase k rest

  pub find-erase_same : (k : ℕ) (t : List (ℕ × A)) → find k (erase k t) ≡ none
  find-erase_same k [] = refl
  find-erase_same k ((key, a) ∷ rest) = elim (Bool-cases (key == k)) [
    | inl e ↦ rw e (find-erase_same k rest)
    | inr e ↦ rw e (rw e (find-erase_same k rest))
  ]

  pub find-erase_other :
      (j k : ℕ) (t : List (ℕ × A)) → (j == k) ≡ false → find j (erase k t) ≡ find j t
  find-erase_other j k [] h = refl
  find-erase_other j k ((key, a) ∷ rest) h = elim (Bool-cases (key == k)) [
    | inl e ↦
        let other : (key == j) ≡ false = ground (arith, e, h) in
        rw (e, other) (find-erase_other j k rest h)
    | inr e ↦ elim (Bool-cases (key == j)) [
      | inl e' ↦ rw (e, e') refl
      | inr e' ↦ rw (e, e') (find-erase_other j k rest h)
    ]
  ]

  pub find-assign_same : (k : ℕ) (a : A) (t : List (ℕ × A)) → find k (assign k a t) ≡ some a
  find-assign_same k a t = rw (eq_self k) refl

  pub find-assign_other :
      (j k : ℕ) (a : A) (t : List (ℕ × A)) → (j == k) ≡ false → find j (assign k a t) ≡ find j t
  find-assign_other j k a t h =
      let other : (k == j) ≡ false = ground (arith, h) in rw other (find-erase_other j k t h)

  -- What is found after an erasure stands under another key and was there before.
  pub erased {ℓ} :
      {B : Type ℓ} (j k : ℕ) (t : List (ℕ × A)) (a : A)
      → find j (erase k t) ≡ some a
      → ((j == k) ≡ false → find j t ≡ some a → B)
      → B
  erased j k t a e next = elim (Bool-cases (j == k)) [
    | inl e' ↦
        let key : j ≡ k = ground (arith, e') in
        absurd
          (none_some (sym (find-erase_same k t) ∙ subst (λ i. find i (erase k t) ≡ some a) key e))
    | inr other ↦ next other (sym (find-erase_other j k t other) ∙ e)
  ]
    where
      none_some : none ≡ some a → ⊥
      none_some e = cc

pub some-injective : {A : Type 0} (a b : A) → some a ≡ some b → a ≡ b
some-injective {A} a b e = ap value e
  where
    value : Option A → A
    value none = a
    value (some x) = x

module _ {A : Type 0} where
  -- A key that is missing is not one that is found.
  pub missing :
      (j k : ℕ) (t : List (ℕ × A)) (a : A) → find k t ≡ none → find j t ≡ some a → (j == k) ≡ false
  missing j k t a n f = elim (Bool-cases (j == k)) [
    | inr apart ↦ apart
    | inl both ↦
        let key : j ≡ k = ground (arith, both) in
        absurd (none_some (sym n ∙ ap (λ i. find i t) (sym key) ∙ f))
  ]
    where
      none_some : none ≡ some a → ⊥
      none_some e = cc

  -- What is found after an assignment is the new value, or stands under another key.
  pub assigned {ℓ} :
      {B : Type ℓ} (j k : ℕ) (b : A) (t : List (ℕ × A)) (a : A)
      → find j (assign k b t) ≡ some a
      → (j ≡ k → b ≡ a → B)
      → ((j == k) ≡ false → find j t ≡ some a → B)
      → B
  assigned j k b t a f new old = elim (Bool-cases (j == k)) [
    | inl e ↦
        let key : j ≡ k = ground (arith, e) in
        new key (
          some-injective b a
            (sym (find-assign_same k b t) ∙ ap (λ i. find i (assign k b t)) (sym key) ∙ f))
    | inr e ↦ old e (sym (find-assign_other j k b t e) ∙ f)
  ]

  -- Under the key of an assignment, and under every key that was there, something is found.
  pub found_still :
      (j k : ℕ) (b a : A) (t : List (ℕ × A))
      → find j t ≡ some a
      → (a' : A) × (find j (assign k b t) ≡ some a')
  found_still j k b a t f = elim (Bool-cases (j == k)) [
    | inl e ↦
        let key : j ≡ k = ground (arith, e) in
        (b, ap (λ i. find i (assign k b t)) key ∙ find-assign_same k b t)
    | inr e ↦ (a, find-assign_other j k b t e ∙ f)
  ]
