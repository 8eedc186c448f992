-- ===== src/Raop/Reorder/Pending.antt =====
-- The Go map of held packets: lookup, delete and assignment over distinct keys.
use sonospoof.Base.{
  ℕ, ◌+◌, ◌≤◌, ◌≡◌, ◌≢◌, refl, List, [], ◌∷◌, Option, none, some, ◌==◌, ==_iff, if◌then◌else◌,
  length, arith, Bool-cases, inl, inr, sym, ◌∙◌, if_true, if_false, subst₂, some-injective,
}

module _ {ℓ} {A : Type ℓ} where
  unfoldable pub lookup : ℕ → List (ℕ × A) → Option A
  lookup k [] = none
  lookup k ((j, v) ∷ m) = if j == k then some v else lookup k m

  unfoldable pub erase : ℕ → List (ℕ × A) → List (ℕ × A)
  erase k [] = []
  erase k ((j, v) ∷ m) = if j == k then erase k m else (j, v) ∷ erase k m

  unfoldable pub insert : ℕ → A → List (ℕ × A) → List (ℕ × A)
  insert k v m = (k, v) ∷ erase k m

  -- No key stands twice.
  abbrev pub Distinct : List (ℕ × A) → Type ℓ
  Distinct [] = Unit
  Distinct ((k, v) ∷ m) = (lookup k m ≡ none) × Distinct m

  -- What holds of each key with its packet.
  abbrev pub AllHeld {κ} : (ℕ → A → Type κ) → List (ℕ × A) → Type κ
  AllHeld P [] = Unit
  AllHeld P ((k, v) ∷ m) = P k v × AllHeld P m

  pub lookup-erase_self : (k : ℕ) (m : List (ℕ × A)) → lookup k (erase k m) ≡ none
  unfolding lookup erase
  lookup-erase_self k [] = refl
  lookup-erase_self k ((j, v) ∷ m) = ground (arith, lookup-erase_self k m)

  pub lookup-erase_ne : (k j : ℕ) (m : List (ℕ × A)) → k ≢ j → lookup k (erase j m) ≡ lookup k m
  unfolding lookup erase
  lookup-erase_ne k j [] h = refl
  lookup-erase_ne k j ((i, v) ∷ m) h = ground (arith, lookup-erase_ne k j m)

  lookup-erase-none : (k j : ℕ) (m : List (ℕ × A)) → lookup k m ≡ none → lookup k (erase j m) ≡ none
  unfolding lookup erase
  lookup-erase-none k j [] h = refl
  lookup-erase-none k j ((i, v) ∷ m) h = ground (arith, lookup-erase-none k j m)

  pub erase-Distinct : (k : ℕ) (m : List (ℕ × A)) → Distinct m → Distinct (erase k m)
  unfolding erase
  erase-Distinct k [] d = tt
  erase-Distinct k ((j, v) ∷ m) d = elim (Bool-cases (j == k)) [
    | inl e ↦ rw e (erase-Distinct k m d.1)
    | inr e ↦ rw e (lookup-erase-none j k m d.0, erase-Distinct k m d.1)
  ]

  pub erase-AllHeld {κ} :
      (P : ℕ → A → Type κ) (k : ℕ) (m : List (ℕ × A)) → AllHeld P m → AllHeld P (erase k m)
  unfolding erase
  erase-AllHeld P k [] h = tt
  erase-AllHeld P k ((j, v) ∷ m) h = elim (Bool-cases (j == k)) [
    | inl e ↦ rw e (erase-AllHeld P k m h.1)
    | inr e ↦ rw e (h.0, erase-AllHeld P k m h.1)
  ]

  -- A key that is absent is none of those that are held.
  pub AllHeld-ne : (k : ℕ) (m : List (ℕ × A)) → lookup k m ≡ none → AllHeld (λ j v. j ≢ k) m
  unfolding lookup
  AllHeld-ne k [] a = tt
  AllHeld-ne k ((j, v) ∷ m) a = elim (Bool-cases (j == k)) [
    | inl e ↦ ground arith
    | inr e ↦
        ((λ same. ground (arith, (==_iff j k).1 same)), AllHeld-ne k m (sym (if_false _ _ e) ∙ a))
  ]

  pub AllHeld-map {κ μ ν} :
      {P : ℕ → A → Type κ} {Q : ℕ → A → Type μ} {R : ℕ → A → Type ν} (m : List (ℕ × A))
      → ((j : ℕ) (v : A) → P j v → Q j v → R j v)
      → AllHeld P m
      → AllHeld Q m
      → AllHeld R m
  AllHeld-map [] f h g = tt
  AllHeld-map ((j, v) ∷ m) f h g = (f j v h.0 g.0, AllHeld-map m f h.1 g.1)

  pub AllHeld-lookup {κ} :
      (P : ℕ → A → Type κ) (k : ℕ) {v : A} (m : List (ℕ × A))
      → AllHeld P m
      → lookup k m ≡ some v
      → P k v
  unfolding lookup
  AllHeld-lookup P k [] h e = absurd (ground arith)
  AllHeld-lookup P k {v} ((j, w) ∷ m) h e = elim (Bool-cases (j == k)) [
    | inl same ↦
        subst₂ P ((==_iff j k).0 same) (some-injective w v (sym (if_true _ _ same) ∙ e)) h.0
    | inr other ↦ AllHeld-lookup P k m h.1 (sym (if_false _ _ other) ∙ e)
  ]

  -- Deleting a key that is absent does nothing; one that is there leaves one packet less.
  pub erase_absent : (k : ℕ) (m : List (ℕ × A)) → lookup k m ≡ none → erase k m ≡ m
  unfolding lookup erase
  erase_absent k [] h = refl
  erase_absent k ((j, v) ∷ m) h = ground (arith, erase_absent k m)

  pub length-erase :
      (k : ℕ) {v : A} (m : List (ℕ × A))
      → Distinct m
      → lookup k m ≡ some v
      → length (erase k m) + 1 ≡ length m
  unfolding lookup erase
  length-erase k [] d e = ground arith
  length-erase k {v} ((j, w) ∷ m) d e =
      ground (arith, length-erase k {v = v} m d.1, erase_absent k m)

  pub length-erase-le : (k : ℕ) (m : List (ℕ × A)) → length (erase k m) ≤ length m
  unfolding erase
  length-erase-le k [] = omega arith
  length-erase-le k ((j, v) ∷ m) = ground (arith, length-erase-le k m)

  pub lookup-cons_self :
      (k j : ℕ) (v : A) (m : List (ℕ × A)) → j ≡ k → lookup j ((k, v) ∷ m) ≡ some v
  unfolding lookup
  lookup-cons_self k j v m e = if_true _ _ ((==_iff k j).1 (sym e))

  pub lookup-cons_some :
      (k j : ℕ) (v : A) {w : A} (m : List (ℕ × A))
      → lookup j m ≡ some w
      → (x : A) × (lookup j ((k, v) ∷ m) ≡ some x)
  unfolding lookup
  lookup-cons_some k j v {w} m e = elim (Bool-cases (k == j)) [
    | inl same ↦ (v, if_true _ _ same)
    | inr other ↦ (w, if_false _ _ other ∙ e)
  ]
