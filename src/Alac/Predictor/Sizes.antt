-- ===== src/Alac/Predictor/Sizes.antt =====
-- `unpcBlock` writes as many samples as it is given residuals.
use mathlib.Core.List.{reverse, reverse-cons}
use sonospoof.Base.{
  ℕ, zero, suc, ◌+◌, ◌≡◌, ◌≢◌, ◌⊎◌, refl, ap, sym, ◌∙◌, arith, ◌==◌, Bool-cases, inl, inr, if_true,
  if_false, List, [], ◌∷◌, length, length-append, sub32, subst, ==_iff,
}
use sonospoof.Alac.Result.{Result, ok, err, panic}
use sonospoof.Alac.Predictor.{deltas, general, unpc_block, adapted}

pub length-reverse {ℓ} : {A : Type ℓ} (xs : List A) → length (reverse xs) ≡ length xs
length-reverse [] = refl
length-reverse (x ∷ xs) =
    ap length (reverse-cons x xs)
    ∙ omega (arith, length-append (reverse xs) (x ∷ []), length-reverse xs)

length-deltas :
    (shift left : ℕ) (pc1 past : List ℕ)
    → length (deltas shift left pc1 past).0 + length (deltas shift left pc1 past).1
      ≡ length pc1 + length past
unfolding deltas
length-deltas shift zero pc1 past = refl
length-deltas shift (suc left) [] past = refl
length-deltas shift (suc left) (d ∷ pc1) past = length-deltas shift left pc1 _ ∙ omega arith

-- As many steps as residuals use them up.
deltas_all : (shift : ℕ) (pc1 past : List ℕ) → (deltas shift (length pc1) pc1 past).0 ≡ []
unfolding deltas
deltas_all shift [] past = refl
deltas_all shift (d ∷ pc1) past = deltas_all shift pc1 _

length-general :
    (shift numactive denshift : ℕ) (coefs pc1 past : List ℕ)
    → length (general shift numactive denshift coefs pc1 past).0 ≡ length pc1 + length past
unfolding general
length-general shift numactive denshift coefs [] past = omega arith
length-general shift numactive denshift coefs (d ∷ pc1) past =
    length-general shift numactive denshift (adapted numactive denshift d coefs past) pc1 _
    ∙ omega arith

∷≢[] : (x : ℕ) (xs : List ℕ) → x ∷ xs ≢ []
∷≢[] x xs e = absurd (omega (arith, ap length e))

-- The only block that panics is one of no samples with no active coefficients.
abbrev pub Unpacks : List ℕ → ℕ → Result (List ℕ × List ℕ) → Type 0
Unpacks pc1 numactive (ok r) = (length r.0 ≡ length pc1) × ((pc1 ≢ []) ⊎ (numactive ≢ 0))
Unpacks pc1 numactive (err e) = ⊥
Unpacks pc1 numactive panic = (pc1 ≡ []) × (numactive ≡ 0)

-- A block is unpacked to as many samples as it has residuals, for every predictor, unless it has none
-- and no coefficient is active: exactly such a block panics.
pub unpc_block-Unpacks :
    (pc1 coefs : List ℕ) (numactive chanbits denshift : ℕ)
    → Unpacks pc1 numactive (unpc_block pc1 coefs numactive chanbits denshift)
unfolding unpc_block
unpc_block-Unpacks [] coefs numactive chanbits denshift = elim (Bool-cases (numactive == 0)) [
  | inl e ↦ subst (Unpacks [] numactive) (sym (if_true _ _ e)) (refl, (==_iff numactive 0).0 e)
  | inr e ↦ subst (Unpacks [] numactive) (sym (if_false _ _ e)) (refl, inr (ground arith))
]
unpc_block-Unpacks (first ∷ pc1) coefs numactive chanbits denshift =
    let shift : ℕ = sub32 32 chanbits in
    let d = deltas shift numactive pc1 (first ∷ []) in
    let P = Unpacks (first ∷ pc1) numactive in
    elim (Bool-cases (numactive == 0)) [
      | inl e ↦ subst P (sym (if_true _ _ e)) (refl, inl (∷≢[] first pc1))
      | inr e ↦ subst P (sym (if_false _ _ e)) (elim (Bool-cases (numactive == 31)) [
        | inl delta ↦ subst P (sym (if_true _ _ delta)) (
          length-reverse (deltas shift (length pc1) pc1 (first ∷ [])).1
              ∙ omega (
                arith,
                length-deltas shift (length pc1) pc1 (first ∷ []),
                ap length (deltas_all shift pc1 (first ∷ [])),
              ),
          inl (∷≢[] first pc1),
        )
        | inr other ↦ subst P (sym (if_false _ _ other)) (
          length-reverse (general shift numactive denshift coefs d.0 d.1).0
              ∙ length-general shift numactive denshift coefs d.0 d.1
              ∙ length-deltas shift numactive pc1 (first ∷ [])
              ∙ omega arith,
          inl (∷≢[] first pc1),
        )
      ])
    ]
