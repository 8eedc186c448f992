-- ===== src/Alac/Predictor/Inverse.antt =====
-- The predictor is undone exactly: an encoder that runs the same predictor over the samples, and
-- the decoder that `unpcBlock` is.
use mathlib.Core.List.{reverse, reverse-cons}
use sonospoof.Base.{
  ℕ, zero, suc, ◌^◌, ◌<◌, ◌≡◌, refl, ap, sym, ◌∙◌, ◌⊎◌, inl, inr, arith, List, [], ◌∷◌, ◌++◌,
  length, get_or, ◌==◌, if◌then◌else◌, true, false, if_true, if_false, Bool-cases, Option, none,
  some, append-nil, append_assoc, subst, add32, sub32, sar32, shl32,
}
use sonospoof.Alac.Result.{Result, ok, err, panic}
use sonospoof.Alac.Predictor.{narrow, deltas, general, unpc_block, predicted, adapted}

-- The two sample widths of a 16-bit stream, one bit more for a stereo pair, as the shift that
-- sign-extends them: `32 - chanbits`.
abbrev pub IsShift : ℕ → Type 0
IsShift s = (s ≡ 16) ⊎ (s ≡ 15)

narrow_16 :
    (x b : ℕ) → x < 2 ^ 32 → b < 2 ^ 32 → narrow 16 (add32 (narrow 16 (sub32 x b)) b) ≡ narrow 16 x
unfolding narrow sar32 shl32
narrow_16 x b hx hb = ground arith

narrow_15 :
    (x b : ℕ) → x < 2 ^ 32 → b < 2 ^ 32 → narrow 15 (add32 (narrow 15 (sub32 x b)) b) ≡ narrow 15 x
unfolding narrow sar32 shl32
narrow_15 x b hx hb = ground arith

-- Taking away before a residual is narrowed, and adding after, is undone by the wrap-around.
narrow-add :
    (s x b : ℕ)
    → IsShift s
    → x < 2 ^ 32
    → b < 2 ^ 32
    → narrow s (add32 (narrow s (sub32 x b)) b) ≡ narrow s x
narrow-add s x b (inl e) hx hb =
    subst (λ k. narrow k (add32 (narrow k (sub32 x b)) b) ≡ narrow k x) (sym e)
      (narrow_16 x b hx hb)
narrow-add s x b (inr e) hx hb =
    subst (λ k. narrow k (add32 (narrow k (sub32 x b)) b) ≡ narrow k x) (sym e)
      (narrow_15 x b hx hb)

predicted-lt :
    (numactive denshift : ℕ) (coefs past : List ℕ)
    → predicted numactive denshift coefs past < 2 ^ 32
unfolding predicted
predicted-lt numactive denshift coefs past = omega arith

-- The samples are int32 values of the sample width.
abbrev pub Fits : ℕ → List ℕ → Type 0
Fits s [] = Unit
Fits s (x ∷ xs) = (x < 2 ^ 32) × (narrow s x ≡ x) × Fits s xs

-- The samples written onto the past, latest first.
abbrev written : List ℕ → List ℕ → List ℕ
written [] past = past
written (x ∷ xs) past = written xs (x ∷ past)

reverse-written : (xs past : List ℕ) → reverse (written xs past) ≡ reverse past ++ xs
reverse-written [] past = sym (append-nil (reverse past))
reverse-written (x ∷ xs) past =
    reverse-written xs (x ∷ past)
    ∙ ap (λ l. l ++ xs) (reverse-cons x past)
    ∙ append_assoc (reverse past) (x ∷ []) xs

module _ (s : ℕ) where
  -- The encoder: differences to the sample before, for at most `left` samples; the samples that
  -- remain, and the past.
  record Warm : Type 0 where
    res : List ℕ
    rest : List ℕ
    past : List ℕ

  encode_deltas : ℕ → List ℕ → List ℕ → Warm
  encode_deltas zero xs past = record { res = []; rest = xs; past = past }
  encode_deltas (suc left) [] past = record { res = []; rest = []; past = past }
  encode_deltas (suc left) (x ∷ xs) past =
      let w = encode_deltas left xs (x ∷ past) in
      record w { res = narrow s (sub32 x (get_or past 0 0)) ∷ w.res }

  encode_general : ℕ → ℕ → List ℕ → List ℕ → List ℕ → List ℕ
  encode_general numactive denshift coefs [] past = []
  encode_general numactive denshift coefs (x ∷ xs) past =
      let d = narrow s (sub32 x (predicted numactive denshift coefs past)) in
      d ∷ encode_general numactive denshift (adapted numactive denshift d coefs past) xs (x ∷ past)

  module _ (shift : IsShift s) where
    decode_step :
        (x b : ℕ)
        → x < 2 ^ 32
        → narrow s x ≡ x
        → b < 2 ^ 32
        → narrow s (add32 (narrow s (sub32 x b)) b) ≡ x
    decode_step x b hx n hb = narrow-add s x b shift hx hb ∙ n

    general_encoded :
        (numactive denshift : ℕ) (coefs xs past : List ℕ)
        → Fits s xs
        → (general s numactive denshift coefs
            (encode_general numactive denshift coefs xs past)
            past).0
          ≡ written xs past
    unfolding general encode_general
    general_encoded numactive denshift coefs [] past f = refl
    general_encoded numactive denshift coefs (x ∷ xs) past f =
        let b : ℕ = predicted numactive denshift coefs past in
        let d : ℕ = narrow s (sub32 x b) in
        let coefs' : List ℕ = adapted numactive denshift d coefs past in
        ap
          (λ y.
            (general s numactive denshift coefs'
              (encode_general numactive denshift coefs' xs (x ∷ past)) (y ∷ past)).0)
          (decode_step x b f.0 f.1 (predicted-lt numactive denshift coefs past))
        ∙ general_encoded numactive denshift coefs' xs (x ∷ past) f.2

    deltas_encoded :
        (left : ℕ) (xs past more : List ℕ)
        → Fits s xs
        → get_or past 0 0 < 2 ^ 32
        → ((encode_deltas left xs past).rest ≡ [] → more ≡ [])
        → (deltas s left ((encode_deltas left xs past).res ++ more) past
            ≡ (more, (encode_deltas left xs past).past))
          × (written (encode_deltas left xs past).rest (encode_deltas left xs past).past
              ≡ written xs past)
          × Fits s (encode_deltas left xs past).rest
    unfolding deltas encode_deltas
    deltas_encoded zero xs past more f h e = (refl, refl, f)
    deltas_encoded (suc left) [] past more f h e = (
      ap (λ m. deltas s (suc left) m past) (e refl) ∙ ap (λ m. (m, past)) (sym (e refl)),
      refl,
      tt,
    )
    deltas_encoded (suc left) (x ∷ xs) past more f h e =
        let (go, same, fits) = deltas_encoded left xs (x ∷ past) more f.2 f.0 e in
        (
          ap (λ y. deltas s left ((encode_deltas left xs (x ∷ past)).res ++ more) (y ∷ past))
                (decode_step x (get_or past 0 0) f.0 f.1 h)
              ∙ go,
          same,
          fits,
        )

-- An encoder's block: what `unpcBlock` has to be given for these samples.
pub pc_block : ℕ → List ℕ → List ℕ → ℕ → ℕ → List ℕ
unfolding encode_deltas encode_general
pc_block s [] coefs numactive denshift = []
pc_block s (first ∷ xs) coefs numactive denshift =
    let all = encode_deltas s (length xs) xs (first ∷ []) in
    let w = encode_deltas s numactive xs (first ∷ []) in
    if numactive == 0
    then first ∷ xs
    else if numactive == 31
    then first ∷ all.res
    else first ∷ w.res ++ encode_general s numactive denshift coefs w.rest w.past

rest_of_all : (s : ℕ) (xs past : List ℕ) → (encode_deltas s (length xs) xs past).rest ≡ []
unfolding encode_deltas
rest_of_all s [] past = refl
rest_of_all s (x ∷ xs) past = rest_of_all s xs (x ∷ past)

length-res :
    (s : ℕ) (xs past : List ℕ) → length (encode_deltas s (length xs) xs past).res ≡ length xs
unfolding encode_deltas
length-res s [] past = refl
length-res s (x ∷ xs) past = ap suc (length-res s xs (x ∷ past))

no_samples_left :
    (s numactive denshift : ℕ) (coefs xs past : List ℕ)
    → xs ≡ []
    → encode_general s numactive denshift coefs xs past ≡ []
unfolding encode_general
no_samples_left s numactive denshift coefs xs past e =
    ap (λ l. encode_general s numactive denshift coefs l past) e

-- The samples of a result.
abbrev pub samples_of : Result (List ℕ × List ℕ) → Option (List ℕ)
samples_of (ok r) = some r.0
samples_of (err e) = none
samples_of panic = none

module _ (numactive chanbits denshift first : ℕ) (xs coefs : List ℕ) where
  abbrev s₀ : ℕ
  s₀ = sub32 32 chanbits

  abbrev sent : List ℕ
  sent = pc_block s₀ (first ∷ xs) coefs numactive denshift

  abbrev decoded : List ℕ → Result (List ℕ × List ℕ)
  decoded l = unpc_block l coefs numactive chanbits denshift

  copied : (numactive == 0) ≡ true → samples_of (decoded sent) ≡ some (first ∷ xs)
  unfolding unpc_block pc_block
  copied e = ap (λ l. samples_of (decoded l)) (if_true _ _ e) ∙ ap samples_of (if_true _ _ e)

  differences :
      IsShift s₀
      → Fits s₀ (first ∷ xs)
      → (numactive == 0) ≡ false
      → (numactive == 31) ≡ true
      → samples_of (decoded sent) ≡ some (first ∷ xs)
  unfolding unpc_block pc_block
  differences shift f e delta =
      let w : Warm s₀ = encode_deltas s₀ (length xs) xs (first ∷ []) in
      let (go, same, _) =
        deltas_encoded s₀ shift (length xs) xs (first ∷ []) [] f.2 f.0 (λ _. refl) in
      ap (λ l. samples_of (decoded l)) (if_false _ _ e ∙ if_true _ _ delta)
      ∙ ap samples_of (if_false _ _ e ∙ if_true _ _ delta)
      ∙ ap some (
          ap (λ n. reverse (deltas s₀ n w.res (first ∷ [])).1) (length-res s₀ xs (first ∷ []))
          ∙ ap (λ l. reverse (deltas s₀ (length xs) l (first ∷ [])).1) (sym (append-nil w.res))
          ∙ ap (λ (r : List ℕ × List ℕ). reverse r.1) go
          ∙ ap (λ l. reverse (written l w.past)) (sym (rest_of_all s₀ xs (first ∷ [])))
          ∙ ap reverse same
          ∙ reverse-written xs (first ∷ []))

  adaptive :
      IsShift s₀
      → Fits s₀ (first ∷ xs)
      → (numactive == 0) ≡ false
      → (numactive == 31) ≡ false
      → samples_of (decoded sent) ≡ some (first ∷ xs)
  unfolding unpc_block pc_block
  adaptive shift f e other =
      let w : Warm s₀ = encode_deltas s₀ numactive xs (first ∷ []) in
      let more : List ℕ = encode_general s₀ numactive denshift coefs w.rest w.past in
      let (go, same, fits) =
        deltas_encoded s₀ shift numactive xs (first ∷ []) more f.2 f.0
          (no_samples_left s₀ numactive denshift coefs w.rest w.past) in
      ap (λ l. samples_of (decoded l)) (if_false _ _ e ∙ if_false _ _ other)
      ∙ ap samples_of (if_false _ _ e ∙ if_false _ _ other)
      ∙ ap some (
          ap (λ (r : List ℕ × List ℕ). reverse (general s₀ numactive denshift coefs r.0 r.1).0) go
          ∙ ap reverse (general_encoded s₀ shift numactive denshift coefs w.rest w.past fits)
          ∙ ap reverse same
          ∙ reverse-written xs (first ∷ []))

-- Encoding a block of one or more samples that fit 16 or 17 bits, and unpacking it at that width,
-- gives the samples back, for every number of active coefficients, whatever the coefficients are
-- at the start, and while they adapt: the first-order pass (31), the copy (0) and the general
-- predictor.
pub unpc_block-pc_block :
    (chanbits denshift numactive first : ℕ) (xs coefs : List ℕ)
    → (chanbits ≡ 16) ⊎ (chanbits ≡ 17)
    → Fits (sub32 32 chanbits) (first ∷ xs)
    → samples_of (
        unpc_block
          (pc_block (sub32 32 chanbits) (first ∷ xs) coefs numactive denshift)
          coefs
          numactive
          chanbits
          denshift)
      ≡ some (first ∷ xs)
unpc_block-pc_block chanbits denshift numactive first xs coefs width f =
    let shift : IsShift (sub32 32 chanbits) = elim width [
      | inl e ↦ inl (omega arith)
      | inr e ↦ inr (omega arith)
    ] in
    elim (Bool-cases (numactive == 0)) [
      | inl none_active ↦ copied numactive chanbits denshift first xs coefs none_active
      | inr active ↦ elim (Bool-cases (numactive == 31)) [
        | inl delta ↦ differences numactive chanbits denshift first xs coefs shift f active delta
        | inr other ↦ adaptive numactive chanbits denshift first xs coefs shift f active other
      ]
    ]
