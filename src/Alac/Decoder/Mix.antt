-- ===== src/Alac/Decoder/Mix.antt =====
-- `unmix16` against the mixing of the ALAC encoder, and where it writes.
use sonospoof.Base.{
  ℕ, ◌+◌, ◌^◌, ◌≤◌, ◌<◌, ◌≡◌, refl, ap, ap₂, sym, ◌∙◌, List, [], ◌∷◌, ◌++◌, arith, length, set,
  drop, ltb, ◌==◌, Bool-cases, inl, inr, if_true, u16, add32, sub32, mul32, sar32, shr32,
  int32_of_int16, if◌then◌else◌, append_assoc, length-append, lt→ltb,
}
use native.Mathlib.Nat.{div-le_self}
use sonospoof.Alac.Result.{Result, ok, ◌>>=◌}
use sonospoof.Alac.Decoder.{unmix, put, unmix16}

-- The mixing of an encoder: the difference, and the right channel with a part of it. With a zero
-- `mix_res` the channels are left as they are.
abbrev pub mix : ℕ → ℕ → ℕ → ℕ → ℕ × ℕ
mix mix_bits mix_res l r =
    let v = sub32 l r in
    if mix_res == 0 then (l, r) else (add32 r (sar32 (mul32 mix_res v) mix_bits), v)

shr32-lt : (a k : ℕ) → a < 2 ^ 32 → shr32 a k < 2 ^ 32
unfolding shr32
shr32-lt a k h = ground (arith, div-le_self a (2 ^ k))

sar32-lt : (a k : ℕ) → a < 2 ^ 32 → sar32 a k < 2 ^ 32
unfolding sar32
sar32-lt a k h = ground (arith, shr32-lt a k h)

-- An int16 and back.
widened : (a : ℕ) → a < 2 ^ 16 → (int32_of_int16 a < 2 ^ 32) × (u16 (int32_of_int16 a) ≡ a)
widened a h = ground arith

-- What was added to the right channel cancels.
undo :
    (l r part : ℕ)
    → l < 2 ^ 32
    → r < 2 ^ 32
    → part < 2 ^ 32
    → let v = sub32 l r in
      let l' = sub32 (add32 (add32 r part) v) part in (l' ≡ l) × (sub32 l' v ≡ r)
undo l r part hl hr hp =
    let e : sub32 (add32 (add32 r part) (sub32 l r)) part ≡ l = omega arith in
    (e, ap (λ k. sub32 k (sub32 l r)) e ∙ omega arith)

unmix-mix :
    (mix_bits mix_res l r : ℕ)
    → l < 2 ^ 16
    → r < 2 ^ 16
    → let (u, v) = mix mix_bits mix_res (int32_of_int16 l) (int32_of_int16 r) in
      unmix mix_bits mix_res u v ≡ (l, r)
unfolding unmix
unmix-mix mix_bits mix_res l r hl hr =
    let v : ℕ = sub32 (int32_of_int16 l) (int32_of_int16 r) in
    let part : ℕ = sar32 (mul32 mix_res v) mix_bits in
    let bound = sar32-lt (mul32 mix_res v) mix_bits (omega arith) in
    let (small_l, back_l) = widened l hl in
    let (small_r, back_r) = widened r hr in
    elim (Bool-cases (mix_res == 0)) [
      | inl plain ↦ rw plain (ap₂ (λ (a b : ℕ). (a, b)) back_l back_r)
      | inr mixed ↦
          let (first, second) =
            undo (int32_of_int16 l) (int32_of_int16 r) part small_l small_r bound in
          rw mixed (
            ap₂ (λ (a b : ℕ). (u16 a, u16 b)) first second
            ∙ ap₂ (λ (a b : ℕ). (a, b)) back_l back_r)
    ]

-- The samples of a frame, left and right in turn.
abbrev pub interleave : List ℕ → List ℕ → List ℕ
interleave [] rs = []
interleave (l ∷ ls) [] = []
interleave (l ∷ ls) (r ∷ rs) = l ∷ r ∷ interleave ls rs

abbrev pub us_of : ℕ → ℕ → List ℕ → List ℕ → List ℕ
us_of mix_bits mix_res [] rs = []
us_of mix_bits mix_res (l ∷ ls) [] = []
us_of mix_bits mix_res (l ∷ ls) (r ∷ rs) =
    (mix mix_bits mix_res (int32_of_int16 l) (int32_of_int16 r)).0 ∷ us_of mix_bits mix_res ls rs

abbrev pub vs_of : ℕ → ℕ → List ℕ → List ℕ → List ℕ
vs_of mix_bits mix_res [] rs = []
vs_of mix_bits mix_res (l ∷ ls) [] = []
vs_of mix_bits mix_res (l ∷ ls) (r ∷ rs) =
    (mix mix_bits mix_res (int32_of_int16 l) (int32_of_int16 r)).1 ∷ vs_of mix_bits mix_res ls rs

-- Samples of 16 bits.
abbrev pub AllShort : List ℕ → Type 0
AllShort [] = Unit {0}
AllShort (s ∷ ss) = (s < 2 ^ 16) × AllShort ss

put_at :
    (pre : List ℕ) (o v : ℕ) (rest : List ℕ)
    → put (pre ++ o ∷ rest) (length pre) v ≡ ok (pre ++ v ∷ rest)
unfolding put
put_at pre o v rest =
    if_true {b = ltb (length pre) (length (pre ++ o ∷ rest))} _ _
      (lt→ltb (length pre) (length (pre ++ o ∷ rest)) (omega (arith, length-append pre (o ∷ rest))))
    ∙ ap ok (set_at pre o v rest)
  where
    set_at :
        (pre : List ℕ) (o v : ℕ) (rest : List ℕ)
        → set (pre ++ o ∷ rest) (length pre) v ≡ pre ++ v ∷ rest
    set_at [] o v rest = refl
    set_at (x ∷ pre) o v rest = ap (◌∷◌ x) (set_at pre o v rest)

>>=-ok :
    {A B : Type 0} {m : Result A} {a : A} (f : A → Result B) {y : Result B}
    → m ≡ ok a
    → f a ≡ y
    → (m >>= f) ≡ y
>>=-ok f e g = ap (λ m. m >>= f) e ∙ g

unmix16_step :
    (mix_bits mix_res u v l r o₁ o₂ : ℕ) (us vs pre rest : List ℕ)
    → unmix mix_bits mix_res u v ≡ (l, r)
    → unmix16 mix_bits mix_res 2 (length pre) (u ∷ us) (v ∷ vs) (pre ++ o₁ ∷ o₂ ∷ rest)
      ≡ unmix16 mix_bits mix_res 2 (length (pre ++ l ∷ r ∷ [])) us vs ((pre ++ l ∷ r ∷ []) ++ rest)
unfolding unmix16
unmix16_step mix_bits mix_res u v l r o₁ o₂ us vs pre rest e =
    let at₂ : length (pre ++ l ∷ []) ≡ length pre + 1 = omega (arith, length-append pre (l ∷ [])) in
    let at₃ : length pre + 2 ≡ length (pre ++ l ∷ r ∷ []) =
      omega (arith, length-append pre (l ∷ r ∷ [])) in
    let out₂ : List ℕ = pre ++ l ∷ o₂ ∷ rest in
    let first : put (pre ++ o₁ ∷ o₂ ∷ rest) (length pre) (unmix mix_bits mix_res u v).0 ≡ ok out₂ =
      put_at pre o₁ _ (o₂ ∷ rest) ∙ ap (λ (x : ℕ × ℕ). ok (pre ++ x.0 ∷ o₂ ∷ rest)) e in
    let second : put out₂ (length pre + 1) (unmix mix_bits mix_res u v).1
        ≡ ok ((pre ++ l ∷ r ∷ []) ++ rest) =
      ap₂ (λ o i. put o i (unmix mix_bits mix_res u v).1)
        (sym (append_assoc pre (l ∷ []) (o₂ ∷ rest))) (sym at₂)
      ∙ put_at (pre ++ l ∷ []) o₂ _ rest
      ∙ ap (λ (x : ℕ × ℕ). ok ((pre ++ l ∷ []) ++ x.1 ∷ rest)) e
      ∙ ap ok (append_assoc pre (l ∷ []) (r ∷ rest) ∙ sym (append_assoc pre (l ∷ r ∷ []) rest)) in
    >>=-ok _ first (
      >>=-ok _ second
        (ap (λ k. unmix16 mix_bits mix_res 2 k us vs ((pre ++ l ∷ r ∷ []) ++ rest)) at₃))

unmix16-us_of :
    (mix_bits mix_res : ℕ) (ls rs pre out : List ℕ)
    → AllShort ls
    → AllShort rs
    → length (interleave ls rs) ≤ length out
    → unmix16 mix_bits mix_res 2
        (length pre)
        (us_of mix_bits mix_res ls rs)
        (vs_of mix_bits mix_res ls rs)
        (pre ++ out)
      ≡ ok (pre ++ (interleave ls rs ++ drop (length (interleave ls rs)) out))
unmix16-us_of mix_bits mix_res [] rs pre out hl hr h = unfold unmix16 in refl
unmix16-us_of mix_bits mix_res (l ∷ ls) [] pre out hl hr h = unfold unmix16 in refl
unmix16-us_of mix_bits mix_res (l ∷ ls) (r ∷ rs) pre [] hl hr h = absurd (omega arith)
unmix16-us_of mix_bits mix_res (l ∷ ls) (r ∷ rs) pre (o₁ ∷ []) hl hr h = absurd (omega arith)
unmix16-us_of mix_bits mix_res (l ∷ ls) (r ∷ rs) pre (o₁ ∷ o₂ ∷ out) hl hr h =
    unmix16_step mix_bits mix_res _ _ l r o₁ o₂ (us_of mix_bits mix_res ls rs)
      (vs_of mix_bits mix_res ls rs) pre out (unmix-mix mix_bits mix_res l r hl.0 hr.0)
    ∙ unmix16-us_of mix_bits mix_res ls rs (pre ++ l ∷ r ∷ []) out hl.1 hr.1 (omega arith)
    ∙ ap ok
        (append_assoc pre (l ∷ r ∷ []) (interleave ls rs ++ drop (length (interleave ls rs)) out))

-- Pairs of 16-bit samples that an encoder mixed come out as they were, left and right in turn from
-- the start of `out`, where they fit in it, whatever the two mixing parameters are, and the rest
-- of `out` is left.
pub unmix16-mix :
    (mix_bits mix_res : ℕ) (ls rs out : List ℕ)
    → AllShort ls
    → AllShort rs
    → length (interleave ls rs) ≤ length out
    → unmix16 mix_bits mix_res 2 0 (us_of mix_bits mix_res ls rs) (vs_of mix_bits mix_res ls rs) out
      ≡ ok (interleave ls rs ++ drop (length (interleave ls rs)) out)
unmix16-mix mix_bits mix_res ls rs out hl hr h = unmix16-us_of mix_bits mix_res ls rs [] out hl hr h
