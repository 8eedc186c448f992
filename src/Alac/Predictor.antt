-- ===== src/Alac/Predictor.antt =====
-- internal/alac/predictor.go: the adaptive predictor.
--
-- The samples written so far are a list, latest first: `out[j-1-k]` is its entry `k`. An entry of
-- `pc1` or `coefs` is a bit pattern, of an int32 or an int16.
pub mod Sizes
pub mod Inverse
use sonospoof.Base.{
  ℕ, zero, suc, ◌+◌, ◌-◌, ◌/◌, ◌^◌, Bool, ◌||◌, List, [], ◌∷◌, ◌==◌, if◌then◌else◌, length, get_or,
  set, u16, add32, sub32, mul32, neg32, shl32, sar32, int32_of_int16, is_positive, is_negative,
  bit_or, not, false, true,
}
use mathlib.Core.List.{reverse}
use sonospoof.Alac.Result.{Result, ok, panic}

-- `signOfInt`
pub sign_of_int : ℕ → ℕ
sign_of_int i = bit_or (neg32 i / 2 ^ 31) (sar32 i 31)

-- `(x << s) >> s` on int32.
unfoldable pub narrow : ℕ → ℕ → ℕ
narrow s x = sar32 (shl32 x s) s

-- The sum over the active coefficients from `k` on, `left` of them.
pub weighted : ℕ → ℕ → List ℕ → List ℕ → ℕ → ℕ → ℕ
weighted zero k coefs past top sum1 = sum1
weighted (suc left) k coefs past top sum1 =
    weighted left (k + 1) coefs past top
      (add32 sum1 (mul32 (int32_of_int16 (get_or coefs k 0)) (sub32 (get_or past k 0) top)))

module _ (numactive denshift : ℕ) (past : List ℕ) (top : ℕ) where
  -- The two loops of the adaption, from coefficient `k - 1` down: `up` is the case `sg < 0`.
  pub adapt : Bool → ℕ → ℕ → List ℕ → List ℕ
  adapt up zero del0 coefs = coefs
  adapt up (suc k) del0 coefs =
      let dd = sub32 top (get_or past k 0) in
      let sgn = sign_of_int dd in
      let coef = get_or coefs k 0 in
      let coefs' = set coefs k (u16 (if up then coef + sgn else coef + 2 ^ 32 - sgn)) in
      let step = sar32 (mul32 (if up then neg32 sgn else sgn) dd) denshift in
      let del0' = sub32 del0 (mul32 (numactive - k) step) in
      let further = adapt up k del0' coefs' in
      if (if up then not (is_negative del0') else not (is_positive del0')) then coefs' else further

-- What the general loop adds to a residual: the oldest sample in use and the prediction.
pub predicted : ℕ → ℕ → List ℕ → List ℕ → ℕ
predicted numactive denshift coefs past =
    let top = get_or past numactive 0 in
    let denhalf = shl32 1 (sub32 denshift 1) in
    add32 top (sar32 (add32 (weighted numactive 0 coefs past top 0) denhalf) denshift)

-- The switch on the sign of the residual.
pub adapted : ℕ → ℕ → ℕ → List ℕ → List ℕ → List ℕ
adapted numactive denshift del coefs past =
    let top = get_or past numactive 0 in
    let sg = sign_of_int del in
    if is_positive sg
    then adapt numactive denshift past top false numactive del coefs
    else if is_negative sg
    then adapt numactive denshift past top true numactive del coefs
    else coefs

module _ (chanshift : ℕ) where
  -- The loops that add the sample before: the first-order pass, and the warm-up of `left` samples.
  pub deltas : ℕ → List ℕ → List ℕ → List ℕ × List ℕ
  deltas zero pc1 past = (pc1, past)
  deltas (suc left) [] past = ([], past)
  deltas (suc left) (d ∷ pc1) past =
      deltas left pc1 (narrow chanshift (add32 d (get_or past 0 0)) ∷ past)

  pub general : ℕ → ℕ → List ℕ → List ℕ → List ℕ → List ℕ × List ℕ
  general numactive denshift coefs [] past = (past, coefs)
  general numactive denshift coefs (d ∷ pc1) past =
      general numactive denshift (adapted numactive denshift d coefs past) pc1
        (narrow chanshift (add32 d (predicted numactive denshift coefs past)) ∷ past)

-- `unpcBlock` over `pc1[:num]`: the samples and the adapted coefficients. A block of no samples
-- writes `out[0]`, which is read by nobody; the copy of `out[1:0]` that follows it panics.
unfoldable pub unpc_block : List ℕ → List ℕ → ℕ → ℕ → ℕ → Result (List ℕ × List ℕ)
unpc_block [] coefs numactive chanbits denshift = if numactive == 0 then panic else ok ([], coefs)
unpc_block (first ∷ pc1) coefs numactive chanbits denshift =
    let chanshift = sub32 32 chanbits in
    let (rest, begin) = deltas chanshift numactive pc1 (first ∷ []) in
    let (past, coefs') = general chanshift numactive denshift coefs rest begin in
    if numactive == 0
    then ok (first ∷ pc1, coefs)
    else if numactive == 31
    then ok (reverse (deltas chanshift (length pc1) pc1 (first ∷ [])).1, coefs)
    else ok (reverse past, coefs')
