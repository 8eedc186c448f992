-- ===== src/Base/Decimal.antt =====
-- Go's decimal numbers: `strconv.Itoa`, `ParseUint` and `Atoi`.
use Prim.Native.Nat.{ℕ, zero, suc, ◌+◌, ◌-◌, ◌*◌, ◌/◌, ◌%◌, ◌^◌, ◌≤◌, ◌<◌}
use mathlib.Core.Path.{◌≡◌, refl, ap, ◌∙◌}
use mathlib.Core.Logic.{◌≢◌, inl, inr}
use mathlib.Core.Bool.{Bool, true, false, ◌&&◌}
use mathlib.Core.Option.{Option, none, some}
use mathlib.Core.List.{[], ◌∷◌}
use native.Mathlib.Omega.{arith}
use sonospoof.Base.Tests.{leb, ltb, ◌==◌, if◌then◌else◌, Bool-cases}
use sonospoof.Base.Strings.{Text, is_space}
use sonospoof.Base.Members.{All, All-weaken}

-- The digits of a number before those of `out`, on fuel: each takes one.
abbrev pub digits : ℕ → ℕ → Text → Text
digits zero n out = out
digits (suc fuel) n out =
    let longer = digits fuel (n / 10) ((b'0' + n % 10) ∷ out) in
    if ltb n 10 then (b'0' + n) ∷ out else longer

-- `strconv.Itoa` of a number that is not negative: it has at most `n + 1` digits.
unfoldable pub itoa : ℕ → Text
itoa n = digits (suc n) n []

-- The number that the digits spell behind `n`.
abbrev pub scan_digits : Text → ℕ → Option ℕ
scan_digits [] n = some n
scan_digits (c ∷ s) n =
    if leb b'0' c && leb c b'9' then scan_digits s (n * 10 + (c - b'0')) else none

abbrev pub number : Text → Option ℕ
number [] = none
number (c ∷ s) = scan_digits (c ∷ s) 0

-- `strconv.ParseUint(s, 10, 32)`: out of range is an error too.
abbrev pub in_32_bits : Option ℕ → Option ℕ
in_32_bits none = none
in_32_bits (some n) = if ltb n (2 ^ 32) then some n else none

unfoldable pub parse_uint32 : Text → Option ℕ
parse_uint32 s = in_32_bits (number s)

-- `strconv.Atoi` as a pattern of 64 bits, and whether it gives an error. A number that is out of
-- range is the nearest one in range, and any other error is 0.
abbrev pub saturate : Bool → Option ℕ → ℕ × Bool
saturate negative none = (0, true)
saturate true (some n) = if ltb (2 ^ 63) n then (2 ^ 63, true) else ((2 ^ 64 - n) % 2 ^ 64, false)
saturate false (some n) = if ltb n (2 ^ 63) then (n, false) else (2 ^ 63 - 1, true)

unfoldable pub atoi : Text → ℕ × Bool
atoi [] = (0, true)
atoi (c ∷ s) =
    if c == b'-'
    then saturate true (number s)
    else if c == b'+'
    then saturate false (number s)
    else saturate false (number (c ∷ s))

IsDigit : ℕ → Type 0
IsDigit c = (b'0' ≤ c) × (c ≤ b'9')

scan_digits-digits :
    (fuel n : ℕ) (out : Text) → n < fuel → scan_digits (digits fuel n out) 0 ≡ scan_digits out n
scan_digits-digits zero n out h = absurd (omega arith)
scan_digits-digits (suc fuel) n out h =
    ground (arith, scan_digits-digits fuel (n / 10) ((b'0' + n % 10) ∷ out))

digits-IsDigit : (fuel n : ℕ) (out : Text) → All IsDigit out → All IsDigit (digits fuel n out)
unfolding IsDigit
digits-IsDigit zero n out p = p
digits-IsDigit (suc fuel) n out p = elim (Bool-cases (ltb n 10)) [
  | inl e ↦ rw e (ground arith, p)
  | inr e ↦ rw e (digits-IsDigit fuel (n / 10) ((b'0' + n % 10) ∷ out) (ground arith, p))
]

digits_after : (fuel n : ℕ) (out : Text) → out ≢ [] → digits fuel n out ≢ []
digits_after zero n out h = h
digits_after (suc fuel) n out h = elim (Bool-cases (ltb n 10)) [
  | inl e ↦ rw e (cc)
  | inr e ↦ rw e (digits_after fuel (n / 10) ((b'0' + n % 10) ∷ out) (cc))
]

digits_some : (fuel n : ℕ) → digits (suc fuel) n [] ≢ []
digits_some fuel n = elim (Bool-cases (ltb n 10)) [
  | inl e ↦ rw e (cc)
  | inr e ↦ rw e (digits_after fuel (n / 10) ((b'0' + n % 10) ∷ []) (cc))
]

pub itoa_some : (n : ℕ) → itoa n ≢ []
unfolding itoa
itoa_some n = digits_some n n

number_scan : (s : Text) → s ≢ [] → number s ≡ scan_digits s 0
number_scan [] h = absurd (h refl)
number_scan (c ∷ s) h = refl

pub number-itoa : (n : ℕ) → number (itoa n) ≡ some n
number-itoa n =
    number_scan (itoa n) (itoa_some n)
    ∙ (unfold itoa in scan_digits-digits (suc n) n [] (omega arith))

pub parse_uint32-itoa : (n : ℕ) → n < 2 ^ 32 → parse_uint32 (itoa n) ≡ some n
unfolding parse_uint32
parse_uint32-itoa n h = ap in_32_bits (number-itoa n) ∙ (ground arith)

pub parse_uint32_bound : (s : Text) (n : ℕ) → parse_uint32 s ≡ some n → n < 2 ^ 32
unfolding parse_uint32
parse_uint32_bound s n h = in_range (number s) h
  where
    in_range : (o : Option ℕ) → in_32_bits o ≡ some n → n < 2 ^ 32
    in_range none h = cc
    in_range (some m) h = ground arith

-- No digit is a space, so a number is one field.
pub itoa-IsWord : (n : ℕ) → All (λ c. is_space c ≡ false) (itoa n)
unfolding itoa IsDigit
itoa-IsWord n =
    All-weaken {P = IsDigit} {Q = λ c. is_space c ≡ false} (λ c p. ground arith)
      (digits (suc n) n []) (digits-IsDigit (suc n) n [] tt)

atoi_digits : (s : Text) → All IsDigit s → s ≢ [] → atoi s ≡ saturate false (number s)
unfolding atoi IsDigit
atoi_digits [] p h = absurd (h refl)
atoi_digits (c ∷ s) (p, ps) h =
    let minus : (c == b'-') ≡ false = ground arith in
    let plus : (c == b'+') ≡ false = ground arith in rw (minus, plus) refl

pub atoi-itoa : (n : ℕ) → n < 2 ^ 63 → atoi (itoa n) ≡ (n, false)
atoi-itoa n h =
    atoi_digits (itoa n) (unfold itoa in digits-IsDigit (suc n) n [] tt) (itoa_some n)
    ∙ ap (saturate false) (number-itoa n)
    ∙ (ground arith)
