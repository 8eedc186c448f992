-- ===== src/Alac/Bits/Window.antt =====
-- Division by powers of two, and the bits of a window of three bytes.
use native.Mathlib.Nat.{
  pow-suc, div-add-mod', add-mul-mod_self_right, add-mul-div_left, mul-div-mul_right,
  div-div-eq-div-mul, mod-lt, mod-add-div', mul-lt-mul_of_pos_right, mul_assoc, mul_comm,
  mul_left_comm, mod-eq_of_lt, mul-add-mod_self_right, div-lt_iff_lt-mul,
}
use sonospoof.Base.{
  ℕ, zero, suc, ◌+◌, ◌-◌, ◌*◌, ◌/◌, ◌%◌, ◌^◌, ◌<◌, ◌≡◌, ap, sym, ◌∙◌, arith, subst,
}

pow_pos : (k : ℕ) → 0 < 2 ^ k
pow_pos zero = omega arith
pow_pos (suc k) = omega (arith, pow-suc 2 k, pow_pos k)

pub pow_sum : (a b : ℕ) → 2 ^ (a + b) ≡ 2 ^ a * 2 ^ b
pow_sum a zero = ap (λ k. 2 ^ k) {x = a + 0} {y = a} (omega arith) ∙ omega arith
pow_sum a (suc b) =
    ap (λ k. 2 ^ k) {x = a + suc b} {y = suc (a + b)} (omega arith)
    ∙ pow-suc 2 (a + b)
    ∙ ap (λ k. k * 2) (pow_sum a b)
    ∙ mul_assoc (2 ^ a) (2 ^ b) 2
    ∙ ap (◌*◌ (2 ^ a)) (sym (pow-suc 2 b))

-- A remainder by a multiple, divided by one of its factors.
mod-mul-div : (x m e : ℕ) → 0 < m → 0 < e → x % (m * e) / m ≡ x / m % e
mod-mul-div x m e hm he =
    let q : ℕ = x / (m * e) in
    let r : ℕ = x % (m * e) in
    let split : r + m * (q * e) ≡ x =
      ap (λ k. r + k) (sym (mul_assoc m q e) ∙ ap (λ k. k * e) (mul_comm m q) ∙ mul_assoc q m e)
      ∙ mod-add-div' x (m * e) in
    let whole : x / m ≡ r / m + q * e =
      ap (λ k. k / m) (sym split) ∙ add-mul-div_left r (q * e) hm in
    let pos : 0 < m * e = omega (arith, mul-lt-mul_of_pos_right {m = 0} {n = m} {k = e} hm he) in
    let small : r / m < e =
      (div-lt_iff_lt-mul hm).1 (subst (λ k. r < k) (mul_comm m e) (mod-lt x pos)) in
    sym (ap (λ k. k % e) whole ∙ add-mul-mod_self_right (r / m) q e ∙ mod-eq_of_lt small)

-- The lowest bit does not see what is above it.
mod-even : (y e : ℕ) → y % (e * 2) % 2 ≡ y % 2
mod-even y e = sym (
    ap (λ k. k % 2) (sym (div-add-mod' y (e * 2)))
    ∙ ap (λ k. (k + y % (e * 2)) % 2) (sym (mul_assoc (y / (e * 2)) e 2))
    ∙ mul-add-mod_self_right (y / (e * 2) * e) 2 (y % (e * 2)))

-- One more bit of a number.
pub window_step : (w k : ℕ) → w / 2 ^ k ≡ w / 2 ^ suc k * 2 + w / 2 ^ k % 2
window_step w k =
    let half : w / 2 ^ suc k ≡ w / 2 ^ k / 2 =
      ap (λ d. w / d) (pow-suc 2 k) ∙ sym (div-div-eq-div-mul w (2 ^ k) 2) in
    omega (arith, half)

-- A bit of the window that `read` makes is the bit of the three bytes, `s` places further.
pub window_bit :
    (v s n : ℕ) → s + n < 24 → v * 2 ^ s % 2 ^ 24 / 2 ^ (23 - n) % 2 ≡ v / 2 ^ (23 - (s + n)) % 2
window_bit v s n h =
    let d : ℕ = 2 ^ (23 - (s + n)) in
    let top : 2 ^ (23 - n) ≡ d * 2 ^ s =
      ap (λ k. 2 ^ k) {x = 23 - n} {y = 23 - (s + n) + s} (omega arith)
      ∙ pow_sum (23 - (s + n)) s in
    let all : 2 ^ 24 ≡ 2 ^ (23 - n) * (2 ^ n * 2) =
      ap (λ k. 2 ^ k) {x = 24} {y = 23 - n + suc n} (omega arith)
      ∙ pow_sum (23 - n) (suc n)
      ∙ ap (◌*◌ (2 ^ (23 - n))) (pow-suc 2 n) in
    ap (λ k. v * 2 ^ s % k / 2 ^ (23 - n) % 2) all
    ∙ ap (λ k. k % 2)
        (mod-mul-div (v * 2 ^ s) (2 ^ (23 - n)) (2 ^ n * 2) (pow_pos (23 - n))
          (omega (arith, pow_pos n)))
    ∙ mod-even (v * 2 ^ s / 2 ^ (23 - n)) (2 ^ n)
    ∙ ap (λ k. v * 2 ^ s / k % 2) top
    ∙ ap (λ k. k % 2) (mul-div-mul_right v d (pow_pos s))

-- The bits below a factor do not see what is above it.
mul-add-div : (a b k d : ℕ) → 0 < d → (a * (d * (k * 2)) + b) / d % 2 ≡ b / d % 2
mul-add-div a b k d h =
    let swap : a * (d * (k * 2)) + b ≡ b + d * (a * k * 2) =
      ap (λ x. x + b) (mul_left_comm a d (k * 2) ∙ ap (◌*◌ d) (sym (mul_assoc a k 2)))
      ∙ omega arith in
    ap (λ x. x / d % 2) swap
    ∙ ap (λ x. x % 2) (add-mul-div_left b (a * k * 2) h)
    ∙ add-mul-mod_self_right (b / d) (a * k) 2

-- A byte's width around one of its bits.
byte_split : (u : ℕ) → u < 8 → 2 ^ 8 ≡ 2 ^ (7 - u) * (2 ^ u * 2)
byte_split u h =
    ap (λ k. 2 ^ k) {x = 8} {y = 7 - u + suc u} (omega arith)
    ∙ pow_sum (7 - u) (suc u)
    ∙ ap (◌*◌ (2 ^ (7 - u))) (pow-suc 2 u)

low_byte : (a b u : ℕ) → u < 8 → (a * 2 ^ 8 + b) / 2 ^ (7 - u) % 2 ≡ b / 2 ^ (7 - u) % 2
low_byte a b u h =
    ap (λ k. (a * k + b) / 2 ^ (7 - u) % 2) (byte_split u h)
    ∙ mul-add-div a b (2 ^ u) (2 ^ (7 - u)) (pow_pos (7 - u))

-- A bit above the lowest `m` bits, after they are cut off.
cut_off : (v m k : ℕ) → v / 2 ^ (m + k) ≡ v / 2 ^ m / 2 ^ k
cut_off v m k = ap (λ d. v / d) (pow_sum m k) ∙ sym (div-div-eq-div-mul v (2 ^ m) (2 ^ k))

-- The bit `u` places into one of three bytes.
pub first_byte :
    (a b c u : ℕ)
    → b < 2 ^ 8
    → c < 2 ^ 8
    → u < 8
    → (a * 2 ^ 16 + b * 2 ^ 8 + c) / 2 ^ (23 - u) % 2 ≡ a / 2 ^ (7 - u) % 2
first_byte a b c u hb hc h =
    let v : ℕ = a * 2 ^ 16 + b * 2 ^ 8 + c in
    ap (λ k. v / 2 ^ k % 2) {x = 23 - u} {y = 16 + (7 - u)} (omega arith)
    ∙ ap (λ k. k % 2) (cut_off v 16 (7 - u))
    ∙ ap (λ k. k / 2 ^ (7 - u) % 2) {x = v / 2 ^ 16} {y = a} (omega arith)

pub second_byte :
    (a b c u : ℕ)
    → c < 2 ^ 8
    → u < 8
    → (a * 2 ^ 16 + b * 2 ^ 8 + c) / 2 ^ (23 - (8 + u)) % 2 ≡ b / 2 ^ (7 - u) % 2
second_byte a b c u hc h =
    let v : ℕ = a * 2 ^ 16 + b * 2 ^ 8 + c in
    ap (λ k. v / 2 ^ k % 2) {x = 23 - (8 + u)} {y = 8 + (7 - u)} (omega arith)
    ∙ ap (λ k. k % 2) (cut_off v 8 (7 - u))
    ∙ ap (λ k. k / 2 ^ (7 - u) % 2) {x = v / 2 ^ 8} {y = a * 2 ^ 8 + b} (omega arith)
    ∙ low_byte a b u h

pub third_byte :
    (a b c u : ℕ)
    → u < 8
    → (a * 2 ^ 16 + b * 2 ^ 8 + c) / 2 ^ (23 - (16 + u)) % 2 ≡ c / 2 ^ (7 - u) % 2
third_byte a b c u h =
    ap (λ k. (a * 2 ^ 16 + b * 2 ^ 8 + c) / 2 ^ k % 2) {x = 23 - (16 + u)} {y = 7 - u} (omega arith)
    ∙ ap (λ k. k / 2 ^ (7 - u) % 2) {x = a * 2 ^ 16 + b * 2 ^ 8 + c}
        {y = (a * 2 ^ 8 + b) * 2 ^ 8 + c} (omega arith)
    ∙ low_byte (a * 2 ^ 8 + b) c u h
