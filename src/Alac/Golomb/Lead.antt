-- ===== src/Alac/Golomb/Lead.antt =====
-- `lead` counts the leading zero bits of a uint32.
use native.Mathlib.Nat.{pow-suc, zero-div, div-eq_of_lt, div-eq_of_lt-le}
use sonospoof.Base.{
  ℕ, zero, suc, ◌+◌, ◌-◌, ◌*◌, ◌/◌, ◌%◌, ◌^◌, ◌≤◌, ◌<◌, ◌≡◌, refl, ap, sym, ◌∙◌, arith, ◌==◌, true,
  false, subst, dec_lt, if_true, if_false, sub32, add32,
}
use sonospoof.Alac.Golomb.{lead, lead_loop, lg3a}

-- `r` zeros stand in front of the highest set bit of a number of `width` bits.
pub record IsLead (width m r : ℕ) : Type 0 where
  pub inside : r < width
  pub above : m < 2 ^ (width - r)
  pub at : 2 ^ (width - 1 - r) ≤ m

lead_loop-zero : (left j c : ℕ) → lead_loop left j c 0 ≡ 32
unfolding lead_loop
lead_loop-zero zero j c = refl
lead_loop-zero (suc left) j c =
    let test : (0 / c % 2 == 1) ≡ false = rw zero-div refl in
    if_false _ _ test ∙ lead_loop-zero left (j + 1) (c / 2)

-- The bit on top of `t` is set in the numbers from `t` on.
top_set : (m t : ℕ) → t ≤ m → m < 2 * t → (m / t % 2 == 1) ≡ true
top_set m t le lt =
    let e : m / t ≡ 1 = div-eq_of_lt-le {k = 1} t (omega arith) (omega arith) in rw e refl

top_clear : (m t : ℕ) → m < t → (m / t % 2 == 1) ≡ false
top_clear m t lt = let e : m / t ≡ 0 = div-eq_of_lt lt in rw e refl

-- With the test bit on top of `left` bits, the loop finds the highest set bit below it.
lead_loop-IsLead :
    (left j m : ℕ)
    → 0 < m
    → m < 2 ^ left
    → (i : ℕ) × (lead_loop left j (2 ^ left / 2) m ≡ j + i) × IsLead left m i
unfolding lead_loop
lead_loop-IsLead zero j m pos h = absurd (omega arith)
lead_loop-IsLead (suc left) j m pos h =
    let half : 2 ^ suc left / 2 ≡ 2 ^ left = omega (arith, pow-suc 2 left) in
    elim (dec_lt m (2 ^ left)) [
      | no big ↦ (
        0,
        if_true _ _ (
              ap (λ c. m / c % 2 == 1) half
              ∙ top_set m (2 ^ left) (omega arith) (omega (arith, pow-suc 2 left)))
            ∙ omega arith,
        record {
          inside = omega arith;
          above = subst (λ k. m < 2 ^ k) {x = suc left} {y = suc left - 0} (omega arith) h;
          at = subst (λ k. 2 ^ k ≤ m) {x = left} {y = suc left - 1 - 0} (omega arith) (omega arith);
        },
      )
      | yes small ↦
          let (i, e, l) = lead_loop-IsLead left (j + 1) m pos small in
          (
            suc i,
            if_false _ _ (ap (λ c. m / c % 2 == 1) half ∙ top_clear m (2 ^ left) small)
                ∙ ap (λ c. lead_loop left (j + 1) (c / 2) m) half
                ∙ e
                ∙ omega arith,
            record {
              inside = omega (arith, l.inside);
              above =
                  subst (λ k. m < 2 ^ k) {x = left - i} {y = suc left - suc i} (omega arith)
                    l.above;
              at =
                  subst (λ k. 2 ^ k ≤ m) {x = left - 1 - i} {y = suc left - 1 - suc i} (omega arith)
                    l.at;
            },
          )
    ]

-- `lead` of a uint32 that is not zero is the number of its leading zeros: the highest set bit is
-- right below them.
pub lead-IsLead : (m : ℕ) → 0 < m → m < 2 ^ 32 → IsLead 32 m (lead m)
unfolding lead
lead-IsLead m pos h =
    let (i, e, l) = lead_loop-IsLead 32 0 m pos h in subst (IsLead 32 m) (sym (e ∙ omega arith)) l

pub lead-zero : lead 0 ≡ 32
unfolding lead
lead-zero = lead_loop-zero 32 0 (2 ^ 31)

-- Below the overflow of `x + 3`, `lg3a` is the logarithm of `x + 3`, rounded down.
pub lg3a_lem : (x : ℕ) → x < 2 ^ 32 - 3 → (2 ^ lg3a x ≤ x + 3) × (x + 3 < 2 ^ (lg3a x + 1))
unfolding lg3a
lg3a_lem x h =
    let e : add32 x 3 ≡ x + 3 = omega arith in
    let l = lead-IsLead (x + 3) (omega arith) (omega arith) in
    rw e (
      subst (λ k. 2 ^ k ≤ x + 3) {x = 32 - 1 - lead (x + 3)} {y = sub32 31 (lead (x + 3))}
          (omega (arith, l.inside)) l.at,
      subst (λ k. x + 3 < 2 ^ k) {x = 32 - lead (x + 3)} {y = sub32 31 (lead (x + 3)) + 1}
          (omega (arith, l.inside)) l.above,
    )
