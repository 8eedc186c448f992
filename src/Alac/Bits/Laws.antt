-- ===== src/Alac/Bits/Laws.antt =====
-- What `read` returns, against the bits of the buffer.
use native.Mathlib.Nat.{pow-suc, pow-le-pow_right, mul_assoc}
use sonospoof.Base.{
  ℕ, zero, suc, ◌+◌, ◌-◌, ◌*◌, ◌/◌, ◌%◌, ◌^◌, ◌≤◌, ◌<◌, ◌≡◌, ap, ap₂, sym, ◌∙◌, List, arith, ◌==◌,
  Bool-cases, inl, inr, if_true, if_false, dec_lt, u32, ltb, ltb→lt, ltb→le,
}
use sonospoof.Alac.Bits.{BitBuffer, byte_at, three_bytes, read_short, read}
use sonospoof.Alac.Bits.Window.{window_step, window_bit, first_byte, second_byte, third_byte}

-- The bit at a position of the buffer, the most significant bit of a byte first.
abbrev pub bit : List ℕ → ℕ → ℕ
bit buf p = byte_at buf (p / 8) / 2 ^ (7 - p % 8) % 2

-- The `n` bits from position `p` on, as a number.
abbrev pub bits_from : List ℕ → ℕ → ℕ → ℕ
bits_from buf p zero = 0
bits_from buf p (suc n) = bits_from buf p n * 2 + bit buf (p + n)

-- The buffer is one of bytes.
abbrev pub IsBytes : List ℕ → Type 0
IsBytes buf = (i : ℕ) → byte_at buf i < 2 ^ 8

bit_at :
    (buf : List ℕ) (p n i u : ℕ)
    → (p + n) / 8 ≡ i
    → (p + n) % 8 ≡ u
    → byte_at buf i / 2 ^ (7 - u) % 2 ≡ bit buf (p + n)
bit_at buf p n i u e f = ap₂ (λ i u. byte_at buf i / 2 ^ (7 - u) % 2) (sym e) (sym f)

-- The next bit of the window of three bytes.
next_bit :
    (buf : List ℕ) (p n : ℕ)
    → IsBytes buf
    → n < 16
    → three_bytes buf (p / 8) * 2 ^ (p % 8) % 2 ^ 24 / 2 ^ (23 - n) % 2 ≡ bit buf (p + n)
next_bit buf p n h lt =
    let i : ℕ = p / 8 in
    let s : ℕ = p % 8 in
    let a : ℕ = byte_at buf i in
    let b : ℕ = byte_at buf (i + 1) in
    let c : ℕ = byte_at buf (i + 2) in
    let v : ℕ = three_bytes buf i in
    window_bit v s n (omega arith) ∙ elim (dec_lt (s + n) 8) [
      | yes one ↦
          first_byte a b c (s + n) (h (i + 1)) (h (i + 2)) one
          ∙ bit_at buf p n i (s + n) (omega arith) (omega arith)
      | no over ↦ elim (dec_lt (s + n) 16) [
        | yes two ↦
            ap (λ k. v / 2 ^ (23 - k) % 2) {x = s + n} {y = 8 + (s + n - 8)} (omega arith)
            ∙ second_byte a b c (s + n - 8) (h (i + 2)) (omega arith)
            ∙ bit_at buf p n (i + 1) (s + n - 8) (omega arith) (omega arith)
        | no three ↦
            ap (λ k. v / 2 ^ (23 - k) % 2) {x = s + n} {y = 16 + (s + n - 16)} (omega arith)
            ∙ third_byte a b c (s + n - 16) (omega arith)
            ∙ bit_at buf p n (i + 2) (s + n - 16) (omega arith) (omega arith)
      ]
    ]

window_bits :
    (buf : List ℕ) (p n : ℕ)
    → IsBytes buf
    → n ≤ 16
    → three_bytes buf (p / 8) * 2 ^ (p % 8) % 2 ^ 24 / 2 ^ (24 - n) ≡ bits_from buf p n
window_bits buf p zero h le = omega arith
window_bits buf p (suc n) h le =
    let w : ℕ = three_bytes buf (p / 8) * 2 ^ (p % 8) % 2 ^ 24 in
    ap (λ k. w / 2 ^ k) {x = 24 - suc n} {y = 23 - n} (omega arith)
    ∙ window_step w (23 - n)
    ∙ ap₂ (λ x y. x * 2 + y)
        (ap (λ k. w / 2 ^ k) {x = suc (23 - n)} {y = 24 - n} (omega arith)
          ∙ window_bits buf p n h (omega arith))
        (next_bit buf p n h (omega arith))

read_short_lem :
    (n : ℕ) (b : BitBuffer)
    → IsBytes b.buf
    → n ≤ 16
    → read_short n b ≡ (bits_from b.buf b.pos n, record b { pos = b.pos + n })
unfolding read_short
read_short_lem zero b h le =
    ap (λ k. (0, record b { pos = k })) {x = b.pos} {y = b.pos + 0} (omega arith)
read_short_lem (suc n) b h le =
    if_false {b = suc n == 0} _ _ (ground arith)
    ∙ ap (λ (v : ℕ). (v, record b { pos = b.pos + suc n })) (window_bits b.buf b.pos (suc n) h le)

bits_from-lt : (buf : List ℕ) (p n : ℕ) → bits_from buf p n < 2 ^ n
bits_from-lt buf p zero = omega arith
bits_from-lt buf p (suc n) = omega (arith, bits_from-lt buf p n, pow-suc 2 n)

bits_from-sum :
    (buf : List ℕ) (p m k : ℕ)
    → bits_from buf p (m + k) ≡ bits_from buf p m * 2 ^ k + bits_from buf (p + m) k
bits_from-sum buf p m zero = ap (bits_from buf p) {x = m + 0} {y = m} (omega arith) ∙ omega arith
bits_from-sum buf p m (suc k) =
    let here : bit buf (p + (m + k)) ≡ bit buf (p + m + k) =
      ap (bit buf) {x = p + (m + k)} {y = p + m + k} (omega arith) in
    let twice : bits_from buf p m * 2 ^ suc k ≡ bits_from buf p m * 2 ^ k * 2 =
      ap (◌*◌ (bits_from buf p m)) (pow-suc 2 k) ∙ sym (mul_assoc (bits_from buf p m) (2 ^ k) 2) in
    ap (bits_from buf p) {x = m + suc k} {y = suc (m + k)} (omega arith)
    ∙ omega (arith, bits_from-sum buf p m k, here, twice)

-- In a buffer of bytes, `read` of up to 32 bits returns the next bits of the buffer, the most
-- significant first, with zeros behind the end, and moves on by as many.
pub read_lem :
    (n : ℕ) (b : BitBuffer)
    → IsBytes b.buf
    → n ≤ 32
    → read n b ≡ (bits_from b.buf b.pos n, record b { pos = b.pos + n })
unfolding read
read_lem n b h le = elim (Bool-cases (ltb 16 n)) [
  | inr short ↦ if_false _ _ short ∙ read_short_lem n b h (ltb→le 16 n short)
  | inl long ↦
      let m : ℕ = n - 16 in
      let b₁ : BitBuffer = record b { pos = b.pos + m } in
      let hi : ℕ = bits_from b.buf b.pos m in
      let first = read_short_lem m b h (omega arith) in
      let second = read_short_lem 16 b₁ h (omega arith) in
      let whole : m + 16 ≡ n = omega (arith, ltb→lt 16 n long) in
      let small : hi < 2 ^ 16 = omega (
        arith,
        bits_from-lt b.buf b.pos m,
        pow-le-pow_right {n = 2} (omega arith) {i = m} {j = 16} (omega arith),
      ) in
      let position : b.pos + m + 16 ≡ b.pos + n = omega (arith, whole) in
      let value : u32 (hi * 2 ^ 16) + bits_from b.buf (b.pos + m) 16 ≡ bits_from b.buf b.pos n =
        omega (arith, small)
        ∙ sym (bits_from-sum b.buf b.pos m 16)
        ∙ ap (bits_from b.buf b.pos) whole in
      if_true _ _ long
      ∙ ap
          (λ (x : ℕ × BitBuffer).
            (u32 (x.0 * 2 ^ 16) + (read_short 16 x.1).0, (read_short 16 x.1).1))
          first
      ∙ ap (λ (y : ℕ × BitBuffer). (u32 (hi * 2 ^ 16) + y.0, y.1)) second
      ∙ ap₂ (λ (v k : ℕ). (v, record b { pos = k })) value position
]
