-- ===== src/Base/Words.antt =====
-- Go's fixed-width integers as bit patterns that wrap; a signed value is its two's complement.
use Prim.Native.Nat.{ℕ, ◌+◌, ◌-◌, ◌*◌, ◌/◌, ◌%◌, ◌^◌}
use mathlib.Core.Bool.{Bool, ◌&&◌}
use sonospoof.Base.Tests.{ltb, leb, if◌then◌else◌}

abbrev pub u8 : ℕ → ℕ
u8 n = n % 2 ^ 8

abbrev pub u16 : ℕ → ℕ
u16 n = n % 2 ^ 16

abbrev pub u32 : ℕ → ℕ
u32 n = n % 2 ^ 32

abbrev pub u64 : ℕ → ℕ
u64 n = n % 2 ^ 64

-- `a - b` on 16 and 32 bits. `-` on ℕ stops at 0, so the modulus is added first.
abbrev pub sub16 : ℕ → ℕ → ℕ
sub16 a b = (a + 2 ^ 16 - b) % 2 ^ 16

abbrev pub sub32 : ℕ → ℕ → ℕ
sub32 a b = (a + 2 ^ 32 - b) % 2 ^ 32

abbrev pub add32 : ℕ → ℕ → ℕ
add32 a b = (a + b) % 2 ^ 32

abbrev pub mul32 : ℕ → ℕ → ℕ
mul32 a b = a * b % 2 ^ 32

abbrev pub neg32 : ℕ → ℕ
neg32 a = sub32 0 a

abbrev pub not32 : ℕ → ℕ
not32 a = 2 ^ 32 - 1 - a

-- `a << k` and `a >> k` on uint32: a shift by the width or more gives 0.
unfoldable pub shl32 : ℕ → ℕ → ℕ
shl32 a k = if ltb k 32 then a * 2 ^ k % 2 ^ 32 else 0

unfoldable pub shr32 : ℕ → ℕ → ℕ
shr32 a k = if ltb k 32 then a / 2 ^ k else 0

-- `a >> k` on int32 copies the sign.
unfoldable pub sar32 : ℕ → ℕ → ℕ
unfolding shr32
sar32 a k = if ltb a (2 ^ 31) then shr32 a k else 2 ^ 32 - 1 - shr32 (2 ^ 32 - 1 - a) k

-- int32 of an int16, and the comparisons with 0.
abbrev pub int32_of_int16 : ℕ → ℕ
int32_of_int16 a = if ltb a (2 ^ 15) then a else a + (2 ^ 32 - 2 ^ 16)

abbrev pub is_positive : ℕ → Bool
is_positive a = ltb 0 a && ltb a (2 ^ 31)

abbrev pub is_negative : ℕ → Bool
is_negative a = leb (2 ^ 31) a
