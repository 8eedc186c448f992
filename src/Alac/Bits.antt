-- ===== src/Alac/Bits.antt =====
-- internal/alac/bits.go: the big-endian bit reader.
--
-- A byte is a number below 256, so that `|` of shifted bytes is their sum.
mod Window
pub mod Laws
use sonospoof.Base.{
  ℕ, ◌+◌, ◌-◌, ◌*◌, ◌/◌, ◌%◌, ◌^◌, Bool, List, ◌==◌, ltb, if◌then◌else◌, length, get_or, u32,
}

-- `bitBuffer`
pub record BitBuffer : Type 0 where
  pub buf : List ℕ
  pub pos : ℕ

unfoldable pub new_bit_buffer : List ℕ → BitBuffer
new_bit_buffer b = record { buf = b; pos = 0 }

-- `byteAt`, of the reader and of ag.go: zero past the end.
abbrev pub byte_at : List ℕ → ℕ → ℕ
byte_at buf i = get_or buf i 0

-- The 24 bits from byte `i` on.
abbrev pub three_bytes : List ℕ → ℕ → ℕ
three_bytes buf i = byte_at buf i * 2 ^ 16 + byte_at buf (i + 1) * 2 ^ 8 + byte_at buf (i + 2)

-- `read` of at most 16 bits.
unfoldable pub read_short : ℕ → BitBuffer → ℕ × BitBuffer
read_short n b = if n == 0 then (0, b) else (
  three_bytes b.buf (b.pos / 8) * 2 ^ (b.pos % 8) % 2 ^ 24 / 2 ^ (24 - n),
  record b { pos = b.pos + n },
)

-- `read` of at most 32 bits: a longer one is split.
unfoldable pub read : ℕ → BitBuffer → ℕ × BitBuffer
read n b =
    let (hi, b') = read_short (n - 16) b in
    let (lo, b'') = read_short 16 b' in
    if ltb 16 n then (u32 (hi * 2 ^ 16) + lo, b'') else read_short n b

unfoldable pub peek : ℕ → BitBuffer → ℕ × BitBuffer
peek n b = let (v, b') = read n b in (v, record b' { pos = b.pos })

unfoldable pub advance : ℕ → BitBuffer → BitBuffer
advance n b = record b { pos = b.pos + n }

unfoldable pub position : BitBuffer → ℕ
position b = b.pos

unfoldable pub byte_align : BitBuffer → BitBuffer
byte_align b = if b.pos % 8 == 0 then b else record b { pos = b.pos + (8 - b.pos % 8) }

unfoldable pub exhausted : BitBuffer → Bool
exhausted b = ltb (length b.buf * 8) b.pos
