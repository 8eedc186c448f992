-- ===== src/Base/Utf8.antt =====
-- The bytes of a text: Go's strings and slices count bytes of UTF-8.
use Prim.Native.Nat.{ℕ, ◌+◌, ◌-◌, ◌≤◌}
use mathlib.Core.Path.{◌≡◌, refl, ap, ◌∙◌}
use mathlib.Core.Bool.{true, false}
use mathlib.Core.Option.{Option, none, some}
use mathlib.Core.List.{[], ◌∷◌, ◌++◌}
use native.Mathlib.Omega.{arith}
use sonospoof.Base.Tests.{leb, ltb, ◌==◌, if◌then◌else◌, if_true, if_false}
use sonospoof.Base.Strings.{Text}

abbrev pub rune_size : ℕ → ℕ
rune_size c = if ltb c 0x80 then 1 else if ltb c 0x800 then 2 else if ltb c 0x10000 then 3 else 4

abbrev pub byte_size : Text → ℕ
byte_size [] = 0
byte_size (c ∷ s) = rune_size c + byte_size s

abbrev pub prepend : ℕ → Option (Text × Text) → Option (Text × Text)
prepend c none = none
prepend c (some (s, rest)) = some (c ∷ s, rest)

-- The first `n` bytes and the rest; `none` where the text is shorter or a character is cut.
abbrev pub split_bytes : ℕ → Text → Option (Text × Text)
split_bytes n [] = if n == 0 then some ([], []) else none
split_bytes n (c ∷ s) =
    let further = split_bytes (n - rune_size c) s in
    if n == 0 then some ([], c ∷ s) else if leb (rune_size c) n then prepend c further else none

rune_size-pos : (c : ℕ) → 1 ≤ rune_size c
rune_size-pos c = ground arith

pub byte_size-append : (s t : Text) → byte_size (s ++ t) ≡ byte_size s + byte_size t
byte_size-append [] t = omega arith
byte_size-append (c ∷ s) t = omega (arith, byte_size-append s t)

pub split_bytes-append : (s t : Text) → split_bytes (byte_size s) (s ++ t) ≡ some (s, t)
split_bytes-append [] [] = refl
split_bytes-append [] (c ∷ t) = refl
split_bytes-append (c ∷ s) t =
    let k : ℕ = rune_size c in
    let n : ℕ = k + byte_size s in
    let p = rune_size-pos c in
    let some_left : (n == 0) ≡ false = ground arith in
    let whole : leb k n ≡ true = ground arith in
    let less : n - k ≡ byte_size s = omega arith in
    if_false _ _ some_left
    ∙ if_true _ _ whole
    ∙ ap (λ m. prepend c (split_bytes m (s ++ t))) less
    ∙ ap (prepend c) (split_bytes-append s t)
