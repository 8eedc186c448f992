-- ===== src/Bridge/Filename.antt =====
-- internal/bridge/bridge.go: `safeFilename`.
use sonospoof.Base.{
  ℕ, ◌≤◌, Bool, true, false, ◌&&◌, ◌||◌, ◌==◌, leb, ltb, if◌then◌else◌, ◌≡◌, refl, ap, ◌∙◌, ◌⊎◌, [],
  ◌∷◌, Text, codes, same, length, length-take-min, ltb→le, take, trim, trim_left, trim-first,
  All-trim_left, All-trim_right, All-take, All, arith, Bool-cases, inl, inr,
}

-- What `strings.Map` keeps of a character: nothing where the source returns -1.
abbrev pub is_kept : ℕ → Bool
is_kept c =
    (leb b'a' c && leb c b'z')
    || (leb b'A' c && leb c b'Z')
    || (leb b'0' c && leb c b'9')
    || c == b'-'
    || c == b'_'

abbrev pub map_safe : Text → Text
map_safe [] = []
map_safe (c ∷ s) =
    let rest = map_safe s in if is_kept c then c ∷ rest else if c == b' ' then b'_' ∷ rest else rest

abbrev pub is_edge : ℕ → Bool
is_edge c = c == b'.' || c == b'_' || c == b'-'

unfoldable pub safe_filename : Text → Text
safe_filename name =
    let safe = trim is_edge (map_safe name) in
    if same safe [] then codes "zone" else if ltb 64 (length safe) then take 64 safe else safe

abbrev pub IsSafe : ℕ → Type 0
IsSafe c = is_kept c ≡ true

map_safe-IsSafe : (s : Text) → All IsSafe (map_safe s)
map_safe-IsSafe [] = tt
map_safe-IsSafe (c ∷ s) = ground (arith, map_safe-IsSafe s)

-- What a name for a file must be.
abbrev pub IsFilename : Text → Type 0
IsFilename s =
    ((c : ℕ) × (t : Text) × (s ≡ c ∷ t) × (is_edge c ≡ false)) × All IsSafe s × (length s ≤ 64)

cut_IsFilename :
    (safe : Text)
    → (safe ≡ []) ⊎ ((c : ℕ) × (t : Text) × (safe ≡ c ∷ t) × (is_edge c ≡ false))
    → All IsSafe safe
    → IsFilename
        (if same safe [] then codes "zone" else if ltb 64 (length safe) then take 64 safe else safe)
cut_IsFilename [] first safe =
    ((b'z', codes "one", refl, refl), (refl, (refl, (refl, (refl, tt)))), (omega arith))
cut_IsFilename (d ∷ s) (inl e) safe = absurd (cc)
cut_IsFilename (d ∷ s) (inr (c, t, e, first)) safe = elim (Bool-cases (ltb 64 (length (d ∷ s)))) [
  | inl long ↦ rw long (
    (d, take 63 s, refl, ap is_edge {x = d} {y = c} (cc) ∙ first),
    All-take IsSafe 64 (d ∷ s) safe,
    omega (arith, length-take-min 64 (d ∷ s)),
  )
  | inr short ↦ rw short (
    (d, s, refl, ap is_edge {x = d} {y = c} (cc) ∙ first),
    safe,
    ltb→le 64 (length (d ∷ s)) short,
  )
]

-- Whatever a device calls its zone, the name of the file has one to 64 characters, each a letter,
-- a digit, a dash or an underscore, and it starts with a letter or a digit: no separator and no
-- leading dot can come through.
pub safe_filename-IsFilename : (name : Text) → IsFilename (safe_filename name)
unfolding safe_filename
safe_filename-IsFilename name =
    let mapped = map_safe name in
    cut_IsFilename (trim is_edge mapped) (trim-first is_edge mapped) (
      All-trim_right IsSafe is_edge (trim_left is_edge mapped)
        (All-trim_left IsSafe is_edge mapped (map_safe-IsSafe name)))
