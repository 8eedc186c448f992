-- ===== src/Raop/Base64/RoundTrip.antt =====
-- internal/raop/aeskey.go: reading what was encoded.
use sonospoof.Base.{
  ℕ, ◌+◌, ◌*◌, ◌/◌, ◌%◌, ◌<◌, false, ◌||◌, ◌==◌, ◌≡◌, refl, sym, ◌∙◌, ap, ◌⊎◌, inl, inr, Option,
  none, some, List, [], ◌∷◌, ◌++◌, Text, trim, trim_right, trim_none, trim_right_none,
  trim_right-append, is_space, All, All-append, All-weaken, subst, arith,
}
use sonospoof.Raop.Base64.{
  sextet, one_byte, two_bytes, three_bytes, decode_std, decode_raw, without_breaks, is_padding,
  or_raw, decode_b64, letter, encode_std, encode_unpadded,
}

sextet-letter : (n : ℕ) → n < 64 → sextet (letter n) ≡ some n
sextet-letter n h = ground arith

-- A character of an encoding: no space, no line break.
abbrev IsDense : ℕ → Type 0
IsDense c = (is_space c ≡ false) × ((c == 10 || c == 13) ≡ false)

letter-IsDense : (n : ℕ) → n < 64 → IsDense (letter n) × (is_padding (letter n) ≡ false)
letter-IsDense n h = ground arith

abbrev pub IsByte : ℕ → Type 0
IsByte x = x < 256

-- The four values of three bytes, read back.
group_back :
    (x y z : ℕ)
    → IsByte x
    → IsByte y
    → IsByte z
    → (rest : Option (List ℕ))
    → three_bytes
        (sextet (letter (x / 4)))
        (sextet (letter (x % 4 * 16 + y / 16)))
        (sextet (letter (y % 16 * 4 + z / 64)))
        (sextet (letter (z % 64)))
        rest
      ≡ elim rest [ none ↦ none | some bytes ↦ some (x ∷ y ∷ z ∷ bytes) ]
group_back x y z p q r none =
    rw
      (
        sextet-letter (x / 4) (omega arith),
        sextet-letter (x % 4 * 16 + y / 16) (omega arith),
        sextet-letter (y % 16 * 4 + z / 64) (omega arith),
        sextet-letter (z % 64) (omega arith),
      )
      refl
group_back x y z p q r (some bytes) =
    let first : x / 4 * 4 + (x % 4 * 16 + y / 16) / 16 ≡ x = omega arith in
    let second : (x % 4 * 16 + y / 16) % 16 * 16 + (y % 16 * 4 + z / 64) / 4 ≡ y = omega arith in
    let third : (y % 16 * 4 + z / 64) % 4 * 64 + z % 64 ≡ z = omega arith in
    rw
      (
        sextet-letter (x / 4) (omega arith),
        sextet-letter (x % 4 * 16 + y / 16) (omega arith),
        sextet-letter (y % 16 * 4 + z / 64) (omega arith),
        sextet-letter (z % 64) (omega arith),
      )
      (λ i. some (first i ∷ second i ∷ third i ∷ bytes))

pair_back :
    (x y : ℕ)
    → IsByte x
    → IsByte y
    → two_bytes
        (sextet (letter (x / 4)))
        (sextet (letter (x % 4 * 16 + y / 16)))
        (sextet (letter (y % 16 * 4)))
      ≡ some (x ∷ y ∷ [])
pair_back x y p q =
    let first : x / 4 * 4 + (x % 4 * 16 + y / 16) / 16 ≡ x = omega arith in
    let second : (x % 4 * 16 + y / 16) % 16 * 16 + y % 16 * 4 / 4 ≡ y = omega arith in
    rw
      (
        sextet-letter (x / 4) (omega arith),
        sextet-letter (x % 4 * 16 + y / 16) (omega arith),
        sextet-letter (y % 16 * 4) (omega arith),
      )
      (λ i. some (first i ∷ second i ∷ []))

single_back :
    (x : ℕ)
    → IsByte x
    → one_byte (sextet (letter (x / 4))) (sextet (letter (x % 4 * 16))) ≡ some (x ∷ [])
single_back x p =
    let first : x / 4 * 4 + x % 4 * 16 / 16 ≡ x = omega arith in
    rw (sextet-letter (x / 4) (omega arith), sextet-letter (x % 4 * 16) (omega arith))
      (λ i. some (first i ∷ []))

-- The encoding without its padding.
abbrev encode_raw : List ℕ → Text
encode_raw [] = []
encode_raw (x ∷ []) = letter (x / 4) ∷ letter (x % 4 * 16) ∷ []
encode_raw (x ∷ y ∷ []) = letter (x / 4) ∷ letter (x % 4 * 16 + y / 16) ∷ letter (y % 16 * 4) ∷ []
encode_raw (x ∷ y ∷ z ∷ bytes) =
    letter (x / 4)
    ∷ letter (x % 4 * 16 + y / 16)
    ∷ letter (y % 16 * 4 + z / 64)
    ∷ letter (z % 64)
    ∷ encode_raw bytes

std_back : (bytes : List ℕ) → All IsByte bytes → decode_std (encode_std bytes) ≡ some bytes
std_back [] p = refl
std_back (x ∷ []) (p, ps) = single_back x p
std_back (x ∷ y ∷ []) (p, (q, ps)) =
    rw ((letter-IsDense (y % 16 * 4) (omega arith)).1) (pair_back x y p q)
std_back (x ∷ y ∷ z ∷ bytes) (p, (q, (r, ps))) =
    rw ((letter-IsDense (z % 64) (omega arith)).1, std_back bytes ps)
      (group_back x y z p q r (some bytes))

raw_back : (bytes : List ℕ) → All IsByte bytes → decode_raw (encode_raw bytes) ≡ some bytes
raw_back [] p = refl
raw_back (x ∷ []) (p, ps) = single_back x p
raw_back (x ∷ y ∷ []) (p, (q, ps)) = pair_back x y p q
raw_back (x ∷ y ∷ z ∷ bytes) (p, (q, (r, ps))) =
    rw (raw_back bytes ps) (group_back x y z p q r (some bytes))

-- An encoding has no padding that is left over, and the decoder for whole groups does not read
-- it wrongly without: it refuses a last group that is not whole.
std_refuses :
    (bytes : List ℕ)
    → All IsByte bytes
    → (decode_std (encode_raw bytes) ≡ some bytes) ⊎ (decode_std (encode_raw bytes) ≡ none)
std_refuses [] p = inl refl
std_refuses (x ∷ []) p = inr refl
std_refuses (x ∷ y ∷ []) p = inr refl
std_refuses (x ∷ y ∷ z ∷ bytes) (p, (q, (r, ps))) =
    let whole = (letter-IsDense (z % 64) (omega arith)).1 in
    elim (std_refuses bytes ps) [
      | inl e ↦ inl (rw (whole, e) (group_back x y z p q r (some bytes)))
      | inr e ↦ inr (rw (whole, e) (group_back x y z p q r none))
    ]

abbrev IsLetter : ℕ → Type 0
IsLetter c = IsDense c × (is_padding c ≡ false)

raw_letters : (bytes : List ℕ) → All IsByte bytes → All IsLetter (encode_raw bytes)
raw_letters [] p = tt
raw_letters (x ∷ []) (p, ps) =
    (letter-IsDense (x / 4) (omega arith), (letter-IsDense (x % 4 * 16) (omega arith), tt))
raw_letters (x ∷ y ∷ []) (p, (q, ps)) =
    let a = letter-IsDense (x / 4) (omega arith) in
    let b = letter-IsDense (x % 4 * 16 + y / 16) (omega arith) in
    let c = letter-IsDense (y % 16 * 4) (omega arith) in (a, (b, (c, tt)))
raw_letters (x ∷ y ∷ z ∷ bytes) (p, (q, (r, ps))) =
    let a = letter-IsDense (x / 4) (omega arith) in
    let b = letter-IsDense (x % 4 * 16 + y / 16) (omega arith) in
    let c = letter-IsDense (y % 16 * 4 + z / 64) (omega arith) in
    let d = letter-IsDense (z % 64) (omega arith) in (a, (b, (c, (d, raw_letters bytes ps))))

padding : List ℕ → Text
padding [] = []
padding (x ∷ []) = b'=' ∷ b'=' ∷ []
padding (x ∷ y ∷ []) = b'=' ∷ []
padding (x ∷ y ∷ z ∷ bytes) = padding bytes

padded : (bytes : List ℕ) → encode_std bytes ≡ encode_raw bytes ++ padding bytes
unfolding padding
padded [] = refl
padded (x ∷ []) = refl
padded (x ∷ y ∷ []) = refl
padded (x ∷ y ∷ z ∷ bytes) =
    ap
      (λ s.
        letter (x / 4)
        ∷ letter (x % 4 * 16 + y / 16)
        ∷ letter (y % 16 * 4 + z / 64)
        ∷ letter (z % 64)
        ∷ s)
      (padded bytes)

padding-IsDense : (bytes : List ℕ) → All IsDense (padding bytes)
unfolding padding
padding-IsDense [] = tt
padding-IsDense (x ∷ []) = ((refl, refl), ((refl, refl), tt))
padding-IsDense (x ∷ y ∷ []) = ((refl, refl), tt)
padding-IsDense (x ∷ y ∷ z ∷ bytes) = padding-IsDense bytes

padding_trimmed : (bytes : List ℕ) → trim_right is_padding (padding bytes) ≡ []
unfolding padding
padding_trimmed [] = refl
padding_trimmed (x ∷ []) = refl
padding_trimmed (x ∷ y ∷ []) = refl
padding_trimmed (x ∷ y ∷ z ∷ bytes) = padding_trimmed bytes

unpadded : (bytes : List ℕ) → All IsByte bytes → encode_unpadded bytes ≡ encode_raw bytes
unfolding encode_unpadded
unpadded bytes p =
    ap (trim_right is_padding) (padded bytes)
    ∙ trim_right-append is_padding (encode_raw bytes) (padding bytes)
        (All-weaken (λ c d. d.1) (encode_raw bytes) (raw_letters bytes p)) (padding_trimmed bytes)

breaks_kept : (s : Text) → All IsDense s → without_breaks s ≡ s
breaks_kept [] p = refl
breaks_kept (c ∷ s) (p, ps) = rw (p.1) (ap (◌∷◌ c) (breaks_kept s ps))

dense_trimmed : (s : Text) → All IsDense s → trim is_space s ≡ s
dense_trimmed s p = trim_none is_space s (All-weaken (λ c d. d.0) s p)

dense_decoded : (s : Text) → All IsDense s → decode_b64 s ≡ or_raw (decode_std s) s
unfolding decode_b64
dense_decoded s p =
    ap (λ t. or_raw (decode_std (without_breaks t)) t) (dense_trimmed s p)
    ∙ ap (λ t. or_raw (decode_std t) s) (breaks_kept s p)

raw-IsDense : (bytes : List ℕ) → All IsByte bytes → All IsDense (encode_raw bytes)
raw-IsDense bytes p = All-weaken (λ c d. d.0) (encode_raw bytes) (raw_letters bytes p)

raw_decoded : (bytes : List ℕ) → All IsByte bytes → or_raw none (encode_raw bytes) ≡ some bytes
raw_decoded bytes p =
    ap (λ t. decode_raw (without_breaks t))
      (trim_right_none is_padding (encode_raw bytes)
        (All-weaken (λ c d. d.1) (encode_raw bytes) (raw_letters bytes p)))
    ∙ ap decode_raw (breaks_kept (encode_raw bytes) (raw-IsDense bytes p))
    ∙ raw_back bytes p

-- Bytes that were encoded in base64 are read back, with the padding and without it.
pub decode_b64-encode_std :
    (bytes : List ℕ)
    → All IsByte bytes
    → (decode_b64 (encode_std bytes) ≡ some bytes)
      × (decode_b64 (encode_unpadded bytes) ≡ some bytes)
decode_b64-encode_std bytes p =
    let dense : All IsDense (encode_std bytes) = subst (All IsDense) (sym (padded bytes)) (
      All-append IsDense (encode_raw bytes) (padding bytes) (raw-IsDense bytes p)
        (padding-IsDense bytes)) in
    let plain : or_raw (decode_std (encode_raw bytes)) (encode_raw bytes) ≡ some bytes =
      elim (std_refuses bytes p) [
        | inl e ↦ ap (λ o. or_raw o (encode_raw bytes)) e
        | inr e ↦ ap (λ o. or_raw o (encode_raw bytes)) e ∙ raw_decoded bytes p
      ] in
    (
      dense_decoded (encode_std bytes) dense
          ∙ ap (λ o. or_raw o (encode_std bytes)) (std_back bytes p),
      ap decode_b64 (unpadded bytes p)
          ∙ dense_decoded (encode_raw bytes) (raw-IsDense bytes p)
          ∙ plain,
    )
