-- ===== src/Raop/Base64.antt =====
-- internal/raop/aeskey.go and internal/raop/challenge.go: base64 with or without its padding.
pub mod RoundTrip
use sonospoof.Base.{
  ℕ, ◌+◌, ◌-◌, ◌*◌, ◌/◌, ◌%◌, Bool, true, false, ◌&&◌, ◌||◌, ◌==◌, leb, ltb, if◌then◌else◌, Option,
  none, some, List, [], ◌∷◌, ◌++◌, Text, trim, trim_right, is_space,
}

-- The value of a character of the alphabet.
abbrev pub sextet : ℕ → Option ℕ
sextet c =
    if leb b'A' c && leb c b'Z'
    then some (c - b'A')
    else if leb b'a' c && leb c b'z'
    then some (c - b'a' + 26)
    else if leb b'0' c && leb c b'9'
    then some (c - b'0' + 52)
    else if c == b'+'
    then some 62
    else if c == b'/'
    then some 63
    else none

-- Two, three and four characters make one, two and three bytes; the low bits that are left over
-- are not looked at.
abbrev pub one_byte : Option ℕ → Option ℕ → Option (List ℕ)
one_byte (some a) (some b) = some ((a * 4 + b / 16) ∷ [])
one_byte (some a) none = none
one_byte none b = none

abbrev pub two_bytes : Option ℕ → Option ℕ → Option ℕ → Option (List ℕ)
two_bytes (some a) (some b) (some c) = some ((a * 4 + b / 16) ∷ (b % 16 * 16 + c / 4) ∷ [])
two_bytes (some a) (some b) none = none
two_bytes (some a) none c = none
two_bytes none b c = none

abbrev pub three_bytes :
    Option ℕ → Option ℕ → Option ℕ → Option ℕ → Option (List ℕ) → Option (List ℕ)
three_bytes (some a) (some b) (some c) (some d) (some rest) =
    some ((a * 4 + b / 16) ∷ (b % 16 * 16 + c / 4) ∷ (c % 4 * 64 + d) ∷ rest)
three_bytes (some a) (some b) (some c) (some d) none = none
three_bytes (some a) (some b) (some c) none rest = none
three_bytes (some a) (some b) none d rest = none
three_bytes (some a) none c d rest = none
three_bytes none b c d rest = none

abbrev pub is_empty : Text → Bool
is_empty [] = true
is_empty (c ∷ s) = false

-- `base64.StdEncoding`: whole groups of four, the last one padded with `=`.
abbrev pub decode_std : Text → Option (List ℕ)
decode_std [] = some []
decode_std (a ∷ []) = none
decode_std (a ∷ b ∷ []) = none
decode_std (a ∷ b ∷ c ∷ []) = none
decode_std (a ∷ b ∷ c ∷ d ∷ s) =
    let rest = decode_std s in
    if d == b'='
    then (if is_empty s
        then (if c == b'='
            then one_byte (sextet a) (sextet b)
            else two_bytes (sextet a) (sextet b) (sextet c))
        else none)
    else three_bytes (sextet a) (sextet b) (sextet c) (sextet d) rest

-- `base64.RawStdEncoding`: no padding.
abbrev pub decode_raw : Text → Option (List ℕ)
decode_raw [] = some []
decode_raw (a ∷ []) = none
decode_raw (a ∷ b ∷ []) = one_byte (sextet a) (sextet b)
decode_raw (a ∷ b ∷ c ∷ []) = two_bytes (sextet a) (sextet b) (sextet c)
decode_raw (a ∷ b ∷ c ∷ d ∷ s) =
    let rest = decode_raw s in three_bytes (sextet a) (sextet b) (sextet c) (sextet d) rest

-- Both skip line breaks.
abbrev pub without_breaks : Text → Text
without_breaks [] = []
without_breaks (c ∷ s) = if c == 10 || c == 13 then without_breaks s else c ∷ without_breaks s

abbrev pub is_padding : ℕ → Bool
is_padding c = c == b'='

abbrev pub or_raw : Option (List ℕ) → Text → Option (List ℕ)
or_raw (some bytes) s = some bytes
or_raw none s = decode_raw (without_breaks (trim_right is_padding s))

-- `decodeB64`, and `decodeChallenge`, which is the same.
unfoldable pub decode_b64 : Text → Option (List ℕ)
decode_b64 s = let t = trim is_space s in or_raw (decode_std (without_breaks t)) t

-- `EncodeToString` of `StdEncoding`
abbrev pub letter : ℕ → ℕ
letter n =
    if ltb n 26
    then b'A' + n
    else if ltb n 52
    then b'a' + (n - 26)
    else if ltb n 62
    then b'0' + (n - 52)
    else if n == 62
    then b'+'
    else b'/'

abbrev pub encode_std : List ℕ → Text
encode_std [] = []
encode_std (x ∷ []) = letter (x / 4) ∷ letter (x % 4 * 16) ∷ b'=' ∷ b'=' ∷ []
encode_std (x ∷ y ∷ []) =
    letter (x / 4) ∷ letter (x % 4 * 16 + y / 16) ∷ letter (y % 16 * 4) ∷ b'=' ∷ []
encode_std (x ∷ y ∷ z ∷ bytes) =
    letter (x / 4)
    ∷ letter (x % 4 * 16 + y / 16)
    ∷ letter (y % 16 * 4 + z / 64)
    ∷ letter (z % 64)
    ∷ encode_std bytes

-- What `AppleResponse` returns of a signature.
unfoldable pub encode_unpadded : List ℕ → Text
encode_unpadded bytes = trim_right is_padding (encode_std bytes)
