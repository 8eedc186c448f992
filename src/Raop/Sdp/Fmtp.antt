-- ===== src/Raop/Sdp/Fmtp.antt =====
-- internal/raop/sdp.go: the `a=fmtp` line of a sender is read back.
use sonospoof.Base.{
  ℕ, ◌+◌, ◌%◌, ◌^◌, ◌<◌, ◌≡◌, ◌≢◌, refl, ◌∙◌, ap, ap₂, List, [], ◌∷◌, map, Text, codes, join,
  fields, fields-join, IsWord, itoa, itoa_some, itoa-IsWord, parse_uint32-itoa, All, arith,
}
use sonospoof.Alac.Decoder.{Config}
use sonospoof.Raop.Sdp.{Parsed, bind, parse_fields, field_then, config_of, check_config, parse_fmtp}

-- What the line says: the payload type and the eleven fields of the cookie.
abbrev pub cookie : Config → List ℕ
cookie cfg =
    cfg.frame_length ∷ cfg.compatible_version ∷ cfg.bit_depth ∷ cfg.pb ∷ cfg.mb ∷ cfg.kb
    ∷ cfg.num_channels ∷ cfg.max_run ∷ cfg.max_frame_bytes ∷ cfg.avg_bit_rate ∷ cfg.sample_rate ∷ []

unfoldable pub print_fmtp : ℕ → Config → Text
print_fmtp payload cfg = join (codes " ") (map itoa (payload ∷ cookie cfg))

map-itoa-IsWord : (ns : List ℕ) → All IsWord (map itoa ns)
map-itoa-IsWord [] = tt
map-itoa-IsWord (n ∷ ns) = ((itoa_some n, itoa-IsWord n), map-itoa-IsWord ns)

parse_fields-itoa :
    (i : ℕ) (ns : List ℕ)
    → All (λ n. n < 2 ^ 32) ns
    → parse_fields i (map itoa ns) ≡ Parsed.parsed ns
parse_fields-itoa i [] p = refl
parse_fields-itoa i (n ∷ ns) (p, ps) =
    ap₂ (field_then i) (parse_uint32-itoa n p) (parse_fields-itoa (i + 1) ns ps)

-- The widths of `Config`.
abbrev pub Fits : Config → Type 0
Fits cfg =
    (cfg.frame_length < 2 ^ 32)
    × (cfg.compatible_version < 2 ^ 8)
    × (cfg.bit_depth < 2 ^ 8)
    × (cfg.pb < 2 ^ 8)
    × (cfg.mb < 2 ^ 8)
    × (cfg.kb < 2 ^ 8)
    × (cfg.num_channels < 2 ^ 8)
    × (cfg.max_run < 2 ^ 16)
    × (cfg.max_frame_bytes < 2 ^ 32)
    × (cfg.avg_bit_rate < 2 ^ 32)
    × (cfg.sample_rate < 2 ^ 32)

config_of-cookie : (cfg : Config) → Fits cfg → config_of (cookie cfg) ≡ cfg
unfolding config_of
config_of-cookie cfg (a, b, c, d, e, f, g, h, j, k, l) =
    let e₀ : cfg.frame_length % 2 ^ 32 ≡ cfg.frame_length = omega arith in
    let e₁ : cfg.compatible_version % 2 ^ 8 ≡ cfg.compatible_version = omega arith in
    let e₂ : cfg.bit_depth % 2 ^ 8 ≡ cfg.bit_depth = omega arith in
    let e₃ : cfg.pb % 2 ^ 8 ≡ cfg.pb = omega arith in
    let e₄ : cfg.mb % 2 ^ 8 ≡ cfg.mb = omega arith in
    let e₅ : cfg.kb % 2 ^ 8 ≡ cfg.kb = omega arith in
    let e₆ : cfg.num_channels % 2 ^ 8 ≡ cfg.num_channels = omega arith in
    let e₇ : cfg.max_run % 2 ^ 16 ≡ cfg.max_run = omega arith in
    let e₈ : cfg.max_frame_bytes % 2 ^ 32 ≡ cfg.max_frame_bytes = omega arith in
    let e₉ : cfg.avg_bit_rate % 2 ^ 32 ≡ cfg.avg_bit_rate = omega arith in
    let e₁₀ : cfg.sample_rate % 2 ^ 32 ≡ cfg.sample_rate = omega arith in
    λ i. record {
      frame_length = e₀ i;
      compatible_version = e₁ i;
      bit_depth = e₂ i;
      pb = e₃ i;
      mb = e₄ i;
      kb = e₅ i;
      num_channels = e₆ i;
      max_run = e₇ i;
      max_frame_bytes = e₈ i;
      avg_bit_rate = e₉ i;
      sample_rate = e₁₀ i;
    }

checked :
    (cfg : Config)
    → cfg.frame_length ≢ 0
    → cfg.num_channels ≢ 0
    → check_config cfg ≡ Parsed.parsed cfg
unfolding check_config
checked cfg h k = ground arith

cookie-All : (cfg : Config) → Fits cfg → All (λ n. n < 2 ^ 32) (cookie cfg)
cookie-All cfg (a, b, c, d, e, f, g, h, j, k, l) = (
  a,
  (
    omega arith,
    (
      omega arith,
      (omega arith, (omega arith, (omega arith, (omega arith, (omega arith, (j, (k, (l, tt)))))))),
    ),
  ),
)

-- What a sender writes of a cookie that fits its fields, with a frame length and channels that are
-- not zero, is read back as that cookie.
pub parse_fmtp-print_fmtp :
    (payload : ℕ) (cfg : Config)
    → Fits cfg
    → cfg.frame_length ≢ 0
    → cfg.num_channels ≢ 0
    → parse_fmtp (print_fmtp payload cfg) ≡ Parsed.parsed cfg
unfolding parse_fmtp print_fmtp
parse_fmtp-print_fmtp payload cfg fits h k =
    let words : fields (join (codes " ") (map itoa (payload ∷ cookie cfg)))
        ≡ map itoa (payload ∷ cookie cfg) =
      fields-join (map itoa (payload ∷ cookie cfg)) (map-itoa-IsWord (payload ∷ cookie cfg)) in
    rw words (
      ap (λ m. bind m (λ n. check_config (config_of n)))
        (parse_fields-itoa 0 (cookie cfg) (cookie-All cfg fits))
      ∙ ap check_config (config_of-cookie cfg fits)
      ∙ checked cfg h k)
