-- ===== src/Raop/Sdp.antt =====
-- internal/raop/sdp.go and internal/raop/aeskey.go: what an ANNOUNCE body says.
pub mod Fmtp
pub mod Valid
use sonospoof.Base.{
  ℕ, ◌+◌, ◌%◌, ◌^◌, Bool, true, false, not, ◌==◌, if◌then◌else◌, Option, none, some, List, [], ◌∷◌,
  ◌++◌, Text, codes, same, cut, cut_prefix, split, fields, trim, trim_right, is_space, length,
  get_or, drop, parse_uint32, atoi, u8, u16,
}
use sonospoof.Alac.Decoder.{Config}
use sonospoof.Raop.Base64.{decode_b64}

-- `SDP`; a nil slice is `none`, and an `int` is a pattern of 64 bits.
pub record Sdp : Type 0 where
  pub config : Config
  pub session_key : Option (List ℕ)
  pub iv : Option (List ℕ)
  pub name : List ℕ
  pub min_latency : ℕ
  pub max_latency : ℕ

-- The errors, in the order of the source.
pub data SdpError : Type 0 where
  bad_key bad_iv wrong_codec no_fmtp half_key : SdpError
  field_count bad_field : ℕ → SdpError
  no_frame_length no_channels : SdpError

pub data Parsed {ℓ} (A : Type ℓ) : Type ℓ where
  bad : SdpError → Parsed A
  parsed : A → Parsed A

abbrev pub bind {ℓ κ} : {A : Type ℓ} {B : Type κ} → Parsed A → (A → Parsed B) → Parsed B
bind (Parsed.bad e) next = Parsed.bad e
bind (Parsed.parsed a) next = next a

-- The loop over the fields of an `a=fmtp` line: `i` counts them.
abbrev pub field_then : ℕ → Option ℕ → Parsed (List ℕ) → Parsed (List ℕ)
field_then i none rest = Parsed.bad (SdpError.bad_field i)
field_then i (some v) rest = bind rest (λ vs. Parsed.parsed (v ∷ vs))

abbrev pub parse_fields : ℕ → List Text → Parsed (List ℕ)
parse_fields i [] = Parsed.parsed []
parse_fields i (f ∷ fs) = field_then i (parse_uint32 f) (parse_fields (i + 1) fs)

-- The cookie's fields, cut to the widths of `Config`.
unfoldable pub config_of : List ℕ → Config
config_of n = record {
  frame_length = get_or n 0 0 % 2 ^ 32;
  compatible_version = u8 (get_or n 1 0);
  bit_depth = u8 (get_or n 2 0);
  pb = u8 (get_or n 3 0);
  mb = u8 (get_or n 4 0);
  kb = u8 (get_or n 5 0);
  num_channels = u8 (get_or n 6 0);
  max_run = u16 (get_or n 7 0);
  max_frame_bytes = get_or n 8 0 % 2 ^ 32;
  avg_bit_rate = get_or n 9 0 % 2 ^ 32;
  sample_rate = get_or n 10 0 % 2 ^ 32;
}

unfoldable pub check_config : Config → Parsed Config
check_config cfg =
    if cfg.frame_length == 0
    then Parsed.bad SdpError.no_frame_length
    else if cfg.num_channels == 0
    then Parsed.bad SdpError.no_channels
    else Parsed.parsed cfg

-- `parseFmtp`
unfoldable pub parse_fmtp : Text → Parsed Config
unfolding config_of check_config
parse_fmtp rest =
    let f = fields rest in
    if length f == 12
    then bind (parse_fields 0 (drop 1 f)) (λ n. check_config (config_of n))
    else Parsed.bad (SdpError.field_count (length f))

-- `SessionKey` and `SessionIV`; the first takes the RSA decryption from Go's library.
abbrev pub of_16_bytes : SdpError → Option (List ℕ) → Parsed (List ℕ)
of_16_bytes e none = Parsed.bad e
of_16_bytes e (some bytes) = if length bytes == 16 then Parsed.parsed bytes else Parsed.bad e

abbrev pub unwrapped : (List ℕ → Option (List ℕ)) → Option (List ℕ) → Option (List ℕ)
unwrapped decrypt_oaep none = none
unwrapped decrypt_oaep (some bytes) = decrypt_oaep bytes

unfoldable pub session_key : (List ℕ → Option (List ℕ)) → Text → Parsed (List ℕ)
session_key decrypt_oaep attribute =
    of_16_bytes SdpError.bad_key (unwrapped decrypt_oaep (decode_b64 attribute))

unfoldable pub session_iv : Text → Parsed (List ℕ)
session_iv attribute = of_16_bytes SdpError.bad_iv (decode_b64 attribute)

-- `strings.Contains`
abbrev pub contains : Text → Text → Bool
contains [] sub = same sub []
contains (c ∷ s) sub =
    let later = contains s sub in elim (cut_prefix (c ∷ s) sub) [ none ↦ later | some t ↦ true ]

-- The loop's variables: what is read so far, and whether an `a=fmtp` line was.
pub record Progress : Type 0 where
  pub sdp : Sdp
  pub saw_fmtp : Bool

abbrev pub int_of : Text → ℕ
int_of s = (atoi (trim is_space s)).0

unfoldable pub attribute : (List ℕ → Option (List ℕ)) → Progress → Text → Text → Parsed Progress
unfolding parse_fmtp session_key session_iv
attribute decrypt_oaep p key rest =
    let s = p.sdp in
    if same key (codes "fmtp")
    then bind (parse_fmtp rest)
        (λ cfg. Parsed.parsed (record { sdp = record s { config = cfg }; saw_fmtp = true }))
    else if same key (codes "rsaaeskey")
    then bind (session_key decrypt_oaep rest)
        (λ k. Parsed.parsed (record p { sdp = record s { session_key = some k } }))
    else if same key (codes "aesiv")
    then bind (session_iv rest) (λ iv. Parsed.parsed (record p { sdp = record s { iv = some iv } }))
    else if same key (codes "min-latency")
    then Parsed.parsed (record p { sdp = record s { min_latency = int_of rest } })
    else if same key (codes "max-latency")
    then Parsed.parsed (record p { sdp = record s { max_latency = int_of rest } })
    else if same key (codes "rtpmap")
    then (if contains rest (codes "AppleLossless")
        then Parsed.parsed p
        else Parsed.bad SdpError.wrong_codec)
    else Parsed.parsed p

abbrev pub cut_attribute :
    (List ℕ → Option (List ℕ)) → Progress → Option (Text × Text) → Parsed Progress
cut_attribute decrypt_oaep p none = Parsed.parsed p
cut_attribute decrypt_oaep p (some (key, rest)) = attribute decrypt_oaep p key rest

-- One line, without its line break; what is not `x=...` is skipped.
abbrev pub read_line : (List ℕ → Option (List ℕ)) → Progress → Text → Parsed Progress
read_line decrypt_oaep p [] = Parsed.parsed p
read_line decrypt_oaep p (kind ∷ []) = Parsed.parsed p
read_line decrypt_oaep p (kind ∷ eq ∷ val) =
    if not (eq == b'=')
    then Parsed.parsed p
    else if kind == b'i'
    then Parsed.parsed (record p { sdp = record p.sdp { name = val } })
    else if kind == b'a'
    then cut_attribute decrypt_oaep p (cut b':' val)
    else Parsed.parsed p

abbrev pub read_lines : (List ℕ → Option (List ℕ)) → Progress → List Text → Parsed Progress
read_lines decrypt_oaep p [] = Parsed.parsed p
read_lines decrypt_oaep p (raw ∷ lines) =
    bind (read_line decrypt_oaep p (trim_right (λ c. c == 13) raw))
      λ q. read_lines decrypt_oaep q lines

-- The zero value of `SDP`.
unfoldable pub no_sdp : Sdp
unfolding config_of
no_sdp = record {
  config = config_of [];
  session_key = none;
  iv = none;
  name = [];
  min_latency = 0;
  max_latency = 0;
}

-- The key and the IV go together.
abbrev pub both_or_neither : Sdp → Option (List ℕ) → Option (List ℕ) → Parsed Sdp
both_or_neither s none none = Parsed.parsed s
both_or_neither s (some k) (some iv) = Parsed.parsed s
both_or_neither s none (some iv) = Parsed.bad SdpError.half_key
both_or_neither s (some k) none = Parsed.bad SdpError.half_key

unfoldable pub finish : Progress → Parsed Sdp
finish p =
    if p.saw_fmtp
    then both_or_neither p.sdp p.sdp.session_key p.sdp.iv
    else Parsed.bad SdpError.no_fmtp

-- `ParseSDP`
unfoldable pub parse_sdp : (List ℕ → Option (List ℕ)) → Text → Parsed Sdp
unfolding no_sdp attribute finish
parse_sdp decrypt_oaep body =
    bind (read_lines decrypt_oaep (record { sdp = no_sdp; saw_fmtp = false }) (split 10 body))
      finish
