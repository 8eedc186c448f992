-- ===== src/Raop/Sdp/Valid.antt =====
-- internal/raop/sdp.go: what a body that is accepted has.
use sonospoof.Base.{
  ℕ, ◌^◌, ◌<◌, Bool, true, false, not, ◌==◌, if◌then◌else◌, Bool-cases, ◌≡◌, ◌≢◌, refl, sym, inl,
  inr, Option, none, some, List, [], ◌∷◌, Text, codes, same, cut, split, fields, length, drop,
  trim_right, arith,
}
use mathlib.Core.Bool.{true≢false}
use sonospoof.Alac.Decoder.{Config}
use sonospoof.Raop.Base64.{decode_b64}
use sonospoof.Raop.Sdp.{
  Sdp, SdpError, Parsed, Progress, bind, config_of, check_config, parse_fields, parse_fmtp,
  of_16_bytes, unwrapped, session_key, session_iv, contains, attribute, cut_attribute, read_line,
  read_lines, no_sdp, both_or_neither, finish, parse_sdp,
}

-- A property of what is parsed, where something is.
abbrev pub Gives {ℓ κ} : {A : Type ℓ} → (A → Type κ) → Parsed A → Type κ
Gives P (Parsed.parsed a) = P a
Gives P (Parsed.bad e) = Unit

Gives-bind {ℓ κ μ ν} :
    {A : Type ℓ} {B : Type κ} (P : A → Type μ) (Q : B → Type ν) (m : Parsed A) (f : A → Parsed B)
    → Gives P m
    → ((a : A) → P a → Gives Q (f a))
    → Gives Q (bind m f)
Gives-bind P Q (Parsed.parsed a) f p h = h a p
Gives-bind P Q (Parsed.bad e) f p h = tt

Gives-if {ℓ κ} :
    {A : Type ℓ} (P : A → Type κ) (b : Bool) (x y : Parsed A)
    → Gives P x
    → Gives P y
    → Gives P (if b then x else y)
Gives-if P true x y p q = p
Gives-if P false x y p q = q

Gives-any {ℓ} : {A : Type ℓ} (m : Parsed A) → Gives (λ a. Unit {0}) m
Gives-any (Parsed.parsed a) = tt
Gives-any (Parsed.bad e) = tt

-- A cookie that a decoder can be made for, each field in its width.
abbrev pub IsUsable : Config → Type 0
IsUsable cfg =
    ((cfg.frame_length ≢ 0) × (cfg.frame_length < 2 ^ 32))
    × ((cfg.num_channels ≢ 0) × (cfg.num_channels < 2 ^ 8))
    × (cfg.bit_depth < 2 ^ 8)
    × (cfg.compatible_version < 2 ^ 8)
    × ((cfg.pb < 2 ^ 8) × (cfg.mb < 2 ^ 8) × (cfg.kb < 2 ^ 8))
    × (cfg.max_run < 2 ^ 16)
    × ((cfg.max_frame_bytes < 2 ^ 32) × (cfg.avg_bit_rate < 2 ^ 32) × (cfg.sample_rate < 2 ^ 32))

check_config-IsUsable : (n : List ℕ) → Gives IsUsable (check_config (config_of n))
unfolding check_config config_of
check_config-IsUsable n = ground arith

pub parse_fmtp-IsUsable : (rest : Text) → Gives IsUsable (parse_fmtp rest)
unfolding parse_fmtp
parse_fmtp-IsUsable rest =
    let f = fields rest in
    elim (Bool-cases (length f == 12)) [
      | inr e ↦ rw e tt
      | inl e ↦ rw e (
          Gives-bind (λ n. Unit {0}) IsUsable (parse_fields 0 (drop 1 f))
            (λ n. check_config (config_of n)) (Gives-any (parse_fields 0 (drop 1 f)))
            (λ n _. check_config-IsUsable n))
    ]

abbrev pub HasKeySize : List ℕ → Type 0
HasKeySize bytes = length bytes ≡ 16

abbrev IsOptional : Option (List ℕ) → Type 0
IsOptional none = Unit
IsOptional (some bytes) = HasKeySize bytes

of_16_bytes_size : (e : SdpError) (o : Option (List ℕ)) → Gives HasKeySize (of_16_bytes e o)
of_16_bytes_size e none = tt
of_16_bytes_size e (some bytes) = ground arith

abbrev IsSound : Progress → Type 0
IsSound p =
    (p.saw_fmtp ≡ true → IsUsable p.sdp.config) × IsOptional p.sdp.session_key × IsOptional p.sdp.iv

module _ (decrypt_oaep : List ℕ → Option (List ℕ)) where
  attribute-IsSound :
      (p : Progress) (key rest : Text)
      → IsSound p
      → Gives IsSound (attribute decrypt_oaep p key rest)
  unfolding attribute
  attribute-IsSound p key rest (cfg, k, iv) =
      Gives-if IsSound (same key (codes "fmtp")) _ _
        (Gives-bind IsUsable IsSound (parse_fmtp rest) _ (parse_fmtp-IsUsable rest)
          (λ c u. (λ _. u, k, iv)))
        (Gives-if IsSound (same key (codes "rsaaeskey")) _ _
          (Gives-bind HasKeySize IsSound (session_key decrypt_oaep rest) _
            (of_16_bytes_size SdpError.bad_key (unwrapped decrypt_oaep (decode_b64 rest)))
            (λ bytes size. (cfg, size, iv)))
          (Gives-if IsSound (same key (codes "aesiv")) _ _
            (Gives-bind HasKeySize IsSound (session_iv rest) _
              (of_16_bytes_size SdpError.bad_iv (decode_b64 rest)) (λ bytes size. (cfg, k, size)))
            (Gives-if IsSound (same key (codes "min-latency")) _ _ (cfg, k, iv)
              (Gives-if IsSound (same key (codes "max-latency")) _ _ (cfg, k, iv)
                (Gives-if IsSound (same key (codes "rtpmap")) _ _
                  (Gives-if IsSound (contains rest (codes "AppleLossless")) _ _ (cfg, k, iv) tt)
                  (cfg, k, iv))))))

  cut_attribute-IsSound :
      (p : Progress) (parts : Option (Text × Text))
      → IsSound p
      → Gives IsSound (cut_attribute decrypt_oaep p parts)
  cut_attribute-IsSound p none h = h
  cut_attribute-IsSound p (some (key, rest)) h = attribute-IsSound p key rest h

  read_line-IsSound :
      (p : Progress) (line : Text) → IsSound p → Gives IsSound (read_line decrypt_oaep p line)
  read_line-IsSound p [] h = h
  read_line-IsSound p (kind ∷ []) h = h
  read_line-IsSound p (kind ∷ eq ∷ val) h = Gives-if IsSound (not (eq == b'=')) _ _ h (
      Gives-if IsSound (kind == b'i') _ _ h
        (Gives-if IsSound (kind == b'a') _ _ (cut_attribute-IsSound p (cut b':' val) h) h))

  read_lines-IsSound :
      (p : Progress) (lines : List Text)
      → IsSound p
      → Gives IsSound (read_lines decrypt_oaep p lines)
  read_lines-IsSound p [] h = h
  read_lines-IsSound p (raw ∷ lines) h =
      let line : Text = trim_right (λ c. c == 13) raw in
      Gives-bind IsSound IsSound (read_line decrypt_oaep p line)
        (λ q. read_lines decrypt_oaep q lines) (read_line-IsSound p line h)
        (λ q. read_lines-IsSound q lines)

-- The key and the IV of a session: both there, or neither.
abbrev pub IsPaired : Option (List ℕ) → Option (List ℕ) → Type 0
IsPaired none none = Unit
IsPaired (some k) (some iv) = HasKeySize k × HasKeySize iv
IsPaired none (some iv) = ⊥
IsPaired (some k) none = ⊥

abbrev pub IsAccepted : Sdp → Type 0
IsAccepted s = IsUsable s.config × IsPaired s.session_key s.iv

both_or_neither-IsAccepted :
    (s : Sdp) (k iv : Option (List ℕ))
    → s.session_key ≡ k
    → s.iv ≡ iv
    → IsUsable s.config
    → IsOptional k
    → IsOptional iv
    → Gives IsAccepted (both_or_neither s k iv)
both_or_neither-IsAccepted s none none e f u p q = (u, rw (e, f) tt)
both_or_neither-IsAccepted s (some k) (some iv) e f u p q = (u, rw (e, f) (p, q))
both_or_neither-IsAccepted s none (some iv) e f u p q = tt
both_or_neither-IsAccepted s (some k) none e f u p q = tt

finish-IsAccepted : (p : Progress) → IsSound p → Gives IsAccepted (finish p)
unfolding finish
finish-IsAccepted p (cfg, k, iv) = elim (Bool-cases p.saw_fmtp) [
  | inl e ↦
      rw e (both_or_neither-IsAccepted p.sdp p.sdp.session_key p.sdp.iv refl refl (cfg e) k iv)
  | inr e ↦ rw e tt
]

-- A body that is accepted has a cookie with a frame length and channels that are not zero, each
-- field within its width, and either no key and no IV, or both, of 16 bytes each.
pub parse_sdp-IsAccepted :
    (decrypt_oaep : List ℕ → Option (List ℕ)) (body : Text)
    → Gives IsAccepted (parse_sdp decrypt_oaep body)
unfolding parse_sdp no_sdp
parse_sdp-IsAccepted decrypt_oaep body =
    let start : Progress = record { sdp = no_sdp; saw_fmtp = false } in
    Gives-bind IsSound IsAccepted (read_lines decrypt_oaep start (split 10 body)) finish
      (read_lines-IsSound decrypt_oaep start (split 10 body)
        ((λ e. absurd (true≢false (sym e))), tt, tt))
      finish-IsAccepted
