-- ===== src/Alac/Decoder/Shape.antt =====
-- What every successful step of the decoder keeps: the reader moves forward in its buffer, `out`
-- keeps its size, and no more samples are announced than the configuration allows.
use sonospoof.Base.{
  ℕ, zero, suc, ◌+◌, ◌-◌, ◌*◌, ◌/◌, ◌%◌, ◌^◌, ◌≤◌, ◌≡◌, refl, ◌∙◌, Bool, true, false, List, [], ◌∷◌,
  arith, length, length-set, if◌then◌else◌, ltb, ◌==◌, Bool-cases, inl, inr, ltb→le, subst, u32,
  sub32, add32,
}
use sonospoof.Alac.Result.{Result, ok, err, panic, Yields, >>=-Yields, Yields-any}
use sonospoof.Alac.Bits.{BitBuffer, read_short, read, advance}
use sonospoof.Alac.Golomb.{AgParams, dyn_decomp}
use sonospoof.Alac.Golomb.Total.{Decodes, dyn_decomp-Decodes}
use sonospoof.Alac.Decoder.{
  Config, Coefs, Head, Mixed, read_list, read_coefs, predict, channel, put, unmix16, copy_mono,
  read_raw, head_of, read_head, compressed, uncompressed, emit, decode_element,
}

-- A reader of the same buffer, at the same position or behind it.
pub record Forward (b b' : BitBuffer) : Type 0 where
  pub same : b'.buf ≡ b.buf
  pub behind : b.pos ≤ b'.pos

stay : (b : BitBuffer) → Forward b b
stay b = record { same = refl; behind = omega arith }

on : {a b c : BitBuffer} → Forward a b → Forward b c → Forward a c
on f g = record { same = g.same ∙ f.same; behind = omega (arith, f.behind, g.behind) }

read_short-Forward : (n : ℕ) (b : BitBuffer) → Forward b (read_short n b).1
unfolding read_short
read_short-Forward n b = elim (Bool-cases (n == 0)) [
  | inl none_asked ↦ rw none_asked (stay b)
  | inr some_asked ↦ rw some_asked (record { same = refl; behind = omega arith })
]

pub read-Forward : (n : ℕ) (b : BitBuffer) → Forward b (read n b).1
unfolding read
read-Forward n b =
    let b' : BitBuffer = (read_short (n - 16) b).1 in
    elim (Bool-cases (ltb 16 n)) [
      | inl long ↦ rw long (on (read_short-Forward (n - 16) b) (read_short-Forward 16 b'))
      | inr short ↦ rw short (read_short-Forward n b)
    ]

read_list-Forward : (n k : ℕ) (b : BitBuffer) → Forward b (read_list n k b).1
unfolding read_list
read_list-Forward n zero b = stay b
read_list-Forward n (suc k) b = on (read-Forward n b) (read_list-Forward n k (read n b).1)

read_coefs-Forward : (b : BitBuffer) → Forward b (read_coefs b).1
unfolding read_coefs
read_coefs-Forward b =
    let b₁ : BitBuffer = (read 8 b).1 in
    let b₂ : BitBuffer = (read 8 b₁).1 in
    on (read-Forward 8 b) (on (read-Forward 8 b₁) (read_list-Forward 16 ((read 8 b₁).0 % 2 ^ 5) b₂))

advance-Forward : (n : ℕ) (b : BitBuffer) → Forward b (advance n b)
unfolding advance
advance-Forward n b = record { same = refl; behind = omega arith }

read_raw-Forward : (chans k : ℕ) (b : BitBuffer) → Forward b (read_raw chans k b).2
unfolding read_raw
read_raw-Forward chans zero b = stay b
read_raw-Forward chans (suc k) b =
    let b₁ : BitBuffer = (read 16 b).1 in
    let b₂ : BitBuffer = (read 16 b₁).1 in
    elim (Bool-cases (chans == 2)) [
      | inl pair ↦
          rw pair (on (read-Forward 16 b) (on (read-Forward 16 b₁) (read_raw-Forward chans k b₂)))
      | inr alone ↦ rw alone (on (read-Forward 16 b) (read_raw-Forward chans k b₁))
    ]

dyn_decomp-Yields :
    (p : AgParams) (b : BitBuffer) (n size : ℕ)
    → Yields (λ (r : List ℕ × BitBuffer). Forward b r.1) (dyn_decomp p b n size)
dyn_decomp-Yields p b n size = from_Decodes (dyn_decomp p b n size) (dyn_decomp-Decodes p b n size)
  where
    from_Decodes :
        (m : Result (List ℕ × BitBuffer))
        → Decodes b n m
        → Yields (λ (r : List ℕ × BitBuffer). Forward b r.1) m
    from_Decodes (ok r) d = record { same = d.1; behind = d.2 }
    from_Decodes (err e) d = tt
    from_Decodes panic d = tt

channel-Yields :
    (cfg : Config) (b : BitBuffer) (n size : ℕ) (c : Coefs)
    → Yields (λ (r : List ℕ × BitBuffer). Forward b r.1) (channel cfg b n size c)
unfolding channel
channel-Yields cfg b n size c =
    >>=-Yields (λ (r : List ℕ × BitBuffer). Forward b r.1)
      (λ (r : List ℕ × BitBuffer). Forward b r.1) _ _ (dyn_decomp-Yields _ b n size)
      (λ r fwd.
        >>=-Yields (λ x. Unit {0}) (λ (r : List ℕ × BitBuffer). Forward b r.1) (predict c size r.0)
          (λ samples. ok (samples, r.1)) (Yields-any (predict c size r.0)) (λ samples any. fwd))

put-Yields :
    (out : List ℕ) (i v : ℕ) → Yields (λ (out' : List ℕ). length out' ≡ length out) (put out i v)
unfolding put
put-Yields out i v = elim (Bool-cases (ltb i (length out))) [
  | inl inside ↦ rw inside (length-set out i v)
  | inr outside ↦ rw outside tt
]

abbrev Sized : List ℕ → List ℕ → Type 0
Sized out out' = length out' ≡ length out

copy_mono-Yields :
    (stride at : ℕ) (us out : List ℕ) → Yields (Sized out) (copy_mono stride at us out)
unfolding copy_mono
copy_mono-Yields stride at [] out = refl
copy_mono-Yields stride at (u ∷ us) out =
    >>=-Yields (Sized out) (Sized out) _ _ (put-Yields out at _) (λ out' e.
      subst (λ k. Yields (λ (o : List ℕ). length o ≡ k) (copy_mono stride (at + stride) us out')) e
        (copy_mono-Yields stride (at + stride) us out'))

unmix16-Yields :
    (mix_bits mix_res stride at : ℕ) (us vs out : List ℕ)
    → Yields (Sized out) (unmix16 mix_bits mix_res stride at us vs out)
unfolding unmix16
unmix16-Yields mix_bits mix_res stride at [] vs out = refl
unmix16-Yields mix_bits mix_res stride at (u ∷ us) [] out = refl
unmix16-Yields mix_bits mix_res stride at (u ∷ us) (v ∷ vs) out =
    >>=-Yields (Sized out) (Sized out) _ _ (put-Yields out at _) (λ out' e.
      >>=-Yields (Sized out') (Sized out) _ _ (put-Yields out' (at + 1) _) (λ out'' e'.
        subst
          (λ k.
            Yields (λ (o : List ℕ). length o ≡ k)
              (unmix16 mix_bits mix_res stride (at + stride) us vs out''))
          (e' ∙ e) (unmix16-Yields mix_bits mix_res stride (at + stride) us vs out'')))

emit-Yields :
    (cfg : Config) (channel_index chans : ℕ) (m : Mixed) (out : List ℕ)
    → Yields (Sized out) (emit cfg channel_index chans m out)
unfolding emit
emit-Yields cfg channel_index chans m out = elim (Bool-cases (chans == 2)) [
  | inl pair ↦ rw pair (elim (Bool-cases (ltb (length out) channel_index)) [
    | inl over ↦ rw over tt
    | inr inside ↦
        rw inside (unmix16-Yields m.mix_bits m.mix_res cfg.num_channels channel_index m.us m.vs out)
  ])
  | inr alone ↦ rw alone (copy_mono-Yields cfg.num_channels channel_index m.us out)
]

-- The head of an element announces at most a full frame.
abbrev Announces : Config → BitBuffer → Head × BitBuffer → Type 0
Announces cfg b r = (r.0.num_samples ≤ cfg.frame_length) × Forward b r.1

read_head-Yields : (cfg : Config) (b : BitBuffer) → Yields (Announces cfg b) (read_head cfg b)
unfolding read_head head_of
read_head-Yields cfg b =
    let b₁ : BitBuffer = (read 4 b).1 in
    let b₂ : BitBuffer = (read 12 b₁).1 in
    let b₃ : BitBuffer = (read 4 b₂).1 in
    let b₄ : BitBuffer = (read 16 b₃).1 in
    let b₅ : BitBuffer = (read 16 b₄).1 in
    let h : ℕ = (read 4 b₂).0 in
    let partial : ℕ = u32 ((read 16 b₃).0 * 2 ^ 16) + (read 16 b₄).0 in
    let head = on (read-Forward 4 b) (on (read-Forward 12 b₁) (read-Forward 4 b₂)) in
    elim (Bool-cases (h / 2 % 4 == 3)) [
      | inl bad ↦ rw bad tt
      | inr good ↦ rw good (elim (Bool-cases (h / 2 ^ 3 == 0)) [
        | inl full ↦ rw full (omega arith, head)
        | inr part ↦ rw part (elim (Bool-cases (ltb cfg.frame_length partial)) [
          | inl long ↦ rw long tt
          | inr fits ↦ rw fits (
            ltb→le cfg.frame_length partial fits,
            on head (on (read-Forward 16 b₃) (read-Forward 16 b₄)),
          )
        ])
      ])
    ]

abbrev Read : {A : Type 0} → BitBuffer → A × BitBuffer → Type 0
Read b r = Forward b r.1

compressed-Yields :
    (cfg : Config) (h : Head) (chans : ℕ) (b : BitBuffer)
    → Yields (Read b) (compressed cfg h chans b)
unfolding compressed
compressed-Yields cfg h chans b =
    let b₁ : BitBuffer = (read 8 b).1 in
    let b₂ : BitBuffer = (read 8 b₁).1 in
    let (cu, b₃) : Coefs × BitBuffer = read_coefs b₂ in
    let (cv, b₄) : Coefs × BitBuffer = if chans == 2 then read_coefs b₃ else (cu, b₃) in
    let b₅ : BitBuffer =
      if h.bytes_shifted == 0
      then b₄
      else advance (h.bytes_shifted * 8 * chans * h.num_samples) b₄ in
    let bits : ℕ = sub32 cfg.bit_depth (h.bytes_shifted * 8) in
    let chan_bits : ℕ = if chans == 2 then add32 bits 1 else bits in
    let head = on (read-Forward 8 b) (on (read-Forward 8 b₁) (read_coefs-Forward b₂)) in
    let fwd₄ : Forward b₃ b₄ = second (chans == 2) cu b₃ in
    let fwd₅ : Forward b₄ b₅ = shifted (h.bytes_shifted == 0) _ b₄ in
    >>=-Yields (Read b₅) (Read b) (channel cfg b₅ h.num_samples chan_bits cu) _
      (channel-Yields cfg b₅ h.num_samples chan_bits cu)
      (λ (us, b₆) fwd₆.
        >>=-Yields (Read b₆) (Read b)
          (if chans == 2 then channel cfg b₆ h.num_samples chan_bits cv else ok ([], b₆)) _
          (other (chans == 2) b₆ _ (channel-Yields cfg b₆ h.num_samples chan_bits cv))
          (λ (vs, b₇) fwd₇. on head (on fwd₄ (on fwd₅ (on fwd₆ fwd₇)))))
  where
    second :
        (pair : Bool) (cu : Coefs) (b : BitBuffer)
        → Forward b (if pair then read_coefs b else (cu, b)).1
    second true cu b = read_coefs-Forward b
    second false cu b = stay b

    shifted :
        (unshifted : Bool) (n : ℕ) (b : BitBuffer)
        → Forward b (if unshifted then b else advance n b)
    shifted true n b = stay b
    shifted false n b = advance-Forward n b

    other :
        (pair : Bool) (b : BitBuffer) (m : Result (List ℕ × BitBuffer))
        → Yields (Read b) m
        → Yields (Read b) (if pair then m else ok ([], b))
    other true b m y = y
    other false b m y = stay b

uncompressed-Read : (h : Head) (chans : ℕ) (b : BitBuffer) → Read b (uncompressed h chans b)
unfolding uncompressed
uncompressed-Read h chans b = read_raw-Forward chans h.num_samples b

-- An element: its samples, and how far the reader and `out` have come.
abbrev pub Decoded : Config → BitBuffer → List ℕ → ℕ × List ℕ × BitBuffer → Type 0
Decoded cfg b out (n, out', b') = (n ≤ cfg.frame_length) × (length out' ≡ length out) × Forward b b'

pub decode_element-Yields :
    (cfg : Config) (b : BitBuffer) (out : List ℕ) (channel_index chans : ℕ)
    → Yields (Decoded cfg b out) (decode_element cfg b out channel_index chans)
unfolding decode_element
decode_element-Yields cfg b out channel_index chans =
    >>=-Yields (Announces cfg b) (Decoded cfg b out) (read_head cfg b) _ (read_head-Yields cfg b)
      (λ (h, b₁) (fits, fwd₁).
        >>=-Yields (Read b₁) (Decoded cfg b out) (content h b₁) _ (content-Yields h b₁)
          (λ (m, b₂) fwd₂.
            >>=-Yields (Sized out) (Decoded cfg b out) (emit cfg channel_index chans m out) _
              (emit-Yields cfg channel_index chans m out)
              (λ out' same. (fits, same, on fwd₁ fwd₂))))
  where
    content : Head → BitBuffer → Result (Mixed × BitBuffer)
    content h b₁ = if h.escape == 0 then compressed cfg h chans b₁ else ok (uncompressed h chans b₁)

    content-Yields : (h : Head) (b₁ : BitBuffer) → Yields (Read b₁) (content h b₁)
    content-Yields h b₁ = elim (Bool-cases (h.escape == 0)) [
      | inl packed ↦ rw packed (compressed-Yields cfg h chans b₁)
      | inr raw ↦ rw raw (uncompressed-Read h chans b₁)
    ]
