-- ===== src/Alac/Decoder.antt =====
-- internal/alac/decoder.go: one frame to samples.
--
-- The decoder's scratch buffers are written before they are read in every frame, as far as they are
-- read, so they are values here; so are the two sets of coefficients, which `readCoefs` fills. The
-- low-order bits of a shifted frame are read into `shift`, which nothing reads: the reader only
-- steps over them. `out` is the slice that the samples are written to; an index out of it panics.
pub mod Shape
pub mod Loop
pub mod Mix
use sonospoof.Base.{
  ℕ, zero, suc, ◌+◌, ◌-◌, ◌*◌, ◌/◌, ◌%◌, ◌^◌, Bool, ◌&&◌, ◌||◌, List, [], ◌∷◌, ◌==◌, ltb,
  if◌then◌else◌, length, get_or, set, take, drop, replicate, u16, u32, add32, sub32, mul32, sar32,
  ◌++◌,
}
use sonospoof.Alac.Result.{
  Result, ok, err, panic, ◌>>=◌, truncated, bad_element, bad_shift, frame_too_long, bad_depth,
}
use sonospoof.Alac.Bits.{BitBuffer, new_bit_buffer, read, advance, byte_align, exhausted}
use sonospoof.Alac.Golomb.{AgParams, set_ag_params, dyn_decomp}
use sonospoof.Alac.Predictor.{unpc_block, narrow}

-- `Config`
pub record Config : Type 0 where
  pub frame_length : ℕ
  pub compatible_version : ℕ
  pub bit_depth : ℕ
  pub pb : ℕ
  pub mb : ℕ
  pub kb : ℕ
  pub num_channels : ℕ
  pub max_run : ℕ
  pub max_frame_bytes : ℕ
  pub avg_bit_rate : ℕ
  pub sample_rate : ℕ

-- What `readCoefs` returns, and the coefficients that it fills in.
pub record Coefs : Type 0 where
  pub mode : ℕ
  pub den_shift : ℕ
  pub num : ℕ
  pub pb_factor : ℕ
  pub coefs : List ℕ

pub read_list : ℕ → ℕ → BitBuffer → List ℕ × BitBuffer
read_list n zero b = ([], b)
read_list n (suc left) b =
    let (v, b') = read n b in let (vs, b'') = read_list n left b' in (v ∷ vs, b'')

pub read_coefs : BitBuffer → Coefs × BitBuffer
read_coefs b =
    let (h, b₁) = read 8 b in
    let (g, b₂) = read 8 b₁ in
    let (cs, b₃) = read_list 16 (g % 2 ^ 5) b₂ in
    (
      record {
        mode = h / 2 ^ 4;
        den_shift = h % 2 ^ 4;
        num = g % 2 ^ 5;
        pb_factor = g / 2 ^ 5;
        coefs = cs;
      },
      b₃,
    )

-- The predictor in `channel`; a mode other than 0 runs first-order deltas before it.
pub predict : Coefs → ℕ → List ℕ → Result (List ℕ)
predict c chan_bits residuals = do
  first ← if c.mode == 0 then ok residuals else first_order
  (samples, _) ← unpc_block first c.coefs c.num chan_bits c.den_shift
  ok samples
  where
    first_order : Result (List ℕ)
    first_order = do (deltas, _) ← unpc_block residuals [] 31 chan_bits 0; ok deltas

-- `channel`
pub channel : Config → BitBuffer → ℕ → ℕ → Coefs → Result (List ℕ × BitBuffer)
channel cfg bits num_samples chan_bits c = do
  (residuals, bits') ← dyn_decomp params bits num_samples chan_bits
  samples ← predict c chan_bits residuals
  ok (samples, bits')
  where
    params : AgParams
    params =
        set_ag_params cfg.mb (u32 (cfg.pb * c.pb_factor) / 4) cfg.kb num_samples num_samples
          cfg.max_run

-- One step of `unmix16`, from matrix_dec.c.
pub unmix : ℕ → ℕ → ℕ → ℕ → ℕ × ℕ
unmix mix_bits mix_res u v =
    let l = sub32 (add32 u v) (sar32 (mul32 mix_res v) mix_bits) in
    if mix_res == 0 then (u16 u, u16 v) else (u16 l, u16 (sub32 l v))

-- A write to `out`.
pub put : List ℕ → ℕ → ℕ → Result (List ℕ)
put out i v = if ltb i (length out) then ok (set out i v) else panic

pub unmix16 : ℕ → ℕ → ℕ → ℕ → List ℕ → List ℕ → List ℕ → Result (List ℕ)
unmix16 mix_bits mix_res stride at [] vs out = ok out
unmix16 mix_bits mix_res stride at (u ∷ us) [] out = ok out
unmix16 mix_bits mix_res stride at (u ∷ us) (v ∷ vs) out = do
  let (l, r) = unmix mix_bits mix_res u v
  out' ← put out at l
  out'' ← put out' (at + 1) r
  unmix16 mix_bits mix_res stride (at + stride) us vs out''

pub copy_mono : ℕ → ℕ → List ℕ → List ℕ → Result (List ℕ)
copy_mono stride at [] out = ok out
copy_mono stride at (u ∷ us) out = do
  out' ← put out at (u16 u)
  copy_mono stride (at + stride) us out'

-- The raw samples of an escaped frame, of one channel or of two in turn.
pub read_raw : ℕ → ℕ → BitBuffer → List ℕ × List ℕ × BitBuffer
read_raw chans zero b = ([], [], b)
read_raw chans (suc left) b =
    let (u, b₁) = read 16 b in
    let (v, b₂) = read 16 b₁ in
    let (us, vs, b₃) = read_raw chans left (if chans == 2 then b₂ else b₁) in
    (narrow 16 u ∷ us, narrow 16 v ∷ vs, b₃)

-- The head of an element.
pub record Head : Type 0 where
  pub bytes_shifted : ℕ
  pub escape : ℕ
  pub num_samples : ℕ

-- The fields of the header byte.
pub head_of : ℕ → ℕ → Head
head_of h n = record { bytes_shifted = h / 2 % 4; escape = h % 2; num_samples = n }

pub read_head : Config → BitBuffer → Result (Head × BitBuffer)
read_head cfg b =
    let (_, b₁) = read 4 b in
    let (_, b₂) = read 12 b₁ in
    let (h, b₃) = read 4 b₂ in
    let (hi, b₄) = read 16 b₃ in
    let (lo, b₅) = read 16 b₄ in
    let partial = u32 (hi * 2 ^ 16) + lo in
    if h / 2 % 4 == 3
    then err bad_shift
    else if h / 2 ^ 3 == 0
    then ok (head_of h cfg.frame_length, b₃)
    else if ltb cfg.frame_length partial
    then err frame_too_long
    else ok (head_of h partial, b₅)

-- The channels of a compressed element: how they are mixed, and their samples.
pub record Mixed : Type 0 where
  pub mix_bits : ℕ
  pub mix_res : ℕ
  pub us : List ℕ
  pub vs : List ℕ

-- `int32(int8(x))`
pub sign_extend8 : ℕ → ℕ
sign_extend8 x = if ltb x (2 ^ 7) then x else x + (2 ^ 32 - 2 ^ 8)

pub compressed : Config → Head → ℕ → BitBuffer → Result (Mixed × BitBuffer)
compressed cfg h chans b = do
  let (mix_bits, b₁) = read 8 b
  let (mix_res, b₂) = read 8 b₁
  let (cu, b₃) = read_coefs b₂
  let (cv, b₄) = if chans == 2 then read_coefs b₃ else (cu, b₃)
  let bits = sub32 cfg.bit_depth (h.bytes_shifted * 8)
  let chan_bits = if chans == 2 then add32 bits 1 else bits
  let b₅ =
      if h.bytes_shifted == 0 then b₄ else advance (h.bytes_shifted * 8 * chans * h.num_samples) b₄
  (us, b₆) ← channel cfg b₅ h.num_samples chan_bits cu
  (vs, b₇) ← if chans == 2 then channel cfg b₆ h.num_samples chan_bits cv else ok ([], b₆)
  ok (record { mix_bits = mix_bits; mix_res = sign_extend8 mix_res; us = us; vs = vs }, b₇)

pub uncompressed : Head → ℕ → BitBuffer → Mixed × BitBuffer
uncompressed h chans b =
    let (us, vs, b') = read_raw chans h.num_samples b in
    (record { mix_bits = 0; mix_res = 0; us = us; vs = vs }, b')

-- The samples go to `out[channel_index:]`; the slice itself panics behind the end.
pub emit : Config → ℕ → ℕ → Mixed → List ℕ → Result (List ℕ)
emit cfg channel_index chans m out =
    if chans == 2
    then (if ltb (length out) channel_index
        then panic
        else unmix16 m.mix_bits m.mix_res cfg.num_channels channel_index m.us m.vs out)
    else copy_mono cfg.num_channels channel_index m.us out

-- `decodeElement`: the number of samples, `out`, and the reader.
pub decode_element : Config → BitBuffer → List ℕ → ℕ → ℕ → Result (ℕ × List ℕ × BitBuffer)
decode_element cfg b out channel_index chans = do
  (h, b₁) ← read_head cfg b
  (m, b₂) ← if h.escape == 0 then compressed cfg h chans b₁ else ok (uncompressed h chans b₁)
  out' ← emit cfg channel_index chans m out
  ok (h.num_samples, out', b₂)

-- The loop of `Decode` over the elements of a frame: a mono or a stereo element has the tag 0 or 1,
-- and the end has the tag 7. The second part is `out` as it is left, also after an error.
pub decode_loop : ℕ → Config → BitBuffer → List ℕ → ℕ → ℕ → Result ℕ × List ℕ
decode_loop zero cfg b out channel_index num_samples = (err truncated, out)
decode_loop (suc fuel) cfg b out channel_index num_samples =
    let (tag, b₁) = read 3 b in
    let pairs = tag + 1 in
    let next : Result ℕ × List ℕ = elim (decode_element cfg b₁ out channel_index pairs) [
      | ok (n, out', b₂) ↦
          let further = decode_loop fuel cfg b₂ out' (channel_index + pairs) n in
          if exhausted b₂ then (err truncated, out') else further
      | err e ↦ (err e, out)
      | panic ↦ (panic, out)
    ] in
    if ltb tag 2 then next else if tag == 7 then (ok num_samples, out) else (err bad_element, out)

-- `Decode`. An element takes bits, and the loop ends behind the last bit.
pub decode : Config → List ℕ → List ℕ → Result ℕ × List ℕ
decode cfg frame out =
    if cfg.bit_depth == 16
    then decode_loop (length frame * 8 + 1) cfg (new_bit_buffer frame) out 0 0
    else (err bad_depth, out)
