-- ===== src/Alac/Golomb.antt =====
-- internal/alac/ag.go: the adaptive Golomb decoder, in 32-bit arithmetic that wraps.
pub mod Lead
pub mod Total
use sonospoof.Base.{
  ℕ, zero, suc, ◌+◌, ◌-◌, ◌*◌, ◌/◌, ◌%◌, ◌^◌, Bool, ◌&&◌, List, [], ◌∷◌, ◌++◌, ◌==◌, ltb, leb,
  if◌then◌else◌, length, replicate, u32, add32, sub32, mul32, neg32, not32, shl32, shr32, bit_and,
  bit_or,
}
use sonospoof.Alac.Result.{Result, ok, err, truncated, corrupt_run, ◌>>=◌}
use sonospoof.Alac.Bits.{BitBuffer, byte_at, position, advance}

-- `agParams`
pub record AgParams : Type 0 where
  pub mb : ℕ
  pub mb0 : ℕ
  pub pb : ℕ
  pub kb : ℕ
  pub wb : ℕ
  pub qbv : ℕ
  pub fw : ℕ
  pub sw : ℕ
  pub maxrun : ℕ

-- `setAGParams`; 512 is `qb`.
pub set_ag_params : ℕ → ℕ → ℕ → ℕ → ℕ → ℕ → AgParams
set_ag_params m pbv k f s maxrun = record {
  mb = m;
  mb0 = m;
  pb = pbv;
  kb = k;
  wb = sub32 (shl32 1 k) 1;
  qbv = sub32 512 pbv;
  fw = f;
  sw = s;
  maxrun = maxrun;
}

-- The loop of `lead`: `c` has one bit set, and `c & m` is not zero where that bit of `m` is set.
pub lead_loop : ℕ → ℕ → ℕ → ℕ → ℕ
lead_loop zero j c m = 32
lead_loop (suc left) j c m =
    let further = lead_loop left (j + 1) (c / 2) m in if m / c % 2 == 1 then j else further

pub lead : ℕ → ℕ
lead m = lead_loop 32 0 (2 ^ 31) m

pub lg3a : ℕ → ℕ
lg3a x = sub32 31 (lead (add32 x 3))

-- `read32bit`: the loop adds each byte behind the ones before it.
pub read32bit : List ℕ → ℕ → ℕ
read32bit buf off =
    u32 (
      u32 (u32 (byte_at buf off * 2 ^ 8 + byte_at buf (off + 1)) * 2 ^ 8 + byte_at buf (off + 2))
      * 2 ^ 8)
    + byte_at buf (off + 3)

pub get_next_from_long : ℕ → ℕ → ℕ
get_next_from_long inlong suff = if suff == 0 then 0 else shr32 inlong (sub32 32 suff)

-- `x &^ (0xffffffff << n)`
pub clear_above : ℕ → ℕ → ℕ
clear_above x n = if ltb n 32 then x % 2 ^ n else x

pub get_stream_bits : List ℕ → ℕ → ℕ → ℕ
get_stream_bits buf bitoffset numbits =
    let load1 = read32bit buf (bitoffset / 8) in
    let shift = bitoffset % 8 in
    let load2 =
      shr32 (byte_at buf (bitoffset / 8 + 4)) (sub32 8 (sub32 (add32 numbits shift) 32)) in
    let wide = bit_or (shr32 (shl32 load1 shift) (sub32 32 numbits)) load2 in
    let narrow = shr32 load1 (sub32 (sub32 32 numbits) shift) in
    let result = if ltb 32 (add32 numbits shift) then wide else narrow in
    if numbits == 32 then result else clear_above result numbits

-- The 32 bits of the stream from a bit position on.
pub stream_long : List ℕ → ℕ → ℕ
stream_long buf pos = shl32 (read32bit buf (pos / 8)) (pos % 8)

-- `dynGet`: the value and the new position. 9 is `maxPrefix16`, 16 `maxDatatypeBits16`.
pub dyn_get : List ℕ → ℕ → ℕ → ℕ → ℕ × ℕ
dyn_get buf pos m k =
    let stream = stream_long buf pos in
    let pre = lead (not32 stream) in
    let v = get_next_from_long (shl32 stream (pre + 1)) k in
    let result = sub32 (add32 (mul32 pre m) v) 1 in
    if leb 9 pre
    then (get_next_from_long (shl32 stream 9) 16, pos + 9 + 16)
    else if ltb v 2
    then (sub32 result (sub32 v 1), pos + (pre + 1) + k - 1)
    else (result, pos + (pre + 1) + k)

-- `dynGet32bit`; 9 is `maxPrefix32`. The position is an int: it has grown by one or more before
-- `k - 1` is added.
pub dyn_get32bit : List ℕ → ℕ → ℕ → ℕ → ℕ → ℕ × ℕ
dyn_get32bit buf pos m k maxbits =
    let stream = stream_long buf pos in
    let pre = lead (not32 stream) in
    let v = get_next_from_long (shl32 stream (pre + 1)) k in
    let low = pos + (pre + 1) + k - 1 in
    if leb 9 pre
    then (get_stream_bits buf (pos + 9) maxbits, pos + (9 + maxbits))
    else if k == 1
    then (pre, pos + (pre + 1))
    else if leb 2 v
    then (add32 (mul32 pre m) (sub32 v 1), low + 1)
    else (mul32 pre m, low)

-- The variables of the loop of `dynDecomp`: the residuals written so far, latest last.
pub record Decomp : Type 0 where
  pub pos : ℕ
  pub mean : ℕ
  pub zmode : ℕ
  pub pc : List ℕ

-- A residual from its code: the lowest bit is the sign.
pub residual : ℕ → ℕ
residual ndecode = let half = add32 ndecode 1 / 2 in if ndecode % 2 == 1 then neg32 half else half

module _ (p : AgParams) (buf : List ℕ) (num_samples max_size : ℕ) where
  -- The first half of the loop body: one residual, and the new mean.
  pub one_sample : Decomp → Decomp
  one_sample s =
      let k₀ = lg3a (s.mean / 2 ^ 9) in
      let k = if ltb p.kb k₀ then p.kb else k₀ in
      let (n, pos) = dyn_get32bit buf s.pos (sub32 (shl32 1 k) 1) k max_size in
      let ndecode = add32 n s.zmode in
      let mean = sub32 (add32 (mul32 p.pb ndecode) s.mean) (mul32 p.pb s.mean / 2 ^ 9) in
      record {
        pos = pos;
        mean = if ltb 0xffff n then 0xffff else mean;
        zmode = 0;
        pc = s.pc ++ residual ndecode ∷ [];
      }

  -- The second half: a run of zeros where the mean has become small.
  pub zero_run : Decomp → Result Decomp
  zero_run s =
      let k = add32 (sub32 (lead s.mean) 24) (add32 s.mean 16 / 2 ^ 6) in
      let mz = bit_and (sub32 (shl32 1 k) 1) p.wb in
      let (n, pos) = dyn_get buf s.pos mz k in
      if ltb (shl32 s.mean 2) 512 && ltb (length s.pc) num_samples
      then (if ltb num_samples (length s.pc + n)
          then err corrupt_run
          else ok (record {
            pos = pos;
            mean = 0;
            zmode = if leb 65535 n then 0 else 1;
            pc = s.pc ++ replicate n 0;
          }))
      else ok s

  -- The loop. Each round writes a residual, so that as many rounds as samples are enough.
  pub decomp_loop : ℕ → Decomp → Result Decomp
  decomp_loop zero s = ok s
  decomp_loop (suc fuel) s =
      let next = zero_run (one_sample s) >>= λ s'. decomp_loop fuel s' in
      if ltb (length s.pc) num_samples
      then (if leb (length buf * 8) s.pos then err truncated else next)
      else ok s

-- `dynDecomp`: the residuals, and the reader behind them.
pub dyn_decomp : AgParams → BitBuffer → ℕ → ℕ → Result (List ℕ × BitBuffer)
dyn_decomp p bits num_samples max_size = do
  s ← decomp_loop p bits.buf num_samples max_size num_samples begin
  ok (s.pc, advance (s.pos - position bits) bits)
  where
    begin : Decomp
    begin = record { pos = position bits; mean = p.mb0; zmode = 0; pc = [] }
