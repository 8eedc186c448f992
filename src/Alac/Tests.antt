-- ===== src/Alac/Tests.antt =====
-- Frames by hand, through the decoder, and its parts.
use sonospoof.Base.{
  zero, suc, ℕ, ◌+◌, ◌*◌, ◌≤◌, ◌≡◌, refl, inr, List, [], ◌∷◌, some, arith, length, sub32, drop,
  sar32, shl32,
}
use sonospoof.Alac.Result.{ok, Yields}
use sonospoof.Alac.Bits.Laws.{IsBytes, bits_from, read_lem}
use sonospoof.Alac.Bits.{read, new_bit_buffer}
use sonospoof.Alac.Golomb.{set_ag_params, dyn_decomp}
use sonospoof.Alac.Golomb.Total.{Decodes, dyn_decomp-Decodes}
use sonospoof.Alac.Predictor.{unpc_block, narrow}
use sonospoof.Alac.Predictor.Sizes.{Unpacks, unpc_block-Unpacks}
use sonospoof.Alac.Predictor.Inverse.{pc_block, Fits, samples_of, unpc_block-pc_block}
use sonospoof.Alac.Decoder.{Config, decode, decode_loop, unmix16}
use sonospoof.Alac.Decoder.Loop.{decode_enough, decode-Bounded}
use sonospoof.Alac.Decoder.Mix.{us_of, vs_of, unmix16-mix}

-- What a sender announces.
abbrev airplay : Config
airplay = record {
  frame_length = 352;
  compatible_version = 0;
  bit_depth = 16;
  pb = 40;
  mb = 10;
  kb = 14;
  num_channels = 2;
  max_run = 255;
  max_frame_bytes = 0;
  avg_bit_rate = 0;
  sample_rate = 44100;
}

-- A stereo element of two raw samples in each channel.
abbrev escaped_pair : List ℕ
escaped_pair = 32 ∷ 0 ∷ 18 ∷ 0 ∷ 0 ∷ 0 ∷ 4 ∷ 36 ∷ 105 ∷ 255 ∷ 252 ∷ 0 ∷ 10 ∷ 0 ∷ 13 ∷ 192 ∷ []

abbrev nines : List ℕ
nines = 9 ∷ 9 ∷ 9 ∷ 9 ∷ 9 ∷ []

decode_enough_example :
    decode_loop (length escaped_pair * 8 + 1 + 10) airplay (new_bit_buffer escaped_pair) nines 0 0
    ≡ decode airplay escaped_pair nines
decode_enough_example = decode_enough airplay escaped_pair nines 10 refl

decode-Bounded_example :
    let (result, out') = decode airplay escaped_pair nines in
    (length out' ≡ length nines) × Yields (λ n. n ≤ airplay.frame_length) result
decode-Bounded_example = decode-Bounded airplay escaped_pair nines

dyn_decomp-Decodes_example :
    Decodes
      (new_bit_buffer escaped_pair)
      3
      (dyn_decomp (set_ag_params 10 40 14 3 3 255) (new_bit_buffer escaped_pair) 3 17)
dyn_decomp-Decodes_example =
    dyn_decomp-Decodes (set_ag_params 10 40 14 3 3 255) (new_bit_buffer escaped_pair) 3 17

unpc_block-Unpacks_example :
    Unpacks (5 ∷ 6 ∷ 7 ∷ []) 2 (unpc_block (5 ∷ 6 ∷ 7 ∷ []) (160 ∷ 65346 ∷ []) 2 17 9)
unpc_block-Unpacks_example = unpc_block-Unpacks (5 ∷ 6 ∷ 7 ∷ []) (160 ∷ 65346 ∷ []) 2 17 9

few-Fits : Fits (sub32 32 17) (5 ∷ 6 ∷ 7 ∷ 90 ∷ [])
unfolding narrow sar32 shl32
few-Fits = (omega arith, refl, (omega arith, refl, (omega arith, refl, (omega arith, refl, tt))))

unpc_block-pc_block_example :
    samples_of (
      unpc_block
        (pc_block (sub32 32 17) (5 ∷ 6 ∷ 7 ∷ 90 ∷ []) (160 ∷ 65346 ∷ []) 2 9)
        (160 ∷ 65346 ∷ [])
        2
        17
        9)
    ≡ some (5 ∷ 6 ∷ 7 ∷ 90 ∷ [])
unpc_block-pc_block_example =
    unpc_block-pc_block 17 9 2 5 (6 ∷ 7 ∷ 90 ∷ []) (160 ∷ 65346 ∷ []) (inr refl) few-Fits

unmix16-mix_example :
    unmix16 2 1 2 0
      (us_of 2 1 (100 ∷ 65530 ∷ []) (90 ∷ 5 ∷ []))
      (vs_of 2 1 (100 ∷ 65530 ∷ []) (90 ∷ 5 ∷ []))
      nines
    ≡ ok (100 ∷ 90 ∷ 65530 ∷ 5 ∷ drop 4 nines)
unmix16-mix_example =
    unmix16-mix 2 1 (100 ∷ 65530 ∷ []) (90 ∷ 5 ∷ []) nines (omega arith, (omega arith, tt))
      (omega arith, (omega arith, tt)) (omega arith)

four-IsBytes : IsBytes (171 ∷ 205 ∷ 239 ∷ 1 ∷ [])
four-IsBytes zero = omega arith
four-IsBytes (suc zero) = omega arith
four-IsBytes (suc (suc zero)) = omega arith
four-IsBytes (suc (suc (suc zero))) = omega arith
four-IsBytes (suc (suc (suc (suc i)))) = omega arith

-- Twenty bits from the fifth on.
read_lem_example : read 20 (record { buf = 171 ∷ 205 ∷ 239 ∷ 1 ∷ []; pos = 4 }) ≡ (
  bits_from (171 ∷ 205 ∷ 239 ∷ 1 ∷ []) 4 20,
  record { buf = 171 ∷ 205 ∷ 239 ∷ 1 ∷ []; pos = 24 },
)
read_lem_example =
    read_lem 20 (record { buf = 171 ∷ 205 ∷ 239 ∷ 1 ∷ []; pos = 4 }) four-IsBytes (omega arith)

twenty_bits : bits_from (171 ∷ 205 ∷ 239 ∷ 1 ∷ []) 4 20 ≡ 0xbcdef
twenty_bits = refl
