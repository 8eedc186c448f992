-- ===== src/Raop/Rtp.antt =====
-- internal/raop/rtp.go: from datagrams to samples in the ring. Its methods hold the mutex.
--
-- The block cipher of crypto/aes is a parameter: `inverse` is the decryption of one block under the
-- session's key. CBC over it is written out.
pub mod Decrypt
pub mod Dispatch
use sonospoof.Base.{
  ℕ, zero, suc, ◌+◌, ◌*◌, ◌/◌, ◌%◌, ◌^◌, List, [], ◌∷◌, ◌++◌, Option, none, some, ◌==◌, ltb, leb,
  if◌then◌else◌, length, get_or, take, drop, replicate, u64, bit_xor, ◌||◌, true,
}
use sonospoof.Alac.Result.{Result, ok, err, panic, Error}
use sonospoof.Alac.Decoder.{Config, decode}
use sonospoof.Audio.Ring.{Ring, write}
use sonospoof.Raop.Reorder.{Resequencer, new_resequencer, push}

-- `SeqNo` and `Timestamp`, big-endian.
pub seq_no : List ℕ → ℕ
seq_no pkt = if ltb (length pkt) 4 then 0 else get_or pkt 2 0 * 2 ^ 8 + get_or pkt 3 0

pub timestamp : List ℕ → ℕ
timestamp pkt =
    if ltb (length pkt) 8
    then 0
    else get_or pkt 4 0 * 2 ^ 24 + get_or pkt 5 0 * 2 ^ 16 + get_or pkt 6 0 * 2 ^ 8 + get_or pkt 7 0

-- `AudioDecoder`; the ring is the receiver's own. `asked` has the calls of `onMissing`, oldest first.
pub record AudioDecoder : Type 0 where
  pub iv : List ℕ
  pub config : Config
  pub ring : Ring
  pub queue : Resequencer (List ℕ)
  pub pcm : List ℕ
  pub packets : ℕ
  pub decrypted : ℕ
  pub errors : ℕ
  pub asked : List (ℕ × ℕ)

-- `NewAudioDecoder`: crypto/aes takes keys of 16, 24 and 32 bytes. An allocation that fails for want
-- of memory ends the program, and is not modelled.
unfoldable pub new_audio_decoder : List ℕ → List ℕ → Config → Ring → Option AudioDecoder
new_audio_decoder key iv cfg ring =
    if length key == 16 || length key == 24 || length key == 32
    then (if length iv == 16 then some fresh else none)
    else none
  where
    fresh : AudioDecoder
    fresh = record {
      iv = iv;
      config = cfg;
      ring = ring;
      queue = new_resequencer;
      pcm = replicate (cfg.frame_length * cfg.num_channels) 0;
      packets = 0;
      decrypted = 0;
      errors = 0;
      asked = [];
    }

-- `OnMissing`
unfoldable pub on_missing : AudioDecoder → AudioDecoder
on_missing a = record a { queue = record a.queue { on_missing = true } }

-- `Stats`: packets, reordered, lost, late, errors.
pub stats : AudioDecoder → ℕ × ℕ × ℕ × ℕ × ℕ
stats a = (a.packets, a.queue.reordered, a.queue.lost, a.queue.late, a.errors)

pub xor_bytes : List ℕ → List ℕ → List ℕ
xor_bytes [] bs = []
xor_bytes (a ∷ rest) [] = []
xor_bytes (a ∷ rest) (b ∷ bs) = bit_xor a b ∷ xor_bytes rest bs

-- What a datagram comes to. A panic in the decoder ends the program.
pub data Verdict : Type 0 where
  fine short crashed : Verdict
  failed : Error → Verdict

-- The loop of `audio` keeps the first error.
pub first_of_two : Verdict → Verdict → Verdict
first_of_two fine later = later
first_of_two short later = short
first_of_two crashed later = crashed
first_of_two (failed e) fine = failed e
first_of_two (failed e) short = failed e
first_of_two (failed e) crashed = crashed
first_of_two (failed e) (failed e') = failed e

-- The end of `decodeOne`, after `Decode` into `pcm`; the slice `pcm[:n*2]` panics behind the end of
-- the buffer.
pub written : AudioDecoder → Result ℕ × List ℕ → Verdict × AudioDecoder
written a (ok n, pcm) =
    let a₁ = record a { pcm = pcm } in
    if ltb (length pcm) (n * 2)
    then (crashed, a₁)
    else (fine, record a₁ { ring = write a.ring (take (n * 2) pcm) })
written a (err e, pcm) = (failed e, record a { pcm = pcm; errors = u64 (a.errors + 1) })
written a (panic, pcm) = (crashed, record a { pcm = pcm })

abbrev pub listed : Option (ℕ × ℕ) → List (ℕ × ℕ)
listed none = []
listed (some p) = p ∷ []

module _ (inverse : List ℕ → List ℕ) where
  -- CBC: each block is combined with the ciphertext of the block before it.
  pub crypt_blocks : ℕ → List ℕ → List ℕ → List ℕ
  crypt_blocks zero iv bytes = []
  crypt_blocks (suc blocks) iv bytes =
      xor_bytes (inverse (take 16 bytes)) iv ++ crypt_blocks blocks (take 16 bytes) (drop 16 bytes)

  -- `decrypt`: the whole blocks are decrypted, and the tail is left.
  pub decrypt : AudioDecoder → List ℕ → List ℕ × AudioDecoder
  decrypt a payload =
      let blocks = length payload / 16 in
      if blocks * 16 == 0 then (payload, a) else (
        crypt_blocks blocks a.iv payload ++ drop (blocks * 16) payload,
        record a { decrypted = u64 (a.decrypted + 1) },
      )

  -- `decodeOne`
  pub decode_one : AudioDecoder → List ℕ → Verdict × AudioDecoder
  decode_one a payload =
      let (plain, a₁) = decrypt a payload in written a₁ (decode a₁.config plain a₁.pcm)

  pub decode_each : AudioDecoder → List (List ℕ) → Verdict × AudioDecoder
  decode_each a [] = (fine, a)
  decode_each a (p ∷ ps) =
      let (v, a₁) = decode_one a p in let (w, a₂) = decode_each a₁ ps in (first_of_two v w, a₂)

  -- `audio`; `push` calls `onMissing` before anything is decoded.
  pub audio : AudioDecoder → List ℕ → Verdict × AudioDecoder
  audio a pkt =
      let p = push a.queue (seq_no pkt) (drop 12 pkt) in
      if leb (length pkt) 12
      then (fine, a)
      else decode_each (record a { queue = p.queue; asked = a.asked ++ listed p.asked }) p.ready

  -- `Packet`. 86 is a resend, which wraps the original packet behind four bytes; 96 is audio.
  pub packet : AudioDecoder → List ℕ → Verdict × AudioDecoder
  packet a pkt =
      let a₁ = record a { packets = u64 (a.packets + 1) } in
      let pt = get_or pkt 1 0 % 2 ^ 7 in
      if ltb (length pkt) 12
      then (short, a)
      else if pt == 86
      then (if ltb (length pkt) 16 then (short, a₁) else audio a₁ (drop 4 pkt))
      else if pt == 96
      then audio a₁ pkt
      else (fine, a₁)
