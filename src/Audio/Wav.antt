-- ===== src/Audio/Wav.antt =====
-- internal/audio/wav.go: the stream to the speaker.
--
-- Times are nanoseconds of the clock. What the clock, the writer and the other goroutines do in a
-- round of a loop is a `Turn`. `sent` is what the writer took; a write that fails ends the stream.
pub mod Pacing
pub mod Whole
pub mod Total
pub mod Ending
mod Tests
use sonospoof.Base.{
  ℕ, zero, suc, ◌+◌, ◌-◌, ◌*◌, ◌/◌, ◌%◌, ◌^◌, Bool, false, ◌&&◌, List, [], ◌∷◌, ◌++◌, ◌==◌, ltb,
  if◌then◌else◌, length, replicate,
}
use sonospoof.Audio.Ring.{
  Ring, Event, written, flushed, woken, expired, Outcome, returned, blocked, write, reset, len,
  read_now, wait_for,
}

abbrev pub sample_rate : ℕ
sample_rate = 44100

abbrev pub channels : ℕ
channels = 2

abbrev pub bit_depth : ℕ
bit_depth = 16

abbrev pub bytes_per_second : ℕ
bytes_per_second = sample_rate * channels * bit_depth / 8

-- `ReserveFrames`
abbrev pub reserve_frames : ℕ
reserve_frames = sample_rate * 7 / 10

-- PutUint16 and PutUint32, little-endian.
abbrev pub le16 : ℕ → List ℕ
le16 v = v % 2 ^ 8 ∷ v / 2 ^ 8 % 2 ^ 8 ∷ []

abbrev pub le32 : ℕ → List ℕ
le32 v = le16 (v % 2 ^ 16) ++ le16 (v / 2 ^ 16)

-- `WAVHeader`, with 0xFFFFFFF0 for `endlessSize`; the tags are ASCII.
pub wav_header : List ℕ
wav_header =
    (82 ∷ 73 ∷ 70 ∷ 70 ∷ [])
    ++ le32 0xFFFFFFF0
    ++ (87 ∷ 65 ∷ 86 ∷ 69 ∷ [])
    ++ (102 ∷ 109 ∷ 116 ∷ 32 ∷ [])
    ++ le32 16
    ++ le16 1
    ++ le16 channels
    ++ le32 sample_rate
    ++ le32 bytes_per_second
    ++ le16 (channels * bit_depth / 8)
    ++ le16 bit_depth
    ++ (100 ∷ 97 ∷ 116 ∷ 97 ∷ [])
    ++ le32 (0xFFFFFFF0 - 36)

-- The samples of a chunk as bytes.
pub raw_bytes : List ℕ → List ℕ
raw_bytes [] = []
raw_bytes (s ∷ samples) = le16 s ++ raw_bytes samples

-- One round: the clock when it waits, what happens to the ring meanwhile, whether the writer takes
-- the bytes, and the clock after the write, read twice.
pub record Turn : Type 0 where
  pub now : ℕ
  pub meanwhile : List Event
  pub accepted : Bool
  pub after : ℕ
  pub restart : ℕ

-- The variables of `StreamPCM`.
pub record Stream : Type 0 where
  pub next : ℕ
  pub ring : Ring
  pub sent : List ℕ

-- How far the loops have come when the turns end.
pub data Stage : Type 0 where
  opening streaming ended stuck : Stream → Stage

-- `chunkFrames` frames; 0 stands for what is not positive.
pub chunk_frames : ℕ → ℕ
chunk_frames frames = if frames == 0 then sample_rate / 10 else frames

-- The duration of a chunk.
pub chunk : ℕ → ℕ
chunk frames = frames * 10 ^ 9 / sample_rate

-- What others do to the ring while the stream sleeps.
pub settle : List Event → Ring → Ring
settle [] q = q
settle (written samples ∷ es) q = settle es (write q samples)
settle (flushed ∷ es) q = settle es (reset q)
settle (woken ∷ es) q = settle es q
settle (expired ∷ es) q = settle es q

-- The loop that opens with silence, from `filled` frames on: it ends at the reserve, or when the
-- ring holds it.
pub open_with_silence : ℕ → ℕ → List Turn → Stream → Stage × List Turn
open_with_silence frames filled [] s =
    if ltb filled reserve_frames && ltb (len s.ring) (reserve_frames * channels)
    then (opening s, [])
    else (streaming s, [])
open_with_silence frames filled (t ∷ ts) s =
    let slept = record s { next = s.next + chunk frames; ring = settle t.meanwhile s.ring } in
    let wrote = record slept { sent = s.sent ++ replicate (frames * channels * 2) 0 } in
    let further = open_with_silence frames (filled + frames) ts wrote in
    if ltb filled reserve_frames && ltb (len s.ring) (reserve_frames * channels)
    then (if t.accepted then further else (ended slept, ts))
    else (streaming s, t ∷ ts)

-- The wait of a round for a chunk and the reserve, which ends at the deadline; its result is not used.
pub await : ℕ → ℕ → Turn → Ring → Outcome Bool × Ring
await want deadline t q =
    if ltb t.now deadline
    then wait_for t.meanwhile want q
    else (returned false, settle t.meanwhile q)

-- The second half of a round: a read that does not wait, the write, and the next deadline.
pub after_wait : ℕ → Turn → Stream → Outcome Bool × Ring → Stage
after_wait frames t s (blocked, q) = stuck (record s { next = s.next + chunk frames; ring = q })
after_wait frames t s (returned full, q) =
    let next = s.next + chunk frames in
    let (f, q') = read_now (frames * channels) q in
    if t.accepted
    then streaming (record {
      next = if ltb (chunk frames) (t.after - next) then t.restart else next;
      ring = q';
      sent = s.sent ++ raw_bytes f.dst;
    })
    else ended (record s { next = next; ring = q' })

-- One round of the endless loop.
pub send_chunk : ℕ → Turn → Stream → Stage
send_chunk frames t s =
    after_wait frames t s
      (await (frames * channels + reserve_frames * channels) (s.next + chunk frames) t s.ring)

pub send_chunks : ℕ → List Turn → Stream → Stage
send_chunks frames [] s = streaming s
send_chunks frames (t ∷ ts) s = elim (send_chunk frames t s) [
  | streaming s' ↦ send_chunks frames ts s'
  | other ↦ other
]

-- `StreamPCM`, from the time at which it starts.
pub stream_pcm : ℕ → ℕ → Ring → List Turn → Stage
stream_pcm frames begin q ts =
    let c = chunk_frames frames in
    let (stage, rest) = open_with_silence c 0 ts (record { next = begin; ring = q; sent = [] }) in
    elim stage [ streaming s ↦ send_chunks c rest s | other ↦ other ]
