-- ===== src/Audio/Wav/Total.antt =====
-- The whole of `StreamPCM`: the opening and the rounds after it.
use sonospoof.Base.{
  ℕ, ◌+◌, ◌*◌, ◌^◌, ◌≤◌, ◌≡◌, refl, ap, ◌∙◌, Bool, true, false, List, [], ◌∷◌, ◌++◌, arith, length,
  length-append, if◌then◌else◌, replicate, subst,
}
use sonospoof.Audio.Ring.{Ring}
use sonospoof.Audio.Ring.Inv.{IsValid}
use sonospoof.Audio.Wav.{
  Turn, Stream, Stage, streaming, chunk, chunk_frames, settle, send_chunks, open_with_silence,
  reserve_frames, channels, stream_pcm, wav_header,
}
use sonospoof.Audio.Wav.Whole.{
  Opens, Rounds, AllGood, AllTaken, lacks, send_chunks-Streams, open-Opens,
}

pub length-wav_header : length wav_header ≡ 44
unfolding wav_header
length-wav_header = refl

good→taken : (ts : List Turn) → AllGood ts → AllTaken ts
good→taken [] good = tt
good→taken (t ∷ ts) ((fires, taken, clock), good) = (taken, good→taken ts good)

-- The stream after a round of the opening.
abbrev pub opened : ℕ → Turn → Stream → Stream
opened frames t s = record {
  next = s.next + chunk frames;
  ring = settle t.meanwhile s.ring;
  sent = s.sent ++ replicate (frames * channels * 2) 0;
}

if_keeps : {A : Type 0} (P : A → Type 0) (b : Bool) {x y : A} → P x → P y → P (if b then x else y)
if_keeps P true p q = p
if_keeps P false p q = q

-- The turns that the opening leaves are turns that it was given.
rest_good :
    (frames filled : ℕ) (ts : List Turn) (s : Stream)
    → AllGood ts
    → AllGood (open_with_silence frames filled ts s).1
unfolding open_with_silence
rest_good frames filled [] s good =
    if_keeps {A = Stage × List Turn} (λ r. AllGood r.1) (lacks filled s) tt tt
rest_good frames filled (t ∷ ts) s good =
    if_keeps {A = Stage × List Turn} (λ r. AllGood r.1) (lacks filled s)
      (if_keeps {A = Stage × List Turn} (λ r. AllGood r.1) t.accepted
        (rest_good frames (filled + frames) ts (opened frames t s) good.1) good.1)
      good

abbrev pub begin_at : ℕ → Ring → Stream
begin_at begin q = record { next = begin; ring = q; sent = [] }

-- A stream that began with the ring `q` at `begin` and has had the turns `ts`: the opening up to
-- `begun`, and a round with each of the turns that it left.
pub record Plays (frames begin : ℕ) (q : Ring) (ts : List Turn) (s : Stream) : Type 0 where
  pub begun : Stream
  pub rest : List Turn
  pub opens : Opens frames 0 ts (begin_at begin q) begun rest
  pub rounds : Rounds frames rest begun s
  pub size : length s.sent ≡ length ts * (frames * 4)
  pub real_time : begin + length ts * chunk frames ≤ s.next
  pub valid : IsValid s.ring

-- What StreamPCM does after the opening.
abbrev pub proceed : ℕ → Stage × List Turn → Stage
proceed frames p = elim p.0 [ streaming s ↦ send_chunks frames p.1 s | other ↦ other ]

pub stream_pcm-proceed :
    (frames begin : ℕ) (q : Ring) (ts : List Turn)
    → stream_pcm frames begin q ts
      ≡ proceed (chunk_frames frames) (
          open_with_silence
            (chunk_frames frames)
            0
            ts
            (record { next = begin; ring = q; sent = [] }))
unfolding stream_pcm
stream_pcm-proceed frames begin q ts = refl

-- With a valid ring, and as long as in each round the deadline fires, the writer takes the bytes
-- and the clock does not go back, the stream that has had the rounds to fill the reserve goes on:
-- the writer has the silence of the opening and then the chunks of the rounds, one for each turn,
-- and no chunk is due before its time.
pub stream_pcm-Plays :
    (frames begin : ℕ) (q : Ring) (ts : List Turn)
    → IsValid q
    → AllGood ts
    → reserve_frames ≤ length ts * chunk_frames frames
    → (s : Stream) × (stream_pcm frames begin q ts ≡ streaming s)
      × Plays (chunk_frames frames) begin q ts s
stream_pcm-Plays frames begin q ts v good enough =
    let c = chunk_frames frames in
    let start : Stream = record { next = begin; ring = q; sent = [] } in
    let (s, rest, e, o) = open-Opens c 0 ts start v (good→taken ts good) (omega arith) in
    let going = subst (λ r. AllGood r.1) e (rest_good c 0 ts start good) in
    let (s', e', m) = send_chunks-Streams c rest s o.valid going in
    (
      s',
      stream_pcm-proceed frames begin q ts ∙ ap (proceed c) e ∙ e',
      record {
        begun = s;
        rest = rest;
        opens = o;
        rounds = m.rounds;
        size =
            grind
              (arith, length-append o.silence m.audio, o.size, m.size, m.bytes, o.bytes, o.taken);
        real_time = grind (arith, m.real_time, o.real_time, o.taken);
        valid = m.valid;
      },
    )

-- A chunk of a tenth of a second, as the bridge streams.
pub chunk-tenth : chunk 4410 ≡ 10 ^ 8
unfolding chunk
chunk-tenth = refl

pub stream_pcm-tenth :
    (begin : ℕ) (q : Ring) (ts : List Turn)
    → IsValid q
    → AllGood ts
    → 7 ≤ length ts
    → (s : Stream) × (stream_pcm 4410 begin q ts ≡ streaming s) × Plays 4410 begin q ts s
unfolding chunk_frames
stream_pcm-tenth begin q ts v good seven = stream_pcm-Plays 4410 begin q ts v good (omega arith)
