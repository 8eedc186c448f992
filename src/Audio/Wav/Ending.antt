-- ===== src/Audio/Wav/Ending.antt =====
-- The end of the stream: a write that fails.
use sonospoof.Base.{
  ℕ, ◌+◌, ◌*◌, ◌≡◌, refl, ap, ◌∙◌, Bool, false, List, [], ◌∷◌, ◌++◌, arith, length, length-append,
  length-replicate, replicate, Bool-cases, inl, inr, if_true, if_false,
}
use sonospoof.Audio.Ring.{Ring, Outcome, returned, blocked}
use sonospoof.Audio.Ring.Inv.{IsValid}
use sonospoof.Audio.Ring.WaitFor.{Expires}
use sonospoof.Audio.Wav.{
  Turn, Stream, Stage, ended, chunk, chunk_frames, send_chunk, send_chunks, after_wait,
  open_with_silence, stream_pcm, channels,
}
use sonospoof.Audio.Wav.Pacing.{Goes, await-Goes, send_chunk-Sends, settle-IsValid}
use sonospoof.Audio.Wav.Whole.{AllGood, lacks}
use sonospoof.Audio.Wav.Total.{opened, proceed, stream_pcm-proceed}

-- The stream has ended, with `size` bytes written.
abbrev pub Ends : ℕ → Stage → Type 0
Ends size stage = (s : Stream) × (stage ≡ ended s) × (length s.sent ≡ size)

after_wait-Ends :
    (frames : ℕ) (t : Turn) (s : Stream) (out : Outcome Bool × Ring)
    → Goes out
    → t.accepted ≡ false
    → Ends (length s.sent) (after_wait frames t s out)
unfolding after_wait
after_wait-Ends frames t s (blocked, q) (b, e, v) refused = absurd (ground arith)
after_wait-Ends frames t s (returned full, q) (b, e, v) refused = (_, if_false _ _ refused, refl)

send_chunk-Ends :
    (frames : ℕ) (t : Turn) (s : Stream)
    → IsValid s.ring
    → Expires t.meanwhile
    → t.accepted ≡ false
    → Ends (length s.sent) (send_chunk frames t s)
unfolding send_chunk
send_chunk-Ends frames t s v f refused =
    after_wait-Ends frames t s _ (await-Goes _ (s.next + chunk frames) t v f) refused

-- The rounds `before` go well, and the write of `t` fails.
module _ (frames : ℕ) (t : Turn) (later : List Turn) (fires : Expires t.meanwhile)
    (refused : t.accepted ≡ false) where
  chunks_ended :
      (before : List Turn) (s : Stream)
      → IsValid s.ring
      → AllGood before
      → Ends
          (length s.sent + length before * (frames * 4))
          (send_chunks frames (before ++ t ∷ later) s)
  unfolding send_chunks
  chunks_ended [] s v good =
      let (s', e, size) = send_chunk-Ends frames t s v fires refused in
      (s', rw (e, send_chunks) refl, omega (arith, size))
  chunks_ended (b ∷ before) s v ((f, taken, clock), good) =
      let (s₁, e, one) = send_chunk-Sends frames b s v f taken clock in
      let (s', e', size) = chunks_ended before s₁ one.valid good in
      (
        s',
        rw (e, send_chunks) e',
        grind (arith, size, one.bytes, length-append s.sent one.audio, one.size),
      )

  opening_ended :
      (filled : ℕ) (before : List Turn) (s : Stream)
      → IsValid s.ring
      → AllGood before
      → Ends
          (length s.sent + length before * (frames * 4))
          (proceed frames (open_with_silence frames filled (before ++ t ∷ later) s))
  unfolding open_with_silence
  opening_ended filled [] s v good = elim (Bool-cases (lacks filled s)) [
    | inl short ↦ (_, ap (proceed frames) (if_true _ _ short ∙ if_false _ _ refused), omega arith)
    | inr full ↦
        let (s', e, size) = chunks_ended [] s v good in
        (s', ap (proceed frames) (if_false _ _ full) ∙ e, size)
  ]
  opening_ended filled (b ∷ before) s v good = elim (Bool-cases (lacks filled s)) [
    | inl short ↦
        let (s', e, size) =
          opening_ended (filled + frames) before (opened frames b s) (settle-IsValid b.meanwhile v)
            good.1 in
        (
          s',
          ap (proceed frames) (if_true _ _ short ∙ if_true _ _ good.0.1) ∙ e,
          grind (
            arith,
            size,
            length-append s.sent (replicate (frames * channels * 2) 0),
            length-replicate {A = ℕ} (frames * channels * 2) 0,
          ),
        )
    | inr full ↦
        let (s', e, size) = chunks_ended (b ∷ before) s v good in
        (s', ap (proceed frames) (if_false _ _ full) ∙ e, size)
  ]

-- The stream ends with the first write that fails, whether it still opens with silence or not, and
-- whatever would follow: with a valid ring, if before that write every round goes well, and its own
-- deadline fires, StreamPCM returns, and the writer has a chunk for each of the rounds before.
pub stream_pcm-Ends :
    (frames begin : ℕ) (q : Ring) (before : List Turn) (t : Turn) (later : List Turn)
    → IsValid q
    → AllGood before
    → Expires t.meanwhile
    → t.accepted ≡ false
    → Ends
        (length before * (chunk_frames frames * 4))
        (stream_pcm frames begin q (before ++ t ∷ later))
stream_pcm-Ends frames begin q before t later v good fires refused =
    let start : Stream = record { next = begin; ring = q; sent = [] } in
    let (s, e, size) =
      opening_ended (chunk_frames frames) t later fires refused 0 before start v good in
    (s, stream_pcm-proceed frames begin q (before ++ t ∷ later) ∙ e, omega (arith, size))
