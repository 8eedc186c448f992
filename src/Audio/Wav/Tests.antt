-- ===== src/Audio/Wav/Tests.antt =====
-- The stream by hand, with chunks of two frames.
use sonospoof.Base.{◌≡◌, refl, true, false, [], ◌∷◌, ◌++◌, ◌*◌, arith, take, drop, length}
use sonospoof.Audio.Ring.{written, woken, expired}
use sonospoof.Audio.Ring.Inv.{IsValid}
use sonospoof.Audio.Wav.{Turn, Stream, streaming, wav_header, send_chunk, chunk_frames, stream_pcm}
use sonospoof.Audio.Wav.Pacing.{Sends, send_chunk-Sends}
use sonospoof.Audio.Wav.Ending.{Ends, stream_pcm-Ends}

-- 44100 Hz, 176400 bytes a second, blocks of 4 bytes, 16 bits.
header_format :
    take 12 (drop 24 wav_header) ≡ 68 ∷ 172 ∷ 0 ∷ 0 ∷ 16 ∷ 177 ∷ 2 ∷ 0 ∷ 4 ∷ 0 ∷ 16 ∷ 0 ∷ []
unfolding wav_header
header_format = refl

abbrev begin : Stream
begin = record {
  next = 1000;
  ring = record {
    buf = 5 ∷ 6 ∷ 7 ∷ [];
    r = 1;
    w = 0;
    n = 2;
    wake = false;
    underrun = 0;
    dropped = 0;
  };
  sent = [];
}

begin-IsValid : IsValid begin.ring
begin-IsValid = record {
  room = omega arith;
  r_in = omega arith;
  held = omega arith;
  w_at = refl;
  dropped_fits = omega arith;
  underrun_fits = omega arith;
}

abbrev in_time : Turn
in_time = record {
  now = 2000;
  meanwhile = written (9 ∷ []) ∷ woken ∷ expired ∷ [];
  accepted = true;
  after = 50000;
  restart = 50010;
}

send_chunk-Sends_example :
    (s' : Stream) × (send_chunk 2 in_time begin ≡ streaming s') × Sends 2 in_time begin s'
send_chunk-Sends_example = send_chunk-Sends 2 in_time begin begin-IsValid tt refl (omega arith)

-- The speaker leaves in the second round.
abbrev last_turn : Turn
last_turn = record in_time { accepted = false }

stream_pcm-Ends_example :
    Ends
      (length (in_time ∷ []) * (chunk_frames 2 * 4))
      (stream_pcm 2 1000 begin.ring ((in_time ∷ []) ++ last_turn ∷ in_time ∷ []))
stream_pcm-Ends_example =
    stream_pcm-Ends 2 1000 begin.ring (in_time ∷ []) last_turn (in_time ∷ []) begin-IsValid
      ((tt, refl, omega arith), tt) tt refl
