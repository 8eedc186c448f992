-- ===== src/Bridge/Serve.antt =====
-- internal/bridge/bridge.go: `ServeStream`, the response to the speaker.
use sonospoof.Base.{
  ℕ, ◌+◌, ◌*◌, ◌/◌, ◌^◌, ◌≤◌, ◌≡◌, refl, ap, sym, ◌∙◌, subst, if_true, Bool, true, false,
  if◌then◌else◌, Option, none, some, List, [], ◌∷◌, ◌++◌, Text, codes, same, itoa, length,
  length-append, All, arith,
}
use sonospoof.Audio.Ring.{Ring}
use sonospoof.Audio.Ring.Inv.{IsValid}
use sonospoof.Audio.Wav.{
  Turn, Stream, Stage, opening, streaming, ended, stuck, sample_rate, wav_header, stream_pcm,
}
use sonospoof.Audio.Wav.Whole.{AllGood, Opens, Rounds}
use sonospoof.Audio.Wav.Total.{begin_at, length-wav_header, Plays, chunk-tenth, stream_pcm-tenth}
use sonospoof.Bridge.Filename.{safe_filename}
use sonospoof.Bridge.Session.{Bridge}

-- What a request finds: `DumpDir`, the clock and whether the file can be created, whether the
-- header is written, whether the response can be flushed, and the time and the rounds of the
-- stream. With a dump, a write succeeds if the speaker and the file take it.
pub record Connection : Type 0 where
  pub dump_dir : Text
  pub nanos : ℕ
  pub created : Bool
  pub header_taken : Bool
  pub can_flush : Bool
  pub begin : ℕ
  pub turns : List Turn

-- The response. `body` has the writes that succeeded; `dump` is the directory and the name of the
-- file that gets the same bytes, and `stream` how far StreamPCM has come, if it is called.
pub record Served : Type 0 where
  pub headers : List (Text × Text)
  pub status : ℕ
  pub dump : Option (Text × Text)
  pub body : List ℕ
  pub flushed : Bool
  pub stream : Option Stage

unfoldable pub dump_name : Text → ℕ → Text
dump_name zone at = safe_filename zone ++ codes "-" ++ itoa at ++ codes ".wav"

-- The file, unless there is no directory or it cannot be created.
abbrev pub open_dump : Text → Connection → Option (Text × Text)
open_dump zone c =
    if same c.dump_dir []
    then none
    else if c.created
    then some (c.dump_dir, dump_name zone c.nanos)
    else none

abbrev pub sent_of : Stage → List ℕ
sent_of (opening s) = s.sent
sent_of (streaming s) = s.sent
sent_of (ended s) = s.sent
sent_of (stuck s) = s.sent

abbrev pub stream_headers : List (Text × Text)
stream_headers =
    (codes "Content-Type", codes "audio/wav")
    ∷ (codes "Cache-Control", codes "no-cache, no-store")
    ∷ []

abbrev pub greeting : Text → Connection → Served
greeting zone c = record {
  headers = stream_headers;
  status = 200;
  dump = open_dump zone c;
  body = [];
  flushed = false;
  stream = none;
}

-- The response when the header is written and the stream has come to `stage`.
abbrev pub answered : Connection → Stage → Served → Served
answered c stage w = record w {
  body = wav_header ++ sent_of stage;
  flushed = c.can_flush;
  stream = some stage;
}

abbrev pub serve_body : Connection → Ring → Served → Served
serve_body c q w =
    if c.header_taken then answered c (stream_pcm (sample_rate / 10) c.begin q c.turns) w else w

unfoldable pub serve_stream {ℓ} : {Network : Type ℓ} → Bridge Network → Ring → Connection → Served
serve_stream b q c = serve_body c q (greeting b.zone.name c)

-- What the speaker has got after the rounds of `c`, and what goes on: behind the header is what the
-- opening up to `begun` and the rounds from there to `at` have sent.
pub record IsEndless (q : Ring) (c : Connection) (w : Served) : Type 0 where
  pub at : Stream
  pub goes_on : w.stream ≡ some (streaming at)
  pub bytes : w.body ≡ wav_header ++ at.sent
  pub begun : Stream
  pub rest : List Turn
  pub opens : Opens 4410 0 c.turns (begin_at c.begin q) begun rest
  pub rounds : Rounds 4410 rest begun at
  pub size : length w.body ≡ 44 + length c.turns * 17640
  pub real_time : c.begin + length c.turns * 10 ^ 8 ≤ at.next
  pub valid : IsValid at.ring
  pub unsized : All (λ (h : Text × Text). same h.0 (codes "Content-Length") ≡ false) w.headers

answered-IsEndless :
    (c : Connection) (q : Ring) (s : Stream) (w : Served)
    → All (λ (h : Text × Text). same h.0 (codes "Content-Length") ≡ false) w.headers
    → Plays 4410 c.begin q c.turns s
    → IsEndless q c (answered c (streaming s) w)
answered-IsEndless c q s w unsized p = record {
  at = s;
  goes_on = refl;
  bytes = refl;
  begun = p.begun;
  rest = p.rest;
  opens = p.opens;
  rounds = p.rounds;
  size = grind (arith, length-append wav_header s.sent, length-wav_header, p.size);
  real_time = grind (arith, p.real_time, chunk-tenth);
  valid = p.valid;
  unsized = unsized;
}

-- A speaker that connects to a valid ring gets no Content-Length, the 44 bytes of the WAV header,
-- and then a tenth of a second in each round and in real time, without end: silence as long as the
-- reserve is neither sent nor held by the ring, and from then on what each round reads of the ring,
-- padded. It needs that the header is written, that in each round the deadline fires, the bytes are
-- taken and the clock does not go back, and that there have been seven rounds. Whether a dump is
-- asked for and can be created does not matter.
pub serve_stream-IsEndless {ℓ} :
    {Network : Type ℓ} (b : Bridge Network) (q : Ring) (c : Connection)
    → IsValid q
    → AllGood c.turns
    → c.header_taken ≡ true
    → 7 ≤ length c.turns
    → IsEndless q c (serve_stream b q c)
unfolding serve_stream
serve_stream-IsEndless b q c v good taken seven =
    let (s, e, p) = stream_pcm-tenth c.begin q c.turns v good seven in
    subst (IsEndless q c)
      (sym (if_true _ _ taken ∙ ap (λ at. answered c at (greeting b.zone.name c)) e))
      (answered-IsEndless c q s (greeting b.zone.name c) (refl, (refl, tt)) p)
