-- ===== src/Audio/Wav/Whole.antt =====
-- Many rounds of the stream, and its opening.
use sonospoof.Base.{
  ℕ, zero, suc, ◌+◌, ◌*◌, ◌≤◌, ◌<◌, ◌⊎◌, ◌≡◌, refl, ap, sym, ◌∙◌, Bool, true, ◌&&◌, List, [], ◌∷◌,
  ◌++◌, arith, length, length-append, replicate, length-replicate, append_assoc, append-nil, ltb,
  Bool-cases, inl, inr, if_true, if_false,
}
use sonospoof.Audio.Ring.Inv.{IsValid}
use sonospoof.Audio.Ring.WaitFor.{Expires}
use sonospoof.Audio.Ring.{Ring, len}
use sonospoof.Audio.Wav.{
  Turn, Stream, streaming, chunk, settle, send_chunks, open_with_silence, reserve_frames, channels,
}
use sonospoof.Audio.Wav.Pacing.{Sends, send_chunk-Sends, settle-IsValid}

-- In every round, the deadline fires, the bytes are taken, and the clock does not go back.
abbrev pub AllGood : List Turn → Type 0
AllGood [] = Unit {0}
AllGood (t ∷ ts) = (Expires t.meanwhile × (t.accepted ≡ true) × (t.after ≤ t.restart)) × AllGood ts

-- The rounds in order, each sending a chunk.
pub data Rounds (frames : ℕ) : List Turn → Stream → Stream → Type 0 where
  no_more : {s : Stream} → Rounds frames [] s s
  one_more :
      {t : Turn} {ts : List Turn} {s s₁ s' : Stream}
      → Sends frames t s s₁
      → Rounds frames ts s₁ s'
      → Rounds frames (t ∷ ts) s s'

pub record Streams (frames : ℕ) (ts : List Turn) (s s' : Stream) : Type 0 where
  pub audio : List ℕ
  pub bytes : s'.sent ≡ s.sent ++ audio
  pub size : length audio ≡ length ts * (frames * 4)
  pub real_time : s.next + length ts * chunk frames ≤ s'.next
  pub rounds : Rounds frames ts s s'
  pub valid : IsValid s'.ring

-- With a valid ring, and as long as in each round the deadline fires, the speaker takes the bytes
-- and the clock does not go back, the stream goes on without end: each round adds one chunk to
-- what was sent, of the same size whether audio is there or not, and no chunk is due before its
-- time.
pub send_chunks-Streams :
    (frames : ℕ) (ts : List Turn) (s : Stream)
    → IsValid s.ring
    → AllGood ts
    → (s' : Stream) × (send_chunks frames ts s ≡ streaming s') × Streams frames ts s s'
unfolding send_chunks
send_chunks-Streams frames [] s v good = (
  s,
  refl,
  record {
    audio = [];
    bytes = sym (append-nil s.sent);
    size = omega arith;
    real_time = omega arith;
    rounds = Rounds.no_more;
    valid = v;
  },
)
send_chunks-Streams frames (t ∷ ts) s v ((fires, taken, clock), good) =
    let (s₁, e, one) = send_chunk-Sends frames t s v fires taken clock in
    let (s₂, e', more) = send_chunks-Streams frames ts s₁ one.valid good in
    (
      s₂,
      rw (e, send_chunks) e',
      record {
        audio = one.audio ++ more.audio;
        bytes =
            more.bytes
            ∙ ap (λ b. b ++ more.audio) one.bytes
            ∙ append_assoc s.sent one.audio more.audio;
        size = grind (arith, length-append one.audio more.audio, one.size, more.size);
        real_time = grind (arith, one.real_time, more.real_time);
        rounds = Rounds.one_more one more.rounds;
        valid = more.valid;
      },
    )

abbrev pub AllSilent : List ℕ → Type 0
AllSilent [] = Unit {0}
AllSilent (b ∷ bs) = (b ≡ 0) × AllSilent bs

silence-append : (n : ℕ) (bs : List ℕ) → AllSilent bs → AllSilent (replicate n 0 ++ bs)
silence-append zero bs h = h
silence-append (suc n) bs h = (refl, silence-append n bs h)

-- Whether the loop of the opening goes on.
abbrev pub lacks : ℕ → Stream → Bool
lacks filled s = ltb filled reserve_frames && ltb (len s.ring) (reserve_frames * channels)

-- The ring after the rounds of the opening, which take nothing from it.
abbrev pub settled : List Turn → Ring → Ring
settled [] q = q
settled (t ∷ ts) q = settled ts (settle t.meanwhile q)

-- Before each round of the opening the reserve is missing: in what was sent, and in the ring.
abbrev pub AllLack : ℕ → ℕ → List Turn → Ring → Type 0
AllLack frames filled [] q = Unit {0}
AllLack frames filled (t ∷ ts) q =
    ((filled < reserve_frames) × (len q < reserve_frames * channels))
    × AllLack frames (filled + frames) ts (settle t.meanwhile q)

pub record Opens (frames filled : ℕ) (ts : List Turn) (s s' : Stream) (rest : List Turn)
    : Type 0 where
  pub rounds : ℕ
  pub silence : List ℕ
  pub used : List Turn
  pub split : ts ≡ used ++ rest
  pub each : length used ≡ rounds
  pub lacked : AllLack frames filled used s.ring
  pub reserve :
      (reserve_frames ≤ filled + rounds * frames) ⊎ (reserve_frames * channels ≤ len s'.ring)
  pub kept : s'.ring ≡ settled used s.ring
  pub taken : rounds + length rest ≡ length ts
  pub bytes : s'.sent ≡ s.sent ++ silence
  pub silent : AllSilent silence
  pub size : length silence ≡ rounds * (frames * 4)
  pub real_time : s'.next ≡ s.next + rounds * chunk frames
  pub valid : IsValid s'.ring

abbrev pub AllTaken : List Turn → Type 0
AllTaken [] = Unit {0}
AllTaken (t ∷ ts) = (t.accepted ≡ true) × AllTaken ts

-- With a valid ring and a speaker that takes the bytes, the opening ends, as soon as its rounds fill
-- the reserve or the ring holds it, and not before. It sends silence only, a chunk in each round and
-- in real time, and takes nothing from the ring.
pub open-Opens :
    (frames filled : ℕ) (ts : List Turn) (s : Stream)
    → IsValid s.ring
    → AllTaken ts
    → reserve_frames ≤ filled + length ts * frames
    → (s' : Stream) × (rest : List Turn) × (open_with_silence frames filled ts s
        ≡ (streaming s', rest))
      × Opens frames filled ts s s' rest
unfolding open_with_silence
open-Opens frames filled [] s v taken enough = (
  s,
  [],
  if_false {b = lacks filled s} _ _ (ground arith),
  record {
    rounds = 0;
    silence = [];
    used = [];
    split = refl;
    each = refl;
    lacked = tt;
    reserve = inl (omega arith);
    kept = refl;
    taken = refl;
    bytes = sym (append-nil s.sent);
    silent = tt;
    size = omega arith;
    real_time = omega arith;
    valid = v;
  },
)
open-Opens frames filled (t ∷ ts) s v (ok, taken) enough = elim (Bool-cases (lacks filled s)) [
  | inr full ↦ (
    s,
    t ∷ ts,
    if_false _ _ full,
    record {
      rounds = 0;
      silence = [];
      used = [];
      split = refl;
      each = refl;
      lacked = tt;
      reserve = ground arith;
      kept = refl;
      taken = omega arith;
      bytes = sym (append-nil s.sent);
      silent = tt;
      size = omega arith;
      real_time = omega arith;
      valid = v;
    },
  )
  | inl short ↦
      let quiet : List ℕ = replicate (frames * channels * 2) 0 in
      let s₁ : Stream = record {
        next = s.next + chunk frames;
        ring = settle t.meanwhile s.ring;
        sent = s.sent ++ quiet;
      } in
      let (s', rest, e, o) =
        open-Opens frames (filled + frames) ts s₁ (settle-IsValid t.meanwhile v) taken
          (grind arith) in
      (
        s',
        rest,
        if_true _ _ short ∙ if_true _ _ ok ∙ e,
        record {
          rounds = suc o.rounds;
          silence = quiet ++ o.silence;
          used = t ∷ o.used;
          split = ap (◌∷◌ t) o.split;
          each = omega (arith, o.each);
          lacked = (ground arith, o.lacked);
          reserve = elim o.reserve [ inl sent ↦ inl (grind arith) | inr held ↦ inr held ];
          kept = o.kept;
          taken = omega (arith, o.taken);
          bytes = o.bytes ∙ append_assoc s.sent quiet o.silence;
          silent = silence-append (frames * channels * 2) o.silence o.silent;
          size = grind (
            arith,
            length-append quiet o.silence,
            o.size,
            length-replicate {A = ℕ} (frames * channels * 2) 0,
          );
          real_time = grind (arith, o.real_time);
          valid = o.valid;
        },
      )
]
