-- ===== src/Audio/Wav/Pacing.antt =====
-- What a round of the stream sends, and when.
use sonospoof.Base.{
  ℕ, ◌+◌, ◌-◌, ◌*◌, ◌/◌, ◌^◌, ◌%◌, ◌≤◌, ◌<◌, ◌≡◌, ◌⊎◌, refl, ap, ap₂, sym, subst, ◌∙◌, Bool, true,
  false, List, [], ◌∷◌, ◌++◌, map, arith, length, drop, u16, ltb, if◌then◌else◌, Bool-cases, inl,
  inr, if_true, if_false,
}
use sonospoof.Audio.Ring.{
  Ring, Event, written, flushed, woken, expired, Outcome, returned, blocked, read_now,
}
use sonospoof.Audio.Ring.Fifo.{padded}
use sonospoof.Audio.Ring.Inv.{IsValid, write-IsValid, reset-IsValid}
use sonospoof.Audio.Ring.Refine.{contents}
use sonospoof.Audio.Ring.Drain.{read_now_refines}
use sonospoof.Audio.Ring.WaitFor.{Expires, Waits, wait_for_lem, wait-answer, wait_for-IsValid}
use sonospoof.Audio.Wav.{
  Turn, Stream, streaming, raw_bytes, chunk, settle, await, after_wait, send_chunk, channels,
  reserve_frames,
}

length-raw_bytes : (xs : List ℕ) → length (raw_bytes xs) ≡ 2 * length xs
unfolding raw_bytes
length-raw_bytes [] = refl
length-raw_bytes (x ∷ xs) = omega (arith, length-raw_bytes xs)

-- A reader of little-endian samples.
abbrev pub read_samples : List ℕ → List ℕ
read_samples [] = []
read_samples (lo ∷ []) = []
read_samples (lo ∷ hi ∷ bytes) = (lo + hi * 2 ^ 8) ∷ read_samples bytes

read_samples-raw_bytes : (xs : List ℕ) → read_samples (raw_bytes xs) ≡ map u16 xs
unfolding raw_bytes
read_samples-raw_bytes [] = refl
read_samples-raw_bytes (x ∷ xs) = ap₂ ◌∷◌ value (read_samples-raw_bytes xs)
  where
    value : x % 2 ^ 8 + x / 2 ^ 8 % 2 ^ 8 * 2 ^ 8 ≡ u16 x
    value = omega arith

pub settle-IsValid : (es : List Event) {q : Ring} → IsValid q → IsValid (settle es q)
unfolding settle
settle-IsValid [] v = v
settle-IsValid (written xs ∷ es) v = settle-IsValid es (write-IsValid xs v).0
settle-IsValid (flushed ∷ es) v = settle-IsValid es (reset-IsValid v)
settle-IsValid (woken ∷ es) v = settle-IsValid es v
settle-IsValid (expired ∷ es) v = settle-IsValid es v

-- A round waits for its deadline at most, and the ring is valid when it goes on.
abbrev pub Goes : Outcome Bool × Ring → Type 0
Goes out = (b : Bool) × (out.0 ≡ returned b) × IsValid out.1

pub await-Goes :
    (want deadline : ℕ) (t : Turn) {q : Ring}
    → IsValid q
    → Expires t.meanwhile
    → Goes (await want deadline t q)
unfolding await
await-Goes want deadline t {q} v f = elim (Bool-cases (ltb t.now deadline)) [
  | inl early ↦
      let (b, e) = wait-answer (wait_for_lem t.meanwhile want q f) in
      rw early (b, e, wait_for-IsValid t.meanwhile want v)
  | inr due ↦ rw due (false, refl, settle-IsValid t.meanwhile v)
]

-- How a round comes to the ring that it reads: by waiting until the deadline, or, if that is past,
-- without.
abbrev pub Reaches : ℕ → ℕ → Turn → Ring → Outcome Bool × Ring → Type 0
Reaches want deadline t q out =
    ((t.now < deadline) × Waits t.meanwhile want q out)
    ⊎ ((deadline ≤ t.now) × (out.1 ≡ settle t.meanwhile q))

await-Reaches :
    (want deadline : ℕ) (t : Turn) (q : Ring)
    → Expires t.meanwhile
    → Reaches want deadline t q (await want deadline t q)
unfolding await
await-Reaches want deadline t q f = elim (Bool-cases (ltb t.now deadline)) [
  | inl early ↦ inl (
    ground arith,
    subst (Waits t.meanwhile want q) (sym (if_true _ _ early)) (wait_for_lem t.meanwhile want q f),
  )
  | inr due ↦ inr (ground arith, ap (λ (o : Outcome Bool × Ring). o.1) (if_false _ _ due))
]

-- What a round waits for: a chunk, and the reserve.
abbrev pub wanted : ℕ → ℕ
wanted frames = frames * channels + reserve_frames * channels

-- A round that sent a chunk of `held`, the ring at its deadline, or as soon as it holds enough.
pub record Sends (frames : ℕ) (t : Turn) (s s' : Stream) : Type 0 where
  pub answer : Bool
  pub held : Ring
  pub reached : Reaches (wanted frames) (s.next + chunk frames) t s.ring (returned answer, held)
  pub audio : List ℕ
  pub bytes : s'.sent ≡ s.sent ++ audio
  pub samples : read_samples audio ≡ map u16 (padded (frames * channels) (contents held))
  pub size : length audio ≡ frames * 4
  pub left : contents s'.ring ≡ drop (frames * channels) (contents held)
  pub valid : IsValid s'.ring
  pub real_time : s.next + chunk frames ≤ s'.next
  pub no_burst : t.after ≤ s'.next + chunk frames

deadline_lem :
    (step next after restart : ℕ)
    → after ≤ restart
    → let next' = if ltb step (after - next) then restart else next in
      (next ≤ next') × (after ≤ next' + step)
deadline_lem step next after restart h = ground arith

after_wait-Sends :
    (frames : ℕ) (t : Turn) (s : Stream) (out : Outcome Bool × Ring)
    → Goes out
    → Reaches (wanted frames) (s.next + chunk frames) t s.ring out
    → t.accepted ≡ true
    → t.after ≤ t.restart
    → (s' : Stream) × (after_wait frames t s out ≡ streaming s') × Sends frames t s s'
unfolding after_wait
after_wait-Sends frames t s (blocked, q) (b, e, v) reached taken clock = absurd (ground arith)
after_wait-Sends frames t s (returned full, q) (b, e, v) reached taken clock =
    let size : ℕ = frames * channels in
    let r = read_now_refines size q v in
    let dst : List ℕ = (read_now size q).0.dst in
    let (forward, near) =
      deadline_lem (chunk frames) (s.next + chunk frames) t.after t.restart clock in
    (
      _,
      if_true _ _ taken,
      record {
        answer = full;
        held = q;
        reached = reached;
        audio = raw_bytes dst;
        bytes = refl;
        samples = read_samples-raw_bytes dst ∙ ap (map u16) r.0;
        size = omega (arith, length-raw_bytes dst, r.2);
        left = r.3;
        valid = r.6;
        real_time = forward;
        no_burst = near;
      },
    )

-- With a valid ring and a clock that does not go back, a round whose deadline fires and whose
-- bytes are taken goes on. Before its deadline it waits until the ring holds a chunk and the
-- reserve, but not beyond the deadline; what it waits in takes nothing from the ring. Then it sends
-- exactly one chunk: the oldest samples that the ring holds by then as little-endian int16, and
-- silence for what is missing, and takes just these from the ring. The deadline moves on by a chunk at least,
-- and is never more than a chunk behind the clock, so that the stream does not make up for lost
-- time in a burst. The ring stays valid.
pub send_chunk-Sends :
    (frames : ℕ) (t : Turn) (s : Stream)
    → IsValid s.ring
    → Expires t.meanwhile
    → t.accepted ≡ true
    → t.after ≤ t.restart
    → (s' : Stream) × (send_chunk frames t s ≡ streaming s') × Sends frames t s s'
unfolding send_chunk
send_chunk-Sends frames t s v f taken clock =
    after_wait-Sends frames t s _ (await-Goes _ (s.next + chunk frames) t v f)
      (await-Reaches (wanted frames) (s.next + chunk frames) t s.ring f) taken clock
