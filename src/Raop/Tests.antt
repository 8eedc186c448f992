-- ===== src/Raop/Tests.antt =====
-- Datagrams and requests by hand.
use sonospoof.Base.{
  ℕ, ◌+◌, ◌⊎◌, ◌≡◌, refl, true, false, List, [], ◌∷◌, ◌++◌, some, none, arith, length,
  length-append, ap, replicate,
}
use sonospoof.Alac.Decoder.{Config}
use sonospoof.Audio.Ring.{Ring}
use sonospoof.Raop.Reorder.Pending.{lookup}
use sonospoof.Raop.Reorder.{Resequencer}
use sonospoof.Raop.Rtp.{AudioDecoder, packet, decrypt}
use sonospoof.Raop.Rtp.Decrypt.{encrypt, decrypt-encrypt}
use sonospoof.Raop.Rtp.Dispatch
use sonospoof.Raop.Rtp.Dispatch.{packet_resent, packet-IsValid}
use sonospoof.Raop.Resend.{ask, Asked, ask-Asked}
use sonospoof.Raop.Receiver.{
  Receiver, Event, request, hung_up, datagram, setup, options, record_, step, run, handle,
  close_if_owner, tear_down, start_recording, close_udp, call,
}
use sonospoof.Raop.Receiver.Calls.{Call, Sees, Picks, starts, stops, bit}
use sonospoof.Raop.Receiver.Handler.{follow, run-follow}
use sonospoof.Raop.Receiver.Session.{
  Live, Carries, Keeps, HasSetup, calls, Gone, run-Live, hung_up-Gone,
}
use sonospoof.Raop.Receiver.Sockets.{openings, closings, run-Balances}

-- A cipher of blocks of 16 bytes that moves the first byte to the end, and its inverse.
abbrev rotate : List ℕ → List ℕ
rotate [] = []
rotate (b ∷ bs) = bs ++ b ∷ []

abbrev put_second : ℕ → List ℕ → List ℕ
put_second b [] = b ∷ []
put_second b (x ∷ xs) = x ∷ b ∷ xs

abbrev unrotate : List ℕ → List ℕ
unrotate [] = []
unrotate (b ∷ []) = b ∷ []
unrotate (b ∷ c ∷ bs) = put_second b (unrotate (c ∷ bs))

rotate-sized : (block : List ℕ) → length block ≡ 16 → length (rotate block) ≡ 16
rotate-sized [] h = h
rotate-sized (b ∷ bs) h = omega (arith, length-append bs (b ∷ []))

unrotate-append : (b : ℕ) (bs : List ℕ) → unrotate (bs ++ b ∷ []) ≡ b ∷ bs
unrotate-append b [] = refl
unrotate-append b (c ∷ []) = refl
unrotate-append b (c ∷ d ∷ bs) = ap (put_second c) (unrotate-append b (d ∷ bs))

rotate-undone : (block : List ℕ) → length block ≡ 16 → unrotate (rotate block) ≡ block
rotate-undone [] h = refl
rotate-undone (b ∷ bs) h = unrotate-append b bs

abbrev small_ring : Ring
small_ring = record {
  buf = 0 ∷ 0 ∷ 0 ∷ 0 ∷ [];
  r = 0;
  w = 0;
  n = 0;
  wake = false;
  underrun = 0;
  dropped = 0;
}

abbrev airplay : Config
airplay = record {
  frame_length = 352;
  compatible_version = 0;
  bit_depth = 16;
  pb = 40;
  mb = 10;
  kb = 14;
  num_channels = 2;
  max_run = 255;
  max_frame_bytes = 0;
  avg_bit_rate = 0;
  sample_rate = 44100;
}

abbrev fresh : Resequencer (List ℕ)
fresh = record {
  next = 0;
  started = false;
  pending = [];
  on_missing = false;
  requested = 0;
  have_requested = false;
  reordered = 0;
  lost = 0;
  late = 0;
}

abbrev decoder : AudioDecoder
decoder = record {
  iv = 1 ∷ 2 ∷ 3 ∷ 4 ∷ 5 ∷ 6 ∷ 7 ∷ 8 ∷ 9 ∷ 10 ∷ 11 ∷ 12 ∷ 13 ∷ 14 ∷ 15 ∷ 16 ∷ [];
  config = airplay;
  ring = small_ring;
  queue = fresh;
  pcm = replicate 704 0;
  packets = 0;
  decrypted = 0;
  errors = 0;
  asked = [];
}

-- An audio packet of two bytes.
abbrev sound : List ℕ
sound = 128 ∷ 96 ∷ 0 ∷ 7 ∷ 0 ∷ 0 ∷ 0 ∷ 0 ∷ 0 ∷ 0 ∷ 0 ∷ 0 ∷ 224 ∷ 0 ∷ []

abbrev bytes : List ℕ
bytes = replicate 15 9 ++ 200 ∷ 17 ∷ 18 ∷ []

decrypt-encrypt_example : (decrypt unrotate decoder (encrypt rotate decoder.iv bytes)).0 ≡ bytes
decrypt-encrypt_example =
    decrypt-encrypt rotate unrotate rotate-sized rotate-undone decoder bytes refl

packet_resent_example :
    packet unrotate decoder (128 ∷ 214 ∷ 0 ∷ 7 ∷ sound) ≡ packet unrotate decoder sound
packet_resent_example = packet_resent unrotate decoder 128 214 0 7 sound refl (omega arith) refl

decoder-IsValid : Dispatch.IsValid decoder
decoder-IsValid = record {
  ring_valid = record {
    room = omega arith;
    r_in = omega arith;
    held = omega arith;
    w_at = refl;
    dropped_fits = omega arith;
    underrun_fits = omega arith;
  };
  queue_valid = record {
    holds = record { next_fits = omega arith; distinct = tt; held = tt; lost_fits = omega arith };
    gap = unfold lookup in refl;
    bounded = omega arith;
    idle = λ off. refl;
  };
}

sound-AllBytes : Dispatch.AllBytes sound
sound-AllBytes = (
  omega arith,
  (
    omega arith,
    (
      omega arith,
      (
        omega arith,
        (
          omega arith,
          (
            omega arith,
            (
              omega arith,
              (
                omega arith,
                (
                  omega arith,
                  (omega arith, (omega arith, (omega arith, (omega arith, (omega arith, tt))))),
                ),
              ),
            ),
          ),
        ),
      ),
    ),
  ),
)

packet-IsValid_example :
    let (v, a') = packet unrotate decoder sound in Dispatch.IsValid a' × (length a'.ring.buf ≡ 4)
packet-IsValid_example = packet-IsValid unrotate decoder sound decoder-IsValid sound-AllBytes

-- A receiver that streams to connection 1.
abbrev streaming : Receiver
streaming = record {
  ring = small_ring;
  handler = true;
  dec = some decoder;
  udp = 50 ∷ 51 ∷ 52 ∷ [];
  running = true;
  session_name = [];
  owner = some 1;
  resend = none;
}

-- Connection 2 sets up again, with a third bind that fails, and ends.
abbrev disturbance : List Event
disturbance =
    request 2 options
    ∷ request 2 (
        setup (record {
          is_udp = true;
          control_port = 6001;
          server = some 60;
          control = some 61;
          timing = none;
        }))
    ∷ request 2 record_
    ∷ datagram sound
    ∷ hung_up 2
    ∷ []

-- The session ends, and a third connection records.
abbrev changeover : List Event
changeover = hung_up 1 ∷ request 3 record_ ∷ hung_up 3 ∷ []

-- Stop reaches the handler before the Start that was launched before it.
abbrev overtaken : List Call
overtaken = Call.stop ∷ Call.stop ∷ Call.start [] ∷ []

overtaken_seen : Sees [] (run unrotate streaming changeover).1 overtaken
unfolding run step handle close_if_owner tear_down start_recording close_udp call
overtaken_seen = Sees.see_closed (
    Sees.see_closed (
      Sees.see_closed
        (Sees.see_stop (Sees.launch (Sees.see_stop (Sees.reach Picks.first Sees.all_seen))))))

run-follow_example :
    let (r', effects) = run unrotate streaming changeover in
    (follow true effects ≡ some r'.running)
    × (starts overtaken + bit true ≡ stops overtaken + bit r'.running)
run-follow_example = run-follow unrotate streaming changeover overtaken refl overtaken_seen

streaming-Live : Live unrotate 1 decoder streaming
streaming-Live = record {
  owned = refl;
  runs = refl;
  decoder = decoder;
  decodes = refl;
  carried = Carries.untouched;
}

run-Live_example :
    let (r', effects) = run unrotate streaming disturbance in
    Live unrotate 1 decoder r' × (calls effects ≡ 0) × (Keeps streaming r' ⊎ HasSetup disturbance)
run-Live_example =
    run-Live unrotate 1 decoder disturbance streaming-Live
      (tt, (tt, (tt, (tt, ((λ e. absurd (omega arith)), tt)))))

hung_up-Gone_example : Gone unrotate (step unrotate streaming (hung_up 1)).0
hung_up-Gone_example = hung_up-Gone unrotate streaming 1 refl

run-Balances_example :
    let (r', effects) = run unrotate streaming disturbance in
    3 + openings effects ≡ closings effects + length r'.udp + 2
run-Balances_example = run-Balances unrotate streaming disturbance

ask-Asked_example :
    Asked true
      (record { usable = true; seq = 65535; requested = 7 })
      65534
      3
      (ask true (record { usable = true; seq = 65535; requested = 7 }) 65534 3)
ask-Asked_example =
    ask-Asked true (record { usable = true; seq = 65535; requested = 7 }) 65534 3 refl (omega arith)
      (omega arith) (omega arith)
