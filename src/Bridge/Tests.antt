-- ===== src/Bridge/Tests.antt =====
-- A bridge and a player by hand.
use sonospoof.Base.{
  ℕ, Bool, true, false, ◌≡◌, refl, some, none, List, [], ◌∷◌, ◌++◌, map, take, length, ◌≤◌, ◌⊎◌,
  Text, codes, same, if◌then◌else◌, inl, inr, same→≡, arith, itoa,
}
use sonospoof.Sonos.Zones.{Player, Zone, uuid, raop_id}
use sonospoof.Sonos.Client
use sonospoof.Sonos.Client.{Post, Answer}
use sonospoof.Bridge.Advertise.{to_upper, instance_name}
use sonospoof.Bridge.Advertise.Name.{instance_name-raop_id}
use sonospoof.Bridge.Filename.{IsFilename, safe_filename, safe_filename-IsFilename}
use sonospoof.Bridge.Session.{Event, new, run}
use sonospoof.Bridge.Serve.{Connection, IsEndless, dump_name, serve_stream, serve_stream-IsEndless}
use sonospoof.Audio.Ring.{Ring, written, woken, expired}
use sonospoof.Audio.Ring.Inv.{IsValid}
use sonospoof.Audio.Wav.{Turn}
use sonospoof.Audio.Ring.WaitFor.{Expires}
use sonospoof.Bridge.Session.Accounts.{play_action, stop_action, IsAccounted, run-IsAccounted}

abbrev den : Player
den = record {
  ip = codes "10.0.0.8";
  room_name = codes "Den";
  model_name = codes "One";
  udn = codes "uuid:RINCON_B8E937EFDE1501400";
}

abbrev den_mac : List ℕ
den_mac = 0xb8 ∷ 0xe9 ∷ 0x37 ∷ 0xef ∷ 0xde ∷ 0x15 ∷ []

den_id : raop_id den ≡ some den_mac
unfolding raop_id
den_id = refl

instance_name-raop_id_example :
    (rest : Text) × (uuid den ≡ codes "RINCON_" ++ rest)
    × (12 ≤ length rest)
    × (length den_mac ≡ 6)
    × (instance_name (codes "Den") den_mac
        ≡ map to_upper (take 12 rest) ++ codes "@" ++ codes "Den")
instance_name-raop_id_example = instance_name-raop_id den (codes "Den") den_mac den_id

hostile : safe_filename (codes "../../etc/cron.d/x") ≡ codes "etccrondx"
unfolding safe_filename
hostile = refl

safe_filename-IsFilename_example : IsFilename (safe_filename (codes "../../etc/cron.d/x"))
safe_filename-IsFilename_example = safe_filename-IsFilename (codes "../../etc/cron.d/x")

-- A player that does what it is told: whether it sounds.
abbrev accept : Bool → Post → Bool × Answer
accept sounds p = (
  if same p.soap_action play_action
      then true
      else if same p.soap_action stop_action
      then false
      else sounds,
  Answer.answered 200 [],
)

abbrev den_zone : Zone
den_zone = record {
  name = codes "Den";
  coordinator_uuid = codes "RINCON_B8E937EFDE1501400";
  ip = codes "10.0.0.8";
  raop_id = none;
  members = codes "Den" ∷ [];
}

abbrev the_host : Text
the_host = codes "10.0.0.2:8000"

heard :
    (play stop sounds : Bool)
    → (if play then true else if stop then false else sounds) ≡ true
    → (play ≡ true) ⊎ (sounds ≡ true)
heard true stop sounds h = inl refl
heard false true sounds h = cc
heard false false sounds h = inr h

accept_plays :
    (sounds : Bool) (p : Post)
    → (accept sounds p).0 ≡ true
    → (sounds ≡ true)
      ⊎ ((p.soap_action ≡ play_action)
          × (body : Text) × ((accept sounds p).1 ≡ Answer.answered 200 body))
accept_plays sounds p h =
    elim (heard (same p.soap_action play_action) (same p.soap_action stop_action) sounds h) [
      | inl e ↦ inr (same→≡ p.soap_action play_action e, [], refl)
      | inr e ↦ inl e
    ]

accept_stops :
    (sounds : Bool) (p : Post) (body : Text)
    → p.soap_action ≡ stop_action
    → (accept sounds p).1 ≡ Answer.answered 200 body
    → (accept sounds p).0 ≡ false
accept_stops sounds p body e h = rw e refl

abbrev session : List Event
session =
    Event.start_called (some (1 ∷ 2 ∷ 3 ∷ 4 ∷ 5 ∷ 6 ∷ 7 ∷ 8 ∷ [])) []
    ∷ Event.primed 0
    ∷ Event.flag_set
    ∷ Event.volume_set 30
    ∷ Event.stop_called
    ∷ Event.stop_sent
    ∷ []

run-IsAccounted_example :
    IsAccounted (λ sounds. sounds) (run accept (new den_zone the_host false) session)
run-IsAccounted_example =
    run-IsAccounted accept (λ sounds. sounds) accept_plays accept_stops den_zone the_host false
      session refl

session_silent : (run accept (new den_zone the_host false) session).net ≡ false
unfolding run new Client.set_stream_and_play Client.stop
session_silent = refl

-- A Stop that comes while Start still waits for the buffer does nothing, and Start goes on.
late_start :
    (run accept (new den_zone the_host false) (
      Event.start_called (some (1 ∷ 2 ∷ 3 ∷ 4 ∷ 5 ∷ 6 ∷ 7 ∷ 8 ∷ [])) []
      ∷ Event.stop_called
      ∷ Event.primed 0
      ∷ Event.flag_set
      ∷ [])).net
    ≡ true
unfolding run new Client.set_stream_and_play
late_start = refl

-- A tenth of a second in which two samples arrive.
abbrev tenth : Turn
tenth = record {
  now = 2000;
  meanwhile = written (9 ∷ 8 ∷ []) ∷ woken ∷ expired ∷ [];
  accepted = true;
  after = 50000;
  restart = 50010;
}

abbrev small_ring : Ring
small_ring = record {
  buf = 5 ∷ 6 ∷ 7 ∷ [];
  r = 1;
  w = 0;
  n = 2;
  wake = false;
  underrun = 0;
  dropped = 0;
}

small_ring-IsValid : IsValid small_ring
small_ring-IsValid = record {
  room = omega arith;
  r_in = omega arith;
  held = omega arith;
  w_at = refl;
  dropped_fits = omega arith;
  underrun_fits = omega arith;
}

abbrev dumped : Connection
dumped = record {
  dump_dir = codes "/tmp";
  nanos = 42;
  created = true;
  header_taken = true;
  can_flush = true;
  begin = 1000;
  turns = tenth ∷ tenth ∷ tenth ∷ tenth ∷ tenth ∷ tenth ∷ tenth ∷ tenth ∷ [];
}

serve_stream-IsEndless_example :
    IsEndless small_ring dumped (serve_stream (new den_zone the_host false) small_ring dumped)
serve_stream-IsEndless_example =
    let g : Expires tenth.meanwhile × (tenth.accepted ≡ true) × (tenth.after ≤ tenth.restart) =
      (tt, refl, omega arith) in
    serve_stream-IsEndless (new den_zone the_host false) small_ring dumped small_ring-IsValid
      (g, (g, (g, (g, (g, (g, (g, (g, tt)))))))) refl (omega arith)

dump_of_den :
    (serve_stream (new den_zone the_host false) small_ring dumped).dump
    ≡ some (codes "/tmp", codes "Den-42.wav")
unfolding serve_stream new dump_name safe_filename itoa
dump_of_den = refl

-- Nothing is streamed if the header is not written.
abbrev refused : Connection
refused = record dumped { header_taken = false }

header_refused : (serve_stream (new den_zone the_host false) small_ring refused).stream ≡ none
unfolding serve_stream
header_refused = refl
