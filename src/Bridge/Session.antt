-- ===== src/Bridge/Session.antt =====
-- internal/bridge/bridge.go: the sessions of one zone and the player that they start and stop.
pub mod Accounts
pub mod Address
use sonospoof.Base.{
  ℕ, zero, suc, ◌+◌, ◌*◌, ◌/◌, ◌%◌, Bool, true, false, ◌||◌, if◌then◌else◌, Option, none, some,
  List, [], ◌∷◌, ◌++◌, Text, codes, same,
}
use sonospoof.Audio.Wav.{sample_rate, channels}
use sonospoof.Sonos.Zones.{Zone}
use sonospoof.Sonos.Client
use sonospoof.Sonos.Client.{Post, Answer, Result, set_stream_and_play}
use sonospoof.Bridge.Advertise.{hex_digit}

-- `hex.EncodeToString`
abbrev pub hex_text : List ℕ → Text
hex_text [] = []
hex_text (x ∷ xs) = hex_digit (x / 16) ∷ hex_digit (x % 16) ∷ hex_text xs

-- `newNonce`; the random source gives eight bytes, or fails.
unfoldable pub new_nonce : Option (List ℕ) → Option Text
new_nonce none = none
new_nonce (some bytes) = some (hex_text bytes)

-- The fields of `Bridge` that a session changes, with the calls of `Start` and `Stop` that are
-- under way: `Start` runs in a goroutine of its own. `waiting` holds the addresses and titles of
-- those that wait for the buffer, `commanded` counts those that have started the player but not
-- yet set the flag, and `stopping` the calls of `Stop` that have cleared the flag but not yet
-- commanded the player. `unstopped` says whether the last command to stop failed.
pub record Bridge {ℓ} (Network : Type ℓ) : Type ℓ where
  pub zone : Zone
  pub stream_host : Text
  pub nonce : Text
  pub playing : Bool
  pub waiting : List (Text × Text)
  pub commanded : ℕ
  pub stopping : ℕ
  pub unstopped : Bool
  pub net : Network

-- The sample counts of the buffer: what it holds, and what `Start` waits for.
abbrev pub ring_seconds : ℕ
ring_seconds = 2

abbrev pub ring_samples : ℕ
ring_samples = sample_rate * channels * ring_seconds

abbrev pub prebuffer_samples : ℕ
prebuffer_samples = sample_rate * channels / 2

-- `New`
unfoldable pub new {ℓ} : {Network : Type ℓ} → Zone → Text → Network → Bridge Network
new z host net = record {
  zone = z;
  stream_host = host;
  nonce = [];
  playing = false;
  waiting = [];
  commanded = 0;
  stopping = 0;
  unstopped = false;
  net = net;
}

unfoldable pub path_locked {ℓ} : {Network : Type ℓ} → Bridge Network → Text
path_locked b = codes "/zone/" ++ b.zone.coordinator_uuid ++ codes "/" ++ b.nonce ++ codes ".wav"

unfoldable pub session_title : Text → Text
session_title name = if same name [] then codes "AirPlay" else name

-- The `i`th of the calls that wait, and the others.
abbrev pub pick {ℓ} : {A : Type ℓ} → ℕ → List A → Option (A × List A)
pick i [] = none
pick zero (x ∷ xs) = some (x, xs)
pick (suc i) (x ∷ xs) = elim (pick i xs) [ none ↦ none | some p ↦ some (p.0, x ∷ p.1) ]

-- What the goroutines of one bridge do next, in any order.
pub data Event : Type 0 where
  start_called : Option (List ℕ) → Text → Event
  primed : ℕ → Event
  flag_set : Event
  stop_called : Event
  stop_sent : Event
  volume_set : ℕ → Event

module _ {ℓ} {Network : Type ℓ} (http : Network → Post → Network × Answer) where
  -- `Start` up to the wait: the nonce, the address and the title.
  unfoldable pub start_begin : Bridge Network → Option (List ℕ) → Text → Bridge Network
  unfolding new_nonce path_locked session_title
  start_begin b random name = elim (new_nonce random) [
    | none ↦ b
    | some nonce ↦
        let c : Bridge Network = record b { nonce = nonce } in
        let url = codes "http://" ++ b.stream_host ++ path_locked c in
        record c { waiting = b.waiting ++ (url, session_title name) ∷ [] }
  ]

  -- `Start` after the wait, with enough in the buffer or without: the command to the player.
  unfoldable pub command_done :
      Bridge Network → List (Text × Text) → Network × Result Text → Bridge Network
  command_done b rest (net, Result.failed e) = record b { net = net; waiting = rest }
  command_done b rest (net, Result.done body) = record b {
    net = net;
    waiting = rest;
    commanded = suc b.commanded;
  }

  unfoldable pub command_next :
      Bridge Network → Option ((Text × Text) × List (Text × Text)) → Bridge Network
  unfolding command_done
  command_next b none = b
  command_next b (some ((url, title), rest)) =
      command_done b rest (set_stream_and_play http b.net b.zone.ip url title)

  unfoldable pub start_command : Bridge Network → ℕ → Bridge Network
  unfolding command_next
  start_command b i = command_next b (pick i b.waiting)

  -- `Start` sets the flag.
  abbrev pub set_flag : Bridge Network → ℕ → Bridge Network
  set_flag b zero = b
  set_flag b (suc n) = record b { commanded = n; playing = true }

  unfoldable pub start_finish : Bridge Network → Bridge Network
  start_finish b = set_flag b b.commanded

  -- `Stop` reads and clears the flag; it goes on only if the flag was set.
  abbrev pub clear_flag : Bridge Network → Bool → Bridge Network
  clear_flag b true = record b { playing = false; stopping = suc b.stopping }
  clear_flag b false = record b { playing = false }

  unfoldable pub stop_begin : Bridge Network → Bridge Network
  stop_begin b = clear_flag b b.playing

  abbrev pub is_failed : Result Text → Bool
  is_failed (Result.failed e) = true
  is_failed (Result.done body) = false

  -- `Stop` commands the player; an error is only logged.
  abbrev pub send_stop : Bridge Network → ℕ → Bridge Network
  send_stop b zero = b
  send_stop b (suc n) =
      let sent = Client.stop http b.net b.zone.ip in
      record b { net = sent.0; stopping = n; unstopped = is_failed sent.1 }

  unfoldable pub stop_command : Bridge Network → Bridge Network
  stop_command b = send_stop b b.stopping

  -- `SetVolume`, with the volume that `VolumeToSonos` gives.
  unfoldable pub set_volume : Bridge Network → ℕ → Bridge Network
  set_volume b vol = record b { net = (Client.set_volume http b.net b.zone.ip vol).0 }

  unfoldable pub step : Bridge Network → Event → Bridge Network
  unfolding start_begin start_command start_finish stop_begin stop_command set_volume
  step b (start_called random name) = start_begin b random name
  step b (primed i) = start_command b i
  step b flag_set = start_finish b
  step b stop_called = stop_begin b
  step b stop_sent = stop_command b
  step b (volume_set vol) = set_volume b vol

  unfoldable pub run : Bridge Network → List Event → Bridge Network
  unfolding step
  run b [] = b
  run b (e ∷ es) = run (step b e) es
