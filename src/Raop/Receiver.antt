-- ===== src/Raop/Receiver.antt =====
-- internal/raop/rtsp.go: the receiver's session.
--
-- What the receiver does to the world is a list of effects, oldest first. A connection, a socket
-- and a volume are numbers. What the OS and the text of a request decide is an argument: the result
-- of ParseSDP for ANNOUNCE; the three binds and the control port that the Transport header names for
-- SETUP; the volumes that a SET_PARAMETER body sets; Raop.Wire makes these of the text. A request, a
-- datagram and the end of a connection are one step each. The decoder writes to the receiver's own
-- ring. Of a response, the status is kept; Raop.Wire has its text.
pub mod Session
pub mod Announce
pub mod Sockets
pub mod Calls
pub mod Handler
use sonospoof.Base.{
  ℕ, zero, suc, ◌+◌, ◌^◌, Bool, true, false, not, ◌&&◌, List, [], ◌∷◌, ◌++◌, map, Option, none,
  some, ◌==◌, ltb, if◌then◌else◌,
}
use sonospoof.Audio.Ring.{Ring}
use sonospoof.Audio.Ring
use sonospoof.Raop.Rtp.{AudioDecoder, new_audio_decoder, on_missing, Verdict, fine, packet}
use sonospoof.Raop.Sdp.{Sdp}

-- What a session does to its `Handler`, the sockets opened and closed, and the calls of `onMissing`,
-- which asks for packets again (Raop.Resend). `launched` is the launch
-- of a goroutine that calls Start, `stopped` and `volume` are calls; Calls.Sees says when a launched
-- Start reaches the handler.
pub data Effect : Type 0 where
  launched : List ℕ → Effect
  stopped : Effect
  volume : ℕ → Effect
  opened closed : ℕ → Effect
  missed : ℕ × ℕ → Effect

-- `Receiver`; `resend` is the port of the requester, `handler` says whether one is set.
pub record Receiver : Type 0 where
  pub ring : Ring
  pub handler : Bool
  pub dec : Option AudioDecoder
  pub udp : List ℕ
  pub running : Bool
  pub session_name : List ℕ
  pub owner : Option ℕ
  pub resend : Option ℕ

pub data Status : Type 0 where
  ok_200 bad_request_400 unsupported_transport_461 server_error_500 not_implemented_501 : Status

-- The Transport header, and what the three calls of `bindUDP` return. A control port of 0 stands for
-- one that is not given, and for a peer with no TCP address.
pub record Transport : Type 0 where
  pub is_udp : Bool
  pub control_port : ℕ
  pub server : Option ℕ
  pub control : Option ℕ
  pub timing : Option ℕ

pub data Request : Type 0 where
  options get_parameter pause flush record_ teardown_ unknown : Request
  announce : Option Sdp → Request
  setup : Transport → Request
  set_parameter : List ℕ → Request

abbrev pub or_nil : Option (List ℕ) → List ℕ
or_nil none = []
or_nil (some bytes) = bytes

-- `announce` after ParseSDP; `none` is an error.
pub announced : Receiver → ℕ → Sdp → Option Receiver
announced r conn sdp = elim sdp.session_key [
  | none ↦ none
  | some key ↦ elim (new_audio_decoder key (or_nil sdp.iv) sdp.config r.ring) [
    | none ↦ none
    | some dec ↦ some (record r { dec = some dec; session_name = sdp.name; owner = some conn })
  ]
]

-- `closeUDP`
unfoldable pub close_udp : Receiver → Receiver × List Effect
close_udp r = (record r { udp = [] }, map closed r.udp)

-- The decoder's `onMissing`, where a requester exists and a decoder does.
pub install : Option ℕ → Option AudioDecoder → Option AudioDecoder
install none dec = dec
install (some port) none = none
install (some port) (some dec) = some (on_missing dec)

-- The end of `setup`, with the three sockets bound.
pub bound : Receiver → ℕ → ℕ → ℕ → ℕ → Receiver
bound r control_port server control timing =
    let requester = if ltb 0 control_port then some control_port else none in
    record r {
      udp = server ∷ control ∷ timing ∷ [];
      resend = requester;
      dec = install requester r.dec;
    }

-- `setup`: a bind that fails leaves the sockets open that were bound before it. It is one step:
-- SETUPs that run at once, which close, bind and store their sockets in turns, are outside of the
-- model.
pub set_up : Receiver → Transport → Status × Receiver × List Effect
set_up r t =
    let (r₁, effects) = close_udp r in
    let rest : Status × Receiver × List Effect = elim t.server [
      | none ↦ (unsupported_transport_461, r₁, effects)
      | some s ↦ elim t.control [
        | none ↦ (unsupported_transport_461, r₁, effects ++ opened s ∷ [])
        | some c ↦ elim t.timing [
          | none ↦ (unsupported_transport_461, r₁, effects ++ opened s ∷ opened c ∷ [])
          | some m ↦ (
            ok_200,
            bound r₁ t.control_port s c m,
            effects ++ opened s ∷ opened c ∷ opened m ∷ [],
          )
        ]
      ]
    ] in
    if t.is_udp then rest else (unsupported_transport_461, r, [])

-- A call of the handler, or its launch, if there is one.
unfoldable pub call : Receiver → Effect → List Effect
call r e = if r.handler then e ∷ [] else []

-- `record`, which launches a goroutine for `Start`.
unfoldable pub start_recording : Receiver → Receiver × List Effect
start_recording r =
    if r.running
    then (r, [])
    else (record r { running = true; ring = Ring.reset r.ring }, call r (launched r.session_name))

-- `teardown`
unfoldable pub tear_down : Receiver → Receiver × List Effect
tear_down r =
    let r₁ = record r { running = false; dec = none; owner = none; resend = none } in
    let (r₂, effects) = close_udp r₁ in
    (record r₂ { ring = Ring.reset r₂.ring }, effects ++ (if r.running then call r stopped else []))

-- `setParameter`, one call for each volume that it finds.
pub set_volumes : Receiver → List ℕ → List Effect
set_volumes r [] = []
set_volumes r (db ∷ dbs) = call r (volume db) ++ set_volumes r dbs

-- `handle`
unfoldable pub handle : Receiver → ℕ → Request → Status × Receiver × List Effect
handle r conn options = (ok_200, r, [])
handle r conn (announce none) = (bad_request_400, r, [])
handle r conn (announce (some sdp)) = elim (announced r conn sdp) [
  | none ↦ (bad_request_400, r, [])
  | some r' ↦ (ok_200, r', [])
]
handle r conn (setup t) = set_up r t
handle r conn record_ = let (r', effects) = start_recording r in (ok_200, r', effects)
handle r conn flush = (ok_200, record r { ring = Ring.reset r.ring }, [])
handle r conn teardown_ = let (r', effects) = tear_down r in (ok_200, r', effects)
handle r conn (set_parameter dbs) = (ok_200, r, set_volumes r dbs)
handle r conn get_parameter = (ok_200, r, [])
handle r conn pause = (ok_200, r, [])
handle r conn unknown = (not_implemented_501, r, [])

-- `closeIfOwner`, when the connection's loop ends.
unfoldable pub close_if_owner : Receiver → ℕ → Receiver × List Effect
close_if_owner r conn = elim r.owner [
  | none ↦ tear_down r
  | some o ↦ if o == conn then tear_down r else (r, [])
]

-- What happens to a receiver, in the order in which it takes the mutex. `shut` is `Close`.
pub data Event : Type 0 where
  request : ℕ → Request → Event
  hung_up : ℕ → Event
  datagram : List ℕ → Event
  shut : Event

module _ (inverse : List ℕ → List ℕ) where
  -- The loop body of `readPackets`.
  pub read_packet : Receiver → List ℕ → Verdict × Receiver × List Effect
  read_packet r pkt = elim r.dec [
    | none ↦ (fine, r, [])
    | some dec ↦
        let (v, dec') = packet inverse (record dec { ring = r.ring; asked = [] }) pkt in
        (v, record r { dec = some dec'; ring = dec'.ring }, map missed dec'.asked)
  ]

  unfoldable pub step : Receiver → Event → Receiver × List Effect
  step r (request conn req) = let (_, r', effects) = handle r conn req in (r', effects)
  step r (hung_up conn) = close_if_owner r conn
  step r (datagram pkt) = let (_, r', effects) = read_packet r pkt in (r', effects)
  step r shut = tear_down r

  -- Steps in order, of a program that goes on: a datagram whose verdict is `crashed` would end it.
  unfoldable pub run : Receiver → List Event → Receiver × List Effect
  run r [] = (r, [])
  run r (e ∷ es) = let (r₁, now) = step r e in let (r₂, later) = run r₁ es in (r₂, now ++ later)
