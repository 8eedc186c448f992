-- ===== src/Sonos/Discovery.antt =====
-- internal/sonos/client.go: finding the players, and what they report.
use sonospoof.Base.{
  ℕ, Bool, true, false, ◌&&◌, ◌||◌, not, if◌then◌else◌, Option, none, some, List, [], ◌∷◌, ◌++◌,
  map, Text, codes, same, cut_prefix, trim, is_space, sort_by,
}
use sonospoof.Sonos.Zones.{Player, Group, GroupMember}
use sonospoof.Sonos.Client.{
  Post, Answer, Failure, Result, soap, topology_path, topology_type, av_transport_path,
  av_transport_type, rendering_path, rendering_type,
}

abbrev pub ssdp_multicast : Text
ssdp_multicast = codes "239.255.255.250:1900"

abbrev pub ssdp_target : Text
ssdp_target = codes "urn:schemas-upnp-org:device:ZonePlayer:1"

-- The search that `Discover` sends three times.
unfoldable pub msearch : Text
msearch =
    codes "M-SEARCH * HTTP/1.1\r\nHOST: "
    ++ ssdp_multicast
    ++ codes "\r\nMAN: \"ssdp:discover\"\r\nMX: 1\r\nST: "
    ++ ssdp_target
    ++ codes "\r\n\r\n"

-- `bytes.Contains`
abbrev pub contains : Text → Text → Bool
contains [] sub = same sub []
contains (c ∷ s) sub =
    let later = contains s sub in elim (cut_prefix (c ∷ s) sub) [ none ↦ later | some t ↦ true ]

abbrev pub is_seen : List Text → Text → Bool
is_seen [] ip = false
is_seen (x ∷ xs) ip = same x ip || is_seen xs ip

-- The loop over the replies, each the host it comes from and its bytes, up to the deadline.
unfoldable pub collect : List Text → List (Text × Text) → List Text
collect ips [] = ips
collect ips ((host, packet) ∷ replies) =
    let skipped = collect ips replies in
    let kept = collect (ips ++ host ∷ []) replies in
    if not (contains packet (codes "ZonePlayer"))
    then skipped
    else if not (same host []) && not (is_seen ips host)
    then kept
    else skipped

-- HTTP GET gives the body of an answer, or nothing; the three decoders are `xml.Unmarshal` into the
-- structs of the source: room, model and UDN of a device; the state inside an envelope; the groups
-- with coordinator, id and members, each with UUID, location and name. `hostname` parses a location.
module _ {ℓ} {Network : Type ℓ} (http : Network → Post → Network × Answer)
    (fetch : Network → Text → Network × Option Text)
    (unmarshal_device : Text → Option (Text × Text × Text)) (unmarshal_state : Text → Option Text)
    (unmarshal_groups : Text → Option (List (Text × Text × List (Text × Text × Text))))
    (hostname : Text → Text) where
  abbrev pub of_device : Text → Option (Text × Text × Text) → Option Player
  of_device ip none = none
  of_device ip (some (room, model, udn)) =
      some (record { ip = ip; room_name = room; model_name = model; udn = udn })

  abbrev pub of_description : Text → Option Text → Option Player
  of_description ip none = none
  of_description ip (some body) = of_device ip (unmarshal_device body)

  -- `Describe`
  unfoldable pub describe : Network → Text → Network × Option Player
  describe net ip =
      let answer = fetch net (codes "http://" ++ ip ++ codes ":1400/xml/device_description.xml") in
      (answer.0, of_description ip answer.1)

  abbrev pub cons_player : Option Player → List Player → List Player
  cons_player none ps = ps
  cons_player (some p) ps = p ∷ ps

  -- `DescribeAll`
  unfoldable pub describe_all : Network → List Text → Network × List Player
  unfolding describe
  describe_all net [] = (net, [])
  describe_all net (host ∷ hosts) =
      let ip = trim is_space host in
      let described = describe net ip in
      let skipped = describe_all net hosts in
      let rest = describe_all described.0 hosts in
      if same ip [] then skipped else (rest.0, cons_player described.1 rest.1)

  -- `Discover` after the search was sent.
  unfoldable pub discover_replies : Network → List (Text × Text) → Network × List Player
  unfolding describe_all collect
  discover_replies net replies = describe_all net (sort_by (λ s. s) (collect [] replies))

  abbrev pub member_of : Text × Text × Text → GroupMember
  member_of (u, location, name) = record { uuid = u; zone_name = name; ip = hostname location }

  abbrev pub group_of : Text × Text × List (Text × Text × Text) → Group
  group_of (coordinator, id, ms) = record {
    id = id;
    coordinator = coordinator;
    members = map member_of ms;
  }

  abbrev pub of_groups :
      Option (List (Text × Text × List (Text × Text × Text))) → Result (List Group)
  of_groups none = Result.failed Failure.unreadable
  of_groups (some gs) = Result.done (map group_of gs)

  abbrev pub of_state : Option Text → Result (List Group)
  of_state none = Result.failed Failure.unreadable
  of_state (some state) = of_groups (unmarshal_groups state)

  abbrev pub of_topology : Result Text → Result (List Group)
  of_topology (Result.failed e) = Result.failed e
  of_topology (Result.done body) = of_state (unmarshal_state body)

  -- `Topology`
  unfoldable pub topology : Network → Text → Network × Result (List Group)
  topology net ip =
      let sent = soap http net ip topology_path topology_type (codes "GetZoneGroupState") [] in
      (sent.0, of_topology sent.1)

  -- `TransportState` and `Volume`, which read one field of the answer.
  abbrev pub of_field {κ} : {A : Type κ} → (Text → Option A) → Result Text → Result A
  of_field unmarshal (Result.failed e) = Result.failed e
  of_field unmarshal (Result.done body) = elim (unmarshal body) [
    | none ↦ Result.failed Failure.unreadable
    | some v ↦ Result.done v
  ]

  unfoldable pub transport_state : (Text → Option Text) → Network → Text → Network × Result Text
  transport_state unmarshal net ip =
      let sent =
        soap http net ip av_transport_path av_transport_type (codes "GetTransportInfo")
          (codes "<InstanceID>0</InstanceID>") in
      (sent.0, of_field unmarshal sent.1)

  unfoldable pub volume : (Text → Option ℕ) → Network → Text → Network × Result ℕ
  volume unmarshal net ip =
      let sent =
        soap http net ip rendering_path rendering_type (codes "GetVolume")
          (codes "<InstanceID>0</InstanceID><Channel>Master</Channel>") in
      (sent.0, of_field unmarshal sent.1)
