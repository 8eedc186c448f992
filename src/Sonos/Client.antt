-- ===== src/Sonos/Client.antt =====
-- internal/sonos/client.go: the commands to a player.
pub mod Arguments
use sonospoof.Base.{
  ℕ, ◌+◌, ◌*◌, ◌^◌, Bool, true, false, not, ◌==◌, leb, ltb, if◌then◌else◌, Option, none, some, List,
  [], ◌∷◌, ◌++◌, Text, codes, same, trim, is_space, fields, join, take, length, itoa,
}
use sonospoof.Sonos.Escape.{escape}
use sonospoof.Sonos.Zones.{Player, Group, GroupMember}

abbrev pub av_transport_path : Text
av_transport_path = codes "/MediaRenderer/AVTransport/Control"

abbrev pub av_transport_type : Text
av_transport_type = codes "urn:schemas-upnp-org:service:AVTransport:1"

abbrev pub rendering_path : Text
rendering_path = codes "/MediaRenderer/RenderingControl/Control"

abbrev pub rendering_type : Text
rendering_type = codes "urn:schemas-upnp-org:service:RenderingControl:1"

abbrev pub topology_path : Text
topology_path = codes "/ZoneGroupTopology/Control"

abbrev pub topology_type : Text
topology_type = codes "urn:schemas-upnp-org:service:ZoneGroupTopology:1"

-- `didl`
unfoldable pub didl : Text → Text
unfolding escape
didl title =
    codes
      "<DIDL-Lite xmlns:dc=\"http://purl.org/dc/elements/1.1/\" xmlns:upnp=\"urn:schemas-upnp-org:metadata-1-0/upnp/\" xmlns=\"urn:schemas-upnp-org:metadata-1-0/DIDL-Lite/\"><item id=\"R:0/0/0\" parentID=\"R:0/0\" restricted=\"true\"><dc:title>"
    ++ (escape title
        ++ codes
            "</dc:title><upnp:class>object.item.audioItem.audioBroadcast</upnp:class><desc id=\"cdudn\" nameSpace=\"urn:schemas-rinconnetworks-com:metadata-1-0/\">SA_RINCON65031_</desc></item></DIDL-Lite>")

unfoldable pub stream_args : Text → Text → Text
unfolding didl
stream_args url title =
    codes "<InstanceID>0</InstanceID><CurrentURI>"
    ++ (escape url
        ++ (codes "</CurrentURI><CurrentURIMetaData>"
            ++ (escape (didl title) ++ codes "</CurrentURIMetaData>")))

-- `squeeze`
unfoldable pub squeeze : Text → Text
squeeze s =
    let t = join (codes " ") (fields s) in
    if ltb 300 (length t) then take 300 t ++ codes "..." else t

-- The request that `soap` posts.
pub record Post : Type 0 where
  pub url : Text
  pub content_type : Text
  pub soap_action : Text
  pub body : Text

unfoldable pub soap_post : Text → Text → Text → Text → Text → Post
soap_post ip path service_type action args = record {
  url = codes "http://" ++ ip ++ codes ":1400" ++ path;
  content_type = codes "text/xml; charset=\"utf-8\"";
  soap_action = codes "\"" ++ service_type ++ codes "#" ++ action ++ codes "\"";
  body =
      codes
        "<?xml version=\"1.0\" encoding=\"utf-8\"?><s:Envelope xmlns:s=\"http://schemas.xmlsoap.org/soap/envelope/\" s:encodingStyle=\"http://schemas.xmlsoap.org/soap/encoding/\"><s:Body><u:"
      ++ action
      ++ codes " xmlns:u=\""
      ++ service_type
      ++ codes "\">"
      ++ args
      ++ codes "</u:"
      ++ action
      ++ codes "></s:Body></s:Envelope>";
}

-- What HTTP makes of a request: nothing, or a status and a body, read up to a limit.
pub data Answer : Type 0 where
  unreachable : Answer
  answered : ℕ → Text → Answer

pub data Failure : Type 0 where
  no_answer : Failure
  refused : Text → ℕ → Text → Failure
  unreadable : Failure
  in_set_uri in_play : Failure → Failure

pub data Result {ℓ} (A : Type ℓ) : Type ℓ where
  failed : Failure → Result A
  done : A → Result A

-- `soap` after the answer
unfoldable pub read_answer : Text → Answer → Result Text
unfolding squeeze
read_answer action Answer.unreachable = Result.failed Failure.no_answer
read_answer action (Answer.answered status body) =
    if status == 200
    then Result.done body
    else Result.failed (Failure.refused action status (squeeze body))

-- `int` is a pattern of 64 bits, negative from 2 ^ 63.
unfoldable pub clamp_volume : ℕ → ℕ
clamp_volume vol = let low = if leb (2 ^ 63) vol then 0 else vol in if ltb 100 low then 100 else low

abbrev pub of_play : Result Text → Result Text
of_play (Result.failed e) = Result.failed (Failure.in_play e)
of_play (Result.done body) = Result.done body

-- The network is a state that a request changes, such as the players that it reaches.
module _ {ℓ} {Network : Type ℓ} (http : Network → Post → Network × Answer) where
  unfoldable pub soap : Network → Text → Text → Text → Text → Text → Network × Result Text
  unfolding soap_post read_answer
  soap net ip path service_type action args =
      let sent = http net (soap_post ip path service_type action args) in
      (sent.0, read_answer action sent.1)

  -- `SetStreamAndPlay`: `Play` only after the player took the address.
  unfoldable pub play_after : Text → Network × Result Text → Network × Result Text
  unfolding soap
  play_after ip (net, Result.failed e) = (net, Result.failed (Failure.in_set_uri e))
  play_after ip (net, Result.done _) =
      let sent =
        soap net ip av_transport_path av_transport_type (codes "Play")
          (codes "<InstanceID>0</InstanceID><Speed>1</Speed>") in
      (sent.0, of_play sent.1)

  unfoldable pub set_stream_and_play : Network → Text → Text → Text → Network × Result Text
  unfolding soap stream_args play_after
  set_stream_and_play net ip url title = play_after ip (
      soap net ip av_transport_path av_transport_type (codes "SetAVTransportURI")
        (stream_args url title))

  -- `Stop`
  unfoldable pub stop : Network → Text → Network × Result Text
  unfolding soap
  stop net ip =
      soap net ip av_transport_path av_transport_type (codes "Stop")
        (codes "<InstanceID>0</InstanceID><Speed>1</Speed>")

  -- `SetVolume`
  unfoldable pub set_volume : Network → Text → ℕ → Network × Result Text
  unfolding soap clamp_volume
  set_volume net ip vol = soap net ip rendering_path rendering_type (codes "SetVolume") (
      codes "<InstanceID>0</InstanceID><Channel>Master</Channel><DesiredVolume>"
      ++ itoa (clamp_volume vol)
      ++ codes "</DesiredVolume>")
