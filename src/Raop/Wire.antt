-- ===== src/Raop/Wire.antt =====
-- internal/raop/rtsp.go: the text of requests and responses.
--
-- What comes in is a list of characters; its header lines are ASCII. A body has as many bytes as its
-- length says. A length that ends within a character, where the source goes on with what is left of
-- it, is `torn`, and outside of the model.
pub mod RoundTrip
use sonospoof.Raop.Sdp.{Sdp, Parsed, parse_sdp, contains}
use sonospoof.Raop.Receiver.{Request, Status, Transport}
use sonospoof.Raop.Challenge.{Response, apple_response}
use sonospoof.Base.{
  ℕ, ◌+◌, ◌-◌, ◌^◌, Bool, true, false, ◌&&◌, ◌||◌, ◌==◌, leb, ltb, if◌then◌else◌, Option, none,
  some, List, [], ◌∷◌, ◌++◌, map, Text, codes, same, cut, split, fields, trim, trim_right, is_space,
  atoi, itoa, length, byte_size, split_bytes,
}

-- `request`; the headers that were read last come first.
pub record Message : Type 0 where
  pub method : Text
  pub target : Text
  pub headers : List (Text × Text)
  pub body : Text

-- `headers[key]`: a key that is missing reads as the empty text, and a later header wins.
abbrev pub get : List (Text × Text) → Text → Text
get [] key = []
get ((k, v) ∷ hs) key = if same k key then v else get hs key

abbrev pub is_break : ℕ → Bool
is_break c = c == 13 || c == 10

-- `strings.ToLower` of ASCII
abbrev pub to_lower : ℕ → ℕ
to_lower c = if leb b'A' c && leb c b'Z' then c + 32 else c

-- One header line; a line without a colon is skipped.
abbrev pub add_parts : List (Text × Text) → Option (Text × Text) → List (Text × Text)
add_parts hs none = hs
add_parts hs (some (k, v)) = (map to_lower (trim is_space k), trim is_space v) ∷ hs

abbrev pub add_header : List (Text × Text) → Text → List (Text × Text)
add_header hs line = add_parts hs (cut b':' line)

-- The loop over the header lines, up to an empty one; `line` is what has come of the line that is
-- being read. `none` is an end of the input before that.
abbrev pub read_headers : Text → List (Text × Text) → Text → Option (List (Text × Text) × Text)
read_headers line hs [] = none
read_headers line hs (c ∷ s) =
    let h = trim_right is_break line in
    let next = read_headers [] (add_header hs h) s in
    let longer = read_headers (line ++ c ∷ []) hs s in
    if c == 10 then (if same h [] then some (hs, s) else next) else longer

-- What `readRequest` comes to. `ended` is an end of the input, `crashed` a body length that `make`
-- refuses with a panic.
pub data Outcome : Type 0 where
  ended malformed crashed torn : Outcome
  received : Message → Text → Outcome

abbrev pub is_positive_int : ℕ → Bool
is_positive_int n = ltb 0 n && ltb n (2 ^ 63)

abbrev pub first_two : List Text → Option (Text × Text)
first_two [] = none
first_two (f ∷ []) = none
first_two (f ∷ g ∷ fs) = some (f, g)

-- The body, of as many bytes as `n` says, from what follows the headers; `make` takes no more than
-- `max_alloc` bytes.
abbrev pub with_body : Message → Option (Text × Text) → Outcome
with_body m none = Outcome.torn
with_body m (some (body, s)) = Outcome.received (record m { body = body }) s

abbrev pub read_body : ℕ → Message → ℕ → Text → Outcome
read_body max_alloc m n s =
    if is_positive_int n
    then (if ltb max_alloc n
        then Outcome.crashed
        else if ltb (byte_size s) n
        then Outcome.ended
        else with_body m (split_bytes n s))
    else Outcome.received m s

abbrev pub with_headers : ℕ → Text × Text → Option (List (Text × Text) × Text) → Outcome
with_headers max_alloc first none = Outcome.ended
with_headers max_alloc (method, target) (some (hs, s)) =
    read_body max_alloc (record { method = method; target = target; headers = hs; body = [] })
      (atoi (get hs (codes "content-length"))).0 s

abbrev pub with_line : ℕ → Option (Text × Text) → Text → Outcome
with_line max_alloc none s = Outcome.malformed
with_line max_alloc (some first) s = with_headers max_alloc first (read_headers [] [] s)

abbrev pub after_line : ℕ → Option (Text × Text) → Outcome
after_line max_alloc none = Outcome.ended
after_line max_alloc (some (raw, s)) =
    with_line max_alloc (first_two (fields (trim_right is_break raw))) s

-- `readRequest`; an empty first line has no fields.
unfoldable pub read_request : ℕ → Text → Outcome
read_request max_alloc input = after_line max_alloc (cut 10 input)

-- `writeResponse`
abbrev pub lines : List Text → Text
lines [] = []
lines (h ∷ hs) = h ++ (codes "\r\n" ++ lines hs)

unfoldable pub write_response : Message → Text → List Text → Text
write_response req status headers =
    lines (
      (codes "RTSP/1.0 " ++ status)
      ∷ codes "Server: AirTunes/105.1"
      ∷ (codes "CSeq: " ++ get req.headers (codes "cseq"))
      ∷ headers)
    ++ codes "\r\n"

-- The statuses that `handle` answers with, and the headers; an error answers with none.
abbrev pub status_text : Status → Text
status_text Status.ok_200 = codes "200 OK"
status_text Status.bad_request_400 = codes "400 Bad Request"
status_text Status.unsupported_transport_461 = codes "461 Unsupported Transport"
status_text Status.server_error_500 = codes "500 Internal Server Error"
status_text Status.not_implemented_501 = codes "501 Not Implemented"

abbrev pub apple_headers : Response → List Text
apple_headers (Response.response sig) = (codes "Apple-Response: " ++ sig) ∷ []
apple_headers Response.bad_challenge = []
apple_headers Response.bad_mac = []
apple_headers Response.bad_ip = []
apple_headers Response.not_signed = []

-- A challenge is answered on every request that carries one; `transport` is what `setup` returns.
abbrev pub method_headers : Text → Text → List Text
method_headers method transport =
    if same method (codes "OPTIONS")
    then codes
        "Public: ANNOUNCE, SETUP, RECORD, PAUSE, FLUSH, TEARDOWN, OPTIONS, GET_PARAMETER, SET_PARAMETER"
      ∷ []
    else if same method (codes "SETUP")
    then transport ∷ codes "Session: 1" ∷ []
    else if same method (codes "RECORD")
    then codes "Audio-Latency: 11025" ∷ []
    else []

abbrev pub response_headers : Status → List Text → Text → Text → List Text
response_headers Status.ok_200 apple method transport = apple ++ method_headers method transport
response_headers Status.bad_request_400 apple method transport = []
response_headers Status.unsupported_transport_461 apple method transport = []
response_headers Status.server_error_500 apple method transport = []
response_headers Status.not_implemented_501 apple method transport = []

-- The value of a header that is there, which the empty text of `get` does not tell from none.
abbrev pub find : List (Text × Text) → Text → Option Text
find [] key = none
find ((k, v) ∷ hs) key = if same k key then some v else find hs key

-- `local_ip` is none where the connection has no TCP address.
abbrev pub challenge_headers :
    (List ℕ → Option (List ℕ)) → List ℕ → Option (List ℕ) → Option Text → List Text
challenge_headers sign mac (some ip) (some ch) = apple_headers (apple_response sign ch ip mac)
challenge_headers sign mac none (some ch) = []
challenge_headers sign mac local_ip none = []

-- The response to a request, on the connection's local address, for a status of `handle`.
unfoldable pub respond :
    (List ℕ → Option (List ℕ)) → List ℕ → Option (List ℕ) → Message → Status → Text → Text
unfolding write_response
respond sign mac local_ip req status transport = write_response req (status_text status) (
    response_headers status
      (challenge_headers sign mac local_ip (find req.headers (codes "apple-challenge"))) req.method
      transport)

-- `transportPort`: a port that is no number ends the search with 0.
abbrev pub port_value : ℕ × Bool → ℕ
port_value (n, true) = 0
port_value (n, false) = n

abbrev pub find_port : Text → List Text → ℕ
find_port name [] = 0
find_port name (f ∷ fs) =
    let later = find_port name fs in
    elim (cut b'=' (trim is_space f)) [
      | none ↦ later
      | some p ↦ if same p.0 name then port_value (atoi (trim is_space p.1)) else later
    ]

unfoldable pub transport_port : Text → Text → ℕ
transport_port transport name = find_port name (split b';' transport)

-- What `setup` answers.
unfoldable pub transport_header : ℕ → ℕ → ℕ → Text
transport_header server control timing =
    codes "Transport: RTP/AVP/UDP;unicast;mode=record;server_port="
    ++ itoa server
    ++ codes ";control_port="
    ++ itoa control
    ++ codes ";timing_port="
    ++ itoa timing

-- The volumes that `setParameter` finds; `parse_float` is Go's, of a number or nothing.
abbrev pub cons_volume : Option ℕ → List ℕ → List ℕ
cons_volume none dbs = dbs
cons_volume (some db) dbs = db ∷ dbs

abbrev pub volume_of : (Text → Option ℕ) → Option (Text × Text) → Option ℕ
volume_of parse_float none = none
volume_of parse_float (some (k, v)) =
    if same k (codes "volume") then parse_float (trim is_space v) else none

abbrev pub volumes : (Text → Option ℕ) → List Text → List ℕ
volumes parse_float [] = []
volumes parse_float (line ∷ ls) =
    cons_volume (volume_of parse_float (cut b':' (trim is_space line))) (volumes parse_float ls)

abbrev pub option_of : Parsed Sdp → Option Sdp
option_of (Parsed.bad e) = none
option_of (Parsed.parsed s) = some s

-- The request that `handle` switches to, with the results of its library calls: RSA decryption, the
-- parsing of floating point, and the three binds. `has_ip` says that the peer has a TCP address.
module _ (decrypt_oaep : List ℕ → Option (List ℕ)) (parse_float : Text → Option ℕ) where
  unfoldable pub setup_of : Bool → Text → Option ℕ → Option ℕ → Option ℕ → Transport
  unfolding transport_port
  setup_of has_ip transport server control timing =
      let port = transport_port transport (codes "control_port") in
      record {
        is_udp = contains transport (codes "UDP");
        control_port = if has_ip && is_positive_int port then port else 0;
        server = server;
        control = control;
        timing = timing;
      }

  unfoldable pub request_of : Bool → Message → Option ℕ → Option ℕ → Option ℕ → Request
  unfolding setup_of
  request_of has_ip m server control timing =
      if same m.method (codes "OPTIONS")
      then Request.options
      else if same m.method (codes "ANNOUNCE")
      then Request.announce (option_of (parse_sdp decrypt_oaep m.body))
      else if same m.method (codes "SETUP")
      then Request.setup (setup_of has_ip (get m.headers (codes "transport")) server control timing)
      else if same m.method (codes "RECORD")
      then Request.record_
      else if same m.method (codes "FLUSH")
      then Request.flush
      else if same m.method (codes "TEARDOWN")
      then Request.teardown_
      else if same m.method (codes "SET_PARAMETER")
      then Request.set_parameter (volumes parse_float (split 10 m.body))
      else if same m.method (codes "GET_PARAMETER")
      then Request.get_parameter
      else if same m.method (codes "PAUSE")
      then Request.pause
      else Request.unknown
