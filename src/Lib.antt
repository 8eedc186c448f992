-- ===== src/Lib.antt =====
-- A verification library for sonospoof, a bridge that shows Sonos zones as AirPlay receivers.
--
-- A sender speaks RTSP to a receiver (internal/raop/rtsp.go), which sets up a session and its UDP
-- ports. Audio packets arrive out of order or again; a resequencer (internal/raop/reorder.go) puts
-- them in order and asks for missing ones, and internal/raop/rtp.go decrypts them. The ALAC decoder
-- (internal/alac) makes samples of each, and a ring (internal/audio/ring.go) holds them until the
-- HTTP stream to the speaker reads them.
--
-- Base: the native numbers, Go's slices as lists, its integers as bit patterns that wrap.
-- Audio.Ring: internal/audio/ring.go. `Ring` is the struct; `write`, `take_out`, `read_now`,
--   `read_wait`, `wait_for`, `reset` are Write, take, Read without and with a wait, WaitFor, Reset.
--   A call that blocks is a function of what happens in its select loop, a list of events: writes
--   and resets by other goroutines, the wake signal, the deadline.
-- Audio.Wav: internal/audio/wav.go. `open_with_silence` and `send_chunks` are the two loops of
--   StreamPCM. What the clock, the writer and the other goroutines do in a round is a `Turn`.
-- Raop.Reorder: internal/raop/reorder.go. `push`, `drain`, `skip_to_next_pending`,
--   `request_missing`, `reset` are the methods. `pending` is a list of distinct keys.
-- Raop.Rtp: internal/raop/rtp.go. `packet`, `audio`, `decode_one`, `decrypt` are the methods of
--   AudioDecoder. The block cipher of crypto/aes is a parameter; CBC is written out.
-- Raop.Resend: internal/raop/resend.go. `ask` is the request that goes to the sender.
-- Raop.Wire: internal/raop/rtsp.go. `read_request` and `write_response` are readRequest and
--   writeResponse, `request_of` makes the receiver's request of one, and `respond` the response. The
--   length up to which `make` allocates is a parameter.
-- Raop.Sdp: internal/raop/sdp.go and the key attributes of internal/raop/aeskey.go. `parse_sdp` and
--   `parse_fmtp` are ParseSDP and parseFmtp; RSA decryption is a parameter.
-- Raop.Base64, Raop.Challenge: `decode_b64` is decodeB64 of internal/raop/aeskey.go and
--   decodeChallenge of internal/raop/challenge.go; `apple_response` is AppleResponse, with the RSA
--   signature as a parameter.
-- Raop.Receiver: internal/raop/rtsp.go. `handle` is the switch on the method, `close_if_owner` the
--   end of a connection, `read_packet` the loop body of a port; calls of the handler and sockets
--   opened and closed, and calls of onMissing are effects; Start is launched, and Raop.Receiver.Calls
--   says when the handler may see it.
-- Alac.Bits, Alac.Golomb, Alac.Predictor, Alac.Decoder: internal/alac/bits.go, ag.go, predictor.go
--   and decoder.go, with their 32-bit arithmetic. A panic is a value of `Result`.
-- Sonos.Zones: internal/sonos/zones.go, with Player, Group and their methods of
--   internal/sonos/client.go. `zones` is Zones; its two loops are `group_zones` with `claims`, and
--   `single_zones`.
-- Sonos.Escape, Sonos.Client: internal/sonos/client.go. `soap`, `set_stream_and_play`, `stop` and
--   `set_volume` post to a network that HTTP, a parameter, changes.
-- Bridge.Session: internal/bridge/bridge.go. Start is `start_begin`, `start_command` and
--   `start_finish`, since it waits and commands outside of the lock; Stop is `stop_begin` and
--   `stop_command`. A list of events is one interleaving of them.
-- Sonos.Discovery: the same file. `collect` is the loop over the replies to the search,
--   `describe_all` DescribeAll, `topology` Topology; HTTP and the decoding of XML are parameters.
-- Bridge.Serve: `serve_stream` is ServeStream, for what a `Connection` finds: files, clock and
--   writer. Its body has the writes that succeed; a dump file gets the same bytes.
-- Bridge.Filename, Bridge.Advertise: safeFilename of internal/bridge/bridge.go, and Advertiser.Add
--   of internal/bridge/advertise.go with the dnssd package as a parameter.
-- Command: cmd/sonospoof/main.go. `discover` is the function of that name, and `start_up` of
--   Command.Targets the loop over the zones in main.
--
-- Texts are lists of code points. Where the source counts bytes (the length of a UUID, of an SDP
-- line, of a file name), the text is ASCII there or the outcome is the same; only the text of an
-- HTTP error is cut after 300 characters in place of 300 bytes. Header lines of RTSP are ASCII, and
-- a body of RTSP is measured in bytes of UTF-8 (Base.Utf8).
--
-- Memory suffices: only the allocation of an RTSP body is modelled with its failure. A request is
-- one step of the receiver, so that SETUPs that run at once are not modelled.
--
-- Fuel. `drain` has one round for each packet that is held and one more; `decomp_loop` one for each
-- sample; `decode_loop` one for each bit of the frame and one more, as each round reads a tag. The
-- theorems on them state that more is not needed.
--
-- Not modelled: VolumeToSonos, which is floating point; sockets, mDNS, the HTTP server, files, flags
-- and signals, which are calls of libraries and of the system.
pub mod Base
pub mod Audio
pub mod Alac
pub mod Raop
pub mod Sonos
pub mod Bridge
pub mod Command
