-- ===== src/Raop/WireTests.antt =====
-- A request by hand.
use sonospoof.Base.{
  ◌≡◌, refl, none, [], ◌∷◌, codes, itoa, split, atoi, fields, byte_size, arith, ◌^◌, ◌++◌,
}
use sonospoof.Raop.Wire.{Message, Outcome, read_request, respond, transport_port, transport_header}
use sonospoof.Raop.Receiver.{Status}
use sonospoof.Raop.Wire.RoundTrip.{print_request, stored, read_request-print_request}

read_request-print_request_example :
    read_request 1000 (
      print_request
        (codes "ANNOUNCE")
        (codes "rtsp://h/1")
        ((codes "CSeq", codes "3") ∷ [])
        (codes "v=0")
        (codes "X"))
    ≡ Outcome.received
        (record {
          method = codes "ANNOUNCE";
          target = codes "rtsp://h/1";
          headers =
              (codes "content-length", itoa (byte_size (codes "v=0")))
              ∷ stored [] ((codes "CSeq", codes "3") ∷ []);
          body = codes "v=0";
        })
        (codes "X")
read_request-print_request_example =
    read_request-print_request 1000 (codes "ANNOUNCE") (codes "rtsp://h/1")
      ((codes "CSeq", codes "3") ∷ []) (codes "v=0") (codes "X") ((cc), ground arith)
      ((cc), ground arith) ((ground arith, ground arith, refl), tt) (omega arith) (omega arith)

-- Two characters in three bytes.
wide :
    read_request 1000
      (codes "SET_PARAMETER * RTSP/1.0\r\nContent-Length: 3\r\n\r\n" ++ 233 ∷ 65 ∷ 66 ∷ [])
    ≡ Outcome.received
        (record {
          method = codes "SET_PARAMETER";
          target = codes "*";
          headers = (codes "content-length", codes "3") ∷ [];
          body = 233 ∷ 65 ∷ [];
        })
        (66 ∷ [])
unfolding read_request fields atoi
wide = refl

-- A length of which `make` panics ends the program.
huge :
    read_request
      (2 ^ 48)
      (codes "OPTIONS * RTSP/1.0\r\nContent-Length: 9223372036854775807\r\n\r\n")
    ≡ Outcome.crashed
unfolding read_request fields atoi
huge = refl

no_headers_end : read_request (2 ^ 48) (codes "OPTIONS * RTSP/1.0\r\nCSeq: 1\r\n") ≡ Outcome.ended
unfolding read_request fields
no_headers_end = refl

ports : transport_port (transport_header 6000 6001 6002) (codes "control_port") ≡ 6001
unfolding transport_port transport_header itoa atoi split
ports = refl

abbrev first_request : Message
first_request = record {
  method = codes "RECORD";
  target = codes "*";
  headers = (codes "cseq", codes "7") ∷ [];
  body = [];
}

answered :
    respond (λ b. none) [] none first_request Status.ok_200 []
    ≡ codes "RTSP/1.0 200 OK\r\nServer: AirTunes/105.1\r\nCSeq: 7\r\nAudio-Latency: 11025\r\n\r\n"
unfolding respond
answered = refl
