-- ===== src/Raop/AnnounceTests.antt =====
-- An ANNOUNCE body and a challenge by hand.
use sonospoof.Base.{
  ℕ, ◌≤◌, ◌≡◌, itoa, atoi, true, false, split, fields, parse_uint32, Option, refl, some, none, List,
  [], ◌∷◌, ◌++◌, Text, codes, length, take, replicate, arith,
}
use sonospoof.Alac.Decoder.{Config}
use sonospoof.Raop.Base64.{decode_b64, encode_std, encode_unpadded}
use sonospoof.Raop.Base64.RoundTrip.{decode_b64-encode_std}
use sonospoof.Raop.Challenge.{Response, block, address_bytes, apple_response, challenge_block_min}
use sonospoof.Raop.Challenge.Block.{apple_response-Signs}
use sonospoof.Raop.Sdp.{Parsed, SdpError, parse_fmtp, parse_sdp}
use sonospoof.Raop.Sdp.Fmtp.{print_fmtp, parse_fmtp-print_fmtp}
use sonospoof.Raop.Wire.{Message, request_of}
use sonospoof.Raop.Receiver.{Receiver, handle}
use sonospoof.Raop.Receiver.Announce.{IsAnnounced, request_of-IsAnnounced}

abbrev airplay_cookie : Config
airplay_cookie = record {
  frame_length = 352;
  compatible_version = 0;
  bit_depth = 16;
  pb = 40;
  mb = 10;
  kb = 14;
  num_channels = 2;
  max_run = 255;
  max_frame_bytes = 0;
  avg_bit_rate = 0;
  sample_rate = 44100;
}

the_line : print_fmtp 96 airplay_cookie ≡ codes "96 352 0 16 40 10 14 2 255 0 0 44100"
unfolding print_fmtp itoa
the_line = refl

parse_fmtp-print_fmtp_example :
    parse_fmtp (print_fmtp 96 airplay_cookie) ≡ Parsed.parsed airplay_cookie
parse_fmtp-print_fmtp_example =
    parse_fmtp-print_fmtp 96 airplay_cookie
      (
        (omega arith),
        (omega arith),
        (omega arith),
        (omega arith),
        (omega arith),
        (omega arith),
        (omega arith),
        (omega arith),
        (omega arith),
        (omega arith),
        (omega arith),
      )
      (omega arith) (omega arith)

-- A key that is its own encryption.
abbrev trusting : List ℕ → Option (List ℕ)
trusting key = some key

announcement : Text
announcement =
    codes
      "v=0\r\ni=Ann\r\na=rtpmap:96 AppleLossless\r\na=fmtp:96 352 0 16 40 10 14 2 255 0 0 44100\r\na=aesiv:AAECAwQFBgcICQoLDA0ODw\r\na=rsaaeskey:AAECAwQFBgcICQoLDA0ODw==\r\na=min-latency:11025\r\n"

accepted :
    parse_sdp trusting announcement
    ≡ Parsed.parsed (record {
      config = airplay_cookie;
      session_key = some (0 ∷ 1 ∷ 2 ∷ 3 ∷ 4 ∷ 5 ∷ 6 ∷ 7 ∷ 8 ∷ 9 ∷ 10 ∷ 11 ∷ 12 ∷ 13 ∷ 14 ∷ 15 ∷ []);
      iv = some (0 ∷ 1 ∷ 2 ∷ 3 ∷ 4 ∷ 5 ∷ 6 ∷ 7 ∷ 8 ∷ 9 ∷ 10 ∷ 11 ∷ 12 ∷ 13 ∷ 14 ∷ 15 ∷ []);
      name = codes "Ann";
      min_latency = 11025;
      max_latency = 0;
    })
unfolding parse_sdp announcement parse_fmtp split fields parse_uint32 decode_b64 atoi
accepted = refl

half :
    parse_sdp trusting
      (codes "a=fmtp:96 352 0 16 40 10 14 2 255 0 0 44100\na=aesiv:AAECAwQFBgcICQoLDA0ODw==")
    ≡ Parsed.bad SdpError.half_key
unfolding parse_sdp split fields parse_uint32 decode_b64
half = refl

-- A field of 32 bits is cut to its width without an error.
cut_field :
    parse_fmtp (codes "96 352 0 272 40 10 14 2 255 0 0 44100") ≡ Parsed.parsed airplay_cookie
unfolding parse_fmtp fields parse_uint32
cut_field = refl

decode_b64-encode_std_example :
    (decode_b64 (encode_std (1 ∷ 255 ∷ 3 ∷ 4 ∷ [])) ≡ some (1 ∷ 255 ∷ 3 ∷ 4 ∷ []))
    × (decode_b64 (encode_unpadded (1 ∷ 255 ∷ 3 ∷ 4 ∷ [])) ≡ some (1 ∷ 255 ∷ 3 ∷ 4 ∷ []))
decode_b64-encode_std_example =
    decode_b64-encode_std (1 ∷ 255 ∷ 3 ∷ 4 ∷ [])
      ((omega arith), ((omega arith), ((omega arith), ((omega arith), tt))))

-- A signature that is its block.
abbrev lan_ip : List ℕ
lan_ip = 10 ∷ 0 ∷ 0 ∷ 2 ∷ []

abbrev lan_mac : List ℕ
lan_mac = 1 ∷ 2 ∷ 3 ∷ 4 ∷ 5 ∷ 6 ∷ []

abbrev sign_short : List ℕ → Option (List ℕ)
sign_short b = some (9 ∷ 8 ∷ [])

apple_response-Signs_example :
    (text : Text) × (apple_response sign_short
        (encode_std (7 ∷ []))
        (replicate 10 0 ++ 255 ∷ 255 ∷ lan_ip)
        lan_mac
      ≡ Response.response text)
    × (apple_response sign_short
          (encode_unpadded (7 ∷ []))
          (replicate 10 0 ++ 255 ∷ 255 ∷ lan_ip)
          lan_mac
        ≡ Response.response text)
    × (decode_b64 text ≡ some (9 ∷ 8 ∷ []))
    × (take (length ((7 ∷ []) ++ (lan_ip ++ lan_mac))) (block (7 ∷ []) lan_ip lan_mac)
        ≡ (7 ∷ []) ++ (lan_ip ++ lan_mac))
    × (challenge_block_min ≤ length (block (7 ∷ []) lan_ip lan_mac))
unfolding address_bytes
apple_response-Signs_example =
    apple_response-Signs sign_short (7 ∷ []) (replicate 10 0 ++ 255 ∷ 255 ∷ lan_ip) lan_ip lan_mac
      (9 ∷ 8 ∷ []) ((omega arith), tt) refl refl refl ((omega arith), ((omega arith), tt))

abbrev idle : Receiver
idle = record {
  ring = record { buf = 0 ∷ 0 ∷ []; r = 0; w = 0; n = 0; wake = false; underrun = 0; dropped = 0 };
  handler = true;
  dec = none;
  udp = [];
  running = false;
  session_name = [];
  owner = none;
  resend = none;
}

abbrev first_message : Message
first_message = record {
  method = codes "ANNOUNCE";
  target = codes "rtsp://h/1";
  headers = [];
  body = announcement;
}

request_of-IsAnnounced_example :
    IsAnnounced idle 4
      (handle idle 4 (request_of trusting (λ t. none) true first_message none none none))
request_of-IsAnnounced_example =
    request_of-IsAnnounced trusting (λ t. none) true idle 4 first_message none none none refl

-- The decoder's buffer has a bound of its field's width only: this one is for 2^32 - 1 frames.
long_frames :
    parse_fmtp (codes "96 4294967295 0 16 40 10 14 2 255 0 0 44100")
    ≡ Parsed.parsed (record airplay_cookie { frame_length = 4294967295 })
unfolding parse_fmtp fields parse_uint32
long_frames = refl
