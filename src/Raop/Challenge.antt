-- ===== src/Raop/Challenge.antt =====
-- internal/raop/challenge.go: the answer to an Apple-Challenge.
pub mod Block
use sonospoof.Base.{
  ℕ, zero, suc, ◌+◌, ◌-◌, Bool, true, false, ◌&&◌, ◌==◌, leb, ltb, if◌then◌else◌, Option, none,
  some, List, [], ◌∷◌, ◌++◌, Text, length, take, drop, replicate, same,
}
use sonospoof.Raop.Base64.{decode_b64, encode_unpadded}

abbrev pub challenge_block_min : ℕ
challenge_block_min = 32

-- `net.IP` of 16 bytes that stands for an IPv4 address: ten zeros and two bytes of ones.
abbrev pub v4_in_v6_prefix : List ℕ
v4_in_v6_prefix = replicate 10 0 ++ 255 ∷ 255 ∷ []

-- `IP.To4`, and `IP.To16` where that gives nothing; a nil slice is `none`.
unfoldable pub to4 : List ℕ → Option (List ℕ)
to4 ip =
    if length ip == 4
    then some ip
    else if length ip == 16 && same (take 12 ip) v4_in_v6_prefix
    then some (drop 12 ip)
    else none

abbrev pub or_to16 : Option (List ℕ) → List ℕ → Option (List ℕ)
or_to16 (some v4) ip = some v4
or_to16 none ip = if length ip == 16 then some ip else none

unfoldable pub address_bytes : List ℕ → Option (List ℕ)
unfolding to4
address_bytes ip = or_to16 (to4 ip) ip

-- The block that is signed; the loop appends zeros up to the least length.
unfoldable pub block : List ℕ → List ℕ → List ℕ → List ℕ
block raw ip mac = let b = raw ++ (ip ++ mac) in b ++ replicate (challenge_block_min - length b) 0

pub data Response : Type 0 where
  bad_challenge bad_mac bad_ip not_signed : Response
  response : Text → Response

abbrev pub sent_back : Option (List ℕ) → Response
sent_back none = Response.not_signed
sent_back (some sig) = Response.response (encode_unpadded sig)

-- `AppleResponse`; `sign` is the RSA signature of the AirPort Express key.
module _ (sign : List ℕ → Option (List ℕ)) where
  abbrev pub answer : Option (List ℕ) → Option (List ℕ) → List ℕ → Response
  answer none ip mac = Response.bad_challenge
  answer (some raw) none mac = if length mac == 6 then Response.bad_ip else Response.bad_mac
  answer (some raw) (some ip) mac =
      if length mac == 6 then sent_back (sign (block raw ip mac)) else Response.bad_mac

  unfoldable pub apple_response : Text → List ℕ → List ℕ → Response
  unfolding address_bytes block
  apple_response challenge local_ip mac = answer (decode_b64 challenge) (address_bytes local_ip) mac
