-- ===== src/Raop/Challenge/Block.antt =====
-- internal/raop/challenge.go: a sender that knows the challenge and the addresses can check the answer.
use sonospoof.Base.{
  ℕ, ◌+◌, ◌-◌, ◌≤◌, if_true, ==_iff, ◌≡◌, refl, ◌∙◌, ap, Option, some, List, [], ◌∷◌, ◌++◌, Text,
  length, take, replicate, length-append, length-replicate, All, arith,
}
use sonospoof.Raop.Base64.{decode_b64, encode_std, encode_unpadded}
use sonospoof.Raop.Base64.RoundTrip.{IsByte, decode_b64-encode_std}
use sonospoof.Raop.Challenge.{
  Response, block, address_bytes, answer, apple_response, sent_back, challenge_block_min,
}

block-length :
    (raw ip mac : List ℕ)
    → (challenge_block_min ≤ length (block raw ip mac))
      × (length raw + (length ip + length mac) ≤ length (block raw ip mac))
unfolding block
block-length raw ip mac =
    let b : List ℕ = raw ++ (ip ++ mac) in
    omega (
      arith,
      length-append b (replicate (challenge_block_min - length b) 0),
      length-replicate {A = ℕ} (challenge_block_min - length b) 0,
      length-append raw (ip ++ mac),
      length-append ip mac,
    )

take-append : (xs ys : List ℕ) → take (length xs) (xs ++ ys) ≡ xs
take-append [] ys = refl
take-append (x ∷ xs) ys = ap (◌∷◌ x) (take-append xs ys)

block_start :
    (raw ip mac : List ℕ)
    → take (length (raw ++ (ip ++ mac))) (block raw ip mac) ≡ raw ++ (ip ++ mac)
unfolding block
block_start raw ip mac = take-append (raw ++ (ip ++ mac)) _

-- A challenge of bytes, with the padding or without it, at an address of either family and with a
-- hardware address of six bytes, is answered: the answer is the signature, in base64, of a block
-- that starts with the challenge, the address and the hardware address, and has 32 bytes or more.
pub apple_response-Signs :
    (sign : List ℕ → Option (List ℕ)) (raw local_ip ip mac sig : List ℕ)
    → All IsByte raw
    → address_bytes local_ip ≡ some ip
    → length mac ≡ 6
    → sign (block raw ip mac) ≡ some sig
    → All IsByte sig
    → (text : Text) × (apple_response sign (encode_std raw) local_ip mac ≡ Response.response text)
      × (apple_response sign (encode_unpadded raw) local_ip mac ≡ Response.response text)
      × (decode_b64 text ≡ some sig)
      × (take (length (raw ++ (ip ++ mac))) (block raw ip mac) ≡ raw ++ (ip ++ mac))
      × (challenge_block_min ≤ length (block raw ip mac))
unfolding apple_response
apple_response-Signs sign raw local_ip ip mac sig bytes has_ip six signed sig_bytes =
    let (padded, plain) = decode_b64-encode_std raw bytes in
    let answered : answer sign (some raw) (some ip) mac ≡ Response.response (encode_unpadded sig) =
      if_true (sent_back (sign (block raw ip mac))) Response.bad_mac ((==_iff (length mac) 6).1 six)
      ∙ ap sent_back signed in
    (
      encode_unpadded sig,
      (λ i. answer sign (padded i) (has_ip i) mac) ∙ answered,
      (λ i. answer sign (plain i) (has_ip i) mac) ∙ answered,
      (decode_b64-encode_std sig sig_bytes).1,
      block_start raw ip mac,
      (block-length raw ip mac).0,
    )
