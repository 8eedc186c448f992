-- ===== src/Raop/Resend.antt =====
-- internal/raop/resend.go: the datagram that asks the sender for packets again.
--
-- The socket and the address are a parameter: `sent` says whether WriteToUDP reports no error.
use sonospoof.Base.{
  ℕ, ◌+◌, ◌*◌, ◌/◌, ◌%◌, ◌^◌, ◌<◌, ◌≡◌, refl, Bool, true, List, [], ◌∷◌, ◌++◌, arith, if◌then◌else◌,
  u16, u32, u64, length, get_or,
}

-- `resendRequester`, with a socket and an address or without.
pub record Requester : Type 0 where
  pub usable : Bool
  pub seq : ℕ
  pub requested : ℕ

-- `newResendRequester`
pub new_requester : Requester
new_requester = record { usable = true; seq = 0; requested = 0 }

-- PutUint16, big-endian.
abbrev pub be16 : ℕ → List ℕ
be16 v = v / 2 ^ 8 % 2 ^ 8 ∷ v % 2 ^ 8 ∷ []

-- `request`: the datagram, where there is one, and the counters. 213 is the marker and 85.
pub ask : Bool → Requester → ℕ → ℕ → List (List ℕ) × Requester
ask sent r first count =
    let seq = u32 (r.seq + 1) in
    let pkt = (128 ∷ 213 ∷ []) ++ be16 (u16 seq) ++ be16 first ++ be16 count in
    if r.usable
    then (
      pkt ∷ [],
      record r { seq = seq; requested = if sent then u64 (r.requested + count) else r.requested },
    )
    else ([], r)

-- How a sender reads a request: the type, the request's number, the first packet and the count.
abbrev pub read_request : List ℕ → ℕ × ℕ × ℕ × ℕ
read_request pkt = (
  get_or pkt 1 0 % 2 ^ 7,
  get_or pkt 2 0 * 2 ^ 8 + get_or pkt 3 0,
  get_or pkt 4 0 * 2 ^ 8 + get_or pkt 5 0,
  get_or pkt 6 0 * 2 ^ 8 + get_or pkt 7 0,
)

-- What a request puts on the wire.
pub record Asked (sent : Bool) (r : Requester) (first count : ℕ) (out : List (List ℕ) × Requester)
    : Type 0 where
  pub pkt : List ℕ
  pub one : out.0 ≡ pkt ∷ []
  pub eight : length pkt ≡ 8
  pub reads : read_request pkt ≡ (85, u16 (r.seq + 1), first, count)
  pub counted : out.1.requested ≡ u64 (r.requested + (if sent then count else 0))
  pub numbered : out.1.seq ≡ u32 (r.seq + 1)

-- A usable requester sends one datagram of eight bytes, from which the sender reads the type 85, the
-- next number of a request, and the range that was asked for, for all 16-bit values; the counter
-- grows by the count where the write succeeds.
pub ask-Asked :
    (sent : Bool) (r : Requester) (first count : ℕ)
    → r.usable ≡ true
    → first < 2 ^ 16
    → count < 2 ^ 16
    → r.requested < 2 ^ 64
    → Asked sent r first count (ask sent r first count)
unfolding ask
ask-Asked sent r first count usable hf hc hr = rw usable (record {
  pkt = (128 ∷ 213 ∷ []) ++ be16 (u16 (u32 (r.seq + 1))) ++ be16 first ++ be16 count;
  one = refl;
  eight = refl;
  reads =
      let n : ℕ = u16 (u32 (r.seq + 1)) in
      let e₁ : n / 2 ^ 8 % 2 ^ 8 * 2 ^ 8 + n % 2 ^ 8 ≡ u16 (r.seq + 1) = omega arith in
      let e₂ : first / 2 ^ 8 % 2 ^ 8 * 2 ^ 8 + first % 2 ^ 8 ≡ first = omega arith in
      let e₃ : count / 2 ^ 8 % 2 ^ 8 * 2 ^ 8 + count % 2 ^ 8 ≡ count = omega arith in
      λ i. (85, e₁ i, e₂ i, e₃ i);
  counted = ground arith;
  numbered = refl;
})
