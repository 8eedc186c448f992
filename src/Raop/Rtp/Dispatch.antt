-- ===== src/Raop/Rtp/Dispatch.antt =====
-- What a datagram does to the session: resent packets, the ring, and the counters.
use sonospoof.Base.{
  ℕ, ◌++◌, zero, suc, ◌+◌, ◌*◌, ◌/◌, ◌%◌, ◌^◌, ◌≤◌, ◌<◌, ◌≡◌, refl, ◌∙◌, List, [], ◌∷◌, arith,
  length, take, drop, get_or, ◌==◌, ltb, leb, Bool-cases, inl, inr, u64,
}
use sonospoof.Alac.Result.{Result, ok, err, panic}
use sonospoof.Alac.Decoder.{decode}
use sonospoof.Audio.Ring
use sonospoof.Audio.Ring.Inv.{write-IsValid}
use sonospoof.Raop.Reorder
use sonospoof.Raop.Reorder.{Pushed, push, ahead, start}
use sonospoof.Raop.Reorder.Push.{push-Emits}
use sonospoof.Raop.Rtp.{
  AudioDecoder, seq_no, decrypt, decode_one, decode_each, audio, packet, written, listed,
}

module _ (inverse : List ℕ → List ℕ) where
  -- An audio packet that the sender sends again, inside a reply to a request, is taken like the
  -- packet itself, whatever the rest of the reply's header is.
  pub packet_resent :
      (a : AudioDecoder) (b₀ b₁ b₂ b₃ : ℕ) (original : List ℕ)
      → b₁ % 2 ^ 7 ≡ 86
      → 12 ≤ length original
      → get_or original 1 0 % 2 ^ 7 ≡ 96
      → packet inverse a (b₀ ∷ b₁ ∷ b₂ ∷ b₃ ∷ original) ≡ packet inverse a original
  unfolding packet
  packet_resent a b₀ b₁ b₂ b₃ original resend long kind = ground arith

-- The values of a datagram are bytes.
abbrev pub AllBytes : List ℕ → Type 0
AllBytes [] = Unit {0}
AllBytes (b ∷ bs) = (b < 2 ^ 8) × AllBytes bs

get_or-byte : (bs : List ℕ) (i : ℕ) → AllBytes bs → get_or bs i 0 < 2 ^ 8
get_or-byte [] i h = omega arith
get_or-byte (b ∷ bs) zero h = h.0
get_or-byte (b ∷ bs) (suc i) h = get_or-byte bs i h.1

seq_no-lt : (pkt : List ℕ) → AllBytes pkt → seq_no pkt < 2 ^ 16
unfolding seq_no
seq_no-lt pkt h = ground (arith, get_or-byte pkt 2 h, get_or-byte pkt 3 h)

AllBytes-drop : (n : ℕ) (bs : List ℕ) → AllBytes bs → AllBytes (drop n bs)
AllBytes-drop zero bs h = h
AllBytes-drop (suc n) [] h = tt
AllBytes-drop (suc n) (b ∷ bs) h = AllBytes-drop n bs h.1

-- The invariants of the parts that a session is made of.
pub record IsValid (a : AudioDecoder) : Type 0 where
  pub ring_valid : Ring.Inv.IsValid a.ring
  pub queue_valid : Reorder.Inv.IsValid (λ k v. Unit {0}) a.queue

abbrev Keeps : AudioDecoder → AudioDecoder → Type 0
Keeps a a' = IsValid a' × (length a'.ring.buf ≡ length a.ring.buf)

module _ (inverse : List ℕ → List ℕ) where
  decrypt-IsValid :
      (a : AudioDecoder) (payload : List ℕ) → IsValid a → Keeps a (decrypt inverse a payload).1
  unfolding decrypt
  decrypt-IsValid a payload v = elim (Bool-cases (length payload / 16 * 16 == 0)) [
    | inl none_whole ↦ rw none_whole (v, refl)
    | inr whole ↦ rw whole (record { ring_valid = v.ring_valid; queue_valid = v.queue_valid }, refl)
  ]

  decoded-IsValid :
      (a : AudioDecoder) (result : Result ℕ) (pcm : List ℕ)
      → IsValid a
      → Keeps a (written a (result, pcm)).1
  unfolding written
  decoded-IsValid a (ok n) pcm v =
      let (w, same) = write-IsValid (take (n * 2) pcm) v.ring_valid in
      elim (Bool-cases (ltb (length pcm) (n * 2))) [
        | inl over ↦
            rw over (record { ring_valid = v.ring_valid; queue_valid = v.queue_valid }, refl)
        | inr inside ↦ rw inside (record { ring_valid = w; queue_valid = v.queue_valid }, same)
      ]
  decoded-IsValid a (err e) pcm v =
      (record { ring_valid = v.ring_valid; queue_valid = v.queue_valid }, refl)
  decoded-IsValid a panic pcm v =
      (record { ring_valid = v.ring_valid; queue_valid = v.queue_valid }, refl)

  decode_one-IsValid :
      (a : AudioDecoder) (payload : List ℕ) → IsValid a → Keeps a (decode_one inverse a payload).1
  unfolding decode_one
  decode_one-IsValid a payload v =
      let (plain, a₁) = decrypt inverse a payload in
      let (v₁, same₁) = decrypt-IsValid a payload v in
      let out = decode a₁.config plain a₁.pcm in
      let (v₂, same₂) = decoded-IsValid a₁ out.0 out.1 v₁ in (v₂, same₂ ∙ same₁)

  decode_each-IsValid :
      (a : AudioDecoder) (payloads : List (List ℕ))
      → IsValid a
      → Keeps a (decode_each inverse a payloads).1
  unfolding decode_each
  decode_each-IsValid a [] v = (v, refl)
  decode_each-IsValid a (p ∷ ps) v =
      let a₁ : AudioDecoder = (decode_one inverse a p).1 in
      let (v₁, same₁) = decode_one-IsValid a p v in
      let (v₂, same₂) = decode_each-IsValid a₁ ps v₁ in (v₂, same₂ ∙ same₁)

  audio-IsValid :
      (a : AudioDecoder) (pkt : List ℕ) → IsValid a → AllBytes pkt → Keeps a (audio inverse a pkt).1
  unfolding audio
  audio-IsValid a pkt v h =
      let p = push a.queue (seq_no pkt) (drop 12 pkt) in
      let m =
        push-Emits (λ k x. Unit {0}) (seq_no pkt) (drop 12 pkt) v.queue_valid (seq_no-lt pkt h)
          tt in
      elim (Bool-cases (leb (length pkt) 12)) [
        | inl short ↦ rw short (v, refl)
        | inr long ↦ rw long (
            decode_each-IsValid (record a { queue = p.queue; asked = a.asked ++ listed p.asked })
              p.ready (record { ring_valid = v.ring_valid; queue_valid = m.valid }))
      ]

  -- In a session whose ring and resequencer are valid, a datagram of bytes, of any kind, length
  -- and contents, keeps both invariants, and the size of the ring.
  pub packet-IsValid :
      (a : AudioDecoder) (pkt : List ℕ)
      → IsValid a
      → AllBytes pkt
      → let (v, a') = packet inverse a pkt in IsValid a' × (length a'.ring.buf ≡ length a.ring.buf)
  unfolding packet
  packet-IsValid a pkt v h =
      let a₁ : AudioDecoder = record a { packets = u64 (a.packets + 1) } in
      let v₁ : IsValid a₁ = record { ring_valid = v.ring_valid; queue_valid = v.queue_valid } in
      elim (Bool-cases (ltb (length pkt) 12)) [
        | inl short ↦ rw short (v, refl)
        | inr long ↦ rw long (elim (Bool-cases (get_or pkt 1 0 % 2 ^ 7 == 86)) [
          | inl resend ↦ rw resend (elim (Bool-cases (ltb (length pkt) 16)) [
            | inl too_short ↦ rw too_short (v₁, refl)
            | inr enough ↦ rw enough (audio-IsValid a₁ (drop 4 pkt) v₁ (AllBytes-drop 4 pkt h))
          ])
          | inr other ↦ rw other (elim (Bool-cases (get_or pkt 1 0 % 2 ^ 7 == 96)) [
            | inl sound ↦ rw sound (audio-IsValid a₁ pkt v₁ h)
            | inr ignored ↦ rw ignored (v₁, refl)
          ])
        ])
      ]
