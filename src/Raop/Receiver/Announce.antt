-- ===== src/Raop/Receiver/Announce.antt =====
-- internal/raop/rtsp.go and internal/raop/sdp.go: an ANNOUNCE from its text to the decoder.
use sonospoof.Base.{
  ℕ, Bool, ◌≡◌, refl, sym, ◌∙◌, ap, subst, ◌⊎◌, inl, inr, Option, none, some, List, [], Text, codes,
  length, length-replicate, replicate, ◌*◌, ==_iff,
}
use sonospoof.Alac.Decoder.{Config}
use sonospoof.Audio.Ring.{Ring}
use sonospoof.Raop.Rtp.{AudioDecoder, new_audio_decoder}
use sonospoof.Raop.Reorder.{new_resequencer}
use sonospoof.Raop.Sdp.{Sdp, Parsed, parse_sdp}
use sonospoof.Raop.Sdp.Valid.{
  Gives, IsUsable, IsPaired, IsAccepted, HasKeySize, parse_sdp-IsAccepted,
}
use sonospoof.Raop.Receiver.{
  Receiver, Effect, Status, announce, ok_200, bad_request_400, announced, or_nil, handle,
}
use sonospoof.Raop.Wire.{Message, option_of, request_of}

-- An error changes nothing; otherwise the connection owns the session, which has a decoder of a
-- usable configuration with an IV of 16 bytes, and a buffer for a frame. Nothing else happens.
abbrev pub IsAnnounced : Receiver → ℕ → Status × Receiver × List Effect → Type 0
IsAnnounced r conn (status, r', effects) =
    (effects ≡ [])
    × (((status ≡ bad_request_400) × (r' ≡ r))
        ⊎ ((status ≡ ok_200)
            × (r'.owner ≡ some conn)
            × (dec : AudioDecoder) × (r'.dec ≡ some dec)
            × IsUsable dec.config
            × (length dec.iv ≡ 16)
            × (length dec.pcm ≡ dec.config.frame_length * dec.config.num_channels)))

decoder_made :
    (key iv : List ℕ) (cfg : Config) (ring : Ring)
    → length key ≡ 16
    → length iv ≡ 16
    → (dec : AudioDecoder) × (new_audio_decoder key iv cfg ring ≡ some dec)
      × (dec.config ≡ cfg)
      × (dec.iv ≡ iv)
      × (length dec.pcm ≡ dec.config.frame_length * dec.config.num_channels)
unfolding new_audio_decoder
decoder_made key iv cfg ring h k =
    let first = (==_iff (length key) 16).1 h in
    let second = (==_iff (length iv) 16).1 k in
    let dec : AudioDecoder = record {
      iv = iv;
      config = cfg;
      ring = ring;
      queue = new_resequencer;
      pcm = replicate (cfg.frame_length * cfg.num_channels) 0;
      packets = 0;
      decrypted = 0;
      errors = 0;
      asked = [];
    } in
    (
      dec,
      rw (first, second) refl,
      refl,
      refl,
      length-replicate {A = ℕ} (cfg.frame_length * cfg.num_channels) 0,
    )

abbrev owned : Receiver → ℕ → Sdp → Option AudioDecoder → Option Receiver
owned r conn s none = none
owned r conn s (some dec) =
    some (record r { dec = some dec; session_name = s.name; owner = some conn })

abbrev keyed : Receiver → ℕ → Sdp → Option (List ℕ) → Option (List ℕ) → Option Receiver
keyed r conn s none iv = none
keyed r conn s (some key) iv = owned r conn s (new_audio_decoder key (or_nil iv) s.config r.ring)

owned_step :
    (r : Receiver) (conn : ℕ) (s : Sdp) (o : Option AudioDecoder)
    → elim o as (λ _. Option Receiver) [
      | none ↦ none
      | some dec ↦ some (record r { dec = some dec; session_name = s.name; owner = some conn })
    ]
      ≡ owned r conn s o
owned_step r conn s none = refl
owned_step r conn s (some dec) = refl

keyed_step :
    (r : Receiver) (conn : ℕ) (s : Sdp) (k iv : Option (List ℕ))
    → s.session_key ≡ k
    → s.iv ≡ iv
    → announced r conn s ≡ keyed r conn s k iv
unfolding announced
keyed_step r conn s none iv e f = rw e refl
keyed_step r conn s (some key) iv e f =
    rw (e, f) (owned_step r conn s (new_audio_decoder key (or_nil iv) s.config r.ring))

answer_of : Receiver → Option Receiver → Status × Receiver × List Effect
answer_of r none = (bad_request_400, r, [])
answer_of r (some r') = (ok_200, r', [])

answer_step :
    (r : Receiver) (o : Option Receiver)
    → elim o as (λ _. Status × Receiver × List Effect) [
      | none ↦ (bad_request_400, r, [])
      | some r' ↦ (ok_200, r', [])
    ]
      ≡ answer_of r o
unfolding answer_of
answer_step r none = refl
answer_step r (some r') = refl

handle_step :
    (r : Receiver) (conn : ℕ) (s : Sdp)
    → handle r conn (announce (some s)) ≡ answer_of r (announced r conn s)
unfolding handle answer_of
handle_step r conn s = answer_step r (announced r conn s)

made-IsAnnounced :
    (r : Receiver) (conn : ℕ) (s : Sdp) (key iv : List ℕ)
    → s.session_key ≡ some key
    → s.iv ≡ some iv
    → IsUsable s.config
    → HasKeySize key
    → HasKeySize iv
    → IsAnnounced r conn (handle r conn (announce (some s)))
unfolding answer_of
made-IsAnnounced r conn s key iv e f u p q =
    let (dec, made, same_config, same_iv, sized) = decoder_made key iv s.config r.ring p q in
    let there : handle r conn (announce (some s)) ≡ answer_of r (owned r conn s (some dec)) =
      handle_step r conn s
      ∙ ap (answer_of r)
          (keyed_step r conn s (some key) (some iv) e f ∙ ap (owned r conn s) made) in
    subst (IsAnnounced r conn) (sym there) (
      refl,
      inr (refl, refl, dec, refl, subst IsUsable (sym same_config) u, ap length same_iv ∙ q, sized),
    )

refused-IsAnnounced :
    (r : Receiver) (conn : ℕ) (s : Sdp)
    → s.session_key ≡ none
    → IsAnnounced r conn (handle r conn (announce (some s)))
unfolding handle announced
refused-IsAnnounced r conn s e = rw e (refl, inl (refl, refl))

sdp-IsAnnounced :
    (r : Receiver) (conn : ℕ) (s : Sdp) (k iv : Option (List ℕ))
    → s.session_key ≡ k
    → s.iv ≡ iv
    → IsUsable s.config
    → IsPaired k iv
    → IsAnnounced r conn (handle r conn (announce (some s)))
sdp-IsAnnounced r conn s none iv e f u p = refused-IsAnnounced r conn s e
sdp-IsAnnounced r conn s (some k) none e f u p = absurd p
sdp-IsAnnounced r conn s (some k) (some iv) e f u (p, q) = made-IsAnnounced r conn s k iv e f u p q

body-IsAnnounced :
    (r : Receiver) (conn : ℕ) (o : Parsed Sdp)
    → Gives IsAccepted o
    → IsAnnounced r conn (handle r conn (announce (option_of o)))
body-IsAnnounced r conn (Parsed.bad e) p = (unfold handle in (refl, inl (refl, refl)))
body-IsAnnounced r conn (Parsed.parsed s) (u, p) =
    sdp-IsAnnounced r conn s s.session_key s.iv refl refl u p

announcement :
    (decrypt_oaep : List ℕ → Option (List ℕ)) (parse_float : Text → Option ℕ) (has_ip : Bool)
    (m : Message) (server control timing : Option ℕ)
    → m.method ≡ codes "ANNOUNCE"
    → request_of decrypt_oaep parse_float has_ip m server control timing
      ≡ announce (option_of (parse_sdp decrypt_oaep m.body))
unfolding request_of
announcement decrypt_oaep parse_float has_ip m server control timing e = rw e refl

-- An ANNOUNCE request with any body, as it comes off the wire: it is refused with 400 and changes
-- nothing, or it is accepted, and then its connection owns the session, whose decoder has an IV of
-- 16 bytes, a configuration with a frame length and channels that are not zero, each field within
-- its width, and a buffer for a frame of that length. No handler is called and no socket is opened
-- or closed. Memory is taken to suffice for the buffer, whose size has no other bound.
pub request_of-IsAnnounced :
    (decrypt_oaep : List ℕ → Option (List ℕ)) (parse_float : Text → Option ℕ) (has_ip : Bool)
    (r : Receiver) (conn : ℕ) (m : Message) (server control timing : Option ℕ)
    → m.method ≡ codes "ANNOUNCE"
    → IsAnnounced r conn
        (handle r conn (request_of decrypt_oaep parse_float has_ip m server control timing))
request_of-IsAnnounced decrypt_oaep parse_float has_ip r conn m server control timing e =
    subst (λ q. IsAnnounced r conn (handle r conn q))
      (sym (announcement decrypt_oaep parse_float has_ip m server control timing e))
      (body-IsAnnounced r conn (parse_sdp decrypt_oaep m.body)
        (parse_sdp-IsAccepted decrypt_oaep m.body))
