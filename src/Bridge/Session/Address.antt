-- ===== src/Bridge/Session/Address.antt =====
-- internal/bridge/bridge.go: the address of a session's stream.
use sonospoof.Base.{
  ℕ, ◌/◌, ◌%◌, ◌<◌, ◌≡◌, ◌≢◌, refl, sym, ◌∙◌, ap, ap₂, some, List, [], ◌∷◌, ◌++◌, append_assoc,
  Text, codes, cut_prefix, cut_prefix-append, All, arith,
}
use mathlib.Core.List.{append_cancel_left, append_cancel_right}
use sonospoof.Sonos.Client.{Post, Answer}
use sonospoof.Bridge.Advertise.{hex_digit}
use sonospoof.Bridge.Session.{Bridge, hex_text, new_nonce, path_locked, start_begin}

abbrev pub IsByte : ℕ → Type 0
IsByte x = x < 256

-- A nibble of a digit.
hex_digit-injective : (x y : ℕ) → x < 16 → y < 16 → hex_digit x ≡ hex_digit y → x ≡ y
hex_digit-injective x y h k e = ground arith

hex_text-injective :
    (xs ys : List ℕ) → All IsByte xs → All IsByte ys → hex_text xs ≡ hex_text ys → xs ≡ ys
hex_text-injective [] [] p q e = refl
hex_text-injective [] (y ∷ ys) p q e = cc
hex_text-injective (x ∷ xs) [] p q e = cc
hex_text-injective (x ∷ xs) (y ∷ ys) (p, ps) (q, qs) e =
    let high : hex_digit (x / 16) ≡ hex_digit (y / 16) = cc in
    let low : hex_digit (x % 16) ≡ hex_digit (y % 16) = cc in
    let rest : hex_text xs ≡ hex_text ys = cc in
    let h = hex_digit-injective (x / 16) (y / 16) (omega arith) (omega arith) high in
    let l = hex_digit-injective (x % 16) (y % 16) (omega arith) (omega arith) low in
    let same_byte : x ≡ y = omega arith in ap₂ ◌∷◌ same_byte (hex_text-injective xs ys ps qs rest)

module _ {ℓ} {Network : Type ℓ} (http : Network → Post → Network × Answer) where
  path_under :
      (b : Bridge Network) (bytes : List ℕ) (name : Text)
      → path_locked (start_begin http b (some bytes) name)
        ≡ (codes "/zone/" ++ b.zone.coordinator_uuid ++ codes "/")
          ++ (hex_text bytes ++ codes ".wav")
  unfolding path_locked start_begin new_nonce
  path_under b bytes name =
      append_assoc (codes "/zone/" ++ b.zone.coordinator_uuid ++ codes "/") (hex_text bytes)
        (codes ".wav")

  same_bytes :
      (b c : Bridge Network) (xs ys : List ℕ) (name other : Text)
      → b.zone.coordinator_uuid ≡ c.zone.coordinator_uuid
      → All IsByte xs
      → All IsByte ys
      → path_locked (start_begin http b (some xs) name)
        ≡ path_locked (start_begin http c (some ys) other)
      → xs ≡ ys
  same_bytes b c xs ys name other same_zone p q e =
      let prefix : Text = codes "/zone/" ++ b.zone.coordinator_uuid ++ codes "/" in
      let there : path_locked (start_begin http c (some ys) other)
          ≡ prefix ++ (hex_text ys ++ codes ".wav") =
        path_under c ys other
        ∙ ap (λ u. (codes "/zone/" ++ u ++ codes "/") ++ (hex_text ys ++ codes ".wav"))
            (sym same_zone) in
      let tails =
        append_cancel_left prefix (hex_text xs ++ codes ".wav") (hex_text ys ++ codes ".wav")
          (sym (path_under b xs name) ∙ e ∙ there) in
      hex_text-injective xs ys p q
        (append_cancel_right (hex_text xs) (hex_text ys) (codes ".wav") tails)

  -- The stream of a session is under the prefix that its zone serves, and sessions whose random
  -- bytes differ have different addresses, so that the player does not take one for another.
  pub path_locked-start_begin :
      (b c : Bridge Network) (xs ys : List ℕ) (name other : Text)
      → b.zone.coordinator_uuid ≡ c.zone.coordinator_uuid
      → All IsByte xs
      → All IsByte ys
      → xs ≢ ys
      → (cut_prefix
            (path_locked (start_begin http b (some xs) name))
            (codes "/zone/" ++ b.zone.coordinator_uuid ++ codes "/")
          ≡ some (hex_text xs ++ codes ".wav"))
        × (path_locked (start_begin http b (some xs) name)
            ≢ path_locked (start_begin http c (some ys) other))
  path_locked-start_begin b c xs ys name other same_zone p q differ =
      let prefix : Text = codes "/zone/" ++ b.zone.coordinator_uuid ++ codes "/" in
      (
        ap (λ t. cut_prefix t prefix) (path_under b xs name)
            ∙ cut_prefix-append prefix (hex_text xs ++ codes ".wav"),
        λ e. differ (same_bytes b c xs ys name other same_zone p q e),
      )
