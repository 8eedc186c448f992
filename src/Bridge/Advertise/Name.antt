-- ===== src/Bridge/Advertise/Name.antt =====
-- internal/bridge/advertise.go: the instance name against the speaker's UUID.
use sonospoof.Base.{
  ℕ, ◌+◌, ◌*◌, ◌/◌, ◌%◌, ◌≤◌, ◌<◌, false, ◌==◌, ltb, if◌then◌else◌, ◌≡◌, refl, sym, ◌∙◌, ap, Option,
  none, some, some-injective, List, [], ◌∷◌, ◌++◌, map, Text, codes, length, take, arith,
  Option-cases, inl, inr, cut_prefix, cut_prefix_found,
}
use mathlib.Core.Option.{none-ne-some}
use sonospoof.Sonos.Zones.{
  Player, uuid, raop_id, hex_value, hex_byte, join_digits, cons_byte, mac_bytes, parse_mac,
  insert_colons,
}
use sonospoof.Bridge.Advertise.{to_upper, hex_digit, mac_string, without_colons, instance_name}

-- A digit that is read is printed back, in upper case.
digit_back : (c x : ℕ) → hex_value c ≡ some x → (to_upper (hex_digit x) ≡ to_upper c) × (x < 16)
digit_back c x h = ground arith

digit_not_colon : (x : ℕ) → x < 16 → (hex_digit x == b':') ≡ false
digit_not_colon x h = ground arith

joined :
    (o p : Option ℕ) {x : ℕ}
    → join_digits o p ≡ some x
    → (y z : ℕ) × (o ≡ some y) × (p ≡ some z) × (x ≡ y * 16 + z)
joined (some y) (some z) {x} h = (y, z, refl, refl, sym (some-injective (y * 16 + z) x h))
joined (some y) none h = cc
joined none p h = cc

byte_back :
    (a b x : ℕ)
    → hex_byte a b ≡ some x
    → (to_upper (hex_digit (x / 16)) ≡ to_upper a)
      × (to_upper (hex_digit (x % 16)) ≡ to_upper b)
      × (x < 256)
byte_back a b x h =
    let (y, z, high, low, e) = joined (hex_value a) (hex_value b) h in
    let (up, small) = digit_back a y high in
    let (down, tiny) = digit_back b z low in
    (
      ap (λ k. to_upper (hex_digit k)) {x = x / 16} {y = y} (omega arith) ∙ up,
      ap (λ k. to_upper (hex_digit k)) {x = x % 16} {y = z} (omega arith) ∙ down,
      (omega arith),
    )

-- The two digits of a byte, before the digits of the others.
bare_digits :
    (x : ℕ) (xs : List ℕ)
    → x < 256
    → without_colons (mac_string (x ∷ xs))
      ≡ hex_digit (x / 16) ∷ hex_digit (x % 16) ∷ without_colons (mac_string xs)
bare_digits x [] h =
    rw (digit_not_colon (x / 16) (omega arith), digit_not_colon (x % 16) (omega arith)) refl
bare_digits x (y ∷ xs) h =
    rw (digit_not_colon (x / 16) (omega arith), digit_not_colon (x % 16) (omega arith)) refl

consed :
    (o : Option ℕ) (p : Option (List ℕ)) {mac : List ℕ}
    → cons_byte o p ≡ some mac
    → (x : ℕ) × (xs : List ℕ) × (o ≡ some x) × (p ≡ some xs) × (mac ≡ x ∷ xs)
consed (some x) (some xs) {mac} h = (x, xs, refl, refl, sym (some-injective (x ∷ xs) mac h))
consed (some x) none h = cc
consed none p h = cc

prefixed :
    (a b : ℕ) (s : Text) (o : Option (List ℕ)) {mac : List ℕ}
    → cons_byte (hex_byte a b) o ≡ some mac
    → ((xs : List ℕ) → o ≡ some xs → map to_upper (without_colons (mac_string xs)) ≡ map to_upper s)
    → map to_upper (without_colons (mac_string mac)) ≡ map to_upper (a ∷ b ∷ s)
prefixed a b s o {mac} h ih =
    let (x, xs, is_x, is_xs, e) = consed (hex_byte a b) o h in
    let (high, low, small) = byte_back a b x is_x in
    ap (λ m. map to_upper (without_colons (mac_string m))) e
    ∙ ap (map to_upper) (bare_digits x xs small)
    ∙ λ i. high i ∷ low i ∷ ih xs is_xs i

mac_back :
    (s : Text) {mac : List ℕ}
    → mac_bytes (insert_colons s) ≡ some mac
    → map to_upper (without_colons (mac_string mac)) ≡ map to_upper s
mac_back [] h = cc
mac_back (a ∷ []) h = cc
mac_back (a ∷ b ∷ []) h =
    prefixed a b [] (some []) h
      λ xs e. sym (ap (λ m. map to_upper (without_colons (mac_string m))) (some-injective [] xs e))
mac_back (a ∷ b ∷ c ∷ s) h =
    prefixed a b (c ∷ s) (mac_bytes (insert_colons (c ∷ s))) h λ xs e. mac_back (c ∷ s) e

six_bytes :
    (o : Option (List ℕ)) {mac : List ℕ}
    → (elim o as (λ o. Option (List ℕ)) [
      | none ↦ none
      | some m ↦ if◌then◌else◌ (length m == 6) (some m) none
    ])
      ≡ some mac
    → (o ≡ some mac) × (length mac ≡ 6)
six_bytes none h = cc
six_bytes (some m) h = ground arith

parsed :
    (s : Text) {mac : List ℕ} → parse_mac s ≡ some mac → (mac_bytes s ≡ some mac) × (length mac ≡ 6)
unfolding parse_mac
parsed s h = six_bytes (mac_bytes s) h

long_enough :
    (s : Text) {mac : List ℕ}
    → (if ltb (length s) 12 then none else parse_mac (insert_colons (take 12 s))) ≡ some mac
    → (12 ≤ length s) × (parse_mac (insert_colons (take 12 s)) ≡ some mac)
long_enough s h = ground arith

-- A player with an AirPlay identity has a UUID of `RINCON_` and at least twelve characters more;
-- the identity has six bytes, and the name it is advertised under is those twelve characters,
-- in upper case, an at sign and the zone's name.
pub instance_name-raop_id :
    (p : Player) (name : Text) (mac : List ℕ)
    → raop_id p ≡ some mac
    → (rest : Text) × (uuid p ≡ codes "RINCON_" ++ rest)
      × (12 ≤ length rest)
      × (length mac ≡ 6)
      × (instance_name name mac ≡ map to_upper (take 12 rest) ++ codes "@" ++ name)
unfolding raop_id instance_name
instance_name-raop_id p name mac h = elim (Option-cases (cut_prefix (uuid p) (codes "RINCON_"))) [
  | inl e ↦ absurd (none-ne-some mac (sym (rw (e, raop_id) refl) ∙ h))
  | inr (rest, e) ↦
      let found : (if ltb (length rest) 12 then none else parse_mac (insert_colons (take 12 rest)))
          ≡ some mac =
        sym (rw (e, raop_id) refl) ∙ h in
      let (long, read) = long_enough rest found in
      let (bytes, six) = parsed (insert_colons (take 12 rest)) read in
      (
        rest,
        cut_prefix_found (codes "RINCON_") (uuid p) rest e,
        long,
        six,
        ap (λ t. t ++ codes "@" ++ name) (mac_back (take 12 rest) bytes),
      )
]
