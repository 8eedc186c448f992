-- ===== src/Sonos/Zones.antt =====
-- internal/sonos/zones.go, and the players and groups of internal/sonos/client.go.
pub mod Topology
pub mod Coverage
pub mod Identity
use sonospoof.Base.{
  ℕ, ◌+◌, ◌-◌, ◌*◌, Bool, true, false, ◌&&◌, ◌||◌, Option, none, some, List, [], ◌∷◌, ◌++◌, map,
  Text, codes, same, cut_prefix, trim_prefix, ltb, leb, ◌==◌, if◌then◌else◌, length, take, sort_by,
}

pub record Player : Type 0 where
  pub ip : Text
  pub room_name : Text
  pub model_name : Text
  pub udn : Text

pub record GroupMember : Type 0 where
  pub uuid : Text
  pub zone_name : Text
  pub ip : Text

pub record Group : Type 0 where
  pub id : Text
  pub coordinator : Text
  pub members : List GroupMember

-- A nil `RAOPID` is `none`.
pub record Zone : Type 0 where
  pub name : Text
  pub coordinator_uuid : Text
  pub ip : Text
  pub raop_id : Option (List ℕ)
  pub members : List Text

-- `Player.UUID`
unfoldable pub uuid : Player → Text
uuid p = trim_prefix p.udn (codes "uuid:")

-- The pairs of a text of twelve characters, with colons between them.
abbrev pub insert_colons : Text → Text
insert_colons (a ∷ b ∷ c ∷ s) = a ∷ b ∷ b':' ∷ insert_colons (c ∷ s)
insert_colons (a ∷ b ∷ []) = a ∷ b ∷ []
insert_colons (a ∷ []) = a ∷ []
insert_colons [] = []

-- `net.ParseMAC` where the third character is a colon: pairs of hexadecimal digits, six of them.
abbrev pub hex_value : ℕ → Option ℕ
hex_value c =
    if leb b'0' c && leb c b'9'
    then some (c - b'0')
    else if leb b'a' c && leb c b'f'
    then some (c - b'a' + 10)
    else if leb b'A' c && leb c b'F'
    then some (c - b'A' + 10)
    else none

abbrev pub join_digits : Option ℕ → Option ℕ → Option ℕ
join_digits (some x) (some y) = some (x * 16 + y)
join_digits (some x) none = none
join_digits none digit = none

abbrev pub hex_byte : ℕ → ℕ → Option ℕ
hex_byte a b = join_digits (hex_value a) (hex_value b)

abbrev pub cons_byte : Option ℕ → Option (List ℕ) → Option (List ℕ)
cons_byte (some x) (some xs) = some (x ∷ xs)
cons_byte (some x) none = none
cons_byte none rest = none

abbrev pub mac_bytes : Text → Option (List ℕ)
mac_bytes (a ∷ b ∷ []) = cons_byte (hex_byte a b) (some [])
mac_bytes (a ∷ b ∷ c ∷ s) =
    let rest = mac_bytes s in if c == b':' then cons_byte (hex_byte a b) rest else none
mac_bytes (a ∷ []) = none
mac_bytes [] = none

unfoldable pub parse_mac : Text → Option (List ℕ)
parse_mac s = elim (mac_bytes s) [
  | none ↦ none
  | some mac ↦ if length mac == 6 then some mac else none
]

-- `Player.RAOPID`
unfoldable pub raop_id : Player → Option (List ℕ)
unfolding uuid parse_mac
raop_id p = elim (cut_prefix (uuid p) (codes "RINCON_")) [
  | none ↦ none
  | some s ↦ if ltb (length s) 12 then none else parse_mac (insert_colons (take 12 s))
]

-- `byUUID`: of two players with one UUID the later is kept.
unfoldable pub by_uuid : List Player → Text → Option Player
unfolding uuid
by_uuid [] u = none
by_uuid (p ∷ ps) u = elim (by_uuid ps u) [
  | some q ↦ some q
  | none ↦ if same (uuid p) u then some p else none
]

-- The name that a member of a group is listed under.
unfoldable pub member_name : List Player → GroupMember → Text
unfolding by_uuid
member_name ps m = elim (by_uuid ps m.uuid) [ none ↦ m.zone_name | some p ↦ p.room_name ]

-- The zone of a group whose coordinator is `c`, and the one of a player alone.
unfoldable pub group_zone : List Player → Player → Group → Zone
unfolding member_name raop_id
group_zone ps c g = record {
  name = c.room_name;
  coordinator_uuid = g.coordinator;
  ip = c.ip;
  raop_id = raop_id c;
  members = sort_by (λ s. s) (map (member_name ps) g.members);
}

unfoldable pub single_zone : Player → Zone
unfolding uuid raop_id
single_zone p = record {
  name = p.room_name;
  coordinator_uuid = uuid p;
  ip = p.ip;
  raop_id = raop_id p;
  members = p.room_name ∷ [];
}

-- The loop over the groups: the zones it makes, and the UUIDs it claims.
unfoldable pub group_zones : List Player → List Group → List Zone
unfolding by_uuid group_zone
group_zones ps [] = []
group_zones ps (g ∷ gs) =
    let rest = group_zones ps gs in
    elim (by_uuid ps g.coordinator) [ none ↦ rest | some c ↦ group_zone ps c g ∷ rest ]

unfoldable pub claims : List Player → List Group → List Text
unfolding by_uuid
claims ps [] = []
claims ps (g ∷ gs) =
    let rest = claims ps gs in
    elim (by_uuid ps g.coordinator) [ none ↦ rest | some c ↦ map (λ m. m.uuid) g.members ++ rest ]

abbrev pub is_claimed : List Text → Text → Bool
is_claimed [] u = false
is_claimed (v ∷ vs) u = same v u || is_claimed vs u

-- The loop over the players that no group claimed.
unfoldable pub single_zones : List Text → List Player → List Zone
unfolding uuid single_zone
single_zones claimed [] = []
single_zones claimed (p ∷ ps) =
    let rest = single_zones claimed ps in
    if is_claimed claimed (uuid p) then rest else single_zone p ∷ rest

-- `Zones`
unfoldable pub zones : List Player → List Group → List Zone
unfolding group_zones claims single_zones
zones ps gs = sort_by (λ z. z.name) (group_zones ps gs ++ single_zones (claims ps gs) ps)

-- `Zone.Grouped`
unfoldable pub grouped : Zone → Bool
grouped z = ltb 1 (length z.members)
