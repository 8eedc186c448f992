-- ===== src/Sonos/Tests.antt =====
-- A household of three players, two of them in one group.
use sonospoof.Base.{
  ◌≡◌, refl, List, [], ◌∷◌, map, ◌^◌, ◌-◌, some, Text, codes, length, Member, All, IsDistinct, ◌⊎◌,
  same→≢, sort_by, insert_by,
}
use sonospoof.Sonos.Zones.{
  Player, Group, GroupMember, uuid, raop_id, by_uuid, group_zone, single_zone, zones,
}
use sonospoof.Sonos.Zones.Coverage.{player_kept}
use sonospoof.Sonos.Escape.{content, xml_char}
use sonospoof.Sonos.Client.{stream_args, didl, clamp_volume}
use sonospoof.Sonos.Client.Arguments.{stream_args_read}
use sonospoof.Sonos.Zones.Identity.{ListsCoordinator, zones-IsDistinct}

abbrev kitchen : Player
kitchen = record {
  ip = codes "10.0.0.7";
  room_name = codes "Kitchen";
  model_name = codes "One";
  udn = codes "uuid:RINCON_B8E937EFDE1401400";
}

abbrev den : Player
den = record {
  ip = codes "10.0.0.8";
  room_name = codes "Den";
  model_name = codes "One";
  udn = codes "uuid:RINCON_B8E937EFDE1501400";
}

abbrev attic : Player
attic = record {
  ip = codes "10.0.0.9";
  room_name = codes "Attic";
  model_name = codes "Play";
  udn = codes "uuid:RINCON_B8E937EFDE1601400";
}

abbrev player : Text → Text → GroupMember
player u name = record { uuid = u; zone_name = name; ip = [] }

abbrev kitchen_uuid : Text
kitchen_uuid = codes "RINCON_B8E937EFDE1401400"

abbrev den_uuid : Text
den_uuid = codes "RINCON_B8E937EFDE1501400"

abbrev downstairs : Group
downstairs = record {
  id = codes "RINCON_OLD:1";
  coordinator = kitchen_uuid;
  members = player kitchen_uuid (codes "Kitchen") ∷ player den_uuid (codes "Den") ∷ [];
}

abbrev household : List Player
household = kitchen ∷ den ∷ attic ∷ []

the_zones :
    zones household (downstairs ∷ [])
    ≡ single_zone attic ∷ group_zone household kitchen downstairs ∷ []
unfolding sort_by insert_by zones single_zone group_zone
the_zones = refl

kitchen_id : raop_id kitchen ≡ some (0xb8 ∷ 0xe9 ∷ 0x37 ∷ 0xef ∷ 0xde ∷ 0x14 ∷ [])
unfolding raop_id
kitchen_id = refl

-- A group whose coordinator was not found leaves its members as zones of their own.
no_coordinator : zones (den ∷ []) (downstairs ∷ []) ≡ single_zone den ∷ []
unfolding sort_by insert_by zones single_zone
no_coordinator = refl

-- A coordinator that its group does not list is a zone twice.
without_coordinator : Group
without_coordinator = record {
  id = [];
  coordinator = kitchen_uuid;
  members = player den_uuid (codes "Den") ∷ [];
}

twice : length (zones (kitchen ∷ den ∷ []) (without_coordinator ∷ [])) ≡ 2
unfolding sort_by insert_by zones without_coordinator
twice = refl

player_kept_example :
    Member (single_zone den) (zones household (downstairs ∷ []))
    ⊎ ((g : Group) × (c : Player) × (m : GroupMember) × Member g (downstairs ∷ [])
        × (by_uuid household g.coordinator ≡ some c)
        × Member (group_zone household c g) (zones household (downstairs ∷ []))
        × Member m g.members
        × (m.uuid ≡ uuid den))
player_kept_example = player_kept household (downstairs ∷ []) den (Member.there Member.here)

lists_kitchen : All ListsCoordinator (downstairs ∷ [])
lists_kitchen = ((player kitchen_uuid (codes "Kitchen"), Member.here, refl), tt)

household_uuids : IsDistinct uuid household
unfolding uuid
household_uuids = (
  (same→≢ (uuid kitchen) (uuid den) refl, (same→≢ (uuid kitchen) (uuid attic) refl, tt)),
  ((same→≢ (uuid den) (uuid attic) refl, tt), (tt, tt)),
)

zones-IsDistinct_example : IsDistinct (λ z. z.coordinator_uuid) (zones household (downstairs ∷ []))
zones-IsDistinct_example =
    zones-IsDistinct household (downstairs ∷ []) (tt, tt) lists_kitchen household_uuids

stream_args_read_example :
    (content (codes "CurrentURI") (stream_args (codes "http://h/a&b") (codes "<G's>"))
      ≡ some (map xml_char (codes "http://h/a&b")))
    × (content (codes "CurrentURIMetaData") (stream_args (codes "http://h/a&b") (codes "<G's>"))
        ≡ some (didl (codes "<G's>")))
    × (content (codes "dc:title") (didl (codes "<G's>")) ≡ some (map xml_char (codes "<G's>")))
stream_args_read_example = stream_args_read (codes "http://h/a&b") (codes "<G's>")

clamped_volumes :
    (clamp_volume 101 ≡ 100) × (clamp_volume 40 ≡ 40) × (clamp_volume (2 ^ 64 - 1) ≡ 0)
unfolding clamp_volume
clamped_volumes = (refl, refl, refl)
