-- ===== src/Command.antt =====
-- cmd/sonospoof/main.go: the zones to offer, and a target for each.
pub mod Offer
pub mod Targets
mod Tests
use sonospoof.Base.{
  ℕ, Bool, true, false, ◌||◌, if◌then◌else◌, Option, none, some, List, [], ◌∷◌, ◌++◌, map, Text,
  codes, same, split, join,
}
use sonospoof.Sonos.Zones.{Player, Group, Zone, zones}
use sonospoof.Sonos.Client.{Post, Answer, Failure, Result}
use sonospoof.Sonos.Discovery.{describe_all, discover_replies, topology, is_seen}
use sonospoof.Bridge.Advertise.{Service, Added, add}

-- The errors of `discover`; a zone that is not there is reported with the names of those that are.
pub data NoZones : Type 0 where
  no_search no_players no_zones : NoZones
  no_topology : Failure → NoZones
  no_such_zone : Text → Text → NoZones

pub data Found : Type 0 where
  not_found : NoZones → Found
  found : List Zone → Found

-- `names`
unfoldable pub names : List Zone → Text
names zs = join (codes ", ") (map (λ z. z.name) zs)

-- `equal_fold` is `strings.EqualFold`.
module _ (equal_fold : Text → Text → Bool) where
  abbrev pub keep : Text → List Zone → List Zone
  keep only [] = []
  keep only (z ∷ zs) = let rest = keep only zs in if equal_fold z.name only then z ∷ rest else rest

  abbrev pub some_zones : List Zone → Found
  some_zones [] = Found.not_found NoZones.no_zones
  some_zones (z ∷ zs) = Found.found (z ∷ zs)

  abbrev pub some_kept : Text → List Zone → List Zone → Found
  some_kept only zs [] = Found.not_found (NoZones.no_such_zone only (names zs))
  some_kept only zs (k ∷ kept) = Found.found (k ∷ kept)

  -- The end of `discover`: the zones, and those among them that are asked for.
  unfoldable pub select : Text → List Zone → Found
  unfolding names
  select only zs = if same only [] then some_zones zs else some_kept only zs (keep only zs)

  abbrev pub of_topology : Text → List Player → Result (List Group) → Found
  of_topology only ps (Result.failed e) = Found.not_found (NoZones.no_topology e)
  of_topology only ps (Result.done gs) = select only (zones ps gs)

  module _ {ℓ} {Network : Type ℓ} (http : Network → Post → Network × Answer)
      (fetch : Network → Text → Network × Option Text)
      (unmarshal_device : Text → Option (Text × Text × Text)) (unmarshal_state : Text → Option Text)
      (unmarshal_groups : Text → Option (List (Text × Text × List (Text × Text × Text))))
      (hostname : Text → Text) where
    abbrev pub with_players : Text → Network × List Player → Found
    with_players only (net, []) = Found.not_found NoZones.no_players
    with_players only (net, p ∷ ps) =
        of_topology only (p ∷ ps)
          (topology http fetch unmarshal_device unmarshal_state unmarshal_groups hostname net
            p.ip).1

    abbrev pub searched : Text → Network → Option (List (Text × Text)) → Found
    searched only net none = Found.not_found NoZones.no_search
    searched only net (some replies) = with_players only (
        discover_replies http fetch unmarshal_device unmarshal_state unmarshal_groups hostname net
          replies)

    -- `discover`; `replies` are those to the search, if it can be sent.
    unfoldable pub discover : Network → Text → Text → Option (List (Text × Text)) → Found
    unfolding select
    discover net hosts only replies =
        if same hosts []
        then searched only net replies
        else with_players only (
            describe_all http fetch unmarshal_device unmarshal_state unmarshal_groups hostname net
              (split b',' hosts))
