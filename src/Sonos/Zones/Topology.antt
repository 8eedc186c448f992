-- ===== src/Sonos/Zones/Topology.antt =====
-- internal/sonos/zones.go: what `Zones` makes of the players and the groups.
use sonospoof.Base.{
  false, ◌≡◌, refl, sym, ◌∙◌, ap, subst, if◌then◌else◌, none, some, some-injective, List, [], ◌∷◌,
  ◌++◌, map, Text, same, same→≡, if_true, if_false, Bool-cases, Option-cases, inl, inr, Member, All,
  All-append, IsSorted, sort_by-IsSorted, All-sort_by,
}
use mathlib.Core.Option.{none-ne-some}
use sonospoof.Sonos.Zones.{
  Player, Group, Zone, uuid, raop_id, by_uuid, group_zone, single_zone, group_zones, claims,
  single_zones, is_claimed, zones, member_name,
}

by_uuid_nil : (u : Text) → by_uuid [] u ≡ none
unfolding by_uuid
by_uuid_nil u = refl

by_uuid_later :
    (q : Player) (ps : List Player) (u : Text) {r : Player}
    → by_uuid ps u ≡ some r
    → by_uuid (q ∷ ps) u ≡ some r
unfolding by_uuid
by_uuid_later q ps u e = rw e refl

by_uuid_last :
    (q : Player) (ps : List Player) (u : Text)
    → by_uuid ps u ≡ none
    → by_uuid (q ∷ ps) u ≡ (if same (uuid q) u then some q else none)
unfolding by_uuid
by_uuid_last q ps u e = rw e refl

-- The map of the players gives a player that has the UUID.
pub by_uuid_found :
    (ps : List Player) {u : Text} {p : Player} → by_uuid ps u ≡ some p → Member p ps × (uuid p ≡ u)
by_uuid_found [] {u} {p} h = absurd (none-ne-some p (sym (by_uuid_nil u) ∙ h))
by_uuid_found (q ∷ ps) {u} {p} h = elim (Option-cases (by_uuid ps u)) [
  | inr (r, e) ↦
      let r≡p : r ≡ p = some-injective r p (sym (by_uuid_later q ps u e) ∙ h) in
      let (m, s) = by_uuid_found ps (e ∙ ap some r≡p) in (Member.there m, s)
  | inl e ↦
      let found : (if same (uuid q) u then some q else none) ≡ some p =
        sym (by_uuid_last q ps u e) ∙ h in
      elim (Bool-cases (same (uuid q) u)) [
        | inl s ↦
            let q≡p : q ≡ p = some-injective q p (sym (if_true _ _ s) ∙ found) in
            (
              subst (λ x. Member x (q ∷ ps)) q≡p Member.here,
              ap uuid (sym q≡p) ∙ same→≡ (uuid q) u s,
            )
        | inr s ↦ absurd (none-ne-some p (sym (if_false _ _ s) ∙ found))
      ]
]

-- A zone that a player in `ps` coordinates: that player's name, address and AirPlay identity.
abbrev pub IsDriven : List Player → Zone → Type 0
IsDriven ps z =
    (p : Player) × Member p ps
    × (z.coordinator_uuid ≡ uuid p)
    × (z.name ≡ p.room_name)
    × (z.ip ≡ p.ip)
    × (z.raop_id ≡ raop_id p)

abbrev pub HasMembersSorted : Zone → Type 0
HasMembersSorted z = IsSorted (λ s. s) z.members

pub skip_group :
    (ps : List Player) (g : Group) (gs : List Group)
    → by_uuid ps g.coordinator ≡ none
    → (group_zones ps (g ∷ gs) ≡ group_zones ps gs) × (claims ps (g ∷ gs) ≡ claims ps gs)
unfolding group_zones claims
skip_group ps g gs e = (rw (e, group_zones) refl, rw (e, claims) refl)

pub take_group :
    (ps : List Player) (g : Group) (gs : List Group) {c : Player}
    → by_uuid ps g.coordinator ≡ some c
    → (group_zones ps (g ∷ gs) ≡ group_zone ps c g ∷ group_zones ps gs)
      × (claims ps (g ∷ gs) ≡ map (λ m. m.uuid) g.members ++ claims ps gs)
unfolding group_zones claims
take_group ps g gs e = (rw (e, group_zones) refl, rw (e, claims) refl)

no_groups-All {κ} : (P : Zone → Type κ) (ps : List Player) → All P (group_zones ps [])
unfolding group_zones
no_groups-All P ps = tt

module _ {κ} (P : Zone → Type κ) (ps : List Player) where
  -- What holds of the zone of every group that has a discovered coordinator.
  pub group_zones-All :
      (gs : List Group)
      → ((g : Group) (c : Player)
          → Member g gs
          → by_uuid ps g.coordinator ≡ some c
          → P (group_zone ps c g))
      → All P (group_zones ps gs)
  group_zones-All [] f = no_groups-All P ps
  group_zones-All (g ∷ gs) f =
      let rest = group_zones-All gs (λ h c m e. f h c (Member.there m) e) in
      elim (Option-cases (by_uuid ps g.coordinator)) [
        | inl e ↦ subst (All P) (sym (skip_group ps g gs e).0) rest
        | inr (c, e) ↦ subst (All P) (sym (take_group ps g gs e).0) (f g c Member.here e, rest)
      ]

pub single_zones-All {κ} :
    (P : Zone → Type κ) (claimed : List Text) (ps : List Player)
    → ((p : Player) → Member p ps → is_claimed claimed (uuid p) ≡ false → P (single_zone p))
    → All P (single_zones claimed ps)
unfolding single_zones
single_zones-All P claimed [] f = tt
single_zones-All P claimed (p ∷ ps) f =
    let rest = single_zones-All P claimed ps (λ q m e. f q (Member.there m) e) in
    elim (Bool-cases (is_claimed claimed (uuid p))) [
      | inl e ↦ rw e rest
      | inr e ↦ rw e (f p Member.here e, rest)
    ]

pub group_zones-IsDriven :
    (ps : List Player) (gs : List Group) → All (IsDriven ps) (group_zones ps gs)
group_zones-IsDriven ps gs = group_zones-All (IsDriven ps) ps gs λ g c m e.
    let (found, same_uuid) = by_uuid_found ps e in
    (
      c,
      found,
      (unfold group_zone in sym same_uuid),
      (unfold group_zone in refl),
      (unfold group_zone in refl),
      (unfold group_zone in refl),
    )

pub single_zones-IsDriven :
    (claimed : List Text) (ps : List Player) → All (IsDriven ps) (single_zones claimed ps)
single_zones-IsDriven claimed ps = single_zones-All (IsDriven ps) claimed ps λ p m e. (
  p,
  m,
  (unfold single_zone in refl),
  (unfold single_zone in refl),
  (unfold single_zone in refl),
  (unfold single_zone in refl),
)

both_sorted :
    (ps : List Player) (gs : List Group)
    → All HasMembersSorted (group_zones ps gs ++ single_zones (claims ps gs) ps)
both_sorted ps gs =
    All-append HasMembersSorted (group_zones ps gs) (single_zones (claims ps gs) ps)
      (group_zones-All HasMembersSorted ps gs
        λ g c m e. unfold group_zone in sort_by-IsSorted (λ s. s) (map (member_name ps) g.members))
      (single_zones-All HasMembersSorted (claims ps gs) ps λ p m e. unfold single_zone in (tt, tt))

-- Every zone to advertise is coordinated by a discovered player, whose name, address and
-- AirPlay identity it carries; the zones are in the order of their names, and each lists its
-- members in order.
pub zones-IsDriven :
    (ps : List Player) (gs : List Group)
    → All (IsDriven ps) (zones ps gs)
      × IsSorted (λ z. z.name) (zones ps gs)
      × All HasMembersSorted (zones ps gs)
unfolding zones
zones-IsDriven ps gs =
    let found = group_zones ps gs ++ single_zones (claims ps gs) ps in
    (
      All-sort_by (λ z. z.name) (IsDriven ps) found
          (All-append (IsDriven ps) (group_zones ps gs) (single_zones (claims ps gs) ps)
            (group_zones-IsDriven ps gs) (single_zones-IsDriven (claims ps gs) ps)),
      sort_by-IsSorted (λ z. z.name) found,
      All-sort_by (λ z. z.name) HasMembersSorted found (both_sorted ps gs),
    )
