-- ===== src/Sonos/Zones/Identity.antt =====
-- internal/sonos/zones.go: no two zones have one coordinator.
use sonospoof.Base.{
  true, ◌≡◌, ◌≢◌, refl, sym, ◌∙◌, ap, subst, some, List, [], ◌∷◌, ◌++◌, map, Text, same_refl,
  Bool-cases, Option-cases, inl, inr, Member, All, All-Member, arith, IsDistinct, append-IsDistinct,
  sort_by-IsDistinct,
}
use mathlib.Core.Bool.{true≢false}
use sonospoof.Sonos.Zones.{
  Player, Group, GroupMember, uuid, by_uuid, group_zone, single_zone, group_zones, claims,
  single_zones, is_claimed, zones,
}
use sonospoof.Sonos.Zones.Topology.{skip_group, take_group, group_zones-All, single_zones-All}

-- What the players' topology promises of a group.
abbrev pub ListsCoordinator : Group → Type 0
ListsCoordinator g = (m : GroupMember) × Member m g.members × (m.uuid ≡ g.coordinator)

claimed_later :
    (xs ys : List Text) (u : Text) → is_claimed ys u ≡ true → is_claimed (xs ++ ys) u ≡ true
claimed_later [] ys u h = h
claimed_later (x ∷ xs) ys u h = ground (arith, claimed_later xs ys u h)

claimed-Member :
    {m : GroupMember} (ms : List GroupMember) (ys : List Text)
    → Member m ms
    → is_claimed (map (λ m. m.uuid) ms ++ ys) m.uuid ≡ true
claimed-Member [] ys i = elim i [ ]
claimed-Member {m} (n ∷ ms) ys (Member.here) = rw (same_refl m.uuid) refl
claimed-Member {m} (n ∷ ms) ys (Member.there i) = ground (arith, claimed-Member ms ys i)

-- The coordinator of every group that makes a zone is claimed.
coordinator_claimed :
    (ps : List Player) (gs : List Group) (g : Group) (c : Player)
    → All ListsCoordinator gs
    → Member g gs
    → by_uuid ps g.coordinator ≡ some c
    → is_claimed (claims ps gs) g.coordinator ≡ true
coordinator_claimed ps [] g c w i e = elim i [ ]
coordinator_claimed ps (g' ∷ gs) g c ((m, j, q), w) (Member.here) e =
    ap (λ xs. is_claimed xs g.coordinator) (take_group ps g gs e).1
    ∙ subst (λ u. is_claimed (map (λ m. m.uuid) g.members ++ claims ps gs) u ≡ true) q
        (claimed-Member g.members (claims ps gs) j)
coordinator_claimed ps (h ∷ gs) g c (w, ws) (Member.there i) e =
    let rest = coordinator_claimed ps gs g c ws i e in
    elim (Option-cases (by_uuid ps h.coordinator)) [
      | inl f ↦ ap (λ xs. is_claimed xs g.coordinator) (skip_group ps h gs f).1 ∙ rest
      | inr (d, f) ↦
          ap (λ xs. is_claimed xs g.coordinator) (take_group ps h gs f).1
          ∙ claimed_later (map (λ m. m.uuid) h.members) (claims ps gs) g.coordinator rest
    ]

group_zones-IsDistinct :
    (ps : List Player) (gs : List Group)
    → IsDistinct (λ g. g.coordinator) gs
    → IsDistinct (λ z. z.coordinator_uuid) (group_zones ps gs)
group_zones-IsDistinct ps [] h = unfold group_zones in tt
group_zones-IsDistinct ps (g ∷ gs) (h, hs) =
    let rest = group_zones-IsDistinct ps gs hs in
    elim (Option-cases (by_uuid ps g.coordinator)) [
      | inl e ↦ subst (IsDistinct (λ z. z.coordinator_uuid)) (sym (skip_group ps g gs e).0) rest
      | inr (c, e) ↦ subst (IsDistinct (λ z. z.coordinator_uuid)) (sym (take_group ps g gs e).0) (
        group_zones-All (λ z. (group_zone ps c g).coordinator_uuid ≢ z.coordinator_uuid) ps gs
            (λ k d i f. unfold group_zone in All-Member (λ k. g.coordinator ≢ k.coordinator) i h),
        rest,
      )
    ]

single_zones-IsDistinct :
    (claimed : List Text) (ps : List Player)
    → IsDistinct uuid ps
    → IsDistinct (λ z. z.coordinator_uuid) (single_zones claimed ps)
unfolding single_zones
single_zones-IsDistinct claimed [] h = tt
single_zones-IsDistinct claimed (p ∷ ps) (h, hs) =
    let rest = single_zones-IsDistinct claimed ps hs in
    elim (Bool-cases (is_claimed claimed (uuid p))) [
      | inl e ↦ rw e rest
      | inr e ↦ rw e (
        single_zones-All (λ z. (single_zone p).coordinator_uuid ≢ z.coordinator_uuid) claimed ps
            (λ q i f. unfold single_zone in All-Member (λ q. uuid p ≢ uuid q) i h),
        rest,
      )
    ]

-- If no two groups of the topology name one coordinator, each lists its coordinator as a member,
-- and no two players share a UUID, then no two zones have one coordinator.
pub zones-IsDistinct :
    (ps : List Player) (gs : List Group)
    → IsDistinct (λ g. g.coordinator) gs
    → All ListsCoordinator gs
    → IsDistinct uuid ps
    → IsDistinct (λ z. z.coordinator_uuid) (zones ps gs)
unfolding zones
zones-IsDistinct ps gs one_each listed once =
    let single = single_zones (claims ps gs) ps in
    let apart =
      group_zones-All (λ x. All (λ y. x.coordinator_uuid ≢ y.coordinator_uuid) single) ps gs
        λ g c i e.
          single_zones-All (λ y. (group_zone ps c g).coordinator_uuid ≢ y.coordinator_uuid)
            (claims ps gs) ps
            λ p j f.
              unfold group_zone single_zone in
              λ same_uuid. true≢false (
                sym (coordinator_claimed ps gs g c listed i e)
                ∙ ap (is_claimed (claims ps gs)) same_uuid
                ∙ f) in
    sort_by-IsDistinct (λ z. z.name) (λ z. z.coordinator_uuid) (group_zones ps gs ++ single)
      (append-IsDistinct (λ z. z.coordinator_uuid) (group_zones ps gs) single
        (group_zones-IsDistinct ps gs one_each) (single_zones-IsDistinct (claims ps gs) ps once)
        apart)
