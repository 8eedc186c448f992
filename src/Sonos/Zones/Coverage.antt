-- ===== src/Sonos/Zones/Coverage.antt =====
-- internal/sonos/zones.go: no discovered player is lost.
use sonospoof.Base.{
  true, false, ◌≡◌, refl, sym, ◌∙◌, ap, subst, some, List, [], ◌∷◌, ◌++◌, map, Text, same, same→≡,
  Bool-cases, Option-cases, ◌⊎◌, ◌≢◌, inl, inr, Member, Member-append-left, Member-append-right,
  Member-sort_by,
}
use sonospoof.Sonos.Zones.{
  Player, Group, GroupMember, uuid, by_uuid, group_zone, single_zone, group_zones, claims,
  single_zones, is_claimed, zones,
}
use sonospoof.Sonos.Zones.Topology.{skip_group, take_group}

-- `u` is the UUID of a member of a group that a discovered player coordinates.
abbrev pub IsGrouped : List Player → List Group → Text → Type 0
IsGrouped ps gs u =
    (g : Group) × Member g gs
    × (c : Player) × (by_uuid ps g.coordinator ≡ some c)
    × (m : GroupMember) × Member m g.members
    × (m.uuid ≡ u)

not_first :
    (x : Text) (xs : List Text) (u : Text)
    → same x u ≡ false
    → is_claimed (x ∷ xs) u ≡ is_claimed xs u
not_first x xs u e = rw e refl

is_claimed-append :
    (xs ys : List Text) (u : Text)
    → is_claimed (xs ++ ys) u ≡ true
    → (is_claimed xs u ≡ true) ⊎ (is_claimed ys u ≡ true)
is_claimed-append [] ys u h = inr h
is_claimed-append (x ∷ xs) ys u h = elim (Bool-cases (same x u)) [
  | inl e ↦ inl (rw e refl)
  | inr e ↦ elim (is_claimed-append xs ys u (sym (not_first x (xs ++ ys) u e) ∙ h)) [
    | inl l ↦ inl (rw e l)
    | inr r ↦ inr r
  ]
]

is_claimed-Member :
    (ms : List GroupMember) (u : Text)
    → is_claimed (map (λ m. m.uuid) ms) u ≡ true
    → (m : GroupMember) × Member m ms × (m.uuid ≡ u)
is_claimed-Member [] u h = cc
is_claimed-Member (m ∷ ms) u h = elim (Bool-cases (same m.uuid u)) [
  | inl e ↦ (m, Member.here, same→≡ m.uuid u e)
  | inr e ↦
      let (n, i, q) =
        is_claimed-Member ms u (sym (not_first m.uuid (map (λ m. m.uuid) ms) u e) ∙ h) in
      (n, Member.there i, q)
]

unclaimed : (ps : List Player) (u : Text) → is_claimed (claims ps []) u ≢ true
unfolding claims
unclaimed ps u h = cc

claimed-IsGrouped :
    (ps : List Player) (gs : List Group) (u : Text)
    → is_claimed (claims ps gs) u ≡ true
    → IsGrouped ps gs u
claimed-IsGrouped ps [] u h = absurd (unclaimed ps u h)
claimed-IsGrouped ps (g ∷ gs) u h = elim (Option-cases (by_uuid ps g.coordinator)) [
  | inl e ↦
      let (k, i, c, f, m, j, q) =
        claimed-IsGrouped ps gs u (ap (λ c. is_claimed c u) (sym (skip_group ps g gs e).1) ∙ h) in
      (k, Member.there i, c, f, m, j, q)
  | inr (c, e) ↦
      elim (is_claimed-append (map (λ m. m.uuid) g.members) (claims ps gs) u
        (ap (λ c. is_claimed c u) (sym (take_group ps g gs e).1) ∙ h)) [
          | inl l ↦
              let (m, j, q) = is_claimed-Member g.members u l in (g, Member.here, c, e, m, j, q)
          | inr r ↦
              let (k, i, c, f, m, j, q) = claimed-IsGrouped ps gs u r in
              (k, Member.there i, c, f, m, j, q)
        ]
]

single_zones-Member :
    (claimed : List Text) {p : Player} (ps : List Player)
    → Member p ps
    → is_claimed claimed (uuid p) ≡ false
    → Member (single_zone p) (single_zones claimed ps)
unfolding single_zones
single_zones-Member claimed [] m e = elim m [ ]
single_zones-Member claimed (p ∷ ps) (Member.here) e = rw e Member.here
single_zones-Member claimed (q ∷ ps) (Member.there m) e =
    elim (Bool-cases (is_claimed claimed (uuid q))) [
      | inl f ↦ rw f (single_zones-Member claimed ps m e)
      | inr f ↦ rw f (Member.there (single_zones-Member claimed ps m e))
    ]

group_zones-Member :
    (ps : List Player) {g : Group} {c : Player} (gs : List Group)
    → Member g gs
    → by_uuid ps g.coordinator ≡ some c
    → Member (group_zone ps c g) (group_zones ps gs)
group_zones-Member ps [] m e = elim m [ ]
group_zones-Member ps {g} {c} (g' ∷ gs) (Member.here) e =
    subst (Member (group_zone ps c g)) (sym (take_group ps g gs e).0) Member.here
group_zones-Member ps {g} {c} (h ∷ gs) (Member.there m) e =
    let rest = group_zones-Member ps gs m e in
    elim (Option-cases (by_uuid ps h.coordinator)) [
      | inl f ↦ subst (Member (group_zone ps c g)) (sym (skip_group ps h gs f).0) rest
      | inr (d, f) ↦
          subst (Member (group_zone ps c g)) (sym (take_group ps h gs f).0) (Member.there rest)
    ]

-- Every discovered player is reached through a zone: its own, or that of a group in the topology
-- that lists it and has a discovered coordinator.
pub player_kept :
    (ps : List Player) (gs : List Group) (p : Player)
    → Member p ps
    → Member (single_zone p) (zones ps gs)
      ⊎ ((g : Group) × (c : Player) × (m : GroupMember) × Member g gs
          × (by_uuid ps g.coordinator ≡ some c)
          × Member (group_zone ps c g) (zones ps gs)
          × Member m g.members
          × (m.uuid ≡ uuid p))
unfolding zones
player_kept ps gs p here_is =
    let single = single_zones (claims ps gs) ps in
    elim (Bool-cases (is_claimed (claims ps gs) (uuid p))) [
      | inr e ↦ inl (
          Member-sort_by (λ z. z.name) (group_zones ps gs ++ single)
            (Member-append-right (group_zones ps gs)
              (single_zones-Member (claims ps gs) ps here_is e)))
      | inl e ↦
          let (g, in_gs, c, found, m, in_g, is_p) = claimed-IsGrouped ps gs (uuid p) e in
          inr (
            g,
            c,
            m,
            in_gs,
            found,
            Member-sort_by (λ z. z.name) (group_zones ps gs ++ single)
                (Member-append-left single (group_zones-Member ps gs in_gs found)),
            in_g,
            is_p,
          )
    ]
