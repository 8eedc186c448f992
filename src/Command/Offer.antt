-- ===== src/Command/Offer.antt =====
-- cmd/sonospoof/main.go: what `discover` returns.

use sonospoof.Base.{
  Bool, true, false, ◌||◌, if◌then◌else◌, if_true, if_false, Bool-cases, ◌≡◌, ◌≢◌, refl, sym, subst,
  inl, inr, Option, none, some, List, [], ◌∷◌, Text, same, split, Member, All, All-weaken,
}
use sonospoof.Sonos.Zones.{Player, Group, Zone, zones}
use sonospoof.Sonos.Zones.Topology.{IsDriven, zones-IsDriven}
use sonospoof.Sonos.Zones.Coverage.{player_kept}
use sonospoof.Sonos.Client.{Post, Answer, Result}
use sonospoof.Sonos.Discovery.{describe_all, discover_replies}
use sonospoof.Command.{
  NoZones, Found, keep, some_zones, some_kept, select, of_topology, with_players, searched,
  discover,
}

or_right : (a : Bool) {b : Bool} → b ≡ true → (a || b) ≡ true
or_right true e = refl
or_right false e = e

Member-nonempty {ℓ} : {A : Type ℓ} {x : A} (xs : List A) → Member x xs → xs ≢ []
Member-nonempty (y ∷ xs) m e = cc
Member-nonempty [] m e = elim m [ ]

-- Some player was described, so that there is a zone.
zones_some : (p : Player) (ps : List Player) (gs : List Group) → zones (p ∷ ps) gs ≢ []
zones_some p ps gs = elim (player_kept (p ∷ ps) gs p Member.here) [
  | inl m ↦ Member-nonempty (zones (p ∷ ps) gs) m
  | inr (g, c, m, in_gs, found, is_zone, in_g, is_p) ↦ Member-nonempty (zones (p ∷ ps) gs) is_zone
]

module _ (equal_fold : Text → Text → Bool) (only : Text) where
  -- The zone was asked for, or all are.
  abbrev pub IsAsked : Zone → Type 0
  IsAsked z = (same only [] || equal_fold z.name only) ≡ true

  -- The zones that are offered; an error is never the last one of the source.
  abbrev pub IsOffer : List Player → Found → Type 0
  IsOffer ps (Found.not_found e) = e ≢ NoZones.no_zones
  IsOffer ps (Found.found zs) = (zs ≢ []) × All (IsDriven ps) zs × All IsAsked zs

  keep-All :
      (P : Zone → Type 0) (zs : List Zone)
      → All P zs
      → All P (keep equal_fold only zs) × All IsAsked (keep equal_fold only zs)
  keep-All P [] p = (tt, tt)
  keep-All P (z ∷ zs) (p, ps) =
      let (kept, asked) = keep-All P zs ps in
      elim (Bool-cases (equal_fold z.name only)) [
        | inl e ↦ rw e ((p, kept), (or_right (same only []) e, asked))
        | inr e ↦ rw e (kept, asked)
      ]

  some_kept-IsOffer :
      (ps : List Player) (zs kept : List Zone)
      → All (IsDriven ps) kept
      → All IsAsked kept
      → IsOffer ps (some_kept equal_fold only zs kept)
  some_kept-IsOffer ps zs [] p q = cc
  some_kept-IsOffer ps zs (k ∷ kept) p q = ((cc), p, q)

  some_zones-IsOffer :
      (ps : List Player) (zs : List Zone)
      → zs ≢ []
      → same only [] ≡ true
      → All (IsDriven ps) zs
      → IsOffer ps (some_zones equal_fold zs)
  some_zones-IsOffer ps [] h e p = absurd (h refl)
  some_zones-IsOffer ps (z ∷ zs) h e p = (h, p, All-weaken (λ z _. rw e refl) (z ∷ zs) p)

  select-IsOffer :
      (p : Player) (ps : List Player) (gs : List Group)
      → IsOffer (p ∷ ps) (select equal_fold only (zones (p ∷ ps) gs))
  unfolding select
  select-IsOffer p ps gs =
      let zs : List Zone = zones (p ∷ ps) gs in
      let driven = (zones-IsDriven (p ∷ ps) gs).0 in
      elim (Bool-cases (same only [])) [
        | inl e ↦
            subst (IsOffer (p ∷ ps)) (sym (if_true _ _ e))
              (some_zones-IsOffer (p ∷ ps) zs (zones_some p ps gs) e driven)
        | inr e ↦
            let (kept, asked) = keep-All (IsDriven (p ∷ ps)) zs driven in
            subst (IsOffer (p ∷ ps)) (sym (if_false _ _ e))
              (some_kept-IsOffer (p ∷ ps) zs (keep equal_fold only zs) kept asked)
      ]

  of_topology-IsOffer :
      (p : Player) (ps : List Player) (answer : Result (List Group))
      → IsOffer (p ∷ ps) (of_topology equal_fold only (p ∷ ps) answer)
  of_topology-IsOffer p ps (Result.failed e) = cc
  of_topology-IsOffer p ps (Result.done gs) = select-IsOffer p ps gs

  module _ {ℓ} {Network : Type ℓ} (http : Network → Post → Network × Answer)
      (fetch : Network → Text → Network × Option Text)
      (unmarshal_device : Text → Option (Text × Text × Text)) (unmarshal_state : Text → Option Text)
      (unmarshal_groups : Text → Option (List (Text × Text × List (Text × Text × Text))))
      (hostname : Text → Text) where
    -- The players that are described, of the hosts that are named or of those that replied.
    unfoldable pub described : Network → Text → Option (List (Text × Text)) → List Player
    described net hosts replies =
        if same hosts []
        then elim replies [
          | none ↦ []
          | some rs ↦
              (discover_replies http fetch unmarshal_device unmarshal_state unmarshal_groups
                hostname net rs).1
        ]
        else (describe_all http fetch unmarshal_device unmarshal_state unmarshal_groups hostname net
            (split b',' hosts)).1

    with_players-IsOffer :
        (found : Network × List Player)
        → IsOffer found.1 (
            with_players equal_fold http fetch unmarshal_device unmarshal_state unmarshal_groups
              hostname only found)
    with_players-IsOffer (net, []) = cc
    with_players-IsOffer (net, p ∷ ps) = of_topology-IsOffer p ps _

    searched-IsOffer :
        (net : Network) (replies : Option (List (Text × Text)))
        → IsOffer
            (elim replies [
              | none ↦ []
              | some rs ↦
                  (discover_replies http fetch unmarshal_device unmarshal_state unmarshal_groups
                    hostname net rs).1
            ])
            (searched equal_fold http fetch unmarshal_device unmarshal_state unmarshal_groups
              hostname only net replies)
    searched-IsOffer net none = cc
    searched-IsOffer net (some rs) = with_players-IsOffer _

    -- Whatever the network answers: the zones that are offered are some, each is coordinated by a
    -- player that was described and carries its name and address, and where one name was asked for,
    -- they have it; and a search that described a player never ends in "no zones to advertise".
    pub discover-IsOffer :
        (net : Network) (hosts : Text) (replies : Option (List (Text × Text)))
        → IsOffer (described net hosts replies) (
            discover equal_fold http fetch unmarshal_device unmarshal_state unmarshal_groups
              hostname net hosts only replies)
    unfolding discover described
    discover-IsOffer net hosts replies = elim (Bool-cases (same hosts [])) [
      | inr e ↦ rw e (with_players-IsOffer _)
      | inl e ↦ rw e (searched-IsOffer net replies)
    ]
