-- ===== src/Command/Targets.antt =====
-- cmd/sonospoof/main.go: the loop that makes a target of each zone.
use mathlib.Core.List.{append_cancel_left, append_cancel_right}
use sonospoof.Base.{
  ℕ, Bool, true, false, ◌||◌, if◌then◌else◌, if_false, ◌≡◌, ◌≢◌, refl, ◌∙◌, ap, Option, none, some,
  some-injective, List, [], ◌∷◌, ◌++◌, map, Text, codes, ≢→same, All, IsDistinct,
}
use sonospoof.Sonos.Zones.{Zone}
use sonospoof.Sonos.Discovery.{is_seen}
use sonospoof.Bridge.Advertise.{Service, Added, service, add}

-- What the loop comes to: `fatal` ends the program, and so does the panic of `HandleFunc` on a path
-- that is registered already.
pub data StartUp : Type 0 where
  no_listener : Text → StartUp
  no_target : Text → Added → StartUp
  panicked : Text → StartUp
  serving : List Service → StartUp

abbrev pub zone_path : Zone → Text
zone_path z = codes "/zone/" ++ z.coordinator_uuid ++ codes "/"

abbrev pub cons_service : Service → StartUp → StartUp
cons_service svc (StartUp.serving svcs) = StartUp.serving (svc ∷ svcs)
cons_service svc (StartUp.no_listener name) = StartUp.no_listener name
cons_service svc (StartUp.no_target name e) = StartUp.no_target name e
cons_service svc (StartUp.panicked path) = StartUp.panicked path

abbrev pub after_add : Zone → List Text → Added → StartUp → StartUp
after_add z paths (Added.published svc) later =
    if is_seen paths (zone_path z) then StartUp.panicked (zone_path z) else cons_service svc later
after_add z paths Added.no_raop_id later = StartUp.no_target z.name Added.no_raop_id
after_add z paths Added.bad_service later = StartUp.no_target z.name Added.bad_service
after_add z paths Added.not_published later = StartUp.no_target z.name Added.not_published

module _ (new_service responder_add : Service → Bool) (iface : Text) where
  -- Each zone comes with the port that its receiver gets to listen on, or none; `paths` are those
  -- that are registered.
  unfoldable pub start_up : List Text → List (Zone × Option ℕ) → StartUp
  start_up paths [] = StartUp.serving []
  start_up paths ((z, none) ∷ zs) = StartUp.no_listener z.name
  start_up paths ((z, some port) ∷ zs) =
      after_add z paths (add new_service responder_add iface z.name z.raop_id port)
        (start_up (zone_path z ∷ paths) zs)

  -- A service for each zone, in order, under the zone's name, identity and port.
  abbrev pub IsServed : List Service → List (Zone × ℕ) → Type 0
  IsServed [] [] = Unit
  IsServed [] (t ∷ ts) = ⊥
  IsServed (svc ∷ svcs) [] = ⊥
  IsServed (svc ∷ svcs) ((z, port) ∷ ts) =
      ((id : List ℕ) × (z.raop_id ≡ some id) × (svc ≡ service iface z.name id port))
      × IsServed svcs ts

  abbrev pub listening : Zone × ℕ → Zone × Option ℕ
  listening (z, port) = (z, some port)

  abbrev pub HasId : Zone × ℕ → Type 0
  HasId (z, port) = (id : List ℕ) × (z.raop_id ≡ some id)

  added :
      ((svc : Service) → new_service svc ≡ true)
      → ((svc : Service) → responder_add svc ≡ true)
      → (name : Text) (raop_id : Option (List ℕ)) (id : List ℕ) (port : ℕ) → raop_id ≡ some id
      → add new_service responder_add iface name raop_id port
        ≡ Added.published (service iface name id port)
  unfolding add
  added takes publishes name none id port e = cc
  added takes publishes name (some id') id port e =
      let svc : Service = service iface name id' port in
      rw (takes svc, publishes svc)
        (ap (λ k. Added.published (service iface name k port)) (some-injective id' id e))

  other_path : (z y : Zone) → z.coordinator_uuid ≢ y.coordinator_uuid → zone_path z ≢ zone_path y
  other_path z y differ e = differ (
      append_cancel_left (codes "/zone/") z.coordinator_uuid y.coordinator_uuid (
        append_cancel_right (codes "/zone/" ++ z.coordinator_uuid)
          (codes "/zone/" ++ y.coordinator_uuid) (codes "/") e))

  abbrev IsFree : List Text → Zone × ℕ → Type 0
  IsFree paths t = is_seen paths (zone_path t.0) ≡ false

  cons-IsFree :
      (paths : List Text) (z : Zone) (ts : List (Zone × ℕ))
      → All (λ t. z.coordinator_uuid ≢ t.0.coordinator_uuid) ts
      → All (IsFree paths) ts
      → All (IsFree (zone_path z ∷ paths)) ts
  cons-IsFree paths z [] p q = tt
  cons-IsFree paths z (t ∷ ts) (p, ps) (q, qs) = (
    ap (λ b. b || is_seen paths (zone_path t.0))
          (≢→same (zone_path z) (zone_path t.0) (other_path z t.0 p))
        ∙ q,
    cons-IsFree paths z ts ps qs,
  )

  nil-IsFree : (ts : List (Zone × ℕ)) → All (IsFree []) ts
  nil-IsFree [] = tt
  nil-IsFree (t ∷ ts) = (refl, nil-IsFree ts)

  start_from-IsServed :
      ((svc : Service) → new_service svc ≡ true)
      → ((svc : Service) → responder_add svc ≡ true)
      → (paths : List Text) (ts : List (Zone × ℕ)) → IsDistinct (λ t. t.0.coordinator_uuid) ts
      → All HasId ts
      → All (IsFree paths) ts
      → (svcs : List Service) × (start_up paths (map listening ts) ≡ StartUp.serving svcs)
        × IsServed svcs ts
  unfolding start_up
  start_from-IsServed takes publishes paths [] d h f = ([], refl, tt)
  start_from-IsServed takes publishes paths ((z, port) ∷ ts) (d, ds) ((id, has), hs) (f, fs) =
      let (svcs, e, served) =
        start_from-IsServed takes publishes (zone_path z ∷ paths) ts ds hs
          (cons-IsFree paths z ts d fs) in
      let svc : Service = service iface z.name id port in
      (
        svc ∷ svcs,
        ap (λ a. after_add z paths a (start_up (zone_path z ∷ paths) (map listening ts)))
              (added takes publishes z.name z.raop_id id port has)
            ∙ if_false _ _ f
            ∙ ap (cons_service svc) e,
        ((id, has, refl), served),
      )

  -- If no two zones have one coordinator, each has a RAOP identity and a port to listen on, and
  -- mDNS takes every service, then the loop registers no path twice and ends with one service for
  -- each zone, in order, under the zone's identity, name and port.
  pub start_up-IsServed :
      ((svc : Service) → new_service svc ≡ true)
      → ((svc : Service) → responder_add svc ≡ true)
      → (ts : List (Zone × ℕ)) → IsDistinct (λ t. t.0.coordinator_uuid) ts
      → All HasId ts
      → (svcs : List Service) × (start_up [] (map listening ts) ≡ StartUp.serving svcs)
        × IsServed svcs ts
  start_up-IsServed takes publishes ts distinct ids =
      start_from-IsServed takes publishes [] ts distinct ids (nil-IsFree ts)
