-- ===== src/Command/Tests.antt =====
-- A start with one player, and with players that stop it.
use sonospoof.Base.{
  ℕ, Bool, true, ◌≡◌, refl, Option, none, some, List, [], ◌∷◌, map, Text, codes, same, same→≢,
  split, sort_by, insert_by,
}
use sonospoof.Sonos.Zones.{Zone, zones}
use sonospoof.Sonos.Client.{Post, Answer, soap}
use sonospoof.Sonos.Discovery.{describe_all, topology}
use sonospoof.Bridge.Advertise.{Service, Added, add}
use sonospoof.Command.{Found, discover}
use sonospoof.Command.Offer.{IsOffer, described, discover-IsOffer}
use sonospoof.Command.Targets.{StartUp, start_up, IsServed, listening, start_up-IsServed}

-- A network that always gives the same answers.
abbrev post : Bool → Post → Bool × Answer
post net p = (net, Answer.answered 200 (codes "state"))

abbrev fetch : Bool → Text → Bool × Option Text
fetch net url = (net, some (codes "device"))

abbrev device : Text → Option (Text × Text × Text)
device body = some (codes "Den", codes "One", codes "uuid:RINCON_B8E937EFDE1501400")

abbrev state : Text → Option Text
state body = some body

abbrev groups : Text → Option (List (Text × Text × List (Text × Text × Text)))
groups body = some []

abbrev hostname : Text → Text
hostname location = location

den_found :
    discover same post fetch device state groups hostname true
      (codes " 10.0.0.8 ,")
      (codes "Den")
      none
    ≡ Found.found (
        zones
          (described same
            (codes "Den")
            post
            fetch
            device
            state
            groups
            hostname
            true
            (codes " 10.0.0.8 ,")
            none)
          [])
unfolding discover described zones split sort_by insert_by describe_all topology soap
den_found = refl

discover-IsOffer_example :
    IsOffer same
      (codes "Den")
      (described same
        (codes "Den")
        post
        fetch
        device
        state
        groups
        hostname
        true
        (codes "10.0.0.8")
        none)
      (discover same post fetch device state groups hostname true
        (codes "10.0.0.8")
        (codes "Den")
        none)
discover-IsOffer_example =
    discover-IsOffer same (codes "Den") post fetch device state groups hostname true
      (codes "10.0.0.8") none

abbrev target : Text → Text → Option (List ℕ) → Zone
target name u id = record { name = name; coordinator_uuid = u; ip = []; raop_id = id; members = [] }

abbrev takes_all : Service → Bool
takes_all svc = true

abbrev two_targets : List (Zone × ℕ)
two_targets =
    (target (codes "Den") (codes "A") (some (1 ∷ [])), 5000)
    ∷ (target (codes "Hall") (codes "B") (some (2 ∷ [])), 5001)
    ∷ []

start_up-IsServed_example :
    (svcs : List Service) × (start_up takes_all takes_all [] []
        (map (listening takes_all takes_all []) two_targets)
      ≡ StartUp.serving svcs)
    × IsServed takes_all takes_all [] svcs two_targets
start_up-IsServed_example =
    start_up-IsServed takes_all takes_all [] (λ svc. refl) (λ svc. refl) two_targets
      ((same→≢ (codes "A") (codes "B") refl, tt), (tt, tt)) ((1 ∷ [], refl), ((2 ∷ [], refl), tt))

-- One zone without an identity ends the program, and so does one path for two zones.
no_identity :
    start_up takes_all takes_all [] [] ((target (codes "Den") (codes "A") none, some 5000) ∷ [])
    ≡ StartUp.no_target (codes "Den") Added.no_raop_id
unfolding start_up add
no_identity = refl

one_path :
    start_up takes_all takes_all [] [] (
      (target (codes "Den") (codes "A") (some (1 ∷ [])), some 5000)
      ∷ (target (codes "Hall") (codes "A") (some (2 ∷ [])), some 5001)
      ∷ [])
    ≡ StartUp.panicked (codes "/zone/A/")
unfolding start_up add
one_path = refl
