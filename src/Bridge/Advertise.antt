-- ===== src/Bridge/Advertise.antt =====
-- internal/bridge/advertise.go: the mDNS service of a zone.
pub mod Name
use sonospoof.Base.{
  ℕ, ◌+◌, ◌-◌, ◌/◌, ◌%◌, Bool, true, false, not, ◌&&◌, ◌==◌, leb, ltb, if◌then◌else◌, Option, none,
  some, List, [], ◌∷◌, ◌++◌, map, Text, codes, same,
}

-- `strings.ToUpper` of a character below 128
abbrev pub to_upper : ℕ → ℕ
to_upper c = if leb b'a' c && leb c b'z' then c - 32 else c

-- `HardwareAddr.String`: two digits of each byte, in lower case, and colons between the bytes.
abbrev pub hex_digit : ℕ → ℕ
hex_digit n = if ltb n 10 then b'0' + n else b'a' + (n - 10)

abbrev pub mac_string : List ℕ → Text
mac_string [] = []
mac_string (x ∷ []) = hex_digit (x / 16) ∷ hex_digit (x % 16) ∷ []
mac_string (x ∷ y ∷ xs) = hex_digit (x / 16) ∷ hex_digit (x % 16) ∷ b':' ∷ mac_string (y ∷ xs)

-- `strings.ReplaceAll(s, ":", "")`
abbrev pub without_colons : Text → Text
without_colons [] = []
without_colons (c ∷ s) = if c == b':' then without_colons s else c ∷ without_colons s

unfoldable pub instance_name : Text → List ℕ → Text
instance_name name id = map to_upper (without_colons (mac_string id)) ++ codes "@" ++ name

unfoldable pub txt_records : List (Text × Text)
txt_records =
    (codes "txtvers", codes "1")
    ∷ (codes "ch", codes "2")
    ∷ (codes "cn", codes "0,1")
    ∷ (codes "et", codes "0,1")
    ∷ (codes "sv", codes "false")
    ∷ (codes "da", codes "true")
    ∷ (codes "sr", codes "44100")
    ∷ (codes "ss", codes "16")
    ∷ (codes "pw", codes "false")
    ∷ (codes "vn", codes "65537")
    ∷ (codes "tp", codes "UDP")
    ∷ (codes "vs", codes "105.1")
    ∷ (codes "am", codes "AudioAccessory5,1")
    ∷ (codes "md", codes "0,1,2")
    ∷ (codes "sf", codes "0x4")
    ∷ []

-- `dnssd.Config`; no interface means all of them.
pub record Service : Type 0 where
  pub name : Text
  pub kind : Text
  pub domain : Text
  pub port : ℕ
  pub text : List (Text × Text)
  pub ifaces : List Text

unfoldable pub service : Text → Text → List ℕ → ℕ → Service
unfolding instance_name txt_records
service iface name id port = record {
  name = instance_name name id;
  kind = codes "_raop._tcp";
  domain = codes "local";
  port = port;
  text = txt_records;
  ifaces = if same iface [] then [] else iface ∷ [];
}

-- The result of `Advertiser.Add`: the service that is published, or an error.
pub data Added : Type 0 where
  no_raop_id bad_service not_published : Added
  published : Service → Added

-- `NewService` and the responder's `Add` of the dnssd package say whether they take a service.
module _ (new_service responder_add : Service → Bool) where
  unfoldable pub add : Text → Text → Option (List ℕ) → ℕ → Added
  unfolding service
  add iface name none port = Added.no_raop_id
  add iface name (some id) port =
      let svc = service iface name id port in
      if not (new_service svc)
      then Added.bad_service
      else if not (responder_add svc)
      then Added.not_published
      else Added.published svc
