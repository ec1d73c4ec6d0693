-- ===== src/Topology/Links.antt =====
-- The links that web/src/app/api/topology/discover/run/route.ts finds: addresses of servers and
-- devices in the tables of switches, and adapters at FC switches.
use Prim.Native.Nat.{lt, eq, gt}
use Prim.Native.String
use go_digi.Prelude.{
  ℕ, String, Bool, true, false, ◌&&◌, ◌||◌, not, Option, none, some, List, [], ◌∷◌, ◌++◌, any,
  select, str_eq, ◌==◌, leb, length, map, if◌then◌else◌,
}
use go_digi.Prelude.Text.{◌+++◌, show}
use go_digi.Monitor.{Asset}
use go_digi.Topology.{MacAddress, DeviceMac, Wwn, Link, TopologyDb, asset_by}

-- an address with the asset that it belongs to
pub record Owner : Type 0 where
  pub asset_id : ℕ
  pub mac : String
  pub iface : Option String
  pub name : String

abbrev owner : ℕ → String → Option String → Asset → Owner
owner asset_id mac iface a = record { asset_id = asset_id; mac = mac; iface = iface; name = a.name }

-- JOIN assets a ON a.id = asset_id, with a condition on the asset
abbrev join_asset :
    (Asset → Bool) → ℕ → String → Option String → Option Asset → List Owner → List Owner
join_asset p asset_id mac iface none rest = rest
join_asset p asset_id mac iface (some a) rest =
    if p a then owner asset_id mac iface a ∷ rest else rest

abbrev is_server : Asset → Bool
is_server a = str_eq a.type "server" && a.is_active

abbrev is_device : Asset → Bool
is_device a = str_eq a.type "network" || str_eq a.type "security"

owners : (Asset → Bool) → TopologyDb → List MacAddress → List Owner
owners p db [] = []
owners p db (m ∷ ms) =
    join_asset p m.asset_id m.mac m.interface (asset_by m.asset_id db) (owners p db ms)

server_macs : TopologyDb → List Owner
unfolding owners
server_macs db =
    owners is_server db (select (λ m. not (str_eq m.mac "00:00:00:00:00:00")) db.mac_addresses)

-- the rows of the tables of devices, with `iface` for the port
device_owners : TopologyDb → List DeviceMac → List Owner
device_owners db [] = []
device_owners db (m ∷ ms) =
    join_asset (λ a. true) m.asset_id m.mac m.port_name (asset_by m.asset_id db)
      (device_owners db ms)

device_macs : TopologyDb → List Owner
unfolding device_owners
device_macs db = device_owners db (select (λ m. not (str_eq m.entry_type "self")) db.device_macs)

self_macs : TopologyDb → List Owner
unfolding owners device_owners
self_macs db =
    device_owners db (select (λ m. str_eq m.entry_type "self") db.device_macs)
    ++ owners is_device db db.mac_addresses

-- a Map that the rows were set into, the later over the earlier
owner_of : String → List Owner → Option Owner
owner_of mac [] = none
owner_of mac (o ∷ os) = elim (owner_of mac os) [
  | none ↦ (if str_eq o.mac mac then some o else none)
  | some x ↦ some x
]

abbrev port_text : Option String → String
port_text none = "null"
port_text (some name) = name

port_key : Owner → String
port_key o = show o.asset_id +++ ":" +++ port_text o.iface

port_mac_count : Owner → List Owner → ℕ
unfolding port_key
port_mac_count o rows = length (select (λ (x : Owner). str_eq (port_key x) (port_key o)) rows)

confidence_of : ℕ → ℕ
confidence_of count = if count == 1 then 95 else if leb count 3 then 80 else 70

server_key : ℕ → ℕ → String
server_key device server = show device +++ "-" +++ show server

abbrev precedes : String → String → Bool
precedes s t = elim (String.compare s t) [ lt ↦ true | eq ↦ false | gt ↦ false ]

-- [a, b].sort().join('-'): the order is that of the texts
device_key : ℕ → ℕ → String
device_key a b =
    if precedes (show b) (show a) then show b +++ "-" +++ show a else show a +++ "-" +++ show b

abbrev has : String → List String → Bool
has key seen = any (λ k. str_eq k key) seen

abbrev server_link : List Owner → Owner → Owner → Link
server_link rows dm server = record {
  source = dm.name;
  source_port = dm.iface;
  source_mac = some dm.mac;
  target = server.name;
  target_port = server.iface;
  confidence = confidence_of (port_mac_count dm rows);
  is_new = true;
  method = "auto_arp";
}

abbrev device_link : Owner → Owner → Link
device_link dm device = record {
  source = dm.name;
  source_port = dm.iface;
  source_mac = none;
  target = device.name;
  target_port = some "";
  confidence = 90;
  is_new = true;
  method = "auto_arp";
}

-- what one row of the tables adds: a key and a link, if any
match_row : List Owner → List Owner → List Owner → Owner → Option (String × Link)
unfolding owner_of port_mac_count confidence_of server_key device_key
match_row servers selfs rows dm = elim (owner_of dm.mac servers) [
  | some server ↦ some (server_key dm.asset_id server.asset_id, server_link rows dm server)
  | none ↦ elim (owner_of dm.mac selfs) [
    | none ↦ none
    | some device ↦
        if device.asset_id == dm.asset_id
        then none
        else some (device_key dm.asset_id device.asset_id, device_link dm device)
  ]
]

-- the loop over candidates with the set of the keys that were seen
new_links : {A : Type 0} → (A → Option (String × Link)) → List String → List A → List Link
new_links f seen [] = []
new_links f seen (x ∷ xs) = elim (f x) [
  | none ↦ new_links f seen xs
  | some (key, link) ↦ elim (has key seen) [
    | true ↦ new_links f seen xs
    | false ↦ link ∷ new_links f (key ∷ seen) xs
  ]
]

unfoldable pub ethernet_links : TopologyDb → List Link
unfolding server_macs self_macs device_macs match_row new_links
ethernet_links db =
    let rows = device_macs db in new_links (match_row (server_macs db) (self_macs db) rows) [] rows

wwn_owners : TopologyDb → List Wwn → List Owner
wwn_owners db [] = []
wwn_owners db (w ∷ ws) =
    join_asset (λ a. true) w.asset_id w.wwn w.port_name (asset_by w.asset_id db) (wwn_owners db ws)

abbrev wwns_of : String → TopologyDb → List Owner
wwns_of type db = wwn_owners db (select (λ w. str_eq w.wwn_type type) db.wwns)

-- port_name || text
abbrev port_or : Option String → String → String
port_or none text = text
port_or (some name) text = if str_eq name "" then text else name

abbrev wwn_link : Owner → String → Option String → Owner → String → ℕ → Link
wwn_link source port mac target target_port confidence = record {
  source = source.name;
  source_port = some (port_or source.iface port);
  source_mac = mac;
  target = target.name;
  target_port = some (port_or target.iface target_port);
  confidence = confidence;
  is_new = true;
  method = "auto_wwn";
}

san_key : ℕ → ℕ → String
san_key a b = "san-" +++ show a +++ "-" +++ show b

hba_to_switch : Owner → Owner → Option (String × Link)
unfolding san_key
hba_to_switch hba sw =
    if str_eq hba.mac sw.mac
    then some (san_key hba.asset_id sw.asset_id, wwn_link hba "hba" (some hba.mac) sw "" 90)
    else none

target_to_switch : Owner → Owner → Option (String × Link)
unfolding san_key
target_to_switch target sw =
    if str_eq target.mac sw.mac
    then some (san_key sw.asset_id target.asset_id, wwn_link sw "" none target "target" 90)
    else none

hba_to_target : Owner → Owner → Option (String × Link)
hba_to_target hba target = some (
  "san-direct-" +++ show hba.asset_id +++ "-" +++ show target.asset_id,
  wwn_link hba "hba" none target "target" 80,
)

-- two nested loops
for_pairs : {A B : Type 0} → (A → A → B) → List A → List A → List B
for_pairs f [] ys = []
for_pairs f (x ∷ xs) ys = map (f x) ys ++ for_pairs f xs ys

-- switchWwns.length === 0
abbrev if_none : {A B : Type 0} → List A → List B → List B
if_none [] xs = xs
if_none (y ∷ ys) xs = []

unfoldable pub san_links : TopologyDb → List Link
unfolding wwn_owners hba_to_switch target_to_switch hba_to_target for_pairs new_links
san_links db =
    let hbas = wwns_of "hba" db in
    let switches = wwns_of "switch_port" db in
    let targets = wwns_of "target" db in
    new_links (λ x. x) []
      (for_pairs hba_to_switch hbas switches
        ++ for_pairs target_to_switch targets switches
        ++ if_none switches (for_pairs hba_to_target hbas targets))
