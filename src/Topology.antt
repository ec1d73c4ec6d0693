-- ===== src/Topology.antt =====
-- web/src/app/api/topology/discover/run/route.ts: links between devices, found from the tables of
-- addresses that switches and servers report. A query without ORDER BY and a UNION keep the order
-- of the tables. A column that may be NULL is an Option.
pub mod Discovery
pub mod Links
pub mod Neighbors
pub mod Tables
use go_digi.Prelude.{
  ℕ, suc, String, Bool, true, false, ◌&&◌, ◌||◌, Option, none, some, List, [], ◌∷◌, ◌++◌, str_eq,
  ◌==◌, find, update_where, if◌then◌else◌,
}
use go_digi.Prelude.Int.{ℤ}
use go_digi.Http.{Handler, found, gets, modify, pure, ◌>>=◌, ◌>>◌}
use go_digi.Monitor.{Asset}
use go_digi.Monitor.Evaluation.{is_id}

pub record MacAddress : Type 0 where
  pub asset_id : ℕ
  pub mac : String
  pub interface : Option String

-- a row of `device_mac_table`
pub record DeviceMac : Type 0 where
  pub asset_id : ℕ
  pub mac : String
  pub port_name : Option String
  pub vlan_id : Option ℤ
  pub entry_type : String

pub record Wwn : Type 0 where
  pub asset_id : ℕ
  pub wwn : String
  pub wwn_type : String
  pub port_name : Option String

pub record Node : Type 0 where
  pub id : ℕ
  pub asset_id : Option ℕ
  pub layer : String
  pub node_type : String
  pub label : String

pub record Edge : Type 0 where
  pub id : ℕ
  pub layer : String
  pub source_node : ℕ
  pub target_node : ℕ
  pub source_port : Option String
  pub target_port : Option String
  pub link_type : String
  pub method : String
  pub confidence : ℕ
  pub is_active : Bool

-- a row of `discovery_logs`: the counts of the links that were found are its detail
pub record DiscoveryLog : Type 0 where
  pub discovery_type : String
  pub edges_created : ℕ
  pub edges_updated : ℕ
  pub ethernet : ℕ
  pub san : ℕ

pub record TopologyDb : Type 0 where
  pub assets : List Asset
  pub mac_addresses : List MacAddress
  pub device_macs : List DeviceMac
  pub wwns : List Wwn
  pub nodes : List Node
  pub edges : List Edge
  pub logs : List DiscoveryLog
  pub next_node : ℕ
  pub next_edge : ℕ

-- a link that was found
pub record Link : Type 0 where
  pub source : String
  pub source_port : Option String
  pub source_mac : Option String
  pub target : String
  pub target_port : Option String
  pub confidence : ℕ
  pub is_new : Bool
  pub method : String

-- What becomes of a link: no such asset, an edge that stays, one that is written over, a new one.
pub data Outcome : Type 0 where
  skipped : Outcome
  kept : Outcome
  updated : Outcome
  inserted : Outcome

abbrev pub Linking : Type 0 → Type 0
Linking A = Handler Outcome TopologyDb A

abbrev pub asset_named : String → TopologyDb → Option Asset
asset_named name db = find (λ (a : Asset). str_eq a.name name) db.assets

abbrev pub asset_by : ℕ → TopologyDb → Option Asset
asset_by id db = find (λ (a : Asset). a.id == id) db.assets

abbrev pub is_node : ℕ → String → Node → Bool
is_node asset_id layer n = is_id asset_id n.asset_id && str_eq n.layer layer

abbrev new_node : ℕ → String → ℕ → Asset → Node
new_node asset_id layer id a = record {
  id = id;
  asset_id = some asset_id;
  layer = layer;
  node_type = a.type;
  label = a.name;
}

abbrev pub insert_node : Node → TopologyDb → TopologyDb
insert_node n db = record db { nodes = db.nodes ++ n ∷ []; next_node = suc db.next_node }

-- the node that is there, or a new one
abbrev node_or_new : ℕ → String → Option Node → Linking ℕ
node_or_new asset_id layer (some n) = pure n.id
node_or_new asset_id layer none = do
  row ← gets (asset_by asset_id)
  asset ← found row skipped
  id ← gets (λ db. db.next_node)
  modify (insert_node (new_node asset_id layer id asset))
  pure id

unfoldable pub ensure_node : ℕ → String → Linking ℕ
ensure_node asset_id layer = do
  existing ← gets (λ db. find (is_node asset_id layer) db.nodes)
  node_or_new asset_id layer existing

-- an active edge of the layer between the nodes, in either direction
abbrev pub joins : String → ℕ → ℕ → Edge → Bool
joins layer a b e =
    str_eq e.layer layer
    && e.is_active
    && (e.source_node == a && e.target_node == b || e.source_node == b && e.target_node == a)

abbrev pub new_edge : ℕ → String → ℕ → ℕ → String → String → Link → Edge
new_edge id layer a b link_type method d = record {
  id = id;
  layer = layer;
  source_node = a;
  target_node = b;
  source_port = d.source_port;
  target_port = d.target_port;
  link_type = link_type;
  method = method;
  confidence = d.confidence;
  is_active = true;
}

abbrev pub insert_edge : Edge → TopologyDb → TopologyDb
insert_edge e db = record db { edges = db.edges ++ e ∷ []; next_edge = suc db.next_edge }

-- UPDATE ... WHERE id = $4
abbrev pub update_edge : ℕ → (Edge → Edge) → TopologyDb → TopologyDb
update_edge id f db = record db { edges = update_where (λ e. e.id == id) f db.edges }

abbrev pub by_arp : Link → Edge → Edge
by_arp d e = record e {
  source_port = d.source_port;
  target_port = d.target_port;
  method = "auto_arp";
  confidence = d.confidence;
  is_active = true;
}

abbrev pub by_wwn : Link → Edge → Edge
by_wwn d e = record e {
  source_port = d.source_port;
  target_port = d.target_port;
  link_type = "fc";
  method = "auto_wwn";
  confidence = d.confidence;
  is_active = true;
}

-- An edge that LLDP found is not written over.
abbrev pub write_ethernet : Link → ℕ → ℕ → Option Edge → Linking Outcome
write_ethernet d a b (some e) =
    if str_eq e.method "auto_lldp"
    then pure kept
    else (do modify (update_edge e.id (by_arp d)); pure updated)
write_ethernet d a b none = do
  id ← gets (λ db. db.next_edge)
  modify (insert_edge (new_edge id "physical" a b "ethernet" "auto_arp" d))
  pure inserted

abbrev pub write_san : Link → String → ℕ → ℕ → Option Edge → Linking Outcome
write_san d layer a b (some e) = do modify (update_edge e.id (by_wwn d)); pure updated
write_san d layer a b none = do
  id ← gets (λ db. db.next_edge)
  modify (insert_edge (new_edge id layer a b "fc" "auto_wwn" d))
  pure inserted

-- the body of the loop of discoverEthernet
unfoldable pub link_ethernet : Link → Linking Outcome
unfolding ensure_node
link_ethernet d = do
  src ← gets (asset_named d.source)
  source ← found src skipped
  tgt ← gets (asset_named d.target)
  target ← found tgt skipped
  a ← ensure_node source.id "physical"
  b ← ensure_node target.id "physical"
  existing ← gets (λ db. find (joins "physical" a b) db.edges)
  write_ethernet d a b existing

-- the body of the inner loop of discoverSan
unfoldable pub link_san : Link → String → Linking Outcome
unfolding ensure_node
link_san d layer = do
  src ← gets (asset_named d.source)
  source ← found src skipped
  tgt ← gets (asset_named d.target)
  target ← found tgt skipped
  a ← ensure_node source.id layer
  b ← ensure_node target.id layer
  existing ← gets (λ db. find (joins layer a b) db.edges)
  write_san d layer a b existing
