-- ===== src/Topology/Neighbors.antt =====
-- web/src/app/api/topology/lldp/route.ts: a neighbor that a device reports by LLDP.
pub mod Edges
mod Tests
use go_digi.Prelude.{
  ℕ, suc, String, Bool, true, false, ◌&&◌, ◌||◌, Option, none, some, List, [], ◌∷◌, ◌++◌, str_eq,
  ◌==◌, find, or_else, if◌then◌else◌,
}
use go_digi.Http.{Handler, Response, ok, found, gets, modify, pure, ◌>>=◌, ◌>>◌}
use go_digi.Monitor.{Asset}
use go_digi.Topology.{Node, Edge, TopologyDb, insert_node, insert_edge, update_edge, is_node}

abbrev pub Importing : Type 0 → Type 0
Importing A = Handler Response TopologyDb A

pub record LldpBody : Type 0 where
  pub hostname : String
  pub local_port : Option String
  pub neighbor_hostname : Option String
  pub neighbor_port : Option String
  pub neighbor_ip : Option String

abbrev is_text : String → Option String → Bool
is_text s none = false
is_text s (some t) = str_eq t s

-- hostname = $1 OR ip_address::text = $1
abbrev pub is_called : String → Asset → Bool
is_called name a = is_text name a.hostname || is_text name a.ip_text

-- no query where there is no name
abbrev pub neighbor_asset : LldpBody → TopologyDb → Option Asset
neighbor_asset body db = elim body.neighbor_hostname [
  | none ↦ none
  | some name ↦
      if str_eq name ""
      then none
      else find (λ a. is_called name a || is_text (or_else body.neighbor_ip "") a.ip_text) db.assets
]

abbrev pub neighbor_label : LldpBody → String
neighbor_label body = or_else body.neighbor_hostname (or_else body.neighbor_ip "unknown")

abbrev is_placeholder : String → Node → Bool
is_placeholder label n = is_none n.asset_id && str_eq n.label label && str_eq n.layer "physical"
  where
    is_none : Option ℕ → Bool
    is_none none = true
    is_none (some id) = false

abbrev physical_node : Option ℕ → String → String → ℕ → Node
physical_node asset_id node_type label id = record {
  id = id;
  asset_id = asset_id;
  layer = "physical";
  node_type = node_type;
  label = label;
}

-- the node that is there, or a new one
abbrev pub node_or : (ℕ → Node) → Option Node → Importing ℕ
node_or make (some n) = pure n.id
node_or make none = do id ← gets (λ db. db.next_node); modify (insert_node (make id)); pure id

abbrev pub asset_node : Asset → Importing ℕ
asset_node a = do
  existing ← gets (λ db. find (is_node a.id "physical") db.nodes)
  node_or (physical_node (some a.id) a.type a.name) existing

abbrev pub placeholder : String → Importing ℕ
placeholder label = do
  existing ← gets (λ db. find (is_placeholder label) db.nodes)
  node_or (physical_node none "unknown" label) existing

abbrev pub neighbor_node : LldpBody → Option Asset → Importing ℕ
neighbor_node body none = placeholder (neighbor_label body)
neighbor_node body (some a) = asset_node a

-- source_node = $1 AND target_node = $2 AND layer = 'physical': one direction, active or not
abbrev pub leads : ℕ → ℕ → Edge → Bool
leads a b e = e.source_node == a && e.target_node == b && str_eq e.layer "physical"

abbrev pub by_lldp : LldpBody → Edge → Edge
by_lldp body e = record e {
  source_port = body.local_port;
  target_port = body.neighbor_port;
  method = "auto_lldp";
  is_active = true;
}

abbrev pub lldp_edge : ℕ → ℕ → LldpBody → ℕ → Edge
lldp_edge a b body id = record {
  id = id;
  layer = "physical";
  source_node = a;
  target_node = b;
  source_port = body.local_port;
  target_port = body.neighbor_port;
  link_type = "ethernet";
  method = "auto_lldp";
  confidence = 90;
  is_active = true;
}

abbrev pub write_edge : LldpBody → ℕ → ℕ → Option Edge → Importing Response
write_edge body a b (some e) = do modify (update_edge e.id (by_lldp body)); pure ok
write_edge body a b none = do
  id ← gets (λ db. db.next_edge)
  modify (insert_edge (lldp_edge a b body id))
  pure ok

abbrev pub upsert_edge : LldpBody → ℕ → ℕ → Importing Response
upsert_edge body a b = do
  existing ← gets (λ db. find (leads a b) db.edges)
  write_edge body a b existing

unfoldable pub import_neighbor : LldpBody → Importing Response
import_neighbor body = do
  row ← gets (λ db. find (is_called body.hostname) db.assets)
  source ← found row ok
  neighbor ← gets (neighbor_asset body)
  a ← asset_node source
  b ← neighbor_node body neighbor
  upsert_edge body a b
