-- ===== src/Topology/Neighbors/Tests.antt =====
-- Two devices with an edge from the first to the second, and the report of the second.
use go_digi.Prelude.{length, select, ◌≤◌, ℕ, ◌≡◌, refl, String, true, none, some, [], ◌∷◌, find}
use go_digi.Http.{ok, run}
use go_digi.Monitor.{Asset}
use go_digi.Topology.{joins, Edge, Node, TopologyDb}
use go_digi.Topology.Neighbors.{LldpBody, leads, import_neighbor}
use go_digi.Topology.Neighbors.Edges.{import_neighbor-twice, import_neighbor-leads}

abbrev device : ℕ → String → Asset
device id hostname = record {
  id = id;
  name = hostname;
  hostname = some hostname;
  ip_text = some "10.0.0.1/32";
  type = "switch";
  status = "online";
  is_active = true;
  last_seen = none;
}

abbrev node_of : ℕ → ℕ → Node
node_of id asset_id = record {
  id = id;
  asset_id = some asset_id;
  layer = "physical";
  node_type = "switch";
  label = "s";
}

abbrev cable : Edge
cable = record {
  id = 1;
  layer = "physical";
  source_node = 11;
  target_node = 12;
  source_port = some "1";
  target_port = some "2";
  link_type = "ethernet";
  method = "auto_lldp";
  confidence = 90;
  is_active = true;
}

abbrev pair : TopologyDb
pair = record {
  assets = device 1 "s1" ∷ device 2 "s2" ∷ [];
  mac_addresses = [];
  device_macs = [];
  wwns = [];
  nodes = node_of 11 1 ∷ node_of 12 2 ∷ [];
  edges = cable ∷ [];
  logs = [];
  next_node = 13;
  next_edge = 2;
}

abbrev report : LldpBody
report = record {
  hostname = "s2";
  local_port = some "2";
  neighbor_hostname = some "s1";
  neighbor_port = some "1";
  neighbor_ip = none;
}

import_neighbor-twice_example :
    ((run (import_neighbor report) pair).0 ≡ some ok)
    × (length (select (joins "physical" 12 11) (run (import_neighbor report) pair).1.edges) ≡ 2)
    × 2 ≤ length (select (joins "physical" 12 11) (run (import_neighbor report) pair).1.edges)
import_neighbor-twice_example =
    import_neighbor-twice report (device 2 "s2") (device 1 "s1") (node_of 12 2) (node_of 11 1) pair
      refl refl refl refl cable refl refl

import_neighbor-leads_example :
    (e : Edge) × (find (leads 12 11) (run (import_neighbor report) pair).1.edges ≡ some e)
    × (e.method ≡ "auto_lldp")
    × (e.is_active ≡ true)
    × (e.source_port ≡ some "2")
    × (e.target_port ≡ some "1")
import_neighbor-leads_example =
    import_neighbor-leads report (device 2 "s2") (device 1 "s1") (node_of 12 2) (node_of 11 1) pair
      refl refl refl refl
