-- ===== src/Topology/Discovery/Tests.antt =====
-- A server on a switch, and the same server with an adapter on a FC switch.
use go_digi.Prelude.{ℕ, ◌≡◌, refl, String, true, false, none, some, [], ◌∷◌, arith, length, map}
use go_digi.Monitor.{Asset}
use go_digi.Prelude.Text.{show}
use go_digi.Topology.{Edge, Node, TopologyDb, ensure_node, link_ethernet, link_san}
use go_digi.Topology.Discovery.{
  run_discovery, discover_ethernet, discover_san, write_ethernet_links, write_san_links,
}
use go_digi.Topology.Links.{ethernet_links, san_links}
use go_digi.Topology.Discovery.Simple.{IsSimple}
use go_digi.Topology.Discovery.Runs.{run_discovery-IsSimple, run_discovery-dry}
use go_digi.Topology.Discovery.Lldp.{Stay, discover_ethernet-Stay}

abbrev asset_called : ℕ → String → String → Asset
asset_called id name type = record {
  id = id;
  name = name;
  hostname = some name;
  ip_text = none;
  type = type;
  status = "online";
  is_active = true;
  last_seen = none;
}

abbrev node_at : ℕ → ℕ → String → Node
node_at id asset_id label = record {
  id = id;
  asset_id = some asset_id;
  layer = "physical";
  node_type = "server";
  label = label;
}

-- LLDP saw the adapter at the FC switch.
abbrev seen_by_lldp : Edge
seen_by_lldp = record {
  id = 1;
  layer = "physical";
  source_node = 1;
  target_node = 2;
  source_port = some "p1";
  target_port = some "p2";
  link_type = "fc";
  method = "auto_lldp";
  confidence = 100;
  is_active = true;
}

abbrev hall : TopologyDb
hall = record {
  assets =
      asset_called 1 "web" "server"
      ∷ asset_called 2 "fc" "fc_switch"
      ∷ asset_called 3 "sw" "network"
      ∷ [];
  mac_addresses = record { asset_id = 1; mac = "00:50:56:a1:01:10"; interface = some "eth0" } ∷ [];
  device_macs =
      record {
        asset_id = 3;
        mac = "00:50:56:a1:01:10";
        port_name = some "Gi0/3";
        vlan_id = none;
        entry_type = "dynamic";
      }
      ∷ [];
  wwns =
      record { asset_id = 1; wwn = "10:00"; wwn_type = "hba"; port_name = none }
      ∷ record { asset_id = 2; wwn = "10:00"; wwn_type = "switch_port"; port_name = some "0" }
      ∷ [];
  nodes = node_at 1 1 "web" ∷ node_at 2 2 "fc" ∷ [];
  edges = seen_by_lldp ∷ [];
  logs = [];
  next_node = 3;
  next_edge = 2;
}

hall-IsSimple : IsSimple hall
hall-IsSimple = record { below = (omega arith, tt); apart = (tt, tt) }

-- one edge between the switch and the server is new
counted : (discover_ethernet false hall).0.edges_created ≡ 1
unfolding discover_ethernet ethernet_links write_ethernet_links link_ethernet ensure_node show
counted = refl

-- and the one of LLDP is written over by the discovery of adapters
written_over :
    map (λ (e : Edge). e.method) (discover_san false hall).1.edges ≡ "auto_wwn" ∷ "auto_wwn" ∷ []
unfolding discover_san san_links write_san_links link_san ensure_node show
written_over = refl

run_discovery-IsSimple_example : IsSimple (run_discovery "all" false hall).1
run_discovery-IsSimple_example = run_discovery-IsSimple "all" false hall hall-IsSimple

run_discovery-dry_example :
    ((run_discovery "all" true hall).1 ≡ hall)
    × (length (run_discovery "all" true hall).0.0.discoveries
        ≡ length (run_discovery "all" false hall).0.0.discoveries)
run_discovery-dry_example = run_discovery-dry "all" hall

discover_ethernet-Stay_example : Stay (seen_by_lldp ∷ []) (discover_ethernet false hall).1.edges
discover_ethernet-Stay_example = discover_ethernet-Stay false hall hall-IsSimple
