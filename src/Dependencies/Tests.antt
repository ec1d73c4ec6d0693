-- ===== src/Dependencies/Tests.antt =====
-- Runs of web/src/app/api/assets/dependencies/route.ts.
use mathlib.Core.Option
use go_digi.Prelude.{
  ℕ, String, true, ◌≡◌, ◌⊎◌, refl, Option, none, some, List, [], ◌∷◌, map, length,
}
use go_digi.Prelude.Int.{ℤ, pos, negsuc}
use go_digi.Monitor.{Asset}
use go_digi.Topology.{Node, Edge}
use go_digi.Dependencies.{VirtualMachine, MapDb, DepNode, DepEdge}
use go_digi.Dependencies.Rows.{center_of, Graph, dependencies, answer_center}
use go_digi.Dependencies.Correct.{IsMap, dependencies-IsMap}

abbrev asset_named : ℕ → String → Asset
asset_named id name = record {
  id = id;
  name = name;
  hostname = none;
  ip_text = none;
  type = "server";
  status = "online";
  is_active = true;
  last_seen = none;
}

abbrev node_for : ℕ → ℕ → Node
node_for id asset_id = record {
  id = id;
  asset_id = some asset_id;
  layer = "L2";
  node_type = "server";
  label = "";
}

abbrev machine : ℕ → Option ℕ → VirtualMachine
machine host_id asset_id = record {
  host_id = host_id;
  asset_id = asset_id;
  vm_name = "vm";
  power_state = "running";
  ip_text = none;
}

-- server 1 with a link to 2 and one back, storage 3, and two machines; 2 has two nodes
abbrev office : MapDb
office = record {
  assets = asset_named 1 "a" ∷ asset_named 2 "b" ∷ asset_named 3 "c" ∷ [];
  nodes = node_for 10 1 ∷ node_for 20 2 ∷ node_for 21 2 ∷ [];
  edges = wire 10 20 ∷ wire 21 10 ∷ [];
  storage =
      record { storage_asset_id = 3; server_asset_id = 1; connection_type = "fc"; is_active = true }
      ∷ [];
  hosts = record { id = 5; asset_id = some 1 } ∷ [];
  machines = machine 5 none ∷ machine 5 (some 2) ∷ [];
}
  where
    wire : ℕ → ℕ → Edge
    wire source target = record {
      id = 1;
      layer = "L2";
      source_node = source;
      target_node = target;
      source_port = none;
      target_port = none;
      link_type = "ethernet";
      method = "mac";
      confidence = 90;
      is_active = true;
    }

abbrev node_ids : Graph → List (ℤ × ℕ)
node_ids g = map (λ (n : DepNode). (n.info.id, length n.conn_types)) g.nodes

abbrev edge_ends : Graph → List (ℤ × ℤ × String)
edge_ends g = map (λ (e : DepEdge). (e.source_id, e.target_id, e.conn_type)) g.edges

abbrev sums : Graph → ℕ × ℕ
sums g = (g.network, g.storage)

nodes_example :
    Option.map node_ids (dependencies 1 office 10000).0
    ≡ some ((pos 2, 3) ∷ (pos 3, 1) ∷ (negsuc 9999, 1) ∷ [])
unfolding dependencies answer_center
nodes_example = refl

edges_example :
    Option.map edge_ends (dependencies 1 office 10000).0
    ≡ some (
        (pos 1, pos 2, "ethernet")
        ∷ (pos 3, pos 1, "fc")
        ∷ (pos 1, negsuc 9999, "virtual")
        ∷ (pos 1, pos 2, "virtual")
        ∷ [])
unfolding dependencies answer_center
edges_example = refl

-- The query for 2, which has two nodes, gives each of its two links twice.
repeated_example : Option.map node_ids (dependencies 2 office 10000).0 ≡ some ((pos 1, 5) ∷ [])
unfolding dependencies answer_center
repeated_example = refl

-- A link of type fc counts in two of the sums.
counted_twice_example : Option.map sums (dependencies 3 office 10000).0 ≡ some (1, 1)
unfolding dependencies answer_center
counted_twice_example = refl

dependencies-IsMap_example :
    (center_of 1 office ≡ none × dependencies 1 office 10000 ≡ (none, 10000))
    ⊎ ((g : Graph) × (dependencies 1 office 10000).0 ≡ some g × IsMap 1 office g)
dependencies-IsMap_example = dependencies-IsMap 1 office 10000
