-- ===== src/Dependencies.antt =====
-- web/src/app/api/assets/dependencies/route.ts: what an asset is connected with, by the map of
-- links, by storage and as a virtual machine or its host. A virtual machine without an asset gets a
-- negative id, from a counter that starts at 10000 and outlives the request. Such an id is new to the
-- map of nodes, where `set` and `addNode` do the same. A link has a type, as what Topology writes.
pub mod Rows
pub mod Edges
pub mod Nodes
pub mod Complete
pub mod Correct
pub mod Center
mod Tests
use go_digi.Prelude.{
  ℕ, zero, suc, String, Bool, true, false, ◌&&◌, ◌||◌, not, Option, none, some, List, [], ◌∷◌, ◌++◌,
  map, any, select, str_eq, ◌==◌, leb, find, length, or_else, if◌then◌else◌,
}
use go_digi.Prelude.Int.{ℤ, pos, negsuc, ltb_ℤ}
use go_digi.Monitor.{Asset}
use go_digi.Monitor.Evaluation.{is_id}
use go_digi.Topology.{Node, Edge}

pub record StorageConnection : Type 0 where
  pub storage_asset_id : ℕ
  pub server_asset_id : ℕ
  pub connection_type : String
  pub is_active : Bool

pub record VirtualHost : Type 0 where
  pub id : ℕ
  pub asset_id : Option ℕ

pub record VirtualMachine : Type 0 where
  pub host_id : ℕ
  pub asset_id : Option ℕ
  pub vm_name : String
  pub power_state : String
  pub ip_text : Option String

-- the tables that are read; every node of an asset has its asset
pub record MapDb : Type 0 where
  pub assets : List Asset
  pub nodes : List Node
  pub edges : List Edge
  pub storage : List StorageConnection
  pub hosts : List VirtualHost
  pub machines : List VirtualMachine

pub record AssetInfo : Type 0 where
  pub id : ℤ
  pub name : Option String
  pub asset_type : Option String
  pub status : Option String
  pub ip_address : Option String

pub record DepNode : Type 0 where
  pub info : AssetInfo
  pub conn_types : List String

pub record DepEdge : Type 0 where
  pub source_id : ℤ
  pub target_id : ℤ
  pub conn_type : String
  pub label : String

-- what one row of a query adds: a node and an edge
pub record LinkRow : Type 0 where
  pub info : AssetInfo
  pub edge : DepEdge

abbrev pub eq_ℤ : ℤ → ℤ → Bool
eq_ℤ (pos m) (pos n) = m == n
eq_ℤ (negsuc m) (negsuc n) = m == n
eq_ℤ _ _ = false

abbrev pub min_ℤ : ℤ → ℤ → ℤ
min_ℤ a b = if ltb_ℤ b a then b else a

abbrev pub max_ℤ : ℤ → ℤ → ℤ
max_ℤ a b = if ltb_ℤ a b then b else a

-- `${min}-${max}-${conn_type}` of two edges
abbrev pub same_key : DepEdge → DepEdge → Bool
same_key e f =
    eq_ℤ (min_ℤ e.source_id e.target_id) (min_ℤ f.source_id f.target_id)
    && eq_ℤ (max_ℤ e.source_id e.target_id) (max_ℤ f.source_id f.target_id)
    && str_eq e.conn_type f.conn_type

abbrev pub push_type : String → DepNode → DepNode
push_type conn n = record n { conn_types = n.conn_types ++ conn ∷ [] }

-- a Map keeps its keys in the order in which they came
unfoldable pub add_node : AssetInfo → String → List DepNode → List DepNode
add_node a conn [] = record { info = a; conn_types = conn ∷ [] } ∷ []
add_node a conn (n ∷ ns) =
    let rest = add_node a conn ns in if eq_ℤ n.info.id a.id then push_type conn n ∷ ns else n ∷ rest

unfoldable pub add_nodes : List LinkRow → List DepNode → List DepNode
unfolding add_node
add_nodes [] ns = ns
add_nodes (f ∷ fs) ns = add_nodes fs (add_node f.info f.edge.conn_type ns)

-- edges.filter(…) with the keys of those that were kept
unfoldable pub unique_edges : List DepEdge → List DepEdge → List DepEdge
unique_edges seen [] = []
unique_edges seen (e ∷ es) =
    let kept = unique_edges (e ∷ seen) es in
    let dropped = unique_edges seen es in if any (same_key e) seen then dropped else e ∷ kept
