-- ===== src/Dependencies/Rows.antt =====
-- The queries and loops of web/src/app/api/assets/dependencies/route.ts, from the center on.
use go_digi.Prelude.{
  ℕ, zero, suc, String, Bool, false, ◌&&◌, ◌||◌, Option, none, some, List, [], ◌∷◌, ◌++◌, map, any,
  select, str_eq, ◌==◌, find, length, if◌then◌else◌,
}
use go_digi.Prelude.Int.{ℤ, pos, negsuc}
use go_digi.Monitor.{Asset}
use go_digi.Monitor.Evaluation.{is_id}
use go_digi.Topology.{Node, Edge}
use go_digi.Dependencies.{
  StorageConnection, VirtualHost, VirtualMachine, MapDb, AssetInfo, DepNode, DepEdge, LinkRow,
  add_nodes, unique_edges,
}

abbrev pub asset_row : MapDb → ℕ → Option Asset
asset_row db id = find (λ (a : Asset). a.id == id) db.assets

-- a column of a LEFT JOIN: NULL without a row
abbrev column : (Asset → Option String) → Option Asset → Option String
column f none = none
column f (some a) = f a

abbrev info_of : ℕ → Option Asset → AssetInfo
info_of id a = record {
  id = pos id;
  name = column (λ a. some a.name) a;
  asset_type = column (λ a. some a.type) a;
  status = column (λ a. some a.status) a;
  ip_address = column (λ a. a.ip_text) a;
}

abbrev link : ℤ → ℤ → String → String → DepEdge
link source target conn label = record {
  source_id = source;
  target_id = target;
  conn_type = conn;
  label = label;
}

-- an id of 0 or none is no asset
abbrev pub given : Option ℕ → Option ℕ
given none = none
given (some zero) = none
given (some (suc n)) = some (suc n)

abbrev pub gather {ℓ κ} : {A : Type ℓ} {B : Type κ} → (A → List B) → List A → List B
gather f [] = []
gather f (x ∷ xs) = f x ++ gather f xs

abbrev pub node_row : MapDb → ℕ → Option Node
node_row db id = find (λ (n : Node). n.id == id) db.nodes

-- the other end of an edge of the map: the target where the asset is the source, else the source
abbrev pub topo_link : MapDb → ℕ → Edge → Option ℕ → Option ℕ → List LinkRow
topo_link db id e source target =
    if is_id id source then outward (given target) else inward (given source)
  where
    outward : Option ℕ → List LinkRow
    outward none = []
    outward (some n) =
        record {
          info = info_of n (asset_row db n);
          edge = link (pos id) (pos n) e.link_type e.link_type;
        }
        ∷ []

    inward : Option ℕ → List LinkRow
    inward none = []
    inward (some n) =
        record {
          info = info_of n (asset_row db n);
          edge = link (pos n) (pos id) e.link_type e.link_type;
        }
        ∷ []

abbrev pub topo_joined : MapDb → ℕ → Edge → Option Node → Option Node → List LinkRow
topo_joined db id e (some s) (some t) =
    if is_id id s.asset_id || is_id id t.asset_id
    then topo_link db id e s.asset_id t.asset_id
    else []
topo_joined db id e _ _ = []

-- LEFT JOIN topology_nodes cn: each row once for every node of the asset
abbrev pub topo_rows : MapDb → ℕ → Edge → List LinkRow
topo_rows db id e =
    if e.is_active
    then gather (λ _. topo_joined db id e (node_row db e.source_node) (node_row db e.target_node))
        (select (λ (n : Node). is_id id n.asset_id) db.nodes)
    else []

abbrev pub storage_row : MapDb → ℕ → StorageConnection → List LinkRow
storage_row db id c =
    if c.is_active && (c.storage_asset_id == id || c.server_asset_id == id)
    then (if c.storage_asset_id == id then to_server ∷ [] else to_storage ∷ [])
    else []
  where
    to_server : LinkRow
    to_server = record {
      info = info_of c.server_asset_id (asset_row db c.server_asset_id);
      edge = link (pos id) (pos c.server_asset_id) c.connection_type c.connection_type;
    }

    to_storage : LinkRow
    to_storage = record {
      info = info_of c.storage_asset_id (asset_row db c.storage_asset_id);
      edge = link (pos c.storage_asset_id) (pos id) c.connection_type c.connection_type;
    }

abbrev pub host_of : MapDb → ℕ → Option VirtualHost
host_of db id = find (λ (h : VirtualHost). h.id == id) db.hosts

abbrev vm_info : ℤ → String → VirtualMachine → AssetInfo
vm_info id type vm = record {
  id = id;
  name = some vm.vm_name;
  asset_type = some type;
  status = some (if str_eq vm.power_state "running" then "online" else "offline");
  ip_address = vm.ip_text;
}

-- -(counter)
abbrev negative : ℕ → ℤ
negative zero = pos 0
negative (suc n) = negsuc n

abbrev pub vm_found : ℕ → ℤ → String → VirtualMachine → LinkRow
vm_found id other type vm = record {
  info = vm_info other type vm;
  edge = link (pos id) other "virtual" "VM";
}

abbrev pub runs_on : MapDb → ℕ → VirtualMachine → Bool
runs_on db id vm = elim (host_of db vm.host_id) [ none ↦ false | some h ↦ is_id id h.asset_id ]

abbrev pub vm_row : ℕ → VirtualMachine → Option ℕ → ℕ → (ℕ → List LinkRow × ℕ) → List LinkRow × ℕ
vm_row id vm (some n) counter more =
    let (rest, c) = more counter in (vm_found id (pos n) "server" vm ∷ rest, c)
vm_row id vm none counter more =
    let (rest, c) = more (suc counter) in (vm_found id (negative counter) "vm" vm ∷ rest, c)

-- the machines on the asset; one without an asset takes the next id of the counter
unfoldable pub vm_rows : ℕ → List VirtualMachine → ℕ → List LinkRow × ℕ
vm_rows id [] counter = ([], counter)
vm_rows id (vm ∷ vms) counter = vm_row id vm (given vm.asset_id) counter (vm_rows id vms)

abbrev pub hypervisor : MapDb → ℕ → Option ℕ → List LinkRow
hypervisor db id none = []
hypervisor db id (some n) =
    record {
      info = record (info_of n (asset_row db n)) { asset_type = some "server" };
      edge = link (pos n) (pos id) "virtual" "Hypervisor";
    }
    ∷ []

abbrev pub host_found : MapDb → ℕ → VirtualMachine → Option VirtualHost → List LinkRow
host_found db id vm none = []
host_found db id vm (some h) =
    if is_id id vm.asset_id then hypervisor db id (given h.asset_id) else []

-- the host of a machine that is the asset
abbrev pub host_row : MapDb → ℕ → VirtualMachine → List LinkRow
host_row db id vm = host_found db id vm (host_of db vm.host_id)

pub record Graph : Type 0 where
  pub center : Asset
  pub nodes : List DepNode
  pub edges : List DepEdge
  pub network : ℕ
  pub storage : ℕ
  pub virtual : ℕ

-- the rows of the four queries, in the order of the loops
unfoldable pub all_found : ℕ → MapDb → ℕ → List LinkRow × ℕ
unfolding vm_rows
all_found id db counter =
    let (vms, counter') = vm_rows id (select (runs_on db id) db.machines) counter in
    (
      gather (topo_rows db id) db.edges
          ++ gather (storage_row db id) db.storage
          ++ vms
          ++ gather (host_row db id) db.machines,
      counter',
    )

abbrev pub edge_of : LinkRow → DepEdge
edge_of f = f.edge

abbrev is_one_of : List String → DepEdge → Bool
is_one_of types e = any (str_eq e.conn_type) types

abbrev count : (DepEdge → Bool) → List DepEdge → ℕ
count p es = length (select p es)

abbrev pub graph_of : Asset → List LinkRow → Graph
graph_of center rows =
    let edges = unique_edges [] (map edge_of rows) in
    record {
      center = center;
      nodes = add_nodes rows [];
      edges = edges;
      network = count (is_one_of ("ethernet" ∷ "fiber" ∷ "lag" ∷ "fc" ∷ [])) edges;
      storage = count (is_one_of ("nfs" ∷ "iscsi" ∷ "fc" ∷ "smb" ∷ "sas" ∷ [])) edges;
      virtual = count (is_one_of ("virtual" ∷ [])) edges;
    }

abbrev pub center_of : ℕ → MapDb → Option Asset
center_of id db = find (λ (a : Asset). a.id == id && a.is_active) db.assets

-- `none` is the answer 404
unfoldable pub answer_center : ℕ → MapDb → ℕ → Option Asset → Option Graph × ℕ
unfolding all_found unique_edges add_nodes
answer_center id db counter none = (none, counter)
answer_center id db counter (some center) =
    let (rows, counter') = all_found id db counter in (some (graph_of center rows), counter')

-- GET with an id
unfoldable pub dependencies : ℕ → MapDb → ℕ → Option Graph × ℕ
unfolding answer_center
dependencies id db counter = answer_center id db counter (center_of id db)
