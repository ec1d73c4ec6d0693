-- ===== src/Dependencies/Center.antt =====
-- What the map of web/src/app/api/assets/dependencies/route.ts is: its edges meet at the center,
-- each once, and each has its node.
use go_digi.Prelude.{
  ℕ, suc, Bool, true, false, ◌&&◌, ◌||◌, ◌≡◌, ◌⊎◌, inl, inr, refl, Option, none, some, List, [],
  ◌∷◌, map, any, select, All, All-map, All-append, All-pair, Pairwise, Bool-cases, Option-cases,
  ◌==◌, if◌then◌else◌,
}
use go_digi.Prelude.Int.{pos}
use go_digi.Monitor.{Asset}
use go_digi.Monitor.Evaluation.{is_id}
use go_digi.Topology.{Node, Edge}
use go_digi.Dependencies.{
  StorageConnection, VirtualHost, VirtualMachine, MapDb, DepNode, DepEdge, LinkRow, same_key,
  add_nodes,
}
use go_digi.Dependencies.Rows.{
  Graph, given, gather, node_row, topo_link, topo_joined, topo_rows, storage_row, runs_on, vm_rows,
  hypervisor, host_of, host_found, host_row, all_found, edge_of, graph_of,
}
use go_digi.Dependencies.Edges.{unique_edges-Pairwise, unique_edges_complete, unique_edges-All}
use go_digi.Dependencies.Nodes.{has_node, Distinct, add_nodes-Distinct, add_nodes-All}

-- one end is the center, the other what was found
abbrev pub IsLink : ℕ → LinkRow → Type 0
IsLink id f =
    (f.edge.source_id ≡ pos id × f.edge.target_id ≡ f.info.id)
    ⊎ (f.edge.target_id ≡ pos id × f.edge.source_id ≡ f.info.id)

gather-All {ℓ κ μ} :
    {A : Type ℓ} {B : Type κ} (P : B → Type μ) (f : A → List B) (xs : List A)
    → ((x : A) → All P (f x))
    → All P (gather f xs)
gather-All P f [] h = tt
gather-All P f (x ∷ xs) h = All-append P (f x) (gather f xs) (h x) (gather-All P f xs h)

All-if {ℓ κ} :
    {A : Type ℓ} (P : A → Type κ) (xs ys : List A) (b : Bool)
    → All P xs
    → All P ys
    → All P (if b then xs else ys)
All-if P xs ys true h k = h
All-if P xs ys false h k = k

topo_link-AllIsLink :
    (db : MapDb) (id : ℕ) (e : Edge) (source target : Option ℕ)
    → All (IsLink id) (topo_link db id e source target)
topo_link-AllIsLink db id e source target =
    All-if (IsLink id) _ _ (is_id id source)
      (elim (Option-cases (given target)) [
        | inl e ↦ rw e tt
        | inr (n, e) ↦ rw e (inl (refl, refl), tt)
      ])
      (elim (Option-cases (given source)) [
        | inl e ↦ rw e tt
        | inr (n, e) ↦ rw e (inr (refl, refl), tt)
      ])

topo_joined-AllIsLink :
    (db : MapDb) (id : ℕ) (e : Edge) (s t : Option Node) → All (IsLink id) (topo_joined db id e s t)
topo_joined-AllIsLink db id e none t = tt
topo_joined-AllIsLink db id e (some s) none = tt
topo_joined-AllIsLink db id e (some s) (some t) =
    All-if (IsLink id) _ _ (is_id id s.asset_id || is_id id t.asset_id)
      (topo_link-AllIsLink db id e s.asset_id t.asset_id) tt

topo_rows-AllIsLink : (id : ℕ) (db : MapDb) (e : Edge) → All (IsLink id) (topo_rows db id e)
topo_rows-AllIsLink id db e =
    All-if (IsLink id) _ _ e.is_active
      (gather-All (IsLink id) _ (select (λ (n : Node). is_id id n.asset_id) db.nodes) (λ _.
        topo_joined-AllIsLink db id e (node_row db e.source_node) (node_row db e.target_node)))
      tt

storage_row-AllIsLink :
    (id : ℕ) (db : MapDb) (c : StorageConnection) → All (IsLink id) (storage_row db id c)
storage_row-AllIsLink id db c =
    All-if (IsLink id) _ _ (c.is_active && (c.storage_asset_id == id || c.server_asset_id == id))
      (elim (Bool-cases (c.storage_asset_id == id)) [
        | inl e ↦ rw e (inl (refl, refl), tt)
        | inr e ↦ rw e (inr (refl, refl), tt)
      ])
      tt

vm_rows-AllIsLink :
    (id : ℕ) (vms : List VirtualMachine) (counter : ℕ) → All (IsLink id) (vm_rows id vms counter).0
unfolding vm_rows
vm_rows-AllIsLink id [] counter = tt
vm_rows-AllIsLink id (vm ∷ vms) counter = elim (Option-cases (given vm.asset_id)) [
  | inl e ↦ rw e (inl (refl, refl), vm_rows-AllIsLink id vms (suc counter))
  | inr (n, e) ↦ rw e (inl (refl, refl), vm_rows-AllIsLink id vms counter)
]

hypervisor-AllIsLink : (id : ℕ) (db : MapDb) (n : Option ℕ) → All (IsLink id) (hypervisor db id n)
hypervisor-AllIsLink id db none = tt
hypervisor-AllIsLink id db (some n) = (inr (refl, refl), tt)

host_found-AllIsLink :
    (id : ℕ) (db : MapDb) (vm : VirtualMachine) (h : Option VirtualHost)
    → All (IsLink id) (host_found db id vm h)
host_found-AllIsLink id db vm none = tt
host_found-AllIsLink id db vm (some h) =
    All-if (IsLink id) _ _ (is_id id vm.asset_id) (hypervisor-AllIsLink id db (given h.asset_id)) tt

pub all_found-AllIsLink :
    (id : ℕ) (db : MapDb) (counter : ℕ) → All (IsLink id) (all_found id db counter).0
unfolding all_found
all_found-AllIsLink id db counter =
    let topology = gather-All (IsLink id) _ db.edges (topo_rows-AllIsLink id db) in
    let storage = gather-All (IsLink id) _ db.storage (storage_row-AllIsLink id db) in
    let vms = vm_rows-AllIsLink id (select (runs_on db id) db.machines) counter in
    let hosts =
      gather-All (IsLink id) (host_row db id) db.machines
        (λ vm. host_found-AllIsLink id db vm (host_of db vm.host_id)) in
    All-append (IsLink id) _ _
      (All-append (IsLink id) _ _ (All-append (IsLink id) _ _ topology storage) vms) hosts

-- One end is the center, the other has its node.
abbrev pub Meets : ℕ → List DepNode → DepEdge → Type 0
Meets id ns e =
    (e.source_id ≡ pos id × has_node ns e.target_id ≡ true)
    ⊎ (e.target_id ≡ pos id × has_node ns e.source_id ≡ true)

meets :
    (id : ℕ) (ns : List DepNode) (f : LinkRow)
    → IsLink id f × has_node ns f.info.id ≡ true
    → Meets id ns f.edge
meets id ns f (inl (s, t), h) = inl (s, rw t h)
meets id ns f (inr (t, s), h) = inr (t, rw s h)

All-edge_of :
    (P : DepEdge → Type 0) (fs : List LinkRow)
    → All (λ (f : LinkRow). P f.edge) fs
    → All P (map edge_of fs)
All-edge_of P [] h = tt
All-edge_of P (f ∷ fs) (h, hs) = (h, All-edge_of P fs hs)

edge_of-All :
    (P : DepEdge → Type 0) (fs : List LinkRow)
    → All P (map edge_of fs)
    → All (λ (f : LinkRow). P f.edge) fs
edge_of-All P [] h = tt
edge_of-All P (f ∷ fs) (h, hs) = (h, edge_of-All P fs hs)

-- whatever was found stands in the graph, as a node and as an edge
abbrev pub IsShown : Graph → LinkRow → Type 0
IsShown g f = has_node g.nodes f.info.id ≡ true × any (same_key f.edge) g.edges ≡ true

-- What is true of the graph of whatever rows are links of the center.
pub record IsStar (id : ℕ) (rows : List LinkRow) (g : Graph) : Type 0 where
  pub meets : All (Meets id g.nodes) g.edges
  pub edges_once : Pairwise (λ e f. same_key f e ≡ false) g.edges
  pub nodes_once : Distinct g.nodes
  pub complete : All (IsShown g) rows

pub graph_of-IsStar :
    (id : ℕ) (center : Asset) (rows : List LinkRow)
    → All (IsLink id) rows
    → IsStar id rows (graph_of center rows)
graph_of-IsStar id center rows h = record {
  meets = unique_edges-All _ [] (map edge_of rows) (
      All-edge_of _ rows (
        All-map _ _ rows (meets id (add_nodes rows []))
          (All-pair (IsLink id) _ rows h (add_nodes-All rows []))));
  edges_once = unique_edges-Pairwise [] (map edge_of rows);
  nodes_once = add_nodes-Distinct rows [] tt;
  complete =
      All-pair _ _ rows (add_nodes-All rows [])
        (edge_of-All _ rows (unique_edges_complete (map edge_of rows)));
}
