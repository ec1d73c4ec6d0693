-- ===== src/Dependencies/Correct.antt =====
-- The answer of web/src/app/api/assets/dependencies/route.ts against the tables: the map it gives
-- has a node for every asset that is connected with the center, and nothing stands twice in it.
use go_digi.Prelude.{
  ℕ, suc, Bool, true, false, ◌≡◌, ◌⊎◌, inl, inr, refl, none, some, select, All, All-map, Pairwise,
  Option-cases, ◌==◌,
}
use go_digi.Prelude.Int.{ℤ, pos}
use go_digi.Topology.{Node, Edge}
use go_digi.Monitor.{Asset}
use go_digi.Dependencies.{StorageConnection, VirtualHost, VirtualMachine, MapDb, LinkRow, same_key}
use go_digi.Dependencies.Rows.{
  answer_center, Graph, node_row, runs_on, host_of, host_found, all_found, graph_of, center_of,
  dependencies,
}
use go_digi.Dependencies.Nodes.{has_node, Distinct}
use go_digi.Dependencies.Center.{Meets, all_found-AllIsLink, graph_of-IsStar}
use go_digi.Dependencies.Complete.{
  all_found-tables, storage_row-server, storage_row-storage, host_found-host, vm_rows-machine,
  topo_rows-other,
}
use mathlib.Core.Path.{subst}

-- A node for the other end of every active edge and storage connection of the asset, for every
-- machine on it and for every host of it.
pub record ShowsAll (id : ℕ) (db : MapDb) (shown : ℤ → Bool) : Type 0 where
  pub links :
      All
        (λ (e : Edge).
          (s t : Node) (n : ℕ)
          → e.is_active ≡ true
          → node_row db e.source_node ≡ some s
          → node_row db e.target_node ≡ some t
          → (s.asset_id ≡ some id × t.asset_id ≡ some (suc n))
            ⊎ (t.asset_id ≡ some id × s.asset_id ≡ some (suc n) × (suc n == id) ≡ false)
          → shown (pos (suc n)) ≡ true)
        db.edges
  pub servers :
      All
        (λ (c : StorageConnection).
          c.is_active ≡ true → c.storage_asset_id ≡ id → shown (pos c.server_asset_id) ≡ true)
        db.storage
  pub storages :
      All
        (λ (c : StorageConnection).
          c.is_active ≡ true
          → c.server_asset_id ≡ id
          → (c.storage_asset_id == id) ≡ false
          → shown (pos c.storage_asset_id) ≡ true)
        db.storage
  pub machines :
      All
        (λ (vm : VirtualMachine). (n : ℕ) → vm.asset_id ≡ some (suc n) → shown (pos (suc n)) ≡ true)
        (select (runs_on db id) db.machines)
  pub hosts :
      All
        (λ (vm : VirtualMachine).
          (h : VirtualHost) (n : ℕ)
          → vm.asset_id ≡ some id
          → host_of db vm.host_id ≡ some h
          → h.asset_id ≡ some (suc n)
          → shown (pos (suc n)) ≡ true)
        db.machines

all_found-ShowsAll :
    (shown : ℤ → Bool) (id : ℕ) (db : MapDb) (counter : ℕ)
    → All (λ (f : LinkRow). shown f.info.id ≡ true) (all_found id db counter).0
    → ShowsAll id db shown
all_found-ShowsAll shown id db counter h =
    let (links, storage, vms, hosts) = all_found-tables _ id db counter h in
    record {
      links =
          All-map _ _ db.edges (λ e k s t n. topo_rows-other (λ i. shown i ≡ true) id db e s t n k)
            links;
      servers = All-map _ _ db.storage (storage_row-server (λ i. shown i ≡ true) id db) storage;
      storages = All-map _ _ db.storage (storage_row-storage (λ i. shown i ≡ true) id db) storage;
      machines =
          vm_rows-machine (λ i. shown i ≡ true) id db (select (runs_on db id) db.machines) counter
            vms;
      hosts =
          All-map _ _ db.machines
            (λ vm k h n e f g.
              host_found-host (λ i. shown i ≡ true) id db vm h n
                (subst (λ o. All (λ (f : LinkRow). shown f.info.id ≡ true) (host_found db id vm o))
                  f k)
                e g)
            hosts;
    }

pub record IsMap (id : ℕ) (db : MapDb) (g : Graph) : Type 0 where
  pub is_center : center_of id db ≡ some g.center
  pub meets : All (Meets id g.nodes) g.edges
  pub edges_once : Pairwise (λ e f. same_key f e ≡ false) g.edges
  pub nodes_once : Distinct g.nodes
  pub shows_all : ShowsAll id db (has_node g.nodes)

graph_of-IsMap :
    (id : ℕ) (db : MapDb) (counter : ℕ) (center : Asset)
    → center_of id db ≡ some center
    → IsMap id db (graph_of center (all_found id db counter).0)
graph_of-IsMap id db counter center e =
    let star = graph_of-IsStar id center _ (all_found-AllIsLink id db counter) in
    record {
      is_center = e;
      meets = star.meets;
      edges_once = star.edges_once;
      nodes_once = star.nodes_once;
      shows_all = all_found-ShowsAll _ id db counter (All-map _ _ _ (λ f k. k.0) star.complete);
    }

-- Without an active asset of the id the answer is 404 and the counter stays; else it is a map
-- around that asset where each edge has the center as one end and a node for the other, no edge
-- and no node stands twice, and every active link and storage connection, every machine on the
-- asset and the host of the asset has its node, where it has an asset other than 0.
pub dependencies-IsMap :
    (id : ℕ) (db : MapDb) (counter : ℕ)
    → (center_of id db ≡ none × dependencies id db counter ≡ (none, counter))
      ⊎ ((g : Graph) × (dependencies id db counter).0 ≡ some g × IsMap id db g)
unfolding dependencies answer_center
dependencies-IsMap id db counter = elim (Option-cases (center_of id db)) [
  | inl e ↦ inl (e, rw e refl)
  | inr (a, e) ↦
      inr (graph_of a (all_found id db counter).0, rw e refl, graph_of-IsMap id db counter a e)
]
