-- ===== src/Dependencies/Complete.antt =====
-- What the map of web/src/app/api/assets/dependencies/route.ts does not leave out.
use mathlib.Core.Path.{subst}
use go_digi.Prelude.{
  sym, ℕ, suc, Bool, true, false, ◌&&◌, ◌||◌, ◌≡◌, arith, Option, none, some, List, [], ◌∷◌, ◌++◌,
  select, find, ◌⊎◌, inl, inr, All, Bool-cases, ◌==◌, if◌then◌else◌,
}
use go_digi.Prelude.Int.{ℤ, pos}
use go_digi.Monitor.Evaluation.{is_id}
use go_digi.Topology.{Node, Edge}
use go_digi.Dependencies.{StorageConnection, VirtualHost, VirtualMachine, MapDb, LinkRow}
use go_digi.Dependencies.Rows.{
  given, gather, node_row, topo_rows, topo_joined, storage_row, runs_on, vm_rows, host_found,
  host_row, hypervisor, topo_link, vm_row, all_found,
}

All-split {ℓ κ} :
    {A : Type ℓ} (P : A → Type κ) (xs ys : List A) → All P (xs ++ ys) → All P xs × All P ys
All-split P [] ys h = (tt, h)
All-split P (x ∷ xs) ys (h, hs) = let (k, l) = All-split P xs ys hs in ((h, k), l)

gather-each {ℓ κ μ} :
    {A : Type ℓ} {B : Type κ} (P : B → Type μ) (f : A → List B) (xs : List A)
    → All P (gather f xs)
    → All (λ x. All P (f x)) xs
gather-each P f [] h = tt
gather-each P f (x ∷ xs) h =
    let (k, l) = All-split P (f x) (gather f xs) h in (k, gather-each P f xs l)

module _ {ℓ κ} {A : Type ℓ} (P : A → Type κ) (xs ys : List A) where
  All-then : (b : Bool) → All P (if b then xs else ys) → b ≡ true → All P xs
  All-then true h e = h
  All-then false h e = cc

  All-else : (b : Bool) → All P (if b then xs else ys) → b ≡ false → All P ys
  All-else true h e = cc
  All-else false h e = h

-- of all that is found, the part of each table
pub all_found-tables :
    (P : LinkRow → Type 0) (id : ℕ) (db : MapDb) (counter : ℕ)
    → All P (all_found id db counter).0
    → All (λ e. All P (topo_rows db id e)) db.edges
      × All (λ c. All P (storage_row db id c)) db.storage
      × All P (vm_rows id (select (runs_on db id) db.machines) counter).0
      × All (λ vm. All P (host_row db id vm)) db.machines
unfolding all_found
all_found-tables P id db counter h =
    let (abc, d) = All-split P _ _ h in
    let (ab, c) = All-split P _ _ abc in
    let (a, b) = All-split P _ _ ab in
    (gather-each P _ db.edges a, gather-each P _ db.storage b, c, gather-each P _ db.machines d)

module _ (P : ℤ → Type 0) (id : ℕ) (db : MapDb) where
  abbrev Q : LinkRow → Type 0
  Q f = P f.info.id

  pub storage_row-server :
      (c : StorageConnection)
      → All (λ (f : LinkRow). P f.info.id) (storage_row db id c)
      → c.is_active ≡ true
      → c.storage_asset_id ≡ id
      → P (pos c.server_asset_id)
  storage_row-server c h active e =
      (All-then Q _ _ (c.storage_asset_id == id)
        (All-then Q _ _ (c.is_active && (c.storage_asset_id == id || c.server_asset_id == id)) h
          (ground (arith, active, e)))
        (ground (arith, e))).0

  pub storage_row-storage :
      (c : StorageConnection)
      → All (λ (f : LinkRow). P f.info.id) (storage_row db id c)
      → c.is_active ≡ true
      → c.server_asset_id ≡ id
      → (c.storage_asset_id == id) ≡ false
      → P (pos c.storage_asset_id)
  storage_row-storage c h active e other =
      (All-else Q _ _ (c.storage_asset_id == id)
        (All-then Q _ _ (c.is_active && (c.storage_asset_id == id || c.server_asset_id == id)) h
          (ground (arith, active, e)))
        other).0

  -- a machine that is the asset, on a host that is another one
  pub host_found-host :
      (vm : VirtualMachine) (h : VirtualHost) (n : ℕ)
      → All (λ (f : LinkRow). P f.info.id) (host_found db id vm (some h))
      → vm.asset_id ≡ some id
      → h.asset_id ≡ some (suc n)
      → P (pos (suc n))
  host_found-host vm h n k e f =
      (subst (λ o. All Q (hypervisor db id (given o))) f
        (All-then Q _ _ (is_id id vm.asset_id) k
          (subst (λ o. is_id id o ≡ true) (sym e) (ground arith)))).0

  vm_row-rest :
      {R : Type 0} (vm : VirtualMachine) (o : Option ℕ) (counter : ℕ) (more : ℕ → List LinkRow × ℕ)
      → ((c : ℕ) → All Q (more c).0 → R)
      → All Q (vm_row id vm o counter more).0
      → R
  vm_row-rest vm none counter more f h = f (suc counter) h.1
  vm_row-rest vm (some n) counter more f h = f counter h.1

  -- a machine on the asset, which is another one
  pub vm_rows-machine :
      (vms : List VirtualMachine) (counter : ℕ)
      → All (λ (f : LinkRow). P f.info.id) (vm_rows id vms counter).0
      → All (λ vm. (n : ℕ) → vm.asset_id ≡ some (suc n) → P (pos (suc n))) vms
  unfolding vm_rows
  vm_rows-machine [] counter h = tt
  vm_rows-machine (vm ∷ vms) counter h = (
    λ n e. (subst (λ o. All Q (vm_row id vm (given o) counter (vm_rows id vms)).0) e h).0,
    vm_row-rest vm (given vm.asset_id) counter (vm_rows id vms) (λ c. vm_rows-machine vms c) h,
  )

  topo_joined-target :
      (e : Edge) (s t : Node) (n : ℕ)
      → All (λ (f : LinkRow). P f.info.id) (topo_joined db id e (some s) (some t))
      → s.asset_id ≡ some id
      → t.asset_id ≡ some (suc n)
      → P (pos (suc n))
  topo_joined-target e s t n h k l =
      let both : All Q (topo_link db id e s.asset_id t.asset_id) =
        All-then Q _ _ (is_id id s.asset_id || is_id id t.asset_id) h
          (subst (λ o. (is_id id o || is_id id t.asset_id) ≡ true) (sym k) (ground arith)) in
      let target : All Q (topo_link db id e (some id) (some (suc n))) =
        subst (λ o. All Q (topo_link db id e (some id) o)) l
          (subst (λ o. All Q (topo_link db id e o t.asset_id)) k both) in
      (All-then Q _ _ (id == id) target (ground arith)).0

  -- the same edge from the other side
  topo_joined-source :
      (e : Edge) (s t : Node) (n : ℕ)
      → All Q (topo_joined db id e (some s) (some t))
      → t.asset_id ≡ some id
      → s.asset_id ≡ some (suc n)
      → (suc n == id) ≡ false
      → P (pos (suc n))
  topo_joined-source e s t n h k l other =
      let both : All Q (topo_link db id e s.asset_id t.asset_id) =
        All-then Q _ _ (is_id id s.asset_id || is_id id t.asset_id) h
          (subst (λ o. (is_id id s.asset_id || is_id id o) ≡ true) (sym k) (ground arith)) in
      let source : All Q (topo_link db id e (some (suc n)) t.asset_id) =
        subst (λ o. All Q (topo_link db id e o t.asset_id)) l both in
      (All-else Q _ _ (suc n == id) source other).0

  abbrev mine : List Node → List Node
  mine = select (λ (n : Node). is_id id n.asset_id)

  -- a row that comes once for each node of the asset comes at least once
  gather-constant :
      (q : Node → Bool) (row : List LinkRow) (ns : List Node) (s : Node)
      → find q ns ≡ some s
      → is_id id s.asset_id ≡ true
      → All Q (gather (λ _. row) (mine ns))
      → All Q row
  gather-constant q row [] s f k h = cc
  gather-constant q row (n ∷ ns) s f k h = elim (Bool-cases (is_id id n.asset_id)) [
    | inl y ↦
        let rows : All Q (row ++ gather (λ _. row) (mine ns)) =
          subst (λ b. All Q (gather (λ _. row) (if b then n ∷ mine ns else mine ns))) y h in
        (All-split Q row _ rows).0
    | inr e ↦
        let rows : All Q (gather (λ _. row) (mine ns)) =
          subst (λ b. All Q (gather (λ _. row) (if b then n ∷ mine ns else mine ns))) e h in
        elim (Bool-cases (q n)) [
          | inl z ↦
              let same : n ≡ s = ground arith in
              let is_mine : is_id id n.asset_id ≡ true = rw same k in cc
          | inr z ↦ gather-constant q row ns s (ground arith) k rows
        ]
  ]

  -- an active edge between a node of the asset and a node of another one
  pub topo_rows-other :
      (e : Edge) (s t : Node) (n : ℕ)
      → All Q (topo_rows db id e)
      → e.is_active ≡ true
      → node_row db e.source_node ≡ some s
      → node_row db e.target_node ≡ some t
      → (s.asset_id ≡ some id × t.asset_id ≡ some (suc n))
        ⊎ (t.asset_id ≡ some id × s.asset_id ≡ some (suc n) × (suc n == id) ≡ false)
      → P (pos (suc n))
  topo_rows-other e s t n h active es et ends =
      let rows = All-then Q _ _ e.is_active h active in
      let row : (m : Node) (q : Node → Bool)
          → find q db.nodes ≡ some m
          → m.asset_id ≡ some id
          → All Q (topo_joined db id e (some s) (some t)) =
        λ m q f k.
          subst (λ o. All Q (topo_joined db id e (some s) o)) et
            (subst (λ o. All Q (topo_joined db id e o (node_row db e.target_node))) es
              (gather-constant q _ db.nodes m f
                (subst (λ o. is_id id o ≡ true) (sym k) (ground arith)) rows)) in
      elim ends [
        | inl (k, l) ↦ topo_joined-target e s t n (row s _ es k) k l
        | inr (k, l, other) ↦ topo_joined-source e s t n (row t _ et k) k l other
      ]
