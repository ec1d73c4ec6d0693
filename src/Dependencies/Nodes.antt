-- ===== src/Dependencies/Nodes.antt =====
-- The nodes of the map of web/src/app/api/assets/dependencies/route.ts: one for each id.
use go_digi.Prelude.{
  String, Bool, true, false, ◌≡◌, inl, inr, refl, arith, List, [], ◌∷◌, any, All, Pairwise,
  Bool-cases,
}
use go_digi.Prelude.Int.{ℤ}
use go_digi.Dependencies.{AssetInfo, DepNode, LinkRow, eq_ℤ, add_node, add_nodes}
use go_digi.Dependencies.Edges.{eq_ℤ_refl}

abbrev pub has_node : List DepNode → ℤ → Bool
has_node ns id = any (λ n. eq_ℤ n.info.id id) ns

-- no id stands twice
abbrev pub Distinct : List DepNode → Type 0
Distinct ns = Pairwise (λ m n. eq_ℤ m.info.id n.info.id ≡ false) ns

has_node-added :
    (a : AssetInfo) (conn : String) (ns : List DepNode) → has_node (add_node a conn ns) a.id ≡ true
unfolding add_node
has_node-added a conn [] = ground (arith, eq_ℤ_refl a.id)
has_node-added a conn (n ∷ ns) = elim (Bool-cases (eq_ℤ n.info.id a.id)) [
  | inl e ↦ rw e (rw e refl)
  | inr e ↦ rw e (rw e (has_node-added a conn ns))
]

has_node-kept :
    (a : AssetInfo) (conn : String) (ns : List DepNode) (id : ℤ)
    → has_node ns id ≡ true
    → has_node (add_node a conn ns) id ≡ true
unfolding add_node
has_node-kept a conn [] id h = cc
has_node-kept a conn (n ∷ ns) id h = elim (Bool-cases (eq_ℤ n.info.id a.id)) [
  | inl e ↦ rw e h
  | inr e ↦ rw e (ground (arith, h, has_node-kept a conn ns id))
]

-- what is true of the nodes and of a new one, and is not about how they are connected
add_node-All {κ} :
    (P : AssetInfo → Type κ) (a : AssetInfo) (conn : String) (ns : List DepNode)
    → (has_node ns a.id ≡ false → P a)
    → All (λ n. P n.info) ns
    → All (λ n. P n.info) (add_node a conn ns)
unfolding add_node
add_node-All P a conn [] new h = (new refl, tt)
add_node-All P a conn (n ∷ ns) new (h, hs) = elim (Bool-cases (eq_ℤ n.info.id a.id)) [
  | inl e ↦ rw e (h, hs)
  | inr e ↦ rw e (h, add_node-All P a conn ns (λ k. new (ground (arith, e, k))) hs)
]

add_node-Distinct :
    (a : AssetInfo) (conn : String) (ns : List DepNode)
    → Distinct ns
    → Distinct (add_node a conn ns)
unfolding add_node
add_node-Distinct a conn [] h = (tt, tt)
add_node-Distinct a conn (n ∷ ns) (h, hs) = elim (Bool-cases (eq_ℤ n.info.id a.id)) [
  | inl e ↦ rw e (h, hs)
  | inr e ↦ rw e (
    add_node-All (λ i. eq_ℤ n.info.id i.id ≡ false) a conn ns (λ _. e) h,
    add_node-Distinct a conn ns hs,
  )
]

pub add_nodes-Distinct :
    (fs : List LinkRow) (ns : List DepNode) → Distinct ns → Distinct (add_nodes fs ns)
unfolding add_nodes
add_nodes-Distinct [] ns h = h
add_nodes-Distinct (f ∷ fs) ns h =
    add_nodes-Distinct fs _ (add_node-Distinct f.info f.edge.conn_type ns h)

add_nodes-kept :
    (fs : List LinkRow) (ns : List DepNode) (id : ℤ)
    → has_node ns id ≡ true
    → has_node (add_nodes fs ns) id ≡ true
unfolding add_nodes
add_nodes-kept [] ns id h = h
add_nodes-kept (f ∷ fs) ns id h =
    add_nodes-kept fs _ id (has_node-kept f.info f.edge.conn_type ns id h)

-- Whatever is found has its node.
pub add_nodes-All :
    (fs : List LinkRow) (ns : List DepNode)
    → All (λ (f : LinkRow). has_node (add_nodes fs ns) f.info.id ≡ true) fs
unfolding add_nodes
add_nodes-All [] ns = tt
add_nodes-All (f ∷ fs) ns =
    (add_nodes-kept fs _ f.info.id (has_node-added f.info f.edge.conn_type ns), add_nodes-All fs _)
