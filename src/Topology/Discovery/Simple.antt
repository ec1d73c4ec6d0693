-- ===== src/Topology/Discovery/Simple.antt =====
-- Between two nodes a layer has one active edge, and edges of LLDP stay, over runs of the discovery.
use mathlib.Core.Path.{sym, ap, subst}
use go_digi.Prelude.{
  ℕ, suc, ◌<◌, ◌≡◌, ◌≢◌, refl, ◌∙◌, String, Bool, true, false, ◌&&◌, none, some, List, [], ◌∷◌, All,
  All-append, All-update_where, Pairwise, Pairwise-insert, Pairwise-update_where, All-pair, arith,
  str_eq, ==_iff, ◌==◌, Option-cases, Bool-cases, inl, inr, find, All-find, All-map, find-eq_none,
  find-eq_some, touch,
}
use go_digi.Http.{gets, ◌>>=◌, continue-keeps, found-keeps, Any, Hands-Any}
use go_digi.Monitor.{Asset}
use go_digi.Topology.{
  Edge, Link, Outcome, skipped, Linking, TopologyDb, Node, asset_named, ensure_node, joins,
  new_edge, insert_edge, update_edge, by_arp, by_wwn, write_ethernet, write_san, link_ethernet,
  link_san, is_node,
}

-- two edges are not the same, nor both active between the same nodes of one layer
abbrev pub AreApart : Edge → Edge → Type 0
AreApart e f =
    (e.id ≢ f.id) × ((f.is_active && joins f.layer f.source_node f.target_node e) ≡ false)

pub record IsSimple (db : TopologyDb) : Type 0 where
  pub below : All (λ (e : Edge). e.id < db.next_edge) db.edges
  pub apart : Pairwise AreApart db.edges

-- an edge that a search found is the only one with its id
pub All-found :
    (p : Edge → Bool) (edges : List Edge) {e : Edge}
    → Pairwise AreApart edges
    → find p edges ≡ some e
    → All (λ (x : Edge). x.id ≡ e.id → x ≡ e) edges
All-found p [] k h = tt
All-found p (y ∷ edges) {e} (k, ks) h = elim (Bool-cases (p y)) [
  | inl t ↦
      let same : y ≡ e = ground arith in
      (
        (λ _. same),
        subst (λ (x : Edge). All (λ (z : Edge). z.id ≡ x.id → z ≡ x) edges) same
            (All-map (AreApart y) (λ (z : Edge). z.id ≡ y.id → z ≡ y) edges
              (λ z a other. absurd (a.0 (sym other))) k),
      )
  | inr t ↦
      let later : find p edges ≡ some e = ground arith in
      (
        (λ same. absurd ((All-find (AreApart y) p edges k later).0.0 same)),
        All-found p edges ks later,
      )
]

-- what a written edge keeps
abbrev SamePlace : Edge → Edge → Type 0
SamePlace x y =
    (y.id ≡ x.id)
    × (y.layer ≡ x.layer)
    × (y.source_node ≡ x.source_node)
    × (y.target_node ≡ x.target_node)
    × (y.is_active ≡ x.is_active)

apart_place : (x x' y y' : Edge) → SamePlace x x' → SamePlace y y' → AreApart x y → AreApart x' y'
apart_place x x' y y' (xi, xl, xs, xt, xa) (yi, yl, ys, yt, ya) (other, apart) =
    ((λ same. other (sym xi ∙ same ∙ yi)), ground (arith, apart, xl, xs, xt, xa, yl, ys, yt, ya))

-- the UPDATE of an edge that a search for active edges found
module _ (f : Edge → Edge) (p : Edge → Bool) (e : Edge)
    (place : (x : Edge)
      → ((f x).id ≡ x.id)
        × ((f x).layer ≡ x.layer)
        × ((f x).source_node ≡ x.source_node)
        × ((f x).target_node ≡ x.target_node)
        × ((f x).is_active ≡ true))
    (active : e.is_active ≡ true) where
  abbrev is_it : Edge → Bool
  is_it x = x.id == e.id

  touch_place : (x : Edge) → (x.id ≡ e.id → x ≡ e) → SamePlace x (touch is_it f x)
  touch_place x only = elim (Bool-cases (x.id == e.id)) [
    | inl t ↦
        let (id, layer, source, target, on) = place x in
        rw t (
          id,
          layer,
          source,
          target,
          on ∙ sym (ap (λ (z : Edge). z.is_active) (only ((==_iff x.id e.id).0 t)) ∙ active),
        )
    | inr t ↦ rw t (refl, refl, refl, refl, refl)
  ]

  touch_apart :
      (x y : Edge)
      → (x.id ≡ e.id → x ≡ e)
      → (y.id ≡ e.id → y ≡ e)
      → AreApart x y
      → AreApart (touch is_it f x) (touch is_it f y)
  touch_apart x y only_x only_y h =
      apart_place x (touch is_it f x) y (touch is_it f y) (touch_place x only_x)
        (touch_place y only_y) h

  IsSimple-update :
      (db : TopologyDb) → find p db.edges ≡ some e → IsSimple db → IsSimple (update_edge e.id f db)
  IsSimple-update db found_e h = record {
    below =
        All-update_where (λ (x : Edge). x.id < db.next_edge) is_it f db.edges
          (λ x _ k. subst (λ n. n < db.next_edge) (sym (place x).0) k) h.below;
    apart =
        Pairwise-update_where AreApart (λ (x : Edge). x.id ≡ e.id → x ≡ e) is_it f touch_apart
          db.edges (All-found p db.edges h.apart found_e) h.apart;
  }

-- the INSERT of an edge that no search for the like found
IsSimple-insert :
    (db : TopologyDb) (layer : String) (a b : ℕ) (link_type method : String) (d : Link)
    → find (joins layer a b) db.edges ≡ none
    → IsSimple db
    → IsSimple (insert_edge (new_edge db.next_edge layer a b link_type method d) db)
IsSimple-insert db layer a b link_type method d free h = record {
  below =
      All-append (λ (x : Edge). x.id < suc db.next_edge) db.edges _
        (All-map (λ (x : Edge). x.id < db.next_edge) _ db.edges (λ x k. omega (arith, k)) h.below)
        (omega arith, tt);
  apart =
      Pairwise-insert AreApart db.edges (new_edge db.next_edge layer a b link_type method d) h.apart
        (All-map (λ (x : Edge). (x.id < db.next_edge) × (joins layer a b x ≡ false)) _ db.edges
          (λ x k. ((λ same. omega (arith, k.0, same)), k.1))
          (All-pair (λ (x : Edge). x.id < db.next_edge) _ db.edges h.below
            (find-eq_none (joins layer a b) db.edges free)));
}

-- What the writing of an edge keeps, and what does not look at the nodes, a link keeps.
module _ (P : TopologyDb → Type 0)
    (nodes_free : (s : TopologyDb) (ns : List Node) (n : ℕ)
      → P s
      → P (record s { nodes = ns; next_node = n })) where
  ensure_node-keeps :
      (asset_id : ℕ) (layer : String) (db : TopologyDb) → P db → P (ensure_node asset_id layer db).1
  unfolding ensure_node
  ensure_node-keeps asset_id layer db h =
      elim (Option-cases (find (is_node asset_id layer) db.nodes)) [
        | inl e ↦ rw e (elim (Option-cases (find (λ (a : Asset). a.id == asset_id) db.assets)) [
          | inl k ↦ rw k h
          | inr (a, k) ↦ rw k (nodes_free db _ _ h)
        ])
        | inr (n, e) ↦ rw e h
      ]

  -- both nodes, and then the edge
  both_nodes-keeps :
      (asset_a asset_b : ℕ) (layer : String) (write : ℕ → ℕ → Linking Outcome) (db : TopologyDb)
      → ((a b : ℕ) (s : TopologyDb) → P s → P (write a b s).1)
      → P db
      → P ((ensure_node asset_a layer >>= λ a. ensure_node asset_b layer >>= λ b. write a b) db).1
  both_nodes-keeps asset_a asset_b layer write db writes h =
      let first = ensure_node asset_a layer db in
      let k = ensure_node-keeps asset_a layer db h in
      continue-keeps P Any first.0 (λ a. ensure_node asset_b layer >>= λ b. write a b) first.1 k
        (Hands-Any first.0)
        (λ a _.
          let second = ensure_node asset_b layer first.1 in
          let l = ensure_node-keeps asset_b layer first.1 k in
          continue-keeps P Any second.0 (λ b. write a b) second.1 l (Hands-Any second.0)
            (λ b _. writes a b second.1 l))

  pub link_ethernet-keeps :
      (d : Link)
      → ((a b : ℕ) (s : TopologyDb)
          → P s
          → P (write_ethernet d a b (find (joins "physical" a b) s.edges) s).1)
      → (db : TopologyDb) → P db
      → P (link_ethernet d db).1
  unfolding link_ethernet ensure_node
  link_ethernet-keeps d writes db h =
      found-keeps P (asset_named d.source db) skipped _ db h λ source _.
        found-keeps P (asset_named d.target db) skipped _ db h λ target _.
          both_nodes-keeps source.id target.id "physical"
            (λ a b. gets (λ s. find (joins "physical" a b) s.edges) >>= write_ethernet d a b) db
            writes h

  pub link_san-keeps :
      (d : Link) (layer : String)
      → ((a b : ℕ) (s : TopologyDb)
          → P s
          → P (write_san d layer a b (find (joins layer a b) s.edges) s).1)
      → (db : TopologyDb) → P db
      → P (link_san d layer db).1
  unfolding link_san ensure_node
  link_san-keeps d layer writes db h =
      found-keeps P (asset_named d.source db) skipped _ db h λ source _.
        found-keeps P (asset_named d.target db) skipped _ db h λ target _.
          both_nodes-keeps source.id target.id layer
            (λ a b. gets (λ s. find (joins layer a b) s.edges) >>= write_san d layer a b) db writes
            h

-- one edge written
pub write_ethernet-IsSimple :
    (d : Link) (a b : ℕ) (db : TopologyDb)
    → IsSimple db
    → IsSimple (write_ethernet d a b (find (joins "physical" a b) db.edges) db).1
write_ethernet-IsSimple d a b db h = elim (Option-cases (find (joins "physical" a b) db.edges)) [
  | inl e ↦ rw e (IsSimple-insert db "physical" a b "ethernet" "auto_arp" d e h)
  | inr (x, e) ↦ rw e (elim (Bool-cases (str_eq x.method "auto_lldp")) [
    | inl k ↦ rw k h
    | inr k ↦
        let hit = find-eq_some (joins "physical" a b) db.edges e in
        rw k (
          IsSimple-update (by_arp d) (joins "physical" a b) x (λ y. (refl, refl, refl, refl, refl))
            (ground arith) db e h)
  ])
]

pub write_san-IsSimple :
    (d : Link) (layer : String) (a b : ℕ) (db : TopologyDb)
    → IsSimple db
    → IsSimple (write_san d layer a b (find (joins layer a b) db.edges) db).1
write_san-IsSimple d layer a b db h = elim (Option-cases (find (joins layer a b) db.edges)) [
  | inl e ↦ rw e (IsSimple-insert db layer a b "fc" "auto_wwn" d e h)
  | inr (x, e) ↦
      let hit = find-eq_some (joins layer a b) db.edges e in
      rw e (
        IsSimple-update (by_wwn d) (joins layer a b) x (λ y. (refl, refl, refl, refl, refl))
          (ground arith) db e h)
]
