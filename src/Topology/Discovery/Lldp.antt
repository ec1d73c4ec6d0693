-- ===== src/Topology/Discovery/Lldp.antt =====
-- Which edges the discovery of addresses leaves alone.
use mathlib.Core.Path.{sym, ap}
use go_digi.Prelude.{
  ℕ, ◌≡◌, refl, ◌∙◌, Bool, true, false, List, [], ◌∷◌, ◌++◌, All, str_eq, ==_iff, ◌==◌,
  Option-cases, Bool-cases, inl, inr, find, update_where,
}
use go_digi.Topology.{Edge, Link, TopologyDb, link_ethernet, write_ethernet, joins, by_arp}
use go_digi.Topology.Discovery.{write_ethernet_links, discover_ethernet}
use go_digi.Topology.Links.{ethernet_links}
use go_digi.Topology.Discovery.Simple.{
  IsSimple, All-found, link_ethernet-keeps, write_ethernet-IsSimple,
}
use go_digi.Topology.Discovery.Runs.{nodes-IsSimple}

-- the edges of LLDP are where they were, and as they were
abbrev pub Stay : List Edge → List Edge → Type 0
Stay [] es = Unit
Stay (x ∷ xs) [] = ⊥
Stay (x ∷ xs) (y ∷ ys) = (str_eq x.method "auto_lldp" ≡ true → y ≡ x) × Stay xs ys

Stay-refl : (xs : List Edge) → Stay xs xs
Stay-refl [] = tt
Stay-refl (x ∷ xs) = ((λ _. refl), Stay-refl xs)

Stay-append : (xs ys more : List Edge) → Stay xs ys → Stay xs (ys ++ more)
Stay-append [] ys more h = tt
Stay-append (x ∷ xs) [] more h = absurd h
Stay-append (x ∷ xs) (y ∷ ys) more (h, hs) = (h, Stay-append xs ys more hs)

-- an UPDATE of an edge that LLDP did not find
Stay-update :
    (d : Link) (e : Edge) (xs ys : List Edge)
    → str_eq e.method "auto_lldp" ≡ false
    → All (λ (y : Edge). y.id ≡ e.id → y ≡ e) ys
    → Stay xs ys
    → Stay xs (update_where (λ (y : Edge). y.id == e.id) (by_arp d) ys)
Stay-update d e [] ys other only h = tt
Stay-update d e (x ∷ xs) [] other only h = absurd h
Stay-update d e (x ∷ xs) (y ∷ ys) other (o, os) (h, hs) = elim (Bool-cases (y.id == e.id)) [
  | inl t ↦ rw t (
    (λ k.
        let same : x ≡ e = sym (h k) ∙ o ((==_iff y.id e.id).0 t) in
        absurd (clash (sym k ∙ ap (λ (z : Edge). str_eq z.method "auto_lldp") same ∙ other))),
    Stay-update d e xs ys other os hs,
  )
  | inr t ↦ rw t (h, Stay-update d e xs ys other os hs)
]
  where
    clash : true ≡ false → ⊥
    clash k = cc

abbrev Unmoved : List Edge → TopologyDb → Type 0
Unmoved xs s = IsSimple s × Stay xs s.edges

write_ethernet-Stay :
    (xs : List Edge) (d : Link) (a b : ℕ) (db : TopologyDb)
    → Unmoved xs db
    → Unmoved xs (write_ethernet d a b (find (joins "physical" a b) db.edges) db).1
write_ethernet-Stay xs d a b db (simple, h) = (
  write_ethernet-IsSimple d a b db simple,
  elim (Option-cases (find (joins "physical" a b) db.edges)) [
    | inl e ↦ rw e (Stay-append xs db.edges _ h)
    | inr (x, e) ↦ rw e (elim (Bool-cases (str_eq x.method "auto_lldp")) [
      | inl k ↦ rw k h
      | inr k ↦ rw k (
          Stay-update d x xs db.edges k (All-found (joins "physical" a b) db.edges simple.apart e)
            h)
    ])
  ],
)

links-Stay :
    (xs : List Edge) (ds : List Link) (db : TopologyDb)
    → Unmoved xs db
    → Stay xs (write_ethernet_links ds db).1.edges
unfolding write_ethernet_links
links-Stay xs [] db h = h.1
links-Stay xs (d ∷ ds) db h = links-Stay xs ds (link_ethernet d db).1 (
    link_ethernet-keeps (Unmoved xs) (λ s ns n k. (nodes-IsSimple s ns n k.0, k.1)) d
      (write_ethernet-Stay xs d) db h)

-- The discovery of addresses leaves every edge that LLDP found as it is and where it is, given
-- that edges have different ids and no two active ones join the same nodes of a layer.
pub discover_ethernet-Stay :
    (dry_run : Bool) (db : TopologyDb)
    → IsSimple db
    → Stay db.edges (discover_ethernet dry_run db).1.edges
unfolding discover_ethernet
discover_ethernet-Stay true db h = Stay-refl db.edges
discover_ethernet-Stay false db h =
    links-Stay db.edges (ethernet_links db) db (h, Stay-refl db.edges)
