-- ===== src/Topology/Neighbors/Edges.antt =====
-- The edge that web/src/app/api/topology/lldp/route.ts writes; it looks in one direction only.
use mathlib.Core.Path.{ap}
use go_digi.Prelude.{
  select, length, suc, Bool, ◌≤◌, true, ◌≡◌, refl, ◌∙◌, true, none, some, List, [], ◌∷◌, ◌++◌,
  arith, ◌==◌, ==_iff, find, find-insert, find-update_where, touch, Option-cases, inl, inr,
}
use mathlib.Core.Option
use go_digi.Http.{ok, run, answer, next}
use go_digi.Monitor.{Asset}
use go_digi.Topology.{Edge, Node, TopologyDb, is_node, joins, update_edge, insert_edge}
use go_digi.Topology.Neighbors.{
  LldpBody, is_called, neighbor_asset, leads, lldp_edge, by_lldp, import_neighbor, upsert_edge,
}

select-append :
    {A : Type 0} (p : A → Bool) (xs : List A) (y : A)
    → p y ≡ true
    → length (select p (xs ++ y ∷ [])) ≡ suc (length (select p xs))
select-append p [] y h = rw h refl
select-append p (x ∷ xs) y h = ground (arith, select-append p xs y h)

select-found :
    {A : Type 0} (p : A → Bool) (xs : List A) (x : A)
    → find p xs ≡ some x
    → 1 ≤ length (select p xs)
select-found p [] x h = cc
select-found p (y ∷ ys) x h = ground (arith, select-found p ys x)

-- both devices are known and have their nodes
module _ (body : LldpBody) (source neighbor : Asset) (a b : Node) (db : TopologyDb)
    (from : find (is_called body.hostname) db.assets ≡ some source)
    (to : neighbor_asset body db ≡ some neighbor)
    (at_a : find (is_node source.id "physical") db.nodes ≡ some a)
    (at_b : find (is_node neighbor.id "physical") db.nodes ≡ some b) where
  import_neighbor-upsert : import_neighbor body db ≡ upsert_edge body a.id b.id db
  unfolding import_neighbor
  import_neighbor-upsert = rw from (rw to (rw at_a (rw at_b refl)))

  -- Where both devices of a report are known and have their nodes, and an active edge joins these
  -- in the physical layer but none leads from the reporting device to the neighbor, the import
  -- answers ok and leaves one more active edge between the nodes in that layer than before, so at
  -- least two.
  pub import_neighbor-twice :
      (e : Edge)
      → find (leads a.id b.id) db.edges ≡ none
      → find (joins "physical" a.id b.id) db.edges ≡ some e
      → ((run (import_neighbor body) db).0 ≡ some ok)
        × (length (select (joins "physical" a.id b.id) (run (import_neighbor body) db).1.edges)
            ≡ suc (length (select (joins "physical" a.id b.id) db.edges)))
        × 2 ≤ length (select (joins "physical" a.id b.id) (run (import_neighbor body) db).1.edges)
  import_neighbor-twice e none_leads joined =
      let new = lldp_edge a.id b.id body db.next_edge in
      let added : upsert_edge body a.id b.id db ≡ (next ok, insert_edge new db) =
        rw none_leads refl in
      let whole = import_neighbor-upsert ∙ added in
      let more =
        ap (λ r. length (select (joins "physical" a.id b.id) r.1.edges)) whole
        ∙ select-append (joins "physical" a.id b.id) db.edges new
            (ground (arith, ==_iff a.id a.id, ==_iff b.id b.id)) in
      let one_before = select-found (joins "physical" a.id b.id) db.edges e joined in
      (ap (λ r. answer r.0) whole, more, omega arith)

  -- After the import of a neighbor, where both devices are known and have their nodes, the first
  -- edge of the physical layer from the node of the reporting device to that of the neighbor is
  -- active, of LLDP and has the ports of the report.
  pub import_neighbor-leads :
      (e : Edge) × (find (leads a.id b.id) (run (import_neighbor body) db).1.edges ≡ some e)
      × (e.method ≡ "auto_lldp")
      × (e.is_active ≡ true)
      × (e.source_port ≡ body.local_port)
      × (e.target_port ≡ body.neighbor_port)
  import_neighbor-leads = elim (Option-cases (find (leads a.id b.id) db.edges)) [
    | inl e ↦
        let added : upsert_edge body a.id b.id db
            ≡ (next ok, insert_edge (lldp_edge a.id b.id body db.next_edge) db) =
          rw e refl in
        (
          lldp_edge a.id b.id body db.next_edge,
          ap (λ r. find (leads a.id b.id) r.1.edges) (import_neighbor-upsert ∙ added)
              ∙ find-insert (leads a.id b.id) db.edges (lldp_edge a.id b.id body db.next_edge) e
              ∙ ground (arith, ==_iff a.id a.id, ==_iff b.id b.id),
          refl,
          refl,
          refl,
          refl,
        )
    | inr (x, e) ↦
        let written : upsert_edge body a.id b.id db
            ≡ (next ok, update_edge x.id (by_lldp body) db) =
          rw e refl in
        (
          by_lldp body x,
          ap (λ r. find (leads a.id b.id) r.1.edges) (import_neighbor-upsert ∙ written)
              ∙ find-update_where (leads a.id b.id) (λ y. y.id == x.id) (by_lldp body) db.edges
                  (λ y. refl)
              ∙ ap (Option.map (touch (λ (y : Edge). y.id == x.id) (by_lldp body))) e
              ∙ ground (arith, ==_iff x.id x.id),
          refl,
          refl,
          refl,
          refl,
        )
  ]
