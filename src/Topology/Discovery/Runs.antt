-- ===== src/Topology/Discovery/Runs.antt =====
-- What a run of the discovery keeps, and what a dry run does.
use go_digi.Prelude.{
  ℕ, ◌≡◌, refl, ap, ◌∙◌, String, Bool, true, false, List, [], ◌∷◌, Bool-cases, inl, inr,
  if◌then◌else◌, length, suc, sym, Option, none, some,
}
use go_digi.Http.{run}
use go_digi.Topology.{
  Outcome, skipped, kept, updated, inserted, Link, Node, TopologyDb, link_ethernet, link_san,
}
use go_digi.Topology.Discovery.{
  tally_ethernet, Result, nothing_found, write_ethernet_links, write_san_links, discover_ethernet,
  discover_san, run_discovery, in_scope,
}
use go_digi.Topology.Links.{ethernet_links, san_links}
use go_digi.Topology.Discovery.Simple.{
  IsSimple, link_ethernet-keeps, link_san-keeps, write_ethernet-IsSimple, write_san-IsSimple,
}

pub nodes-IsSimple :
    (s : TopologyDb) (ns : List Node) (n : ℕ)
    → IsSimple s
    → IsSimple (record s { nodes = ns; next_node = n })
nodes-IsSimple s ns n h = record { below = h.below; apart = h.apart }

ethernet_links-IsSimple :
    (ds : List Link) (db : TopologyDb) → IsSimple db → IsSimple (write_ethernet_links ds db).1
unfolding write_ethernet_links
ethernet_links-IsSimple [] db h = h
ethernet_links-IsSimple (d ∷ ds) db h =
    ethernet_links-IsSimple ds (link_ethernet d db).1
      (link_ethernet-keeps IsSimple nodes-IsSimple d (write_ethernet-IsSimple d) db h)

san_links-IsSimple :
    (ds : List Link) (db : TopologyDb) → IsSimple db → IsSimple (write_san_links ds db).1
unfolding write_san_links
san_links-IsSimple [] db h = h
san_links-IsSimple (d ∷ ds) db h =
    let both = link_san d "physical" db in
    let kept =
      link_san-keeps IsSimple nodes-IsSimple d "physical" (write_san-IsSimple d "physical") db h in
    san_links-IsSimple ds (link_san d "san" both.1).1
      (link_san-keeps IsSimple nodes-IsSimple d "san" (write_san-IsSimple d "san") both.1 kept)

discover_ethernet-IsSimple :
    (dry : Bool) (db : TopologyDb) → IsSimple db → IsSimple (discover_ethernet dry db).1
unfolding discover_ethernet
discover_ethernet-IsSimple true db h = h
discover_ethernet-IsSimple false db h = ethernet_links-IsSimple (ethernet_links db) db h

discover_san-IsSimple :
    (dry : Bool) (db : TopologyDb) → IsSimple db → IsSimple (discover_san dry db).1
unfolding discover_san
discover_san-IsSimple true db h = h
discover_san-IsSimple false db h = san_links-IsSimple (san_links db) db h

-- a part that is in the scope or left out
part-IsSimple :
    (within : Bool) (r : Result × TopologyDb) (db : TopologyDb)
    → IsSimple r.1
    → IsSimple db
    → IsSimple (if within then r else (nothing_found, db)).1
part-IsSimple true r db h k = h
part-IsSimple false r db h k = k

both-IsSimple :
    (scope : String) (dry : Bool) (db : TopologyDb)
    → IsSimple db
    → (let (ethernet, db') =
          if in_scope scope "ethernet" then discover_ethernet dry db else (nothing_found, db) in
        IsSimple (if in_scope scope "san" then discover_san dry db' else (nothing_found, db')).1)
both-IsSimple scope dry db h =
    let first =
      part-IsSimple (in_scope scope "ethernet") (discover_ethernet dry db) db
        (discover_ethernet-IsSimple dry db h) h in
    part-IsSimple (in_scope scope "san") _ _ (discover_san-IsSimple dry _ first) first

-- A run of the discovery, dry or not and of any scope, keeps that edges have different ids below
-- the next one and that no two active edges of one layer join the same two nodes, in either
-- direction.
pub run_discovery-IsSimple :
    (scope : String) (dry_run : Bool) (db : TopologyDb)
    → IsSimple db
    → IsSimple (run_discovery scope dry_run db).1
unfolding run_discovery
run_discovery-IsSimple scope true db h = both-IsSimple scope true db h
run_discovery-IsSimple scope false db h =
    let k = both-IsSimple scope false db h in record { below = k.below; apart = k.apart }

tally-length :
    (o : Option Outcome) (d : Link) (r : Result)
    → length (tally_ethernet o d r).discoveries ≡ suc (length r.discoveries)
tally-length none d r = refl
tally-length (some skipped) d r = refl
tally-length (some kept) d r = refl
tally-length (some updated) d r = refl
tally-length (some inserted) d r = refl

length-write :
    (ds : List Link) (db : TopologyDb)
    → length (write_ethernet_links ds db).0.discoveries ≡ length ds
unfolding write_ethernet_links
length-write [] db = refl
length-write (d ∷ ds) db =
    let (outcome, db') = run (link_ethernet d) db in
    tally-length outcome d (write_ethernet_links ds db').0 ∙ ap suc (length-write ds db')

-- A dry run changes nothing, and answers with as many links of addresses as the same run that
-- writes them.
pub run_discovery-dry :
    (scope : String) (db : TopologyDb)
    → ((run_discovery scope true db).1 ≡ db)
      × (length (run_discovery scope true db).0.0.discoveries
          ≡ length (run_discovery scope false db).0.0.discoveries)
unfolding run_discovery discover_ethernet discover_san
run_discovery-dry scope db = elim (Bool-cases (in_scope scope "ethernet")) [
  | inl e ↦ rw e (elim (Bool-cases (in_scope scope "san")) [
    | inl k ↦ rw k (refl, sym (length-write (ethernet_links db) db))
    | inr k ↦ rw k (refl, sym (length-write (ethernet_links db) db))
  ])
  | inr e ↦ rw e (elim (Bool-cases (in_scope scope "san")) [
    | inl k ↦ rw k (refl, refl)
    | inr k ↦ rw k (refl, refl)
  ])
]
