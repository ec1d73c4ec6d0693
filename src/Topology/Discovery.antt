-- ===== src/Topology/Discovery.antt =====
-- discoverEthernet, discoverSan and POST of web/src/app/api/topology/discover/run/route.ts.
pub mod Simple
pub mod Runs
pub mod Lldp
mod Tests
use Prim.Native.Nat.{lt, eq, gt}
use Prim.Native.String
use go_digi.Prelude.{
  ℕ, suc, ◌+◌, ◌≡◌, String, Bool, true, false, ◌&&◌, ◌||◌, not, Option, none, some, List, [], ◌∷◌,
  ◌++◌, any, select, str_eq, ◌==◌, leb, length, map, or_else, find, if◌then◌else◌,
}
use go_digi.Prelude.Text.{◌+++◌, show}
use go_digi.Http.{Handler, Exit, Response, run, next, reply, throw}
use go_digi.Monitor.{Asset}
use go_digi.Topology.{
  MacAddress, DeviceMac, Wwn, Edge, Link, Outcome, skipped, kept, updated, inserted, Linking,
  DiscoveryLog, TopologyDb, asset_by, link_ethernet, link_san,
}
use go_digi.Topology.Links.{ethernet_links, san_links}

-- what a discovery returns
pub record Result : Type 0 where
  pub edges_created : ℕ
  pub edges_updated : ℕ
  pub discoveries : List Link

abbrev pub nothing_found : Result
nothing_found = record { edges_created = 0; edges_updated = 0; discoveries = [] }

abbrev found_links : List Link → Result
found_links links = record { edges_created = 0; edges_updated = 0; discoveries = links }

-- a link that has its edge already is no longer new
abbrev pub tally_ethernet : Option Outcome → Link → Result → Result
tally_ethernet (some kept) d r = record r {
  discoveries = record d { is_new = false } ∷ r.discoveries;
}
tally_ethernet (some updated) d r = record r {
  edges_updated = suc r.edges_updated;
  discoveries = record d { is_new = false } ∷ r.discoveries;
}
tally_ethernet (some inserted) d r = record r {
  edges_created = suc r.edges_created;
  discoveries = d ∷ r.discoveries;
}
tally_ethernet (some skipped) d r = record r { discoveries = d ∷ r.discoveries }
tally_ethernet none d r = record r { discoveries = d ∷ r.discoveries }

-- only the edges of the layer `san` are counted
abbrev tally_san : Option Outcome → Link → Result → Result
tally_san (some updated) d r = record r {
  edges_updated = suc r.edges_updated;
  discoveries = d ∷ r.discoveries;
}
tally_san (some inserted) d r = record r {
  edges_created = suc r.edges_created;
  discoveries = d ∷ r.discoveries;
}
tally_san (some kept) d r = record r { discoveries = d ∷ r.discoveries }
tally_san (some skipped) d r = record r { discoveries = d ∷ r.discoveries }
tally_san none d r = record r { discoveries = d ∷ r.discoveries }

unfoldable pub write_ethernet_links : List Link → TopologyDb → Result × TopologyDb
write_ethernet_links [] db = (nothing_found, db)
write_ethernet_links (d ∷ ds) db =
    let (outcome, db') = run (link_ethernet d) db in
    let (result, db'') = write_ethernet_links ds db' in (tally_ethernet outcome d result, db'')

unfoldable pub write_san_links : List Link → TopologyDb → Result × TopologyDb
write_san_links [] db = (nothing_found, db)
write_san_links (d ∷ ds) db =
    let (_, db') = run (link_san d "physical") db in
    let (outcome, db'') = run (link_san d "san") db' in
    let (result, db3) = write_san_links ds db'' in (tally_san outcome d result, db3)

unfoldable pub discover_ethernet : Bool → TopologyDb → Result × TopologyDb
unfolding ethernet_links
discover_ethernet dry_run db =
    let links = ethernet_links db in
    if dry_run then (found_links links, db) else write_ethernet_links links db

unfoldable pub discover_san : Bool → TopologyDb → Result × TopologyDb
discover_san dry_run db =
    let links = san_links db in
    if dry_run then (found_links links, db) else write_san_links links db

abbrev pub in_scope : String → String → Bool
in_scope scope part = str_eq scope part || str_eq scope "all"

abbrev log_row : String → Result → Result → DiscoveryLog
log_row scope ethernet san = record {
  discovery_type = scope;
  edges_created = ethernet.edges_created + san.edges_created;
  edges_updated = ethernet.edges_updated + san.edges_updated;
  ethernet = length ethernet.discoveries;
  san = length san.discoveries;
}

-- POST: the scope and the flag are those of the body or `all` and false
unfoldable pub run_discovery : String → Bool → TopologyDb → (Result × Result) × TopologyDb
run_discovery scope dry_run db =
    let (ethernet, db') =
      if in_scope scope "ethernet" then discover_ethernet dry_run db else (nothing_found, db) in
    let (san, db'') =
      if in_scope scope "san" then discover_san dry_run db' else (nothing_found, db') in
    (
      (ethernet, san),
      if dry_run then db'' else record db'' { logs = db''.logs ++ log_row scope ethernet san ∷ [] },
    )
