-- ===== src/Topology/Tables/Tests.antt =====
-- A table that is stored, with one key written twice, and one with an address that is not one.
use go_digi.Prelude.{
  String, ◌≡◌, refl, true, false, Option, none, some, [], ◌∷◌, str_eq, if◌then◌else◌,
}
use go_digi.Prelude.Int.{pos}
use go_digi.Monitor.{Asset}
use go_digi.Topology.{TopologyDb}
use go_digi.Topology.Tables.{
  TableEntry, stored, refused, post_device_table, post_wwn_table, delete_device_table,
}
use go_digi.Topology.Tables.View.{view, start}
use go_digi.Topology.Tables.Refinement.{Promised, post_device_table-Promised}

abbrev switch : Asset
switch = record {
  id = 3;
  name = "sw";
  hostname = none;
  ip_text = none;
  type = "network";
  status = "online";
  is_active = true;
  last_seen = none;
}

abbrev empty_db : TopologyDb
empty_db = record {
  assets = switch ∷ [];
  mac_addresses = [];
  device_macs = [];
  wwns = [];
  nodes = [];
  edges = [];
  logs = [];
  next_node = 1;
  next_edge = 1;
}

abbrev entry : String → String → TableEntry
entry mac port = record { mac = mac; port = port; vlan = some (pos 7); type = none }

abbrev to_macaddr : String → Option String
to_macaddr s = if str_eq s "broken" then none else some s

stored_example :
    (post_device_table to_macaddr 3
      (entry "aa" "p1" ∷ entry "aa" "p1" ∷ entry "aa" "" ∷ entry "aa" "" ∷ [])
      true
      empty_db).0
    ≡ stored 3 1
unfolding post_device_table
stored_example = refl

-- what stands before the entry that cannot be read has been stored
partial_example :
    (post_device_table to_macaddr 3 (entry "aa" "p1" ∷ entry "broken" "p2" ∷ []) true empty_db).0
    ≡ refused 500 "Internal Server Error"
unfolding post_device_table
partial_example = refl

post_device_table-Promised_example :
    Promised to_macaddr 3
      (view empty_db)
      (start true 3 (view empty_db))
      (entry "aa" "p1" ∷ [])
      (post_device_table to_macaddr 3 (entry "aa" "p1" ∷ []) true empty_db)
post_device_table-Promised_example =
    post_device_table-Promised to_macaddr 3 (entry "aa" "p1" ∷ []) true empty_db

wwn_example :
    (post_wwn_table 3
      (record { wwn = "20:00"; port_name = none; wwn_type = "hba" }
        ∷ record { wwn = "20:00"; port_name = some "port1"; wwn_type = "target" }
        ∷ [])
      false
      empty_db).0
    ≡ stored 1 1
unfolding post_wwn_table
wwn_example = refl

abbrev switchshow : String
switchshow = " 0   0   010000   id    N4    Online      FC  F-Port  20:00:00:25:b5:a1:00:01"

delete_example : (delete_device_table (some "x") empty_db).0 ≡ refused 500 "Internal Server Error"
unfolding delete_device_table
delete_example = refl
