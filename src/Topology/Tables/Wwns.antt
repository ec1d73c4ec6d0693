-- ===== src/Topology/Tables/Wwns.antt =====
-- Why the table of web/src/app/api/topology/discover/wwn-table/route.ts takes no port of a switch:
-- `switch_port` has eleven characters, and wwn_entries.wwn_type is VARCHAR(10).
use go_digi.Prelude.{Bool, true, ◌||◌, some, ◌≡◌, str_eq, if◌then◌else◌}
use go_digi.Prelude.Words.{is_empty}
use go_digi.Topology.Tables.{WwnInput, TableReply, refused}
use go_digi.Parser.{WwnEntry}

-- the type that the row is given
abbrev pub is_switch_port : WwnInput → Bool
is_switch_port e = is_empty e.wwn_type || str_eq e.wwn_type "switch_port"

abbrev pub failure : TableReply
failure = refused 500 "Internal Server Error"

-- how the page of the discovery hands on what was parsed
abbrev pub to_input : WwnEntry → WwnInput
to_input e = record {
  wwn = e.wwn;
  port_name = some e.port_name;
  wwn_type = if is_empty e.wwn_type then "switch_port" else e.wwn_type;
}

IsPort : WwnEntry → Type 0
IsPort e = is_switch_port (to_input e) ≡ true
