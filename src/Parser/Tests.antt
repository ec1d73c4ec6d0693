-- ===== src/Parser/Tests.antt =====
-- Tables as the devices print them, and what the parser makes of them.
use go_digi.Prelude.{◌↔◌, All, or_else, arith, String, ◌≡◌, refl, Option, some, none, [], ◌∷◌}
use go_digi.Prelude.Int.{ℤ, pos}
use go_digi.Prelude.Text.{parse_int, ◌+++◌}
use go_digi.Parser.{
  cisco, MacEntry, WwnEntry, auto, colons, collect, mac_table, arp_table, wwn_table, is_usable_mac,
  normalize_mac,
}
use go_digi.Parser.Rows.{Row, IsRow}
use go_digi.Parser.RoundTrip.{show_table, row_entry, parse_cisco_mac-show_table}
use go_digi.Parser.Usable.{IsUsable, parse_device_output-IsUsable}
use go_digi.Parser.Normal.{normalize_mac-normalize_mac}
use go_digi.Prelude.Words.{lower}
use go_digi.Parser.Detection.{IsWwnText, HasArp, detect_type_iff}
use go_digi.Parser.Brocade.{nsshow_entry}
use go_digi.Parser.Vendors.{parse_cisco_mac, strip_unit}
use go_digi.Parser.Output.{
  detect_type, parse_device_output, parsed, refused, of_macs, of_wwns, json, form, parse_request,
}

abbrev entry : String → String → Option ℤ → String → MacEntry
entry mac port vlan type = record { mac = mac; port = port; vlan = vlan; type = type }

abbrev wwn_entry : String → String → String → WwnEntry
wwn_entry wwn port type = record { wwn = wwn; port_name = port; wwn_type = type }

-- a multicast address is left out
abbrev cisco_table : String
cisco_table =
    "Vlan    Mac Address       Type        Ports\n"
    +++ "   1    0050.56A1.0110    DYNAMIC     Gi0/3\n"
    +++ "  10    0100.5e00.0001    STATIC      CPU\n"
    +++ "  20    0050.56a1.0111    STATIC      Gi0/4\n"

cisco_example :
    parse_request (json (some cisco_table) none none)
    ≡ parsed "cisco" mac_table (
        of_macs (
          entry "00:50:56:a1:01:10" "Gi0/3" (some (pos 1)) "dynamic"
          ∷ entry "00:50:56:a1:01:11" "Gi0/4" (some (pos 20)) "static"
          ∷ []))
unfolding parse_request is_usable_mac normalize_mac parse_int strip_unit
cisco_example = refl

abbrev juniper_table : String
juniper_table =
    "Routing instance : default-switch\n" +++ "default-switch  00:50:56:a1:01:10 D  -  ge-0/0/3.0\n"
    +++ "                00:50:56:a1:01:11 S  10  ge-0/0/4.15\n"

juniper_example :
    parse_request (form (some juniper_table) none none)
    ≡ parsed "juniper" mac_table (
        of_macs (
          entry "00:50:56:a1:01:10" "ge-0/0/3" none "dynamic"
          ∷ entry "00:50:56:a1:01:11" "ge-0/0/4" (some (pos 10)) "static"
          ∷ []))
unfolding parse_request is_usable_mac normalize_mac parse_int strip_unit
juniper_example = refl

abbrev switch_table : String
switch_table =
    "switchName: fc1\n" +++ "Index Port Address Media Speed State Proto\n"
    +++ " 0   0   010000   id    N4    Online      FC  F-Port  20:00:00:25:B5:a1:00:01\n"
    +++ " 1   1   010100   id    N4    No_Light    FC\n" +++ "Port Index: 7\n"
    +++ " Port Name: 50:00:00:25:b5:a1:00:02 (target)\n"

brocade_example :
    parse_request (json (some switch_table) none none)
    ≡ parsed "brocade" wwn_table (
        of_wwns (
          wwn_entry "20:00:00:25:b5:a1:00:01" "port0" "switch_port"
          ∷ wwn_entry "50:00:00:25:b5:a1:00:02" "port7" "target"
          ∷ []))
unfolding parse_request nsshow_entry
brocade_example = refl

abbrev csv_table : String
csv_table =
    "mac,port,vlan,type\n" +++ "00-50-56-A1-01-10, Gi0/3 ,12,Static\n"
    +++ "00-50-56-A1-01-11,Gi0/4,0\n" +++ "broken,Gi0/5\n"

csv_example :
    parse_request (json (some csv_table) none none)
    ≡ parsed "unknown" mac_table (
        of_macs (
          entry "00:50:56:a1:01:10" "Gi0/3" (some (pos 12)) "static"
          ∷ entry "00:50:56:a1:01:11" "Gi0/4" none "dynamic"
          ∷ []))
unfolding parse_request is_usable_mac normalize_mac parse_int strip_unit
csv_example = refl

-- `show arp` of Cisco has the heading `Hardware Addr`, is taken for FortiGate's, and gives nothing.
abbrev cisco_arp : String
cisco_arp =
    "Protocol  Address          Age (min)  Hardware Addr   Type   Interface\n"
    +++ "Internet  192.168.1.10            5   0050.56a1.0110  ARPA   GigabitEthernet0/3\n"

cisco_arp_example :
    parse_request (json (some cisco_arp) none (some arp_table))
    ≡ parsed "fortigate" arp_table (of_macs [])
unfolding parse_request is_usable_mac normalize_mac
cisco_arp_example = refl

blank_example : parse_request (json (some " \n") none none) ≡ refused 400 "empty input"
unfolding parse_request nsshow_entry
blank_example = refl

abbrev row : Row
row = record {
  pad = " ";
  vlan = "12";
  gap = "  ";
  first = "0050";
  second = "56A1";
  third = "0110";
  gap_2 = " ";
  kind = "STATIC";
  gap_3 = " ";
  port = "Gi0/3";
  rest = "\r";
}

row-IsRow : IsRow row
row-IsRow = record {
  pad = ground arith;
  vlan = ground arith;
  gap = ground arith;
  first = ground arith;
  second = ground arith;
  third = ground arith;
  gap_2 = ground arith;
  kind = ground arith;
  gap_3 = ground arith;
  port = ground arith;
  rest = ground arith;
  one_line = ground arith;
}

show_table_example :
    parse_cisco_mac (show_table (row ∷ row ∷ [])) ≡ collect row_entry (row ∷ row ∷ [])
show_table_example = parse_cisco_mac-show_table (row ∷ row ∷ []) (row-IsRow, (row-IsRow, tt))

row_entry_example :
    row_entry row ≡ some (entry "00:50:56:a1:01:10" "Gi0/3" (some (pos 12)) "static")
unfolding is_usable_mac parse_int colons lower
row_entry_example = refl

parse_device_output-IsUsable_example :
    All IsUsable (or_else (parse_device_output cisco_table auto mac_table).mac_entries [])
parse_device_output-IsUsable_example = parse_device_output-IsUsable cisco_table auto mac_table

normalize_example : normalize_mac (normalize_mac "0050.56A1.0110") ≡ normalize_mac "0050.56A1.0110"
normalize_example = normalize_mac-normalize_mac "0050.56A1.0110"

detect_type_example :
    ((detect_type cisco_table cisco mac_table ≡ wwn_table) ↔ IsWwnText cisco cisco_table)
    × ((detect_type cisco_table cisco mac_table ≡ arp_table)
        ↔ ((¬ IsWwnText cisco cisco_table) × HasArp cisco_table))
detect_type_example = detect_type_iff cisco_table cisco
