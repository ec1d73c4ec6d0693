-- ===== src/Parser/Vendors.antt =====
-- The parsers of the tables of Cisco, Juniper, FortiGate and Brocade in web/src/lib/mac-parser.ts.
-- Each takes its lines one at a time.
use Prim.Native.Char.{Char}
use go_digi.Prelude.{String, Bool, ◌||◌, Option, none, some, List, str_eq, if◌then◌else◌, is_some}
use go_digi.Prelude.Int.{ℤ}
use go_digi.Prelude.Text.{is_digit, parse_int, is_space}
use go_digi.Prelude.Words.{lower, lines}
use go_digi.Prelude.Regex.{
  Regex, one, many, either, group, absent, at_end, some_of, text, is_char, is_word, is_black,
  spaces, Groups, match_here, search,
}
use go_digi.Parser.{
  MacEntry, normalize_mac, capture, capture_text, usable_entry, collect, is_filled, ◌⨾◌, hex_pairs,
  dotted_mac,
}

-- `\d+`, `\S+`, `\w+`, and the class `[\d.]`
abbrev pub number : Regex
number = some_of is_digit

abbrev pub word : Regex
word = some_of is_black

abbrev is_ip_char : Char → Bool
is_ip_char c = is_digit c || is_char b'.' c

abbrev ip_text : Regex
ip_text = some_of is_ip_char

-- what a line that matches becomes
abbrev pub on_match {ℓ} : {A : Type ℓ} → Option Groups → (Groups → Option A) → Option A
on_match none f = none
on_match (some m) f = f m

unfoldable pub cisco_mac_regex : Regex
cisco_mac_regex =
    many is_space
    ⨾ group number
    ⨾ spaces
    ⨾ group dotted_mac
    ⨾ spaces
    ⨾ group (some_of is_word)
    ⨾ spaces
    ⨾ group word

abbrev cisco_mac_entry : Groups → Option MacEntry
cisco_mac_entry m =
    usable_entry (normalize_mac (capture_text 1 m)) (capture_text 3 m)
      (parse_int (capture_text 0 m))
      (if str_eq (lower (capture_text 2 m)) "static" then "static" else "dynamic")

unfoldable pub cisco_mac_line : String → Option MacEntry
unfolding match_here cisco_mac_regex
cisco_mac_line line = on_match (match_here cisco_mac_regex line) cisco_mac_entry

unfoldable pub parse_cisco_mac : String → List MacEntry
unfolding lines cisco_mac_line
parse_cisco_mac t = collect cisco_mac_line (lines t)

unfoldable pub cisco_arp_regex : Regex
cisco_arp_regex =
    text "Internet"
    ⨾ spaces
    ⨾ ip_text
    ⨾ spaces
    ⨾ word
    ⨾ spaces
    ⨾ group dotted_mac
    ⨾ spaces
    ⨾ some_of is_word
    ⨾ spaces
    ⨾ group word

abbrev cisco_arp_entry : Groups → Option MacEntry
cisco_arp_entry m =
    usable_entry (normalize_mac (capture_text 0 m)) (capture_text 1 m) none "dynamic"

unfoldable pub cisco_arp_line : String → Option MacEntry
unfolding search cisco_arp_regex
cisco_arp_line line = on_match (search cisco_arp_regex line) cisco_arp_entry

unfoldable pub parse_cisco_arp : String → List MacEntry
unfolding lines cisco_arp_line
parse_cisco_arp t = collect cisco_arp_line (lines t)

abbrev unit_regex : Regex
unit_regex = one (is_char b'.') ⨾ number ⨾ at_end

-- port.replace(/\.\d+$/, '')
unfoldable pub strip_unit : String → String
unfolding match_here
strip_unit String.[] = String.[]
strip_unit (String.◌∷◌ c s) =
    let rest = strip_unit s in
    if is_some (match_here unit_regex (String.◌∷◌ c s)) then String.[] else String.◌∷◌ c rest

abbrev is_flag : Char → Bool
is_flag c = is_char b'D' c || is_char b'*' c || is_char b'S' c || is_char b'L' c

unfoldable pub juniper_mac_regex : Regex
juniper_mac_regex =
    group (hex_pairs 5)
    ⨾ spaces
    ⨾ group (one is_flag)
    ⨾ spaces
    ⨾ either (group number) (one (is_char b'-') ⨾ absent)
    ⨾ spaces
    ⨾ group word

abbrev vlan_of : Option String → Option ℤ
vlan_of none = none
vlan_of (some s) = if is_filled s then parse_int s else none

abbrev juniper_mac_entry : Groups → Option MacEntry
juniper_mac_entry m =
    usable_entry (normalize_mac (capture_text 0 m)) (strip_unit (capture_text 3 m))
      (vlan_of (capture 2 m)) (if str_eq (capture_text 1 m) "S" then "static" else "dynamic")

unfoldable pub juniper_mac_line : String → Option MacEntry
unfolding search juniper_mac_regex
juniper_mac_line line = on_match (search juniper_mac_regex line) juniper_mac_entry

unfoldable pub parse_juniper_mac : String → List MacEntry
unfolding lines juniper_mac_line
parse_juniper_mac t = collect juniper_mac_line (lines t)

unfoldable pub juniper_arp_regex : Regex
juniper_arp_regex = group (hex_pairs 5) ⨾ spaces ⨾ ip_text ⨾ spaces ⨾ group word

abbrev juniper_arp_entry : Groups → Option MacEntry
juniper_arp_entry m =
    usable_entry (normalize_mac (capture_text 0 m)) (strip_unit (capture_text 1 m)) none "dynamic"

unfoldable pub juniper_arp_line : String → Option MacEntry
unfolding search juniper_arp_regex
juniper_arp_line line = on_match (search juniper_arp_regex line) juniper_arp_entry

unfoldable pub parse_juniper_arp : String → List MacEntry
unfolding lines juniper_arp_line
parse_juniper_arp t = collect juniper_arp_line (lines t)

unfoldable pub fortigate_regex : Regex
fortigate_regex = ip_text ⨾ spaces ⨾ number ⨾ spaces ⨾ group (hex_pairs 5) ⨾ spaces ⨾ group word

abbrev fortigate_entry : Groups → Option MacEntry
fortigate_entry m =
    usable_entry (normalize_mac (capture_text 0 m)) (capture_text 1 m) none "dynamic"

unfoldable pub fortigate_line : String → Option MacEntry
unfolding search fortigate_regex
fortigate_line line = on_match (search fortigate_regex line) fortigate_entry

unfoldable pub parse_fortigate_mac : String → List MacEntry
unfolding lines fortigate_line
parse_fortigate_mac t = collect fortigate_line (lines t)
