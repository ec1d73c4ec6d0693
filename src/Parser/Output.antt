-- ===== src/Parser/Output.antt =====
-- parseDeviceOutput of web/src/lib/mac-parser.ts, and POST of
-- web/src/app/api/topology/discover/parse/route.ts.
use go_digi.Prelude.{
  ℕ, String, Bool, true, false, ◌||◌, Option, none, some, List, [], ◌∷◌, ◌++◌, if◌then◌else◌,
  is_some, or_else,
}
use go_digi.Prelude.Text.{includes}
use go_digi.Prelude.Words.{lines, trim}
use go_digi.Prelude.Regex.{Regex, one, either, times, text_i, spaces, is_char, search}
use go_digi.Parser.{
  MacEntry, WwnEntry, Vendor, cisco, juniper, fortigate, brocade, auto, ParseType, mac_table,
  arp_table, wwn_table, detect_vendor, is_filled, ◌⨾◌, hex,
}
use go_digi.Parser.Vendors.{
  parse_cisco_mac, parse_cisco_arp, parse_juniper_mac, parse_juniper_arp, parse_fortigate_mac,
}
use go_digi.Parser.Brocade.{parse_brocade_switchshow, parse_brocade_nsshow}
use go_digi.Parser.Csv.{parse_csv_mac, parse_csv_wwn}

pub record ParseResult : Type 0 where
  pub vendor_detected : String
  pub type_detected : ParseType
  pub mac_entries : Option (List MacEntry)
  pub wwn_entries : Option (List WwnEntry)

-- an `auto` that stays is reported as `unknown`
abbrev pub vendor_name : Vendor → String
vendor_name cisco = "cisco"
vendor_name juniper = "juniper"
vendor_name fortigate = "fortigate"
vendor_name brocade = "brocade"
vendor_name auto = "unknown"

abbrev resolve_vendor : Vendor → Vendor → Vendor
resolve_vendor auto detected = detected
resolve_vendor v detected = v

abbrev pub is_brocade : Vendor → Bool
is_brocade brocade = true
is_brocade _ = false

-- /switchshow|nsshow|([0-9a-f]{2}:){7}[0-9a-f]{2}/i; what the group captures is not used
unfoldable pub wwn_hint : Regex
wwn_hint =
    either (text_i "switchshow")
      (either (text_i "nsshow") (times 7 (hex ⨾ hex ⨾ one (is_char b':')) ⨾ hex ⨾ hex))

unfoldable pub arp_hint : Regex
arp_hint =
    either (text_i "show" ⨾ spaces ⨾ text_i "arp")
      (text_i "get" ⨾ spaces ⨾ text_i "system" ⨾ spaces ⨾ text_i "arp")

-- a table of addresses may turn out to be one of WWNs, or of ARP
abbrev pub type_of : ParseType → Bool → Bool → ParseType
type_of mac_table wwn arp = if wwn then wwn_table else if arp then arp_table else mac_table
type_of t wwn arp = t

unfoldable pub detect_type : String → Vendor → ParseType → ParseType
unfolding search wwn_hint arp_hint
detect_type text vendor type =
    type_of type (is_brocade vendor || is_some (search wwn_hint text))
      (is_some (search arp_hint text))

abbrev first_line : List String → String
first_line [] = ""
first_line (l ∷ ls) = l

unfoldable pub is_csv : String → Bool
unfolding lines
is_csv text = includes "," (first_line (lines text)) || includes "\t" (first_line (lines text))

-- the first of two lists that is not empty
abbrev pub or_parse : List MacEntry → List MacEntry → List MacEntry
or_parse [] ys = ys
or_parse (x ∷ xs) ys = x ∷ xs

abbrev pub try_all : String → List MacEntry
try_all text =
    or_parse (parse_cisco_mac text)
      (or_parse (parse_juniper_mac text) (or_parse (parse_fortigate_mac text) (parse_csv_mac text)))

abbrev pub mac_text : Vendor → ParseType → String → List MacEntry
mac_text cisco arp_table text = parse_cisco_arp text
mac_text cisco _ text = parse_cisco_mac text
mac_text juniper arp_table text = parse_juniper_arp text
mac_text juniper _ text = parse_juniper_mac text
mac_text fortigate _ text = parse_fortigate_mac text
mac_text brocade _ text = try_all text
mac_text auto _ text = try_all text

abbrev wwn_text : Vendor → String → List WwnEntry
wwn_text brocade text = parse_brocade_switchshow text ++ parse_brocade_nsshow text
wwn_text _ text = parse_csv_wwn text

abbrev pub parse_as : String → Vendor → ParseType → ParseResult
parse_as text vendor wwn_table = record {
  vendor_detected = vendor_name vendor;
  type_detected = wwn_table;
  mac_entries = none;
  wwn_entries = some (if is_csv text then parse_csv_wwn text else wwn_text vendor text);
}
parse_as text vendor type = record {
  vendor_detected = vendor_name vendor;
  type_detected = type;
  mac_entries = some (if is_csv text then parse_csv_mac text else mac_text vendor type text);
  wwn_entries = none;
}

unfoldable pub parse_device_output : String → Vendor → ParseType → ParseResult
unfolding detect_vendor detect_type is_csv parse_csv_mac parse_csv_wwn parse_cisco_mac
    parse_cisco_arp parse_juniper_mac parse_juniper_arp parse_fortigate_mac parse_brocade_switchshow
    parse_brocade_nsshow
parse_device_output text vendor type =
    let v = resolve_vendor vendor (detect_vendor text) in parse_as text v (detect_type text v type)

-- the body of POST: a form with a file, JSON, or one that cannot be read
pub data Body : Type 0 where
  form : (file : Option String) → (vendor : Option Vendor) → (type : Option ParseType) → Body
  json : (text : Option String) → (vendor : Option Vendor) → (type : Option ParseType) → Body
  unreadable : Body

pub data Entries : Type 0 where
  of_macs : List MacEntry → Entries
  of_wwns : List WwnEntry → Entries

pub data ParseReply : Type 0 where
  parsed : (vendor_detected : String) → ParseType → Entries → ParseReply
  refused : (status : ℕ) → (message : String) → ParseReply

-- result.wwn_entries ?? result.mac_entries ?? []
abbrev entries_of : Option (List WwnEntry) → Option (List MacEntry) → Entries
entries_of (some ws) ms = of_wwns ws
entries_of none (some ms) = of_macs ms
entries_of none none = of_macs []

abbrev reply_with : ParseResult → ParseReply
reply_with r = parsed r.vendor_detected r.type_detected (entries_of r.wwn_entries r.mac_entries)

abbrev parse_text : String → Option Vendor → Option ParseType → ParseReply
parse_text text vendor type =
    if is_filled (trim text)
    then reply_with (parse_device_output text (or_else vendor auto) (or_else type mac_table))
    else refused 400 "empty input"

-- POST
unfoldable pub parse_request : Body → ParseReply
unfolding trim parse_device_output
parse_request (form none vendor type) = refused 400 "file required"
parse_request (form (some text) vendor type) = parse_text text vendor type
parse_request (json none vendor type) = refused 400 "empty input"
parse_request (json (some text) vendor type) = parse_text text vendor type
parse_request unreadable = refused 500 "Internal Server Error"
