-- ===== src/Parser/RoundTrip.antt =====
-- A table of Cisco's `show mac address-table`, written row by row, and what parseCiscoMac of
-- web/src/lib/mac-parser.ts reads from it.
use Prim.Native.String.{[], ◌∷◌}
use Prim.Native.String.append
use go_digi.Prelude
use go_digi.Prelude.{
  ap, ℕ, String, Bool, true, false, ◌≡◌, refl, arith, Option, some, none, List, ◌++◌, single,
  str_eq, ◌==◌, if◌then◌else◌, All,
}
use go_digi.Prelude.Text.{◌+++◌, text_length, parse_int}
use go_digi.Prelude.Words.{lower, split_on-append, keep, keep-append, keep_all, text_length-lower}
use go_digi.Prelude.Regex.{is_hex, match_here}
use go_digi.Prelude.Regex.Runs.{match_here-Takes, text_length-append}
use go_digi.Parser.{MacEntry, usable_entry, normalize_mac, collect, push_entry, colons}
use go_digi.Parser.Vendors.{cisco_mac_regex, cisco_mac_line, parse_cisco_mac}
use go_digi.Parser.Rows.{Row, IsRow, dotted, show_row, row_groups, Takes-row}

-- the digits of the address, with no dots
abbrev pub digits : Row → String
digits r = r.first +++ (r.second +++ r.third)

-- what a row says
abbrev pub row_entry : Row → Option MacEntry
row_entry r =
    usable_entry (colons (lower (digits r))) r.port (parse_int r.vlan)
      (if str_eq (lower r.kind) "static" then "static" else "dynamic")

keep-dot : (s : String) → keep is_hex ("." +++ s) ≡ keep is_hex s
unfolding keep
keep-dot s = rw (append.cons "." [] s, append.nil s) refl

keep-dotted : (r : Row) → IsRow r → keep is_hex (dotted r) ≡ digits r
keep-dotted r h =
    rw
      (
        keep-append,
        keep-dot,
        keep-append,
        keep-dot,
        keep_all is_hex r.first h.first.1,
        keep_all is_hex r.second h.second.1,
        keep_all is_hex r.third h.third.1,
      )
      refl

normalize_mac-dotted : (r : Row) → IsRow r → normalize_mac (dotted r) ≡ colons (lower (digits r))
unfolding normalize_mac
normalize_mac-dotted r h =
    let twelve : text_length (lower (digits r)) ≡ 12 = omega (
      arith,
      text_length-lower (digits r),
      text_length-append r.first (r.second +++ r.third),
      text_length-append r.second r.third,
      h.first.0,
      h.second.0,
      h.third.0,
    ) in
    rw (keep-dotted r h, twelve) refl

cisco_mac_line-row : (r : Row) → IsRow r → cisco_mac_line (show_row r +++ r.rest) ≡ row_entry r
unfolding cisco_mac_line
cisco_mac_line-row r h =
    rw (match_here-Takes cisco_mac_regex (show_row r) r.rest (row_groups r) (Takes-row r h))
      (rw (normalize_mac-dotted r h) refl)

abbrev pub show_table : List Row → String
show_table Prelude.[] = ""
show_table (Prelude.◌∷◌ r rs) = (show_row r +++ r.rest) +++ ("\n" ∷ show_table rs)

-- From a table of rows, each with a number, white space, an address of three dotted groups of
-- four digits, a word and a port, on a line of its own, parseCiscoMac reads every row in order:
-- its address in normal form, its number, its port and whether it is static, and leaves out
-- exactly the rows whose address is not usable.
pub parse_cisco_mac-show_table :
    (rows : List Row) → All IsRow rows → parse_cisco_mac (show_table rows) ≡ collect row_entry rows
unfolding parse_cisco_mac
parse_cisco_mac-show_table Prelude.[] h = unfold cisco_mac_line match_here cisco_mac_regex in refl
parse_cisco_mac-show_table (Prelude.◌∷◌ r rs) (h, hs) =
    let ih = parse_cisco_mac-show_table rs hs in
    rw (split_on-append _ (show_row r +++ r.rest) "\n" (show_table rs) h.one_line refl)
      (rw (cisco_mac_line-row r h) (ap (push_entry (row_entry r)) ih))
