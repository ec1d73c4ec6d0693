-- ===== src/Parser/Csv.antt =====
-- parseCsvMac and parseCsvWwn of web/src/lib/mac-parser.ts.
use Prim.Native.Char.{Char}
use go_digi.Prelude.{
  String, Bool, ◌||◌, Option, none, some, List, [], ◌∷◌, map, any, select, if◌then◌else◌, is_some,
}
use go_digi.Prelude.Int.{ℤ, is_zero_ℤ}
use go_digi.Prelude.Text.{parse_int}
use go_digi.Prelude.Words.{lower, trim, lines, split_on}
use go_digi.Prelude.Regex.{either, text_i, is_char, search}
use go_digi.Parser.{MacEntry, WwnEntry, normalize_mac, usable_entry, collect, is_filled}

abbrev is_separator : Char → Bool
is_separator c = is_char b',' c || is_char 9 c

unfoldable pub columns : String → List String
unfolding split_on trim
columns line = map trim (split_on is_separator line)

-- the lines that are not blank
unfoldable pub filled_lines : String → List String
unfolding lines trim
filled_lines text = select (λ l. is_filled (trim l)) (lines text)

unfoldable pub is_mac_header : String → Bool
unfolding search columns
is_mac_header line =
    any (λ c. is_some (search (either (text_i "mac") (text_i "address")) c)) (columns line)

unfoldable pub is_wwn_header : String → Bool
unfolding search columns
is_wwn_header line =
    any (λ c. is_some (search (either (text_i "wwn") (text_i "port")) c)) (columns line)

-- only the first line is taken for a header
abbrev pub drop_header : (String → Bool) → List String → List String
drop_header is_header [] = []
drop_header is_header (l ∷ ls) = if is_header l then ls else l ∷ ls

-- a number that is not one, or 0, is no number
abbrev number_or_none : Option ℤ → Option ℤ
number_or_none none = none
number_or_none (some n) = if is_zero_ℤ n then none else some n

abbrev vlan_column : List String → Option ℤ
vlan_column [] = none
vlan_column (v ∷ rest) = if is_filled v then number_or_none (parse_int v) else none

abbrev type_or : String → String → String
type_or default t = if is_filled t then t else default

abbrev type_column : List String → String
type_column (v ∷ t ∷ rest) = type_or "dynamic" (lower t)
type_column _ = "dynamic"

abbrev pub mac_columns : List String → Option MacEntry
mac_columns (mac ∷ port ∷ rest) =
    usable_entry (normalize_mac mac) port (vlan_column rest) (type_column rest)
mac_columns _ = none

unfoldable pub mac_row : String → Option MacEntry
unfolding columns
mac_row line = mac_columns (columns line)

unfoldable pub parse_csv_mac : String → List MacEntry
unfolding mac_row is_mac_header filled_lines
parse_csv_mac text = collect mac_row (drop_header is_mac_header (filled_lines text))

abbrev wwn_type_column : List String → String
wwn_type_column [] = "switch_port"
wwn_type_column (t ∷ rest) = type_or "switch_port" (lower t)

-- any text is taken for an address
abbrev wwn_columns : List String → Option WwnEntry
wwn_columns (wwn ∷ port ∷ rest) =
    some (record { wwn = lower wwn; port_name = port; wwn_type = wwn_type_column rest })
wwn_columns _ = none

unfoldable pub wwn_row : String → Option WwnEntry
unfolding columns lower
wwn_row line = wwn_columns (columns line)

unfoldable pub parse_csv_wwn : String → List WwnEntry
unfolding wwn_row is_wwn_header filled_lines
parse_csv_wwn text = collect wwn_row (drop_header is_wwn_header (filled_lines text))
