-- ===== src/Parser/Brocade.antt =====
-- The parsers of `switchshow` and `nsshow` of Brocade in web/src/lib/mac-parser.ts.
use go_digi.Prelude.{String, Option, none, some, List, [], ◌∷◌, if◌then◌else◌}
use go_digi.Prelude.Text.{is_space, includes, ◌+++◌}
use go_digi.Prelude.Words.{lower, lines}
use go_digi.Prelude.Regex.{
  Regex, many, either, group, text, text_i, spaces, Groups, match_here, search,
}
use go_digi.Parser.{WwnEntry, capture_text, collect, is_filled, ◌⨾◌, hex_pairs}
use go_digi.Parser.Vendors.{number, word, on_match}

unfoldable pub switchshow_regex : Regex
switchshow_regex =
    many is_space
    ⨾ group number
    ⨾ spaces
    ⨾ number
    ⨾ spaces
    ⨾ word
    ⨾ spaces
    ⨾ word
    ⨾ spaces
    ⨾ word
    ⨾ spaces
    ⨾ text "Online"
    ⨾ spaces
    ⨾ word
    ⨾ spaces
    ⨾ group (word ⨾ text "-Port")
    ⨾ spaces
    ⨾ group (hex_pairs 7)

-- both kinds of port are `switch_port`
abbrev pub switchshow_entry : Groups → Option WwnEntry
switchshow_entry m = some (record {
  wwn = lower (capture_text 2 m);
  port_name = "port" +++ capture_text 0 m;
  wwn_type = if includes "f-port" (lower (capture_text 1 m)) then "switch_port" else "switch_port";
})

unfoldable pub switchshow_line : String → Option WwnEntry
unfolding match_here switchshow_regex
switchshow_line line = on_match (match_here switchshow_regex line) switchshow_entry

unfoldable pub parse_brocade_switchshow : String → List WwnEntry
unfolding lines switchshow_line
parse_brocade_switchshow t = collect switchshow_line (lines t)

unfoldable pub port_regex : Regex
port_regex = text "Port" ⨾ spaces ⨾ text "Index:" ⨾ many is_space ⨾ group number

-- under the flag `i`
unfoldable pub name_regex : Regex
name_regex =
    either (text_i "port") (text_i "node") ⨾ spaces ⨾ text_i "name:" ⨾ spaces ⨾ group (hex_pairs 7)

unfoldable pub nsshow_entry : String → String → Groups → WwnEntry
unfolding lower
nsshow_entry line current_port m = record {
  wwn = lower (capture_text 0 m);
  port_name = current_port;
  wwn_type = if includes "target" (lower line) then "target" else "switch_port";
}

abbrev nsshow_push : String → String → Option Groups → List WwnEntry → List WwnEntry
nsshow_push line current_port none rest = rest
nsshow_push line current_port (some m) rest =
    if is_filled current_port then nsshow_entry line current_port m ∷ rest else rest

-- a line names the port of the lines that follow it, or an address of the port named last
abbrev nsshow_step :
    Option Groups → Option Groups → String → String → (String → List WwnEntry) → List WwnEntry
nsshow_step (some m) named line current_port next = next ("port" +++ capture_text 0 m)
nsshow_step none named line current_port next =
    nsshow_push line current_port named (next current_port)

unfoldable pub nsshow_lines : String → List String → List WwnEntry
unfolding search port_regex name_regex
nsshow_lines current_port [] = []
nsshow_lines current_port (line ∷ rest) =
    nsshow_step (search port_regex line) (search name_regex line) line current_port
      (λ p. nsshow_lines p rest)

unfoldable pub parse_brocade_nsshow : String → List WwnEntry
unfolding lines nsshow_lines
parse_brocade_nsshow t = nsshow_lines "" (lines t)
