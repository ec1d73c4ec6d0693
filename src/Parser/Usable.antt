-- ===== src/Parser/Usable.antt =====
-- What is true of every address that the parser of tables returns, from any vendor and any text.
use go_digi.Prelude.Text.{starts_with}
use go_digi.Prelude.{
  arith, str_eq, String, Bool, true, false, ◌≡◌, refl, inl, inr, Bool-cases, Option, none, some,
  List, [], ◌∷◌, All, or_else, if◌then◌else◌,
}
use go_digi.Prelude.Int.{ℤ}
use go_digi.Parser.{
  MacEntry, normalize_mac, is_usable_mac, usable_entry, collect, push_entry, Vendor, ParseType,
  cisco, juniper, fortigate, brocade, auto, arp_table, mac_table, wwn_table,
}
use go_digi.Prelude.Words.{lines}
use go_digi.Prelude.Regex.{Groups, match_here, search}
use go_digi.Parser.Normal.{IsNormal, normalize_mac-IsNormal}
use go_digi.Parser.Vendors.{
  on_match, cisco_mac_regex, cisco_arp_regex, juniper_mac_regex, juniper_arp_regex, fortigate_regex,
  parse_cisco_mac, parse_cisco_arp, parse_juniper_mac, parse_juniper_arp, parse_fortigate_mac,
}
use go_digi.Parser.Csv.{
  parse_csv_mac, mac_columns, columns, mac_row, drop_header, is_mac_header, filled_lines,
}
use go_digi.Parser.Output.{parse_device_output, mac_text, is_csv, try_all, or_parse, parse_as}

-- an address in normal form that is neither zero, broadcast nor multicast
pub record IsUsable (e : MacEntry) : Type 0 where
  pub normal : IsNormal e.mac
  pub not_zero : str_eq e.mac "00:00:00:00:00:00" ≡ false
  pub not_broadcast : str_eq e.mac "ff:ff:ff:ff:ff:ff" ≡ false
  pub not_ip_v4_multicast : starts_with "01:00:5e:" e.mac ≡ false
  pub not_ip_v6_multicast : starts_with "33:33:" e.mac ≡ false
  pub not_bridge : starts_with "01:80:c2:" e.mac ≡ false

-- of a result, where there is one
abbrev pub OfSome {ℓ κ} : {A : Type ℓ} → (A → Type κ) → Option A → Type κ
OfSome P none = Unit
OfSome P (some a) = P a

module _ {κ μ} {B : Type κ} (P : B → Type μ) where
  push_entry-All : (o : Option B) (ys : List B) → OfSome P o → All P ys → All P (push_entry o ys)
  push_entry-All none ys h k = k
  push_entry-All (some y) ys h k = (h, k)

  pub collect-All {ℓ} :
      {A : Type ℓ} (f : A → Option B) (xs : List A)
      → ((x : A) → OfSome P (f x))
      → All P (collect f xs)
  collect-All f [] h = tt
  collect-All f (x ∷ xs) h = push_entry-All (f x) (collect f xs) (h x) (collect-All f xs h)

  pub on_match-OfSome :
      (o : Option Groups) (f : Groups → Option B)
      → ((m : Groups) → OfSome P (f m))
      → OfSome P (on_match o f)
  on_match-OfSome none f h = tt
  on_match-OfSome (some m) f h = h m

is_usable_mac-nil : is_usable_mac "" ≡ false
unfolding is_usable_mac
is_usable_mac-nil = refl

IsUsable-facts : (e : MacEntry) → IsNormal e.mac → is_usable_mac e.mac ≡ true → IsUsable e
unfolding is_usable_mac
IsUsable-facts e n h = record {
  normal = n;
  not_zero = ground (arith, h);
  not_broadcast = ground (arith, h);
  not_ip_v4_multicast = ground (arith, h);
  not_ip_v6_multicast = ground (arith, h);
  not_bridge = ground (arith, h);
}

usable_entry-IsUsable :
    (raw port : String) (vlan : Option ℤ) (type : String)
    → OfSome IsUsable (usable_entry (normalize_mac raw) port vlan type)
usable_entry-IsUsable raw port vlan type = elim (Bool-cases (is_usable_mac (normalize_mac raw))) [
  | inl e ↦ elim (normalize_mac-IsNormal raw) [
    | inl n ↦ let bad : is_usable_mac "" ≡ true = rw n at e in absurd (cc (bad, is_usable_mac-nil))
    | inr n ↦ rw e (IsUsable-facts _ n e)
  ]
  | inr e ↦ rw e tt
]

-- a parser that takes each line that its pattern matches
entries-IsUsable :
    (find_in : String → Option Groups) (f : Groups → Option MacEntry) (t : String)
    → ((m : Groups) → OfSome IsUsable (f m))
    → All IsUsable (collect (λ l. on_match (find_in l) f) (lines t))
entries-IsUsable find_in f t h =
    collect-All IsUsable _ (lines t) λ l. on_match-OfSome IsUsable (find_in l) f h

parse_cisco_mac-IsUsable : (t : String) → All IsUsable (parse_cisco_mac t)
unfolding parse_cisco_mac
parse_cisco_mac-IsUsable t =
    entries-IsUsable (match_here cisco_mac_regex) _ t λ m. usable_entry-IsUsable _ _ _ _

parse_cisco_arp-IsUsable : (t : String) → All IsUsable (parse_cisco_arp t)
unfolding parse_cisco_arp
parse_cisco_arp-IsUsable t =
    entries-IsUsable (search cisco_arp_regex) _ t λ m. usable_entry-IsUsable _ _ _ _

parse_juniper_mac-IsUsable : (t : String) → All IsUsable (parse_juniper_mac t)
unfolding parse_juniper_mac
parse_juniper_mac-IsUsable t =
    entries-IsUsable (search juniper_mac_regex) _ t λ m. usable_entry-IsUsable _ _ _ _

parse_juniper_arp-IsUsable : (t : String) → All IsUsable (parse_juniper_arp t)
unfolding parse_juniper_arp
parse_juniper_arp-IsUsable t =
    entries-IsUsable (search juniper_arp_regex) _ t λ m. usable_entry-IsUsable _ _ _ _

parse_fortigate_mac-IsUsable : (t : String) → All IsUsable (parse_fortigate_mac t)
unfolding parse_fortigate_mac
parse_fortigate_mac-IsUsable t =
    entries-IsUsable (search fortigate_regex) _ t λ m. usable_entry-IsUsable _ _ _ _

mac_columns-IsUsable : (cols : List String) → OfSome IsUsable (mac_columns cols)
mac_columns-IsUsable [] = tt
mac_columns-IsUsable (mac ∷ []) = tt
mac_columns-IsUsable (mac ∷ port ∷ rest) = usable_entry-IsUsable mac port _ _

parse_csv_mac-IsUsable : (t : String) → All IsUsable (parse_csv_mac t)
unfolding parse_csv_mac
parse_csv_mac-IsUsable t =
    collect-All IsUsable mac_row (drop_header is_mac_header (filled_lines t))
      λ l. mac_columns-IsUsable (columns l)

or_parse-IsUsable :
    (xs ys : List MacEntry) → All IsUsable xs → All IsUsable ys → All IsUsable (or_parse xs ys)
or_parse-IsUsable [] ys h k = k
or_parse-IsUsable (x ∷ xs) ys h k = h

try_all-IsUsable : (t : String) → All IsUsable (try_all t)
try_all-IsUsable t = or_parse-IsUsable _ _ (parse_cisco_mac-IsUsable t) (
    or_parse-IsUsable _ _ (parse_juniper_mac-IsUsable t)
      (or_parse-IsUsable _ _ (parse_fortigate_mac-IsUsable t) (parse_csv_mac-IsUsable t)))

mac_text-IsUsable : (v : Vendor) (type : ParseType) (t : String) → All IsUsable (mac_text v type t)
mac_text-IsUsable cisco mac_table t = parse_cisco_mac-IsUsable t
mac_text-IsUsable cisco arp_table t = parse_cisco_arp-IsUsable t
mac_text-IsUsable cisco wwn_table t = parse_cisco_mac-IsUsable t
mac_text-IsUsable juniper mac_table t = parse_juniper_mac-IsUsable t
mac_text-IsUsable juniper arp_table t = parse_juniper_arp-IsUsable t
mac_text-IsUsable juniper wwn_table t = parse_juniper_mac-IsUsable t
mac_text-IsUsable fortigate type t = parse_fortigate_mac-IsUsable t
mac_text-IsUsable brocade type t = try_all-IsUsable t
mac_text-IsUsable auto type t = try_all-IsUsable t

csv_or-IsUsable :
    (csv : Bool) (v : Vendor) (type : ParseType) (t : String)
    → All IsUsable (if csv then parse_csv_mac t else mac_text v type t)
csv_or-IsUsable true v type t = parse_csv_mac-IsUsable t
csv_or-IsUsable false v type t = mac_text-IsUsable v type t

parse_as-IsUsable :
    (text : String) (v : Vendor) (type : ParseType)
    → All IsUsable (or_else (parse_as text v type).mac_entries [])
parse_as-IsUsable text v mac_table = csv_or-IsUsable (is_csv text) v mac_table text
parse_as-IsUsable text v arp_table = csv_or-IsUsable (is_csv text) v arp_table text
parse_as-IsUsable text v wwn_table = tt

-- Whatever text is parsed, for whatever vendor and type, every address that is returned has six
-- pairs of digits in lower case with colons between them, is left as it is when it is normalized
-- again, and is neither zero, broadcast nor one of the three kinds of multicast.
pub parse_device_output-IsUsable :
    (text : String) (vendor : Vendor) (type : ParseType)
    → All IsUsable (or_else (parse_device_output text vendor type).mac_entries [])
unfolding parse_device_output
parse_device_output-IsUsable text vendor type = parse_as-IsUsable text _ _
