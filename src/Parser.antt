-- ===== src/Parser.antt =====
-- web/src/lib/mac-parser.ts: the addresses that switches and fibre channel switches print, read
-- from the text of their command line. A regular expression of the source is a value of `Regex`;
-- white space and case are those of ASCII.

pub mod Vendors
pub mod Brocade
pub mod Csv
pub mod Output
pub mod Normal
pub mod Usable
pub mod Rows
pub mod RoundTrip
pub mod Detection
mod Tests
use Prim.Native.String.{[], ◌∷◌}
use go_digi.Prelude.{
  ℕ, suc, String, Bool, true, false, ◌&&◌, ◌||◌, not, Option, none, some, List, select, map, str_eq,
  ◌==◌, if◌then◌else◌, or_else,
}
use go_digi.Prelude
use go_digi.Prelude.Int.{ℤ}
use go_digi.Prelude.Text.{text_length, starts_with, includes, ◌+++◌}
use go_digi.Prelude.Words.{lower, keep, is_empty, trim, lines}
use go_digi.Prelude.Regex.{Regex, one, both, group, times, is_char, is_hex, Groups}

-- `type`: dynamic, static or self
pub record MacEntry : Type 0 where
  pub mac : String
  pub port : String
  pub vlan : Option ℤ
  pub type : String

pub record WwnEntry : Type 0 where
  pub wwn : String
  pub port_name : String
  pub wwn_type : String

pub data Vendor : Type 0 where
  cisco juniper fortigate brocade auto : Vendor

pub data ParseType : Type 0 where
  mac_table arp_table wwn_table : ParseType

-- cleaned.match(/.{2}/g).join(':')
unfoldable pub colons : String → String
colons (a ∷ b ∷ c ∷ s) = a ∷ b ∷ ":" ∷ colons (c ∷ s)
colons s = s

unfoldable pub normalize_mac : String → String
unfolding keep lower colons
normalize_mac raw =
    let cleaned = lower (keep is_hex raw) in
    if text_length cleaned == 12 then colons cleaned else []

unfoldable pub is_usable_mac : String → Bool
is_usable_mac mac =
    not (is_empty mac || str_eq mac "00:00:00:00:00:00")
    && not (str_eq mac "ff:ff:ff:ff:ff:ff")
    && not (starts_with "01:00:5e:" mac)
    && not (starts_with "33:33:" mac)
    && not (starts_with "01:80:c2:" mac)

-- xs.slice(0, n)
abbrev slice : ℕ → List String → List String
slice Prelude.zero xs = Prelude.[]
slice (suc n) Prelude.[] = Prelude.[]
slice (suc n) (Prelude.◌∷◌ x xs) = Prelude.◌∷◌ x (slice n xs)

abbrev join_lines : List String → String
join_lines Prelude.[] = []
join_lines (Prelude.◌∷◌ x Prelude.[]) = x
join_lines (Prelude.◌∷◌ x xs) = x +++ "\n" +++ join_lines xs

abbrev pub is_filled : String → Bool
is_filled s = not (is_empty s)

vendor_of : String → Vendor
vendor_of head =
    if includes "vlan" head && includes "mac address" head && includes "ports" head
    then cisco
    else if includes "mac address" head && (includes "type" head || includes "ports" head)
    then cisco
    else if includes "routing instance" head || includes "ethernet-switching" head
    then juniper
    else if includes "hardware addr" head || includes "fortigate" head
    then fortigate
    else if includes "switchname" head
        || includes "nsshow" head
        || includes "index port address" head
    then brocade
    else if includes "age" head && includes "hardware" head
    then fortigate
    else auto

unfoldable pub detect_vendor : String → Vendor
unfolding lines trim lower vendor_of
detect_vendor text =
    vendor_of (lower (join_lines (slice 20 (select is_filled (map trim (lines text))))))

-- what a regular expression captured: m[n + 1], or the empty text
abbrev pub capture : ℕ → Groups → Option String
capture n Prelude.[] = none
capture Prelude.zero (Prelude.◌∷◌ o g) = o
capture (suc n) (Prelude.◌∷◌ o g) = capture n g

abbrev pub capture_text : ℕ → Groups → String
capture_text n g = or_else (capture n g) []

-- an address that is kept, when it may be used
abbrev pub usable_entry : String → String → Option ℤ → String → Option MacEntry
usable_entry mac port vlan type =
    if is_usable_mac mac
    then some (record { mac = mac; port = port; vlan = vlan; type = type })
    else none

abbrev pub push_entry {ℓ} : {A : Type ℓ} → Option A → List A → List A
push_entry none ys = ys
push_entry (some y) ys = Prelude.◌∷◌ y ys

-- the entries of a list of lines, in their order
abbrev pub collect {ℓ κ} : {A : Type ℓ} {B : Type κ} → (A → Option B) → List A → List B
collect f Prelude.[] = Prelude.[]
collect f (Prelude.◌∷◌ x xs) = push_entry (f x) (collect f xs)

infixr 40 ◌⨾◌
abbrev pub ◌⨾◌ : Regex → Regex → Regex
r ⨾ q = both r q

abbrev pub hex : Regex
hex = one is_hex

-- xx:xx:…, of n + 1 pairs
abbrev pub hex_pairs : ℕ → Regex
hex_pairs n = hex ⨾ hex ⨾ times n (one (is_char b':') ⨾ hex ⨾ hex)

-- xxxx.xxxx.xxxx
abbrev pub dotted_mac : Regex
dotted_mac = times 4 hex ⨾ one (is_char b'.') ⨾ times 4 hex ⨾ one (is_char b'.') ⨾ times 4 hex
