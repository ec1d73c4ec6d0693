-- ===== src/Parser/Detection.antt =====
-- When parseDeviceOutput of web/src/lib/mac-parser.ts takes a text for a table of WWNs or of ARP.
use go_digi.Prelude.{String, Bool, true, false, ◌||◌, ◌≡◌, ◌↔◌, ◌⊎◌, refl, arith, inl, inr, is_some}
use go_digi.Prelude.Regex.{Regex, Groups, search, one, either, times, text_i, spaces, is_char}
use go_digi.Prelude.Regex.Meaning.{Match, m_left, m_right, Occurs, o_here, o_later, search_iff}
use go_digi.Parser.{◌⨾◌, hex, Vendor, brocade, mac_table, arp_table, wwn_table}
use go_digi.Parser.Output.{wwn_hint, arp_hint, detect_type, type_of, is_brocade}

abbrev pub Holds : Regex → String → Type 0
Holds r text = (g : Groups) × Occurs r text g

-- `switchshow`, `nsshow` or eight pairs of digits with colons between them, in either case
abbrev pub HasWwn : String → Type 0
HasWwn text =
    Holds (text_i "switchshow") text
    ⊎ Holds (text_i "nsshow") text
    ⊎ Holds (times 7 (hex ⨾ hex ⨾ one (is_char b':')) ⨾ hex ⨾ hex) text

-- `show arp` or `get system arp`, with any white space between the words and in either case
abbrev pub HasArp : String → Type 0
HasArp text =
    Holds (text_i "show" ⨾ spaces ⨾ text_i "arp") text
    ⊎ Holds (text_i "get" ⨾ spaces ⨾ text_i "system" ⨾ spaces ⨾ text_i "arp") text

either-Match :
    {r q : Regex} {s t : String} {g : Groups}
    → Match (either r q) s t g
    → Match r s t g ⊎ Match q s t g
either-Match (m_left m) = inl m
either-Match (m_right m) = inr m

either-Occurs :
    {r q : Regex} {s : String} {g : Groups} → Occurs (either r q) s g → Occurs r s g ⊎ Occurs q s g
either-Occurs (o_here m) = elim (either-Match m) [ inl x ↦ inl (o_here x) | inr y ↦ inr (o_here y) ]
either-Occurs (o_later o) = elim (either-Occurs o) [
  | inl x ↦ inl (o_later x)
  | inr y ↦ inr (o_later y)
]

left-Occurs : {r q : Regex} {s : String} {g : Groups} → Occurs r s g → Occurs (either r q) s g
left-Occurs (o_here m) = o_here (m_left m)
left-Occurs (o_later o) = o_later (left-Occurs o)

right-Occurs : {r q : Regex} {s : String} {g : Groups} → Occurs q s g → Occurs (either r q) s g
right-Occurs (o_here m) = o_here (m_right m)
right-Occurs (o_later o) = o_later (right-Occurs o)

either-Holds :
    (r q : Regex) (text : String) → Holds (either r q) text ↔ (Holds r text ⊎ Holds q text)
either-Holds r q text = (
  λ h. elim (either-Occurs h.1) [ inl x ↦ inl (h.0, x) | inr y ↦ inr (h.0, y) ],
  λ h. elim h [ inl x ↦ (x.0, left-Occurs x.1) | inr y ↦ (y.0, right-Occurs y.1) ],
)

wwn_hint-HasWwn : (text : String) → (is_some (search wwn_hint text) ≡ true) ↔ HasWwn text
unfolding wwn_hint
wwn_hint-HasWwn text =
    let (on, back) = search_iff wwn_hint text in
    let (split, join) = either-Holds (text_i "switchshow") _ text in
    let (split2, join2) = either-Holds (text_i "nsshow") _ text in
    (
      λ e. elim (split (on e)) [ inl x ↦ inl x | inr y ↦ inr (split2 y) ],
      λ h. elim h [ inl x ↦ back (join (inl x)) | inr y ↦ back (join (inr (join2 y))) ],
    )

arp_hint-HasArp : (text : String) → (is_some (search arp_hint text) ≡ true) ↔ HasArp text
unfolding arp_hint
arp_hint-HasArp text =
    let (on, back) = search_iff arp_hint text in
    let (split, join) = either-Holds (text_i "show" ⨾ spaces ⨾ text_i "arp") _ text in
    (λ e. split (on e), λ h. back (join h))

type_of_wwn : (w a : Bool) → (type_of mac_table w a ≡ wwn_table) ↔ (w ≡ true)
type_of_wwn w a = ground arith

type_of_arp : (w a : Bool) → (type_of mac_table w a ≡ arp_table) ↔ ((w ≡ false) × (a ≡ true))
type_of_arp w a = ground arith

is_brocade_iff : (v : Vendor) → (is_brocade v ≡ true) ↔ (v ≡ brocade)
is_brocade_iff v = ground arith

-- it is a table of WWNs
abbrev pub IsWwnText : Vendor → String → Type 0
IsWwnText v text = (v ≡ brocade) ⊎ HasWwn text

abbrev says_wwn : Vendor → String → Bool
says_wwn v text = is_brocade v || is_some (search wwn_hint text)

or_true : (a b : Bool) → (a || b) ≡ true → (a ≡ true) ⊎ (b ≡ true)
or_true true b h = inl refl
or_true false b h = inr h

says_wwn_iff : (v : Vendor) (text : String) → (says_wwn v text ≡ true) ↔ IsWwnText v text
says_wwn_iff v text = (
  λ h. elim (or_true (is_brocade v) (is_some (search wwn_hint text)) h) [
    | inl e ↦ inl ((is_brocade_iff v).0 e)
    | inr e ↦ inr ((wwn_hint-HasWwn text).0 e)
  ],
  λ h. elim h [
    | inl e ↦ ground (arith, (is_brocade_iff v).1 e)
    | inr o ↦ ground (arith, (wwn_hint-HasWwn text).1 o)
  ],
)

eq_false_iff : (a : Bool) → (a ≡ false) ↔ ¬ (a ≡ true)
eq_false_iff a = ground arith

-- A text that is given as a table of addresses is taken for one of WWNs exactly if the vendor is
-- Brocade or switchshow, nsshow or eight pairs of digits with colons between them occur in it,
-- and for one of ARP exactly if that is not so and show arp or get system arp occurs in it, where
-- to occur is defined by what a pattern may match, with no order of search.
pub detect_type_iff :
    (text : String) (v : Vendor)
    → ((detect_type text v mac_table ≡ wwn_table) ↔ IsWwnText v text)
      × ((detect_type text v mac_table ≡ arp_table) ↔ ((¬ IsWwnText v text) × HasArp text))
unfolding detect_type
detect_type_iff text v =
    let (wwn_on, wwn_back) = says_wwn_iff v text in
    let (arp_on, arp_back) = arp_hint-HasArp text in
    let (to_wwn, of_wwn) = type_of_wwn (says_wwn v text) (is_some (search arp_hint text)) in
    let (to_arp, of_arp) = type_of_arp (says_wwn v text) (is_some (search arp_hint text)) in
    let (to_not, of_not) = eq_false_iff (says_wwn v text) in
    (
      (λ e. wwn_on (to_wwn e), λ h. of_wwn (wwn_back h)),
      (
        λ e. (λ h. to_not (to_arp e).0 (wwn_back h), arp_on (to_arp e).1),
        λ h. of_arp (of_not (λ e. h.0 (wwn_on e)), arp_back h.1),
      ),
    )
