-- ===== src/Parser/Rows.antt =====
-- A row of Cisco's `show mac address-table`, and what the pattern of parseCiscoMac of
-- web/src/lib/mac-parser.ts takes from it.
use Prim.Native.Char.{Char, code}
use Prim.Native.String.{[], ◌∷◌}
use text.Mathlib.TextLemmas.{append_assoc}
use go_digi.Prelude
use go_digi.Prelude.{
  ap, ℕ, String, Bool, true, false, ◌≡◌, refl, arith, Option, some, none, List, ◌++◌, single,
  str_eq, ◌==◌, if◌then◌else◌, All,
}
use go_digi.Prelude.Text.{◌+++◌, text_length, is_digit, is_space}
use go_digi.Prelude.Words.{AllOf, AllOf-map, is_empty}
use go_digi.Prelude.Regex.{
  Regex, one, both, group, times, some_of, is_char, is_hex, is_word, is_black, spaces, Groups,
}
use go_digi.Prelude.Regex.Runs.{
  Takes, StopsAt, Takes-many, Takes-one, Takes-both, Takes-some_of, Takes-times, Takes-group,
  StopsAt-append,
}
use go_digi.Parser.{hex, dotted_mac, ◌⨾◌}
use go_digi.Parser.Vendors.{cisco_mac_regex, word}

-- the parts of a row, with the white space between them; the address is three groups of digits
pub record Row : Type 0 where
  pub pad : String
  pub vlan : String
  pub gap : String
  pub first : String
  pub second : String
  pub third : String
  pub gap_2 : String
  pub kind : String
  pub gap_3 : String
  pub port : String
  pub rest : String

abbrev pub Each : (Char → Bool) → String → Type 0
Each p = AllOf (λ c. p c ≡ true)

-- one or more characters of the class
abbrev pub Some : (Char → Bool) → String → Type 0
Some p s = (is_empty s ≡ false) × Each p s

abbrev pub Four : String → Type 0
Four s = (text_length s ≡ 4) × Each is_hex s

abbrev pub dotted : Row → String
dotted r = r.first +++ ("." +++ (r.second +++ ("." +++ r.third)))

abbrev pub show_row : Row → String
show_row r =
    r.pad
    +++ (r.vlan +++ (r.gap +++ (dotted r +++ (r.gap_2 +++ (r.kind +++ (r.gap_3 +++ r.port))))))

pub record IsRow (r : Row) : Type 0 where
  pub pad : Each is_space r.pad
  pub vlan : Some is_digit r.vlan
  pub gap : Some is_space r.gap
  pub first : Four r.first
  pub second : Four r.second
  pub third : Four r.third
  pub gap_2 : Some is_space r.gap_2
  pub kind : Some is_word r.kind
  pub gap_3 : Some is_space r.gap_3
  pub port : Some is_black r.port
  pub rest : StopsAt is_black r.rest
  pub one_line : AllOf (λ c. (code c == 10) ≡ false) (show_row r +++ r.rest)

-- a class that ends where another begins
StopsAt-Some :
    (p q : Char → Bool) (xs rest : String)
    → ((c : Char) → q c ≡ true → p c ≡ false)
    → Some q xs
    → StopsAt p (xs +++ rest)
StopsAt-Some p q xs rest f (n, h) = StopsAt-append p xs rest n (AllOf-map _ _ xs f h)

digit_not_space : (c : Char) → is_digit c ≡ true → is_space c ≡ false
digit_not_space c h = ground arith

space_not_digit : (c : Char) → is_space c ≡ true → is_digit c ≡ false
space_not_digit c h = ground arith

space_not_black : (c : Char) → is_space c ≡ true → is_black c ≡ false
space_not_black c h = ground arith

word_not_space : (c : Char) → is_word c ≡ true → is_space c ≡ false
word_not_space c h = ground arith

space_not_word : (c : Char) → is_space c ≡ true → is_word c ≡ false
space_not_word c h = ground arith

hex_not_space : (c : Char) → is_hex c ≡ true → is_space c ≡ false
hex_not_space c h = ground arith

black_not_space : (c : Char) → is_black c ≡ true → is_space c ≡ false
black_not_space c h = ground arith

Takes-Four : (s rest : String) → Four s → Takes (times 4 hex) s rest Prelude.[]
Takes-Four s rest (l, h) = Takes-times is_hex 4 s rest l h

Takes-dot : (rest : String) → Takes (one (is_char b'.')) "." rest Prelude.[]
Takes-dot rest = Takes-one (is_char b'.') "." rest refl

Takes-dotted : (r : Row) (rest : String) → IsRow r → Takes dotted_mac (dotted r) rest Prelude.[]
Takes-dotted r rest h =
    Takes-both _ _ r.first _ rest Prelude.[] Prelude.[] (Takes-Four r.first _ h.first) (
      Takes-both _ _ "." _ rest Prelude.[] Prelude.[] (Takes-dot _) (
        Takes-both _ _ r.second _ rest Prelude.[] Prelude.[] (Takes-Four r.second _ h.second) (
          Takes-both _ _ "." r.third rest Prelude.[] Prelude.[] (Takes-dot _)
            (Takes-Four r.third rest h.third))))

Four-Some : (s : String) → Four s → Some is_hex s
Four-Some [] (l, h) = absurd (omega arith)
Four-Some (c ∷ s) (l, h) = (refl, h)

StopsAt-part :
    (p q : Char → Bool) (xs ys rest : String)
    → ((c : Char) → q c ≡ true → p c ≡ false)
    → Some q xs
    → StopsAt p ((xs +++ ys) +++ rest)
StopsAt-part p q xs ys rest f h = rw (append_assoc xs ys rest) (StopsAt-Some p q xs _ f h)

StopsAt-dotted :
    (r : Row) (more : String) → IsRow r → StopsAt is_space ((dotted r +++ more) +++ r.rest)
StopsAt-dotted r more h =
    rw (append_assoc (dotted r) more r.rest)
      (StopsAt-part is_space is_hex r.first _ _ hex_not_space (Four-Some r.first h.first))

-- what the groups capture of a row
abbrev pub row_groups : Row → Groups
row_groups r =
    single (some r.vlan)
    ++ (single (some (dotted r)) ++ (single (some r.kind) ++ single (some r.port)))

module _ (r : Regex) (ys rest : String) (h : Groups) (t : Takes r ys rest h) where
  Takes-gap :
      (gap : String)
      → Some is_space gap
      → StopsAt is_space (ys +++ rest)
      → Takes (both spaces r) (gap +++ ys) rest h
  Takes-gap gap (n, e) stop =
      Takes-both _ _ gap ys rest Prelude.[] h (Takes-some_of is_space gap _ n e stop) t

  Takes-part :
      (p : Char → Bool) (xs : String)
      → Some p xs
      → StopsAt p (ys +++ rest)
      → Takes (both (group (some_of p)) r) (xs +++ ys) rest (single (some xs) ++ h)
  Takes-part p xs (n, e) stop =
      Takes-both _ _ xs ys rest (single (some xs)) h
        (Takes-group _ xs _ (Takes-some_of p xs _ n e stop)) t

-- from the port back to the start of the row
Takes-port : (r : Row) → IsRow r → Takes (group word) r.port r.rest (single (some r.port))
Takes-port r h =
    Takes-group word r.port r.rest (Takes-some_of is_black r.port r.rest h.port.0 h.port.1 h.rest)

Takes-kind :
    (r : Row)
    → IsRow r
    → Takes
        (group (some_of is_word) ⨾ spaces ⨾ group word)
        (r.kind +++ (r.gap_3 +++ r.port))
        r.rest
        (single (some r.kind) ++ single (some r.port))
Takes-kind r h =
    Takes-part _ _ r.rest _
      (Takes-gap _ r.port r.rest _ (Takes-port r h) r.gap_3 h.gap_3
        (StopsAt-Some is_space is_black r.port r.rest black_not_space h.port))
      is_word r.kind h.kind
      (StopsAt-part is_word is_space r.gap_3 r.port r.rest space_not_word h.gap_3)

pub Takes-row : (r : Row) → IsRow r → Takes cisco_mac_regex (show_row r) r.rest (row_groups r)
unfolding cisco_mac_regex
Takes-row r h =
    let kind = r.kind +++ (r.gap_3 +++ r.port) in
    let mac = dotted r +++ (r.gap_2 +++ kind) in
    Takes-both _ _ r.pad _ r.rest Prelude.[] (row_groups r)
      (Takes-many is_space r.pad _ h.pad
        (StopsAt-part is_space is_digit r.vlan _ r.rest digit_not_space h.vlan))
      (Takes-part _ _ r.rest _
        (Takes-gap _ mac r.rest _
          (Takes-both _ _ (dotted r) _ r.rest (single (some (dotted r))) _
            (Takes-group dotted_mac (dotted r) _ (Takes-dotted r _ h))
            (Takes-gap _ kind r.rest _ (Takes-kind r h) r.gap_2 h.gap_2
              (StopsAt-part is_space is_word r.kind _ r.rest word_not_space h.kind)))
          r.gap h.gap (StopsAt-dotted r _ h))
        is_digit r.vlan h.vlan
        (StopsAt-part is_digit is_space r.gap mac r.rest space_not_digit h.gap))
