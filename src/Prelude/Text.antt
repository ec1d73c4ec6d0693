-- ===== src/Prelude/Text.antt =====
-- What the program uses of text: concatenation, the LIKE of SQL, and JavaScript's `parseInt`.
use Prim.Native.Nat.{ℕ, zero, suc, ◌+◌, ◌-◌, ◌*◌, ◌/◌, ◌%◌}
use Prim.Native.Char.{Char, code}
use Prim.Native.String
use Prim.Native.String.{String, [], ◌∷◌}
use mathlib.Core.Path.{◌≡◌, refl, sym, subst}
use mathlib.Core.Bool.{Bool, true, false, ◌&&◌, ◌||◌, not}
use Prim.Native.String.append
use native.Mathlib.Omega.{arith}
use mathlib.Core.Option.{Option, none, some}
use mathlib.Core.Logic.{inl, inr}
use go_digi.Prelude.Tests.{leb, ◌==◌, ==_iff, Bool-cases, if◌then◌else◌}
use go_digi.Prelude.Int.{ℤ, pos, negsuc}

infixr 65 ◌+++◌
-- `++` of texts beside the `++` of lists
abbrev pub ◌+++◌ : String → String → String
s +++ t = String.◌++◌ s t

-- some tail of the text passes the test
abbrev pub any_tail : (String → Bool) → String → Bool
any_tail p [] = p []
any_tail p (c ∷ s) = p (c ∷ s) || any_tail p s

like_one : Char → (String → Bool) → String → Bool
like_one p rest [] = false
like_one p rest (c ∷ s) = (code p == b'_' || code p == code c) && rest s

like_char : Char → (String → Bool) → String → Bool
like_char p rest [] = false
like_char p rest (c ∷ s) = code p == code c && rest s

-- `true` is after a backslash; a pattern must not end there
unfoldable pub like_after : Bool → String → String → Bool
unfolding like_one like_char
like_after escaped [] [] = if escaped then false else true
like_after escaped [] (c ∷ s) = false
like_after true (p ∷ ps) s = like_char p (like_after false ps) s
like_after false (p ∷ ps) s =
    if code p == b'%'
    then any_tail (like_after false ps) s
    else if code p == 92
    then like_after true ps s
    else like_one p (like_after false ps) s

-- pattern first: `%` is any text, `_` any character, and what follows a backslash is itself
unfoldable pub like : String → String → Bool
unfolding like_after
like pattern s = like_after false pattern s

abbrev pub no_backslash : String → Bool
no_backslash [] = true
no_backslash (c ∷ s) = not (code c == 92) && no_backslash s

abbrev pub is_digit : Char → Bool
is_digit c = leb b'0' (code c) && leb (code c) b'9'

abbrev pub is_space : Char → Bool
is_space c = code c == 32 || leb 9 (code c) && leb (code c) 13

-- the digits at the front
digits : ℕ → String → ℕ
digits n [] = n
digits n (c ∷ s) = let rest = digits (n * 10 + (code c - 48)) s in if is_digit c then rest else n

natural : String → Option ℕ
natural [] = none
natural (c ∷ s) = if is_digit c then some (digits 0 (c ∷ s)) else none

abbrev negate : ℕ → ℤ
negate zero = pos 0
negate (suc n) = negsuc n

abbrev map_ℤ : (ℕ → ℤ) → Option ℕ → Option ℤ
map_ℤ f none = none
map_ℤ f (some n) = some (f n)

-- `none` is NaN; the hexadecimal form `0x…` is left out
unfoldable pub parse_int : String → Option ℤ
unfolding digits natural
parse_int [] = none
parse_int (c ∷ s) =
    let rest = parse_int s in
    if is_space c
    then rest
    else if code c == b'-'
    then map_ℤ negate (natural s)
    else if code c == b'+'
    then map_ℤ pos (natural s)
    else map_ℤ pos (natural (c ∷ s))

digit_text : ℕ → String
digit_text n =
    if n == 0
    then "0"
    else if n == 1
    then "1"
    else if n == 2
    then "2"
    else if n == 3
    then "3"
    else if n == 4
    then "4"
    else if n == 5
    then "5"
    else if n == 6
    then "6"
    else if n == 7
    then "7"
    else if n == 8
    then "8"
    else "9"

-- a number in a template; a number has fewer digits than its successor counts
show_from : ℕ → ℕ → String → String
show_from zero n rest = rest
show_from (suc fuel) n rest =
    let more = show_from fuel (n / 10) (digit_text (n % 10) +++ rest) in
    if leb n 9 then digit_text n +++ rest else more

unfoldable pub show : ℕ → String
unfolding show_from digit_text
show n = show_from (suc n) n ""

-- A tail of what is appended is a tail of the whole.
pub any_tail-append :
    (p : String → Bool) (s t : String) → any_tail p t ≡ true → any_tail p (s +++ t) ≡ true
any_tail-append p [] t h = rw (append.nil t) h
any_tail-append p (c ∷ s) t h = rw (append.cons c s t) (ground (arith, any_tail-append p s t h))

abbrev pub starts_with : String → String → Bool
starts_with [] s = true
starts_with (c ∷ cs) [] = false
starts_with (c ∷ cs) (d ∷ s) = code c == code d && starts_with cs s

-- s.includes(part)
abbrev pub includes : String → String → Bool
includes part s = any_tail (starts_with part) s

-- the first characters of a text
abbrev pub take_text : ℕ → String → String
take_text zero s = []
take_text (suc n) [] = []
take_text (suc n) (c ∷ s) = c ∷ take_text n s

-- what stands before the first of a character, and what behind it, if it is there
abbrev pub cut_at : ℕ → String → String × Option String
cut_at sep [] = ([], none)
cut_at sep (c ∷ s) =
    let (before, rest) = cut_at sep s in if code c == sep then ([], some s) else (c ∷ before, rest)

-- A text without a backslash is like itself between two `%`, also where it has `%` or `_` in it.
any_tail_self : (p : String → Bool) (s : String) → p s ≡ true → any_tail p s ≡ true
any_tail_self p [] h = h
any_tail_self p (c ∷ s) h = rw h refl

like-prefix : (s : String) → no_backslash s ≡ true → like_after false (s +++ "%") s ≡ true
unfolding like_after like_one like_char
like-prefix [] h = subst (λ p. like_after false p "" ≡ true) (sym (append.nil "%")) refl
like-prefix (c ∷ s) h =
    subst (λ p. like_after false p (c ∷ s) ≡ true) (sym (append.cons c s "%"))
      (elim (Bool-cases (code c == b'%')) [
        | inl e ↦ rw e (
            ground (
              arith,
              any_tail_self (like_after false (s +++ "%")) s (like-prefix s (ground (arith, h))),
            ))
        | inr e ↦ rw e (ground (arith, h, like-prefix s, ==_iff (code c) (code c)))
      ])

pub like-itself : (s : String) → no_backslash s ≡ true → like ("%" +++ s +++ "%") s ≡ true
unfolding like like_after
like-itself s h =
    subst (λ p. like p s ≡ true) (sym (append.cons "%" [] (s +++ "%")))
      (subst (λ p. like ("%" ∷ p) s ≡ true) (sym (append.nil (s +++ "%")))
        (any_tail_self (like_after false (s +++ "%")) s (like-prefix s h)))

pub no_backslash-append :
    (s t : String) → no_backslash s ≡ true → no_backslash t ≡ true → no_backslash (s +++ t) ≡ true
no_backslash-append [] t h k = subst (λ x. no_backslash x ≡ true) (sym (append.nil t)) k
no_backslash-append (c ∷ s) t h k =
    subst (λ x. no_backslash x ≡ true) (sym (append.cons c s t))
      (ground (arith, h, no_backslash-append s t))

abbrev pub text_length : String → ℕ
text_length [] = 0
text_length (c ∷ s) = suc (text_length s)
