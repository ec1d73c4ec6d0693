-- ===== src/Prelude/Regex.antt =====
-- Regular expressions as JavaScript runs them: by backtracking, the longer repetition and the left
-- alternative first. The repetitions of the program are of one class of characters.
pub mod Meaning
pub mod Runs
use Prim.Native.Nat.{ℕ, zero, suc, ◌-◌}
use Prim.Native.Char.{Char, code}
use Prim.Native.String.{String, [], ◌∷◌}
use mathlib.Core.Bool.{Bool, true, false, ◌||◌, ◌&&◌, not}
use mathlib.Core.Option.{Option, none, some}
use mathlib.Core.List
use mathlib.Core.List.{List, ◌++◌}
use go_digi.Prelude.Lists.{single}
use go_digi.Prelude.Tests.{leb, ◌==◌, if◌then◌else◌}
use go_digi.Prelude.Text.{take_text, is_digit, is_space, text_length}
use go_digi.Prelude.Words.{lower_char}

-- `absent` is a capture group that takes no part; groups are not nested.
pub data Regex : Type 0 where
  nothing : Regex
  one : (Char → Bool) → Regex
  many : (Char → Bool) → Regex
  both : Regex → Regex → Regex
  either : Regex → Regex → Regex
  group : Regex → Regex
  absent : Regex
  at_end : Regex

-- what the groups have captured, in their order
abbrev pub Groups : Type 0
Groups = List (Option String)

-- the text that a match from `s` to its tail `t` consumed
abbrev pub consumed : String → String → String
consumed s t = take_text (text_length s - text_length t) s

-- to go on with the second where the first fails
abbrev pub or_try {ℓ} : {A : Type ℓ} → Option A → Option A → Option A
or_try (some a) o = some a
or_try none o = o

module _ {ℓ} {A : Type ℓ} where
  unfoldable pub match_many :
      (Char → Bool) → String → Groups → (String → Groups → Option A) → Option A
  match_many p [] g k = k [] g
  match_many p (c ∷ s) g k =
      let longer = match_many p s g k in if p c then or_try longer (k (c ∷ s) g) else k (c ∷ s) g

  abbrev match_one : (Char → Bool) → String → Groups → (String → Groups → Option A) → Option A
  match_one p [] g k = none
  match_one p (c ∷ s) g k = if p c then k s g else none

  abbrev match_end : String → Groups → (String → Groups → Option A) → Option A
  match_end [] g k = k [] g
  match_end (c ∷ s) g k = none

  -- the rest of the pattern is what comes next, and asks for another way when it fails
  unfoldable pub match_then : Regex → String → Groups → (String → Groups → Option A) → Option A
  unfolding match_many
  match_then nothing s g k = k s g
  match_then (one p) s g k = match_one p s g k
  match_then (many p) s g k = match_many p s g k
  match_then (both r q) s g k = match_then r s g (λ t h. match_then q t h k)
  match_then (either r q) s g k = or_try (match_then r s g k) (match_then q s g k)
  match_then (group r) s g k = match_then r s g (λ t h. k t (h ++ single (some (consumed s t))))
  match_then absent s g k = k s (g ++ single none)
  match_then at_end s g k = match_end s g k

abbrev pub captured : String → Groups → Option Groups
captured t g = some g

-- a pattern that begins with `^`
unfoldable pub match_here : Regex → String → Option Groups
unfolding match_then
match_here r s = match_then r s List.[] captured

-- a pattern without `^` is tried at each position
unfoldable pub search : Regex → String → Option Groups
unfolding match_here
search r [] = match_here r []
search r (c ∷ s) = let later = search r s in or_try (match_here r (c ∷ s)) later

abbrev pub some_of : (Char → Bool) → Regex
some_of p = both (one p) (many p)

abbrev pub times : ℕ → Regex → Regex
times zero r = nothing
times (suc n) r = both r (times n r)

abbrev pub is_char : ℕ → Char → Bool
is_char n c = code c == n

-- the characters of a text, in either case under the flag `i`
abbrev pub text : String → Regex
text [] = nothing
text (c ∷ s) = both (one (is_char (code c))) (text s)

abbrev pub text_i : String → Regex
text_i [] = nothing
text_i (c ∷ s) = both (one (λ d. code (lower_char d) == code c)) (text_i s)

abbrev pub is_word : Char → Bool
is_word c =
    is_digit c
    || leb b'a' (code c) && leb (code c) b'z'
    || leb b'A' (code c) && leb (code c) b'Z'
    || code c == b'_'

abbrev pub is_hex : Char → Bool
is_hex c =
    is_digit c || leb b'a' (code c) && leb (code c) b'f' || leb b'A' (code c) && leb (code c) b'F'

abbrev pub is_black : Char → Bool
is_black c = not (is_space c)

abbrev pub spaces : Regex
spaces = some_of is_space
