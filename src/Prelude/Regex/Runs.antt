-- ===== src/Prelude/Regex/Runs.antt =====
-- What the search takes of a text whose shape is known: a repetition takes the longest run, so the
-- groups of a pattern are the parts of the text.
use Prim.Native.Nat.{ℕ, zero, suc, ◌+◌, ◌-◌}
use Prim.Native.Char.{Char}
use Prim.Native.String.{String, [], ◌∷◌}
use Prim.Native.String.append
use mathlib.Core.Path.{◌≡◌, refl}
use mathlib.Core.Bool.{Bool, true, false}
use mathlib.Core.Option.{Option, some}
use mathlib.Core.List.{List, ◌++◌, append-nil, append_assoc}
use native.Mathlib.Omega.{arith}
use text.Mathlib.TextLemmas.{append_assoc as text_append_assoc}
use go_digi.Prelude.Lists.{single}
use go_digi.Prelude.Text.{◌+++◌, text_length, take_text}
use go_digi.Prelude.Words.{AllOf, is_empty}
use go_digi.Prelude.Regex.{
  Regex, one, many, both, group, Groups, consumed, match_many, match_then, match_here, times,
  some_of, captured,
}

-- before `rest`, the pattern takes `xs` in one way first, and captures `h`
abbrev pub Takes : Regex → String → String → Groups → Type 0
Takes r xs rest h =
    (g : Groups) (k : String → Groups → Option Groups) (a : Groups)
    → k rest (g ++ h) ≡ some a
    → match_then r (xs +++ rest) g k ≡ some a

-- the text ends, or goes on with a character that fails the test
abbrev pub StopsAt : (Char → Bool) → String → Type 0
StopsAt p [] = Unit
StopsAt p (c ∷ s) = p c ≡ false

match_many-run :
    (p : Char → Bool) (xs rest : String) (g : Groups) (k : String → Groups → Option Groups)
    (a : Groups)
    → AllOf (λ c. p c ≡ true) xs
    → StopsAt p rest
    → k rest g ≡ some a
    → match_many p (xs +++ rest) g k ≡ some a
unfolding match_many
match_many-run p [] [] g k a h stop e = e
match_many-run p [] (c ∷ s) g k a h stop e = rw (append.nil (c ∷ s)) (rw stop e)
match_many-run p (c ∷ xs) rest g k a (h, hs) stop e =
    let ih = match_many-run p xs rest g k a hs stop e in
    rw (append.cons c xs rest) (rw (h, ih) refl)

pub Takes-many :
    (p : Char → Bool) (xs rest : String)
    → AllOf (λ c. p c ≡ true) xs
    → StopsAt p rest
    → Takes (many p) xs rest List.[]
unfolding match_then
Takes-many p xs rest h stop g k a e = match_many-run p xs rest g k a h stop (rw append-nil at e)

pub Takes-one :
    (p : Char → Bool) (c : Char) (rest : String) → p c ≡ true → Takes (one p) (c ∷ []) rest List.[]
unfolding match_then
Takes-one p c rest h g k a e =
    rw (append.cons c [] rest) (rw (append.nil rest, h) (rw append-nil at e))

pub Takes-both :
    (r q : Regex) (xs ys rest : String) (h i : Groups)
    → Takes r xs (ys +++ rest) h
    → Takes q ys rest i
    → Takes (both r q) (xs +++ ys) rest (h ++ i)
unfolding match_then
Takes-both r q xs ys rest h i t u g k a e =
    rw (text_append_assoc xs ys rest) (t g _ a (u (g ++ h) k a (rw (append_assoc g h i) e)))

-- a pattern of the class that is not empty
pub Takes-some_of :
    (p : Char → Bool) (xs rest : String)
    → is_empty xs ≡ false
    → AllOf (λ c. p c ≡ true) xs
    → StopsAt p rest
    → Takes (some_of p) xs rest List.[]
unfolding match_then
Takes-some_of p [] rest n h stop g k a e = cc
Takes-some_of p (c ∷ xs) rest n (h, hs) stop g k a e =
    rw (append.cons c xs rest) (rw h (match_many-run p xs rest g k a hs stop (rw append-nil at e)))

pub Takes-times :
    (p : Char → Bool) (n : ℕ) (xs rest : String)
    → text_length xs ≡ n
    → AllOf (λ c. p c ≡ true) xs
    → Takes (times n (one p)) xs rest List.[]
unfolding match_then
Takes-times p zero [] rest l h g k a e = rw (append.nil rest) (rw append-nil at e)
Takes-times p zero (c ∷ xs) rest l h g k a e = absurd (omega arith)
Takes-times p (suc n) [] rest l h g k a e = absurd (omega arith)
Takes-times p (suc n) (c ∷ xs) rest l (h, hs) g k a e =
    rw (append.cons c xs rest) (rw h (Takes-times p n xs rest (omega arith) hs g k a e))

pub text_length-append : (s t : String) → text_length (s +++ t) ≡ text_length s + text_length t
text_length-append [] t = rw (append.nil t) (omega arith)
text_length-append (c ∷ s) t = rw (append.cons c s t) (omega (arith, text_length-append s t))

take_text-append : (s t : String) → take_text (text_length s) (s +++ t) ≡ s
take_text-append [] t = refl
take_text-append (c ∷ s) t = rw (append.cons c s t) (rw (take_text-append s t) refl)

consumed-append : (s t : String) → consumed (s +++ t) t ≡ s
consumed-append s t =
    let n : text_length (s +++ t) - text_length t ≡ text_length s =
      omega (arith, text_length-append s t) in
    rw n (take_text-append s t)

pub Takes-group :
    (r : Regex) (xs rest : String)
    → Takes r xs rest List.[]
    → Takes (group r) xs rest (single (some xs))
unfolding match_then
Takes-group r xs rest t g k a e = t g _ a (rw (append-nil, consumed-append xs rest) e)

-- What a pattern takes from the start of a text is what it captures there.
pub match_here-Takes :
    (r : Regex) (xs rest : String) (h : Groups)
    → Takes r xs rest h
    → match_here r (xs +++ rest) ≡ some h
unfolding match_here
match_here-Takes r xs rest h t = t List.[] captured h refl

-- A text that begins otherwise stops a repetition.
pub StopsAt-append :
    (p : Char → Bool) (xs rest : String)
    → is_empty xs ≡ false
    → AllOf (λ c. p c ≡ false) xs
    → StopsAt p (xs +++ rest)
StopsAt-append p [] rest n h = cc
StopsAt-append p (c ∷ xs) rest n (h, hs) = rw (append.cons c xs rest) h
