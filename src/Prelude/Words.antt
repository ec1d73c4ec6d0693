-- ===== src/Prelude/Words.antt =====
-- What the parser of device tables uses of text: lower case, `trim`, and `split`.
-- Lower case is that of ASCII.
use Prim.Native.Nat.{ℕ, ◌+◌, ◌≤◌, compare, Ordering}
use Prim.Native.Char.{Char, char, code, IsScalar}
use Prim.Native.String.append
use Prim.Native.String.{String, [], ◌∷◌}
use mathlib.Core.Path.{◌≡◌, refl, sym}
use mathlib.Core.Bool.{Bool, true, false, ◌&&◌}
use mathlib.Core.Logic.{inl, inr}
use mathlib.Core.List.{List}
use native.Mathlib.Omega.{arith}
use text.Mathlib.TextEquality.{Char-path}
use native.Mathlib.Decide.{dec_le}
use go_digi.Prelude.Lists.{single}
use go_digi.Prelude.Tests.{leb, Bool-cases, ◌==◌, if◌then◌else◌}
use go_digi.Prelude.Text.{is_space, text_length, ◌+++◌}

small-IsScalar : (n : ℕ) → n ≤ 200 → IsScalar n
small-IsScalar n h = let below : compare n 55296 ≡ Ordering.lt = ground arith in rw below tt

shifted : (c : Char) → Dec (code c ≤ 90) → Dec (65 ≤ code c) → Char
shifted c (yes below) (yes above) = char (code c + 32) (small-IsScalar (code c + 32) (omega arith))
shifted c (yes below) (no _) = c
shifted c (no _) d = c

unfoldable pub lower_char : Char → Char
unfolding shifted small-IsScalar dec_le
lower_char c = shifted c (dec_le (code c) 90) (dec_le 65 (code c))

unfoldable pub lower : String → String
unfolding lower_char
lower [] = []
lower (c ∷ s) = lower_char c ∷ lower s

-- the characters that pass the test
unfoldable pub keep : (Char → Bool) → String → String
keep p [] = []
keep p (c ∷ s) = let rest = keep p s in if p c then c ∷ rest else rest

abbrev pub is_empty : String → Bool
is_empty [] = true
is_empty (c ∷ s) = false

trim_start : String → String
trim_start [] = []
trim_start (c ∷ s) = let rest = trim_start s in if is_space c then rest else c ∷ s

trim_end : String → String
trim_end [] = []
trim_end (c ∷ s) = let rest = trim_end s in if is_space c && is_empty rest then [] else c ∷ rest

unfoldable pub trim : String → String
unfolding trim_start trim_end
trim s = trim_start (trim_end s)

abbrev push : Char → List String → List String
push c List.[] = single (c ∷ [])
push c (List.◌∷◌ w ws) = List.◌∷◌ (c ∷ w) ws

-- the parts between the characters that pass the test: one more than there are of these
unfoldable pub split_on : (Char → Bool) → String → List String
split_on p [] = single []
split_on p (c ∷ s) = let parts = split_on p s in if p c then List.◌∷◌ [] parts else push c parts

-- text.split('\n')
unfoldable pub lines : String → List String
unfolding split_on
lines = split_on (λ c. code c == 10)

-- of every character of a text
abbrev pub AllOf {ℓ} : (Char → Type ℓ) → String → Type ℓ
AllOf P [] = Unit
AllOf P (c ∷ s) = P c × AllOf P s

-- A capital is moved by 32, and nothing else changes.
pub code-lower_char :
    (c : Char)
    → code (lower_char c) ≡ (if leb 65 (code c) && leb (code c) 90 then code c + 32 else code c)
unfolding lower_char shifted
code-lower_char c = code-shifted c (dec_le (code c) 90) (dec_le 65 (code c))
  where
    code-shifted :
        (c : Char) (d : Dec (code c ≤ 90)) (e : Dec (65 ≤ code c))
        → code (shifted c d e)
          ≡ (if leb 65 (code c) && leb (code c) 90 then code c + 32 else code c)
    code-shifted c (yes below) (yes above) = ground arith
    code-shifted c (yes below) (no n) = ground arith
    code-shifted c (no n) d = ground arith

pub lower_char-lower_char : (c : Char) → lower_char (lower_char c) ≡ lower_char c
lower_char-lower_char c =
    Char-path _ _ (ground (arith, code-lower_char c, code-lower_char (lower_char c)))

pub lower-lower : (s : String) → lower (lower s) ≡ lower s
unfolding lower
lower-lower [] = refl
lower-lower (c ∷ s) = rw (lower_char-lower_char c, lower-lower s) refl

pub text_length-lower : (s : String) → text_length (lower s) ≡ text_length s
unfolding lower
text_length-lower [] = refl
text_length-lower (c ∷ s) = ground (arith, text_length-lower s)

pub keep-AllOf : (p : Char → Bool) (s : String) → AllOf (λ c. p c ≡ true) (keep p s)
unfolding keep
keep-AllOf p [] = tt
keep-AllOf p (c ∷ s) = ground (arith, keep-AllOf p s)

pub keep_all : (p : Char → Bool) (s : String) → AllOf (λ c. p c ≡ true) s → keep p s ≡ s
unfolding keep
keep_all p [] h = refl
keep_all p (c ∷ s) (h, hs) = rw (h, keep_all p s hs) refl

pub lower-AllOf :
    (p : Char → Bool) (s : String)
    → ((c : Char) → p c ≡ true → p (lower_char c) ≡ true)
    → AllOf (λ c. p c ≡ true) s
    → AllOf (λ c. p c ≡ true) (lower s)
unfolding lower
lower-AllOf p [] f h = tt
lower-AllOf p (c ∷ s) f (h, hs) = (f c h, lower-AllOf p s f hs)

pub AllOf-map {ℓ κ} :
    (P : Char → Type ℓ) (Q : Char → Type κ) (s : String)
    → ((c : Char) → P c → Q c)
    → AllOf P s
    → AllOf Q s
AllOf-map P Q [] f h = tt
AllOf-map P Q (c ∷ s) f (h, hs) = (f c h, AllOf-map P Q s f hs)

-- A separator ends a part.
pub split_on-append :
    (p : Char → Bool) (s : String) (c : Char) (t : String)
    → AllOf (λ d. p d ≡ false) s
    → p c ≡ true
    → split_on p (s +++ c ∷ t) ≡ List.◌∷◌ s (split_on p t)
unfolding split_on
split_on-append p [] c t h e = rw (append.nil (c ∷ t)) (rw e refl)
split_on-append p (d ∷ s) c t (h, hs) e =
    rw (append.cons d s (c ∷ t)) (rw (h, split_on-append p s c t hs e) refl)

pub keep-append : (p : Char → Bool) (s t : String) → keep p (s +++ t) ≡ keep p s +++ keep p t
unfolding keep
keep-append p [] t = rw (append.nil t, append.nil (keep p t)) refl
keep-append p (c ∷ s) t = elim (Bool-cases (p c)) [
  | inl e ↦
      rw (append.cons c s t) (rw (e, keep-append p s t) (sym (append.cons c (keep p s) (keep p t))))
  | inr e ↦ rw (append.cons c s t) (rw (e, keep-append p s t) refl)
]
