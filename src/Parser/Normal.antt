-- ===== src/Parser/Normal.antt =====
-- The normal form of an address, that normalizeMac of web/src/lib/mac-parser.ts gives.
use Prim.Native.Char.{Char, code}
use Prim.Native.String.{String, [], ◌∷◌}
use go_digi.Prelude.{
  ℕ, zero, suc, true, ◌≡◌, refl, ap, arith, Bool-cases, inl, inr, ◌==◌, ==_iff, ◌+◌, ◌⊎◌,
}
use go_digi.Prelude.Text.{text_length}
use go_digi.Prelude.Words.{
  lower, lower_char, keep, AllOf, code-lower_char, lower-lower, keep-AllOf, lower-AllOf,
  lower_char-lower_char,
}
use go_digi.Prelude.Regex.{is_hex}
use go_digi.Parser.{colons, normalize_mac}

is_hex-lower_char : (c : _) → is_hex c ≡ true → is_hex (lower_char c) ≡ true
is_hex-lower_char c h = ground (arith, code-lower_char c)

-- The colons are no digits, and leave when the text is read again.
keep-colons : (s : String) → AllOf (λ c. is_hex c ≡ true) s → keep is_hex (colons s) ≡ s
unfolding keep colons
keep-colons [] h = refl
keep-colons (a ∷ []) (h, _) = rw h refl
keep-colons (a ∷ b ∷ []) (h, (k, _)) = rw (h, k) refl
keep-colons (a ∷ b ∷ c ∷ s) (h, (k, hs)) =
    let ih = keep-colons (c ∷ s) hs in rw (h, k) (ap (λ t. a ∷ b ∷ t) ih)

-- a digit of an address in lower case
abbrev pub IsLow : Char → Type 0
IsLow c = (is_hex c ≡ true) × (lower_char c ≡ c)

-- n + 1 pairs of digits with colons between them
abbrev pub IsPairs : ℕ → String → Type 0
IsPairs zero (a ∷ b ∷ []) = IsLow a × IsLow b
IsPairs (suc n) (a ∷ b ∷ c ∷ s) = IsLow a × IsLow b × (code c ≡ b':') × IsPairs n s
IsPairs _ _ = ⊥

colons-IsPairs :
    (n : ℕ) (s : String) → text_length s ≡ n + n + 2 → AllOf IsLow s → IsPairs n (colons s)
unfolding colons
colons-IsPairs zero [] e h = absurd (omega arith)
colons-IsPairs (suc n) [] e h = absurd (omega arith)
colons-IsPairs zero (a ∷ []) e h = absurd (omega arith)
colons-IsPairs (suc n) (a ∷ []) e h = absurd (omega arith)
colons-IsPairs zero (a ∷ b ∷ []) e (h, (k, _)) = (h, k)
colons-IsPairs (suc n) (a ∷ b ∷ []) e h = absurd (omega arith)
colons-IsPairs zero (a ∷ b ∷ c ∷ s) e h = absurd (omega arith)
colons-IsPairs (suc n) (a ∷ b ∷ c ∷ s) e (h, (k, hs)) =
    (h, k, refl, colons-IsPairs n (c ∷ s) (omega arith) hs)

lower-IsLow : (s : String) → AllOf (λ c. is_hex c ≡ true) s → AllOf IsLow (lower s)
unfolding lower
lower-IsLow [] h = tt
lower-IsLow (c ∷ s) (h, hs) = ((is_hex-lower_char c h, lower_char-lower_char c), lower-IsLow s hs)

-- The digits of a raw address, in lower case.
abbrev cleaned : String → String
cleaned raw = lower (keep is_hex raw)

cleaned-IsHex : (s : String) → AllOf (λ c. is_hex c ≡ true) (cleaned s)
cleaned-IsHex s = lower-AllOf is_hex _ is_hex-lower_char (keep-AllOf is_hex s)

cleaned-colons : (s : String) → cleaned (colons (cleaned s)) ≡ cleaned s
cleaned-colons s = rw (keep-colons (cleaned s) (cleaned-IsHex s)) (lower-lower (keep is_hex s))

-- six pairs of digits in lower case, with colons between them
pub record IsNormal (mac : String) : Type 0 where
  pub fixed : normalize_mac mac ≡ mac
  pub pairs : IsPairs 5 mac

pub normalize_mac-IsNormal : (s : String) → (normalize_mac s ≡ "") ⊎ IsNormal (normalize_mac s)
unfolding normalize_mac
normalize_mac-IsNormal s = elim (Bool-cases (text_length (cleaned s) == 12)) [
  | inl e ↦ rw e (
      inr (record {
        fixed = rw (cleaned-colons s, e) refl;
        pairs =
            colons-IsPairs 5 (cleaned s) (ground (arith, ==_iff (text_length (cleaned s)) 12))
              (lower-IsLow _ (keep-AllOf is_hex s));
      }))
  | inr e ↦ inl (rw e refl)
]

-- Reading an address that was read already changes nothing.
pub normalize_mac-normalize_mac : (s : String) → normalize_mac (normalize_mac s) ≡ normalize_mac s
normalize_mac-normalize_mac s = elim (normalize_mac-IsNormal s) [
  | inl e ↦ rw e (unfold normalize_mac in refl)
  | inr n ↦ n.fixed
]
