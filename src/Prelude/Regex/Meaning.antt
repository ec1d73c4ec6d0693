-- ===== src/Prelude/Regex/Meaning.antt =====
-- What it means for a pattern to match, with no order of search in it, and that the search
-- finds a match exactly where there is one.
use Prim.Native.Char.{Char}
use Prim.Native.String.{String, [], ◌∷◌}
use mathlib.Core.Path.{◌≡◌, refl}
use mathlib.Core.Logic.{◌↔◌, inl, inr}
use mathlib.Core.Bool.{Bool, true}
use mathlib.Core.Option.{Option, none, some}
use mathlib.Core.List.{List, ◌++◌, append-nil, append_assoc}
use native.Mathlib.Omega.{arith}
use go_digi.Prelude.Lists.{single}
use go_digi.Prelude.Tests.{Bool-cases, Option-cases, is_some}
use go_digi.Prelude.Regex.{
  Regex, nothing, one, many, both, either, group, absent, at_end, Groups, consumed, match_many,
  match_then, match_here, search, captured,
}

-- `Match r s t g`: a match of `r` may take `s` up to its tail `t`, with `g` in the groups
pub data Match : Regex → String → String → Groups → Type 0 where
  m_nothing : {s : String} → Match nothing s s List.[]
  m_one : {p : Char → Bool} {c : Char} {s : String} → p c ≡ true → Match (one p) (c ∷ s) s List.[]
  m_none : {p : Char → Bool} {s : String} → Match (many p) s s List.[]
  m_more :
      {p : Char → Bool} {c : Char} {s t : String} {g : Groups}
      → p c ≡ true
      → Match (many p) s t g
      → Match (many p) (c ∷ s) t g
  m_both :
      {r q : Regex} {s t u : String} {g h : Groups}
      → Match r s t g
      → Match q t u h
      → Match (both r q) s u (g ++ h)
  m_left : {r q : Regex} {s t : String} {g : Groups} → Match r s t g → Match (either r q) s t g
  m_right : {r q : Regex} {s t : String} {g : Groups} → Match q s t g → Match (either r q) s t g
  m_group :
      {r : Regex} {s t : String} {g : Groups}
      → Match r s t g
      → Match (group r) s t (g ++ single (some (consumed s t)))
  m_absent : {s : String} → Match absent s s (single none)
  m_end : Match at_end [] [] List.[]

module _ {ℓ} {A : Type ℓ} where
  -- a match of `r` from `s` after which the rest gives `a`
  abbrev Found : Regex → String → Groups → (String → Groups → Option A) → A → Type ℓ
  Found r s g k a = (t : String) × (h : Groups) × Match r s t h × (k t (g ++ h) ≡ some a)

  Found-here :
      (r : Regex) (s : String) (g : Groups) (k : String → Groups → Option A) {a : A}
      → Match r s s List.[]
      → k s g ≡ some a
      → Found r s g k a
  Found-here r s g k m e = (s, List.[], m, rw append-nil e)

  many-Found :
      (p : Char → Bool) (s : String) (g : Groups) (k : String → Groups → Option A) {a : A}
      → match_many p s g k ≡ some a
      → Found (many p) s g k a
  unfolding match_many
  many-Found p [] g k e = Found-here (many p) [] g k m_none e
  many-Found p (c ∷ s) g k {a} e = elim (Bool-cases (p c)) [
    | inl y ↦ elim (Option-cases (match_many p s g k)) [
      | inl n ↦ Found-here (many p) (c ∷ s) g k m_none (ground arith)
      | inr (b, n) ↦
          let same : match_many p s g k ≡ some a = ground arith in
          let (t, h, m, q) = many-Found p s g k same in (t, h, m_more y m, q)
    ]
    | inr n ↦ Found-here (many p) (c ∷ s) g k m_none (ground arith)
  ]

  -- a first pattern, then the second, then the rest
  both-Found :
      (r q : Regex) (s t : String) (g h : Groups) (k : String → Groups → Option A) (a : A)
      → Match r s t h
      → Found q t (g ++ h) k a
      → Found (both r q) s g k a
  both-Found r q s t g h k a m (u, i, n, e) = (u, h ++ i, m_both m n, rw (← append_assoc g h i) e)

  match_then-Found :
      (r : Regex) (s : String) (g : Groups) (k : String → Groups → Option A) {a : A}
      → match_then r s g k ≡ some a
      → Found r s g k a
  unfolding match_then
  match_then-Found nothing s g k e = Found-here nothing s g k m_nothing e
  match_then-Found (one p) [] g k e = cc
  match_then-Found (one p) (c ∷ s) g k e = elim (Bool-cases (p c)) [
    | inl y ↦ (s, List.[], m_one y, rw append-nil (ground arith))
    | inr n ↦ absurd (ground arith)
  ]
  match_then-Found (many p) s g k e = many-Found p s g k e
  match_then-Found (both r q) s g k {a} e =
      let (t, h, m, f) = match_then-Found r s g (λ t h. match_then q t h k) e in
      both-Found r q s t g h k a m (match_then-Found q t (g ++ h) k f)
  match_then-Found (either r q) s g k {a} e = elim (Option-cases (match_then r s g k)) [
    | inl n ↦ let (t, h, m, f) = match_then-Found q s g k (ground arith) in (t, h, m_right m, f)
    | inr (b, n) ↦
        let same : match_then r s g k ≡ some a = ground arith in
        let (t, h, m, f) = match_then-Found r s g k same in (t, h, m_left m, f)
  ]
  match_then-Found (group r) s g k e =
      let (t, h, m, f) =
        match_then-Found r s g (λ t h. k t (h ++ single (some (consumed s t)))) e in
      (t, h ++ single (some (consumed s t)), m_group m, rw (← append_assoc g h _) f)
  match_then-Found absent s g k e = (s, single none, m_absent, e)
  match_then-Found at_end [] g k e = Found-here at_end [] g k m_end e
  match_then-Found at_end (c ∷ s) g k e = cc

  many-stop :
      (p : Char → Bool) (s : String) (g : Groups) (k : String → Groups → Option A)
      → is_some (k s g) ≡ true
      → is_some (match_many p s g k) ≡ true
  unfolding match_many
  many-stop p [] g k e = e
  many-stop p (c ∷ s) g k e = ground (arith, e)

  -- Where there is a match after which the rest succeeds, the search succeeds.
  match_then_complete :
      {r : Regex} {s t : String} {h : Groups}
      → Match r s t h
      → (g : Groups) (k : String → Groups → Option A) → is_some (k t (g ++ h)) ≡ true
      → is_some (match_then r s g k) ≡ true
  unfolding match_then match_many
  match_then_complete m_nothing g k e = rw append-nil at e
  match_then_complete (m_one y) g k e = rw y (rw append-nil at e)
  match_then_complete {s} (m_none {p}) g k e = many-stop p s g k (rw append-nil at e)
  match_then_complete (m_more y m) g k e =
      let ih = match_then_complete m g k e in ground (arith, y, ih)
  match_then_complete (m_both {g = i} {h = j} m n) g k e =
      match_then_complete m g _ (match_then_complete n (g ++ i) k (rw (append_assoc g i j) e))
  match_then_complete (m_left m) g k e = let ih = match_then_complete m g k e in ground (arith, ih)
  match_then_complete (m_right m) g k e = let ih = match_then_complete m g k e in ground (arith, ih)
  match_then_complete (m_group {g = i} m) g k e =
      match_then_complete m g _ (rw (append_assoc g i _) e)
  match_then_complete m_absent g k e = e
  match_then_complete m_end g k e = rw append-nil at e

-- a match of `r` at some position of `s`
pub data Occurs (r : Regex) : String → Groups → Type 0 where
  o_here : {s t : String} {g : Groups} → Match r s t g → Occurs r s g
  o_later : {c : Char} {s : String} {g : Groups} → Occurs r s g → Occurs r (c ∷ s) g

match_here-Match :
    (r : Regex) (s : String) {g : Groups} → match_here r s ≡ some g → (t : String) × Match r s t g
unfolding match_here
match_here-Match r s {g} e =
    let (t, h, m, f) = match_then-Found r s List.[] captured e in
    let same : h ≡ g = ground arith in (t, rw (← same) m)

search-Occurs : (r : Regex) (s : String) {g : Groups} → search r s ≡ some g → Occurs r s g
unfolding search
search-Occurs r [] e = o_here (match_here-Match r [] e).1
search-Occurs r (c ∷ s) {g} e = elim (Option-cases (match_here r (c ∷ s))) [
  | inl n ↦ o_later (search-Occurs r s (ground arith))
  | inr (b, n) ↦
      let same : match_here r (c ∷ s) ≡ some g = ground arith in
      o_here (match_here-Match r (c ∷ s) same).1
]

search_complete : {r : Regex} {s : String} {g : Groups} → Occurs r s g → is_some (search r s) ≡ true
unfolding search match_here
search_complete {s = []} (o_here m) = match_then_complete m List.[] captured refl
search_complete {s = c ∷ s} (o_here m) =
    let ih = match_then_complete m List.[] captured refl in ground (arith, ih)
search_complete {r} {s = c ∷ s} (o_later o) = let ih = search_complete o in ground (arith, ih)

-- The test of a pattern is true exactly of the texts in which it matches somewhere.
pub search_iff :
    (r : Regex) (s : String) → (is_some (search r s) ≡ true) ↔ ((g : Groups) × Occurs r s g)
search_iff r s = (
  λ e. elim (Option-cases (search r s)) [
    | inl n ↦ absurd (ground (arith, e))
    | inr (g, q) ↦ (g, search-Occurs r s q)
  ],
  λ o. search_complete o.1,
)
