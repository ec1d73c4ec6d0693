-- ===== src/Prelude/Rows.antt =====
-- SQL statements over a table that is a list of rows: SELECT ... LIMIT 1, SELECT, UPDATE, DELETE.
-- Without ORDER BY a query reads the rows in the order of the table.
use mathlib.Core.Path.{◌≡◌, refl}
use mathlib.Core.Logic.{◌⊎◌, inl, inr}
use mathlib.Core.Bool.{Bool, true, false}
use mathlib.Core.Option
use mathlib.Core.Option.{Option, none, some}
use mathlib.Core.List.{List, [], ◌∷◌, ◌++◌}
use native.Mathlib.Omega.{arith}
use Prim.Native.Nat.{ℕ}
use go_digi.Prelude.Tests.{is_some, if◌then◌else◌, Bool-cases, ◌==◌, ==_iff}
use go_digi.Prelude.Lists.{All, All-append, Pairwise}

module _ {ℓ} {A : Type ℓ} where
  abbrev pub find : (A → Bool) → List A → Option A
  find p [] = none
  find p (x ∷ xs) = if p x then some x else find p xs

  abbrev pub select : (A → Bool) → List A → List A
  select p [] = []
  select p (x ∷ xs) = let rest = select p xs in if p x then x ∷ rest else rest

  abbrev pub update_where : (A → Bool) → (A → A) → List A → List A
  update_where p f [] = []
  update_where p f (x ∷ xs) = (if p x then f x else x) ∷ update_where p f xs

  abbrev pub delete_where : (A → Bool) → List A → List A
  delete_where p [] = []
  delete_where p (x ∷ xs) = let rest = delete_where p xs in if p x then rest else x ∷ rest

module _ {ℓ} {A : Type ℓ} where
  -- INSERT ... ON CONFLICT DO UPDATE, and whether it inserted
  abbrev pub upsert : (A → Bool) → (A → A) → A → List A → Bool × List A
  upsert p f y xs =
      if is_some (find p xs) then (false, update_where p f xs) else (true, xs ++ y ∷ [])

  -- what an UPDATE does to one row
  abbrev pub touch : (A → Bool) → (A → A) → A → A
  touch q f x = if q x then f x else x

  -- A query on columns that an UPDATE leaves alone finds the same row, updated.
  pub find-update_where :
      (p q : A → Bool) (f : A → A) (xs : List A)
      → ((x : A) → p (f x) ≡ p x)
      → find p (update_where q f xs) ≡ Option.map (touch q f) (find p xs)
  find-update_where p q f [] h = refl
  find-update_where p q f (x ∷ xs) h = ground (arith, h x, find-update_where p q f xs h)

  pub All-update_where {κ} :
      (P : A → Type κ) (q : A → Bool) (f : A → A) (xs : List A)
      → ((x : A) → q x ≡ true → P x → P (f x))
      → All P xs
      → All P (update_where q f xs)
  All-update_where P q f [] h k = tt
  All-update_where P q f (x ∷ xs) h (k, ks) =
      (touched (Bool-cases (q x)), All-update_where P q f xs h ks)
    where
      touched : (q x ≡ true) ⊎ (q x ≡ false) → P (touch q f x)
      touched (inl e) = rw e (h x e k)
      touched (inr e) = rw e k

  pub All-delete_where {κ} :
      (P : A → Type κ) (q : A → Bool) (xs : List A) → All P xs → All P (delete_where q xs)
  All-delete_where P q [] k = tt
  All-delete_where P q (x ∷ xs) (k, ks) = elim (Bool-cases (q x)) [
    | inl e ↦ rw e (All-delete_where P q xs ks)
    | inr e ↦ rw e (k, All-delete_where P q xs ks)
  ]

module _ {ℓ} {A : Type ℓ} where
  -- A query after an INSERT that it did not match before.
  pub find-insert :
      (p : A → Bool) (xs : List A) (y : A)
      → find p xs ≡ none
      → find p (xs ++ y ∷ []) ≡ (if p y then some y else none)
  find-insert p [] y h = refl
  find-insert p (x ∷ xs) y h = ground (arith, find-insert p xs y)

  pub All-find {κ} :
      (P : A → Type κ) (p : A → Bool) (xs : List A) {x : A}
      → All P xs
      → find p xs ≡ some x
      → P x × (p x ≡ true)
  All-find P p [] k h = cc
  All-find P p (y ∷ ys) {x} (k, ks) h = elim (Bool-cases (p y)) [
    | inl e ↦ let same : y ≡ x = ground arith in rw (← same) (k, e)
    | inr e ↦ All-find P p ys ks (ground arith)
  ]

-- what a search that finds nothing says of every row
pub find-eq_none {ℓ} :
    {A : Type ℓ} (p : A → Bool) (xs : List A) → find p xs ≡ none → All (λ x. p x ≡ false) xs
find-eq_none p [] h = tt
find-eq_none p (x ∷ xs) h = elim (Bool-cases (p x)) [
  | inl e ↦ absurd (ground arith)
  | inr e ↦ (e, find-eq_none p xs (ground arith))
]

module _ {ℓ κ} {A : Type ℓ} (R : A → A → Type κ) where
  pub Pairwise-insert :
      (xs : List A) (y : A) → Pairwise R xs → All (λ x. R x y) xs → Pairwise R (xs ++ y ∷ [])
  Pairwise-insert [] y h k = (tt, tt)
  Pairwise-insert (x ∷ xs) y (h, hs) (k, ks) =
      (All-append (R x) xs (y ∷ []) h (k, tt), Pairwise-insert xs y hs ks)

  pub Pairwise-delete_where :
      (q : A → Bool) (xs : List A) → Pairwise R xs → Pairwise R (delete_where q xs)
  Pairwise-delete_where q [] h = tt
  Pairwise-delete_where q (x ∷ xs) (h, hs) = elim (Bool-cases (q x)) [
    | inl e ↦ rw e (Pairwise-delete_where q xs hs)
    | inr e ↦ rw e (All-delete_where (R x) q xs h, Pairwise-delete_where q xs hs)
  ]

module _ {ℓ κ μ} {A : Type ℓ} (R : A → A → Type κ) (C : A → Type μ) (q : A → Bool) (f : A → A)
    (keeps : (x y : A) → C x → C y → R x y → R (touch q f x) (touch q f y)) where
  All-touch :
      (x : A) (ys : List A)
      → C x
      → All C ys
      → All (R x) ys
      → All (R (touch q f x)) (update_where q f ys)
  All-touch x [] c cs h = tt
  All-touch x (y ∷ ys) c (d, ds) (h, hs) = (keeps x y c d h, All-touch x ys c ds hs)

  -- An UPDATE keeps a relation between rows that it keeps of any two, given what is known of each.
  pub Pairwise-update_where :
      (xs : List A) → All C xs → Pairwise R xs → Pairwise R (update_where q f xs)
  Pairwise-update_where [] cs h = tt
  Pairwise-update_where (x ∷ xs) (c, cs) (h, hs) =
      (All-touch x xs c cs h, Pairwise-update_where xs cs hs)

-- what a query finds it was looking for
pub find-eq_some {ℓ} :
    {A : Type ℓ} (p : A → Bool) (xs : List A) {x : A} → find p xs ≡ some x → p x ≡ true
find-eq_some p [] h = cc
find-eq_some p (y ∷ ys) {x} h = elim (Bool-cases (p y)) [
  | inl e ↦ let same : y ≡ x = ground arith in rw (← same) e
  | inr e ↦ find-eq_some p ys (ground arith)
]

-- An UPDATE by key changes the row of that key and no other.
pub find_key-update_where {ℓ} :
    {A : Type ℓ} (key : A → ℕ) (f : A → A) (id j : ℕ) (xs : List A)
    → ((x : A) → key (f x) ≡ key x)
    → find (λ x. key x == j) (update_where (λ x. key x == id) f xs)
      ≡ (if j == id then Option.map f (find (λ x. key x == id) xs) else find (λ x. key x == j) xs)
find_key-update_where key f id j [] h = ground arith
find_key-update_where key f id j (x ∷ xs) h = ground (
  arith,
  h x,
  ==_iff (key x) id,
  ==_iff (key x) j,
  ==_iff j id,
  find_key-update_where key f id j xs h,
)
