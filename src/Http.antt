-- ===== src/Http.antt =====
-- What a route handler of web/src/app/api does: it reads and writes the database, returns a
-- response (at its end or early), or lets an exception escape.
use go_digi.Prelude.{ℕ, Bool, true, false, Option, none, some, String, ◌≡◌, refl}

-- `NextResponse.json(…)`: a success with the id that it carries, or an error with its status.
pub data Response : Type 0 where
  ok : Response
  created : ℕ → Response
  error : (status : ℕ) → (message : String) → Response

-- How a statement ends: with a value, by an early `return` of a response in `R`, or by a throw.
pub data Exit (R A : Type 0) : Type 0 where
  next : A → Exit R A
  reply : R → Exit R A
  throw : String → Exit R A

abbrev pub Handler : Type 0 → Type 0 → Type 0 → Type 0
Handler R S A = S → Exit R A × S

module _ {R S A B : Type 0} where
  abbrev pub continue : Exit R A → (A → Handler R S B) → Handler R S B
  continue (next a) f s = f a s
  continue (reply r) f s = (reply r, s)
  continue (throw e) f s = (throw e, s)

  infixl 5 ◌>>=◌ ◌>>◌
  abbrev pub ◌>>=◌ : Handler R S A → (A → Handler R S B) → Handler R S B
  ◌>>=◌ m f s = let (r, s') = m s in continue r f s'

  abbrev pub ◌>>◌ : Handler R S A → Handler R S B → Handler R S B
  m >> n = m >>= λ _. n

module _ {R S A : Type 0} where
  abbrev pub pure : A → Handler R S A
  pure a s = (next a, s)

  abbrev pub respond : R → Handler R S A
  respond r s = (reply r, s)

  abbrev pub raise : String → Handler R S A
  raise e s = (throw e, s)

  abbrev pub gets : (S → A) → Handler R S A
  gets f s = (next (f s), s)

  -- `if (!row) return …`
  abbrev pub found : Option A → R → Handler R S A
  found none r s = (reply r, s)
  found (some a) r s = (next a, s)

module _ {R S : Type 0} where
  abbrev pub modify : (S → S) → Handler R S (Unit {0})
  modify f s = (next tt, f s)

  -- `if (test) return …`
  abbrev pub reject_if : Bool → R → Handler R S (Unit {0})
  reject_if true r s = (reply r, s)
  reject_if false r s = (next tt, s)

-- The client's view of a handler: its response, at its end or early; `none` where an exception
-- escapes to the framework.
abbrev pub answer : {R : Type 0} → Exit R R → Option R
answer (next r) = some r
answer (reply r) = some r
answer (throw e) = none

abbrev pub run : {R S : Type 0} → Handler R S R → S → Option R × S
run h s = let (r, s') = h s in (answer r, s')

-- `Q` holds of the value that a statement hands on, if it hands one on.
abbrev pub Hands : {R A : Type 0} → (A → Type 0) → Exit R A → Type 0
Hands Q (next a) = Q a
Hands Q (reply r) = Unit
Hands Q (throw e) = Unit

abbrev pub Any : {A : Type 0} → A → Type 0
Any a = Unit

pub Hands-Any : {R A : Type 0} (e : Exit R A) → Hands Any e
Hands-Any (next a) = tt
Hands-Any (reply r) = tt
Hands-Any (throw e) = tt

-- What a statement and the statements after it keep of the database, both keep.
pub continue-keeps :
    {R S A B : Type 0} (P : S → Type 0) (Q : A → Type 0) (e : Exit R A) (f : A → Handler R S B)
    (s : S)
    → P s
    → Hands Q e
    → ((a : A) → Q a → P (f a s).1)
    → P (continue e f s).1
continue-keeps P Q (next a) f s h q k = k a q
continue-keeps P Q (reply r) f s h q k = h
continue-keeps P Q (throw e) f s h q k = h

-- `if (!row) return …` and what follows
pub found-keeps :
    {R S A B : Type 0} (P : S → Type 0) (o : Option A) (r : R) (f : A → Handler R S B) (s : S)
    → P s
    → ((a : A) → o ≡ some a → P (f a s).1)
    → P ((λ (x : Exit R A × S). continue x.0 f x.1) (found o r s)).1
found-keeps P none r f s h k = h
found-keeps P (some a) r f s h k = k a refl
