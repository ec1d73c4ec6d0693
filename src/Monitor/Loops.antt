-- ===== src/Monitor/Loops.antt =====
-- Lemmas on the loops of the jobs: what a loop that runs to its end does, that it runs to its end,
-- and what its rounds keep.
use mathlib.Core.Path.{subst, sym, ap}
use go_digi.Prelude.{
  ℕ, String, ◌≡◌, refl, Bool, true, false, Option, List, [], ◌∷◌, ◌++◌, All, any, arith, Bool-cases,
  inl, inr, select, update_where,
}
use go_digi.Http.{Exit, next, reply, throw, continue, continue-keeps, Any, Hands-Any}
use go_digi.Monitor.{MonitorDb, Job, Services, for_each, notify, send_alert, for_each-keeps}

pub any-append :
    {A : Type 0} (p : A → Bool) (xs ys : List A) → any p xs ≡ true → any p (xs ++ ys) ≡ true
any-append p [] ys h = cc
any-append p (x ∷ xs) ys h = ground (arith, any-append p xs ys)

pub any-last :
    {A : Type 0} (p : A → Bool) (xs : List A) (y : A) → p y ≡ true → any p (xs ++ y ∷ []) ≡ true
any-last p [] y h = ground arith
any-last p (x ∷ xs) y h = ground (arith, any-last p xs y h)

next_of :
    (e : Exit Unit Unit) (k : Unit → Job Unit) (db : MonitorDb)
    → (continue e k db).0 ≡ next tt
    → e ≡ next tt
next_of (next tt) k db h = refl
next_of (reply r) k db h = cc
next_of (throw e) k db h = cc

-- A loop that runs to its end does for each element what a round does for its own, if no round
-- undoes it.
module _ {A : Type 0} (f : A → Job Unit) (P : MonitorDb → Type 0) (Q : A → MonitorDb → Type 0)
    (keeps : (x : A) (s : MonitorDb) → P s → P (f x s).1)
    (does : (x : A) (s : MonitorDb) → P s → (f x s).0 ≡ next tt → Q x (f x s).1)
    (stays : (x y : A) (s : MonitorDb) → Q y s → Q y (f x s).1) where
  pub for_each-does :
      (xs : List A) (db : MonitorDb)
      → P db
      → (for_each f xs db).0 ≡ next tt
      → All (λ x. Q x (for_each f xs db).1) xs
  for_each-does [] db h done = tt
  for_each-does (x ∷ xs) db h done =
      let ran = next_of (f x db).0 (λ _. for_each f xs) (f x db).1 done in
      let rest : for_each f (x ∷ xs) db ≡ for_each f xs (f x db).1 =
        ap (λ (e : Exit Unit Unit). continue e (λ _. for_each f xs) (f x db).1) ran in
      subst (λ r. Q x r.1 × All (λ y. Q y r.1) xs) (sym rest)
        (
          for_each-keeps (Q x) f xs (f x db).1 (λ y s k. stays y x s k) (does x db h ran),
          for_each-does xs (f x db).1 (keeps x db h) (subst (λ r. r.0 ≡ next tt) rest done),
        )

-- A loop runs to its end if its rounds do.
pub for_each-next :
    {A : Type 0} (f : A → Job Unit) (xs : List A) (db : MonitorDb)
    → ((x : A) (s : MonitorDb) → (f x s).0 ≡ next tt)
    → (for_each f xs db).0 ≡ next tt
for_each-next f [] db h = refl
for_each-next f (x ∷ xs) db h =
    subst (λ e. (continue e (λ _. for_each f xs) (f x db).1).0 ≡ next tt) (sym (h x db))
      (for_each-next f xs (f x db).1 h)

pub send_alert-next :
    (services : Services) (id : ℕ) (title : String) (channels : List String)
    (to : Option (List String)) (db : MonitorDb)
    → (send_alert services id title channels to db).0 ≡ next tt
unfolding send_alert notify
send_alert-next services id title channels to db = for_each-next _ channels db (λ c s. refl)

-- `for_each-keeps` where the rounds are known to be on elements with `C`
pub for_each-keeps_all :
    {A : Type 0} (P : MonitorDb → Type 0) (C : A → Type 0) (f : A → Job Unit) (xs : List A)
    (db : MonitorDb)
    → ((x : A) (s : MonitorDb) → C x → P s → P (f x s).1)
    → All C xs
    → P db
    → P (for_each f xs db).1
for_each-keeps_all P C f [] db keeps c h = h
for_each-keeps_all P C f (x ∷ xs) db keeps (c, cs) h =
    continue-keeps P Any (f x db).0 (λ _. for_each f xs) (f x db).1 (keeps x db c h)
      (Hands-Any (f x db).0)
      (λ _ _. for_each-keeps_all P C f xs (f x db).1 keeps cs (keeps x db c h))

-- an UPDATE of rows that a search does not look for
pub any-update_where :
    {A : Type 0} (p q : A → Bool) (f : A → A) (xs : List A)
    → ((x : A) → p x ≡ true → q x ≡ false)
    → any p xs ≡ true
    → any p (update_where q f xs) ≡ true
any-update_where p q f [] apart h = cc
any-update_where p q f (x ∷ xs) apart h = ground (arith, apart x, any-update_where p q f xs apart)

pub All-select :
    {A : Type 0} (P : A → Type 0) (p : A → Bool) (xs : List A) → All P xs → All P (select p xs)
All-select P p [] h = tt
All-select P p (x ∷ xs) (h, hs) = elim (Bool-cases (p x)) [
  | inl e ↦ rw e (h, All-select P p xs hs)
  | inr e ↦ rw e (All-select P p xs hs)
]

-- `for_each-next` where the rounds are known to be on elements with `C`
pub for_each-next-All :
    {A : Type 0} (C : A → Type 0) (f : A → Job Unit) (xs : List A) (db : MonitorDb)
    → ((x : A) (s : MonitorDb) → C x → (f x s).0 ≡ next tt)
    → All C xs
    → (for_each f xs db).0 ≡ next tt
for_each-next-All C f [] db h c = refl
for_each-next-All C f (x ∷ xs) db h (c, cs) =
    subst (λ e. (continue e (λ _. for_each f xs) (f x db).1).0 ≡ next tt) (sym (h x db c))
      (for_each-next-All C f xs (f x db).1 h cs)
