-- ===== src/Accounts/Login/Lockout.antt =====
-- Theorems on the login of web/src/app/api/auth/route.ts: who gets in, and when an account locks.
use go_digi.Prelude.{
  refl, ◌++◌, ◌∙◌, ℕ, ◌+◌, ◌-◌, ◌/◌, ◌≤◌, ◌<◌, String, Bool, true, false, ◌&&◌, ◌||◌, not, Option,
  none, some, List, [], ◌∷◌, ◌≡◌, ltb, ◌==◌, str_eq, find-update_where, All, arith, length,
}
use go_digi.Http.{run}
use go_digi.Accounts.{User, AccountsDb}
use go_digi.Accounts.Login.{
  LoginResponse, logged_in, error, locked_for, answers_to, account, update_user, login,
  check_lockout, check_password, log_in_to, max_attempts, count_failure, lock_account,
}

abbrev pub locked_at : ℕ → Option ℕ → Bool
locked_at now none = false
locked_at now (some t) = ltb now t

module _ (compare : String → String → Bool) where
  -- what the login promises: an active account that is not locked, and its password
  abbrev pub may_log_in : ℕ → String → Option User → Bool
  may_log_in now password none = false
  may_log_in now password (some u) =
      u.is_active && not (locked_at now u.locked_until) && compare password u.password_hash

  abbrev pub is_logged_in : Option LoginResponse → Bool
  is_logged_in (some (logged_in id name role)) = true
  is_logged_in _ = false

  -- A login succeeds exactly if both fields are given, an account answers to the name, it is
  -- active, it has no lock or one that has run out by now, and bcrypt accepts the password.
  pub login-may_log_in :
      (now : ℕ) (username password : String) (db : AccountsDb)
      → is_logged_in (run (login compare now username password) db).0 ≡ (
          not (str_eq username "" || str_eq password "")
          && may_log_in now password (account username db))
  unfolding login log_in_to check_lockout check_password
  login-may_log_in now username password db = ground arith

  -- locked
  pub login-locked :
      (now until : ℕ) (username password : String) (db : AccountsDb) {u : User}
      → (str_eq username "" || str_eq password "") ≡ false
      → account username db ≡ some u
      → u.is_active ≡ true
      → u.locked_until ≡ some until
      → now < until
      → run (login compare now username password) db
        ≡ (some (error 429 (locked_for ((until - now + 59999) / 60000))), db)
  unfolding login log_in_to check_lockout check_password
  login-locked now until username password db given at active lock h = ground arith

  -- the copy of the row that the loop of attempts sees
  pub account-update_user :
      (name : String) (id : ℕ) (f : User → User) (db : AccountsDb) {u : User}
      → ((v : User) → answers_to name (f v) ≡ answers_to name v)
      → account name db ≡ some u
      → u.id ≡ id
      → account name (update_user id f db) ≡ some (f u)
  account-update_user name id f db {u} keeps at same =
      ground (arith, find-update_where (answers_to name) (λ v. v.id == id) f db.users keeps)

  module _ (now : ℕ) (username password : String) (db : AccountsDb) {u : User}
      (given : (str_eq username "" || str_eq password "") ≡ false)
      (at : account username db ≡ some u) (active : u.is_active ≡ true)
      (unlocked : u.locked_until ≡ none) (wrong : compare password u.password_hash ≡ false) where
    account-login_wrong :
        u.failed_attempts + 1 < max_attempts
        → account username (login compare now username password db).1
          ≡ some (count_failure (u.failed_attempts + 1) u)
    unfolding login log_in_to check_lockout check_password
    account-login_wrong h = ground (
      arith,
      account-update_user username u.id (count_failure (u.failed_attempts + 1)) db (λ v. refl) at
          refl,
    )

    account-login_last :
        u.failed_attempts + 1 ≡ max_attempts
        → account username (login compare now username password db).1
          ≡ some (lock_account max_attempts now u)
    unfolding login log_in_to check_lockout check_password
    account-login_last h = ground (
      arith,
      account-update_user username u.id (lock_account (u.failed_attempts + 1) now) db (λ v. refl) at
          refl,
    )

  -- Attempts on one account, each a time and a password.
  abbrev pub attempt_all : String → List (ℕ × String) → AccountsDb → AccountsDb
  attempt_all username [] db = db
  attempt_all username ((now, password) ∷ tries) db =
      attempt_all username tries (login compare now username password db).1

  -- a try with some password, and not the right one
  abbrev pub IsWrong : User → ℕ × String → Type 0
  IsWrong u (now, password) =
      (str_eq password "" ≡ false) × (compare password u.password_hash ≡ false)

  account-attempt_all :
      (username : String) (tries : List (ℕ × String)) (db : AccountsDb) (u : User)
      → str_eq username "" ≡ false
      → account username db ≡ some u
      → u.is_active ≡ true
      → u.locked_until ≡ none
      → All (IsWrong u) tries
      → u.failed_attempts + length tries < max_attempts
      → account username (attempt_all username tries db)
        ≡ some (count_failure (u.failed_attempts + length tries) u)
  account-attempt_all username [] db u name at active unlocked wrong few = ground arith
  account-attempt_all username ((now, password) ∷ tries) db u name at active unlocked wrong few =
      ground (
        arith,
        account-attempt_all username tries (login compare now username password db).1
            (count_failure (u.failed_attempts + 1) u) name
            (account-login_wrong now username password db (ground arith) at active unlocked
              wrong.0.1 (omega arith))
            active unlocked wrong.1 (omega arith),
      )

  attempt_all-append :
      (username : String) (xs ys : List (ℕ × String)) (db : AccountsDb)
      → attempt_all username (xs ++ ys) db ≡ attempt_all username ys (attempt_all username xs db)
  attempt_all-append username [] ys db = refl
  attempt_all-append username ((now, password) ∷ xs) ys db =
      attempt_all-append username xs ys (login compare now username password db).1

  module _ (username : String) (tries : List (ℕ × String)) (now : ℕ) (last : String)
      (db : AccountsDb) {u : User} (name : str_eq username "" ≡ false)
      (at : account username db ≡ some u) (active : u.is_active ≡ true)
      (unlocked : u.locked_until ≡ none) (fresh : u.failed_attempts ≡ 0) (four : length tries ≡ 4)
      (wrong : All (IsWrong u) tries) (wrong_last : IsWrong u (now, last)) where
    -- the state after the fifth wrong password
    pub account-five_failures :
        account username (attempt_all username (tries ++ (now, last) ∷ []) db)
        ≡ some (lock_account max_attempts now u)
    account-five_failures = rw (attempt_all-append username tries ((now, last) ∷ []) db) (
        account-login_last now username last (attempt_all username tries db) (ground arith)
          (account-attempt_all username tries db u name at active unlocked wrong (omega arith))
          active unlocked wrong_last.1 (omega arith))

    -- After five wrong, nonempty passwords in a row on an active, unlocked account with no
    -- failures counted, any nonempty password, right or wrong, is refused with status 429 until
    -- thirty minutes after the fifth, with the minutes left rounded up, and changes nothing.
    pub lockout :
        (later : ℕ) (password : String)
        → str_eq password "" ≡ false
        → later < now + 1800000
        → let after = attempt_all username (tries ++ (now, last) ∷ []) db in
          run (login compare later username password) after
          ≡ (some (error 429 (locked_for ((now + 1800000 - later + 59999) / 60000))), after)
    lockout later password given early =
        login-locked later (now + 1800000) username password
          (attempt_all username (tries ++ (now, last) ∷ []) db) (ground arith) account-five_failures
          active refl early

    -- After five wrong passwords in a row on an active, unlocked account with no failures
    -- counted, the right password succeeds again from thirty minutes after the fifth on.
    pub lockout_ends :
        (later : ℕ) (password : String)
        → str_eq password "" ≡ false
        → now + 1800000 ≤ later
        → compare password u.password_hash ≡ true
        → let after = attempt_all username (tries ++ (now, last) ∷ []) db in
          is_logged_in (run (login compare later username password) after).0 ≡ true
    lockout_ends later password given late right =
        login-may_log_in later username password
          (attempt_all username (tries ++ (now, last) ∷ []) db)
        ∙ ground (arith, account-five_failures)
