-- ===== src/Accounts/Login/Guard.antt =====
-- The login of web/src/app/api/auth/route.ts keeps the bound on wrong passwords.
use go_digi.Prelude.{
  ℕ, ◌+◌, ◌≤◌, ◌<◌, String, Bool, false, none, ◌≡◌, ◌==◌, All, All-find, All-update_where, arith,
  leb, Option-cases, inl, inr,
}
use go_digi.Http.{Hands, continue-keeps}
use go_digi.Accounts.{User, AccountsDb}
use go_digi.Accounts.Login.{
  login, answers_to, account, max_attempts, update_user, check_lockout, reject_password,
  accept_password, check_password, log_in_to, unlock, lock_account, count_failure, note_login,
}

-- At most five wrong passwords, and the fifth has locked the account.
pub record IsGuarded (u : User) : Type 0 where
  pub within : u.failed_attempts ≤ max_attempts
  pub locked : u.locked_until ≡ none → u.failed_attempts < max_attempts

abbrev pub AllGuarded : AccountsDb → Type 0
AllGuarded db = All IsGuarded db.users

-- what the handler knows of its copy of the row
abbrev HasRoom : User → Type 0
HasRoom u = u.failed_attempts < max_attempts

pub update_user-AllGuarded :
    (id : ℕ) (f : User → User) (db : AccountsDb)
    → ((u : User) → IsGuarded u → IsGuarded (f u))
    → AllGuarded db
    → AllGuarded (update_user id f db)
update_user-AllGuarded id f db keeps h =
    All-update_where IsGuarded (λ u. u.id == id) f db.users (λ u _ g. keeps u g) h

check_lockout-AllGuarded :
    (now : ℕ) (u : User) (db : AccountsDb) → AllGuarded db → AllGuarded (check_lockout now u db).1
unfolding check_lockout
check_lockout-AllGuarded now u db h =
    ground (arith, update_user-AllGuarded u.id unlock db (λ v g. omega arith) h)

reject_password-AllGuarded :
    (now : ℕ) (u : User) (db : AccountsDb)
    → HasRoom u
    → AllGuarded db
    → AllGuarded (reject_password now u db).1
unfolding reject_password
reject_password-AllGuarded now u db room h = ground (
  arith,
  λ (few : leb max_attempts (u.failed_attempts + 1) ≡ false).
      update_user-AllGuarded u.id (count_failure (u.failed_attempts + 1)) db (λ v g. ground arith)
        h,
  update_user-AllGuarded u.id (lock_account (u.failed_attempts + 1) now) db (λ v g. ground arith) h,
)

accept_password-AllGuarded :
    (now : ℕ) (u : User) (db : AccountsDb) → AllGuarded db → AllGuarded (accept_password now u db).1
unfolding accept_password
accept_password-AllGuarded now u db h =
    update_user-AllGuarded u.id (note_login now) db (λ v g. omega arith) h

-- the copy that the password is held against has room for one more failure
room_after :
    (now : ℕ) (u : User) (db : AccountsDb) → IsGuarded u → Hands HasRoom (check_lockout now u db).0
unfolding check_lockout
room_after now u db g = ground arith

module _ (compare : String → String → Bool) (now : ℕ) (password : String) where
  check_password-AllGuarded :
      (u : User) (db : AccountsDb)
      → HasRoom u
      → AllGuarded db
      → AllGuarded (check_password compare now password u db).1
  unfolding check_password
  check_password-AllGuarded u db room h =
      ground
        (arith, accept_password-AllGuarded now u db h, reject_password-AllGuarded now u db room h)

  log_in_to-AllGuarded :
      (u : User) (db : AccountsDb)
      → IsGuarded u
      → AllGuarded db
      → AllGuarded (log_in_to compare now password u db).1
  unfolding log_in_to
  log_in_to-AllGuarded u db g h = ground (
    arith,
    continue-keeps AllGuarded HasRoom (check_lockout now u db).0
        (check_password compare now password) (check_lockout now u db).1
        (check_lockout-AllGuarded now u db h) (room_after now u db g)
        (λ v room.
          check_password-AllGuarded v (check_lockout now u db).1 room
            (check_lockout-AllGuarded now u db h)),
  )

  pub login-AllGuarded :
      (username : String) (db : AccountsDb)
      → AllGuarded db
      → AllGuarded (login compare now username password db).1
  unfolding login
  login-AllGuarded username db h = elim (Option-cases (account username db)) [
    | inl e ↦ ground (arith, e)
    | inr (u, e) ↦ ground (
      arith,
      e,
      log_in_to-AllGuarded u db (All-find IsGuarded (answers_to username) db.users h e).0 h,
    )
  ]
