-- ===== src/Accounts/Tests.antt =====
-- Accounts on concrete data: a password is its own hash.
use go_digi.Prelude.{
  ◌<◌, ◌↔◌, ◌≢◌, ℕ, ◌+◌, String, true, false, Option, none, some, List, [], ◌∷◌, ◌≡◌, refl, str_eq,
  eq_refl, ltb, if◌then◌else◌, arith, ◌++◌,
}
use go_digi.Http.{ok, run, Response}
use go_digi.Accounts.{
  AccountsDb, AuthUser, Jwt, User, admin, operator, require_role, get_auth_user, sign_token,
}
use go_digi.Accounts.Login.{login, locked_for, LoginResponse}
use go_digi.Accounts.Login.Guard.{AllGuarded}
use go_digi.Accounts.Login.Lockout.{
  lockout, lockout_ends, login-may_log_in, attempt_all, is_logged_in,
}
use go_digi.Accounts.Requests.{log_in, create, serve_all, serve_all-AllGuarded}
use go_digi.Accounts.Sessions.{passes, Holds, require_role-sign_token}
use go_digi.Accounts.Users.{NewUser, UserChange, create_user, update_account, deactivate_user}
use go_digi.Accounts.Users.Effects.{login-create_user, update_account-keeps, AsksNothing}

abbrev keep : String → String
keep p = p

abbrev kim : User
kim = record {
  id = 7;
  username = "kim";
  email = "kim@example.com";
  password_hash = "secret";
  role = operator;
  is_active = true;
  failed_attempts = 0;
  locked_until = none;
  last_login = none;
}

abbrev accounts : AccountsDb
accounts = record { users = kim ∷ []; audit_logs = []; next_id = 8 }

abbrev root : AuthUser
root = record { id = 1; username = "root"; email = "root@example.com"; role = admin }

abbrev lee : NewUser
lee = record { username = "lee"; email = "lee@example.com"; password = "hello"; role = none }

abbrev guesses : List (ℕ × String)
guesses = (1000, "a") ∷ (2000, "b") ∷ (3000, "c") ∷ (4000, "d") ∷ []

-- a token that holds its user and the second of its end
abbrev plain_verify : AuthUser × ℕ → ℕ → Option AuthUser
plain_verify (u, end) now = if ltb now end then some u else none

abbrev plain_jwt : Jwt
plain_jwt = record {
  Token = AuthUser × ℕ;
  is_empty = λ t. false;
  sign = λ u lifetime t. (u, t + lifetime);
  verify = plain_verify;
  signed_is_not_empty = λ u lifetime t. refl;
  verify-sign = λ u lifetime t now. refl;
}

login-may_log_in_example :
    is_logged_in str_eq (run (login str_eq 5000 "kim" "secret") accounts).0 ≡ true
login-may_log_in_example = login-may_log_in str_eq 5000 "kim" "secret" accounts

lockout_example :
    let after = attempt_all str_eq "kim" (guesses ++ (5000, "e") ∷ []) accounts in
    run (login str_eq 6000 "kim" "secret") after
    ≡ (some (LoginResponse.error 429 (locked_for 30)), after)
lockout_example =
    lockout str_eq "kim" guesses 5000 "e" accounts {u = kim} refl refl refl refl refl refl
      ((refl, refl), ((refl, refl), ((refl, refl), ((refl, refl), tt)))) (refl, refl) 6000 "secret"
      refl (omega arith)

lockout_ends_example :
    let after = attempt_all str_eq "kim" (guesses ++ (5000, "e") ∷ []) accounts in
    is_logged_in str_eq (run (login str_eq 1805000 "kim" "secret") after).0 ≡ true
lockout_ends_example =
    lockout_ends str_eq "kim" guesses 5000 "e" accounts {u = kim} refl refl refl refl refl refl
      ((refl, refl), ((refl, refl), ((refl, refl), ((refl, refl), tt)))) (refl, refl) 1805000
      "secret" refl (omega arith) refl

accounts_guarded : AllGuarded accounts
accounts_guarded = (record { within = omega arith; locked = λ _. omega arith }, tt)

serve_all-AllGuarded_example : AllGuarded (
    serve_all str_eq keep
      (log_in 1 "kim" "x" ∷ create (some root) lee ∷ log_in 2 "lee" "y" ∷ [])
      accounts)
serve_all-AllGuarded_example =
    serve_all-AllGuarded str_eq keep
      (log_in 1 "kim" "x" ∷ create (some root) lee ∷ log_in 2 "lee" "y" ∷ []) accounts
      accounts_guarded

require_role-sign_token_example :
    (passes
        (require_role {R = Response} {S = AccountsDb} operator
          (get_auth_user plain_jwt 28900 (some (sign_token plain_jwt root 101)))
          accounts).0
      ≡ true)
    ↔ ((28900 < 101 + 28800) × Holds admin operator)
require_role-sign_token_example = require_role-sign_token plain_jwt root 101 28900 operator accounts

login-create_user_example :
    is_logged_in str_eq
      (run (login str_eq 9 "lee" "hello") (run (create_user keep (some root) lee) accounts).1).0
    ≡ true
login-create_user_example =
    login-create_user str_eq keep (some root) lee 8 9 accounts (λ password. eq_refl password) refl
      (unfold create_user in refl)

abbrev off : UserChange
off = record { id = some 7; role = none; is_active = some false; password = none }

update_account-keeps_example :
    ((run (update_account keep (some root) off) accounts).1 ≡ accounts)
    × ((run (deactivate_user (some root) (some 7)) accounts).1 ≡ accounts)
    × ((run (deactivate_user (some root) (some 7)) accounts).0 ≢ some ok)
    × (false ≡ false → true ≡ true → (run (deactivate_user (some root) (some 7)) accounts).0 ≡ none)
    × ((run (update_account keep (some root) off) accounts).0 ≡ some ok → AsksNothing off)
update_account-keeps_example = update_account-keeps keep (some root) off (some 7) accounts
