-- ===== src/Accounts/Login.antt =====
-- POST of web/src/app/api/auth/route.ts: the login with its lockout. One request reads one clock,
-- `now`, in milliseconds; bcrypt's `compare` is a parameter.
pub mod Lockout
pub mod Guard
use go_digi.Prelude.{
  ℕ, ◌+◌, ◌-◌, ◌*◌, ◌/◌, String, Bool, ◌||◌, not, Option, none, some, ◌∷◌, ltb, leb, ◌==◌, str_eq,
  find, update_where, if◌then◌else◌,
}
use go_digi.Http.{Handler, found, gets, modify, pure, reject_if, respond, ◌>>=◌, ◌>>◌}
use go_digi.Accounts.{User, AccountsDb, Role}

abbrev pub max_attempts : ℕ
max_attempts = 5

abbrev pub lockout_minutes : ℕ
lockout_minutes = 30

-- the texts of the errors, with the numbers in them
pub data Message : Type 0 where
  enter_credentials bad_credentials : Message
  locked_for : (minutes : ℕ) → Message
  just_locked : Message
  failed_attempt : (attempts : ℕ) → Message

pub data LoginResponse : Type 0 where
  logged_in : (user_id : ℕ) → (username : String) → (role : Role) → LoginResponse
  error : (status : ℕ) → Message → LoginResponse

abbrev pub LoginHandler : Type 0 → Type 0
LoginHandler A = Handler LoginResponse AccountsDb A

-- SELECT ... WHERE username = $1 OR email = $1 LIMIT 1
abbrev pub answers_to : String → User → Bool
answers_to name u = str_eq u.username name || str_eq u.email name

abbrev pub account : String → AccountsDb → Option User
account name db = find (answers_to name) db.users

abbrev pub update_user : ℕ → (User → User) → AccountsDb → AccountsDb
update_user id f db = record db { users = update_where (λ u. u.id == id) f db.users }

abbrev pub unlock : User → User
unlock u = record u { failed_attempts = 0; locked_until = none }

abbrev pub count_failure : ℕ → User → User
count_failure attempts u = record u { failed_attempts = attempts }

abbrev pub lock_account : ℕ → ℕ → User → User
lock_account attempts now u = record u {
  failed_attempts = attempts;
  locked_until = some (now + lockout_minutes * 60000);
}

abbrev pub note_login : ℕ → User → User
note_login now u = record u { failed_attempts = 0; locked_until = none; last_login = some now }

-- The lock of an account: still on, run out (and reset in the row and in the copy), or none.
check_lockout : ℕ → User → LoginHandler User
check_lockout now user = elim user.locked_until [
  | none ↦ pure user
  | some locked_until ↦
      if ltb now locked_until
      then respond (error 429 (locked_for ((locked_until - now + 59999) / 60000)))
      else (do modify (update_user user.id unlock); pure (record user { failed_attempts = 0 }))
]

reject_password : ℕ → User → LoginHandler LoginResponse
reject_password now user =
    let attempts = user.failed_attempts + 1 in
    if leb max_attempts attempts
    then (do modify (update_user user.id (lock_account attempts now)); pure (error 429 just_locked))
    else (do
      modify (update_user user.id (count_failure attempts))
      pure (error 401 (failed_attempt attempts)))

accept_password : ℕ → User → LoginHandler LoginResponse
accept_password now user = do
  modify (update_user user.id (note_login now))
  modify (λ db. record db {
    audit_logs =
        (record { user_id = some user.id; action = "login"; target_id = some user.id })
        ∷ db.audit_logs;
  })
  pure (logged_in user.id user.username user.role)

check_password : (String → String → Bool) → ℕ → String → User → LoginHandler LoginResponse
unfolding reject_password accept_password
check_password compare now password user =
    if compare password user.password_hash
    then accept_password now user
    else reject_password now user

log_in_to : (String → String → Bool) → ℕ → String → User → LoginHandler LoginResponse
log_in_to compare now password user = do
  reject_if (not user.is_active) (error 401 bad_credentials)
  user' ← check_lockout now user
  check_password compare now password user'

pub login : (String → String → Bool) → ℕ → String → String → LoginHandler LoginResponse
login compare now username password = do
  reject_if (str_eq username "" || str_eq password "") (error 400 enter_credentials)
  row ← gets (account username)
  user ← found row (error 401 bad_credentials)
  log_in_to compare now password user
