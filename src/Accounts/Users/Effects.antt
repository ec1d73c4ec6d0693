-- ===== src/Accounts/Users/Effects.antt =====
-- What the account routes do to a later login.
use mathlib.Core.Bool.{◌||◌}
use go_digi.Prelude.{
  ◌∙◌, ◌≢◌, inl, inr, Option-cases, ℕ, String, Bool, false, true, Option, none, some, ◌≡◌, str_eq,
  eq_refl, find-insert, arith, ltb, ap, eq_iff, is_some, ◌⊎◌,
}
use go_digi.Http.{created, error, ok, run}
use go_digi.Accounts.{AccountsDb, AuthUser, hierarchy, Role}
use go_digi.Accounts.Login.{login, account, answers_to}
use go_digi.Accounts.Login.Lockout.{is_logged_in, login-may_log_in}
use go_digi.Accounts.Users.{
  NewUser, UserChange, create_user, update_account, deactivate_user, set_role, set_is_active,
  set_password, new_user, to_role, role_or_readonly,
}

abbrev pub AsksNothing : UserChange → Type 0
AsksNothing change =
    (change.role ≡ none)
    × (change.is_active ≡ none)
    × ((change.password ≡ none) ⊎ (change.password ≡ some ""))

abbrev pub ranks_below_admin : Option AuthUser → Bool
ranks_below_admin none = true
ranks_below_admin (some u) = ltb (hierarchy u.role) 2

-- Without a session, or with one that ranks below admin, creating, updating and deactivating an
-- account all answer 401 and change nothing.
unauthorized_changes_nothing :
    (hash : String → String) (session : Option AuthUser) (body : NewUser) (change : UserChange)
    (id : Option ℕ) (db : AccountsDb)
    → ranks_below_admin session ≡ true
    → (run (create_user hash session body) db ≡ (some (error 401 "Unauthorized"), db))
      × (run (update_account hash session change) db ≡ (some (error 401 "Unauthorized"), db))
      × (run (deactivate_user session id) db ≡ (some (error 401 "Unauthorized"), db))
unfolding create_user update_account deactivate_user
unauthorized_changes_nothing hash session body change id db below =
    (ground arith, ground arith, ground arith)

-- a creation that succeeds had both fields, and its row answers to the new name
account-create_user :
    (hash : String → String) (session : Option AuthUser) (body : NewUser) (id : ℕ) (db : AccountsDb)
    (role : Role)
    → account body.username db ≡ none
    → to_role (role_or_readonly body.role) ≡ some role
    → (run (create_user hash session body) db).0 ≡ some (created id)
    → (account body.username (run (create_user hash session body) db).1
        ≡ some (new_user db.next_id body (hash body.password) role))
      × ((str_eq body.username "" || str_eq body.password "") ≡ false)
unfolding create_user
account-create_user hash session body id db role new known done = (
  ground (
    arith,
    eq_refl body.username,
    find-insert (answers_to body.username) db.users
        (new_user db.next_id body (hash body.password) role) new,
  ),
  ground arith,
)

known_role :
    (hash : String → String) (session : Option AuthUser) (body : NewUser) (id : ℕ) (db : AccountsDb)
    → to_role (role_or_readonly body.role) ≡ none
    → (run (create_user hash session body) db).0 ≢ some (created id)
unfolding create_user
known_role hash session body id db unknown done = ground arith

-- If bcrypt accepts each password against its own hash and nobody answered to the name before,
-- then a user whose creation was answered with an id can log in at any time with the name and
-- password that were given.
pub login-create_user :
    (compare : String → String → Bool) (hash : String → String) (session : Option AuthUser)
    (body : NewUser) (id now : ℕ) (db : AccountsDb)
    → ((password : String) → compare password (hash password) ≡ true)
    → account body.username db ≡ none
    → (run (create_user hash session body) db).0 ≡ some (created id)
    → is_logged_in compare
        (run
          (login compare now body.username body.password)
          (run (create_user hash session body) db).1).0
      ≡ true
login-create_user compare hash session body id now db hashed new done =
    elim (Option-cases (to_role (role_or_readonly body.role))) [
      | inl unknown ↦ absurd (known_role hash session body id db unknown done)
      | inr (role, known) ↦
          login-may_log_in compare now body.username body.password
            (run (create_user hash session body) db).1
          ∙ ground (
            arith,
            hashed body.password,
            account-create_user hash session body id db role new known done,
          )
    ]

-- Updating and deactivating never change an account, whoever asks: a deactivation never answers
-- ok, and ends with an exception where an administrator asks for one with an id; an update
-- answers ok only if it asks for no role, no activity and no nonempty password.
pub update_account-keeps :
    (hash : String → String) (session : Option AuthUser) (change : UserChange) (id : Option ℕ)
    (db : AccountsDb)
    → ((run (update_account hash session change) db).1 ≡ db)
      × ((run (deactivate_user session id) db).1 ≡ db)
      × ((run (deactivate_user session id) db).0 ≢ some ok)
      × (ranks_below_admin session ≡ false
          → is_some id ≡ true
          → (run (deactivate_user session id) db).0 ≡ none)
      × ((run (update_account hash session change) db).0 ≡ some ok → AsksNothing change)
unfolding update_account deactivate_user set_role set_is_active set_password
update_account-keeps hash session change id db = (
  ground arith,
  ground arith,
  λ h. ground arith,
  λ admin given. ground arith,
  λ h. (
    ground arith,
    ground arith,
    elim (Option-cases change.password) [
      | inl e ↦ inl e
      | inr (p, e) ↦ inr (e ∙ ap some ((eq_iff p "").0 (ground arith)))
    ],
  ),
)
