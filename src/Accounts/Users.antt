-- ===== src/Accounts/Users.antt =====
-- web/src/app/api/settings/users/route.ts: accounts managed by an administrator. bcrypt's `hash` is
-- a parameter.
pub mod Effects
pub mod Guard
use mathlib.Core.Bool.{◌||◌}
use go_digi.Prelude.{
  ℕ, suc, String, Bool, false, true, Option, none, some, List, [], ◌∷◌, ◌++◌, str_eq, ◌==◌, find,
  any, is_some, if◌then◌else◌,
}
use go_digi.Http.{
  Handler, Exit, next, reply, throw, Response, ok, created, error, found, gets, modify, pure, raise,
  reject_if, respond, ◌>>=◌, ◌>>◌,
}
use go_digi.Accounts.{User, AccountsDb, AuthUser, Role, admin, operator, readonly, require_role}
use go_digi.Accounts.Login.{update_user}

abbrev pub UsersHandler : Type 0 → Type 0
UsersHandler A = Handler Response AccountsDb A

-- try { … } catch { return 401 }
abbrev caught : {A : Type 0} → Exit Response A → Exit Response A
caught (next a) = next a
caught (reply r) = reply r
caught (throw e) = reply (error 401 "Unauthorized")

pub admin_only : Option AuthUser → UsersHandler AuthUser
unfolding require_role
admin_only session db = let (r, db') = require_role admin session db in (caught r, db')

-- the test on the list of roles
abbrev pub to_role : String → Option Role
to_role name =
    if str_eq name "admin"
    then some admin
    else if str_eq name "operator"
    then some operator
    else if str_eq name "readonly"
    then some readonly
    else none

-- the body of POST; a missing field is the empty text, which the handler treats alike
pub record NewUser : Type 0 where
  pub username : String
  pub email : String
  pub password : String
  pub role : Option String

-- the columns that an INSERT fills, and the defaults of the others
abbrev pub new_user : ℕ → NewUser → String → Role → User
new_user id body password_hash role = record {
  id = id;
  username = body.username;
  email = body.email;
  password_hash = password_hash;
  role = role;
  is_active = true;
  failed_attempts = 0;
  locked_until = none;
  last_login = none;
}

abbrev pub insert_user : User → AccountsDb → AccountsDb
insert_user u db = record db { users = db.users ++ u ∷ []; next_id = suc db.next_id }

abbrev role_or_readonly : Option String → String
role_or_readonly none = "readonly"
role_or_readonly (some r) = r

unfoldable pub create_user : (String → String) → Option AuthUser → NewUser → UsersHandler Response
unfolding admin_only
create_user hash session body = do
  admin_only session
  reject_if (str_eq body.username "" || str_eq body.email "" || str_eq body.password "")
      (error 400 "username, email, password required")
  role ← found (to_role (role_or_readonly body.role)) (error 400 "invalid role")
  existing ←
      gets (λ db. find (λ u. str_eq u.username body.username || str_eq u.email body.email) db.users)
  reject_if (is_some existing) (error 409 "이미 존재하는 사용자입니다")
  id ← gets (λ db. db.next_id)
  modify (insert_user (new_user id body (hash body.password) role))
  pure (created id)

-- the body of PUT: `none` is a field that is not there
pub record UserChange : Type 0 where
  pub id : Option ℕ
  pub role : Option String
  pub is_active : Option Bool
  pub password : Option String

-- the columns of `users` in web/migrations/000001_initial.up.sql
abbrev user_columns : List String
user_columns =
    "id" ∷ "username" ∷ "email" ∷ "password_hash" ∷ "role" ∷ "is_active" ∷ "failed_attempts"
    ∷ "locked_until" ∷ "last_login" ∷ "created_at" ∷ []

-- UPDATE users SET …, updated_at = now() WHERE id = $2
abbrev update_row : ℕ → (User → User) → UsersHandler Unit
update_row id f =
    if any (str_eq "updated_at") user_columns
    then modify (update_user id f)
    else raise "column updated_at of relation users does not exist"

abbrev pub set_role_to : Role → User → User
set_role_to role u = record u { role = role }

set_role : ℕ → Option String → UsersHandler Unit
set_role id none = pure tt
set_role id (some name) = do
  role ← found (to_role name) (error 400 "invalid role")
  update_row id (set_role_to role)

abbrev pub set_active : Bool → User → User
set_active b u = record u { is_active = b }

set_is_active : ℕ → Option Bool → UsersHandler Unit
set_is_active id none = pure tt
set_is_active id (some b) = update_row id (set_active b)

abbrev pub set_hash : String → User → User
set_hash h u = record u { password_hash = h }

set_password : (String → String) → ℕ → Option String → UsersHandler Unit
set_password hash id none = pure tt
set_password hash id (some password) =
    if str_eq password "" then pure tt else update_row id (set_hash (hash password))

-- `!id` holds of 0 as of a missing id
abbrev pub id_given : Option ℕ → Option ℕ
id_given none = none
id_given (some id) = if id == 0 then none else some id

pub update_account : (String → String) → Option AuthUser → UserChange → UsersHandler Response
unfolding admin_only
update_account hash session body = do
  admin_only session
  id ← found (id_given body.id) (error 400 "id required")
  set_role id body.role
  set_is_active id body.is_active
  set_password hash id body.password
  pure ok

-- DELETE only deactivates.
pub deactivate_user : Option AuthUser → Option ℕ → UsersHandler Response
unfolding admin_only
deactivate_user session given = do
  admin_only session
  id ← found given (error 400 "id required")
  update_row id (set_active false)
  pure ok
