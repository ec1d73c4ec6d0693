-- ===== src/Accounts.antt =====
-- Accounts and sessions: web/src/lib/auth.ts and the `users` and `audit_logs` tables that
-- web/src/app/api/auth/route.ts and web/src/app/api/settings/users/route.ts write.
pub mod Login
pub mod Sessions
pub mod Users
pub mod Requests
mod Tests
use go_digi.Prelude.{
  ℕ, ◌+◌, ◌*◌, String, Bool, false, ◌≡◌, Option, none, some, List, ltb, if◌then◌else◌,
}
use go_digi.Http.{Handler, raise, pure, ◌>>=◌, ◌>>◌}

pub data Role : Type 0 where
  admin operator readonly : Role

-- the payload of a token
pub record AuthUser : Type 0 where
  pub id : ℕ
  pub username : String
  pub email : String
  pub role : Role

abbrev pub hierarchy : Role → ℕ
hierarchy admin = 2
hierarchy operator = 1
hierarchy readonly = 0

-- jsonwebtoken with the server's secret: `sign` with a lifetime and at a time, both in seconds, and
-- `verify`, whose throw is `none`. A token is an opaque text, which
-- may be empty in a cookie.
pub record Jwt : Type 1 where
  pub Token : Type 0
  pub is_empty : Token → Bool
  pub sign : AuthUser → (lifetime : ℕ) → ℕ → Token
  pub verify : Token → ℕ → Option AuthUser
  pub signed_is_not_empty : (u : AuthUser) (lifetime t : ℕ) → is_empty (sign u lifetime t) ≡ false
  pub verify-sign :
      (u : AuthUser) (lifetime t now : ℕ)
      → verify (sign u lifetime t) now ≡ (if ltb now (t + lifetime) then some u else none)

module _ (jwt : Jwt) where
  -- expiresIn: '8h'
  unfoldable pub sign_token : AuthUser → ℕ → jwt.Token
  sign_token u t = jwt.sign u (8 * 3600) t

  -- The cookie's token, absent or empty, is no session. The handlers take the result.
  unfoldable pub get_auth_user : ℕ → Option jwt.Token → Option AuthUser
  get_auth_user now none = none
  get_auth_user now (some token) = if jwt.is_empty token then none else jwt.verify token now

unfoldable pub require_auth : {R S : Type 0} → Option AuthUser → Handler R S AuthUser
require_auth none = raise "Unauthorized"
require_auth (some user) = pure user

unfoldable pub require_role : {R S : Type 0} → Role → Option AuthUser → Handler R S AuthUser
unfolding require_auth
require_role role session = do
  user ← require_auth session
  if ltb (hierarchy user.role) (hierarchy role) then raise "Forbidden" else pure user

-- a row of `users`; times are in milliseconds
pub record User : Type 0 where
  pub id : ℕ
  pub username : String
  pub email : String
  pub password_hash : String
  pub role : Role
  pub is_active : Bool
  pub failed_attempts : ℕ
  pub locked_until : Option ℕ
  pub last_login : Option ℕ

pub record AuditLog : Type 0 where
  pub user_id : Option ℕ
  pub action : String
  pub target_id : Option ℕ

pub record AccountsDb : Type 0 where
  pub users : List User
  pub audit_logs : List AuditLog
  pub next_id : ℕ
