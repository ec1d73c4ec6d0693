-- ===== src/Accounts/Sessions.antt =====
-- How long the token of web/src/lib/auth.ts is a session, and which roles it passes.
use go_digi.Prelude.{ℕ, ◌<◌, ◌↔◌, refl, ◌+◌, ◌≡◌, Bool, true, false, ◌&&◌, some, ltb, leb, arith}
use go_digi.Http.{Exit, next, reply, throw, Response}
use go_digi.Accounts.{
  AuthUser, Jwt, Role, admin, operator, readonly, hierarchy, sign_token, get_auth_user,
  require_role, AccountsDb,
}

abbrev pub passes : {R A : Type 0} → Exit R A → Bool
passes (next a) = true
passes (reply r) = false
passes (throw e) = false

-- who may do what the guard for a role lets through
abbrev pub Holds : Role → Role → Type 0
Holds admin role = Unit
Holds operator admin = ⊥
Holds operator operator = Unit
Holds operator readonly = Unit
Holds readonly admin = ⊥
Holds readonly operator = ⊥
Holds readonly readonly = Unit

hierarchy-Holds :
    (have want : Role) → (leb (hierarchy want) (hierarchy have) ≡ true) ↔ Holds have want
hierarchy-Holds admin admin = (λ _. tt, λ _. refl)
hierarchy-Holds admin operator = (λ _. tt, λ _. refl)
hierarchy-Holds admin readonly = (λ _. tt, λ _. refl)
hierarchy-Holds operator admin = (λ h. cc, λ h. absurd h)
hierarchy-Holds operator operator = (λ _. tt, λ _. refl)
hierarchy-Holds operator readonly = (λ _. tt, λ _. refl)
hierarchy-Holds readonly admin = (λ h. cc, λ h. absurd h)
hierarchy-Holds readonly operator = (λ h. cc, λ h. absurd h)
hierarchy-Holds readonly readonly = (λ _. tt, λ _. refl)

module _ (jwt : Jwt) (u : AuthUser) (t now : ℕ) (role : Role) (db : AccountsDb) where
  abbrev guarded : Exit Response AuthUser × AccountsDb
  guarded = require_role role (get_auth_user jwt now (some (sign_token jwt u t))) db

  passes-guarded :
      passes guarded.0 ≡ (ltb now (t + 28800) && leb (hierarchy role) (hierarchy u.role))
  unfolding require_role get_auth_user sign_token
  passes-guarded = ground (arith, jwt.signed_is_not_empty u 28800 t, jwt.verify-sign u 28800 t now)

  -- A token of signToken passes the guard for a role exactly if less than eight hours have passed
  -- since its signing, and its user is an administrator, or an operator where no administrator is
  -- asked for, or a reader where none of both is.
  pub require_role-sign_token : (passes guarded.0 ≡ true) ↔ ((now < t + 28800) × Holds u.role role)
  require_role-sign_token =
      let (on, back) = hierarchy-Holds u.role role in
      (
        λ h. (ground (arith, passes-guarded), on (ground (arith, passes-guarded))),
        λ h. ground (arith, passes-guarded, back h.1),
      )
