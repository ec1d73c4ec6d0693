-- ===== src/Accounts/Users/Guard.antt =====
-- The routes of web/src/app/api/settings/users/route.ts keep the bound on wrong passwords.
use go_digi.Prelude.{
  ℕ, String, Bool, Option, none, some, [], ◌∷◌, All-append, arith, Option-cases, inl, inr,
}
use go_digi.Http.{Hands-Any, Any, continue-keeps, ◌>>◌, pure, ok}
use go_digi.Accounts.{AccountsDb, AuthUser}
use go_digi.Accounts.Login.Guard.{IsGuarded, AllGuarded}
use go_digi.Accounts.Users.{
  NewUser, UserChange, create_user, update_account, deactivate_user, new_user, to_role,
  role_or_readonly, id_given, set_role, set_is_active, set_password,
}

set_role-AllGuarded :
    (id : ℕ) (name : Option String) (db : AccountsDb)
    → AllGuarded db
    → AllGuarded (set_role id name db).1
unfolding set_role
set_role-AllGuarded id none db h = h
set_role-AllGuarded id (some name) db h = elim (Option-cases (to_role name)) [
  | inl e ↦ ground (arith, e, h)
  | inr (role, e) ↦ ground (arith, e, h)
]

set_is_active-AllGuarded :
    (id : ℕ) (b : Option Bool) (db : AccountsDb)
    → AllGuarded db
    → AllGuarded (set_is_active id b db).1
unfolding set_is_active
set_is_active-AllGuarded id none db h = h
set_is_active-AllGuarded id (some b) db h = h

set_password-AllGuarded :
    (hash : String → String) (id : ℕ) (password : Option String) (db : AccountsDb)
    → AllGuarded db
    → AllGuarded (set_password hash id password db).1
unfolding set_password
set_password-AllGuarded hash id none db h = h
set_password-AllGuarded hash id (some password) db h = ground (arith, h)

-- the three statements of PUT, one after another
set_all-AllGuarded :
    (hash : String → String) (id : ℕ) (change : UserChange) (db : AccountsDb)
    → AllGuarded db
    → AllGuarded
        ((do
          set_role id change.role
          set_is_active id change.is_active
          set_password hash id change.password
          pure ok)
          db).1
set_all-AllGuarded hash id change db h =
    let db₁ = (set_role id change.role db).1 in
    let h₁ = set_role-AllGuarded id change.role db h in
    let db₂ = (set_is_active id change.is_active db₁).1 in
    let h₂ = set_is_active-AllGuarded id change.is_active db₁ h₁ in
    continue-keeps AllGuarded Any (set_role id change.role db).0 _ db₁ h₁
      (Hands-Any (set_role id change.role db).0)
      λ _ _.
        continue-keeps AllGuarded Any (set_is_active id change.is_active db₁).0 _ db₂ h₂
          (Hands-Any (set_is_active id change.is_active db₁).0)
          λ _ _.
            continue-keeps AllGuarded Any (set_password hash id change.password db₂).0
              (λ _. pure ok) (set_password hash id change.password db₂).1
              (set_password-AllGuarded hash id change.password db₂ h₂)
              (Hands-Any (set_password hash id change.password db₂).0)
              (λ _ _. set_password-AllGuarded hash id change.password db₂ h₂)

module _ (hash : String → String) (session : Option AuthUser) (db : AccountsDb)
    (h : AllGuarded db) where
  pub create-AllGuarded : (body : NewUser) → AllGuarded (create_user hash session body db).1
  unfolding create_user
  create-AllGuarded body = elim (Option-cases (to_role (role_or_readonly body.role))) [
    | inl e ↦ ground arith
    | inr (role, e) ↦ ground (
      arith,
      e,
      All-append IsGuarded db.users (new_user db.next_id body (hash body.password) role ∷ []) h
          (record { within = omega arith; locked = λ _. omega arith }, tt),
    )
  ]

  pub deactivate-AllGuarded : (id : Option ℕ) → AllGuarded (deactivate_user session id db).1
  unfolding deactivate_user
  deactivate-AllGuarded none = ground arith
  deactivate-AllGuarded (some id) = ground (arith, h)

  pub update-AllGuarded :
      (change : UserChange) → AllGuarded (update_account hash session change db).1
  unfolding update_account
  update-AllGuarded change = elim (Option-cases (id_given change.id)) [
    | inl e ↦ ground (arith, e)
    | inr (id, e) ↦ ground (arith, e, set_all-AllGuarded hash id change db h)
  ]
