-- ===== src/Accounts/Requests.antt =====
-- Sequences of requests on accounts, and the bound on wrong passwords that they all keep.
use go_digi.Prelude.{ℕ, String, Bool, Option, List, [], ◌∷◌}
use go_digi.Http.{run}
use go_digi.Accounts.{AccountsDb, AuthUser}
use go_digi.Accounts.Login.{login}
use go_digi.Accounts.Login.Guard.{AllGuarded, login-AllGuarded}
use go_digi.Accounts.Users.{NewUser, UserChange, create_user, update_account, deactivate_user}
use go_digi.Accounts.Users.Guard.{create-AllGuarded, update-AllGuarded, deactivate-AllGuarded}

pub data Request : Type 0 where
  log_in : (now : ℕ) → (username : String) → (password : String) → Request
  create : Option AuthUser → NewUser → Request
  update : Option AuthUser → UserChange → Request
  deactivate : Option AuthUser → Option ℕ → Request

module _ (compare : String → String → Bool) (hash : String → String) where
  serve : Request → AccountsDb → AccountsDb
  serve (log_in now username password) db = (run (login compare now username password) db).1
  serve (create session body) db = (run (create_user hash session body) db).1
  serve (update session change) db = (run (update_account hash session change) db).1
  serve (deactivate session id) db = (run (deactivate_user session id) db).1

  pub serve_all : List Request → AccountsDb → AccountsDb
  serve_all [] db = db
  serve_all (r ∷ rs) db = serve_all rs (serve r db)

  serve-AllGuarded : (r : Request) (db : AccountsDb) → AllGuarded db → AllGuarded (serve r db)
  unfolding serve
  serve-AllGuarded (log_in now username password) db h =
      login-AllGuarded compare now password username db h
  serve-AllGuarded (create session body) db h = create-AllGuarded hash session db h body
  serve-AllGuarded (update session change) db h = update-AllGuarded hash session db h change
  serve-AllGuarded (deactivate session id) db h = deactivate-AllGuarded hash session db h id

  -- Whatever logins and account changes are served, in whatever order and at whatever times,
  -- every account counts at most five wrong passwords and one without a lock fewer than five, if
  -- that held before.
  pub serve_all-AllGuarded :
      (requests : List Request) (db : AccountsDb)
      → AllGuarded db
      → AllGuarded (serve_all requests db)
  unfolding serve_all
  serve_all-AllGuarded [] db h = h
  serve_all-AllGuarded (r ∷ rs) db h =
      serve_all-AllGuarded rs (serve r db) (serve-AllGuarded r db h)
