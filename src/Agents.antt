-- ===== src/Agents.antt =====
-- The agents on the servers: web/src/app/api/settings/agents/route.ts issues and revokes their
-- tokens, and the routes under web/src/app/api/agent and web/src/app/api/metrics/route.ts take what
-- they send. Times of rows are left out, and so are columns that no route here writes.
pub mod Registration
pub mod Checks
pub mod Requests
mod Tests
use go_digi.Prelude.{
  ℕ, suc, String, Bool, true, false, ◌&&◌, ◌||◌, not, Option, none, some, List, [], ◌∷◌, ◌++◌,
  str_eq, ◌==◌, leb, find, update_where, any, is_some, if◌then◌else◌,
}
use go_digi.Prelude.Int.{ℤ}
use go_digi.Prelude.Text.{text_length}
use go_digi.Prelude.Words.{is_empty}
use go_digi.Http.{
  Handler, Exit, next, reply, throw, gets, modify, pure, raise, found, reject_if, ◌>>=◌, ◌>>◌,
}
use go_digi.Accounts.{AuthUser, admin, require_role}
use go_digi.Monitor.Evaluation.{is_id}

-- a row of `agent_tokens`
pub record AgentToken : Type 0 where
  pub id : ℕ
  pub token : String
  pub label : Option String
  pub asset_id : Option ℕ
  pub revoked : Bool

-- the columns of `assets` that an agent writes
pub record Machine : Type 0 where
  pub id : ℕ
  pub name : String
  pub hostname : String
  pub ip_address : String
  pub os : String
  pub os_version : Option String
  pub arch : String
  pub agent_version : Option String
  pub agent_url : Option String
  pub node_type : Option String
  pub registration_source : String
  pub status : String

-- a row of `service_checks` and one of `service_check_results`
pub record AgentCheck : Type 0 where
  pub id : ℕ
  pub asset_id : ℕ
  pub is_active : Bool

-- A number of a body that goes to an INT column: none, a whole one, or one with a fraction.
pub data Number : Type 0 where
  no_number : Number
  whole : ℤ → Number
  fractional : Number

pub record CheckResult : Type 0 where
  pub check_id : ℕ
  pub status : String
  pub response_ms : Number
  pub message : Option String

pub record AgentDb : Type 0 where
  pub tokens : List AgentToken
  pub machines : List Machine
  pub contracts : List ℕ
  pub checks : List AgentCheck
  pub results : List CheckResult
  pub settings : List (String × String)
  pub next_token : ℕ
  pub next_machine : ℕ

pub data AgentReply : Type 0 where
  registered : (asset_id : ℕ) → (check_interval : Option ℤ) → AgentReply
  polled : (asset_id : ℕ) → AgentReply
  issued : (id : ℕ) → (token : String) → AgentReply
  counted : ℕ → AgentReply
  done : AgentReply
  refused : (status : ℕ) → (message : String) → AgentReply

abbrev pub AgentHandler : Type 0 → Type 0
AgentHandler A = Handler AgentReply AgentDb A

-- `catch` of the routes of the agents: what was written before the exception stays
abbrev pub or_500 : Exit AgentReply AgentReply × AgentDb → AgentReply × AgentDb
or_500 (next r, db) = (r, db)
or_500 (reply r, db) = (r, db)
or_500 (throw e, db) = (refused 500 "Internal Server Error", db)

abbrev pub machine_by : ℕ → AgentDb → Option Machine
machine_by id db = find (λ m. m.id == id) db.machines

abbrev pub update_machine : ℕ → (Machine → Machine) → AgentDb → AgentDb
update_machine id f db = record db { machines = update_where (λ m. m.id == id) f db.machines }

abbrev pub update_token : ℕ → (AgentToken → AgentToken) → AgentDb → AgentDb
update_token id f db = record db { tokens = update_where (λ t. t.id == id) f db.tokens }

-- WHERE token = $1
abbrev pub token_row : String → AgentDb → Option AgentToken
token_row token db = find (λ t. str_eq t.token token) db.tokens

-- WHERE token = $1 AND asset_id = $2 AND revoked = false
abbrev pub speaks_for : String → ℕ → AgentToken → Bool
speaks_for token asset_id t = str_eq t.token token && is_id asset_id t.asset_id && not t.revoked

abbrev pub authorized : String → ℕ → AgentHandler AgentToken
authorized token asset_id = do
  row ← gets (λ db. find (speaks_for token asset_id) db.tokens)
  found row (refused 401 "Unauthorized")

-- try { await requireRole('admin') } catch { return 401 }
abbrev caught : Exit AgentReply AuthUser → Exit AgentReply AuthUser
caught (next a) = next a
caught (reply r) = reply r
caught (throw e) = reply (refused 401 "Unauthorized")

unfoldable pub admin_here : Option AuthUser → AgentHandler AuthUser
unfolding require_role
admin_here session db = let (r, db') = require_role admin session db in (caught r, db')

abbrev insert_token : AgentToken → AgentDb → AgentDb
insert_token t db = record db { tokens = db.tokens ++ t ∷ []; next_token = suc db.next_token }

abbrev is_machine : Option ℕ → AgentDb → Bool
is_machine none db = true
is_machine (some id) db = is_some (machine_by id db)

-- tokens are unique, and the asset has to be there
abbrev pub token_fits : String → Option String → Option ℕ → AgentDb → Bool
token_fits token label asset_id db =
    not (is_some (token_row token db)) && is_machine asset_id db && fits_label label
  where
    fits_label : Option String → Bool
    fits_label none = true
    fits_label (some l) = leb (text_length l) 100

abbrev store_token : Bool → AgentToken → AgentHandler (Unit {0})
store_token true t = modify (insert_token t)
store_token false t = raise "constraint of agent_tokens"

-- POST of settings/agents, with the random text of the token
unfoldable pub create_token :
    String → Option AuthUser → Option String → Option ℕ → AgentHandler AgentReply
create_token token session label asset_id = do
  admin_here session
  id ← gets (λ db. db.next_token)
  fits ← gets (token_fits token label asset_id)
  store_token fits
      (record { id = id; token = token; label = label; asset_id = asset_id; revoked = false })
  pure (issued id token)

abbrev pub revoked_row : AgentToken → AgentToken
revoked_row t = record t { revoked = true }

-- the parameter: `none` where it is missing, and `some none` where it is no number
abbrev pub revoke_given : Option (Option ℕ) → AgentHandler AgentReply
revoke_given none = pure (refused 400 "id required")
revoke_given (some none) = raise "invalid input syntax for type integer"
revoke_given (some (some id)) = do modify (update_token id revoked_row); pure done

-- DELETE of settings/agents
unfoldable pub revoke_token : Option AuthUser → Option (Option ℕ) → AgentHandler AgentReply
revoke_token session id = do admin_here session; revoke_given id
