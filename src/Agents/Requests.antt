-- ===== src/Agents/Requests.antt =====
-- Sequences of requests of administrators and agents, and what becomes of a token over them.
pub mod Tokens
pub mod Revoked
pub mod Bound
use go_digi.Prelude.{ℕ, String, Bool, Option, List, [], ◌∷◌}
use go_digi.Http.{run}
use go_digi.Accounts.{AuthUser}
use go_digi.Agents.{AgentDb, CheckResult, AgentReply, create_token, revoke_token}
use go_digi.Agents.Registration.{RegisterBody, PullBody, register, pull_register, heartbeat}
use go_digi.Agents.Checks.{post_results}

pub data AgentRequest : Type 0 where
  create : (token : String) → Option AuthUser → Option String → Option ℕ → AgentRequest
  revoke : Option AuthUser → Option (Option ℕ) → AgentRequest
  push : RegisterBody → AgentRequest
  pull : PullBody → AgentRequest
  beat : ℕ → String → AgentRequest
  report : ℕ → String → List CheckResult → AgentRequest

module _ (is_inet : String → Bool) where
  unfoldable pub serve : AgentRequest → AgentDb → AgentDb
  unfolding create_token revoke_token register pull_register heartbeat post_results
  serve (create token session label asset_id) db =
      (run (create_token token session label asset_id) db).1
  serve (revoke session id) db = (run (revoke_token session id) db).1
  serve (push body) db = (register is_inet body db).1
  serve (pull body) db = (pull_register is_inet body db).1
  serve (beat asset_id token) db = (heartbeat asset_id token db).1
  serve (report asset_id token results) db = (post_results asset_id token results db).1

  unfoldable pub serve_all : List AgentRequest → AgentDb → AgentDb
  unfolding serve
  serve_all [] db = db
  serve_all (r ∷ rs) db = serve_all rs (serve r db)
