-- ===== src/Agents/Tests.antt =====
-- Two agents: one registers and is shut out again, the other reports on a check of the first.
use go_digi.Prelude.{
  ◌↔◌, ◌≢◌, All, ℕ, String, ◌≡◌, refl, arith, true, false, Option, none, some, [], ◌∷◌,
}
use go_digi.Prelude.Int.{pos}
use go_digi.Prelude.Text.{show}
use go_digi.Prelude.Words.{is_empty}
use go_digi.Http.{run}
use go_digi.Accounts.{AuthUser, admin, require_role, require_auth}
use go_digi.Agents.{
  AgentToken, whole, CheckResult, AgentDb, registered, polled, counted, done, revoke_token,
  admin_here,
}
use go_digi.Agents.Registration.{RegisterBody, PullBody, register, pull_register}
use go_digi.Agents.Checks.{post_results, none_sent}
use go_digi.Agents.Checks.Accepted.{is_counted, HasToken, IsStorable, post_results-accepts}
use go_digi.Agents.Requests.{create, push, beat, serve_all}
use go_digi.Agents.Requests.Revoked.{IsShut, serve_all-IsShut}
use go_digi.Agents.Requests.Bound.{KeepsAsset, serve_all-KeepsAsset}

abbrev root : AuthUser
root = record { id = 1; username = "root"; email = "root@local"; role = admin }

abbrev body : RegisterBody
body = record {
  token = "t1";
  hostname = "web";
  ip_address = "10.0.0.1";
  os = "Linux";
  os_version = "6";
  arch = "amd64";
  agent_version = none;
}

abbrev pulled : PullBody
pulled = record {
  token = "t1";
  hostname = "web";
  ip = "10.0.0.1";
  port = 9100;
  node_type = some "vm";
  os = "Linux";
  arch = "amd64";
  agent_version = none;
}

abbrev token : ℕ → String → Option ℕ → AgentToken
token id text asset_id = record {
  id = id;
  token = text;
  label = none;
  asset_id = asset_id;
  revoked = false;
}

-- the second token stands for asset 7; check 4 is one of asset 1
abbrev hall : AgentDb
hall = record {
  tokens = token 1 "t1" none ∷ token 2 "t2" (some 7) ∷ [];
  machines = [];
  contracts = [];
  checks = record { id = 4; asset_id = 1; is_active = true } ∷ [];
  results = [];
  settings = [];
  next_token = 3;
  next_machine = 1;
}

register_example : (register (λ s. true) body hall).0 ≡ registered 1 (some (pos 5))
unfolding register
register_example = refl

-- registering again gives the same asset
pull_register_example :
    (pull_register (λ s. true) pulled (register (λ s. true) body hall).1).0 ≡ polled 1
unfolding register pull_register show
pull_register_example = refl

revoke_example : (run (revoke_token (some root) (some (some 1))) hall).0 ≡ some done
unfolding revoke_token admin_here require_role require_auth
revoke_example = refl

-- the token 1 after its revocation
abbrev shut_hall : AgentDb
shut_hall = record hall {
  tokens = record (token 1 "t1" none) { revoked = true } ∷ token 2 "t2" (some 7) ∷ [];
}

serve_all-IsShut_example :
    IsShut
      (λ s. true)
      "t1"
      (serve_all (λ s. true) (push body ∷ create "t3" (some root) none none ∷ []) shut_hall)
serve_all-IsShut_example =
    serve_all-IsShut (λ s. true) (push body ∷ create "t3" (some root) none none ∷ []) "t1" shut_hall
      (record { is_known = refl; all_revoked = (λ e. refl, (λ e. e, tt)) })

serve_all-KeepsAsset_example :
    KeepsAsset (λ s. true) "t2" 7 (serve_all (λ s. true) (push body ∷ beat 7 "t2" ∷ []) hall)
serve_all-KeepsAsset_example =
    serve_all-KeepsAsset (λ s. true) (push body ∷ beat 7 "t2" ∷ []) "t2" 7 hall
      (record { distinct = ground arith; below = ground arith }) (token 2 "t2" (some 7), refl, refl)

abbrev sent_result : CheckResult
sent_result = record { check_id = 4; status = "ok"; response_ms = whole (pos 12); message = none }

-- the agent of asset 7 reports on the check of asset 1
foreign_example : (post_results 7 "t2" (sent_result ∷ []) hall).0 ≡ counted 1
unfolding post_results
foreign_example = refl

abbrev sent_to : ℕ
sent_to = 7

post_results-accepts_example :
    (is_counted (post_results sent_to "t2" (sent_result ∷ []) hall).0 ≡ true) ↔ (
      (sent_to ≢ 0)
      × (is_empty "t2" ≡ false)
      × (none_sent (sent_result ∷ []) ≡ false)
      × HasToken "t2" sent_to hall.tokens
      × All (IsStorable hall.checks) (sent_result ∷ []))
post_results-accepts_example = post_results-accepts sent_to "t2" (sent_result ∷ []) hall
