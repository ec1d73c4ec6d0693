-- ===== src/Agents/Registration.antt =====
-- web/src/app/api/agent/register/route.ts, pull/register/route.ts and heartbeat/route.ts: an agent
-- makes itself known with its token, which stands for one asset from then on.
use go_digi.Prelude.{
  ℕ, suc, String, Bool, true, false, ◌&&◌, ◌||◌, Option, none, some, List, [], ◌∷◌, ◌++◌, str_eq,
  ◌==◌, leb, or_else, if◌then◌else◌,
}
use go_digi.Prelude.Int.{ℤ, pos}
use go_digi.Prelude.Text.{text_length, parse_int, show, ◌+++◌}
use go_digi.Prelude.Words.{is_empty}
use go_digi.Http.{gets, modify, pure, raise, respond, reject_if, ◌>>=◌, ◌>>◌}
use go_digi.Agents.{
  AgentToken, Machine, AgentDb, AgentReply, registered, polled, done, refused, AgentHandler, or_500,
  update_machine, token_row, authorized, update_token,
}

pub record RegisterBody : Type 0 where
  pub token : String
  pub hostname : String
  pub ip_address : String
  pub os : String
  pub os_version : String
  pub arch : String
  pub agent_version : Option String

pub record PullBody : Type 0 where
  pub token : String
  pub hostname : String
  pub ip : String
  pub port : ℕ
  pub node_type : Option String
  pub os : String
  pub arch : String
  pub agent_version : Option String

abbrev pub unless_revoked : Bool → AgentToken → AgentHandler AgentToken
unless_revoked true t = respond (refused 401 "Invalid or revoked token")
unless_revoked false t = pure t

-- !tokenRow || tokenRow.revoked
abbrev pub not_revoked : Option AgentToken → AgentHandler AgentToken
not_revoked none = respond (refused 401 "Invalid or revoked token")
not_revoked (some t) = unless_revoked t.revoked t

abbrev short : ℕ → Option String → Bool
short n none = true
short n (some s) = leb (text_length s) n

abbrev pub set_machine : Machine → Machine → Machine
set_machine new m = record m {
  hostname = new.hostname;
  ip_address = new.ip_address;
  os = new.os;
  os_version = new.os_version;
  arch = new.arch;
  agent_version = new.agent_version;
  status = "online";
}

abbrev pub set_pulled : Machine → Machine → Machine
set_pulled new m = record m {
  hostname = new.hostname;
  ip_address = new.ip_address;
  os = new.os;
  arch = new.arch;
  agent_version = new.agent_version;
  agent_url = new.agent_url;
  node_type = new.node_type;
  status = "online";
}

abbrev pub insert_machine : Machine → AgentDb → AgentDb
insert_machine m db = record db {
  machines = db.machines ++ record m { id = db.next_machine } ∷ [];
  next_machine = suc db.next_machine;
}

abbrev pub bind : ℕ → AgentToken → AgentToken
bind asset_id t = record t { asset_id = some asset_id }

abbrev pub insert_contract : ℕ → AgentDb → AgentDb
insert_contract asset_id db = record db { contracts = db.contracts ++ asset_id ∷ [] }

-- an UPDATE or INSERT of the asset, where the columns take the values
abbrev pub write_machine : Bool → (AgentDb → AgentDb) → AgentHandler (Unit {0})
write_machine true f = modify f
write_machine false f = raise "value not allowed"

-- the asset of the token, or a new one
abbrev pub asset_for : Bool → (Machine → Machine) → Machine → AgentToken → Option ℕ → AgentHandler ℕ
asset_for fits set new t (some id) = do write_machine fits (update_machine id set); pure id
asset_for fits set new t none = do
  id ← gets (λ db. db.next_machine)
  write_machine fits (insert_machine new)
  modify (update_token t.id (bind id))
  modify (insert_contract id)
  pure id

abbrev setting : String → List (String × String) → Option String
setting key [] = none
setting key ((k, v) ∷ rest) = if str_eq k key then some v else setting key rest

-- parseInt(cfg.agent_check_interval || '5')
abbrev check_interval : List (String × String) → Option ℤ
check_interval settings =
    let value = or_else (setting "agent_check_interval" settings) "" in
    if is_empty value then some (pos 5) else parse_int value

abbrev pub answer_registered : ℕ → AgentHandler AgentReply
answer_registered id = do
  settings ← gets (λ db. db.settings)
  pure (registered id (check_interval settings))

abbrev pub answer_polled : ℕ → AgentHandler AgentReply
answer_polled id = pure (polled id)

-- an asset id of 0 is no asset
abbrev pub asset_given : Option ℕ → Option ℕ
asset_given none = none
asset_given (some id) = if id == 0 then none else some id

module _ (is_inet : String → Bool) where
  abbrev pub machine_fits : Machine → Bool
  machine_fits m =
      is_inet m.ip_address
      && leb (text_length m.hostname) 100
      && leb (text_length m.os) 50
      && short 100 m.os_version
      && leb (text_length m.arch) 10
      && short 30 m.agent_version
      && short 200 m.agent_url
      && short 20 m.node_type

  abbrev pub machine_of : RegisterBody → Machine
  machine_of body = record {
    id = 0;
    name = body.hostname;
    hostname = body.hostname;
    ip_address = body.ip_address;
    os = body.os;
    os_version = some body.os_version;
    arch = body.arch;
    agent_version = body.agent_version;
    agent_url = none;
    node_type = some "baremetal";
    registration_source = "agent";
    status = "online";
  }

  abbrev pub register_as : Machine → AgentToken → AgentHandler AgentReply
  register_as new t = do
    id ← asset_for (machine_fits new) (set_machine new) new t (asset_given t.asset_id)
    answer_registered id

  abbrev pub register_body : RegisterBody → AgentHandler AgentReply
  register_body body = do
    reject_if (is_empty body.token || is_empty body.hostname)
        (refused 400 "token and hostname required")
    row ← gets (token_row body.token)
    t ← not_revoked row
    register_as (machine_of body) t

  -- POST of agent/register
  unfoldable pub register : RegisterBody → AgentDb → AgentReply × AgentDb
  unfolding parse_int
  register body db = or_500 (register_body body db)

  -- the source of the registration is the default of the column; a new asset has no version
  abbrev pub pulled_of : PullBody → Machine
  pulled_of body = record {
    id = 0;
    name = body.hostname;
    hostname = body.hostname;
    ip_address = body.ip;
    os = body.os;
    os_version = none;
    arch = body.arch;
    agent_version = body.agent_version;
    agent_url = some ("http://" +++ body.ip +++ ":" +++ show body.port);
    node_type = body.node_type;
    registration_source = "manual";
    status = "online";
  }

  abbrev pub pull_as : Machine → AgentToken → AgentHandler AgentReply
  pull_as new t = do
    id ←
        asset_for (machine_fits new) (set_pulled new) (record new { agent_version = none }) t
          (asset_given t.asset_id)
    answer_polled id

  abbrev pub pull_body : PullBody → AgentHandler AgentReply
  pull_body body = do
    reject_if (is_empty body.token || is_empty body.hostname || is_empty body.ip || body.port == 0)
        (refused 400 "token, hostname, ip, port required")
    row ← gets (token_row body.token)
    t ← not_revoked row
    pull_as (pulled_of body) t

  -- POST of agent/pull/register
  unfoldable pub pull_register : PullBody → AgentDb → AgentReply × AgentDb
  unfolding show
  pull_register body db = or_500 (pull_body body db)

abbrev go_online : Machine → Machine
go_online m = record m { status = "online" }

abbrev pub heartbeat_body : ℕ → String → AgentHandler AgentReply
heartbeat_body asset_id token = do
  reject_if (asset_id == 0 || is_empty token) (refused 400 "asset_id and token required")
  authorized token asset_id
  modify (update_machine asset_id go_online)
  pure done

-- POST of agent/heartbeat
unfoldable pub heartbeat : ℕ → String → AgentDb → AgentReply × AgentDb
heartbeat asset_id token db = or_500 (heartbeat_body asset_id token db)
