-- ===== src/Lib.antt =====
-- Models and proofs of the web application of Digicap, an infrastructure monitoring platform.
--
-- The application is a Next.js server over one PostgreSQL database. Its route handlers
-- (web/src/app/api/*/route.ts) and its background jobs (web/src/lib/*.ts, run by
-- web/src/lib/scheduler.ts) share that database and nothing else. Here a table is a list of rows,
-- each part has a record of the tables that it reads and writes, and a handler is a function of
-- that record which ends with a response, early or at its end, or lets an exception escape (Http).
-- An SQL statement is `find`, `select`, `update_where`, `delete_where` or an append of Prelude.Rows.
-- A query with LIMIT 1 and no ORDER BY reads the first row in the order of the table. A SERIAL
-- column is a counter of the record.
--
-- Files and the code that they model:
--   Accounts: web/src/lib/auth.ts and the tables `users` and `audit_logs`. Accounts.Login: POST of
--     web/src/app/api/auth/route.ts (`login`, its lock and its replies). Accounts.Users: POST, PUT
--     and DELETE of web/src/app/api/settings/users/route.ts. Login and users share the accounts.
--   Rack: POST, PUT and DELETE of web/src/app/api/rack/route.ts over the tables `racks` and
--     `rack_units`. `place_unit` and `move_unit` are the second halves of `create_unit` and
--     `update_unit`, after the rows that they need are read.
--   Monitor: web/src/lib/notify.ts and the tables of monitoring, which all of the following share.
--     Monitor.Evaluation: `runAlertEvaluation` of web/src/lib/alert-engine.ts, from the query of the
--     metrics to the alert of each violation. Monitor.Offline: `runOfflineCheck` of the same file.
--     Monitor.Checks: the job of web/src/lib/service-checker.ts, with the network as a parameter.
--     Monitor.Lifecycle: POST of web/src/app/api/alerts/route.ts. Monitor.Rules: the four requests
--     of web/src/app/api/alerts/rules/route.ts. Monitor.Incidents: POST, PATCH and DELETE of
--     web/src/app/api/incidents/route.ts. Monitor.Timeline: sequences of all of these.
--   Topology: web/src/app/api/topology/discover/run/route.ts, the nodes and edges of the map of links
--     and what finds them (Topology.Discovery); web/src/app/api/topology/lldp/route.ts, which writes
--     the same tables (Topology.Neighbors).
--     Topology.Tables: web/src/app/api/topology/discover/device-table/route.ts and wwn-table/route.ts,
--     which store the tables that the discovery reads.
--   Parser: web/src/lib/mac-parser.ts, which reads such tables from the text of a command line, and
--     web/src/app/api/topology/discover/parse/route.ts. Its regular expressions are values of
--     Prelude.Regex, whose `match_then` searches by backtracking as JavaScript does. Parser.Vendors,
--     Parser.Brocade and Parser.Csv have the parsers, Parser.Output what chooses between them.
--   Agents: the tokens of web/src/app/api/settings/agents/route.ts, and what an agent sends with one:
--     web/src/app/api/agent/register/route.ts, agent/pull/register, agent/heartbeat
--     (Agents.Registration) and agent/service-checks (Agents.Checks). Agents.Requests: sequences of
--     all of these.
--   Dependencies: web/src/app/api/assets/dependencies/route.ts, what one asset is connected with. It
--     reads the nodes and edges of Topology. Dependencies.Rows: the queries and loops.
--   Certificates: the daily job of web/src/lib/ssl-checker.ts, which warns by the alerts of Monitor.
--   Filter: web/src/middleware.ts, which every request passes first.
--   Prelude: shared names and lemmas. A Tests module below each part has concrete runs.
--
-- Choices. Times are natural numbers, milliseconds for the clock and seconds in a token; one
-- request reads one clock. Numbers of a request that the code compares with sign are integers
-- (Prelude.Int); ids are natural numbers, so a negative or fractional id, which no row has, is left
-- out. Text is the native String; an absent text field and an empty one are the same where the code
-- tests them by `!x`. There are no fuel bounds on loops, which all run over
-- lists; the printing of a number takes the number itself as its fuel, at least its digits.
-- Metrics and thresholds are integers in one common unit; a BIGINT column and a time are kept apart
-- from a FLOAT one, since the driver returns a text and a Date for them. An id that a failed INSERT took from a sequence is gone
-- in the routes of rules and incidents. The lengths of VARCHAR columns and the ranges of numbers
-- are tests in Topology.Tables and Agents, and left out elsewhere, as is the
-- hexadecimal form of `parseInt`. Foreign keys of the rows that a request writes are kept where a
-- request can break them, except those of audit_logs, of `acked_by` and of the nodes of the map. White space, case and the classes of
-- regular expressions are those of ASCII.
-- jsonwebtoken is the record Accounts.Jwt, with the documented law that a signed token verifies until
-- it expires; bcrypt's compare and hash, the casts of PostgreSQL to MACADDR and INET, the TLS
-- handshake with a host and the reading of a token in the filter are function parameters.
--
-- Not modelled: failures of the database, the pages under web/src/app/(dashboard), the Go server,
-- and what a route only reads and formats.
pub mod Prelude
pub mod Http
pub mod Accounts
pub mod Rack
pub mod Monitor
pub mod Topology
pub mod Parser
pub mod Agents
pub mod Filter
pub mod Dependencies
pub mod Certificates
