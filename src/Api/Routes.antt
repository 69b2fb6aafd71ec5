-- ===== src/Api/Routes.antt =====
-- The table of routes of src/runtime/production-server.ts, in the order in which they are added. `Services`
-- is what the process builds at its start and does not change: configuration, third-party functions, and
-- the handlers that the model leaves out (the console's full snapshot, the recovery routes, the rollout,
-- and the two public documents, which only read).
pub mod Laws
use bapc_vpn_and_digital_sec.Base.{
  ℕ, ◌+◌, ◌-◌, ◌/◌, String, true, false, Option, none, some, List, [], ◌∷◌, ◌++◌, if◌then◌else◌,
  ◌==◌, number_eq, string_eq,
}
use bapc_vpn_and_digital_sec.Json.{Json, str, num, bool, obj, end, field}
use bapc_vpn_and_digital_sec.Domain.{AccessDecision}
use bapc_vpn_and_digital_sec.Store.Monad.{Result}
use bapc_vpn_and_digital_sec.Store.Repositories.{list_nodes, list_active_policies, audit_chain}
use bapc_vpn_and_digital_sec.Response.{Approval}
use bapc_vpn_and_digital_sec.Rest.RateLimit.{RateLimitRule}
use bapc_vpn_and_digital_sec.Rest.Path.{pattern_of}
use bapc_vpn_and_digital_sec.Rest.Router.{
  Context, RawResponse, Outcome, gives, throws, Handler, json_handler, raw_handler, RouteOptions,
  Route,
}
use bapc_vpn_and_digital_sec.Api.{World, H, return, reads, Coercions, text_or, texts_or_none}
use bapc_vpn_and_digital_sec.Api.Nodes.{
  set_region, quarantine_node, restore_route, set_kill_switch, set_dns, put_desired_state,
  get_desired_state, reconcile_node,
}
use bapc_vpn_and_digital_sec.Api.Soc.{soc_snapshot, lockdown_route}
use bapc_vpn_and_digital_sec.Api.Policies.{
  put_policy, rollout, events, audit_verify, request_jit, approve_jit, terminate_jit, decide_access,
}
use bapc_vpn_and_digital_sec.Api.Agent.{
  agent_heartbeat, threat_signal, dismiss_threat, active_threats, acknowledge_command,
}
use bapc_vpn_and_digital_sec.Api.Fleet.{
  RelayFleet, provision_relay, terminate_relay, register_relay, heartbeat_relay, register_gateway,
  heartbeat_gateway, relays, gateways, select_gateway,
}

-- `to_json` is what `JSON.stringify` sees of a value, and `query_get` the value of a key in a query
pub record Services : Type 1 where
  pub js : Coercions
  pub iso : ℕ → String
  pub digest : Json → String
  pub hash : Json → String
  pub number_of : Json → Option ℕ
  pub number_of_text : String → ℕ
  pub query_get : String → String → Option String
  pub to_json : {A : Type 0} → A → Json
  pub sign : AccessDecision → String
  pub refresh_ms : ℕ
  pub verify_clearance : String → String → ℕ → Result Approval
  pub fleet : Option RelayFleet
  pub environment : String
  pub database_health : Json
  pub other : String → Context → H Json
  pub document : String → Context → World → Outcome RawResponse

abbrev value_of : String → List (String × String) → String
value_of k [] = ""
value_of k ((j, v) ∷ ps) = if j == k then v else value_of k ps

abbrev param : String → Context → String
param k c = value_of k c.params

abbrev or_empty : Option String → String
or_empty none = ""
or_empty (some s) = s

abbrev plain_options : RouteOptions
plain_options = record {
  idempotent = false;
  rate_limit = none;
  public = false;
  replay_protected = false;
}

abbrev idempotent : RouteOptions
idempotent = record plain_options { idempotent = true }

abbrev public_route : RouteOptions
public_route = record plain_options { public = true }

-- a limit for each minute
abbrev limited : ℕ → RouteOptions → RouteOptions
limited n options = record options { rate_limit = some (record { limit = n; window_ms = 60000 }) }

abbrev pub entry : String → String → List String → RouteOptions → Handler World → Route World
entry method path roles options handler = record {
  method = method;
  pattern = pattern_of path;
  roles = roles;
  handler = handler;
  options = options;
}

abbrev readers : List String
readers = "security-read" ∷ []

abbrev approvers : List String
approvers = "security-approver" ∷ []

abbrev owners : List String
owners = "security-owner" ∷ []

abbrev agents : List String
agents = "security-agent" ∷ []

abbrev users : List String
users = "security-user" ∷ []

module _ (env : Services) where
  abbrev encoded : {A : Type 0} → Outcome A × World → Outcome Json × World
  encoded (gives a, w) = (gives (env.to_json a), w)
  encoded (throws e, w) = (throws e, w)

  abbrev answers : {A : Type 0} → (Context → H A) → Handler World
  answers h = json_handler (λ c w. encoded (h c w))

  abbrev document : String → Handler World
  document name = raw_handler (λ c w. (env.document name c w, w))

  abbrev status_json : Context → Json
  status_json c = obj (
      field "service" (str "bapc-vpn-security") (
        field "version" (str "0.4.0") (
          field "subject" (str c.claims.sub) (
            field "database" env.database_health (field "environment" (str env.environment) end)))))

  abbrev pub root_routes : List (Route World)
  root_routes =
      entry "HEAD" "/" [] public_route (json_handler (λ c w. (gives (obj end), w)))
      ∷ entry "GET" "/" [] public_route (
          json_handler (λ c w. (
            gives (
                obj
                  (field "service" (str "bapc-vpn-security") (field "version" (str "0.4.0") end))),
            w,
          )))
      ∷ []

  abbrev pub operator_routes : List (Route World)
  operator_routes =
      entry "GET" "/api/v1/status" readers plain_options (answers (λ c. return (status_json c)))
      ∷ entry "GET" "/api/v1/nodes" readers plain_options
          (answers (λ c. reads (λ w. list_nodes w.store)))
      ∷ entry "GET" "/api/v1/policies" readers plain_options
          (answers (λ c. reads (λ w. list_active_policies w.store)))
      ∷ entry "PUT" "/api/v1/policies/:id" approvers idempotent
          (answers (λ c. put_policy env.js env.iso env.digest c.claims (param "id" c) c.body))
      ∷ entry "POST" "/api/v1/policies/apply" approvers (limited 5 plain_options)
          (answers (env.other "policies/apply"))
      ∷ entry "GET" "/api/v1/policies/:commitId/rollout" readers plain_options
          (answers (λ c. rollout (param "commitId" c)))
      ∷ entry "GET" "/api/v1/events" readers plain_options
          (answers (λ c. events (env.query_get "limit" c.query) env.number_of_text))
      ∷ entry "GET" "/api/v1/audit" readers plain_options
          (answers (λ c. reads (λ w. audit_chain w.store)))
      ∷ entry "GET" "/api/v1/audit/verify" readers plain_options
          (answers (λ c. audit_verify env.js env.iso env.digest))
      ∷ entry "GET" "/api/v1/soc/snapshot" readers plain_options (answers (λ c. soc_snapshot))
      ∷ entry "GET" "/api/v1/soc/snapshot/full" readers plain_options
          (answers (env.other "soc/snapshot/full"))
      ∷ entry "POST" "/api/v1/soc/emergency-lockdown" owners
          (record (limited 2 plain_options) { replay_protected = true })
          (answers (λ c. lockdown_route env.js env.iso env.digest c.claims c.body))
      ∷ entry "POST" "/api/v1/oob/checkpoint" approvers plain_options
          (answers (env.other "oob/checkpoint"))
      ∷ entry "POST" "/api/v1/oob/rollback" owners (limited 2 plain_options)
          (answers (env.other "oob/rollback"))
      ∷ entry "GET" "/api/v1/oob/status" readers plain_options (answers (env.other "oob/status"))
      ∷ []

  abbrev pub document_routes : List (Route World)
  document_routes =
      entry "GET" "/api/v1/certificates/crl" [] (limited 120 public_route) (document "crl")
      ∷ entry "GET" "/api/bapc/handshake" [] (limited 60 public_route) (document "handshake")
      ∷ []

  abbrev pub node_routes : List (Route World)
  node_routes =
      entry "POST" "/api/v1/jit" users (limited 20 idempotent)
        (answers (λ c. request_jit env.js env.iso env.digest c.claims c.body))
      ∷ entry "POST" "/api/v1/jit/:id/approve" approvers plain_options
          (answers (λ c. approve_jit env.js env.iso env.digest c.claims (param "id" c)))
      ∷ entry "POST" "/api/v1/jit/:id/terminate" approvers plain_options
          (answers (λ c. terminate_jit env.js env.iso env.digest c.claims (param "id" c) c.body))
      ∷ entry "PUT" "/api/v1/nodes/:id/region" approvers idempotent
          (answers (λ c. set_region env.js env.iso env.digest c.claims (param "id" c) c.body))
      ∷ entry "POST" "/api/v1/nodes/:id/quarantine" approvers (limited 10 plain_options) (
          answers (λ c.
            quarantine_node env.js env.iso env.digest env.number_of c.claims (param "id" c) c.body))
      ∷ entry "POST" "/api/v1/nodes/:id/restore" approvers plain_options (
          answers (λ c.
            restore_route env.js env.iso env.digest env.verify_clearance c.claims (param "id" c)
              c.body))
      ∷ entry "POST" "/api/v1/nodes/:id/kill-switch" approvers plain_options
          (answers (λ c. set_kill_switch env.js env.iso env.digest c.claims (param "id" c) c.body))
      ∷ entry "POST" "/api/v1/nodes/:id/dns" approvers plain_options
          (answers (λ c. set_dns env.js env.iso env.digest c.claims (param "id" c) c.body))
      ∷ entry "PUT" "/api/v1/nodes/:id/desired-state" approvers idempotent (
          answers (λ c. put_desired_state env.js env.iso env.digest c.claims (param "id" c) c.body))
      ∷ entry "GET" "/api/v1/nodes/:id/desired-state" readers plain_options
          (answers (λ c. get_desired_state env.js env.iso env.digest (param "id" c)))
      ∷ entry "POST" "/api/v1/nodes/:id/reconcile" approvers (limited 30 plain_options)
          (answers (λ c. reconcile_node env.js env.iso env.digest env.hash c.claims (param "id" c)))
      ∷ []

  abbrev pub agent_routes : List (Route World)
  agent_routes =
      entry "POST" "/api/v1/agent/heartbeat" agents plain_options
        (answers (λ c. agent_heartbeat env.js c.body))
      ∷ entry "POST" "/api/v1/threats/signal" agents (limited 120 plain_options)
          (answers (λ c. threat_signal env.js c.body))
      ∷ entry "POST" "/api/v1/threats/:nodeId/dismiss" approvers plain_options
          (answers (λ c. dismiss_threat env.iso env.digest c.claims (param "nodeId" c)))
      ∷ entry "GET" "/api/v1/threats/active" readers plain_options (answers (λ c. active_threats))
      ∷ entry "POST" "/api/v1/agent/commands/:id/ack" agents plain_options
          (answers (λ c. acknowledge_command env.js (param "id" c) c.body))
      ∷ entry "POST" "/api/v1/access/decide" agents (limited 300 plain_options)
          (answers (λ c. decide_access env.js env.iso env.digest env.sign env.refresh_ms c.body))
      ∷ []

  abbrev pub fleet_routes : List (Route World)
  fleet_routes =
      entry "GET" "/api/v1/relays" readers plain_options (answers (λ c. relays))
      ∷ entry "POST" "/api/v1/relays/provision" owners (limited 5 plain_options)
          (answers (λ c. provision_relay env.js env.iso env.digest env.fleet c.claims c.body))
      ∷ entry "POST" "/api/v1/relays/:id/terminate" owners (limited 5 plain_options) (
          answers
            (λ c. terminate_relay env.js env.iso env.digest env.fleet c.claims (param "id" c)))
      ∷ entry "POST" "/api/v1/relays/register" agents idempotent
          (answers (λ c. register_relay env.js env.iso env.digest c.body))
      ∷ entry "POST" "/api/v1/relays/:id/heartbeat" agents (limited 120 plain_options)
          (answers (λ c. heartbeat_relay env.js env.iso env.digest (param "id" c) c.body))
      ∷ entry "GET" "/api/v1/egress" readers plain_options (answers (λ c. gateways))
      ∷ entry "POST" "/api/v1/egress/register" agents idempotent
          (answers (λ c. register_gateway env.js env.iso env.digest c.body))
      ∷ entry "POST" "/api/v1/egress/:id/heartbeat" agents (limited 120 plain_options)
          (answers (λ c. heartbeat_gateway env.js env.iso env.digest (param "id" c) c.body))
      ∷ entry "GET" "/api/v1/egress/select" agents plain_options
          (answers (λ c. select_gateway (or_empty (env.query_get "region" c.query))))
      ∷ []

  unfoldable pub routes : List (Route World)
  routes =
      root_routes ++ operator_routes ++ document_routes ++ node_routes ++ agent_routes
      ++ fleet_routes
