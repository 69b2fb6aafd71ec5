-- ===== src/Api/Nodes.antt =====
-- The routes for one node of src/runtime/production-server.ts: its region, quarantine and restoration,
-- kill switch, DNS, desired state and reconciliation.
use bapc_vpn_and_digital_sec.Base.{
  ℕ, String, true, Option, none, some, List, [], ◌∷◌, eq_ℕ, number_eq, string_eq, length, filter,
  is_empty,
}
use bapc_vpn_and_digital_sec.Json.{
  Json, bool, num, str, arr, obj, Items, nil, cons, Fields, end, field, strings, get_field,
}
use bapc_vpn_and_digital_sec.Domain.{SecurityEvent, critical}
use bapc_vpn_and_digital_sec.Store.{Store, Route, DesiredState}
use bapc_vpn_and_digital_sec.Store.Monad.{Result, fresh_id, gets, modify}
use bapc_vpn_and_digital_sec.Store.Repositories.{save_node}
use bapc_vpn_and_digital_sec.Store.Commands.{enqueue}
use bapc_vpn_and_digital_sec.Store.Desired.{DesiredInput, get_desired, put_desired}
use bapc_vpn_and_digital_sec.Response.{Response, Approval, handle, restore}
use bapc_vpn_and_digital_sec.Reconciliation.{
  DriftDimension, routes_and_integrity, dns, kill_switch, peer_topology, policy_version,
  DriftFinding, check_node,
}
use bapc_vpn_and_digital_sec.Rest.Http.{http_error}
use bapc_vpn_and_digital_sec.Rest.Router.{Caller}
use bapc_vpn_and_digital_sec.Api.{
  H, ◌>>=◌, ◌>>◌, return, reads, call, refuse_if, or_refuse, invalid_request, node_missing,
  Coercions, text_or, is_truthy, texts_or_none, items_of, found_node, audited,
}

abbrev route_items : Coercions → Option Json → List Route
route_items js (some (arr vs)) = items_of js.as_route vs
route_items js v = []

abbrev file_fields : Coercions → Option Json → List (String × String)
file_fields js (some (obj fs)) = js.as_files fs
file_fields js v = []

abbrev pub dimension_name : DriftDimension → String
dimension_name routes_and_integrity = "routes_and_integrity"
dimension_name dns = "dns"
dimension_name kill_switch = "kill_switch"
dimension_name peer_topology = "peer_topology"
dimension_name policy_version = "policy_version"

abbrev corrected_by : Option String → Fields → Fields
corrected_by none rest = rest
corrected_by (some by) rest = field "correctedBy" (str by) rest

-- `drifted.map(d=>({dimension:d.dimension,correctedBy:d.correctedBy}))`
abbrev pub corrections : List DriftFinding → Items
corrections [] = nil
corrections (d ∷ ds) =
    cons
      (obj (field "dimension" (str (dimension_name d.dimension)) (corrected_by d.corrected_by end)))
      (corrections ds)

module _ (js : Coercions) (iso : ℕ → String) (digest : Json → String) where
  -- the statements once the region is known not to be empty
  unfoldable pub put_region : Caller → String → String → H Json
  put_region claims id region = do
    found ← reads (found_node id)
    node ← or_refuse found node_missing
    call (modify (save_node (record node { region = some region })))
    audited iso digest claims.sub "NODE_REGION_SET" id (obj (field "region" (str region) end))
    return (obj (field "nodeId" (str id) (field "region" (str region) end)))

  unfoldable pub set_region : Caller → String → Json → H Json
  unfolding put_region
  set_region claims id body =
      let region = js.trim (text_or js "" (get_field "region" body)) in
      refuse_if (is_empty region) (invalid_request "region is required")
      >> put_region claims id region

  unfoldable pub quarantine_event : String → String → Store → SecurityEvent
  quarantine_event id reason s = record {
    id = s.uuid s.issued;
    node_id = some id;
    at_ms = s.now;
    severity = critical;
    engine = "soc-manual";
    type = "MANUAL_QUARANTINE";
    description = reason;
    metadata = obj (field "score" (num 90) end);
  }

  unfoldable pub quarantine_node : (Json → Option ℕ) → Caller → String → Json → H Response
  unfolding quarantine_event
  quarantine_node number_of claims id body = do
    let reason = text_or js "manual SOC quarantine" (get_field "reason" body)
    event ← call (gets (quarantine_event id reason))
    call fresh_id
    result ← call (handle number_of event)
    audited iso digest claims.sub "NODE_QUARANTINED" id (obj (field "reason" (str reason) end))
    return result

  unfoldable pub restore_route :
      (String → String → ℕ → Result Approval) → Caller → String → Json → H (Unit {0})
  restore_route verify_clearance claims id body = do
    call (restore verify_clearance id (text_or js "" (get_field "clearanceToken" body)))
    audited iso digest claims.sub "NODE_RESTORED" id (obj end)
    return tt

  -- the two commands that an operator sends; 100 is the queue's default priority
  unfoldable pub set_kill_switch : Caller → String → Json → H Json
  set_kill_switch claims id body = do
    found ← reads (found_node id)
    or_refuse found node_missing
    let enabled = is_truthy (get_field "enabled" body)
    call (enqueue id "SET_KILL_SWITCH" (obj (field "enabled" (bool enabled) end)) 100)
    audited iso digest claims.sub "KILL_SWITCH_SET" id (obj (field "enabled" (bool enabled) end))
    return (obj (field "queued" (bool true) (field "enabled" (bool enabled) end)))

  unfoldable pub set_dns : Caller → String → Json → H Json
  set_dns claims id body = do
    found ← reads (found_node id)
    or_refuse found node_missing
    let servers = texts_or_none js (get_field "servers" body)
    refuse_if (eq_ℕ (length servers) 0) (invalid_request "servers (non-empty array) is required")
    call (enqueue id "SET_DNS" (obj (field "servers" (arr (strings servers)) end)) 100)
    audited iso digest claims.sub "DNS_SET" id (obj (field "servers" (arr (strings servers)) end))
    return (obj (field "queued" (bool true) (field "servers" (arr (strings servers)) end)))

  unfoldable pub desired_input : Json → DesiredInput
  desired_input body = record {
    routes = route_items js (get_field "routes" body);
    dns_servers = texts_or_none js (get_field "dnsServers" body);
    kill_switch_enabled = is_truthy (get_field "killSwitchEnabled" body);
    integrity_files = file_fields js (get_field "integrityFiles" body);
  }

  unfoldable pub put_desired_state : Caller → String → Json → H DesiredState
  unfolding desired_input
  put_desired_state claims id body = do
    found ← reads (found_node id)
    or_refuse found node_missing
    call (modify (put_desired id (desired_input body)))
    kept ← reads (λ w. get_desired id w.store)
    state ← or_refuse kept node_missing
    audited iso digest claims.sub "DESIRED_STATE_SET" id
        (obj (field "revision" (num state.revision) end))
    return state

  unfoldable pub get_desired_state : String → H DesiredState
  get_desired_state id = do
    found ← reads (λ w. get_desired id w.store)
    or_refuse found (http_error 404 "no desired state configured for this node" "not_found")

  -- the record of what was corrected, where something was
  unfoldable pub record_corrections : String → String → List DriftFinding → H (Unit {0})
  record_corrections actor id [] = return tt
  record_corrections actor id (d ∷ ds) =
      audited iso digest actor "NODE_RECONCILED" id
        (obj (field "corrected" (arr (corrections (d ∷ ds))) end))
      >> return tt

  unfoldable pub reconcile_node : (Json → String) → Caller → String → H (List DriftFinding)
  unfolding record_corrections
  reconcile_node hash claims id = do
    findings ← call (check_node hash id)
    record_corrections claims.sub id (filter (λ d. d.drifted) findings)
    return findings
