-- ===== src/Api/Fleet.antt =====
-- The routes on relays and egress gateways of src/runtime/production-server.ts. `launch` and `shut_down`
-- are the calls of the cloud provider, `none` a fleet that is not configured.
use bapc_vpn_and_digital_sec.Base.{
  ℕ, String, true, not, ◌||◌, Option, none, some, List, if◌then◌else◌, number_eq, string_eq,
  is_empty,
}
use bapc_vpn_and_digital_sec.Json.{Json, bool, str, obj, end, field, get_field}
use bapc_vpn_and_digital_sec.Store.{Relay}
use bapc_vpn_and_digital_sec.Store.Monad.{Result, ok, err, fresh_id, modify}
use bapc_vpn_and_digital_sec.Mesh.Routing.{RelayHealth}
use bapc_vpn_and_digital_sec.Mesh.Relays.{
  insert_relay, get_relay, remove_relay, list_relays, relay_heartbeat,
}
use bapc_vpn_and_digital_sec.Egress.{EgressGateway, select}
use bapc_vpn_and_digital_sec.Egress.Gateways.{
  GatewayRow, insert_gateway, gateway_heartbeat, list_gateways, gateway_candidates,
}
use bapc_vpn_and_digital_sec.Rest.Replay.{HttpError}
use bapc_vpn_and_digital_sec.Rest.Http.{http_error}
use bapc_vpn_and_digital_sec.Rest.Router.{Caller}
use bapc_vpn_and_digital_sec.Api.{
  H, ◌>>=◌, ◌>>◌, return, reads, call, refuse_if, or_refuse, invalid_request, Coercions, text_or,
  number_or, number_if, is_truthy, is_not_false, text_of, audited,
}

pub record Instance : Type 0 where
  pub endpoint : String
  pub instance_id : String

pub record RelayFleet : Type 0 where
  pub region : String
  pub launch : String → String → Result Instance
  pub shut_down : String → Result (Unit {0})

abbrev pub not_configured : HttpError
not_configured =
    http_error 501
      "AWS relay auto-provisioning is not configured yet — set AWS_RELAY_AMI_ID and AWS_RELAY_REGION (coming soon)"
      "not_configured"

abbrev pub relay_missing : HttpError
relay_missing = http_error 404 "relay not found" "not_found"

abbrev of_result : {A : Type 0} → Result A → H A
of_result r = call (λ s. (r, s))

abbrev acknowledged : Json
acknowledged = obj (field "acknowledged" (bool true) end)

module _ (js : Coercions) (iso : ℕ → String) (digest : Json → String) where
  unfoldable pub provision_relay : Option RelayFleet → Caller → Json → H (String × Instance)
  provision_relay configured claims body = do
    fleet ← or_refuse configured not_configured
    let region = text_or js fleet.region (get_field "region" body)
    let instance_type = text_or js "t3.small" (get_field "instanceType" body)
    machine ← of_result (fleet.launch region instance_type)
    relay_id ← call fresh_id
    call (modify (insert_relay relay_id region machine.endpoint (some machine.instance_id) none))
    audited iso digest claims.sub "RELAY_PROVISIONED" relay_id (
        obj (
          field "region" (str region) (
            field "instanceType" (str instance_type)
              (field "instanceId" (str machine.instance_id) end))))
    return (relay_id, machine)

  abbrev instance_of : Relay → Option String
  instance_of r = elim r.instance_id [ none ↦ none | some i ↦ if is_empty i then none else some i ]

  unfoldable pub terminate_relay : Option RelayFleet → Caller → String → H Json
  terminate_relay configured claims id = do
    fleet ← or_refuse configured not_configured
    found ← reads (λ w. get_relay id w.store)
    relay ← or_refuse found relay_missing
    machine ← or_refuse (instance_of relay) (
        invalid_request
          "this relay has no associated AWS instance to terminate — it was added manually")
    of_result (fleet.shut_down machine)
    call (modify (remove_relay relay.id))
    audited iso digest claims.sub "RELAY_TERMINATED" id (obj (field "instanceId" (str machine) end))
    return (obj (field "terminated" (bool true) end))

  unfoldable pub register_relay : Json → H Json
  register_relay body = do
    let relay_id = text_or js "" (get_field "relayId" body)
    refuse_if
        (is_empty relay_id
          || not (is_truthy (get_field "region" body))
          || not (is_truthy (get_field "endpoint" body)))
        (invalid_request "relayId, region and endpoint are required")
    call (
        modify (
          insert_relay relay_id (text_of js (get_field "region" body))
            (text_of js (get_field "endpoint" body)) none
            (number_if js (get_field "capacityMbps" body))))
    return (obj (field "registered" (bool true) (field "relayId" (str relay_id) end)))

  unfoldable pub heartbeat_relay : String → Json → H Json
  heartbeat_relay id body = do
    call (
        modify (
          relay_heartbeat id (record {
            load_percent = number_or js 0 (get_field "loadPercent" body);
            latency_ms = number_or js 0 (get_field "latencyMs" body);
            active_sessions = number_or js 0 (get_field "activeSessions" body);
            throughput_bytes_per_sec = number_or js 0 (get_field "throughputBytesPerSec" body);
          })))
    return acknowledged

  abbrev on_gateways : (ℕ → List GatewayRow → List GatewayRow) → H (Unit {0})
  on_gateways f w = return tt (record w { gateways = f w.store.now w.gateways })

  unfoldable pub register_gateway : Json → H Json
  register_gateway body = do
    let gateway_id = text_or js "" (get_field "gatewayId" body)
    refuse_if
        (is_empty gateway_id
          || not (is_truthy (get_field "region" body))
          || not (is_truthy (get_field "fixedIp" body)))
        (invalid_request "gatewayId, region and fixedIp are required")
    on_gateways (λ now.
        insert_gateway now gateway_id (text_of js (get_field "region" body))
          (text_of js (get_field "fixedIp" body)) (number_if js (get_field "maxSessions" body)))
    return (obj (field "registered" (bool true) (field "gatewayId" (str gateway_id) end)))

  unfoldable pub heartbeat_gateway : String → Json → H Json
  heartbeat_gateway id body = do
    on_gateways (λ now. gateway_heartbeat now id (record {
      load_percent = number_or js 0 (get_field "loadPercent" body);
      healthy = is_not_false (get_field "healthy" body);
      latency_ms = number_or js 0 (get_field "latencyMs" body);
      active_sessions = number_or js 0 (get_field "activeSessions" body);
    }))
    return acknowledged

unfoldable pub relays : H (List RelayHealth)
relays = reads (λ w. list_relays w.store)

unfoldable pub gateways : H (List EgressGateway)
gateways = reads (λ w. list_gateways w.gateways)

abbrev pub no_gateway : HttpError
no_gateway = http_error 503 "no healthy egress gateway is currently registered" "not_configured"

abbrev chosen : Result EgressGateway → Option EgressGateway
chosen (ok g) = some g
chosen (err e) = none

-- the `catch` makes any error of the selector a refusal
unfoldable pub select_gateway : String → H Json
select_gateway region = do
  found ←
      reads (λ w. chosen (select (gateway_candidates w.store.now w.gateways) region w.store.now))
  selected ← or_refuse found no_gateway
  return (
      obj (
        field "gatewayId" (str selected.id)
          (field "fixedIp" (str selected.fixed_ip) (field "region" (str selected.region) end))))
