-- ===== src/Threat/Engine.antt =====
-- `ThreatEngine` of services/threat-engine/engine.ts, over the ports of production.
pub mod Containment
use bapc_vpn_and_digital_sec.Base.{
  ℕ, ◌+◌, String, Bool, true, false, ◌&&◌, List, [], ◌∷◌, Option, none, some, ltb, leb, length,
  is_some, trimmed_length, decimal, ◌<+>◌,
}
use bapc_vpn_and_digital_sec.Json.{Json, null, num, str, obj, end, field}
use bapc_vpn_and_digital_sec.Domain.{Severity, info, warn, critical, emergency, plain}
use bapc_vpn_and_digital_sec.Store.{Store, Incident}
use bapc_vpn_and_digital_sec.Store.Monad.{
  M, ok, err, ◌>>=◌, ◌>>◌, return, gets, modify, throw_if, fresh_id, then_run,
}
use bapc_vpn_and_digital_sec.Enforcer.{isolate_node, restore_node}
use bapc_vpn_and_digital_sec.Threat.{ThreatSignal, score, severity_of, attributed_node}
use bapc_vpn_and_digital_sec.Threat.Ports.{
  reauthenticate, terminate_jit, revoke_node_certificates, rotate_mesh_identity, incident_event,
  open_incident, close_incidents,
}

pub record Evaluation : Type 0 where
  pub score : ℕ
  pub severity : Severity
  pub contained : Bool

unfoldable pub new_incident : String → List ThreatSignal → Incident
new_incident id signals = record {
  id = id;
  title = "Correlated threat evaluation (score " <+> decimal (score signals) <+> ")";
  severity = severity_of (score signals);
  is_open = true;
  closed_at = none;
  primary_node_id = attributed_node signals;
  unresolved_node_id = none;
  score = score signals;
  signal_count = length signals;
}

-- the four calls that contain a node, by severity
unfoldable pub respond : Severity → Option String → M (Unit {0})
respond severity none = return tt
respond info (some node_id) = return tt
respond warn (some node_id) = modify (reauthenticate node_id)
respond critical (some node_id) = do modify (terminate_jit node_id); isolate_node node_id
respond emergency (some node_id) = do
  modify (terminate_jit node_id)
  isolate_node node_id
  modify (revoke_node_certificates node_id "emergency containment")
  rotate_mesh_identity node_id

abbrev node_json : Option String → Json
node_json none = null
node_json (some id) = str id

-- the last two statements of `evaluate`
unfoldable pub report : List ThreatSignal → M Evaluation
report signals = do
  modify (
      incident_event (severity_of (score signals)) "THREAT_EVALUATED"
        ("threat score " <+> decimal (score signals))
        (obj (
          field "score" (num (score signals)) (
            field "signalCount" (num (length signals))
              (field "nodeId" (node_json (attributed_node signals)) end)))))
  return (record {
    score = score signals;
    severity = severity_of (score signals);
    contained = is_some (attributed_node signals) && leb 65 (score signals);
  })

unfoldable pub evaluate : List ThreatSignal → M Evaluation
unfolding respond report
evaluate signals = do
  id ← fresh_id
  modify (open_incident (new_incident id signals))
  respond (severity_of (score signals)) (attributed_node signals)
  report signals

-- `resolveIncidents`
unfoldable pub resolve_incidents : String → String → Store → ℕ × Store
resolve_incidents node_id closed_by s = close_incidents node_id closed_by s

unfoldable pub restore : String → String → Bool → M (Unit {0})
restore node_id approved_by forensic_clearance = do
  throw_if (elim forensic_clearance [ true ↦ false | false ↦ true ])
      (plain "forensic clearance required before restore")
  throw_if (ltb (trimmed_length approved_by) 3) (plain "restore approver required")
  restore_node node_id
  modify (
      incident_event info "NODE_RESTORED" "node restored after forensic clearance"
        (obj (field "nodeId" (str node_id) (field "approvedBy" (str approved_by) end))))
