-- ===== src/Api/Agent.antt =====
-- The routes of the endpoint agents and of threat signals of src/runtime/production-server.ts.
use bapc_vpn_and_digital_sec.Base.{
  ℕ, ◌-◌, String, Bool, true, false, Option, none, some, List, if◌then◌else◌, number_eq, string_eq,
}
use bapc_vpn_and_digital_sec.Json.{Json, null, bool, num, arr, obj, end, field, get_field}
use bapc_vpn_and_digital_sec.Store.{Command}
use bapc_vpn_and_digital_sec.Store.Monad.{modify}
use bapc_vpn_and_digital_sec.Store.Commands.{pending_commands, acknowledge}
use bapc_vpn_and_digital_sec.Heartbeat as Heartbeat
use bapc_vpn_and_digital_sec.Heartbeat.{Heartbeat, Reply}
use bapc_vpn_and_digital_sec.Threat.{above, ThreatSignal, unit_clamp, non_negative}
use bapc_vpn_and_digital_sec.Threat.Ports.{close_incidents}
use bapc_vpn_and_digital_sec.Threat.Engine.{Evaluation}
use bapc_vpn_and_digital_sec.Threat.SignalTable.{clear_rows, ActiveWindow, active_windows}
use bapc_vpn_and_digital_sec.Threat.Durable.{ingest_rows}
use bapc_vpn_and_digital_sec.Rest.Router.{Caller}
use bapc_vpn_and_digital_sec.Api.{
  H, ◌>>=◌, ◌>>◌, return, reads, call, of_store, Coercions, text, text_or, text_of, number_or,
  is_truthy, audited,
}

abbrev pub correlation_window_ms : ℕ
correlation_window_ms = 300000

-- the object of a field, and the empty one for any value that is none
abbrev object_or_empty : Option Json → Json
object_or_empty (some (obj fs)) = obj fs
object_or_empty (some (arr vs)) = arr vs
object_or_empty v = obj end

abbrev or_null : Option Json → Json
or_null none = null
or_null (some v) = v

-- `threatCorrelator.ingest`
unfoldable pub correlate : ThreatSignal → H Evaluation
correlate signal w =
    let (r, s, rows) = ingest_rows correlation_window_ms signal w.signals w.store in
    of_store (record w { signals = rows }) (r, s)

module _ (js : Coercions) where
  unfoldable pub heartbeat_of : Json → Heartbeat
  heartbeat_of body = record {
    node_id = text_of js (get_field "nodeId" body);
    at_ms = js.date (get_field "at" body);
    posture = js.as_posture (get_field "posture" body);
    bytes_transmitted = number_or js 0 (get_field "bytesTransmitted" body);
    bytes_received = number_or js 0 (get_field "bytesReceived" body);
    agent_version = text_or js "unknown" (get_field "agentVersion" body);
  }

  unfoldable pub posture_signal : Json → ℕ → ThreatSignal
  posture_signal body now = record {
    node_id = some (text_of js (get_field "nodeId" body));
    kind = "posture_failure";
    confidence = above 1000;
    weight = above 15000;
    at_ms = now;
    metadata = obj (field "posture" (or_null (get_field "posture" body)) end);
  }

  unfoldable pub report_posture : Json → Bool → H (Unit {0})
  unfolding posture_signal
  report_posture body true = return tt
  report_posture body false = do
    now ← reads (λ w. w.store.now)
    correlate (posture_signal body now)
    return tt

  -- 20 is the default limit of `pending`
  unfoldable pub agent_heartbeat : Json → H (Reply × List Command)
  unfolding heartbeat_of report_posture
  agent_heartbeat body = do
    accepted ← call (Heartbeat.accept (heartbeat_of body))
    report_posture body accepted.compliant
    commands ← reads (λ w. pending_commands (text_of js (get_field "nodeId" body)) 20 w.store)
    return (accepted, commands)

  abbrev node_if : Option Json → Option String
  node_if none = none
  node_if (some v) = if is_truthy (some v) then some (text js v) else none

  unfoldable pub signal_of : Json → ℕ → ThreatSignal
  signal_of body now = record {
    node_id = node_if (get_field "nodeId" body);
    kind = text_or js "unknown" (get_field "kind" body);
    confidence = above (unit_clamp (js.milli 1000 (get_field "confidence" body)));
    weight = above (non_negative (js.milli 10000 (get_field "weight" body)));
    at_ms = now;
    metadata = object_or_empty (get_field "metadata" body);
  }

  unfoldable pub threat_signal : Json → H Evaluation
  unfolding signal_of
  threat_signal body = do now ← reads (λ w. w.store.now); correlate (signal_of body now)

  unfoldable pub acknowledge_command : String → Json → H Json
  acknowledge_command id body = do
    call (modify (acknowledge id (or_null (get_field "result" body))))
    return (obj (field "acknowledged" (bool true) end))

-- `threatCorrelator.dismiss`, whose sink writes the audit record
unfoldable pub dismiss_threat : (ℕ → String) → (Json → String) → Caller → String → H ℕ
dismiss_threat iso digest claims node_id = do
  cleared ← (λ w.
      return (clear_rows node_id w.signals).0
        (record w { signals = (clear_rows node_id w.signals).1 }))
  audited iso digest claims.sub "THREAT_DISMISSED" node_id
      (obj (field "signalCount" (num cleared) end))
  call (modify (λ s. (close_incidents node_id claims.sub s).1))
  return cleared

-- the windows from `now - windowMs` on
unfoldable pub active_threats : H (List ActiveWindow)
active_threats = reads (λ w. active_windows (w.store.now - correlation_window_ms) w.signals)
