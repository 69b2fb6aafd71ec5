-- ===== src/Heartbeat.antt =====
-- src/application/heartbeat.ts, `HeartbeatService`.
pub mod Laws
use bapc_vpn_and_digital_sec.Base.{
  ℕ, ◌-◌, ◌+◌, String, Bool, true, false, Option, none, some, ltb, if◌then◌else◌,
}
use bapc_vpn_and_digital_sec.Json.{Json, str, bool, obj, end, field}
use bapc_vpn_and_digital_sec.Domain.{Device, Posture, plain, is_compliant}
use bapc_vpn_and_digital_sec.Store.{Store}
use bapc_vpn_and_digital_sec.Store.Monad.{M, ◌>>=◌, ◌>>◌, return, gets, modify, throw_if, or_throw}
use bapc_vpn_and_digital_sec.Store.Repositories.{get_node, get_device, save_device}
use bapc_vpn_and_digital_sec.Store.Commands.{publish}

pub record Heartbeat : Type 0 where
  pub node_id : String
  pub at_ms : ℕ
  pub posture : Posture
  pub bytes_transmitted : ℕ
  pub bytes_received : ℕ
  pub agent_version : String

pub record Reply : Type 0 where
  pub accepted : Bool
  pub compliant : Bool
  pub next_heartbeat_seconds : ℕ

-- `Math.abs(a-b)`
abbrev pub distance : ℕ → ℕ → ℕ
distance a b = (a - b) + (b - a)

abbrev pub with_report : Heartbeat → Device → Device
with_report h d = record d {
  posture = h.posture;
  updated_at = h.at_ms;
  last_posture_at = some h.at_ms;
  agent_version = some h.agent_version;
}

abbrev topic_of : Bool → String
topic_of compliant = if compliant then "security.heartbeat.accepted" else "security.posture.failed"

unfoldable pub accept : Heartbeat → M Reply
accept h = do
  found_node ← gets (get_node h.node_id)
  node ← or_throw found_node (plain "unregistered node")
  now ← gets (λ s. s.now)
  throw_if (ltb 120000 (distance now h.at_ms)) (plain "stale heartbeat")
  found_device ← gets (get_device node.device_id)
  device ← or_throw found_device (plain "device missing")
  modify (save_device (with_report h device))
  let compliant = is_compliant h.posture
  modify (
      publish (topic_of compliant) (
        obj (
          field "nodeId" (str h.node_id)
            (field "agentVersion" (str h.agent_version) (field "compliant" (bool compliant) end)))))
  return (record { accepted = true; compliant = compliant; next_heartbeat_seconds = 30 })
