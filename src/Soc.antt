-- ===== src/Soc.antt =====
-- The operators' console on the server: apps/security-soc/backend.ts (`SecuritySocBackend`),
-- apps/security-soc/pg-soc-actions.ts (`PgSocActions`) and src/application/soc.ts (`SocService`), with
-- POST /api/v1/soc/emergency-lockdown of src/runtime/production-server.ts. `iso` writes a time as a text.
pub mod Isolation
pub mod Laws
use bapc_vpn_and_digital_sec.Base.{
  ℕ, String, Bool, true, false, not, ◌||◌, List, [], ◌∷◌, Option, none, some, ◌==◌, string_eq, ltb,
  filter, length, trimmed_length, ◌<+>◌,
}
use bapc_vpn_and_digital_sec.Json.{Json, num, str, obj, end, field}
use bapc_vpn_and_digital_sec.Domain.{
  Device, MeshNode, JitGrant, SecurityEvent, Severity, info, warn, critical, emergency, plain,
}
use bapc_vpn_and_digital_sec.Store.{Store}
use bapc_vpn_and_digital_sec.Store.Monad.{
  M, Result, ◌>>=◌, ◌>>◌, return, gets, modify, throw_if, for_each, fresh_id,
}
use bapc_vpn_and_digital_sec.Store.Repositories.{
  list_nodes, list_devices, list_active_grants, list_active_policies, recent_events, save_grant,
}
use bapc_vpn_and_digital_sec.Store.Commands.{publish}
use bapc_vpn_and_digital_sec.Enforcer.{isolate_node}
use bapc_vpn_and_digital_sec.Response.{Approval, handle}
use bapc_vpn_and_digital_sec.Response as Response

abbrev pub is_active : MeshNode → Bool
is_active n = n.active

-- `PgSocActions.quarantine`
unfoldable pub console_event : String → String → String → Store → SecurityEvent
console_event node_id reason actor s = record {
  id = s.uuid s.issued;
  node_id = some node_id;
  at_ms = s.now;
  severity = critical;
  engine = "soc-console";
  type = "MANUAL_QUARANTINE";
  description = reason;
  metadata = obj (field "score" (num 90) (field "actor" (str actor) end));
}

abbrev pub ended : String → JitGrant → JitGrant
ended reason g = record g {
  terminated = true;
  termination_reason = some ("emergency lockdown: " <+> reason);
}

-- the loop over the active grants
unfoldable pub end_grants : String → List JitGrant → Store → Store
end_grants reason [] s = s
end_grants reason (g ∷ gs) s = end_grants reason gs (save_grant (ended reason g) s)

-- the loop over the active nodes
unfoldable pub isolate_all : List MeshNode → M (Unit {0})
isolate_all nodes = for_each nodes (λ n. isolate_node n.id)

module _ (iso : ℕ → String) where
  abbrev pub lockdown_event : String → String → String → ℕ → ℕ → ℕ → Json
  lockdown_event reason actor confirmation at nodes grants = obj (
      field "reason" (str reason) (
        field "actor" (str actor) (
          field "confirmation" (str confirmation) (
            field "at" (str (iso at))
              (field "nodesIsolated" (num nodes) (field "grantsTerminated" (num grants) end))))))

  -- `PgSocActions.emergencyLockdown`
  unfoldable pub emergency_lockdown : String → String → String → M (Unit {0})
  emergency_lockdown reason actor confirmation = do
    now ← gets (λ s. s.now)
    active_nodes ← gets (λ s. filter is_active (list_nodes s))
    isolate_all active_nodes
    active_grants ← gets (list_active_grants now)
    modify (end_grants reason active_grants)
    modify (
        publish "security.emergency_lockdown" (
          lockdown_event reason actor confirmation now (length active_nodes)
            (length active_grants)))

  -- `SecuritySocBackend.emergencyLockdown`
  unfoldable pub lockdown : String → String → String → M (Unit {0})
  lockdown reason actor confirmation = do
    throw_if (not (confirmation == "LOCKDOWN")) (plain "typed LOCKDOWN confirmation required")
    throw_if (ltb (trimmed_length reason) 20) (plain "detailed emergency reason required")
    emergency_lockdown reason actor confirmation

module _ (number_of : Json → Option ℕ) where
  -- `SecuritySocBackend.quarantine` and the action that it calls
  unfoldable pub quarantine : String → String → String → M (Unit {0})
  unfolding console_event
  quarantine node_id reason actor = do
    throw_if (ltb (trimmed_length reason) 12) (plain "quarantine reason must be meaningful")
    event ← gets (console_event node_id reason actor)
    fresh_id
    handle number_of event
    return tt

-- `SecuritySocBackend.restore` and the action that it calls
unfoldable pub restore : (String → String → ℕ → Result Approval) → String → String → M (Unit {0})
restore verify_clearance node_id token = Response.restore verify_clearance node_id token

-- the counts of `SocService.snapshot`
pub record Counts : Type 0 where
  pub devices : ℕ
  pub revoked_devices : ℕ
  pub compromised_devices : ℕ
  pub nodes : ℕ
  pub active_nodes : ℕ
  pub active_jit : ℕ
  pub active_policies : ℕ
  pub critical_events : ℕ

abbrev is_grave : Severity → Bool
is_grave critical = true
is_grave emergency = true
is_grave s = false

unfoldable pub counts : Store → Counts
counts s = record {
  devices = length (list_devices s);
  revoked_devices = length (filter (λ d. d.revoked) (list_devices s));
  compromised_devices = length (filter (λ d. d.compromised) (list_devices s));
  nodes = length (list_nodes s);
  active_nodes = length (filter is_active (list_nodes s));
  active_jit = length (list_active_grants s.now s);
  active_policies = length (list_active_policies s);
  critical_events = length (filter (λ e. is_grave e.severity) (recent_events 100 s));
}

pub record Snapshot : Type 0 where
  pub generated_at : ℕ
  pub counted : Counts
  pub nodes : List MeshNode
  pub events : List SecurityEvent

-- `SocService.snapshot`
unfoldable pub snapshot : Store → Snapshot
unfolding counts
snapshot s = record {
  generated_at = s.now;
  counted = counts s;
  nodes = list_nodes s;
  events = recent_events 100 s;
}
