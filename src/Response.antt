-- ===== src/Response.antt =====
-- src/application/threat-response.ts, `ThreatResponseService`: the response to one security event, and
-- the restoration of a node. `number_of` is the language's `Number` on a value that is no number; the
-- sink of production (`NoopThreatSink`) does nothing.
pub mod Laws
use bapc_vpn_and_digital_sec.Base.{
  ℕ, String, Bool, true, false, not, ◌||◌, List, Option, none, some, if◌then◌else◌, leb, filter,
  ◌==◌, string_eq, is_empty,
}
use text.Mathlib.Text.{starts_with}
use bapc_vpn_and_digital_sec.Json.{Json, null, num, str, obj, end, field, get_field}
use bapc_vpn_and_digital_sec.Domain.{
  SecurityEvent, Severity, info, warn, critical, emergency, Device, MeshNode, JitGrant, plain,
}
use bapc_vpn_and_digital_sec.Store.{Store}
use bapc_vpn_and_digital_sec.Store.Monad.{
  M, Result, ok, err, ◌>>=◌, ◌>>◌, return, gets, modify, or_throw, then_run,
}
use bapc_vpn_and_digital_sec.Store.Repositories.{
  get_node, get_device, save_device, save_grant, append_event, list_active_grants,
}
use bapc_vpn_and_digital_sec.Store.Commands.{publish}
use bapc_vpn_and_digital_sec.Enforcer.{isolate_node, restore_node}
use bapc_vpn_and_digital_sec.Threat.Ports.{terminated_for}

pub record Approval : Type 0 where
  pub approved_by : String
  pub case_id : String

-- `FormatOnlyClearanceVerifier.verify`
unfoldable pub verify_format : String → String → ℕ → Result Approval
verify_format token node_id now =
    if starts_with token "diag-clearance:"
    then ok (record { approved_by = "unverified"; case_id = "unverified" })
    else err (plain "signed Diagnostics clearance required")

pub data Action : Type 0 where
  observe reauthenticate manual_review unknown_node quarantined : Action

pub record Response : Type 0 where
  pub level : ℕ
  pub action : Action

abbrev level_from : Severity → (ℕ → Bool) → ℕ
level_from emergency at_least = 3
level_from critical at_least = if at_least 90 then 3 else 2
level_from warn at_least = if at_least 90 then 3 else if at_least 70 then 2 else 1
level_from info at_least =
    if at_least 90 then 3 else if at_least 70 then 2 else if at_least 40 then 1 else 0

-- A comparison with NaN is false.
abbrev reaches : Option ℕ → ℕ → Bool
reaches none bound = false
reaches (some n) bound = leb bound n

-- the body of the loop over the zone's grants
unfoldable pub terminate_all : List JitGrant → Store → Store
terminate_all List.[] s = s
terminate_all (List.◌∷◌ g gs) s =
    terminate_all gs (save_grant (terminated_for "security incident" g) s)

abbrev pub quarantined_device : SecurityEvent → Device → Device
quarantined_device event d = record d {
  compromised = true;
  updated_at = event.at_ms;
  quarantine_reason = some event.description;
}

unfoldable pub mark_compromised : SecurityEvent → MeshNode → Store → Store
mark_compromised event n s = elim (get_device n.device_id s) [
  | none ↦ s
  | some d ↦ save_device (quarantined_device event d) s
]

unfoldable pub terminate_zone : SecurityEvent → MeshNode → Store → Store
unfolding terminate_all
terminate_zone event n s =
    terminate_all (filter (λ g. g.target_zone == n.zone) (list_active_grants event.at_ms s)) s

-- the statements from the one that reads the node
unfoldable pub quarantine : SecurityEvent → ℕ → Option MeshNode → M Response
quarantine event level none = return (record { level = level; action = unknown_node })
quarantine event level (some node) = do
  modify (mark_compromised event node)
  modify (terminate_zone event node)
  isolate_node node.id
  modify (
      publish "diagnostics.forensic_access.ready" (
        obj (
          field "nodeId" (str node.id)
            (field "deviceId" (str node.device_id) (field "level" (num level) end)))))
  return (record { level = level; action = quarantined })

-- `{nodeId:event.nodeId}`: the text of an object leaves out a field that is undefined
abbrev challenge : Option String → Json
challenge none = obj end
challenge (some id) = obj (field "nodeId" (str id) end)

unfoldable pub respond : SecurityEvent → ℕ → M Response
respond event ℕ.zero = return (record { level = 0; action = observe })
respond event (ℕ.suc ℕ.zero) = do
  modify (publish "security.challenge.required" (challenge event.node_id))
  return (record { level = 1; action = reauthenticate })
respond event level = elim event.node_id [
  | none ↦ return (record { level = level; action = manual_review })
  | some node_id ↦ λ s.
      if is_empty node_id
      then (ok (record { level = level; action = manual_review }), s)
      else quarantine event level (get_node node_id s) s
]

module _ (number_of : Json → Option ℕ) where
  -- `Number(event.metadata.score??0)`
  unfoldable pub event_score : Option Json → Option ℕ
  event_score none = some 0
  event_score (some null) = some 0
  event_score (some (num n)) = some n
  event_score (some v) = number_of v

  unfoldable pub score : SecurityEvent → ℕ
  unfolding event_score
  score event = level_from event.severity (reaches (event_score (get_field "score" event.metadata)))

  unfoldable pub handle : SecurityEvent → M Response
  unfolding score respond quarantine
  handle event = do modify (append_event event); respond event (score event)

abbrev pub cleared_device : ℕ → Device → Device
cleared_device now d = record d { compromised = false; updated_at = now; quarantine_reason = none }

unfoldable pub clear_device : MeshNode → Store → Store
clear_device n s = elim (get_device n.device_id s) [
  | none ↦ s
  | some d ↦ save_device (cleared_device s.now d) s
]

abbrev pub checked {ℓ} : {A : Type ℓ} → Result A → Store → Result A × Store
checked r s = (r, s)

module _ (verify_clearance : String → String → ℕ → Result Approval) where
  unfoldable pub restore : String → String → M (Unit {0})
  unfolding clear_device
  restore node_id token = do
    now ← gets (λ s. s.now)
    approved ← checked (verify_clearance token node_id now)
    found ← gets (get_node node_id)
    node ← or_throw found (plain "node not found")
    modify (clear_device node)
    restore_node node_id
    modify (
        publish "security.node.restored" (
          obj (
            field "nodeId" (str node_id) (
              field "approvedBy" (str approved.approved_by)
                (field "caseId" (str approved.case_id) end)))))
