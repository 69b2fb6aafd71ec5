-- ===== src/Api/Policies.antt =====
-- The routes on policies, grants and decisions of src/runtime/production-server.ts. A zone or protocol of a
-- request is passed on as it is; the model reads it as a text.
use bapc_vpn_and_digital_sec.Base.{
  ℕ, String, Bool, not, ◌&&◌, Option, none, some, List, [], ◌∷◌, if◌then◌else◌, number_eq,
  string_eq, length,
}
use bapc_vpn_and_digital_sec.Json.{Json, null, bool, num, str, arr, obj, end, field, get_field}
use bapc_vpn_and_digital_sec.Domain.{
  NetworkPolicy, PolicyAction, deny, action_name, IdentityContext, ResourceContext, AccessDecision,
  Device, JitGrant, SecurityEvent, plain,
}
use bapc_vpn_and_digital_sec.Store.{RolloutNode}
use bapc_vpn_and_digital_sec.Store.Monad.{ok, err, modify, M}
use bapc_vpn_and_digital_sec.Store.Repositories.{
  Entity, device, get, save_policy, list_active_policies, recent_events,
}
use bapc_vpn_and_digital_sec.Store.Rollouts.{summary}
use bapc_vpn_and_digital_sec.Policy.{decide}
use bapc_vpn_and_digital_sec.Policy.Compiler.{PolicyIrRule}
use bapc_vpn_and_digital_sec.Jit as Jit
use bapc_vpn_and_digital_sec.Audit.{verify}
use bapc_vpn_and_digital_sec.SafeApply as SafeApply
use bapc_vpn_and_digital_sec.SafeApply.{Threshold, Schedule, Reason}
use bapc_vpn_and_digital_sec.Rest.Replay.{HttpError}
use bapc_vpn_and_digital_sec.Rest.Http.{http, http_error}
use bapc_vpn_and_digital_sec.Rest.Router.{Caller, Outcome, throws}
use bapc_vpn_and_digital_sec.Api.{
  World, H, then_call, ◌>>=◌, ◌>>◌, return, reads, call, of_store, Coercions, text_or, text_of,
  number, number_or, is_truthy, is_not_false, found_node, audited,
}

abbrev names_or : Coercions → List String → Option Json → List String
names_or js otherwise none = otherwise
names_or js otherwise (some null) = otherwise
names_or js otherwise (some v) = js.as_names v

abbrev ports_or_none : Coercions → Option Json → List ℕ
ports_or_none js none = []
ports_or_none js (some null) = []
ports_or_none js (some v) = js.as_ports v

abbrev action_or_deny : Coercions → Option Json → PolicyAction
action_or_deny js none = deny
action_or_deny js (some null) = deny
action_or_deny js (some v) = js.as_action v

abbrev role_items : Coercions → Option Json → List String
role_items js (some (arr vs)) = js.as_names (arr vs)
role_items js v = []

abbrev as_device : Option Entity → Option Device
as_device (some (device d)) = some d
as_device e = none

abbrev pub found_device : String → World → Option Device
found_device id w = as_device (get id w.store)

abbrev pub or_fail : {A : Type 0} → Option A → String → M A
or_fail none message s = (err (plain message), s)
or_fail (some a) message s = (ok a, s)

-- `body.resource?.key`
abbrev resource_field : String → Json → Option Json
resource_field key body = elim (get_field "resource" body) [
  | none ↦ none
  | some r ↦ get_field key r
]

abbrev port_of : Coercions → Option Json → Option ℕ
port_of js none = none
port_of js (some v) = if is_truthy (some v) then some (number js v) else none

unfoldable pub network_policy : Coercions → String → Json → NetworkPolicy
network_policy js id body = record {
  id = id;
  name = text_or js id (get_field "name" body);
  source_zones = names_or js [] (get_field "sourceZones" body);
  destination_zones = names_or js [] (get_field "destinationZones" body);
  protocols = names_or js ("ANY" ∷ []) (get_field "protocols" body);
  destination_ports = ports_or_none js (get_field "destinationPorts" body);
  action = action_or_deny js (get_field "action" body);
  required_roles = names_or js [] (get_field "requiredRoles" body);
  requires_jit = is_truthy (get_field "requiresJit" body);
  priority = number_or js 0 (get_field "priority" body);
  version = number_or js 1 (get_field "version" body);
  active = is_not_false (get_field "active" body);
}

unfoldable pub identity_context : Coercions → Json → IdentityContext
identity_context js body = record {
  user_id = text_or js "" (get_field "userId" body);
  roles = role_items js (get_field "roles" body);
  mfa = is_truthy (get_field "mfa" body);
  source_ip = text_or js "" (get_field "sourceIp" body);
}

unfoldable pub resource_context : Coercions → Json → ResourceContext
resource_context js body = record {
  resource = text_or js "" (resource_field "resource" body);
  zone = text_or js "" (resource_field "zone" body);
  protocol = text_or js "ANY" (resource_field "protocol" body);
  port = port_of js (resource_field "port" body);
}

abbrev pub oob_unavailable : HttpError
oob_unavailable =
    http_error 503
      "OOB recovery channel is unreachable — refusing to apply a policy change with no independent recovery path (set OOB_REQUIRED=false to override)"
      "oob_unavailable"

abbrev status_of : SafeApply.Outcome → String
status_of SafeApply.committed = "COMMITTED"
status_of (SafeApply.rolled_back _) = "ROLLED_BACK"

unfoldable pub rollout : String → H (List RolloutNode)
rollout commit_id = reads (λ w. summary commit_id w.store)

unfoldable pub events : Option String → (String → ℕ) → H (List SecurityEvent)
events limit number_of_text =
    reads (λ w. recent_events (elim limit [ none ↦ 100 | some l ↦ number_of_text l ]) w.store)

module _ (js : Coercions) (iso : ℕ → String) (digest : Json → String) where
  unfoldable pub put_policy : Caller → String → Json → H NetworkPolicy
  unfolding network_policy
  put_policy claims id body = do
    let policy = network_policy js id body
    call (modify (save_policy policy))
    audited iso digest claims.sub "POLICY_UPDATED" policy.id (
        obj (
          field "name" (str policy.name) (
            field "action" (str (action_name policy.action))
              (field "active" (bool policy.active) end))))
    return policy

  abbrev applied_payload : String → SafeApply.Outcome → ℕ → Json
  applied_payload commit_id outcome count = obj (
      field "commitId" (str commit_id)
        (field "status" (str (status_of outcome)) (field "policyCount" (num count) end)))

  -- the record of a rollout that ended
  unfoldable pub record_applied : String → String → ℕ → SafeApply.Outcome → H SafeApply.Outcome
  record_applied actor commit_id count outcome =
      audited iso digest actor "POLICY_APPLIED" "network-policies"
        (applied_payload commit_id outcome count)
      >> return outcome

  module _ (reason_text : Reason → String) (checksum : List PolicyIrRule → String) (t : Threshold)
      (plan : Schedule) where
    -- `none` is a rollout that needs more rounds than the fuel; `healthy` is what the channel answers
    unfoldable pub apply_policies :
        ℕ → Bool → Bool → ℕ → Caller → Json → World → Option (Outcome SafeApply.Outcome × World)
    unfolding record_applied
    apply_policies fuel oob_required healthy default_timeout claims body w =
        if oob_required && not healthy
        then some (throws (http oob_unavailable), w)
        else elim (SafeApply.apply reason_text iso checksum t plan fuel
            (list_active_policies w.store)
            (number_or js default_timeout (get_field "timeoutMs" body)) (some claims.sub) w.store) [
              | none ↦ none
              | some result ↦ some (
                  then_call (of_store w result) (
                    record_applied claims.sub (w.store.uuid w.store.issued)
                      (length (list_active_policies w.store))))
            ]

  unfoldable pub audit_verify : H Json
  audit_verify = reads (λ w. obj (field "valid" (bool (verify iso digest w.store)) end))

  -- The number of minutes goes to the service as it is. A body without one, for which the code computes
  -- with NaN, is not modelled.
  unfoldable pub request_jit : Caller → Json → H JitGrant
  request_jit claims body = call (
      Jit.request claims.sub (text_or js "" (get_field "targetResource" body))
        (text_or js "" (get_field "targetZone" body))
        (number_or js 0 (get_field "durationMinutes" body))
        (text_or js "" (get_field "justification" body)))

  unfoldable pub approve_jit : Caller → String → H JitGrant
  approve_jit claims id = do
    result ← call (Jit.approve id claims.sub claims.roles)
    audited iso digest claims.sub "JIT_APPROVED" id (obj end)
    return result

  unfoldable pub terminate_jit : Caller → String → Json → H JitGrant
  terminate_jit claims id body = do
    let reason = text_or js "terminated by security operator" (get_field "reason" body)
    result ← call (Jit.terminate id reason)
    audited iso digest claims.sub "JIT_TERMINATED" id (obj (field "reason" (str reason) end))
    return result

  unfoldable pub decide_access : (AccessDecision → String) → ℕ → Json → H (AccessDecision × String)
  unfolding identity_context resource_context
  decide_access sign refresh_ms body = do
    found ← reads (found_device (text_of js (get_field "deviceId" body)))
    d ← call (or_fail found "device not found")
    found_n ← reads (found_node (text_of js (get_field "nodeId" body)))
    n ← call (or_fail found_n "node not found")
    call (decide sign refresh_ms (identity_context js body) d n (resource_context js body))
