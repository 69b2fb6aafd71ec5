-- ===== src/Policy.antt =====
-- src/application/policy.ts, `PolicyDecisionService`: the access decision. The signer of a decision is
-- a parameter; the wait for `authorizationRefreshMs` is an argument.
pub mod Laws
pub mod Compiler
use bapc_vpn_and_digital_sec.Base.{
  ℕ, ◌+◌, String, Bool, true, false, not, ◌&&◌, ◌||◌, List, [], ◌∷◌, Option, none, some, ◌==◌,
  string_eq, number_eq, if◌then◌else◌, ltb, any, all, contains, sort, is_empty, eq_ℕ, ◌<+>◌,
}
use bapc_vpn_and_digital_sec.Domain.{
  Device, MeshNode, NetworkPolicy, IdentityContext, ResourceContext, AccessDecision, JitGrant,
  PolicyAction, allow, deny, isolate, is_compliant,
}
use bapc_vpn_and_digital_sec.Store.{Store}
use bapc_vpn_and_digital_sec.Store.Monad.{M, ok}
use bapc_vpn_and_digital_sec.Store.Repositories.{list_active_policies, list_active_grants}

unfoldable pub posture_ok : Device → Bool
posture_ok d = not d.revoked && not d.compromised && is_compliant d.posture

-- `!r.port || p.destinationPorts.length===0 || p.destinationPorts.includes(r.port)`
abbrev port_matches : List ℕ → Option ℕ → Bool
port_matches ports none = true
port_matches [] (some port) = true
port_matches ports (some port) = eq_ℕ port 0 || contains ports port

unfoldable pub matches : NetworkPolicy → MeshNode → ResourceContext → List String → Bool
matches p n r roles =
    contains p.source_zones n.zone
    && contains p.destination_zones r.zone
    && (contains p.protocols "ANY" || contains p.protocols r.protocol)
    && port_matches p.destination_ports r.port
    && all (contains roles) p.required_roles

abbrev pub grants_access : String → ResourceContext → ℕ → JitGrant → Bool
grants_access user_id r now g =
    g.user_id == user_id
    && g.target_zone == r.zone
    && g.target_resource == r.resource
    && not g.terminated
    && ltb now g.expires_at

unfoldable pub has_jit : String → ResourceContext → Store → Bool
has_jit user_id r s = any (grants_access user_id r s.now) (list_active_grants s.now s)

-- the three variables that `decide` assigns
pub record Verdict : Type 0 where
  pub action : PolicyAction
  pub reason : String
  pub policy_id : Option String

abbrev pub default_deny : Verdict
default_deny = record { action = deny; reason = "default deny"; policy_id = none }

abbrev pub refuse : String → Verdict
refuse reason = record { action = deny; reason = reason; policy_id = none }

-- a policy that matches ends the loop
unfoldable pub apply_policy : String → ResourceContext → Store → NetworkPolicy → Verdict
apply_policy user_id resource s p =
    if p.requires_jit && not (has_jit user_id resource s)
    then record { action = deny; reason = "active JIT grant required"; policy_id = some p.id }
    else record { action = p.action; reason = "policy " <+> p.name; policy_id = some p.id }

-- the loop of `decide` over the sorted policies
unfoldable pub first_match :
    IdentityContext → MeshNode → ResourceContext → Store → List NetworkPolicy → Verdict
first_match identity node resource s [] = default_deny
first_match identity node resource s (p ∷ ps) =
    if matches p node resource identity.roles
    then apply_policy identity.user_id resource s p
    else first_match identity node resource s ps

unfoldable pub judge : IdentityContext → Device → MeshNode → ResourceContext → Store → Verdict
judge identity device node resource s =
    if not identity.mfa
    then refuse "MFA required"
    else if not (posture_ok device) || not node.active
    then refuse "device is not trusted"
    else first_match identity node resource s
        (sort (λ a b. ltb b.priority a.priority) (list_active_policies s))

abbrev pub is_allow : PolicyAction → Bool
is_allow allow = true
is_allow _ = false

-- `policyId?{policyId}:{}`
abbrev truthy : Option String → Option String
truthy none = none
truthy (some id) = if is_empty id then none else some id

module _ (sign : AccessDecision → String) (refresh_ms : ℕ) where
  unfoldable pub decide :
      IdentityContext → Device → MeshNode → ResourceContext → M (AccessDecision × String)
  decide identity device node resource s =
      let v = judge identity device node resource s in
      let d : AccessDecision = record {
        allowed = is_allow v.action;
        action = v.action;
        reason = v.reason;
        policy_id = truthy v.policy_id;
        decision_id = s.uuid s.issued;
        expires_at = s.now + refresh_ms;
      } in
      (ok (d, sign d), record s { issued = s.issued + 1 })
