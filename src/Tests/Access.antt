-- ===== src/Tests/Access.antt =====
-- Decisions, enrollment and the response to an event, at concrete inputs.
use bapc_vpn_and_digital_sec.Base.{
  ℕ, String, ◌≡◌, refl, Bool, true, some, List, [], ◌∷◌, number_eq, string_eq,
}
use bapc_vpn_and_digital_sec.Json.{Json, obj, end}
use bapc_vpn_and_digital_sec.Domain.{
  NetworkPolicy, IdentityContext, ResourceContext, AccessDecision, SecurityEvent, critical, allow,
}
use bapc_vpn_and_digital_sec.Store.{Store}
use bapc_vpn_and_digital_sec.Store.Monad.{ok}
use bapc_vpn_and_digital_sec.Store.Repositories.{
  list_active_policies, list_active_grants, get_node, get_device, find_by_hardware_id,
  find_by_public_key,
}
use bapc_vpn_and_digital_sec.Store.Commands.{has_pending}
use bapc_vpn_and_digital_sec.Policy.{
  decide, judge, first_match, apply_policy, posture_ok, matches, has_jit,
}
use bapc_vpn_and_digital_sec.Policy.Laws.{decide-IsGranted, IsGranted}
use bapc_vpn_and_digital_sec.Enrollment.{EnrollmentRequest, Enrolled, register}
use bapc_vpn_and_digital_sec.Enrollment.Laws.{register_lem}
use bapc_vpn_and_digital_sec.Response.{quarantined, quarantine}
use bapc_vpn_and_digital_sec.Response.Laws.{compromised_device, quarantine_lem}
use bapc_vpn_and_digital_sec.Tests.{laptop, n1, old_grant, one_node}

abbrev alice : IdentityContext
alice = record { user_id = "u1"; roles = "dev" ∷ []; mfa = true; source_ip = "10.0.0.1" }

abbrev database_port : ResourceContext
database_port = record {
  resource = "db";
  zone = "ZONE_PROD_DATA";
  protocol = "TCP";
  port = some 5432;
}

abbrev with_grant : NetworkPolicy
with_grant = record {
  id = "p1";
  name = "data";
  source_zones = "ZONE_DEV" ∷ [];
  destination_zones = "ZONE_PROD_DATA" ∷ [];
  protocols = "TCP" ∷ [];
  destination_ports = 5432 ∷ [];
  action = allow;
  required_roles = "dev" ∷ [];
  requires_jit = true;
  priority = 10;
  version = 1;
  active = true;
}

abbrev granted_store : Store
granted_store = record one_node { policies = with_grant ∷ []; grants = old_grant ∷ [] }

abbrev allowed_decision : AccessDecision
allowed_decision = record {
  allowed = true;
  action = allow;
  reason = "policy data";
  policy_id = some "p1";
  decision_id = "id-0";
  expires_at = 31000;
}

abbrev sign_none : AccessDecision → String
sign_none d = "signature"

decide-IsGranted_example : IsGranted alice laptop n1 database_port granted_store
unfolding decide judge first_match apply_policy posture_ok matches has_jit list_active_policies
    list_active_grants
decide-IsGranted_example =
    decide-IsGranted sign_none 30000 alice laptop n1 database_port granted_store
      (record granted_store { issued = 1 }) allowed_decision "signature" refl refl

abbrev newcomer : EnrollmentRequest
newcomer = record {
  hostname = "laptop";
  hardware_id = "hw1";
  platform = "linux";
  os_version = "6.1";
  attestation_quote = [];
  attestation_public_key = "pem";
  wire_guard_public_key = "key";
  internal_ipv4 = "10.144.10.4";
  internal_ipv6 = "fd14:4b41:5043::3";
  zone = "ZONE_DEV";
}

abbrev forge_none : String → String → String → ℕ → ℕ → String
forge_none a b c d e = "pem"

abbrev hash_none : Json → String
hash_none v = "hash"

abbrev attest_all : String → List ℕ → String → Bool
attest_all hardware quote key = true

register_example :
    ((register forge_none "issuer" hash_none attest_all 60 newcomer one_node).1 ≡ one_node)
    × ((x : Enrolled)
        → (register forge_none "issuer" hash_none attest_all 60 newcomer one_node).0 ≡ ok x
        → ⊥)
unfolding find_by_hardware_id find_by_public_key
register_example =
    (register_lem forge_none "issuer" hash_none attest_all 60 newcomer one_node).1 refl

abbrev alarm : SecurityEvent
alarm = record {
  id = "e1";
  node_id = some "n1";
  at_ms = 900;
  severity = critical;
  engine = "edr";
  type = "MALWARE";
  description = "malware";
  metadata = obj end;
}

quarantine_example :
    ((quarantine alarm 2 (some n1) granted_store).0
      ≡ ok (record { level = 2; action = quarantined }))
    × (get_device "d1" (quarantine alarm 2 (some n1) granted_store).1
        ≡ some (compromised_device alarm granted_store.now laptop))
    × (has_pending "n1" "QUARANTINE" (quarantine alarm 2 (some n1) granted_store).1 ≡ true)
unfolding get_node get_device
quarantine_example = quarantine_lem alarm 2 n1 laptop granted_store refl refl
