-- ===== src/Enrollment.antt =====
-- src/application/enrollment.ts, `EnrollmentService.register`. The verifier of attestations, the
-- issuer's certificate text and the hash of a topology are parameters; a certificate is recorded as
-- services/trust-core/issuer.ts (`TrustCoreIssuer.issueNode`, `revoke`) and
-- services/trust-core/pg-certificate-store.ts (`save`) do it.
pub mod Laws
use bapc_vpn_and_digital_sec.Base.{
  ℕ, ◌+◌, ◌*◌, String, Bool, true, false, not, ◌&&◌, ◌||◌, List, [], ◌∷◌, ◌++◌, Option, none, some,
  ◌==◌, string_eq, if◌then◌else◌, ltb, filter, is_empty, is_some, trimmed_length, ◌<+>◌,
}
use bapc_vpn_and_digital_sec.Json.{Json}
use bapc_vpn_and_digital_sec.Domain.{
  Device, MeshNode, Posture, NodeType, server, validation, conflict, plain, database,
}
use bapc_vpn_and_digital_sec.Store.{Store, Certificate}
use bapc_vpn_and_digital_sec.Store.Monad.{
  M, Result, ok, err, ◌>>=◌, ◌>>◌, return, gets, modify, throw_if, fresh_id, then_run,
}
use bapc_vpn_and_digital_sec.Store.Repositories.{
  find_by_hardware_id, find_by_public_key, save_device, save_node, list_nodes, get_node,
}
use bapc_vpn_and_digital_sec.Mesh.Topology.{distribute}
use bapc_vpn_and_digital_sec.Threat.Ports.{revoke_certificate}

pub record EnrollmentRequest : Type 0 where
  pub hostname : String
  pub hardware_id : String
  pub platform : String
  pub os_version : String
  pub attestation_quote : List ℕ
  pub attestation_public_key : String
  pub wire_guard_public_key : String
  pub internal_ipv4 : String
  pub internal_ipv6 : String
  pub zone : String

abbrev pub initial_posture : ℕ → Posture
initial_posture now = record {
  os_current = true;
  disk_encrypted = true;
  secure_boot = true;
  firewall_enabled = true;
  agent_healthy = true;
  banned_process_found = false;
  assessed_at = now;
}

unfoldable pub new_device : EnrollmentRequest → String → ℕ → Device
new_device r id now = record {
  id = id;
  hostname = r.hostname;
  hardware_id = r.hardware_id;
  platform = r.platform;
  os_version = r.os_version;
  public_attestation_key = some r.attestation_public_key;
  compromised = false;
  revoked = false;
  posture = initial_posture now;
  created_at = now;
  updated_at = now;
  last_posture_at = none;
  agent_version = none;
  quarantine_reason = none;
}

unfoldable pub new_node : EnrollmentRequest → String → String → MeshNode
new_node r id device_id = record {
  id = id;
  device_id = device_id;
  wire_guard_public_key = r.wire_guard_public_key;
  internal_ipv4 = r.internal_ipv4;
  internal_ipv6 = r.internal_ipv6;
  listen_port = 51820;
  node_type = server;
  zone = r.zone;
  region = none;
  active = true;
  last_handshake = none;
}

pub record IssuedCertificate : Type 0 where
  pub serial : String
  pub certificate_pem : String
  pub expires_at : ℕ

pub record Enrolled : Type 0 where
  pub device : Device
  pub node : MeshNode
  pub certificate : IssuedCertificate
  pub peers : List MeshNode

-- `records.save`: a certificate refers to a row of mesh_nodes
unfoldable pub save_certificate : Certificate → M (Unit {0})
save_certificate c s = elim (get_node c.node_id s) [
  | none ↦ (err (database "23503"), s)
  | some _ ↦ (ok tt, record s { certificates = s.certificates ++ c ∷ [] })
]

-- `TrustCoreIssuer.revoke`
unfoldable pub revoke_serial : String → String → M (Unit {0})
revoke_serial serial reason = do
  throw_if (ltb (trimmed_length reason) 5) (plain "revocation reason required")
  modify (revoke_certificate serial reason)

-- `forge serial node_id key now expires_at` is the PEM text that the X.509 builder and the key
-- provider return; `issuer_id` names the issuer.
module _ (forge : String → String → String → ℕ → ℕ → String) (issuer_id : String) where
  unfoldable pub issue_node : String → String → ℕ → M IssuedCertificate
  issue_node node_id public_key ttl_minutes = do
    throw_if (ltb ttl_minutes 5 || ltb 1440 ttl_minutes)
        (plain "certificate TTL outside allowed range")
    now ← gets (λ s. s.now)
    serial ← fresh_id
    id ← fresh_id
    let expires_at = now + ttl_minutes * 60000
    save_certificate (record {
      id = id;
      node_id = node_id;
      issuer_id = issuer_id;
      serial = serial;
      subject = "CN=node:" <+> node_id <+> ",OU=BAPC VPN Digital Security";
      issued_at = now;
      expires_at = expires_at;
      revoked = false;
      revocation_reason = none;
      revoked_at = none;
    })
    return (record {
      serial = serial;
      certificate_pem = forge serial node_id public_key now expires_at;
      expires_at = expires_at;
    })

  module _ (hash : Json → String) (attest : String → List ℕ → String → Bool) (ttl : ℕ) where
    -- the statements before the identifiers are drawn: they write nothing
    unfoldable pub admit : EnrollmentRequest → M (Unit {0})
    admit r = do
      throw_if (is_empty r.wire_guard_public_key || is_empty r.hardware_id)
          (validation "hardware and public keys are required")
      throw_if (is_empty r.attestation_public_key)
          (validation "a verified certificate public key (attestationPublicKey) is required")
      by_hardware ← gets (find_by_hardware_id r.hardware_id)
      throw_if (is_some by_hardware) (conflict "hardware already enrolled")
      by_key ← gets (find_by_public_key r.wire_guard_public_key)
      throw_if (is_some by_key) (conflict "WireGuard public key already enrolled")
      throw_if (not (attest r.hardware_id r.attestation_quote r.attestation_public_key))
          (validation "hardware attestation failed")

    unfoldable pub create : EnrollmentRequest → M Enrolled
    create r = do
      now ← gets (λ s. s.now)
      device_id ← fresh_id
      node_id ← fresh_id
      let device = new_device r device_id now
      let node = new_node r node_id device_id
      modify (save_device device)
      modify (save_node node)
      certificate ← issue_node node_id r.attestation_public_key ttl
      nodes ← gets list_nodes
      let peers = filter (λ n. n.active && not (n.id == node_id)) nodes
      distribute hash node peers
      return (record { device = device; node = node; certificate = certificate; peers = peers })

    unfoldable pub register : EnrollmentRequest → M Enrolled
    unfolding admit create
    register r = do admit r; create r
