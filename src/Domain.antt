-- ===== src/Domain.antt =====
-- The records of src/domain/types.ts, the errors of src/domain/errors.ts, and the constants that the
-- services share. Times are milliseconds since the epoch; an optional field is an `Option`. Unions of
-- string literals whose values the code receives as text (zones, protocols, roles) stay texts.
use bapc_vpn_and_digital_sec.Base.{ℕ, String, Bool, not, ◌&&◌, List, Option}
use bapc_vpn_and_digital_sec.Json.{Json}

pub data Severity : Type 0 where
  info warn critical emergency : Severity

pub data NodeType : Type 0 where
  client server relay egress : NodeType

pub data PolicyAction : Type 0 where
  allow deny isolate : PolicyAction

pub record Posture : Type 0 where
  pub os_current : Bool
  pub disk_encrypted : Bool
  pub secure_boot : Bool
  pub firewall_enabled : Bool
  pub agent_healthy : Bool
  pub banned_process_found : Bool
  pub assessed_at : ℕ

pub record Device : Type 0 where
  pub id : String
  pub hostname : String
  pub hardware_id : String
  pub platform : String
  pub os_version : String
  pub public_attestation_key : Option String
  pub compromised : Bool
  pub revoked : Bool
  pub posture : Posture
  pub created_at : ℕ
  pub updated_at : ℕ
  pub last_posture_at : Option ℕ
  pub agent_version : Option String
  pub quarantine_reason : Option String

pub record MeshNode : Type 0 where
  pub id : String
  pub device_id : String
  pub wire_guard_public_key : String
  pub internal_ipv4 : String
  pub internal_ipv6 : String
  pub listen_port : ℕ
  pub node_type : NodeType
  pub zone : String
  pub region : Option String
  pub active : Bool
  pub last_handshake : Option ℕ

pub record IdentityContext : Type 0 where
  pub user_id : String
  pub roles : List String
  pub mfa : Bool
  pub source_ip : String

pub record ResourceContext : Type 0 where
  pub resource : String
  pub zone : String
  pub protocol : String
  pub port : Option ℕ

pub record NetworkPolicy : Type 0 where
  pub id : String
  pub name : String
  pub source_zones : List String
  pub destination_zones : List String
  pub protocols : List String
  pub destination_ports : List ℕ
  pub action : PolicyAction
  pub required_roles : List String
  pub requires_jit : Bool
  pub priority : ℕ
  pub version : ℕ
  pub active : Bool

pub record AccessDecision : Type 0 where
  pub allowed : Bool
  pub action : PolicyAction
  pub reason : String
  pub policy_id : Option String
  pub decision_id : String
  pub expires_at : ℕ

pub record JitGrant : Type 0 where
  pub id : String
  pub user_id : String
  pub target_resource : String
  pub target_zone : String
  pub justification : String
  pub approved_by : Option String
  pub granted_at : ℕ
  pub expires_at : ℕ
  pub terminated : Bool
  pub termination_reason : Option String

pub record SecurityEvent : Type 0 where
  pub id : String
  pub node_id : Option String
  pub at_ms : ℕ
  pub severity : Severity
  pub engine : String
  pub type : String
  pub description : String
  pub metadata : Json

pub record AuditRecord : Type 0 where
  pub sequence : ℕ
  pub at_ms : ℕ
  pub actor : String
  pub action : String
  pub subject : String
  pub payload : Json
  pub previous_hash : String
  pub hash : String

-- `DomainError` by its code, a plain `Error`, and an error of the database by its SQLSTATE.
pub data Error : Type 0 where
  not_found conflict forbidden validation plain : String → Error
  database : String → Error

abbrev pub unassigned_region : String
unassigned_region = "unassigned"

abbrev pub admin_zone : String
admin_zone = "ZONE_ADMIN_MGMT"

abbrev pub forensic_zone : String
forensic_zone = "ZONE_FORENSIC_ISOLATION"

-- What `postureOk` and `HeartbeatService.accept` ask of a posture.
abbrev pub is_compliant : Posture → Bool
is_compliant p =
    p.os_current
    && p.disk_encrypted
    && p.secure_boot
    && p.firewall_enabled
    && p.agent_healthy
    && not p.banned_process_found

abbrev pub severity_name : Severity → String
severity_name info = "INFO"
severity_name warn = "WARN"
severity_name critical = "CRITICAL"
severity_name emergency = "EMERGENCY"

abbrev pub action_name : PolicyAction → String
action_name allow = "ALLOW"
action_name deny = "DENY"
action_name isolate = "ISOLATE"
