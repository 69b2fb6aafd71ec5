-- ===== src/Store.antt =====
-- The state that the services of the control plane share: the tables of its database
-- (db/001 to db/019), as lists of rows in the order of insertion, the clock reading of the call that
-- runs and the supply of random identifiers. A statement of SQL is the operation on lists that it
-- names; a foreign key that the code relies on is a check that fails with SQLSTATE 23503.
pub mod Monad
pub mod Repositories
pub mod Commands
pub mod Rollouts
pub mod Desired
pub mod Outbox
pub mod Certificates
pub mod MemoryRollouts
use bapc_vpn_and_digital_sec.Base.{
  ℕ, suc, String, Bool, true, false, List, Option, none, some, ◌++◌, [], ◌∷◌,
}
use bapc_vpn_and_digital_sec.Json.{Json}
use bapc_vpn_and_digital_sec.Domain.{
  Device, MeshNode, NetworkPolicy, JitGrant, SecurityEvent, AuditRecord, Severity,
}

-- controller_commands
pub record Command : Type 0 where
  pub id : String
  pub node_id : String
  pub type : String
  pub payload : Json
  pub priority : ℕ
  pub issued_at : ℕ
  pub not_before : ℕ
  pub expires_at : ℕ
  pub acknowledged_at : Option ℕ
  pub result : Option Json

-- command_acknowledgements
pub record Acknowledgement : Type 0 where
  pub command_id : String
  pub node_id : String
  pub command_type : String
  pub issued_at : ℕ
  pub acknowledged_at : ℕ
  pub status : String
  pub details : Json

-- event_outbox
pub record Message : Type 0 where
  pub topic : String
  pub payload : Json
  pub published_at : Option ℕ
  pub attempt_count : ℕ
  pub last_error : Option String

pub data CommitStatus : Type 0 where
  staged committed rolled_back : CommitStatus

-- policy_commits
pub record PolicyCommit : Type 0 where
  pub id : String
  pub policies : List NetworkPolicy
  pub status : CommitStatus
  pub initiated_by : String
  pub finalized_at : Option ℕ

pub data RolloutStatus : Type 0 where
  pending succeeded failed timed_out rolled_back : RolloutStatus

-- policy_rollout_nodes
pub record RolloutNode : Type 0 where
  pub commit_id : String
  pub node_id : String
  pub status : RolloutStatus
  pub acknowledged_at : Option ℕ
  pub details : Json

-- certificates
pub record Certificate : Type 0 where
  pub id : String
  pub node_id : String
  pub issuer_id : String
  pub serial : String
  pub subject : String
  pub issued_at : ℕ
  pub expires_at : ℕ
  pub revoked : Bool
  pub revocation_reason : Option String
  pub revoked_at : Option ℕ

-- incidents
pub record Incident : Type 0 where
  pub id : String
  pub title : String
  pub severity : Severity
  pub is_open : Bool
  pub closed_at : Option ℕ
  pub primary_node_id : Option String
  pub unresolved_node_id : Option String
  pub score : ℕ
  pub signal_count : ℕ

-- key_rotations
pub record KeyRotation : Type 0 where
  pub node_id : String
  pub epoch : ℕ
  pub new_public_key : String
  pub rotated_at : ℕ

pub record Route : Type 0 where
  pub destination : String
  pub gateway : Option String
  pub interface_name : String
  pub metric : ℕ

-- node_desired_state
pub record DesiredState : Type 0 where
  pub node_id : String
  pub revision : ℕ
  pub routes : List Route
  pub dns_servers : List String
  pub kill_switch_enabled : Bool
  pub integrity_files : List (String × String)
  pub updated_at : ℕ

-- relays
pub record Relay : Type 0 where
  pub id : String
  pub region : String
  pub endpoint : String
  pub is_available : Bool
  pub last_heartbeat : Option ℕ
  pub instance_id : Option String
  pub capacity_mbps : ℕ
  pub load_percent : ℕ
  pub latency_ms : ℕ
  pub active_sessions : ℕ
  pub throughput_bytes_per_sec : ℕ

pub record Store : Type 0 where
  pub now : ℕ
  pub uuid : ℕ → String
  pub issued : ℕ
  pub devices : List Device
  pub nodes : List MeshNode
  pub policies : List NetworkPolicy
  pub grants : List JitGrant
  pub events : List SecurityEvent
  pub audits : List AuditRecord
  pub audit_identity : ℕ
  pub commands : List Command
  pub acks : List Acknowledgement
  pub outbox : List Message
  pub commits : List PolicyCommit
  pub rollouts : List RolloutNode
  pub certificates : List Certificate
  pub incidents : List Incident
  pub rotations : List KeyRotation
  pub desired : List DesiredState
  pub relays : List Relay
