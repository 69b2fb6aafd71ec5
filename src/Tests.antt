-- ===== src/Tests.antt =====
-- Concrete rows and a store, at which the children run the program and apply the theorems.
mod Access
mod Rollout
mod Rest
mod Mesh
mod Fleet
mod Api
mod Interface
mod Agent
mod Soc
mod Native
mod Maintenance
mod Clearance
mod Grpc
use bapc_vpn_and_digital_sec.Base.{
  String, ℕ, Bool, true, false, List, [], ◌∷◌, Option, none, some, ◌<+>◌,
}
use bapc_vpn_and_digital_sec.Domain.{Posture, Device, MeshNode, server, JitGrant}
use bapc_vpn_and_digital_sec.Store.{Store}

abbrev pub good_posture : Posture
good_posture = record {
  os_current = true;
  disk_encrypted = true;
  secure_boot = true;
  firewall_enabled = true;
  agent_healthy = true;
  banned_process_found = false;
  assessed_at = 1;
}

abbrev pub laptop : Device
laptop = record {
  id = "d1";
  hostname = "laptop";
  hardware_id = "hw1";
  platform = "linux";
  os_version = "6.1";
  public_attestation_key = none;
  compromised = false;
  revoked = false;
  posture = good_posture;
  created_at = 1;
  updated_at = 1;
  last_posture_at = none;
  agent_version = none;
  quarantine_reason = none;
}

abbrev pub node_in : String → String → MeshNode
node_in id zone = record {
  id = id;
  device_id = "d1";
  wire_guard_public_key = "key-" <+> id;
  internal_ipv4 = "10.144.10.3";
  internal_ipv6 = "fd14:4b41:5043::2";
  listen_port = 51820;
  node_type = server;
  zone = zone;
  region = none;
  active = true;
  last_handshake = none;
}

abbrev pub n1 : MeshNode
n1 = node_in "n1" "ZONE_DEV"

abbrev pub old_grant : JitGrant
old_grant = record {
  id = "g1";
  user_id = "u1";
  target_resource = "db";
  target_zone = "ZONE_PROD_DATA";
  justification = "rotate the keys";
  approved_by = none;
  granted_at = 1;
  expires_at = 900001;
  terminated = false;
  termination_reason = none;
}

abbrev pub name_of : ℕ → String
name_of ℕ.zero = "id-0"
name_of (ℕ.suc ℕ.zero) = "id-1"
name_of (ℕ.suc (ℕ.suc i)) = "id-2"

abbrev pub empty_store : Store
empty_store = record {
  now = 1000;
  uuid = name_of;
  issued = 0;
  devices = [];
  nodes = [];
  policies = [];
  grants = [];
  events = [];
  audits = [];
  audit_identity = 1;
  commands = [];
  acks = [];
  outbox = [];
  commits = [];
  rollouts = [];
  certificates = [];
  incidents = [];
  rotations = [];
  desired = [];
  relays = [];
}

-- one device with one node
abbrev pub one_node : Store
one_node = record empty_store { devices = laptop ∷ []; nodes = n1 ∷ [] }
