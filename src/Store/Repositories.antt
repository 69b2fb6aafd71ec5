-- ===== src/Store/Repositories.antt =====
-- src/infrastructure/postgres/repositories.ts: the queries of `PgRepositories` by the port that they
-- serve (src/ports/repositories.ts). `get_device` and its siblings read the one table of their port;
-- `get` is the shared method that tries the four tables in turn, and `get_device` is what it gives for an
-- identifier that no other table has. Saves violate no uniqueness constraint here: not that of the public
-- key and the addresses of a node, which the services look up first, nor that of the hash of an audit row.
pub mod Laws
use bapc_vpn_and_digital_sec.Base.{
  ℕ, ◌+◌, String, Bool, not, ◌&&◌, ◌||◌, List, [], ◌∷◌, ◌++◌, Option, none, some, ◌==◌, string_eq,
  number_eq, if◌then◌else◌, is_empty, ltb, filter, find_where, upsert, take, sort, text_before, min,
  max,
}
use bapc_vpn_and_digital_sec.Domain.{
  Device, MeshNode, NetworkPolicy, JitGrant, SecurityEvent, AuditRecord,
}
use bapc_vpn_and_digital_sec.Store.{Store}

unfoldable pub find_by_hardware_id : String → Store → Option Device
find_by_hardware_id hardware_id s = find_where (λ d. d.hardware_id == hardware_id) s.devices

unfoldable pub find_by_public_key : String → Store → Option MeshNode
find_by_public_key key s = find_where (λ n. n.wire_guard_public_key == key) s.nodes

unfoldable pub get_device : String → Store → Option Device
get_device id s = find_where (λ d. d.id == id) s.devices

unfoldable pub get_node : String → Store → Option MeshNode
get_node id s = find_where (λ n. n.id == id) s.nodes

unfoldable pub get_policy : String → Store → Option NetworkPolicy
get_policy id s = find_where (λ p. p.id == id) s.policies

unfoldable pub get_grant : String → Store → Option JitGrant
get_grant id s = find_where (λ g. g.id == id) s.grants

pub data Entity : Type 0 where
  device : Device → Entity
  node : MeshNode → Entity
  policy : NetworkPolicy → Entity
  grant : JitGrant → Entity

-- the loop of `get` over the four tables
unfoldable pub get : String → Store → Option Entity
unfolding get_device get_node get_policy get_grant
get id s = elim (get_device id s) [
  | some d ↦ some (device d)
  | none ↦ elim (get_node id s) [
    | some n ↦ some (node n)
    | none ↦ elim (get_policy id s) [
      | some p ↦ some (policy p)
      | none ↦ elim (get_grant id s) [ some g ↦ some (grant g) | none ↦ none ]
    ]
  ]
]

-- `device()` gives an empty text of an optional column as no value.
abbrev pub present : Option String → Option String
present none = none
present (some t) = if is_empty t then none else some t

-- what is read back of a new row
abbrev pub as_read : Device → Device
as_read d = record d {
  public_attestation_key = present d.public_attestation_key;
  agent_version = present d.agent_version;
  quarantine_reason = present d.quarantine_reason;
}

-- the columns that `ON CONFLICT(device_id) DO UPDATE` sets; the trigger `devices_touch_updated_at` of
-- db/004_security_hardening.sql puts the time of the database in place of the one that an update gives
unfoldable pub save_device : Device → Store → Store
save_device d s = record s {
  devices =
      upsert (λ x. x.id == d.id)
        (λ x. record x {
          hostname = d.hostname;
          os_version = d.os_version;
          compromised = d.compromised;
          revoked = d.revoked;
          posture = d.posture;
          updated_at = s.now;
          last_posture_at = d.last_posture_at;
          agent_version = present d.agent_version;
          quarantine_reason = present d.quarantine_reason;
        })
        (as_read d) s.devices;
}

-- A node saved without a region keeps the one that its row has; a new row gets the column's default.
abbrev pub region_or : Option String → Option String → Option String
region_or none old = old
region_or (some r) old = some r

unfoldable pub save_node : MeshNode → Store → Store
save_node n s = record s {
  nodes =
      upsert (λ x. x.id == n.id)
        (λ x. record x {
          wire_guard_public_key = n.wire_guard_public_key;
          zone = n.zone;
          region = region_or n.region x.region;
          active = n.active;
          last_handshake = n.last_handshake;
        })
        (record n { region = region_or n.region (some "unassigned") }) s.nodes;
}

-- The row's `document` holds the whole policy, so every field is replaced.
unfoldable pub save_policy : NetworkPolicy → Store → Store
save_policy p s = record s { policies = upsert (λ x. x.id == p.id) (λ _. p) p s.policies }

unfoldable pub save_grant : JitGrant → Store → Store
save_grant g s = record s {
  grants =
      upsert (λ x. x.id == g.id)
        (λ x. record x {
          approved_by = g.approved_by;
          terminated = g.terminated;
          termination_reason = g.termination_reason;
        })
        g s.grants;
}

-- `save`: the shape of the value says which table it belongs to
unfoldable pub save : Entity → Store → Store
unfolding save_device save_node save_policy save_grant
save (device d) s = save_device d s
save (node n) s = save_node n s
save (policy p) s = save_policy p s
save (grant g) s = save_grant g s

-- `list`: the active nodes, by identifier
unfoldable pub list_nodes : Store → List MeshNode
list_nodes s = sort (λ a b. text_before a.id b.id) (filter (λ n. n.active) s.nodes)

unfoldable pub list_devices : Store → List Device
list_devices s = sort (λ a b. text_before a.id b.id) s.devices

-- `listActive(now)`: the grants that are not terminated and not expired, the soonest expiry first
unfoldable pub list_active_grants : ℕ → Store → List JitGrant
list_active_grants now s =
    sort (λ a b. ltb a.expires_at b.expires_at)
      (filter (λ g. not g.terminated && ltb now g.expires_at) s.grants)

abbrev policy_before : NetworkPolicy → NetworkPolicy → Bool
policy_before a b = ltb b.priority a.priority || (a.priority == b.priority && text_before a.id b.id)

-- `listActive()`: ORDER BY priority DESC, policy_id
unfoldable pub list_active_policies : Store → List NetworkPolicy
list_active_policies s = sort policy_before (filter (λ p. p.active) s.policies)

unfoldable pub append_event : SecurityEvent → Store → Store
append_event e s = record s { events = s.events ++ e ∷ [] }

-- `LIMIT` lies between 1 and 500.
unfoldable pub recent_events : ℕ → Store → List SecurityEvent
recent_events limit s = take (max 1 (min limit 500)) (sort (λ a b. ltb b.at_ms a.at_ms) s.events)

-- The insert leaves `sequence` to the identity column, which numbers the rows by itself.
unfoldable pub append_audit : AuditRecord → Store → Store
append_audit r s = record s {
  audits = s.audits ++ record r { sequence = s.audit_identity } ∷ [];
  audit_identity = s.audit_identity + 1;
}

abbrev pub last_of {ℓ} : {A : Type ℓ} → List A → Option A
last_of [] = none
last_of (x ∷ []) = some x
last_of (x ∷ y ∷ xs) = last_of (y ∷ xs)

unfoldable pub last_audit : Store → Option AuditRecord
last_audit s = last_of s.audits

unfoldable pub audit_chain : Store → List AuditRecord
audit_chain s = s.audits
