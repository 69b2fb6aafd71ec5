-- ===== src/Agent/Production/InSync.antt =====
-- The agent and the control plane together (agents/shared/production-agent.ts against
-- src/application/node-reconciliation.ts): what the agent reports of a correction is what the next check of
-- drift looks for.
use bapc_vpn_and_digital_sec.Base.{
  ◌<◌, String, ◌≡◌, refl, inl, inr, Bool, true, Option, none, some, List, [], ◌∷◌, map, arith, ◌==◌,
  string_eq, ==_refl, Option-cases, find_where, All,
}
use bapc_vpn_and_digital_sec.Json.{
  Json, bool, num, str, arr, obj, Fields, end, field, strings, get_field,
}
use bapc_vpn_and_digital_sec.Domain.{Error, MeshNode, NetworkPolicy}
use bapc_vpn_and_digital_sec.Store.{Store, Command, DesiredState}
use bapc_vpn_and_digital_sec.Store.Monad.{Result, ok}
use bapc_vpn_and_digital_sec.Store.Commands.{
  ack_status, acknowledge, pending_commands, latest_acknowledgement,
}
use bapc_vpn_and_digital_sec.Store.Commands.Latest.{latest_acknowledgement-acknowledge}
use bapc_vpn_and_digital_sec.Policy.Compiler.{firewall_rules_for}
use bapc_vpn_and_digital_sec.Mesh.Relays.{relay_candidates}
use bapc_vpn_and_digital_sec.Mesh.Topology.{
  apply_peers_payload, plan_for, select_relay_endpoint, topology_hash,
}
use bapc_vpn_and_digital_sec.Reconciliation.{
  DriftDimension, routes_and_integrity, dns, kill_switch, peer_topology, policy_version, same_items,
  reported, reconcile_payload, latest_committed_commit, routes_in_sync, dns_in_sync,
  kill_switch_in_sync, topology_in_sync, policy_in_sync,
}
use bapc_vpn_and_digital_sec.Agent.{applied, Report}
use bapc_vpn_and_digital_sec.Agent.Production.{
  ControllerCommand, PlatformAdapter, AgentController, Rotation, ProductionAgent, reconcile_state,
  perform, success, execute, set_kill_switch, set_dns, apply_peers, apply_firewall,
}

-- what the agent is given of a row of the queue
abbrev pub delivered : Command → ControllerCommand
delivered c = record { id = c.id; type = c.type; payload = c.payload }

-- the queue of the control plane as the agent's controller, at the default limit of `pending`
abbrev pub queue_of : String → AgentController Store
queue_of node_id = record {
  heartbeat = λ posture s. (ok (map delivered (pending_commands node_id 20 s)), s);
  acknowledge = λ id result s. (ok tt, acknowledge id result s);
}

same_items-strings : (xs : List String) → same_items (strings xs) xs ≡ true
same_items-strings [] = refl
same_items-strings (x ∷ xs) = rw (==_refl x) (same_items-strings xs)

plan_for-acknowledge :
    (node : MeshNode) (all : List MeshNode) (id : String) (result : Json) (s : Store)
    → plan_for node all none (acknowledge id result s) ≡ plan_for node all none s
unfolding plan_for select_relay_endpoint relay_candidates acknowledge
plan_for-acknowledge node all id result s =
    elim (Option-cases (find_where (λ c. c.id == id) s.commands)) [
      | inl e ↦ rw (e, acknowledge) refl
      | inr (row, e) ↦ rw (e, acknowledge) refl
    ]

abbrev pub correction_type : DriftDimension → String
correction_type routes_and_integrity = "RECONCILE"
correction_type dns = "SET_DNS"
correction_type kill_switch = "SET_KILL_SWITCH"
correction_type peer_topology = "APPLY_PEERS"
correction_type policy_version = "APPLY_FIREWALL"

module _ (n : MeshNode) (desired : DesiredState) (policies : List NetworkPolicy)
    (all : List MeshNode) (s : Store) where
  -- the payload that the check of the dimension sends
  abbrev pub correction_payload : DriftDimension → Json
  correction_payload routes_and_integrity = reconcile_payload desired policies
  correction_payload dns = obj (field "servers" (arr (strings desired.dns_servers)) end)
  correction_payload kill_switch = obj (field "enabled" (bool desired.kill_switch_enabled) end)
  correction_payload peer_topology =
      obj (field "peers" (arr (apply_peers_payload (plan_for n all none s))) end)
  correction_payload policy_version = obj (
      field "commitId" (latest_committed_commit s) (
        field "defaultAction" (str "DENY") (field "rules" (arr (firewall_rules_for policies)) end)))

  abbrev pub is_in_sync : (Json → String) → DriftDimension → Store → Bool
  is_in_sync hash routes_and_integrity after = routes_in_sync n desired after
  is_in_sync hash dns after = dns_in_sync n desired after
  is_in_sync hash kill_switch after = kill_switch_in_sync n desired after
  is_in_sync hash peer_topology after = topology_in_sync hash n all after
  is_in_sync hash policy_version after = policy_in_sync hash n policies after

  -- The endpoint carries the correction out: its adapter, or its reconciler, which reaches the revision,
  -- succeeds.
  abbrev pub CarriesOut :
      {P : Type 0}
      → PlatformAdapter P
      → (Json → P → Result Report × P)
      → DriftDimension
      → P
      → P
      → Type 0
  CarriesOut platform reconciler routes_and_integrity p p' =
      reconciler (reconcile_payload desired policies) p
      ≡ (ok (record { status = applied; revision = desired.revision }), p')
  CarriesOut platform reconciler dns p p' =
      platform.set_dns (some (arr (strings desired.dns_servers))) p ≡ (ok tt, p')
  CarriesOut platform reconciler kill_switch p p' =
      platform.set_kill_switch desired.kill_switch_enabled p ≡ (ok tt, p')
  CarriesOut platform reconciler peer_topology p p' =
      platform.apply_peers (some (arr (apply_peers_payload (plan_for n all none s)))) p
      ≡ (ok tt, p')
  CarriesOut platform reconciler policy_version p p' =
      platform.apply_firewall (correction_payload policy_version) p ≡ (ok tt, p')

-- an agent of a node on the queue of the control plane
abbrev pub agent_on_queue :
    {P : Type 0}
    → PlatformAdapter P
    → (Json → P → Result Report × P)
    → Option (Rotation P Store)
    → MeshNode
    → ProductionAgent P Store
agent_on_queue platform reconciler rotation n = record {
  node_id = n.id;
  platform = platform;
  controller = queue_of n.id;
  reconciler = some reconciler;
  rotation = rotation;
}

module _ {P : Type 0} (platform : PlatformAdapter P) (reconciler : Json → P → Result Report × P)
    (rotation : Option (Rotation P Store)) (hash : Json → String) (describe : Error → String)
    (at : String) (n : MeshNode) where
  abbrev agent : ProductionAgent P Store
  agent = agent_on_queue platform reconciler rotation n

  -- the store once the agent has executed a row of the queue
  abbrev pub executed : Command → P → Store → Store
  executed row p s = (execute agent hash describe at (delivered row) (p, s)).1.1

  executed-acknowledge :
      (row : Command) (p p' : P) (s : Store) (fields : Fields)
      → perform agent hash (delivered row) (p, s) ≡ (ok fields, (p', s))
      → executed row p s ≡ acknowledge row.id (success agent hash describe at fields) s
  unfolding execute
  executed-acknowledge row p p' s fields e = rw (executed, execute, e) refl

  reported-acknowledge :
      (row : Command) (s : Store) (fields : Fields) (key : String) (v : Json)
      → find_where (λ c. c.id == row.id) s.commands ≡ some row
      → row.node_id ≡ n.id
      → All (λ a. a.acknowledged_at < s.now) s.acks
      → get_field key (success agent hash describe at fields) ≡ some v
      → reported key (
          latest_acknowledgement n.id row.type
            (acknowledge row.id (success agent hash describe at fields) s))
        ≡ some v
  unfolding ack_status
  reported-acknowledge row s fields key v found owner later h =
      let (a, e, d) =
        latest_acknowledgement-acknowledge row.id (success agent hash describe at fields) s row
          found refl later in
      let e' = (rw owner at e) in rw e' (rw d h)

  -- what the agent does of a correction, and the fields that it reports
  module _ (row : Command) (p p' : P) (s : Store) (desired : DesiredState)
      (policies : List NetworkPolicy) (all : List MeshNode) where
    abbrev report_fields : DriftDimension → Fields
    report_fields routes_and_integrity =
        field "status" (str "APPLIED") (field "revision" (num desired.revision) end)
    report_fields dns = field "servers" (arr (strings desired.dns_servers)) end
    report_fields kill_switch = field "enabled" (bool desired.kill_switch_enabled) end
    report_fields peer_topology =
        field "topologyHash" (str (topology_hash hash (plan_for n all none s))) end
    report_fields policy_version =
        field "commitId" (latest_committed_commit s)
          (field "firewallHash" (str (hash (arr (firewall_rules_for policies)))) end)

    perform-correction :
        (d : DriftDimension)
        → row.type ≡ correction_type d
        → row.payload ≡ correction_payload n desired policies all s d
        → CarriesOut n desired policies all s platform reconciler d p p'
        → perform agent hash (delivered row) (p, s) ≡ (ok (report_fields d), (p', s))
    unfolding perform set_kill_switch set_dns apply_peers apply_firewall reconcile_state
        topology_hash
    perform-correction routes_and_integrity t q h = rw (t, perform) (rw q (rw h refl))
    perform-correction dns t q h = rw (t, perform) (rw q (rw h refl))
    perform-correction kill_switch t q h = rw (t, perform) (rw q (rw h refl))
    perform-correction peer_topology t q h = rw (t, perform) (rw q (rw h refl))
    perform-correction policy_version t q h = rw (t, perform) (rw q (rw h refl))

    ack_of_correction :
        (d : DriftDimension)
        → row.type ≡ correction_type d
        → row.payload ≡ correction_payload n desired policies all s d
        → CarriesOut n desired policies all s platform reconciler d p p'
        → executed row p s ≡ acknowledge row.id (success agent hash describe at (report_fields d)) s
    ack_of_correction d t q h =
        executed-acknowledge row p p' s (report_fields d) (perform-correction d t q h)

    -- what the latest acknowledgement of the dimension's command reports, once it is written
    abbrev Told : DriftDimension → String → Json → Type 0
    Told d key v =
        reported key (
          latest_acknowledgement n.id (correction_type d)
            (acknowledge row.id (success agent hash describe at (report_fields d)) s))
        ≡ some v

    in_sync_after :
        (d : DriftDimension)
        → ((key : String) (v : Json)
            → get_field key (success agent hash describe at (report_fields d)) ≡ some v
            → Told d key v)
        → is_in_sync n desired policies all s hash d
            (acknowledge row.id (success agent hash describe at (report_fields d)) s)
          ≡ true
    unfolding routes_in_sync dns_in_sync kill_switch_in_sync topology_in_sync policy_in_sync
    in_sync_after routes_and_integrity told =
        rw (routes_in_sync, told "status" (str "APPLIED") refl)
          (rw (told "revision" (num desired.revision) refl) (ground arith))
    in_sync_after dns told =
        rw (dns_in_sync, told "servers" (arr (strings desired.dns_servers)) refl)
          (same_items-strings desired.dns_servers)
    in_sync_after kill_switch told =
        rw (kill_switch_in_sync, told "enabled" (bool desired.kill_switch_enabled) refl)
          (ground arith)
    in_sync_after peer_topology told =
        rw (topology_in_sync, plan_for-acknowledge)
          (rw (told "topologyHash" (str (topology_hash hash (plan_for n all none s))) refl)
            (==_refl (topology_hash hash (plan_for n all none s))))
    in_sync_after policy_version told =
        rw
          (
            policy_in_sync,
            told "firewallHash" (str (hash (arr (firewall_rules_for policies)))) refl,
          )
          (==_refl (hash (arr (firewall_rules_for policies))))

    -- The endpoint executes a correction of a dimension that a check of drift has sent it, and carries it
    -- out. If no acknowledgement so far is as late, the node is in sync in that dimension afterwards: the
    -- next check finds no drift there.
    pub execute-is_in_sync :
        (d : DriftDimension)
        → find_where (λ c. c.id == row.id) s.commands ≡ some row
        → row.node_id ≡ n.id
        → All (λ a. a.acknowledged_at < s.now) s.acks
        → row.type ≡ correction_type d
        → row.payload ≡ correction_payload n desired policies all s d
        → CarriesOut n desired policies all s platform reconciler d p p'
        → is_in_sync n desired policies all s hash d (executed row p s) ≡ true
    execute-is_in_sync d found owner later t q h = rw (ack_of_correction d t q h) (
        in_sync_after d (λ key v e.
          rw t at (reported-acknowledge row s (report_fields d) key v found owner later e)))
