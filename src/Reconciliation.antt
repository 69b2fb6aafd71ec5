-- ===== src/Reconciliation.antt =====
-- src/application/node-reconciliation.ts (`NodeReconciliationService`): what a node should look
-- like against what it last reported. `hash` stands for SHA-256 over `canonicalJson`, as in Mesh.Topology.
pub mod Laws
use bapc_vpn_and_digital_sec.Base.{
  ℕ, ◌+◌, String, Bool, true, false, not, ◌&&◌, List, [], ◌∷◌, ◌++◌, Option, none, some, ◌==◌,
  string_eq, if◌then◌else◌, leb, ltb, filter, find_where, upsert, sort, ◌<+>◌, map,
}
use bapc_vpn_and_digital_sec.Json.{
  Json, null, bool, num, str, arr, obj, Items, nil, cons, Fields, end, field, strings, get_field,
  is_text, is_bool,
}
use bapc_vpn_and_digital_sec.Domain.{MeshNode, NetworkPolicy, plain}
use bapc_vpn_and_digital_sec.Store.{
  Store, Route, DesiredState, Acknowledgement, PolicyCommit, committed, CommitStatus,
}
use bapc_vpn_and_digital_sec.Store.Desired.{get_desired}
use bapc_vpn_and_digital_sec.Store.Monad.{M, ok, err, ◌>>=◌, ◌>>◌, return, gets, or_throw, then_run}
use bapc_vpn_and_digital_sec.Store.Repositories.{get_node, list_nodes, list_active_policies}
use bapc_vpn_and_digital_sec.Store.Commands.{enqueue, latest_acknowledgement}
use bapc_vpn_and_digital_sec.Policy.Compiler.{firewall_rules_for}
use bapc_vpn_and_digital_sec.Mesh.Topology.{plan_for, topology_hash, reconcile}

pub data DriftDimension : Type 0 where
  routes_and_integrity dns kill_switch peer_topology policy_version : DriftDimension

pub record DriftFinding : Type 0 where
  pub dimension : DriftDimension
  pub drifted : Bool
  pub corrected_by : Option String

abbrev pub in_sync : DriftDimension → DriftFinding
in_sync d = record { dimension = d; drifted = false; corrected_by = none }

abbrev pub corrected : DriftDimension → String → DriftFinding
corrected d by = record { dimension = d; drifted = true; corrected_by = some by }

-- `ack?.details?.key`
abbrev pub reported : String → Option Acknowledgement → Option Json
reported key none = none
reported key (some a) = get_field key a.details

-- `Number(revision)>=desired.revision`; the agent reports a number
abbrev pub at_least : ℕ → Option Json → Bool
at_least revision (some (num n)) = leb revision n
at_least revision _ = false

-- `JSON.stringify(applied)===JSON.stringify(desired.dnsServers)`
abbrev pub same_items : Items → List String → Bool
same_items nil [] = true
same_items (cons (str x) xs) (y ∷ ys) = if x == y then same_items xs ys else false
same_items _ _ = false

abbrev pub is_list_of : List String → Option Json → Bool
is_list_of names (some (arr xs)) = same_items xs names
is_list_of names _ = false

abbrev pub gateway_fields : Option String → Fields → Fields
gateway_fields none rest = rest
gateway_fields (some g) rest = field "gateway" (str g) rest

abbrev pub route_json : Route → Json
route_json r = obj (
    field "destination" (str r.destination) (
      gateway_fields r.gateway
        (field "interfaceName" (str r.interface_name) (field "metric" (num r.metric) end))))

abbrev pub routes_json : List Route → Items
routes_json [] = nil
routes_json (r ∷ rs) = cons (route_json r) (routes_json rs)

abbrev pub files_json : List (String × String) → Fields
files_json [] = end
files_json ((path, hash) ∷ fs) = field path (str hash) (files_json fs)

abbrev pub firewall_plan_for : List NetworkPolicy → Json
firewall_plan_for policies =
    obj (field "defaultAction" (str "DENY") (field "rules" (arr (firewall_rules_for policies)) end))

abbrev pub reconcile_payload : DesiredState → List NetworkPolicy → Json
reconcile_payload d policies = obj (
    field "revision" (num d.revision) (
      field "routes" (arr (routes_json d.routes)) (
        field "firewallPlan" (firewall_plan_for policies)
          (field "integrityFiles" (obj (files_json d.integrity_files)) end))))

unfoldable pub routes_in_sync : MeshNode → DesiredState → Store → Bool
routes_in_sync node desired s =
    let ack = latest_acknowledgement node.id "RECONCILE" s in
    is_text "APPLIED" (reported "status" ack) && at_least desired.revision (reported "revision" ack)

unfoldable pub dns_in_sync : MeshNode → DesiredState → Store → Bool
dns_in_sync node desired s =
    is_list_of desired.dns_servers (reported "servers" (latest_acknowledgement node.id "SET_DNS" s))

unfoldable pub kill_switch_in_sync : MeshNode → DesiredState → Store → Bool
kill_switch_in_sync node desired s =
    is_bool desired.kill_switch_enabled
      (reported "enabled" (latest_acknowledgement node.id "SET_KILL_SWITCH" s))

-- A check that finds drift sends the correction.
abbrev pub correct_if : Bool → DriftDimension → String → M (Unit {0}) → M DriftFinding
correct_if true d by send s = (ok (in_sync d), s)
correct_if false d by send s = then_run (send s) (λ _. return (corrected d by))

unfoldable pub check_routes : MeshNode → DesiredState → List NetworkPolicy → M DriftFinding
check_routes node desired policies s =
    correct_if (routes_in_sync node desired s) routes_and_integrity "RECONCILE"
      (enqueue node.id "RECONCILE" (reconcile_payload desired policies) 150) s

unfoldable pub check_dns : MeshNode → DesiredState → M DriftFinding
check_dns node desired s =
    correct_if (dns_in_sync node desired s) dns "SET_DNS"
      (enqueue node.id "SET_DNS" (obj (field "servers" (arr (strings desired.dns_servers)) end))
        150)
      s

unfoldable pub check_kill_switch : MeshNode → DesiredState → M DriftFinding
check_kill_switch node desired s =
    correct_if (kill_switch_in_sync node desired s) kill_switch "SET_KILL_SWITCH"
      (enqueue node.id "SET_KILL_SWITCH"
        (obj (field "enabled" (bool desired.kill_switch_enabled) end)) 150)
      s

abbrev finalized : PolicyCommit → ℕ
finalized c = elim c.finalized_at [ none ↦ 0 | some t ↦ t ]

abbrev is_committed : PolicyCommit → Bool
is_committed c = elim c.status [ committed ↦ true | _ ↦ false ]

abbrev id_of_first : List PolicyCommit → Json
id_of_first [] = null
id_of_first (c ∷ _) = str c.id

unfoldable pub latest_committed_commit : Store → Json
latest_committed_commit s =
    id_of_first (sort (λ a b. ltb (finalized b) (finalized a)) (filter is_committed s.commits))

module _ (hash : Json → String) where
  unfoldable pub topology_in_sync : MeshNode → List MeshNode → Store → Bool
  topology_in_sync node all s =
      is_text (topology_hash hash (plan_for node all none s))
        (reported "topologyHash" (latest_acknowledgement node.id "APPLY_PEERS" s))

  unfoldable pub check_peer_topology : MeshNode → List MeshNode → M DriftFinding
  check_peer_topology node all s =
      correct_if (topology_in_sync node all s) peer_topology "APPLY_PEERS"
        (λ s'. then_run (reconcile hash node all none s') (λ _. return tt)) s

  unfoldable pub policy_in_sync : MeshNode → List NetworkPolicy → Store → Bool
  policy_in_sync node policies s =
      is_text (hash (arr (firewall_rules_for policies)))
        (reported "firewallHash" (latest_acknowledgement node.id "APPLY_FIREWALL" s))

  unfoldable pub check_policy_version : MeshNode → List NetworkPolicy → M DriftFinding
  check_policy_version node policies s =
      correct_if (policy_in_sync node policies s) policy_version "APPLY_FIREWALL"
        (enqueue node.id "APPLY_FIREWALL"
          (obj (
            field "commitId" (latest_committed_commit s) (
              field "defaultAction" (str "DENY")
                (field "rules" (arr (firewall_rules_for policies)) end))))
          150)
        s

  unfoldable pub check_dimensions : MeshNode → DesiredState → M (List DriftFinding)
  check_dimensions node desired = do
    all ← gets list_nodes
    policies ← gets list_active_policies
    a ← check_routes node desired policies
    b ← check_dns node desired
    c ← check_kill_switch node desired
    d ← check_peer_topology node all
    e ← check_policy_version node policies
    return (a ∷ b ∷ c ∷ d ∷ e ∷ [])

  unfoldable pub check_node : String → M (List DriftFinding)
  unfolding check_dimensions
  check_node node_id = do
    found ← gets (get_node node_id)
    node ← or_throw found (plain ("node not found: " <+> node_id))
    desired ← gets (get_desired node_id)
    elim desired [ none ↦ return [] | some d ↦ check_dimensions node d ]

  -- the loop of `checkAll`
  unfoldable pub check_states : List DesiredState → M (List (List DriftFinding))
  check_states [] = return []
  check_states (d ∷ ds) = do
    first ← check_node d.node_id
    rest ← check_states ds
    return (first ∷ rest)

  unfoldable pub check_all : M (List (List DriftFinding))
  unfolding check_states
  check_all s = check_states s.desired s
