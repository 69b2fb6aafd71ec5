-- ===== src/Reconciliation/Laws.antt =====
-- What a check of drift does (src/application/node-reconciliation.ts).
use bapc_vpn_and_digital_sec.Base.{String, ◌≡◌, refl, true, [], ◌∷◌, number_eq, string_eq}
use bapc_vpn_and_digital_sec.Json.{Json}
use bapc_vpn_and_digital_sec.Domain.{MeshNode}
use bapc_vpn_and_digital_sec.Store.{Store, DesiredState}
use bapc_vpn_and_digital_sec.Store.Monad.{ok}
use bapc_vpn_and_digital_sec.Store.Repositories.{list_nodes, list_active_policies}
use bapc_vpn_and_digital_sec.Reconciliation.{
  routes_and_integrity, dns, kill_switch, peer_topology, policy_version, in_sync, routes_in_sync,
  dns_in_sync, kill_switch_in_sync, check_routes, check_dns, check_kill_switch, topology_in_sync,
  check_peer_topology, policy_in_sync, check_policy_version, check_dimensions,
}

-- A node that is in sync in all five dimensions is left alone: the check reports five findings without drift
-- and writes nothing.
pub check_dimensions-in_sync :
    (hash : Json → String) (node : MeshNode) (desired : DesiredState) (s : Store)
    → routes_in_sync node desired s ≡ true
    → dns_in_sync node desired s ≡ true
    → kill_switch_in_sync node desired s ≡ true
    → topology_in_sync hash node (list_nodes s) s ≡ true
    → policy_in_sync hash node (list_active_policies s) s ≡ true
    → check_dimensions hash node desired s ≡ (
      ok (
          in_sync routes_and_integrity
          ∷ in_sync dns
          ∷ in_sync kill_switch
          ∷ in_sync peer_topology
          ∷ in_sync policy_version
          ∷ []),
      s,
    )
unfolding check_dimensions check_routes check_dns check_kill_switch check_peer_topology
    check_policy_version
check_dimensions-in_sync hash node desired s a b c d e =
    rw
      (
        check_dimensions, check_routes, a, check_dns, b, check_kill_switch, c, check_peer_topology,
        d, check_policy_version, e,
      )
      refl
