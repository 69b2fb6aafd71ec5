-- ===== src/Tests/Mesh.antt =====
-- The mesh at concrete inputs.
use bapc_vpn_and_digital_sec.Base.{
  ℕ, ◌≤◌, ◌<◌, String, ◌≡◌, refl, true, none, [], ◌∷◌, ◌++◌, map, ◌↔◌, ◌+◌, ◌*◌, number_eq,
  string_eq, filter, All, decimal,
}
use mathlib.Core.List.{Perm}
use bapc_vpn_and_digital_sec.Domain.{MeshNode, admin_zone, forensic_zone}
use bapc_vpn_and_digital_sec.Store.{Store, KeyRotation}
use bapc_vpn_and_digital_sec.Mesh.Routing.{
  RelayHealth, local_relay, is_healthy, relay_candidate, direct_candidates, select,
}
use bapc_vpn_and_digital_sec.Mesh.Routing.Laws.{Ranked, select-perm}
use bapc_vpn_and_digital_sec.Mesh.Topology.{peer_plan, sees, plans}
use bapc_vpn_and_digital_sec.Mesh.Topology.Laws.{MaySee, plans-isolated}
use bapc_vpn_and_digital_sec.Mesh.Addresses.{addresses, is_free, next}
use bapc_vpn_and_digital_sec.Mesh.Addresses.Laws.{next-is_free, first_free}
use bapc_vpn_and_digital_sec.KeyRotation.{max_epoch, rotate}
use bapc_vpn_and_digital_sec.KeyRotation.Laws.{rotate-max_epoch}
use bapc_vpn_and_digital_sec.Tests.{node_in, n1, one_node}

abbrev suspect : MeshNode
suspect = node_in "n2" forensic_zone

plans-isolated_example :
    (plans none suspect (n1 ∷ node_in "n3" admin_zone ∷ [])
      ≡ map (peer_plan none) (filter (sees suspect) (n1 ∷ node_in "n3" admin_zone ∷ [])))
    × All (MaySee suspect) (filter (sees suspect) (n1 ∷ node_in "n3" admin_zone ∷ []))
plans-isolated_example = plans-isolated none suspect (n1 ∷ node_in "n3" admin_zone ∷ [])

abbrev near_relay : RelayHealth
near_relay = record {
  id = "r1";
  region = "eu";
  endpoint = "r1:51820";
  latency_ms = 20;
  load_percent = 30;
  available = true;
  last_heartbeat = 900;
  active_sessions = 10;
  capacity_percent = record { used = 1; room = 2 };
  throughput_bytes_per_sec = 1000;
}

select-perm_example :
    Perm (select none (near_relay ∷ []) [] 1000) (
      direct_candidates none
      ++ (map (relay_candidate local_relay 800) (filter (is_healthy 1000) (near_relay ∷ [])) ++ []))
    × Ranked (select none (near_relay ∷ []) [] 1000)
    × ((is_healthy 1000 near_relay ≡ true) ↔ (
        (near_relay.available ≡ true)
        × (1000 < near_relay.last_heartbeat + 45000)
        × (near_relay.load_percent < 95)
        × (near_relay.capacity_percent.used < 95 * near_relay.capacity_percent.room)))
select-perm_example = select-perm none (near_relay ∷ []) [] 1000 near_relay

abbrev hex_of : ℕ → String
hex_of n = decimal n

next-is_free_example :
    (is_free hex_of [] [] (addresses hex_of 2) ≡ true)
    × ((i : ℕ) × (2 ≤ i) × (i < 65534) × (addresses hex_of 2 ≡ addresses hex_of i))
unfolding next
next-is_free_example = next-is_free hex_of [] [] (addresses hex_of 2) (first_free hex_of 65531)

abbrev first_rotation : KeyRotation
first_rotation = record { node_id = "n1"; epoch = 4; new_public_key = "k"; rotated_at = 5 }

abbrev rotated : Store
rotated = record one_node { rotations = first_rotation ∷ [] }

rotate-max_epoch_example :
    All (λ r. r.node_id ≡ "n1" → r.epoch < (rotate "n1" "k2" rotated).0) (first_rotation ∷ [])
    × (max_epoch "n1" (rotate "n1" "k2" rotated).1.rotations ≡ (rotate "n1" "k2" rotated).0)
    × (max_epoch "n2" (rotate "n1" "k2" rotated).1.rotations ≡ max_epoch "n2" rotated.rotations)
rotate-max_epoch_example = rotate-max_epoch "n1" "k2" "n2" rotated refl
