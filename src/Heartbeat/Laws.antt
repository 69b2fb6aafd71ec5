-- ===== src/Heartbeat/Laws.antt =====
-- What a heartbeat changes (src/application/heartbeat.ts).
use bapc_vpn_and_digital_sec.Base.{
  ℕ, ◌≤◌, ◌<◌, true, false, none, some, ◌≡◌, refl, arith, ltb, inl, inr, ◌⊎◌, string_eq,
}
use bapc_vpn_and_digital_sec.Domain.{Device, MeshNode, is_compliant}
use bapc_vpn_and_digital_sec.Store.{Store}
use bapc_vpn_and_digital_sec.Store.Monad.{ok}
use bapc_vpn_and_digital_sec.Store.Repositories.{get_node, get_device, present, save_device}
use bapc_vpn_and_digital_sec.Store.Repositories.Laws.{get_device-save_device, get_device-id}
use bapc_vpn_and_digital_sec.Store.Commands.{publish}
use bapc_vpn_and_digital_sec.Heartbeat.{Heartbeat, Reply, distance, with_report, accept}

-- A heartbeat of an unknown node, one whose clock is more than two minutes off, and one of a node with
-- no device are refused, and a refusal writes nothing.
pub accept_refused :
    (h : Heartbeat) (s : Store)
    → (get_node h.node_id s ≡ none) ⊎ (120000 < distance s.now h.at_ms)
    → ((accept h s).1 ≡ s) × ((r : Reply) → (accept h s).0 ≡ ok r → ⊥)
unfolding accept
accept_refused h s (inl e) = rw e (refl, λ r q. ground arith)
accept_refused h s (inr l) = ground arith

near : (n : ℕ) → n ≤ 120000 → ltb 120000 n ≡ false
near n h = ground arith

-- A heartbeat of an enrolled node at most two minutes off is accepted: it reports whether the posture is
-- compliant, the device's row then holds the reported posture, time and agent version, and nothing else
-- of the row changes but the time of its update.
pub accept_lem :
    (h : Heartbeat) (s : Store) (n : MeshNode) (d : Device)
    → get_node h.node_id s ≡ some n
    → distance s.now h.at_ms ≤ 120000
    → get_device n.device_id s ≡ some d
    → ((accept h s).0
        ≡ ok (record {
          accepted = true;
          compliant = is_compliant h.posture;
          next_heartbeat_seconds = 30;
        }))
      × (get_device n.device_id (accept h s).1
          ≡ some (record (with_report h d) {
            updated_at = s.now;
            agent_version = present (with_report h d).agent_version;
            quarantine_reason = present d.quarantine_reason;
          }))
unfolding accept publish get_device save_device
accept_lem h s n d e l g =
    rw (e, near (distance s.now h.at_ms) l, g)
      (
        refl,
        get_device-save_device n.device_id (with_report h d) d s (get_device-id n.device_id s d g)
            g,
      )
