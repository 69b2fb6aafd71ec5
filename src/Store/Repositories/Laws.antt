-- ===== src/Store/Repositories/Laws.antt =====
-- Reads after writes of the repositories (src/infrastructure/postgres/repositories.ts).
use bapc_vpn_and_digital_sec.Base.{
  String, ◌≡◌, refl, sym, false, some, ◌==◌, number_eq, string_eq, eq_of_==, find_where_sound,
  find-upsert_old, find-upsert_other,
}
use bapc_vpn_and_digital_sec.Domain.{Device, MeshNode}
use bapc_vpn_and_digital_sec.Store.{Store}
use bapc_vpn_and_digital_sec.Store.Repositories.{
  get_node, get_device, present, as_read, save_device, region_or, save_node,
}

-- Saving a node that has a row sets the columns that a save may change, and only these; a node that is saved
-- without a region keeps the region of its row. The other nodes' rows stay as they are.
pub get_node-save_node :
    (n old : MeshNode) (other : String) (s : Store)
    → get_node n.id s ≡ some old
    → (n.id == other) ≡ false
    → (get_node n.id (save_node n s)
        ≡ some (record old {
          wire_guard_public_key = n.wire_guard_public_key;
          zone = n.zone;
          region = region_or n.region old.region;
          active = n.active;
          last_handshake = n.last_handshake;
        }))
      × (get_node other (save_node n s) ≡ get_node other s)
unfolding get_node save_node
get_node-save_node n old other s e h = (
  find-upsert_old (λ x. x.id) n.id _ _ s.nodes old refl e,
  find-upsert_other (λ x. x.id) n.id _ _ other s.nodes h refl (λ x. refl),
)

pub get_device-save_device :
    (id : String) (d old : Device) (s : Store)
    → d.id ≡ id
    → get_device id s ≡ some old
    → get_device id (save_device d s)
      ≡ some (record old {
        hostname = d.hostname;
        os_version = d.os_version;
        compromised = d.compromised;
        revoked = d.revoked;
        posture = d.posture;
        updated_at = s.now;
        last_posture_at = d.last_posture_at;
        agent_version = present d.agent_version;
        quarantine_reason = present d.quarantine_reason;
      })
unfolding get_device save_device
get_device-save_device id d old s q e =
    rw⁻¹ q (find-upsert_old (λ x. x.id) d.id _ (as_read d) s.devices old refl (rw (sym q) at e))

pub get_device-id : (id : String) (s : Store) (d : Device) → get_device id s ≡ some d → d.id ≡ id
unfolding get_device
get_device-id id s d e = eq_of_== d.id id (find_where_sound _ s.devices d e)
