-- ===== src/Response/Laws.antt =====
-- Quarantine and restoration (src/application/threat-response.ts).
use bapc_vpn_and_digital_sec.Base.{
  ℕ, String, ◌≡◌, refl, ◌∙◌, ◌⊎◌, inl, inr, true, none, some, List, [], ◌∷◌, arith, ◌==◌, number_eq,
  string_eq, filter,
}
use bapc_vpn_and_digital_sec.Domain.{SecurityEvent, Device, MeshNode, JitGrant, Error, plain}
use bapc_vpn_and_digital_sec.Store.{Store}
use bapc_vpn_and_digital_sec.Store.Monad.{Result, ok, err}
use bapc_vpn_and_digital_sec.Store.Repositories.{
  get_node, get_device, present, save_device, save_grant, list_active_grants,
}
use bapc_vpn_and_digital_sec.Store.Repositories.Laws.{get_device-save_device, get_device-id}
use bapc_vpn_and_digital_sec.Store.Commands.{has_pending, publish}
use bapc_vpn_and_digital_sec.Enforcer.{isolate_node}
use bapc_vpn_and_digital_sec.Enforcer.Laws.{isolate_node_lem, isolate_node-devices}
use bapc_vpn_and_digital_sec.Threat.Ports.{terminated_for}
use bapc_vpn_and_digital_sec.Response.{
  Approval, quarantined, quarantined_device, mark_compromised, terminate_all, terminate_zone,
  quarantine, restore,
}

-- the row of a device that was quarantined, as it is read back
abbrev pub compromised_device : SecurityEvent → ℕ → Device → Device
compromised_device event now d = record d {
  compromised = true;
  updated_at = now;
  agent_version = present d.agent_version;
  quarantine_reason = present (some event.description);
}

get_device-mark_compromised :
    (event : SecurityEvent) (n : MeshNode) (s : Store) (d : Device)
    → get_device n.device_id s ≡ some d
    → get_device n.device_id (mark_compromised event n s) ≡ some (compromised_device event s.now d)
unfolding mark_compromised
get_device-mark_compromised event n s d e =
    rw (mark_compromised, e)
      (get_device-save_device n.device_id (quarantined_device event d) d s
        (get_device-id n.device_id s d e) e)

get_node-mark_compromised :
    (event : SecurityEvent) (n : MeshNode) (id : String) (s : Store)
    → get_node id (mark_compromised event n s) ≡ get_node id s
unfolding mark_compromised get_node save_device
get_node-mark_compromised event n id s = ground arith

terminate_all-tables :
    (gs : List JitGrant) (s : Store)
    → ((terminate_all gs s).nodes ≡ s.nodes) × ((terminate_all gs s).devices ≡ s.devices)
unfolding terminate_all save_grant
terminate_all-tables [] s = (refl, refl)
terminate_all-tables (g ∷ gs) s =
    terminate_all-tables gs (save_grant (terminated_for "security incident" g) s)

terminate_zone-tables :
    (event : SecurityEvent) (n : MeshNode) (s : Store)
    → ((terminate_zone event n s).nodes ≡ s.nodes)
      × ((terminate_zone event n s).devices ≡ s.devices)
unfolding terminate_zone
terminate_zone-tables event n s =
    terminate_all-tables (filter (λ g. g.target_zone == n.zone) (list_active_grants event.at_ms s))
      s

get_node-of : (id : String) (s u : Store) → s.nodes ≡ u.nodes → get_node id s ≡ get_node id u
unfolding get_node
get_node-of id s u e = rw e refl

get_device-of :
    (id : String) (s u : Store) → s.devices ≡ u.devices → get_device id s ≡ get_device id u
unfolding get_device
get_device-of id s u e = rw e refl

-- Quarantining an enrolled node with a device succeeds, whatever the level. Afterwards the device reads as
-- compromised, with the event's description for a reason unless it is empty, and as updated at the time
-- of the database; nothing else of it changes, an empty version of the agent reading as none. A command
-- that isolates the node is pending.
pub quarantine_lem :
    (event : SecurityEvent) (level : ℕ) (n : MeshNode) (d : Device) (s : Store)
    → get_node n.id s ≡ some n
    → get_device n.device_id s ≡ some d
    → ((quarantine event level (some n) s).0 ≡ ok (record { level = level; action = quarantined }))
      × (get_device n.device_id (quarantine event level (some n) s).1
          ≡ some (compromised_device event s.now d))
      × (has_pending n.id "QUARANTINE" (quarantine event level (some n) s).1 ≡ true)
unfolding quarantine publish has_pending get_device
quarantine_lem event level n d s e g =
    let s' = terminate_zone event n (mark_compromised event n s) in
    let t = terminate_zone-tables event n (mark_compromised event n s) in
    let i = isolate_node_lem n.id s' in
    let e' =
      get_node-of n.id s' (mark_compromised event n s) t.0
      ∙ get_node-mark_compromised event n n.id s
      ∙ e in
    rw i.0 (
      refl,
      get_device-of n.device_id (isolate_node n.id s').1 (mark_compromised event n s)
            (isolate_node-devices n.id s' ∙ t.1)
          ∙ get_device-mark_compromised event n s d g,
      i.1 n e',
    )

Result-cases : {A : Type 0} (r : Result A) → ((a : A) × (r ≡ ok a)) ⊎ ((x : Error) × (r ≡ err x))
Result-cases (ok a) = inl (a, refl)
Result-cases (err x) = inr (x, refl)

module _ (verify_clearance : String → String → ℕ → Result Approval) where
  unapproved :
      (node_id token : String) (s : Store) (x : Error)
      → verify_clearance token node_id s.now ≡ err x
      → restore verify_clearance node_id token s ≡ (err x, s)
  unfolding restore
  unapproved node_id token s x v = rw v refl

  unenrolled :
      (node_id token : String) (s : Store) (a : Approval)
      → verify_clearance token node_id s.now ≡ ok a
      → get_node node_id s ≡ none
      → restore verify_clearance node_id token s ≡ (err (plain "node not found"), s)
  unfolding restore
  unenrolled node_id token s a v e = rw v (rw e refl)

  -- Without a clearance that verifies, and for a node that is not enrolled, a restoration fails and changes
  -- nothing.
  pub restore_refused :
      (node_id token : String) (s : Store)
      → ((x : Error) × (verify_clearance token node_id s.now ≡ err x)) ⊎ (get_node node_id s ≡ none)
      → (x : Error) × (restore verify_clearance node_id token s ≡ (err x, s))
  restore_refused node_id token s (inl (x, e)) = (x, unapproved node_id token s x e)
  restore_refused node_id token s (inr e) =
      elim (Result-cases (verify_clearance token node_id s.now)) [
        | inl (a, v) ↦ (plain "node not found", unenrolled node_id token s a v e)
        | inr (x, v) ↦ (x, unapproved node_id token s x v)
      ]
