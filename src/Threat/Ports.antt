-- ===== src/Threat/Ports.antt =====
-- services/threat-engine/pg-threat-action-port.ts (`PgThreatActionPort`),
-- services/threat-engine/pg-incident-port.ts (`PgIncidentPort`) and the two methods of
-- services/trust-core/pg-certificate-store.ts that they call.
use bapc_vpn_and_digital_sec.Base.{
  ℕ, ◌+◌, String, Bool, true, false, not, ◌&&◌, ◌||◌, List, [], ◌∷◌, ◌++◌, Option, none, some, ◌==◌,
  string_eq, if◌then◌else◌, ltb, is_some, decimal, ◌<+>◌, length, filter, update_where, sort,
}
use bapc_vpn_and_digital_sec.Json.{Json, str, arr, obj, end, field, strings}
use bapc_vpn_and_digital_sec.Domain.{JitGrant, Severity, info}
use bapc_vpn_and_digital_sec.Store.{Store, Certificate, Incident}
use bapc_vpn_and_digital_sec.Store.Monad.{M, ok}
use bapc_vpn_and_digital_sec.Store.Repositories.{
  get_node, list_active_grants, save_grant, append_event,
}
use bapc_vpn_and_digital_sec.Store.Commands.{publish, enqueue, has_pending}

-- `certificates.revoke`
unfoldable pub revoke_certificate : String → String → Store → Store
revoke_certificate serial reason s = record s {
  certificates =
      update_where (λ c. c.serial == serial)
        (λ c. record c { revoked = true; revocation_reason = some reason; revoked_at = some s.now })
        s.certificates;
}

-- `activeCertificateFor`: the most recently issued of the node's that is not revoked
unfoldable pub active_certificate_for : String → Store → Option Certificate
active_certificate_for node_id s =
    elim (sort (λ a b. ltb b.issued_at a.issued_at)
      (filter (λ c. c.node_id == node_id && not c.revoked) s.certificates)) [
        | [] ↦ none
        | c ∷ _ ↦ some c
      ]

unfoldable pub reauthenticate : String → Store → Store
reauthenticate node_id =
    publish "security.challenge.required" (obj (field "nodeId" (str node_id) end))

abbrev pub terminated_for : String → JitGrant → JitGrant
terminated_for reason g = record g { terminated = true; termination_reason = some reason }

-- the loop over the active grants of the node's zone
unfoldable pub terminate_grants : String → String → List JitGrant → Store → Store
terminate_grants zone reason [] s = s
terminate_grants zone reason (g ∷ gs) s = terminate_grants zone reason gs (
    if g.target_zone == zone && not g.terminated then save_grant (terminated_for reason g) s else s)

unfoldable pub terminate_jit : String → Store → Store
unfolding terminate_grants
terminate_jit node_id s = elim (get_node node_id s) [
  | none ↦ s
  | some n ↦ terminate_grants n.zone "threat correlation" (list_active_grants s.now s) s
]

unfoldable pub revoke_node_certificates : String → String → Store → Store
revoke_node_certificates node_id reason s = elim (active_certificate_for node_id s) [
  | none ↦ s
  | some c ↦ revoke_certificate c.serial reason s
]

abbrev pub rotate_identity : String
rotate_identity = "ROTATE_IDENTITY_REQUIRED"

unfoldable pub rotate_mesh_identity : String → M (Unit {0})
rotate_mesh_identity node_id s =
    if not (is_some (get_node node_id s)) || has_pending node_id rotate_identity s
    then (ok tt, s)
    else enqueue node_id rotate_identity (obj end) 200 s

-- `event` of the incident port
unfoldable pub incident_event : Severity → String → String → Json → Store → Store
incident_event severity type description metadata s =
    append_event
      (record {
        id = s.uuid s.issued;
        node_id = none;
        at_ms = s.now;
        severity = severity;
        engine = "threat-correlator";
        type = type;
        description = description;
        metadata = metadata;
      })
      (record s { issued = s.issued + 1 })

abbrev insert_incident : Incident → Store → Store
insert_incident i s = record s { incidents = s.incidents ++ i ∷ [] }

-- `open`: an identifier with no row in mesh_nodes breaks the foreign key of the first insert, and the
-- second one keeps it in the metadata.
unfoldable pub open_incident : Incident → Store → Store
open_incident i s = elim i.primary_node_id [
  | none ↦ insert_incident i s
  | some node_id ↦
      if is_some (get_node node_id s)
      then insert_incident i s
      else insert_incident (record i { primary_node_id = none; unresolved_node_id = some node_id })
          s
]

abbrev text_is : String → Option String → Bool
text_is id none = false
text_is id (some t) = t == id

abbrev pub concerns : String → Incident → Bool
concerns node_id i =
    (text_is node_id i.primary_node_id || text_is node_id i.unresolved_node_id) && i.is_open

abbrev ids_of : List Incident → List String
ids_of [] = []
ids_of (i ∷ is) = i.id ∷ ids_of is

abbrev close_event : String → String → List Incident → Store → Store
close_event node_id closed_by [] s = s
close_event node_id closed_by (i ∷ is) s =
    incident_event info "INCIDENT_RESOLVED"
      (decimal (length (i ∷ is)) <+> " incident(s) resolved for node " <+> node_id)
      (obj (
        field "nodeId" (str node_id) (
          field "closedBy" (str closed_by)
            (field "incidentIds" (arr (strings (ids_of (i ∷ is)))) end))))
      s

abbrev closed : ℕ → Incident → Incident
closed now i = record i { is_open = false; closed_at = some now }

-- `close`
unfoldable pub close_incidents : String → String → Store → ℕ × Store
close_incidents node_id closed_by s =
    let rows = filter (concerns node_id) s.incidents in
    (
      length rows,
      close_event node_id closed_by rows
          (record s { incidents = update_where (concerns node_id) (closed s.now) s.incidents }),
    )
