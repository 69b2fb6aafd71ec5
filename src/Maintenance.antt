-- ===== src/Maintenance.antt =====
-- src/runtime/maintenance-worker.ts: the turns of its loops. A turn catches every error and logs it, so it is
-- a function from store to store. `iso`, `digest` and `hash` are those of Audit and Reconciliation, and
-- `send` is the sink of the outbox. The retention loop calls functions of the database and is left out.
pub mod Steps
pub mod Laws
use bapc_vpn_and_digital_sec.Base.{
  ℕ, zero, suc, String, Bool, true, false, List, [], ◌∷◌, Option, none, some, filter, decimal,
  ◌<+>◌,
}
use bapc_vpn_and_digital_sec.Json.{Json, Items, nil, cons, str, arr, obj, Fields, end, field}
use bapc_vpn_and_digital_sec.Store.{Store, DesiredState}
use bapc_vpn_and_digital_sec.Store.Monad.{
  M, Result, ok, err, then_run, ◌>>=◌, ◌>>◌, return, gets, for_each,
}
use bapc_vpn_and_digital_sec.Store.Outbox.{flush}
use bapc_vpn_and_digital_sec.Audit.{record_audit}
use bapc_vpn_and_digital_sec.Reconciliation.{
  DriftDimension, routes_and_integrity, dns, kill_switch, peer_topology, policy_version,
  DriftFinding, check_all,
}
use bapc_vpn_and_digital_sec.KeyRotation.{run}

abbrev reconciliation_actor : String
reconciliation_actor = "system:maintenance-worker"

abbrev dimension_name : DriftDimension → String
dimension_name routes_and_integrity = "ROUTES_AND_INTEGRITY"
dimension_name dns = "DNS"
dimension_name kill_switch = "KILL_SWITCH"
dimension_name peer_topology = "PEER_TOPOLOGY"
dimension_name policy_version = "POLICY_VERSION"

abbrev corrected_by_field : Option String → Fields
corrected_by_field none = end
corrected_by_field (some by) = field "correctedBy" (str by) end

abbrev findings_json : List DriftFinding → Items
findings_json [] = nil
findings_json (f ∷ fs) =
    cons
      (obj
        (field "dimension" (str (dimension_name f.dimension)) (corrected_by_field f.corrected_by)))
      (findings_json fs)

-- the results of `checkAll` with the nodes that they are of
abbrev of_nodes : List DesiredState → List (List DriftFinding) → List (String × List DriftFinding)
of_nodes [] results = []
of_nodes (d ∷ ds) [] = []
of_nodes (d ∷ ds) (r ∷ rs) = (d.node_id, r) ∷ of_nodes ds rs

module _ (iso : ℕ → String) (digest : Json → String) where
  abbrev pub note : String → String → Json → M (Unit {0})
  note action subject payload =
      record_audit iso digest reconciliation_actor action subject payload >> return tt

  abbrev pub note_drift : String → List DriftFinding → M (Unit {0})
  note_drift node_id [] s = (ok tt, s)
  note_drift node_id (f ∷ fs) s =
      note "NODE_RECONCILED" node_id (obj (field "corrected" (arr (findings_json (f ∷ fs))) end)) s

  -- the loop over the results
  unfoldable pub record_drift : List (String × List DriftFinding) → M (Unit {0})
  record_drift results =
      for_each results
        (λ (node_id, findings). note_drift node_id (filter (λ f. f.drifted) findings))

  unfoldable pub reconcile_all : (Json → String) → M (Unit {0})
  reconcile_all hash = do
    states ← gets (λ s. s.desired)
    results ← check_all hash
    record_drift (of_nodes states results)

  -- a turn of `runReconciliationLoop`
  unfoldable pub reconciliation_turn : (Json → String) → Store → Store
  unfolding reconcile_all
  reconciliation_turn hash s = (reconcile_all hash s).1

  abbrev reason : ℕ → Json
  reason days =
      obj (field "reason" (str ("key not rotated within " <+> decimal days <+> " days")) end)

  -- Where no node was checked, the list of nodes is empty.
  unfoldable pub request_rotations : ℕ → M (Unit {0})
  request_rotations days = do
    sweep ← run days
    for_each sweep.node_ids (λ id. note "KEY_ROTATION_REQUESTED" id (reason days))

  -- a turn of `runKeyRotationLoop`
  unfoldable pub key_rotation_turn : ℕ → Store → Store
  unfolding request_rotations
  key_rotation_turn days s = (request_rotations days s).1

-- a turn of `runOutboxLoop`
unfoldable pub outbox_turn : (String → Json → Option String) → Store → Store
outbox_turn send s = record s { outbox = (flush send s.now 100 s.outbox).1 }
