-- ===== src/Maintenance/Laws.antt =====
-- What the loops of src/runtime/maintenance-worker.ts do to the audit chain, in whatever order their turns
-- come.
use bapc_vpn_and_digital_sec.Base.{
  ℕ, ◌+◌, String, ◌≡◌, refl, ap, ◌∙◌, true, List, [], ◌∷◌, ◌++◌, Option, string_eq, number_eq,
  filter,
}
use bapc_vpn_and_digital_sec.Json.{Json}
use bapc_vpn_and_digital_sec.Domain.{AuditRecord}
use bapc_vpn_and_digital_sec.Store.{Store}
use bapc_vpn_and_digital_sec.Store.Repositories.{append_audit, last_audit, audit_chain}
use bapc_vpn_and_digital_sec.Audit.{next_sequence, record_audit, make_record, verify}
use bapc_vpn_and_digital_sec.Audit.Laws.{record_audit-verify}
use bapc_vpn_and_digital_sec.Reconciliation.{DriftFinding, check_all}
use bapc_vpn_and_digital_sec.KeyRotation.{run}
use bapc_vpn_and_digital_sec.Maintenance.Steps.{
  Preserves, bind-Preserves, for_each-Preserves, check_all-Preserves, run-Preserves,
}
use bapc_vpn_and_digital_sec.Maintenance.{
  note, note_drift, record_drift, reconcile_all, reconciliation_turn, request_rotations,
  key_rotation_turn, outbox_turn,
}

module _ (iso : ℕ → String) (digest hash : Json → String) (days : ℕ)
    (send : String → Json → Option String) where
  -- turns of the three loops, one at a time, and time between them
  pub data Turns : Store → Store → Type 0 where
    done : (s : Store) → Turns s s
    reconciled : (s t : Store) → Turns (reconciliation_turn iso digest hash s) t → Turns s t
    rotated : (s t : Store) → Turns (key_rotation_turn iso digest days s) t → Turns s t
    flushed : (s t : Store) → Turns (outbox_turn send s) t → Turns s t
    waited : (by : ℕ) (s t : Store) → Turns (record s { now = s.now + by }) t → Turns s t

module _ (iso : ℕ → String) (digest : Json → String) (base : List AuditRecord) where
  -- The chain verifies, the identity column stands one past the last row, and the rows so far stand first.
  abbrev pub Grown : Store → Type 0
  Grown s =
      (verify iso digest s ≡ true)
      × (s.audit_identity ≡ next_sequence (last_audit s))
      × ((later : List AuditRecord) × (s.audits ≡ base ++ later))

module _ (iso : ℕ → String) (digest : Json → String) (base : List AuditRecord) where
  abbrev P : Store → Type 0
  P = Grown iso digest base

  Grown-of : (s t : Store) → t.audits ≡ s.audits → t.audit_identity ≡ s.audit_identity → P s → P t
  unfolding verify last_audit audit_chain
  Grown-of s t e f h = rw (e, f) h

  append_assoc :
      (xs ys : List AuditRecord) (a : AuditRecord) → (xs ++ ys) ++ a ∷ [] ≡ xs ++ (ys ++ a ∷ [])
  append_assoc [] ys a = refl
  append_assoc (x ∷ xs) ys a = rw (append_assoc xs ys a) refl

  record_audit-Grown :
      (actor action subject : String) (payload : Json)
      → Preserves P (record_audit iso digest actor action subject payload)
  unfolding record_audit append_audit
  record_audit-Grown actor action subject payload s (v, i, (later, e)) =
      let (v', _, i') = record_audit-verify iso digest actor action subject payload s v i in
      let row : AuditRecord = record (make_record iso digest actor action subject payload s) {
        sequence = s.audit_identity;
      } in
      (v', i', (later ++ row ∷ [], ap (λ rows. rows ++ row ∷ []) e ∙ append_assoc base later row))

  note-Grown :
      (action subject : String) (payload : Json)
      → Preserves P (note iso digest action subject payload)
  note-Grown action subject payload =
      bind-Preserves P (record_audit iso digest _ action subject payload) _
        (record_audit-Grown _ action subject payload) (λ _ t g. g)

  note_drift-Grown :
      (id : String) (fs : List DriftFinding) → Preserves P (note_drift iso digest id fs)
  note_drift-Grown id [] s h = h
  note_drift-Grown id (f ∷ fs) s h = note-Grown "NODE_RECONCILED" id _ s h

  record_drift-Grown :
      (results : List (String × List DriftFinding)) → Preserves P (record_drift iso digest results)
  unfolding record_drift
  record_drift-Grown results =
      for_each-Preserves P results _ (λ (id, fs). note_drift-Grown id (filter (λ f. f.drifted) fs))

  reconcile_all-Grown : (hash : Json → String) → Preserves P (reconcile_all iso digest hash)
  unfolding reconcile_all
  reconcile_all-Grown hash s =
      bind-Preserves P (check_all hash) _ (check_all-Preserves P Grown-of hash)
        (λ results. record_drift-Grown _) s

  request_rotations-Grown : (days : ℕ) → Preserves P (request_rotations iso digest days)
  unfolding request_rotations
  request_rotations-Grown days =
      bind-Preserves P (run days) _ (run-Preserves P Grown-of days) (λ sweep.
        for_each-Preserves P sweep.node_ids _ (λ id. note-Grown "KEY_ROTATION_REQUESTED" id _))

  -- Whatever the order of the turns of the three loops is, each running to its end before the next one, and whether
  -- they succeed or fail: from a chain that verifies, its identity column one past the last row, they lead to
  -- one that verifies in the same way, and in which the rows of before stand first, unchanged.
  pub turns-Grown :
      (hash : Json → String) (days : ℕ) (send : String → Json → Option String) {s t : Store}
      → Turns iso digest hash days send s t
      → Grown iso digest base s
      → Grown iso digest base t
  unfolding reconciliation_turn key_rotation_turn outbox_turn
  turns-Grown hash days send (done s) h = h
  turns-Grown hash days send (reconciled s t more) h =
      turns-Grown hash days send more (reconcile_all-Grown hash s h)
  turns-Grown hash days send (rotated s t more) h =
      turns-Grown hash days send more (request_rotations-Grown days s h)
  turns-Grown hash days send (flushed s t more) h =
      turns-Grown hash days send more (Grown-of s _ refl refl h)
  turns-Grown hash days send (waited by s t more) h =
      turns-Grown hash days send more (Grown-of s _ refl refl h)
