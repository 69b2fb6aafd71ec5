-- ===== src/KeyRotation/Laws.antt =====
-- The ledger of rotations and the sweep (services/mesh-controller/pg-key-rotation-ledger.ts,
-- src/application/key-rotation-scheduler.ts).
use bapc_vpn_and_digital_sec.Base.{
  ℕ, ◌+◌, ◌≤◌, ◌<◌, max, String, ◌≡◌, refl, inl, inr, true, false, some, List, [], ◌∷◌, ◌++◌, arith,
  if◌then◌else◌, ◌==◌, number_eq, string_eq, ==_refl, Bool-cases, All,
}
use bapc_vpn_and_digital_sec.Domain.{MeshNode}
use bapc_vpn_and_digital_sec.Store.{Store, KeyRotation}
use bapc_vpn_and_digital_sec.Store.Monad.{ok}
use bapc_vpn_and_digital_sec.Store.Repositories.{get_node}
use bapc_vpn_and_digital_sec.Store.Commands.{has_pending}
use bapc_vpn_and_digital_sec.Store.Commands.Laws.{enqueue-has_pending}
use bapc_vpn_and_digital_sec.Threat.Ports.{rotate_identity}
use bapc_vpn_and_digital_sec.KeyRotation.{max_epoch, rotate, request_rotation}

max_epoch-bound :
    (node_id : String) (rows : List KeyRotation) (m : ℕ)
    → max_epoch node_id rows ≤ m
    → All (λ r. r.node_id ≡ node_id → r.epoch ≤ m) rows
unfolding max_epoch
max_epoch-bound node_id [] m h = tt
max_epoch-bound node_id (r ∷ rows) m h =
    (λ e. ground (arith, ==_refl node_id), max_epoch-bound node_id rows m (ground arith))

max_epoch-append :
    (node_id : String) (rows : List KeyRotation) (r : KeyRotation)
    → max_epoch node_id (rows ++ r ∷ [])
      ≡ max (max_epoch node_id rows) (if r.node_id == node_id then r.epoch else 0)
unfolding max_epoch
max_epoch-append node_id [] r = ground arith
max_epoch-append node_id (x ∷ rows) r = ground (arith, max_epoch-append node_id rows r)

below :
    (node_id : String) (rows : List KeyRotation) (m : ℕ)
    → All (λ r. r.node_id ≡ node_id → r.epoch ≤ m) rows
    → All (λ r. r.node_id ≡ node_id → r.epoch < m + 1) rows
below node_id [] m h = tt
below node_id (r ∷ rows) m h = (λ e. omega (arith, h.0 e), below node_id rows m h.1)

abbrev row_of : String → String → Store → KeyRotation
row_of node_id key s = record {
  node_id = node_id;
  epoch = max_epoch node_id s.rotations + 1;
  new_public_key = key;
  rotated_at = s.now;
}

asked :
    (node_id : String) (s : Store) (n : MeshNode)
    → get_node node_id s ≡ some n
    → has_pending node_id rotate_identity (request_rotation node_id s).1 ≡ true
unfolding request_rotation
asked node_id s n e = elim (Bool-cases (has_pending node_id rotate_identity s)) [
  | inl h ↦ rw (request_rotation, h) h
  | inr h ↦ rw (request_rotation, h) (enqueue-has_pending node_id rotate_identity _ 200 s n e)
]

-- A rotation gets an epoch greater than every epoch of the node so far, it becomes the node's largest,
-- and the largest epoch of every other node stays.
pub rotate-max_epoch :
    (node_id key other : String) (s : Store)
    → (node_id == other) ≡ false
    → All (λ r. r.node_id ≡ node_id → r.epoch < (rotate node_id key s).0) s.rotations
      × (max_epoch node_id (rotate node_id key s).1.rotations ≡ (rotate node_id key s).0)
      × (max_epoch other (rotate node_id key s).1.rotations ≡ max_epoch other s.rotations)
unfolding rotate
rotate-max_epoch node_id key other s h = (
  below node_id s.rotations (max_epoch node_id s.rotations)
      (max_epoch-bound node_id s.rotations (max_epoch node_id s.rotations) (omega arith)),
  ground (arith, max_epoch-append node_id s.rotations (row_of node_id key s), ==_refl node_id),
  ground (arith, max_epoch-append other s.rotations (row_of node_id key s)),
)

-- Asking an enrolled node for a new identity twice queues one command: after the first time one is
-- pending, and the second time changes nothing.
pub request_rotation_twice :
    (node_id : String) (s : Store) (n : MeshNode)
    → get_node node_id s ≡ some n
    → (has_pending node_id rotate_identity (request_rotation node_id s).1 ≡ true)
      × (request_rotation node_id (request_rotation node_id s).1
          ≡ (ok tt, (request_rotation node_id s).1))
unfolding request_rotation
request_rotation_twice node_id s n e =
    let h = asked node_id s n e in (h, rw (request_rotation, h) refl)
