-- ===== src/KeyRotation.antt =====
-- src/application/key-rotation-scheduler.ts (`KeyRotationSchedulerService`) and
-- services/mesh-controller/pg-key-rotation-ledger.ts (`PgKeyRotationLedger`).
pub mod Laws
use bapc_vpn_and_digital_sec.Base.{
  ℕ, ◌+◌, ◌*◌, max, String, Bool, true, false, not, List, [], ◌∷◌, ◌++◌, ◌==◌, string_eq,
  if◌then◌else◌, ltb, length, contains,
}
use bapc_vpn_and_digital_sec.Json.{obj, end}
use bapc_vpn_and_digital_sec.Store.{Store, KeyRotation}
use bapc_vpn_and_digital_sec.Store.Monad.{M, ok, err, ◌>>=◌, ◌>>◌, return, gets, for_each, then_run}
use bapc_vpn_and_digital_sec.Store.Commands.{enqueue, has_pending}
use bapc_vpn_and_digital_sec.Threat.Ports.{rotate_identity}

-- `COALESCE(MAX(epoch),0)` over the rows of a node
unfoldable pub max_epoch : String → List KeyRotation → ℕ
max_epoch node_id [] = 0
max_epoch node_id (r ∷ rs) =
    max (if r.node_id == node_id then r.epoch else 0) (max_epoch node_id rs)

-- `rotate` of a node that has a row, where no other rotation of the node takes the epoch in between: the first
-- attempt succeeds. The foreign key to mesh_nodes and the retry on a conflict are left out.
unfoldable pub rotate : String → String → Store → ℕ × Store
unfolding max_epoch
rotate node_id new_public_key s =
    let epoch = max_epoch node_id s.rotations + 1 in
    (
      epoch,
      record s {
        rotations =
            s.rotations
            ++ record {
              node_id = node_id;
              epoch = epoch;
              new_public_key = new_public_key;
              rotated_at = s.now;
            }
              ∷ [];
      },
    )

-- `MAX(rotated_at)` over the rows of a node
unfoldable pub last_rotated : String → List KeyRotation → ℕ
last_rotated node_id [] = 0
last_rotated node_id (r ∷ rs) =
    max (if r.node_id == node_id then r.rotated_at else 0) (last_rotated node_id rs)

-- `GROUP BY node_id`: each node once
unfoldable pub rotated_nodes : List KeyRotation → List String
rotated_nodes [] = []
rotated_nodes (r ∷ rs) =
    let rest = rotated_nodes rs in if contains rest r.node_id then rest else r.node_id ∷ rest

abbrev pub is_overdue : ℕ → Store → String → Bool
is_overdue max_age_days s node_id =
    ltb (last_rotated node_id s.rotations + max_age_days * 86400000) s.now

unfoldable pub overdue_among : ℕ → Store → List String → List String
overdue_among max_age_days s [] = []
overdue_among max_age_days s (n ∷ ns) =
    if is_overdue max_age_days s n
    then n ∷ overdue_among max_age_days s ns
    else overdue_among max_age_days s ns

unfoldable pub nodes_overdue_for_rotation : ℕ → Store → List String
unfolding overdue_among rotated_nodes last_rotated
nodes_overdue_for_rotation max_age_days s = overdue_among max_age_days s (rotated_nodes s.rotations)

-- the body of the loop of `run`
unfoldable pub request_rotation : String → M (Unit {0})
request_rotation node_id s =
    if has_pending node_id rotate_identity s
    then (ok tt, s)
    else enqueue node_id rotate_identity (obj end) 200 s

pub record Sweep : Type 0 where
  pub checked : ℕ
  pub node_ids : List String

unfoldable pub run : ℕ → M Sweep
unfolding nodes_overdue_for_rotation
run max_age_days = do
  overdue ← gets (nodes_overdue_for_rotation max_age_days)
  for_each overdue request_rotation
  return (record { checked = length overdue; node_ids = overdue })
