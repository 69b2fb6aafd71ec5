-- ===== src/Store/MemoryRollouts.antt =====
-- src/infrastructure/in-memory-rollout-store.ts, `InMemoryRolloutStore`: the map of a commit's rows.
use bapc_vpn_and_digital_sec.Base.{
  String, none, List, [], ◌∷◌, map, if◌then◌else◌, ◌==◌, number_eq, string_eq, upsert,
}
use bapc_vpn_and_digital_sec.Json.{obj, end}
use bapc_vpn_and_digital_sec.Store.{RolloutNode, pending, timed_out, rolled_back}
use bapc_vpn_and_digital_sec.Store.Rollouts.{is_pending}

abbrev pub RolloutMap : Type 0
RolloutMap = List (String × List RolloutNode)

unfoldable pub rows_of : String → RolloutMap → List RolloutNode
rows_of commit_id [] = []
rows_of commit_id ((k, v) ∷ m) = if k == commit_id then v else rows_of commit_id m

unfoldable pub set_rows : String → List RolloutNode → RolloutMap → RolloutMap
set_rows commit_id v [] = (commit_id, v) ∷ []
set_rows commit_id v ((k, u) ∷ m) =
    if k == commit_id then (k, v) ∷ m else (k, u) ∷ set_rows commit_id v m

abbrev fresh_row : String → String → RolloutNode
fresh_row commit_id node_id = record {
  commit_id = commit_id;
  node_id = node_id;
  status = pending;
  acknowledged_at = none;
  details = obj end;
}

-- `rows.set(nodeId,…)`: a node that is named twice has one row
unfoldable pub fresh_rows : String → List String → List RolloutNode → List RolloutNode
fresh_rows commit_id [] rows = rows
fresh_rows commit_id (n ∷ ns) rows =
    fresh_rows commit_id ns
      (upsert (λ r. r.node_id == n) (λ r. fresh_row commit_id n) (fresh_row commit_id n) rows)

unfoldable pub start_memory : String → List String → RolloutMap → RolloutMap
unfolding fresh_rows set_rows
start_memory commit_id node_ids m = set_rows commit_id (fresh_rows commit_id node_ids []) m

abbrev change : String → (RolloutNode → RolloutNode) → RolloutMap → RolloutMap
change commit_id f [] = []
change commit_id f ((k, v) ∷ m) =
    if k == commit_id then (k, map f v) ∷ m else (k, v) ∷ change commit_id f m

abbrev time_out : RolloutNode → RolloutNode
time_out r = if is_pending r.status then record r { status = timed_out } else r

unfoldable pub finalize_memory : String → RolloutMap → RolloutMap
finalize_memory commit_id m = change commit_id time_out m

unfoldable pub mark_memory : String → RolloutMap → RolloutMap
mark_memory commit_id m = change commit_id (λ r. record r { status = rolled_back }) m
