-- ===== src/Store/Rollouts.antt =====
-- src/infrastructure/pg-rollout-store.ts, `PgRolloutStore`: the state of a rollout at each of its nodes.
use bapc_vpn_and_digital_sec.Base.{
  String, Bool, true, false, ◌&&◌, List, [], ◌∷◌, ◌++◌, none, some, ◌==◌, string_eq, if◌then◌else◌,
  any, filter, update_where,
}
use bapc_vpn_and_digital_sec.Json.{obj, end, get_field, is_text}
use bapc_vpn_and_digital_sec.Store.{
  Store, RolloutNode, RolloutStatus, pending, succeeded, failed, timed_out, Acknowledgement,
}

abbrev pub is_pending : RolloutStatus → Bool
is_pending pending = true
is_pending _ = false

abbrev row_of : String → String → RolloutNode → Bool
row_of commit_id node_id r = r.commit_id == commit_id && r.node_id == node_id

-- `INSERT … ON CONFLICT(commit_id,node_id) DO NOTHING`
abbrev insert_pending : String → String → List RolloutNode → List RolloutNode
insert_pending commit_id node_id rows =
    if any (row_of commit_id node_id) rows
    then rows
    else rows
      ++ record {
        commit_id = commit_id;
        node_id = node_id;
        status = pending;
        acknowledged_at = none;
        details = obj end;
      }
        ∷ []

unfoldable pub start_rows : String → List String → List RolloutNode → List RolloutNode
start_rows commit_id [] rows = rows
start_rows commit_id (n ∷ ns) rows = start_rows commit_id ns (insert_pending commit_id n rows)

unfoldable pub start : String → List String → Store → Store
unfolding start_rows
start commit_id node_ids s = record s { rollouts = start_rows commit_id node_ids s.rollouts }

unfoldable pub summary : String → Store → List RolloutNode
summary commit_id s = filter (λ r. r.commit_id == commit_id) s.rollouts

abbrev acked_for : String → Acknowledgement → Bool
acked_for commit_id a =
    a.command_type == "APPLY_FIREWALL" && is_text commit_id (get_field "commitId" a.details)

-- A status other than SUCCEEDED counts as a failure.
abbrev pub outcome_of : String → RolloutStatus
outcome_of status = if status == "SUCCEEDED" then succeeded else failed

abbrev advance : String → Acknowledgement → List RolloutNode → List RolloutNode
advance commit_id a rows =
    update_where (λ r. row_of commit_id a.node_id r && is_pending r.status)
      (λ r. record r {
        status = outcome_of a.status;
        acknowledged_at = some a.acknowledged_at;
        details = a.details;
      })
      rows

-- the loop of `refresh` over the acknowledgements
unfoldable pub advance_all : String → List Acknowledgement → List RolloutNode → List RolloutNode
advance_all commit_id [] rows = rows
advance_all commit_id (a ∷ acks) rows = advance_all commit_id acks (advance commit_id a rows)

unfoldable pub refresh : String → Store → Store
unfolding advance_all
refresh commit_id s = record s {
  rollouts = advance_all commit_id (filter (acked_for commit_id) s.acks) s.rollouts;
}

unfoldable pub finalize_timeouts : String → Store → Store
finalize_timeouts commit_id s = record s {
  rollouts =
      update_where (λ r. r.commit_id == commit_id && is_pending r.status)
        (λ r. record r { status = timed_out }) s.rollouts;
}

unfoldable pub mark_rolled_back : String → Store → Store
mark_rolled_back commit_id s = record s {
  rollouts =
      update_where (λ r. r.commit_id == commit_id)
        (λ r. record r { status = RolloutStatus.rolled_back }) s.rollouts;
}
