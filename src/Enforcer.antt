-- ===== src/Enforcer.antt =====
-- src/infrastructure/pg-policy-enforcer.ts, `PgPolicyEnforcer`: staging, committing and rolling back a
-- set of policies over the command queue, and the isolation of a node.
pub mod Laws
use bapc_vpn_and_digital_sec.Base.{
  ℕ, String, Bool, true, false, List, [], ◌∷◌, ◌++◌, Option, none, some, ◌==◌, string_eq,
  update_where, map,
}
use bapc_vpn_and_digital_sec.Json.{Json, str, arr, obj, end, field}
use bapc_vpn_and_digital_sec.Domain.{NetworkPolicy, MeshNode}
use bapc_vpn_and_digital_sec.Store.{Store, PolicyCommit, CommitStatus, staged, committed}
use bapc_vpn_and_digital_sec.Store.Monad.{
  M, Result, ok, err, ◌>>=◌, ◌>>◌, return, gets, modify, then_run, for_each,
}
use bapc_vpn_and_digital_sec.Store.Repositories.{get_node, list_nodes}
use bapc_vpn_and_digital_sec.Store.Commands.{enqueue}
use bapc_vpn_and_digital_sec.Policy.Compiler.{PolicyIrRule, compile, firewall_rules_for}

abbrev pub system_initiator : String
system_initiator = "00000000-0000-0000-0000-000000000000"

abbrev initiator : Option String → String
initiator none = system_initiator
initiator (some id) = id

unfoldable pub insert_commit : String → List NetworkPolicy → Option String → Store → Store
insert_commit commit_id policies initiated_by s = record s {
  commits =
      s.commits
      ++ record {
        id = commit_id;
        policies = policies;
        status = staged;
        initiated_by = initiator initiated_by;
        finalized_at = none;
      }
        ∷ [];
}

unfoldable pub finalize_commit : String → CommitStatus → Store → Store
finalize_commit commit_id status s = record s {
  commits =
      update_where (λ c. c.id == commit_id)
        (λ c. record c { status = status; finalized_at = some s.now }) s.commits;
}

abbrev firewall_payload : String → List NetworkPolicy → Json
firewall_payload commit_id policies = obj (
    field "commitId" (str commit_id)
      (field "defaultAction" (str "DENY") (field "rules" (arr (firewall_rules_for policies)) end)))

-- `this.compiler.compile(policies)`: only its throw matters here
abbrev pub check_compiled {ℓ} : {A : Type ℓ} → Result A → M (Unit {0})
check_compiled (ok d) s = (ok tt, s)
check_compiled (err e) s = (err e, s)

module _ (checksum : List PolicyIrRule → String) where
  unfoldable pub stage : String → List NetworkPolicy → Option String → M (List String)
  stage commit_id policies initiated_by = do
    now ← gets (λ s. s.now)
    check_compiled (compile checksum policies now)
    modify (insert_commit commit_id policies initiated_by)
    nodes ← gets list_nodes
    for_each nodes (λ n. enqueue n.id "APPLY_FIREWALL" (firewall_payload commit_id policies) 100)
    return (map (λ n. n.id) nodes)

unfoldable pub commit : String → Store → Store
unfolding finalize_commit
commit commit_id = finalize_commit commit_id committed

unfoldable pub rollback : String → M (Unit {0})
unfolding finalize_commit
rollback commit_id = do
  modify (finalize_commit commit_id CommitStatus.rolled_back)
  nodes ← gets list_nodes
  for_each nodes
      (λ n. enqueue n.id "ROLLBACK_FIREWALL" (obj (field "commitId" (str commit_id) end)) 200)

-- Nothing is queued for a node that is not enrolled.
abbrev pub if_enrolled : String → M (Unit {0}) → M (Unit {0})
if_enrolled node_id act s = elim (get_node node_id s) [ none ↦ (ok tt, s) | some _ ↦ act s ]

unfoldable pub isolate_node : String → M (Unit {0})
isolate_node node_id =
    if_enrolled node_id
      (enqueue node_id "QUARANTINE" (obj (field "reason" (str "policy enforcement point") end)) 200)

unfoldable pub restore_node : String → M (Unit {0})
restore_node node_id = if_enrolled node_id (enqueue node_id "RESTORE" (obj end) 200)
