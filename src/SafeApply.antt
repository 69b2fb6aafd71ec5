-- ===== src/SafeApply.antt =====
-- src/application/safe-apply.ts, `SafeApplyService`: a staged rollout that commits only on what the
-- nodes report. The failure threshold is the fraction `bad_allowed / out_of`. Other activity (agents
-- that acknowledge, the passing of time) is a schedule: what the health probe does in each round of
-- the polling loop, and what happens to the store while the loop awaits the probe and while it sleeps.
pub mod Laws
use bapc_vpn_and_digital_sec.Base.{
  ℕ, zero, suc, ◌+◌, ◌*◌, ◌-◌, min, String, Bool, true, false, not, ◌&&◌, ◌||◌, List, [], ◌∷◌,
  Option, none, some, if◌then◌else◌, ltb, length, filter, all, eq_ℕ, map,
}
use bapc_vpn_and_digital_sec.Json.{Json, num, str, arr, obj, end, field, strings}
use bapc_vpn_and_digital_sec.Domain.{NetworkPolicy, Error, validation}
use bapc_vpn_and_digital_sec.Store.{
  Store, RolloutNode, RolloutStatus, pending, succeeded, failed, timed_out,
}
use bapc_vpn_and_digital_sec.Store.Monad.{
  M, Result, ok, err, ◌>>=◌, ◌>>◌, return, throw, gets, modify, throw_if, fresh_id, then_run,
}
use bapc_vpn_and_digital_sec.Store.Rollouts.{
  is_pending, start, summary, refresh, finalize_timeouts, mark_rolled_back,
}
use bapc_vpn_and_digital_sec.Store.Commands.{publish}
use bapc_vpn_and_digital_sec.Enforcer.{stage, commit, rollback}
use bapc_vpn_and_digital_sec.Policy.Compiler.{PolicyIrRule}

-- `verifyControlPlane` answers, rejects, or does not settle before the window ends.
pub data Probe : Type 0 where
  answers : Bool → Probe
  rejects : Error → Probe
  hangs : Probe

pub record Schedule : Type 0 where
  pub probe : ℕ → Probe
  pub probing : ℕ → Store → Store
  pub sleeping : ℕ → Store → Store

pub record Threshold : Type 0 where
  pub bad_allowed : ℕ
  pub out_of : ℕ

abbrev pub is_bad : Bool → RolloutStatus → Bool
is_bad include_timed_out failed = true
is_bad include_timed_out timed_out = include_timed_out
is_bad include_timed_out _ = false

abbrev pub count_bad : Bool → List RolloutNode → ℕ
count_bad include_timed_out rows = length (filter (λ r. is_bad include_timed_out r.status) rows)

-- `failureReason(…) !== undefined`: bad / targets > threshold
unfoldable pub has_failed : Threshold → List RolloutNode → ℕ → Bool → Bool
has_failed t rows targets include_timed_out =
    if eq_ℕ targets 0
    then false
    else ltb (t.bad_allowed * targets) (count_bad include_timed_out rows * t.out_of)

pub data Reason : Type 0 where
  control_plane_unreachable : Reason
  nodes_failed : ℕ → ℕ → Reason

unfoldable pub failure_reason : Threshold → List RolloutNode → ℕ → Bool → Option Reason
unfolding has_failed
failure_reason t rows targets include_timed_out =
    if has_failed t rows targets include_timed_out
    then some (nodes_failed (count_bad include_timed_out rows) targets)
    else none

-- the two statements after the loop
unfoldable pub after_window : Threshold → String → ℕ → M (Option Reason)
unfolding failure_reason
after_window t commit_id targets s =
    let s' = finalize_timeouts commit_id s in
    (ok (failure_reason t (summary commit_id s') targets true), s')

-- What one round of the loop decides once the probe has settled: an answer, or to sleep.
pub data Round : Type 0 where
  returns : Option Reason → Round
  throws : Error → Round
  sleeps : Round

-- `targetedNodeIds.length>0?await this.rollout.refresh(commitId):[]`
unfoldable pub refreshed : String → ℕ → Store → Store
refreshed commit_id targets s = if eq_ℕ targets 0 then s else refresh commit_id s

unfoldable pub judge_rows : Threshold → List RolloutNode → ℕ → Round
unfolding failure_reason
judge_rows t rows targets = elim (failure_reason t rows targets false) [
  | some r ↦ returns (some r)
  | none ↦
      if eq_ℕ targets 0 || all (λ r. not (is_pending r.status)) rows then returns none else sleeps
]

unfoldable pub judge_probe : Threshold → String → ℕ → Probe → Store → Round × Store
unfolding judge_rows refreshed
judge_probe t commit_id targets (rejects e) s = (throws e, s)
judge_probe t commit_id targets hangs s = (returns (some control_plane_unreachable), s)
judge_probe t commit_id targets (answers false) s = (returns (some control_plane_unreachable), s)
judge_probe t commit_id targets (answers true) s =
    let s' = refreshed commit_id targets s in
    (judge_rows t (if eq_ℕ targets 0 then [] else summary commit_id s') targets, s')

module _ (t : Threshold) (plan : Schedule) (commit_id : String) (targets deadline : ℕ) where
  -- `waitForOutcome` from round `k`; the outer `none` means that the fuel ran out
  unfoldable pub wait_for_outcome : ℕ → ℕ → Store → Option (Result (Option Reason) × Store)
  wait_for_outcome zero k s = none
  wait_for_outcome (suc fuel) k s = elim (ltb s.now deadline) [
    | false ↦ some (after_window t commit_id targets s)
    | true ↦
        let (round, s') = judge_probe t commit_id targets (plan.probe k) (plan.probing k s) in
        elim round [
          | returns r ↦ some (ok r, s')
          | throws e ↦ some (err e, s')
          | sleeps ↦ wait_for_outcome fuel (k + 1) (plan.sleeping k s')
        ]
  ]

pub data Outcome : Type 0 where
  committed : Outcome
  rolled_back : Reason → Outcome

abbrev id_field : String → Json
id_field commit_id = obj (field "commitId" (str commit_id) end)

unfoldable pub undo : String → M (Unit {0})
undo commit_id = do modify (mark_rolled_back commit_id); rollback commit_id

-- `reason_text` prints a reason, and `iso` a time.
module _ (reason_text : Reason → String) (iso : ℕ → String) where
  -- the body of the `try` once the wait is over
  unfoldable pub finish : String → Option Reason → M Outcome
  finish commit_id (some r) = do
    undo commit_id
    modify (
        publish "security.policy.rolled_back"
          (obj (field "commitId" (str commit_id) (field "reason" (str (reason_text r)) end))))
    return (rolled_back r)
  finish commit_id none = do
    modify (commit commit_id)
    modify (publish "security.policy.committed" (id_field commit_id))
    return committed

  -- the `catch`
  unfoldable pub recover : String → Result Outcome × Store → Result Outcome × Store
  recover commit_id (ok o, s) = (ok o, s)
  recover commit_id (err e, s) = then_run (undo commit_id s) (λ _. throw e)

  unfoldable pub settle :
      String → Option (Result (Option Reason) × Store) → Option (Result Outcome × Store)
  settle commit_id none = none
  settle commit_id (some waited) = some (recover commit_id (then_run waited (finish commit_id)))

  module _ (checksum : List PolicyIrRule → String) (t : Threshold) (plan : Schedule) where
    -- the statements before the `try`
    unfoldable pub prepare : List NetworkPolicy → ℕ → Option String → M (String × List String)
    prepare policies timeout_ms initiated_by = do
      throw_if (ltb timeout_ms 5000 || ltb 300000 timeout_ms)
          (validation "rollback window must be between 5 and 300 seconds")
      commit_id ← fresh_id
      targets ← stage checksum commit_id policies initiated_by
      modify (start commit_id targets)
      now ← gets (λ s. s.now)
      modify (
          publish "security.policy.staged" (
            obj (
              field "commitId" (str commit_id) (
                field "at" (str (iso now)) (
                  field "timeoutMs" (num timeout_ms)
                    (field "targetedNodeIds" (arr (strings targets)) end))))))
      return (commit_id, targets)

    unfoldable pub wait_and_settle :
        ℕ → ℕ → Result (String × List String) × Store → Option (Result Outcome × Store)
    wait_and_settle fuel timeout_ms (err e, s) = some (err e, s)
    wait_and_settle fuel timeout_ms (ok (commit_id, targets), s) =
        settle commit_id
          (wait_for_outcome t plan commit_id (length targets) (s.now + timeout_ms) fuel 0 s)

    unfoldable pub apply :
        ℕ → List NetworkPolicy → ℕ → Option String → Store → Option (Result Outcome × Store)
    unfolding prepare wait_and_settle
    apply fuel policies timeout_ms initiated_by s =
        wait_and_settle fuel timeout_ms (prepare policies timeout_ms initiated_by s)
