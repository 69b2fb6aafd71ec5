-- ===== src/Tests/Rollout.antt =====
-- A rollout and the audit chain at concrete inputs.
use bapc_vpn_and_digital_sec.Base.{
  ℕ, ◌+◌, String, ◌≡◌, refl, true, false, Option, some, [], ◌∷◌, arith, number_eq, string_eq,
  decimal,
}
use bapc_vpn_and_digital_sec.Json.{Json, end, get_field, obj, str}
use bapc_vpn_and_digital_sec.Domain.{AuditRecord}
use bapc_vpn_and_digital_sec.Store.{Store, RolloutNode, succeeded}
use bapc_vpn_and_digital_sec.Store.Monad.{Result}
use bapc_vpn_and_digital_sec.Store.Repositories.{last_audit, audit_chain}
use bapc_vpn_and_digital_sec.Store.Rollouts.{summary, refresh, advance_all}
use bapc_vpn_and_digital_sec.SafeApply.{
  answers, Schedule, Threshold, Reason, wait_for_outcome, judge_probe, judge_rows, failure_reason,
  has_failed, refreshed,
}
use bapc_vpn_and_digital_sec.SafeApply.Laws.{
  BearsOut, wait_for_outcome_commits, wait_for_outcome_ends,
}
use bapc_vpn_and_digital_sec.Audit.{
  next_sequence, contents, make_record, record_audit, verify_from, verify,
}
use bapc_vpn_and_digital_sec.Audit.Races.{Entry, drafted, race, race_broken}
use bapc_vpn_and_digital_sec.Audit.Laws.{record_audit-verify, verify_from_tampered}
use bapc_vpn_and_digital_sec.Tests.{empty_store, one_node}

abbrev row : RolloutNode
row = record {
  commit_id = "c1";
  node_id = "n1";
  status = succeeded;
  acknowledged_at = some 900;
  details = obj end;
}

abbrev rolled_out : Store
rolled_out = record one_node { rollouts = row ∷ [] }

abbrev always_up : Schedule
always_up = record {
  probe = λ k. answers true;
  probing = λ k s. s;
  sleeping = λ k s. record s { now = s.now + 1000 };
}

abbrev none_may_fail : Threshold
none_may_fail = record { bad_allowed = 0; out_of = 1 }

wait_for_outcome_commits_example : BearsOut none_may_fail 1 (summary "c1" rolled_out)
unfolding wait_for_outcome judge_probe judge_rows failure_reason has_failed refreshed refresh
    advance_all summary
wait_for_outcome_commits_example =
    wait_for_outcome_commits none_may_fail always_up "c1" 1 6000 1 0 rolled_out rolled_out refl refl

wait_for_outcome_ends_example :
    (r : Result (Option Reason) × Store) × (wait_for_outcome none_may_fail always_up "c1" 1 6000
        5001 0 rolled_out
      ≡ some r)
wait_for_outcome_ends_example =
    wait_for_outcome_ends none_may_fail always_up "c1" 1 6000 5000 0 rolled_out (λ k s. omega arith)
      (λ k s. omega arith) (omega arith)

abbrev digest_of : Json → String
digest_of v = "digest"

abbrev iso_of : ℕ → String
iso_of n = decimal n

record_audit_example :
    (verify iso_of digest_of
        (record_audit iso_of digest_of "u1" "LOGIN" "n1" (obj end) empty_store).1
      ≡ true)
    × (last_audit (record_audit iso_of digest_of "u1" "LOGIN" "n1" (obj end) empty_store).1
        ≡ some (make_record iso_of digest_of "u1" "LOGIN" "n1" (obj end) empty_store))
    × ((record_audit iso_of digest_of "u1" "LOGIN" "n1" (obj end) empty_store).1.audit_identity
        ≡ next_sequence
            (last_audit (record_audit iso_of digest_of "u1" "LOGIN" "n1" (obj end) empty_store).1))
unfolding verify verify_from audit_chain last_audit
record_audit_example =
    record_audit-verify iso_of digest_of "u1" "LOGIN" "n1" (obj end) empty_store refl refl

abbrev audit_row : ℕ → String → String → AuditRecord
audit_row n actor previous = record {
  sequence = n;
  at_ms = 5;
  actor = actor;
  action = "LOGIN";
  subject = "n1";
  payload = obj end;
  previous_hash = previous;
  hash = "digest";
}

verify_from_tampered_example :
    (digest_of (obj end) ≡ "digest")
    × (digest_of (contents iso_of digest_of (audit_row 1 "mallory" "GENESIS"))
        ≡ digest_of (contents iso_of digest_of (audit_row 1 "alice" "GENESIS")))
unfolding verify_from
verify_from_tampered_example =
    verify_from_tampered iso_of digest_of "GENESIS" [] [] (audit_row 1 "alice" "GENESIS")
      (audit_row 1 "mallory" "GENESIS") (audit_row 2 "bob" "digest") refl refl

-- a digest that tells the actors apart
abbrev actor_digest : Json → String
actor_digest v = elim (get_field "actor" v) [ some (str actor) ↦ actor | _ ↦ "" ]

abbrev action_of : String → Entry
action_of actor = record { actor = actor; action = "LOGIN"; subject = "n1"; payload = obj end }

race_broken_example :
    verify iso_of actor_digest
      (race iso_of actor_digest (action_of "alice") (action_of "bob") empty_store)
    ≡ false
unfolding drafted make_record contents last_audit
race_broken_example =
    race_broken iso_of actor_digest (action_of "alice") (action_of "bob") empty_store refl refl
