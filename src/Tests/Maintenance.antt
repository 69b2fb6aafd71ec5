-- ===== src/Tests/Maintenance.antt =====
-- The maintenance worker at a concrete store.
use bapc_vpn_and_digital_sec.Base.{true, ◌+◌, String, refl, Option, none, [], ◌∷◌, decimal}
use bapc_vpn_and_digital_sec.Json.{Json}
use bapc_vpn_and_digital_sec.Store.{Store}
use bapc_vpn_and_digital_sec.Store.Repositories.{audit_chain, last_audit}
use bapc_vpn_and_digital_sec.Audit.{verify, verify_from}
use bapc_vpn_and_digital_sec.Maintenance.{reconciliation_turn, outbox_turn}
use bapc_vpn_and_digital_sec.Maintenance.Laws.{
  done, reconciled, flushed, waited, Grown, turns-Grown,
}
use bapc_vpn_and_digital_sec.Tests.{one_node}

abbrev one_digest : Json → String
one_digest v = "digest"

abbrev took : String → Json → Option String
took topic payload = none

-- a node that has not acknowledged anything yet
abbrev drifting : Store
drifting = record one_node {
  desired =
      record {
        node_id = "n1";
        revision = 1;
        routes = [];
        dns_servers = "10.144.0.53" ∷ [];
        kill_switch_enabled = true;
        integrity_files = [];
        updated_at = 1;
      }
      ∷ [];
}

abbrev later : Store
later = record drifting { now = drifting.now + 60000 }

abbrev checked : Store
checked = reconciliation_turn decimal one_digest one_digest later

turns-Grown_example : Grown decimal one_digest [] (outbox_turn took checked)
unfolding verify verify_from audit_chain last_audit
turns-Grown_example =
    turns-Grown decimal one_digest [] one_digest 90 took
      (waited 60000 drifting _
        (reconciled later _ (flushed checked _ (done (outbox_turn took checked)))))
      (refl, refl, ([], refl))
