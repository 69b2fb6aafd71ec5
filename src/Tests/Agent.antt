-- ===== src/Tests/Agent.antt =====
-- The endpoint agent on the queue of the control plane at concrete inputs.
use bapc_vpn_and_digital_sec.Base.{String, ◌≡◌, refl, true, none, [], ◌∷◌, string_eq}
use bapc_vpn_and_digital_sec.Json.{Json, obj, end}
use bapc_vpn_and_digital_sec.Domain.{Error, plain}
use bapc_vpn_and_digital_sec.Store.{Store, Command, DesiredState}
use bapc_vpn_and_digital_sec.Store.Monad.{Result, ok, err}
use bapc_vpn_and_digital_sec.Store.Commands.{latest_acknowledgement}
use bapc_vpn_and_digital_sec.Reconciliation.{kill_switch, corrected, kill_switch_in_sync}
use bapc_vpn_and_digital_sec.Agent.{Report}
use bapc_vpn_and_digital_sec.Agent.Production.{PlatformAdapter}
use bapc_vpn_and_digital_sec.Store.Repositories.{get_node}
use bapc_vpn_and_digital_sec.Agent.Production.Corrections.{
  check_of, correction, corrected_store, checks_drifted,
}
use bapc_vpn_and_digital_sec.Agent.Production.InSync.{
  correction_payload, is_in_sync, executed, execute-is_in_sync,
}
use bapc_vpn_and_digital_sec.Tests.{n1, good_posture, one_node}

abbrev done : {A : Type 0} → A → Unit {0} → Result (Unit {0}) × Unit {0}
done a p = (ok tt, p)

-- an adapter that does all it is asked
abbrev adapter : PlatformAdapter (Unit {0})
adapter = record {
  apply_wire_guard = done;
  apply_peers = done;
  rotate_private_key = done;
  apply_firewall = done;
  rollback_firewall = done;
  set_kill_switch = done;
  set_dns = done;
  isolate = done;
  restore = λ p. (ok tt, p);
  collect_posture = λ p. (ok good_posture, p);
}

abbrev no_reconciler : Json → Unit {0} → Result Report × Unit {0}
no_reconciler payload p = (err (plain "integrity failure"), p)

abbrev describe : Error → String
describe e = "failed"

abbrev hash : Json → String
hash v = "hash"

abbrev wanted : DesiredState
wanted = record {
  node_id = "n1";
  revision = 1;
  routes = [];
  dns_servers = [];
  kill_switch_enabled = true;
  integrity_files = [];
  updated_at = 1;
}

abbrev order_of : String → Json → Command
order_of type payload = record {
  id = "c1";
  node_id = "n1";
  type = type;
  payload = payload;
  priority = 150;
  issued_at = 1;
  not_before = 1;
  expires_at = 90000;
  acknowledged_at = none;
  result = none;
}

abbrev switch_on : Command
switch_on = order_of "SET_KILL_SWITCH" (correction_payload n1 wanted [] [] one_node kill_switch)

abbrev queued : Store
queued = record one_node { commands = switch_on ∷ [] }

execute-is_in_sync_example :
    is_in_sync n1 wanted [] [] queued hash kill_switch
      (executed adapter no_reconciler none hash describe "now" n1 switch_on tt queued)
    ≡ true
execute-is_in_sync_example =
    execute-is_in_sync adapter no_reconciler none hash describe "now" n1 switch_on tt tt queued
      wanted [] [] kill_switch refl refl tt refl refl refl

abbrev unknown_order : Store
unknown_order = record one_node { commands = order_of "SELF_DESTRUCT" (obj end) ∷ [] }

checks_drifted_example :
    (check_of hash n1 wanted [] [] kill_switch one_node ≡ (
      ok (corrected kill_switch "SET_KILL_SWITCH"),
      corrected_store hash n1 wanted [] [] kill_switch one_node,
    ))
    × (is_in_sync n1 wanted [] [] one_node hash kill_switch (
          executed adapter no_reconciler none hash describe "now" n1
            (correction hash n1 wanted [] [] kill_switch one_node)
            tt
            (corrected_store hash n1 wanted [] [] kill_switch one_node))
        ≡ true)
unfolding get_node kill_switch_in_sync latest_acknowledgement
checks_drifted_example =
    checks_drifted adapter no_reconciler none hash describe "now" n1 tt tt wanted [] [] kill_switch
      one_node refl tt tt refl refl
